-- ===== src/Trace/Reader/Ends.antt =====
-- src/common/trace.cpp: the loop of `Reader::next` comes to its end.
use multicore_oo_o_sim.Base.{
  ℕ, zero, suc, ◌+◌, ◌*◌, ◌<◌, ◌≡◌, refl, arith, Bool, true, false, Option, none, some, List, [],
  ◌∷◌, ◌==◌, not, if-cases, length, Result, ok, throw, ◌>>=◌,
}
use multicore_oo_o_sim.Trace.Bytes.{get_le}
use multicore_oo_o_sim.Trace.Format.{
  Variant, standard, casim_v2, Record, SyncRecord, LifecycleRecord, read_instr_payload,
  read_sync_payload, read_lifecycle_payload, type_instr, type_sync, type_lifecycle, read_standard,
}
use multicore_oo_o_sim.Trace.Lengths.{Used, read_sync_payload-Used, read_lifecycle_payload-Used}
use multicore_oo_o_sim.Trace.Reader.{
  SyncSink, Reader, Turn, return, again, counted, pass, gated, on_sync, on_lifecycle_record,
  on_type, read_typed, read_one, released, poll, turn, after_turn, next_loop, next, next_on,
  next_standard, sync_needs_gate, sync_surfaces_as_pseudo,
}

module _ {S : Type 0} where
  -- Another round has less of the stream before it.
  abbrev Shrinks : ℕ → Result (Turn S) → Type 0
  Shrinks n throw = n ≡ n
  Shrinks n (ok (return found r σ)) = n ≡ n
  Shrinks n (ok (again r σ)) = length r.stream < n

module _ {S : Type 0} (sink : SyncSink S) (n : ℕ) where
  pass-Shrinks :
      (s : SyncRecord) (r : Reader) (σ : S) → length r.stream < n → Shrinks n (ok (pass sink s r σ))
  unfolding pass
  pass-Shrinks s r σ h =
      if-cases (λ (t : Turn S). Shrinks n (ok t)) (sync_surfaces_as_pseudo s.kind) _ _ (λ p. refl)
        (λ p. h)

  on_sync-Shrinks :
      (s : SyncRecord) (r : Reader) (σ : S) → length r.stream < n → Shrinks n (on_sync sink s r σ)
  unfolding on_sync
  on_sync-Shrinks s r σ h =
      if-cases (Shrinks n) (not r.has_sink) _ _ (λ p. h)
        (λ p.
          if-cases (Shrinks n) (sync_needs_gate s.kind) _ _
            (λ p. after (sink.try_consume_sync r.sync_tid s σ)) (λ p. pass-Shrinks s r σ h))
    where
      after : (x : Result (Bool × S)) → Shrinks n (x >>= λ a. ok (gated sink s r a))
      after throw = refl
      after (ok (true, σ)) = pass-Shrinks s r σ h
      after (ok (false, σ)) = refl

  on_lifecycle_record-Shrinks :
      (l : LifecycleRecord) (r : Reader) (σ : S)
      → length r.stream < n
      → Shrinks n (on_lifecycle_record sink l r σ)
  unfolding on_lifecycle_record
  on_lifecycle_record-Shrinks l r σ h =
      if-cases (Shrinks n) r.has_sink _ _ (λ p. after (sink.on_lifecycle r.sync_tid l σ)) (λ p. h)
    where
      after : (x : Result S) → Shrinks n (x >>= λ σ. ok (again r σ))
      after throw = refl
      after (ok σ) = h

  after_payload :
      {A : Type 0} (s : List ℕ) (x : Result (A × List ℕ)) (k : A × List ℕ → Result (Turn S))
      → length s < n
      → Used 63 s x
      → ((a : A) (t : List ℕ) → length t < n → Shrinks n (k (a, t)))
      → Shrinks n (x >>= k)
  after_payload s throw k h u f = refl
  after_payload s (ok (a, t)) k h u f = f a t (omega (arith, h, u))

  on_type-Shrinks :
      (t : ℕ) (s : List ℕ) (r : Reader) (σ : S) → length s < n → Shrinks n (on_type sink t s r σ)
  unfolding on_type
  on_type-Shrinks t s r σ h =
      if-cases (Shrinks n) (t == type_instr) _ _ (λ p. instr_ends (read_instr_payload s))
        (λ p.
          if-cases (Shrinks n) (t == type_sync) _ _
            (λ p.
              after_payload s (read_sync_payload s) _ h (read_sync_payload-Used s)
                (λ y u l. on_sync-Shrinks y (record r { stream = u }) σ l))
            (λ p.
              if-cases (Shrinks n) (t == type_lifecycle) _ _
                (λ p.
                  after_payload s (read_lifecycle_payload s) _ h (read_lifecycle_payload-Used s)
                    (λ y u l. on_lifecycle_record-Shrinks y (record r { stream = u }) σ l))
                (λ p. refl)))
    where
      instr_ends :
          (x : Result (Record × List ℕ))
          → Shrinks n (x >>= λ (i, s). ok (return (some i) (counted (record r { stream = s })) σ))
      instr_ends throw = refl
      instr_ends (ok (i, u)) = refl

module _ {S : Type 0} (sink : SyncSink S) where
  read_one-Shrinks : (r : Reader) (σ : S) → Shrinks (length r.stream) (read_one sink r σ)
  unfolding get_le
  read_one-Shrinks r σ = at_byte r.stream
    where
      at_byte : (s : List ℕ) → Shrinks (length s) (read_typed sink (get_le 1 s) r σ)
      at_byte [] = refl
      at_byte (b ∷ s) = on_type-Shrinks sink (suc (length s)) (b + 256 * 0) s r σ (omega arith)

  turn-Shrinks : (r : Reader) (σ : S) → Shrinks (length r.stream) (turn sink r σ)
  turn-Shrinks r σ = by_pending r.pending_sync
    where
      after_poll :
          (held : SyncRecord) (x : Result (Bool × S))
          → Shrinks (length r.stream) (x >>= released sink held r)
      after_poll held throw = refl
      after_poll held (ok (false, σ)) = refl
      after_poll held (ok (true, σ)) =
          if-cases (Shrinks (length r.stream)) (sync_surfaces_as_pseudo held.kind) _ _ (λ p. refl)
            (λ p. read_one-Shrinks (record r { pending_sync = none }) σ)

      by_pending : (p : Option SyncRecord) → Shrinks (length r.stream) (poll sink p r σ)
      by_pending none = read_one-Shrinks r σ
      by_pending (some held) =
          if-cases (Shrinks (length r.stream)) r.has_sink _ _
            (λ p. after_poll held (sink.try_consume_sync r.sync_tid held σ)) (λ p. refl)

  abbrev Ended : Option (Result (Option Record × (Reader × S))) → Type 0
  Ended o = (x : Result (Option Record × (Reader × S))) × (o ≡ some x)

  after_turn-Ended :
      (n : ℕ) (next : Reader → S → Option (Result (Option Record × (Reader × S))))
      (t : Result (Turn S))
      → ((r : Reader) (σ : S) → length r.stream < n → Ended (next r σ))
      → Shrinks n t
      → Ended (after_turn sink next t)
  after_turn-Ended n next throw f u = (throw, refl)
  after_turn-Ended n next (ok (return found r σ)) f u = (ok (found, (r, σ)), refl)
  after_turn-Ended n next (ok (again r σ)) f u = f r σ u

  -- With more fuel than bytes the loop ends.
  next_loop-Ended :
      (fuel : ℕ) (r : Reader) (σ : S) → length r.stream < fuel → Ended (next_loop sink fuel r σ)
  unfolding next_loop
  next_loop-Ended zero r σ h = absurd (omega (arith, h))
  next_loop-Ended (suc fuel) r σ h =
      after_turn-Ended (length r.stream) (next_loop sink fuel) (turn sink r σ)
        (λ q τ l. next_loop-Ended fuel q τ (omega (arith, h, l))) (turn-Shrinks r σ)

  next_on-Ended : (v : Variant) (r : Reader) (σ : S) → Ended (next_on sink v r σ)
  next_on-Ended standard r σ = (next_standard sink r σ (read_standard r.stream), refl)
  next_on-Ended casim_v2 r σ = next_loop-Ended (suc (length r.stream)) r σ (omega arith)

  -- The next record of any stream, under any sink, is found, or found missing, or refused by an
  -- exception: the loop ends.
  pub next_ends :
      (r : Reader) (σ : S) → (x : Result (Option Record × (Reader × S))) × (next sink r σ ≡ some x)
  next_ends r σ = next_on-Ended r.variant r σ

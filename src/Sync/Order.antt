-- ===== src/Sync/Order.antt =====
-- The order that the coordinator enforces between the threads' records.
use mathlib.Core.List.{Memᴰ}
use multicore_oo_o_sim.Base.{
  ℕ, suc, ◌≤◌, ◌<◌, ◌^◌, ◌≡◌, refl, Bool, true, List, [], ◌∷◌, ◌++◌, arith, ◌==◌, ◌&&◌, not,
  if◌then◌else◌, Bool-cases, ok, inl, inr, length,
}
use multicore_oo_o_sim.Base.Int.{ℤ, pos, to_int64, ltb_ℤ, ◌≤ℤ◌}
use multicore_oo_o_sim.Sync.{
  SyncKind, SyncRecord, SyncCoordinator, too_early, gate, try_consume_sync, lock_acquire,
  lock_release, barrier_leave, atomic_rmw, atomic_load, atomic_store,
}
use multicore_oo_o_sim.Sync.Gates.{is_release, is_arrive, is_full, may_proceed, gate-fst}
use multicore_oo_o_sim.Sync.History.{
  Call, fetch, retire, lifecycle, run, released, performed, arrivals, run-Agrees, run-num_threads,
}

-- Whether a record may be fetched, by the retired records alone.
abbrev pub allows : SyncKind → SyncRecord → List Call → Bool
allows lock_acquire s h = not (too_early (released s.sync_object_addr h) s.sequence_no)
allows atomic_rmw s h = not (too_early (performed s.sync_object_addr h) s.sequence_no)
allows atomic_load s h = not (too_early (performed s.sync_object_addr h) s.sequence_no)
allows atomic_store s h = not (too_early (performed s.sync_object_addr h) s.sequence_no)
allows barrier_leave s h = is_full (arrivals s.sync_object_addr s.sequence_no h)
allows _ s h = true

may_proceed-allows :
    (k : SyncKind) (s : SyncRecord) (n : ℕ) (h : List Call) (c : SyncCoordinator)
    → run n h ≡ ok c
    → may_proceed k s c ≡ allows k s h
may_proceed-allows lock_acquire s n h c e =
    ground (arith, (run-Agrees n h e).locks_agree s.sync_object_addr)
may_proceed-allows atomic_rmw s n h c e =
    ground (arith, (run-Agrees n h e).atomics_agree s.sync_object_addr)
may_proceed-allows atomic_load s n h c e =
    ground (arith, (run-Agrees n h e).atomics_agree s.sync_object_addr)
may_proceed-allows atomic_store s n h c e =
    ground (arith, (run-Agrees n h e).atomics_agree s.sync_object_addr)
may_proceed-allows barrier_leave s n h c e =
    ground (arith, (run-Agrees n h e).barriers_agree s.sync_object_addr s.sequence_no)
may_proceed-allows _ s n h c e = refl

-- After any calls, a fetch by a configured thread throws nothing, and is let through exactly when the
-- retired records allow it.
pub fetch_allowed :
    (n : ℕ) (h : List Call) (c : SyncCoordinator) (tid : ℕ) (s : SyncRecord)
    → run n h ≡ ok c
    → tid < n
    → (c' : SyncCoordinator) × (try_consume_sync tid s c ≡ ok (allows s.kind s h, c'))
unfolding try_consume_sync
fetch_allowed n h c tid s e lt = (
  (gate s.kind tid s c).1,
  ground
      (arith, gate-fst s.kind tid s c, may_proceed-allows s.kind s n h c e, run-num_threads n h e),
)

-- A release in the history, of `obj`, at a sequence number of `k` or more.
abbrev pub ReleasedBy : ℕ → ℕ → List Call → Type 0
ReleasedBy obj k h =
    (tid : ℕ) × (r : SyncRecord) × Memᴰ (retire tid r) h
    × (r.kind ≡ lock_release)
    × (r.sync_object_addr ≡ obj)
    × (pos k ≤ℤ to_int64 r.sequence_no)

ReleasedBy-later :
    (obj k : ℕ) (a : Call) (h : List Call) → ReleasedBy obj k h → ReleasedBy obj k (a ∷ h)
ReleasedBy-later obj k a h (tid, r, m, p, q, l) = (tid, r, Memᴰ.tail m, p, q, l)

is_release-eq : (k : SyncKind) → is_release k ≡ true → k ≡ lock_release
is_release-eq k h = ground arith

released-ReleasedBy : (obj k : ℕ) (h : List Call) → pos k ≤ℤ released obj h → ReleasedBy obj k h
released-ReleasedBy obj k [] l = absurd (omega arith)
released-ReleasedBy obj k (fetch tid s ∷ h) l =
    ReleasedBy-later obj k _ h (released-ReleasedBy obj k h l)
released-ReleasedBy obj k (lifecycle tid ∷ h) l =
    ReleasedBy-later obj k _ h (released-ReleasedBy obj k h l)
released-ReleasedBy obj k (retire tid s ∷ h) l =
    elim (Bool-cases (is_release s.kind && obj == s.sync_object_addr)) [
      | inr no_match ↦
          let l' : pos k ≤ℤ released obj h = ground arith in
          ReleasedBy-later obj k _ h (released-ReleasedBy obj k h l')
      | inl hit ↦ elim (Bool-cases (ltb_ℤ (released obj h) (to_int64 s.sequence_no))) [
        | inl newer ↦ (tid, s, Memᴰ.head refl, ground arith, ground arith, ground arith)
        | inr older ↦
            let l' : pos k ≤ℤ released obj h = ground arith in
            ReleasedBy-later obj k _ h (released-ReleasedBy obj k h l')
      ]
    ]

fetched-allows :
    (n : ℕ) (h : List Call) (c c' : SyncCoordinator) (tid : ℕ) (s : SyncRecord)
    → run n h ≡ ok c
    → try_consume_sync tid s c ≡ ok (true, c')
    → allows s.kind s h ≡ true
unfolding try_consume_sync
fetched-allows n h c c' tid s e p =
    ground (arith, gate-fst s.kind tid s c, may_proceed-allows s.kind s n h c e)

-- The acquire with sequence number k + 1 of a lock is fetched only after a release of that lock with
-- sequence number k or more has retired. Sequence numbers stay below 2 ^ 63.
pub acquire_after_release :
    (n : ℕ) (h : List Call) (c c' : SyncCoordinator) (tid : ℕ) (s : SyncRecord) (k : ℕ)
    → run n h ≡ ok c
    → s.kind ≡ lock_acquire
    → s.sequence_no ≡ suc k
    → suc k < 2 ^ 63
    → try_consume_sync tid s c ≡ ok (true, c')
    → ReleasedBy s.sync_object_addr k h
acquire_after_release n h c c' tid s k e kd sq lt p =
    released-ReleasedBy s.sync_object_addr k h (ground (arith, fetched-allows n h c c' tid s e p))

-- The arrivals at one round of a barrier, counted.
abbrev pub arrive_count : ℕ → ℕ → List Call → ℕ
arrive_count obj seq [] = 0
arrive_count obj seq (fetch tid s ∷ h) = arrive_count obj seq h
arrive_count obj seq (lifecycle tid ∷ h) = arrive_count obj seq h
arrive_count obj seq (retire tid s ∷ h) =
    if is_arrive s.kind && obj == s.sync_object_addr && seq == s.sequence_no
    then suc (arrive_count obj seq h)
    else arrive_count obj seq h

-- The first positive participant count that an arrival of the round carries, 0 for none.
abbrev pub first_expected : ℕ → ℕ → List Call → ℕ
first_expected obj seq [] = 0
first_expected obj seq (fetch tid s ∷ h) = first_expected obj seq h
first_expected obj seq (lifecycle tid ∷ h) = first_expected obj seq h
first_expected obj seq (retire tid s ∷ h) =
    if is_arrive s.kind
      && obj == s.sync_object_addr
      && seq == s.sequence_no
      && first_expected obj seq h == 0
    then s.extra_arg
    else first_expected obj seq h

arrivals-count :
    (obj seq : ℕ) (h : List Call)
    → length h < 2 ^ 64
    → ((arrivals obj seq h).arrived ≡ arrive_count obj seq h)
      × ((arrivals obj seq h).expected ≡ first_expected obj seq h)
      × (arrive_count obj seq h ≤ length h)
arrivals-count obj seq [] lt = (refl, refl, omega arith)
arrivals-count obj seq (fetch tid s ∷ h) lt = omega (arith, arrivals-count obj seq h)
arrivals-count obj seq (lifecycle tid ∷ h) lt = omega (arith, arrivals-count obj seq h)
arrivals-count obj seq (retire tid s ∷ h) lt =
    let ih = arrivals-count obj seq h (omega arith) in ground (arith, ih)

-- A thread leaves a round of a barrier only after as many arrivals at that round have retired as the
-- first of them to carry a participant count announced, and that count is positive. The history
-- is shorter than 2 ^ 64 calls.
pub leave_after_arrivals :
    (n : ℕ) (h : List Call) (c c' : SyncCoordinator) (tid : ℕ) (s : SyncRecord)
    → run n h ≡ ok c
    → length h < 2 ^ 64
    → s.kind ≡ barrier_leave
    → try_consume_sync tid s c ≡ ok (true, c')
    → let expected = first_expected s.sync_object_addr s.sequence_no h in
      (0 < expected) × (expected ≤ arrive_count s.sync_object_addr s.sequence_no h)
leave_after_arrivals n h c c' tid s e lt kd p =
    ground (
      arith,
      fetched-allows n h c c' tid s e p,
      arrivals-count s.sync_object_addr s.sequence_no h lt,
    )

released-mono : (obj : ℕ) (a : Call) (h : List Call) → released obj h ≤ℤ released obj (a ∷ h)
released-mono obj (fetch tid s) h = omega arith
released-mono obj (lifecycle tid) h = omega arith
released-mono obj (retire tid s) h = ground arith

performed-mono : (obj : ℕ) (a : Call) (h : List Call) → performed obj h ≤ℤ performed obj (a ∷ h)
performed-mono obj (fetch tid s) h = omega arith
performed-mono obj (lifecycle tid) h = omega arith
performed-mono obj (retire tid s) h = ground arith

too_early_mono :
    (a b : ℤ) (seq : ℕ) → a ≤ℤ b → not (too_early a seq) ≡ true → not (too_early b seq) ≡ true
too_early_mono a b seq l h = ground arith

arrivals-full :
    (obj seq : ℕ) (a : Call) (h : List Call)
    → length (a ∷ h) < 2 ^ 64
    → is_full (arrivals obj seq h) ≡ true
    → is_full (arrivals obj seq (a ∷ h)) ≡ true
arrivals-full obj seq (fetch tid s) h lt p = p
arrivals-full obj seq (lifecycle tid) h lt p = p
arrivals-full obj seq (retire tid s) h lt p =
    let count = arrivals-count obj seq h (omega arith) in ground (arith, count)

allows-cons :
    (k : SyncKind) (s : SyncRecord) (a : Call) (h : List Call)
    → length (a ∷ h) < 2 ^ 64
    → allows k s h ≡ true
    → allows k s (a ∷ h) ≡ true
allows-cons lock_acquire s a h lt p =
    too_early_mono _ _ s.sequence_no (released-mono s.sync_object_addr a h) p
allows-cons atomic_rmw s a h lt p =
    too_early_mono _ _ s.sequence_no (performed-mono s.sync_object_addr a h) p
allows-cons atomic_load s a h lt p =
    too_early_mono _ _ s.sequence_no (performed-mono s.sync_object_addr a h) p
allows-cons atomic_store s a h lt p =
    too_early_mono _ _ s.sequence_no (performed-mono s.sync_object_addr a h) p
allows-cons barrier_leave s a h lt p = arrivals-full s.sync_object_addr s.sequence_no a h lt p
allows-cons _ s a h lt p = p

allows-append :
    (k : SyncKind) (s : SyncRecord) (g h : List Call)
    → length (g ++ h) < 2 ^ 64
    → allows k s h ≡ true
    → allows k s (g ++ h) ≡ true
allows-append k s [] h lt p = p
allows-append k s (a ∷ g) h lt p =
    allows-cons k s a (g ++ h) lt (allows-append k s g h (omega arith) p)

-- A record that one thread could fetch can be fetched by every configured thread after any further
-- calls `g`, if the history stays shorter than 2 ^ 64 calls: permission is never withdrawn.
pub permission_kept :
    (n : ℕ) (g h : List Call) (c c' d : SyncCoordinator) (tid other : ℕ) (s : SyncRecord)
    → run n h ≡ ok c
    → try_consume_sync tid s c ≡ ok (true, c')
    → run n (g ++ h) ≡ ok d
    → length (g ++ h) < 2 ^ 64
    → other < n
    → (d' : SyncCoordinator) × (try_consume_sync other s d ≡ ok (true, d'))
permission_kept n g h c c' d tid other s e p e' lt o =
    let (d', q) = fetch_allowed n (g ++ h) d other s e' o in
    let still = allows-append s.kind s g h lt (fetched-allows n h c c' tid s e p) in
    (d', ground (arith, q, still))

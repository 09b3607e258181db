-- ===== src/Sync/History.antt =====
-- The coordinator's state against the history of its calls: what a thread waits for is exactly that
-- the right records of the other threads have retired.
use multicore_oo_o_sim.Base.{
  ℕ, ◌≡◌, refl, subst, ◌∙◌, List, [], ◌∷◌, arith, ◌==◌, ◌&&◌, if◌then◌else◌, Result, ok, ◌>>=◌,
  first_returned,
}
use multicore_oo_o_sim.Base.Int.{ℤ, negsuc, to_int64, max_ℤ}
use multicore_oo_o_sim.Sync.{
  SyncRecord, SyncCoordinator, BarrierIter, arrive, init, try_consume_sync, notify_retire,
  on_lifecycle,
}
use multicore_oo_o_sim.Sync.Gates.{
  is_release, is_atomic, is_arrive, lock_seq, atomic_seq, barrier_iter, gate-lock_seq,
  gate-atomic_seq, gate-barriers, gate-num_threads, signal-lock_seq, signal-atomic_seq,
  signal-barrier_iter, signal-num_threads,
}

-- The calls that the readers and the cores make, each with its thread.
pub data Call : Type 0 where
  fetch : ℕ → SyncRecord → Call
  retire : ℕ → SyncRecord → Call
  lifecycle : ℕ → Call

unfoldable pub step : Call → SyncCoordinator → Result SyncCoordinator
step (fetch tid s) c = do r ← try_consume_sync tid s c; ok r.1
step (retire tid s) c = notify_retire tid s c
step (lifecycle tid) c = on_lifecycle tid c

-- The newest call is the head of the list.
unfoldable pub run : ℕ → List Call → Result SyncCoordinator
run n [] = ok (init n)
run n (a ∷ h) = do c ← run n h; step a c

-- The highest sequence number among the retired releases of a lock, -1 for none.
abbrev pub released : ℕ → List Call → ℤ
released obj [] = negsuc 0
released obj (fetch tid s ∷ h) = released obj h
released obj (lifecycle tid ∷ h) = released obj h
released obj (retire tid s ∷ h) =
    if is_release s.kind && obj == s.sync_object_addr
    then max_ℤ (released obj h) (to_int64 s.sequence_no)
    else released obj h

-- The highest sequence number among the retired atomics of an object, -1 for none.
abbrev pub performed : ℕ → List Call → ℤ
performed obj [] = negsuc 0
performed obj (fetch tid s ∷ h) = performed obj h
performed obj (lifecycle tid ∷ h) = performed obj h
performed obj (retire tid s ∷ h) =
    if is_atomic s.kind && obj == s.sync_object_addr
    then max_ℤ (performed obj h) (to_int64 s.sequence_no)
    else performed obj h

-- The retired arrivals at one round of a barrier, and the first positive count that they carry.
abbrev pub arrivals : ℕ → ℕ → List Call → BarrierIter
arrivals obj seq [] = record { arrived = 0; expected = 0 }
arrivals obj seq (fetch tid s ∷ h) = arrivals obj seq h
arrivals obj seq (lifecycle tid ∷ h) = arrivals obj seq h
arrivals obj seq (retire tid s ∷ h) =
    if is_arrive s.kind && obj == s.sync_object_addr && seq == s.sequence_no
    then arrive s.extra_arg (arrivals obj seq h)
    else arrivals obj seq h

-- What a coordinator holds of an object is what the history says.
pub record Agrees (h : List Call) (c : SyncCoordinator) : Type 0 where
  pub locks_agree : (obj : ℕ) → lock_seq obj c ≡ released obj h
  pub atomics_agree : (obj : ℕ) → atomic_seq obj c ≡ performed obj h
  pub barriers_agree : (obj seq : ℕ) → barrier_iter obj seq c ≡ arrivals obj seq h

step-Agrees :
    (a : Call) (h : List Call) (c c' : SyncCoordinator)
    → Agrees h c
    → step a c ≡ ok c'
    → Agrees (a ∷ h) c'
unfolding step try_consume_sync notify_retire on_lifecycle
step-Agrees (fetch tid s) h c c' g e = record {
  locks_agree = λ obj. ground (arith, gate-lock_seq s.kind tid s c obj, g.locks_agree obj);
  atomics_agree = λ obj. ground (arith, gate-atomic_seq s.kind tid s c obj, g.atomics_agree obj);
  barriers_agree =
      λ obj seq. ground (arith, gate-barriers s.kind tid s c, g.barriers_agree obj seq);
}
step-Agrees (retire tid s) h c c' g e = record {
  locks_agree = λ obj. ground (arith, signal-lock_seq s.kind s c obj, g.locks_agree obj);
  atomics_agree = λ obj. ground (arith, signal-atomic_seq s.kind s c obj, g.atomics_agree obj);
  barriers_agree =
      λ obj seq. ground (arith, signal-barrier_iter s.kind s c obj seq, g.barriers_agree obj seq);
}
step-Agrees (lifecycle tid) h c c' g e = record {
  locks_agree = λ obj. ground (arith, g.locks_agree obj);
  atomics_agree = λ obj. ground (arith, g.atomics_agree obj);
  barriers_agree = λ obj seq. ground (arith, g.barriers_agree obj seq);
}

init-Agrees : (n : ℕ) → Agrees [] (init n)
unfolding init
init-Agrees n = record {
  locks_agree = λ obj. refl;
  atomics_agree = λ obj. refl;
  barriers_agree = λ obj seq. refl;
}

-- After any calls, the coordinator's state of every lock, atomic and barrier round is the summary of
-- the records that have retired, in whatever order the threads made the calls.
pub run-Agrees : (n : ℕ) (h : List Call) {c : SyncCoordinator} → run n h ≡ ok c → Agrees h c
unfolding run
run-Agrees n [] e = subst (Agrees []) (cc) (init-Agrees n)
run-Agrees n (a ∷ h) {c} e =
    let (c₀, before, after) = first_returned (run n h) (step a) e in
    step-Agrees a h c₀ c (run-Agrees n h before) after

step-num_threads :
    (a : Call) (c : SyncCoordinator) {c' : SyncCoordinator}
    → step a c ≡ ok c'
    → c'.num_threads ≡ c.num_threads
unfolding step try_consume_sync notify_retire on_lifecycle
step-num_threads (fetch tid s) c e = ground (arith, gate-num_threads s.kind tid s c)
step-num_threads (retire tid s) c e = ground (arith, signal-num_threads s.kind s c)
step-num_threads (lifecycle tid) c e = ground arith

pub run-num_threads :
    (n : ℕ) (h : List Call) {c : SyncCoordinator} → run n h ≡ ok c → c.num_threads ≡ n
unfolding run init
run-num_threads n [] e = cc
run-num_threads n (a ∷ h) {c} e =
    let (c₀, before, after) = first_returned (run n h) (step a) e in
    step-num_threads a c₀ after ∙ run-num_threads n h before

-- ===== src/Sync/Gates.antt =====
-- What one call of the coordinator does to its state.
use multicore_oo_o_sim.Base.{
  ℕ, ◌≡◌, refl, Bool, true, false, Option, none, some, arith, ltb, ◌==◌, ◌||◌, ◌&&◌, not,
  if◌then◌else◌,
}
use multicore_oo_o_sim.Base.Int.{ℤ, to_int64, max_ℤ}
use multicore_oo_o_sim.Sync.{
  SyncKind, SyncRecord, SyncCoordinator, BarrierIter, or_new, or_new_iter, too_early, arrive, gate,
  gate_iter, signal, lock_acquire, lock_release, barrier_arrive, barrier_leave, atomic_rmw,
  atomic_load, atomic_store,
}

abbrev pub is_release : SyncKind → Bool
is_release lock_release = true
is_release _ = false

abbrev pub is_atomic : SyncKind → Bool
is_atomic atomic_rmw = true
is_atomic atomic_load = true
is_atomic atomic_store = true
is_atomic _ = false

abbrev pub is_arrive : SyncKind → Bool
is_arrive barrier_arrive = true
is_arrive _ = false

-- The open barrier iteration lets its threads leave.
abbrev pub is_full : BarrierIter → Bool
is_full it = not (it.expected == 0 || ltb it.arrived it.expected)

abbrev pub lock_seq : ℕ → SyncCoordinator → ℤ
lock_seq obj c = or_new (c.locks obj)

abbrev pub atomic_seq : ℕ → SyncCoordinator → ℤ
atomic_seq obj c = or_new (c.atomics obj)

abbrev pub barrier_iter : ℕ → ℕ → SyncCoordinator → BarrierIter
barrier_iter obj seq c = or_new_iter (c.barriers obj seq)

-- The gate of a record's kind, as a test of what other threads have retired.
abbrev pub may_proceed : SyncKind → SyncRecord → SyncCoordinator → Bool
may_proceed lock_acquire s c = not (too_early (lock_seq s.sync_object_addr c) s.sequence_no)
may_proceed atomic_rmw s c = not (too_early (atomic_seq s.sync_object_addr c) s.sequence_no)
may_proceed atomic_load s c = not (too_early (atomic_seq s.sync_object_addr c) s.sequence_no)
may_proceed atomic_store s c = not (too_early (atomic_seq s.sync_object_addr c) s.sequence_no)
may_proceed barrier_leave s c = is_full (barrier_iter s.sync_object_addr s.sequence_no c)
may_proceed _ s c = true

gate_iter-fst :
    (tid : ℕ) (o : Option BarrierIter) (c : SyncCoordinator)
    → (gate_iter tid o c).0 ≡ is_full (or_new_iter o)
unfolding gate_iter
gate_iter-fst tid none c = refl
gate_iter-fst tid (some it) c = ground arith

pub gate-fst :
    (k : SyncKind) (tid : ℕ) (s : SyncRecord) (c : SyncCoordinator)
    → (gate k tid s c).0 ≡ may_proceed k s c
unfolding gate
gate-fst lock_acquire tid s c = ground arith
gate-fst barrier_leave tid s c = gate_iter-fst tid (c.barriers s.sync_object_addr s.sequence_no) c
gate-fst _ tid s c = ground arith

gate_iter-fields :
    (tid : ℕ) (o : Option BarrierIter) (c : SyncCoordinator)
    → ((gate_iter tid o c).1.locks ≡ c.locks)
      × ((gate_iter tid o c).1.atomics ≡ c.atomics)
      × ((gate_iter tid o c).1.barriers ≡ c.barriers)
      × ((gate_iter tid o c).1.num_threads ≡ c.num_threads)
unfolding gate_iter
gate_iter-fields tid none c = (refl, refl, refl, refl)
gate_iter-fields tid (some it) c = ground arith

pub gate-lock_seq :
    (k : SyncKind) (tid : ℕ) (s : SyncRecord) (c : SyncCoordinator) (obj : ℕ)
    → lock_seq obj (gate k tid s c).1 ≡ lock_seq obj c
unfolding gate
gate-lock_seq lock_acquire tid s c obj = ground arith
gate-lock_seq barrier_leave tid s c obj =
    ground (arith, gate_iter-fields tid (c.barriers s.sync_object_addr s.sequence_no) c)
gate-lock_seq _ tid s c obj = ground arith

pub gate-atomic_seq :
    (k : SyncKind) (tid : ℕ) (s : SyncRecord) (c : SyncCoordinator) (obj : ℕ)
    → atomic_seq obj (gate k tid s c).1 ≡ atomic_seq obj c
unfolding gate
gate-atomic_seq lock_acquire tid s c obj = ground arith
gate-atomic_seq barrier_leave tid s c obj =
    ground (arith, gate_iter-fields tid (c.barriers s.sync_object_addr s.sequence_no) c)
gate-atomic_seq _ tid s c obj = ground arith

pub gate-barriers :
    (k : SyncKind) (tid : ℕ) (s : SyncRecord) (c : SyncCoordinator)
    → (gate k tid s c).1.barriers ≡ c.barriers
unfolding gate
gate-barriers lock_acquire tid s c = ground arith
gate-barriers barrier_leave tid s c =
    ground (arith, gate_iter-fields tid (c.barriers s.sync_object_addr s.sequence_no) c)
gate-barriers _ tid s c = ground arith

pub signal-lock_seq :
    (k : SyncKind) (s : SyncRecord) (c : SyncCoordinator) (obj : ℕ)
    → lock_seq obj (signal k s c) ≡ (
        if is_release k && obj == s.sync_object_addr
        then max_ℤ (lock_seq obj c) (to_int64 s.sequence_no)
        else lock_seq obj c)
unfolding signal
signal-lock_seq lock_release s c obj = ground arith
signal-lock_seq _ s c obj = refl

pub signal-atomic_seq :
    (k : SyncKind) (s : SyncRecord) (c : SyncCoordinator) (obj : ℕ)
    → atomic_seq obj (signal k s c) ≡ (
        if is_atomic k && obj == s.sync_object_addr
        then max_ℤ (atomic_seq obj c) (to_int64 s.sequence_no)
        else atomic_seq obj c)
unfolding signal
signal-atomic_seq atomic_rmw s c obj = ground arith
signal-atomic_seq _ s c obj = ground arith

pub signal-barrier_iter :
    (k : SyncKind) (s : SyncRecord) (c : SyncCoordinator) (obj seq : ℕ)
    → barrier_iter obj seq (signal k s c) ≡ (
        if is_arrive k && obj == s.sync_object_addr && seq == s.sequence_no
        then arrive s.extra_arg (barrier_iter obj seq c)
        else barrier_iter obj seq c)
unfolding signal
signal-barrier_iter barrier_arrive s c obj seq = ground arith
signal-barrier_iter _ s c obj seq = refl

pub gate-num_threads :
    (k : SyncKind) (tid : ℕ) (s : SyncRecord) (c : SyncCoordinator)
    → (gate k tid s c).1.num_threads ≡ c.num_threads
unfolding gate
gate-num_threads lock_acquire tid s c = ground arith
gate-num_threads barrier_leave tid s c =
    ground (arith, gate_iter-fields tid (c.barriers s.sync_object_addr s.sequence_no) c)
gate-num_threads _ tid s c = ground arith

pub signal-num_threads :
    (k : SyncKind) (s : SyncRecord) (c : SyncCoordinator)
    → (signal k s c).num_threads ≡ c.num_threads
unfolding signal
signal-num_threads lock_release s c = refl
signal-num_threads _ s c = refl

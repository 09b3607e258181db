-- ===== src/Sync.antt =====
-- include/comparch/sync_coordinator.hpp and src/common/sync_coordinator.cpp: the coordinator that
-- holds the fetch of a thread at a synchronisation record until other threads have retired theirs.
pub mod Gates
pub mod History
pub mod Order
mod Tests
use multicore_oo_o_sim.Base.{
  ℕ, ◌+◌, ◌≡◌, Bool, true, false, Option, none, some, List, [], ◌∷◌, ltb, ◌==◌, ◌&&◌, ◌||◌,
  if◌then◌else◌, length, get_or, set, replicate, inc64, update, Result, ok, throw, ◌>>=◌,
}
use multicore_oo_o_sim.Base.Int.{ℤ, pos, negsuc, ◌+ℤ◌, ltb_ℤ, max_ℤ, to_int64}

pub data SyncKind : Type 0 where
  lock_acquire lock_release barrier_arrive barrier_leave : SyncKind
  atomic_rmw atomic_load atomic_store cond_wait cond_signal cond_broadcast : SyncKind

pub record SyncRecord : Type 0 where
  pub kind : SyncKind
  pub sync_object_addr : ℕ
  pub sequence_no : ℕ
  pub extra_arg : ℕ

pub record BarrierIter : Type 0 where
  pub arrived : ℕ
  pub expected : ℕ

pub record Stats : Type 0 where
  pub sync_consumed : ℕ
  pub sync_stalled : ℕ
  pub lock_acquires : ℕ
  pub lock_releases : ℕ
  pub atomics : ℕ
  pub barrier_passes : ℕ
  pub lifecycle_events : ℕ

-- A key that no call has named is `none`; the two levels of `barriers_` are one map of two keys.
pub record SyncCoordinator : Type 0 where
  pub num_threads : ℕ
  pub blocked : List Bool
  pub locks : ℕ → Option ℤ
  pub atomics : ℕ → Option ℤ
  pub barriers : ℕ → ℕ → Option BarrierIter
  pub stats : Stats

pub init : ℕ → SyncCoordinator
init n = record {
  num_threads = n;
  blocked = replicate n false;
  locks = λ obj. none;
  atomics = λ obj. none;
  barriers = λ obj seq. none;
  stats = record {
    sync_consumed = 0;
    sync_stalled = 0;
    lock_acquires = 0;
    lock_releases = 0;
    atomics = 0;
    barrier_passes = 0;
    lifecycle_events = 0;
  };
}

-- The value that `operator[]` finds or makes: `last_completed_seq = -1`.
abbrev pub or_new : Option ℤ → ℤ
or_new none = negsuc 0
or_new (some s) = s

abbrev pub or_new_iter : Option BarrierIter → BarrierIter
or_new_iter none = record { arrived = 0; expected = 0 }
or_new_iter (some i) = i

stall : ℕ → SyncCoordinator → Bool × SyncCoordinator
stall tid c = (
  false,
  record c {
    blocked = set c.blocked tid true;
    stats = record (c.stats) { sync_stalled = inc64 (c.stats.sync_stalled) };
  },
)

pass : ℕ → SyncCoordinator → Bool × SyncCoordinator
pass tid c = (
  true,
  record c {
    blocked = set c.blocked tid false;
    stats = record (c.stats) { sync_consumed = inc64 (c.stats.sync_consumed) };
  },
)

-- `st.last_completed_seq + 1 < static_cast<std::int64_t>(s.sequence_no)`.
abbrev pub too_early : ℤ → ℕ → Bool
too_early last seq = ltb_ℤ (last +ℤ pos 1) (to_int64 seq)

gate_lock : ℕ → SyncRecord → SyncCoordinator → Bool × SyncCoordinator
unfolding stall pass
gate_lock tid s c =
    let last = or_new (c.locks s.sync_object_addr) in
    let c' : SyncCoordinator = record c { locks = update c.locks s.sync_object_addr (some last) } in
    if too_early last s.sequence_no
    then stall tid c'
    else pass tid
        (record c' { stats = record (c.stats) { lock_acquires = inc64 (c.stats.lock_acquires) } })

gate_atomic : ℕ → SyncRecord → SyncCoordinator → Bool × SyncCoordinator
unfolding stall pass
gate_atomic tid s c =
    let last = or_new (c.atomics s.sync_object_addr) in
    let c' : SyncCoordinator = record c {
      atomics = update c.atomics s.sync_object_addr (some last);
    } in
    if too_early last s.sequence_no then stall tid c' else pass tid c'

gate_iter : ℕ → Option BarrierIter → SyncCoordinator → Bool × SyncCoordinator
unfolding stall pass
gate_iter tid none c = stall tid c
gate_iter tid (some it) c =
    if it.expected == 0 || ltb it.arrived it.expected
    then stall tid c
    else pass tid
        (record c { stats = record (c.stats) { barrier_passes = inc64 (c.stats.barrier_passes) } })

pub gate : SyncKind → ℕ → SyncRecord → SyncCoordinator → Bool × SyncCoordinator
unfolding gate_lock gate_atomic gate_iter pass
gate lock_acquire tid s c = gate_lock tid s c
gate lock_release tid s c = pass tid c
gate atomic_rmw tid s c = gate_atomic tid s c
gate atomic_load tid s c = gate_atomic tid s c
gate atomic_store tid s c = gate_atomic tid s c
gate barrier_arrive tid s c = pass tid c
gate barrier_leave tid s c = gate_iter tid (c.barriers s.sync_object_addr s.sequence_no) c
gate cond_wait tid s c = pass tid c
gate cond_signal tid s c = pass tid c
gate cond_broadcast tid s c = pass tid c

-- `check_tid` throws, and otherwise the call goes on.
checked {ℓ} : {A : Type ℓ} → ℕ → SyncCoordinator → A → Result A
checked tid c a = if ltb tid c.num_threads then ok a else throw

pub try_consume_sync : ℕ → SyncRecord → SyncCoordinator → Result (Bool × SyncCoordinator)
unfolding checked gate
try_consume_sync tid s c = checked tid c (gate s.kind tid s c)

signal_lock : SyncRecord → SyncCoordinator → SyncCoordinator
signal_lock s c = record c {
  locks =
      update c.locks s.sync_object_addr
        (some (max_ℤ (or_new (c.locks s.sync_object_addr)) (to_int64 s.sequence_no)));
  stats = record (c.stats) { lock_releases = inc64 (c.stats.lock_releases) };
}

signal_atomic : SyncRecord → SyncCoordinator → SyncCoordinator
signal_atomic s c = record c {
  atomics =
      update c.atomics s.sync_object_addr
        (some (max_ℤ (or_new (c.atomics s.sync_object_addr)) (to_int64 s.sequence_no)));
  stats = record (c.stats) { atomics = inc64 (c.stats.atomics) };
}

abbrev pub arrive : ℕ → BarrierIter → BarrierIter
arrive extra it = record {
  arrived = inc64 it.arrived;
  expected = if it.expected == 0 && ltb 0 extra then extra else it.expected;
}

signal_arrive : SyncRecord → SyncCoordinator → SyncCoordinator
signal_arrive s c = record c {
  barriers = update c.barriers s.sync_object_addr (
      update (c.barriers s.sync_object_addr) s.sequence_no
        (some (arrive s.extra_arg (or_new_iter (c.barriers s.sync_object_addr s.sequence_no)))));
}

pub signal : SyncKind → SyncRecord → SyncCoordinator → SyncCoordinator
unfolding signal_lock signal_atomic signal_arrive
signal lock_release s c = signal_lock s c
signal atomic_rmw s c = signal_atomic s c
signal atomic_load s c = signal_atomic s c
signal atomic_store s c = signal_atomic s c
signal barrier_arrive s c = signal_arrive s c
signal lock_acquire s c = c
signal barrier_leave s c = c
signal cond_wait s c = c
signal cond_signal s c = c
signal cond_broadcast s c = c

pub notify_retire : ℕ → SyncRecord → SyncCoordinator → Result SyncCoordinator
unfolding checked signal
notify_retire tid s c = checked tid c (signal s.kind s c)

pub on_lifecycle : ℕ → SyncCoordinator → Result SyncCoordinator
unfolding checked
on_lifecycle tid c =
    checked tid c (record c {
      stats = record (c.stats) { lifecycle_events = inc64 (c.stats.lifecycle_events) };
    })

pub is_blocked : ℕ → SyncCoordinator → Bool
is_blocked tid c = ltb tid c.num_threads && get_or c.blocked tid false

count_blocked : List Bool → ℕ
count_blocked [] = 0
count_blocked (b ∷ bs) = if b then 1 + count_blocked bs else count_blocked bs

pub blocked_count : SyncCoordinator → ℕ
unfolding count_blocked
blocked_count c = count_blocked c.blocked

pub last_completed_seq : ℕ → SyncCoordinator → ℤ
last_completed_seq obj c = elim (c.locks obj) [
  | some s ↦ s
  | none ↦ elim (c.atomics obj) [ some s ↦ s | none ↦ negsuc 0 ]
]

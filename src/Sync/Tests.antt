-- ===== src/Sync/Tests.antt =====
-- Runs and instances for the coordinator: two threads, a lock at address 5 and a barrier at 9.
use multicore_oo_o_sim.Base.{ℕ, ◌≤◌, ◌<◌, ◌≡◌, refl, true, false, List, [], ◌∷◌, arith, ok}
use multicore_oo_o_sim.Sync.{
  SyncKind, SyncRecord, SyncCoordinator, lock_acquire, lock_release, barrier_arrive, barrier_leave,
  init, gate, signal, try_consume_sync, notify_retire,
}
use multicore_oo_o_sim.Sync.History.{Call, retire, run, step, Agrees, run-Agrees}
use multicore_oo_o_sim.Sync.Order.{
  fetch_allowed, ReleasedBy, acquire_after_release, arrive_count, leave_after_arrivals,
  permission_kept,
}

abbrev at : SyncKind → ℕ → ℕ → ℕ → SyncRecord
at kind obj seq extra = record {
  kind = kind;
  sync_object_addr = obj;
  sequence_no = seq;
  extra_arg = extra;
}

abbrev free_history : List Call
free_history = retire 0 (at lock_release 5 0 0) ∷ []

abbrev freed : SyncCoordinator
unfolding signal init
freed = signal lock_release (at lock_release 5 0 0) (init 2)

abbrev arrivals_history : List Call
arrivals_history = retire 1 (at barrier_arrive 9 0 2) ∷ retire 0 (at barrier_arrive 9 0 2) ∷ []

abbrev met : SyncCoordinator
unfolding signal init
met =
    signal barrier_arrive (at barrier_arrive 9 0 2)
      (signal barrier_arrive (at barrier_arrive 9 0 2) (init 2))

run-freed : run 2 free_history ≡ ok freed
unfolding run step notify_retire init signal
run-freed = refl

run-met : run 2 arrivals_history ≡ ok met
unfolding run step notify_retire init signal
run-met = refl

abbrev second_acquire : SyncRecord
second_acquire = at lock_acquire 5 1 0

-- The coordinator when thread 1 has been let through.
abbrev acquired : SyncCoordinator
unfolding signal init gate
acquired = (gate lock_acquire 1 second_acquire freed).1

consume-second_acquire : try_consume_sync 1 second_acquire freed ≡ ok (true, acquired)
unfolding try_consume_sync init signal gate
consume-second_acquire = refl

-- Before the release the same acquire is held back.
held_back : (gate lock_acquire 1 second_acquire (init 2)).0 ≡ false
unfolding gate init
held_back = refl

run-Agrees_example : Agrees free_history freed
run-Agrees_example = run-Agrees 2 free_history run-freed

fetch_allowed_example :
    (c' : SyncCoordinator) × (try_consume_sync 1 second_acquire freed ≡ ok (true, c'))
fetch_allowed_example = fetch_allowed 2 free_history freed 1 second_acquire run-freed (omega arith)

acquire_after_release_example : ReleasedBy 5 0 free_history
acquire_after_release_example =
    acquire_after_release 2 free_history freed acquired 1 second_acquire 0 run-freed refl refl
      (omega arith) consume-second_acquire

abbrev leave : SyncRecord
leave = at barrier_leave 9 0 0

abbrev left_barrier : SyncCoordinator
unfolding signal init gate
left_barrier = (gate barrier_leave 1 leave met).1

consume-leave : try_consume_sync 1 leave met ≡ ok (true, left_barrier)
unfolding try_consume_sync init signal gate
consume-leave = refl

leave_after_arrivals_example : (0 < 2) × (2 ≤ arrive_count 9 0 arrivals_history)
leave_after_arrivals_example =
    leave_after_arrivals 2 arrivals_history met left_barrier 1 leave run-met (omega arith) refl
      consume-leave

permission_kept_example :
    (d' : SyncCoordinator) × (try_consume_sync 0 second_acquire freed ≡ ok (true, d'))
permission_kept_example =
    permission_kept 2 [] free_history freed acquired freed 1 0 second_acquire run-freed
      consume-second_acquire run-freed (omega arith) (omega arith)

-- ===== src/Coherence/MiSystem/Tests.antt =====
-- A run of a machine with two processors, and the instances at it.
use multicore_oo_o_sim.Base.{
  ℕ, ◌≡◌, ◌≢◌, refl, true, false, [], ◌∷◌, none, some, inr, arith, ok, update, set,
}
use multicore_oo_o_sim.Coherence.Message.{
  Message, Settings, mi, private_l2, store, getm, data_msg, data_wb, message,
}
use multicore_oo_o_sim.Coherence.Agent.Mi.{
  st_i, st_m, st_im, process_proc_request, process_ntwk_request,
}
use multicore_oo_o_sim.Coherence.Directory.{
  DirectoryController, DirEntry, no_stats, tock, get_entry, dir_i, dir_m, new_entry,
}
use multicore_oo_o_sim.Coherence.Directory.Mi.{mi_tick}
use multicore_oo_o_sim.Coherence.MiSystem.{
  System, Step, request, deliver, arrive, tick, half_tick, Reach, here, next, boot, set_agent,
}
use multicore_oo_o_sim.Coherence.MiSystem.Eviction.{eviction_splits_ownership}
use multicore_oo_o_sim.Coherence.MiSystem.Owner.{tokens, ownership_conserved, single_owner}

abbrev pair : Settings
pair = record {
  protocol = mi;
  num_procs = 2;
  mem_latency = 0;
  header_flits = 2;
  payload_flits = 8;
  cache_mode = private_l2;
  lls_blocks = 0;
  lls_assoc = 0;
  lls_hit_latency = 10;
}

abbrev booted : System
booted = record {
  dir = record {
    id = 2;
    settings = pair;
    stats = no_stats;
    request_next = [];
    request_queue = [];
    send_e = false;
    send_f = false;
    tag_to_send = 0;
    target_node = 0;
    request_in_progress = false;
    response_time = 0;
    pending_lls_miss = false;
    lls = record { size_blocks = 0; assoc = 0; num_sets = 0; sets = [] };
    current_clock = 0;
    entries = λ block. none;
    out = [];
  };
  agents = λ i b. st_i;
  net = [];
}

boot-pair : boot pair ≡ ok booted
unfolding boot
boot-pair = refl

-- Processor 1 stores to block 7.
abbrev asked : Message
asked = message pair 1 2 7 getm

requested :
    Step pair 2 booted
      (record booted { agents = set_agent 1 7 st_im booted.agents; net = asked ∷ [] })
unfolding process_proc_request
requested =
    request booted 1 (message pair 1 1 7 store) st_im
      (record { ntwk_out_next = asked ∷ []; cache_in_next = none; cache_misses = 1 }) (omega arith)
      (inr refl) refl

abbrev queued : System
queued = record booted {
  dir = record (booted.dir) { request_queue = asked ∷ [] };
  agents = set_agent 1 7 st_im booted.agents;
}

abbrev answer : Message
answer = message pair 2 1 7 data_msg

abbrev granted : DirEntry
granted = record (new_entry 7) {
  presence = set (new_entry 7).presence 1 true;
  state = dir_m;
  active_sharers = 1;
}

-- The directory when it has answered.
abbrev answered : DirectoryController
answered = record (booted.dir) {
  entries = update (update booted.dir.entries 7 (some (new_entry 7))) 7 (some granted);
  stats = record no_stats { memory_reads = 1 };
  tag_to_send = 7;
  target_node = 1;
  response_time = 1;
  pending_lls_miss = true;
  current_clock = 1;
  out = answer ∷ [];
}

abbrev owned : System
owned = record {
  dir = record answered { out = [] };
  agents = set_agent 1 7 st_m (set_agent 1 7 st_im booted.agents);
  net = [];
}

-- The request reaches the directory, the directory answers in its next cycle, and the answer makes
-- processor 1 the owner.
owned_reached : Reach pair 2 booted owned
unfolding mi_tick tock process_ntwk_request
owned_reached =
    let arrived = next (next here requested) (arrive _ [] [] asked refl refl) in
    let answered_net = next (next arrived (half_tick _)) (tick queued 1 answered refl) in
    next answered_net (
      deliver _ [] [] answer st_m
        (record {
          ntwk_out_next = [];
          cache_in_next = some (message pair 1 1 7 data_msg);
          cache_misses = 0;
        })
        refl (omega arith) refl)

ownership_conserved_example : tokens 2 7 owned ≡ 1
ownership_conserved_example = ownership_conserved pair 7 boot-pair owned_reached

single_owner_example : (◌≡◌ {A = ℕ} 1 1) × ((get_entry 7 owned.dir).state ≢ dir_i)
single_owner_example =
    single_owner pair 7 1 1 boot-pair owned_reached (omega arith) (omega arith) refl refl

-- Processor 1 drops the block, and its notice waits at the directory.
abbrev evicting : System
evicting = record owned {
  dir = record (owned.dir) { request_queue = message pair 1 2 7 data_wb ∷ [] };
}

eviction_splits_ownership_example :
    (z : System) × Step pair 2 evicting z
    × (z.agents 1 7 ≡ st_m)
    × ((get_entry 7 z.dir).state ≡ dir_i)
    × (tokens 2 7 z ≡ 2)
eviction_splits_ownership_example =
    eviction_splits_ownership pair evicting (message pair 1 2 7 data_wb) [] refl refl refl refl refl
      refl refl refl refl

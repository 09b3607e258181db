-- ===== src/Coherence/Adapter/Tests.antt =====
-- The adapter on concrete inputs: a core whose L1 cache stands over a private L2 over the adapter.
use multicore_oo_o_sim.Base.{ℕ, zero, suc, ◌≡◌, refl, arith, true, false, none, some, List, [], ◌∷◌}
use multicore_oo_o_sim.Cache.Mshr
use multicore_oo_o_sim.Cache.Mshr.{op_read, op_write}
use multicore_oo_o_sim.Cache.Sets.{find_block, TagMeta, lru_mip, is_in}
use multicore_oo_o_sim.Cache.Prefetch.{no_prefetcher}
use multicore_oo_o_sim.Cache.Level.{MemReq, wbwa, Config, Cache, no_stats, peek, row}
use multicore_oo_o_sim.Cache.Level.Shape.{IsValid}
use multicore_oo_o_sim.Cache.Sets.Shape.{set_ok}
use multicore_oo_o_sim.Coherence.Message.{
  Message, data_msg, recall_goto_i, Settings, message, mesi, private_l2, shared_lls,
}
use multicore_oo_o_sim.Coherence.Agent.{idle_port}
use multicore_oo_o_sim.Coherence.Adapter.{
  on_miss, CoherenceAdapter, on_ntwk_event_private, tick_shared, tick_private,
}
use multicore_oo_o_sim.Coherence.Adapter.Wakes.{is_ready, ready-tick_shared, ready-tick_private}
use multicore_oo_o_sim.Cache.Mshr.{contains}
use multicore_oo_o_sim.Coherence.Adapter.Wiring.{serve, holds_dirty}
use multicore_oo_o_sim.Coherence.Adapter.Wiring.Stores.{stores_told}
use multicore_oo_o_sim.Coherence.Adapter.Fills.{Filled, tick_shared-Filled}
use multicore_oo_o_sim.Coherence.Adapter.Invalidates.{honoured, honoured-on_ntwk_event_private}

abbrev small : Config
small = record {
  c = 6;
  b = 4;
  s = 1;
  replacement = lru_mip;
  write_policy = wbwa;
  hit_latency = 2;
  mshr_entries = 2;
}

abbrev settings : Settings
settings = record {
  protocol = mesi;
  num_procs = 2;
  mem_latency = 10;
  header_flits = 1;
  payload_flits = 4;
  cache_mode = private_l2;
  lls_blocks = 4;
  lls_assoc = 2;
  lls_hit_latency = 3;
}

-- The answer for the block of address 64 is in the slot.
abbrev answered : CoherenceAdapter
answered = record {
  id = 0;
  settings = settings;
  block_size_log2 = 4;
  outbound_proc = [];
  pending_stores = 64 ∷ [];
  cpu_in_next = none;
  port = record idle_port { cache_in_next = some (message settings 0 0 64 data_msg) };
}

abbrev clean_line : TagMeta
clean_line = record { block_addr = 6; tag = 3; dirty = false; valid = true; prefetched = false }

-- A level with one block, and two requests merged on the one that waits.
abbrev level : {D : Type 0} → D → Cache D
level below = record {
  cfg = small;
  stats = no_stats;
  rows = (clean_line ∷ []) ∷ [] ∷ [];
  mshr =
      record (Mshr.fresh_entry 1 4 op_read 0 107 (record { hit = false; latency = 102 })) {
        merged_ids = 2 ∷ [];
      }
      ∷ Mshr.blank_entry
      ∷ [];
  now = 5;
  next_id = 3;
  prefetcher = no_prefetcher;
  below = below;
}

level-IsValid : {D : Type 0} (below : D) → IsValid small (level below)
unfolding is_in
level-IsValid below = record {
  configured = refl;
  some_way = omega arith;
  all_sets = refl;
  sets_ok = each_set;
}
  where
    each_set : (i : ℕ) → set_ok 2 (row (level below) i) ≡ true
    each_set zero = refl
    each_set (suc zero) = refl
    each_set (suc (suc i)) = refl

ready-tick_shared_example : is_ready (peek 2 (tick_shared (level answered))) ≡ true
unfolding Mshr.find Mshr.entry_holds Mshr.contains
ready-tick_shared_example =
    ready-tick_shared (level answered) (message settings 0 0 64 data_msg) 2 refl refl

ready-tick_private_example : is_ready (peek 2 (tick_private (level (level answered)))) ≡ true
unfolding Mshr.find Mshr.entry_holds Mshr.contains
ready-tick_private_example =
    ready-tick_private (level (level answered)) (message settings 0 0 64 data_msg) 2 refl refl

abbrev recall : Message
recall = message settings 2 0 96 recall_goto_i

honoured-on_ntwk_event_private_example :
    (honoured recall_goto_i false 3 (row (on_ntwk_event_private recall (level (level answered))) 0)
      ≡ true)
    × (honoured recall_goto_i false 3
          (row (on_ntwk_event_private recall (level (level answered))).below 0)
        ≡ true)
honoured-on_ntwk_event_private_example =
    honoured-on_ntwk_event_private small small recall (level (level answered))
      (level-IsValid (level answered)) (level-IsValid answered)

tick_shared-Filled_example : Filled small 4 true (tick_shared (level answered))
unfolding contains
tick_shared-Filled_example =
    tick_shared-Filled small (level answered) (message settings 0 0 64 data_msg) refl refl
      (omega arith) (level-IsValid answered) refl

-- A load and a store of the clean line.
abbrev clean_line_requests : List MemReq
clean_line_requests =
    record { addr = 96; op = op_read; pc = 0; originating_op = op_read; tid = 0 }
    ∷ record { addr = 100; op = op_write; pc = 0; originating_op = op_write; tid = 0 }
    ∷ []

stores_told_example :
    (((serve private_l2 clean_line_requests (level (level answered))).below ≡ level answered)
      × (holds_dirty small 6 (serve private_l2 clean_line_requests (level (level answered)))
          ≡ true))
    × (((serve shared_lls clean_line_requests (level answered)).below ≡ on_miss 6 op_write answered)
        × (holds_dirty small 6 (serve shared_lls clean_line_requests (level answered)) ≡ false))
unfolding is_in find_block
stores_told_example =
    stores_told small 6 clean_line_requests (level (level answered)) (level answered) refl refl
      (level-IsValid (level answered)) refl (level-IsValid answered) refl refl

-- ===== src/Coherence/Directory/Msi/Tests.antt =====
-- A shared block, an upgrade of one of its sharers, and the instances at it.
use multicore_oo_o_sim.Base.{
  ◌≡◌, refl, true, false, [], ◌∷◌, some, none, arith, ok, update, Bool-cases, inl, inr, ◌==◌,
}
use multicore_oo_o_sim.Coherence.Message.{Settings, msi, private_l2, getm, message}
use multicore_oo_o_sim.Coherence.Directory.{
  DirectoryController, DirEntry, no_stats, dir_s, new_entry,
}
use multicore_oo_o_sim.Coherence.Directory.Msi.{msi_tick}
use multicore_oo_o_sim.Coherence.Directory.Msi.Valid.{IsValid, new_entry-IsValid}
use multicore_oo_o_sim.Coherence.Directory.Msi.Handlers.{AllValid}
use multicore_oo_o_sim.Coherence.Directory.Msi.Tick.{FrontSane, msi_tick-AllValid}

abbrev four : Settings
four = record {
  protocol = msi;
  num_procs = 4;
  mem_latency = 100;
  header_flits = 2;
  payload_flits = 8;
  cache_mode = private_l2;
  lls_blocks = 0;
  lls_assoc = 0;
  lls_hit_latency = 10;
}

-- Nodes 0 and 2 share block 7.
abbrev shared : DirEntry
shared = record (new_entry 7) {
  presence =
      true ∷ false ∷ true ∷ false ∷ false ∷ false ∷ false ∷ false ∷ false ∷ false ∷ false ∷ false
      ∷ false ∷ false ∷ false ∷ false ∷ [];
  state = dir_s;
  active_sharers = 2;
}

-- Node 2 asks to write.
abbrev upgrading : DirectoryController
upgrading = record {
  id = 4;
  settings = four;
  stats = no_stats;
  request_next = [];
  request_queue = message four 2 4 7 getm ∷ [];
  send_e = false;
  send_f = false;
  tag_to_send = 0;
  target_node = 0;
  request_in_progress = false;
  response_time = 0;
  pending_lls_miss = false;
  lls = record { size_blocks = 0; assoc = 0; num_sets = 0; sets = [] };
  current_clock = 5;
  entries = update (λ block. none) 7 (some shared);
  out = [];
}

shared-IsValid : IsValid shared
shared-IsValid = record { sized = refl; counted = refl; shaped = omega arith }

upgrading-AllValid : AllValid upgrading
upgrading-AllValid block = elim (Bool-cases (block == 7)) [
  | inl same ↦ rw same shared-IsValid
  | inr other ↦ rw other (new_entry-IsValid block)
]

upgrading-FrontSane : FrontSane upgrading
upgrading-FrontSane m ms q = ground arith

upgrading_ticks : (d : DirectoryController) × (msi_tick upgrading ≡ ok d)
unfolding msi_tick
upgrading_ticks = (_, refl)

msi_tick-AllValid_example : AllValid upgrading_ticks.0
msi_tick-AllValid_example =
    msi_tick-AllValid upgrading upgrading_ticks.0 upgrading-AllValid upgrading-FrontSane
      upgrading_ticks.1

-- ===== src/Coherence/MiSystem/Eviction.antt =====
-- An eviction notice (`CoherenceAdapter::on_evict`, src/coherence/coherence_adapter.cpp) tells the
-- directory that a line has gone, and not the agent, which stays in state M.
use multicore_oo_o_sim.Base.{◌≡◌, true, false, List, [], ◌∷◌, ◌++◌, arith}
use multicore_oo_o_sim.Coherence.Message.{Message, Settings, data_wb}
use multicore_oo_o_sim.Coherence.Agent.Mi.{st_m}
use multicore_oo_o_sim.Coherence.Directory.{dir_i, dir_m, get_entry, is_present}
use multicore_oo_o_sim.Coherence.Directory.Carriers.{carriers-append}
use multicore_oo_o_sim.Coherence.Directory.Mi.Eviction.{mi_tick-owner_writeback}
use multicore_oo_o_sim.Coherence.MiSystem.{System, Step, tick}
use multicore_oo_o_sim.Coherence.MiSystem.Owner.{tokens}

-- Where the front of the directory's queue is an eviction notice of an owner, which is the block's only
-- sharer and whose agent is in state M, the directory's next cycle makes the memory an owner beside that
-- agent: the block has two owners, if it had one.
pub eviction_splits_ownership :
    (s : Settings) (y : System) (m : Message) (ms : List Message)
    → y.dir.request_queue ≡ m ∷ ms
    → y.dir.request_in_progress ≡ false
    → y.dir.out ≡ []
    → m.kind ≡ data_wb
    → (get_entry m.block y.dir).state ≡ dir_m
    → is_present (get_entry m.block y.dir) m.src ≡ true
    → (get_entry m.block y.dir).active_sharers ≡ 1
    → y.agents m.src m.block ≡ st_m
    → tokens s.num_procs m.block y ≡ 1
    → (z : System) × Step s s.num_procs y z
      × (z.agents m.src m.block ≡ st_m)
      × ((get_entry m.block z.dir).state ≡ dir_i)
      × (tokens s.num_procs m.block z ≡ 2)
eviction_splits_ownership s y m ms q f o k st p a owner one =
    let clock = y.dir.current_clock in
    let (d, ticked, out, free, more) = mi_tick-owner_writeback y.dir m ms q f k st p a in
    (
      record y { dir = record d { out = [] }; net = y.net ++ d.out },
      tick y clock d ticked,
      owner,
      free,
      ground (arith, carriers-append m.block y.net d.out, more, out, o, one),
    )

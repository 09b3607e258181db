-- ===== src/Coherence/MiSystem.antt =====
-- The nodes of a machine under the MI protocol, with the messages between them: the agents of
-- src/coherence/agent_mi.cpp, the directory of src/coherence/directory_mi.cpp, and a network that
-- delivers the messages in any order (the ring of src/coherence/node.cpp chooses one).
pub mod Owner
pub mod Eviction
mod Tests
use multicore_oo_o_sim.Base.{ℕ, ◌<◌, ◌≡◌, ◌⊎◌, Bool, List, [], ◌∷◌, ◌++◌, update, Result, ok, ◌>>=◌}
use multicore_oo_o_sim.Coherence.Message.{Message, Settings, load, store}
use multicore_oo_o_sim.Coherence.Agent.{Port, idle_port}
use multicore_oo_o_sim.Coherence.Agent.Mi.{
  MiState, st_i, process_proc_request, process_ntwk_request,
}
use multicore_oo_o_sim.Coherence.Directory.{DirectoryController, init, tock}
use multicore_oo_o_sim.Coherence.Directory.Mi.{mi_tick}

-- `agents i b` is the state of node `i`'s agent for block `b`; an agent that was not made yet is in its
-- initial state. `net` holds every message that has left a node and has not reached one.
pub record System : Type 0 where
  pub dir : DirectoryController
  pub agents : ℕ → ℕ → MiState
  pub net : List Message

abbrev pub set_agent : ℕ → ℕ → MiState → (ℕ → ℕ → MiState) → ℕ → ℕ → MiState
set_agent i b st agents = update agents i (update (agents i) b st)

-- One step of a machine with `n` processors. A step is taken only where the code throws nothing.
pub data Step (s : Settings) (n : ℕ) : System → System → Type 0 where
  -- A processor asks for a block.
  request :
      (y : System) (i : ℕ) (m : Message) (st : MiState) (p : Port)
      → i < n
      → (m.kind ≡ load) ⊎ (m.kind ≡ store)
      → process_proc_request s i (y.agents i m.block) m idle_port ≡ ok (st, p)
      → Step s n y
          (record y { agents = set_agent i m.block st y.agents; net = y.net ++ p.ntwk_out_next })
  -- A message reaches the agent that it is for.
  deliver :
      (y : System) (before after : List Message) (m : Message) (st : MiState) (p : Port)
      → y.net ≡ before ++ m ∷ after
      → m.dst < n
      → process_ntwk_request s m.dst (y.agents m.dst m.block) m idle_port ≡ ok (st, p)
      → Step s n y (record y {
        agents = set_agent m.dst m.block st y.agents;
        net = (before ++ after) ++ p.ntwk_out_next;
      })
  -- A message reaches the directory.
  arrive :
      (y : System) (before after : List Message) (m : Message)
      → y.net ≡ before ++ m ∷ after
      → m.dst ≡ n
      → Step s n y (record y {
        dir = record (y.dir) { request_next = y.dir.request_next ++ m ∷ [] };
        net = before ++ after;
      })
  -- The directory's cycle, at any clock; what it sends leaves the node.
  tick :
      (y : System) (clock : ℕ) (d : DirectoryController)
      → mi_tick (record (y.dir) { current_clock = clock }) ≡ ok d
      → Step s n y (record y { dir = record d { out = [] }; net = y.net ++ d.out })
  half_tick : (y : System) → Step s n y (record y { dir = tock y.dir })

-- The machine as it is built: nobody owns anything, and no message is under way.
unfoldable pub boot : Settings → Result System
unfolding init
boot s = do d ← init s.num_procs s; ok (record { dir = d; agents = λ i b. st_i; net = [] })

pub data Reach (s : Settings) (n : ℕ) (start : System) : System → Type 0 where
  here : Reach s n start start
  next : {y z : System} → Reach s n start y → Step s n y z → Reach s n start z

-- ===== src/Coherence/Agent.antt =====
-- include/comparch/coherence/agent.hpp and src/coherence/agent.cpp: what an agent sends.
pub mod Mi
pub mod Msi
pub mod Mesi
use multicore_oo_o_sim.Base.{ℕ, Option, none, some, List, [], ◌∷◌, ◌++◌, inc64}
use multicore_oo_o_sim.Coherence.Message.{
  Message, MessageKind, Settings, gets, getm, getx, invack, data_msg, message,
}

-- What an agent reaches through its cache: the node's egress queue, the CPU's mailbox and the count
-- of misses.
pub record Port : Type 0 where
  pub ntwk_out_next : List Message
  pub cache_in_next : Option Message
  pub cache_misses : ℕ

abbrev pub idle_port : Port
idle_port = record { ntwk_out_next = []; cache_in_next = none; cache_misses = 0 }

-- The settings and the node id that every agent of a cache is built with.
module _ (s : Settings) (id : ℕ) where
  -- The directory's node id is `num_procs`.
  unfoldable pub push_to_dir : ℕ → MessageKind → Port → Port
  push_to_dir block kind p = record p {
    ntwk_out_next = p.ntwk_out_next ++ message s id s.num_procs block kind ∷ [];
  }

  unfoldable pub send_gets : ℕ → Port → Port
  unfolding push_to_dir
  send_gets block p = push_to_dir block gets p

  unfoldable pub send_getm : ℕ → Port → Port
  unfolding push_to_dir
  send_getm block p = push_to_dir block getm p

  unfoldable pub send_getx : ℕ → Port → Port
  unfolding push_to_dir
  send_getx block p = push_to_dir block getx p

  unfoldable pub send_invack : ℕ → Port → Port
  unfolding push_to_dir
  send_invack block p = push_to_dir block invack p

  unfoldable pub send_data_dir : ℕ → Port → Port
  unfolding push_to_dir
  send_data_dir block p = push_to_dir block data_msg p

  unfoldable pub send_data_proc : ℕ → Port → Port
  send_data_proc block p = record p { cache_in_next = some (message s id id block data_msg) }

unfoldable pub count_miss : Port → Port
count_miss p = record p { cache_misses = inc64 p.cache_misses }

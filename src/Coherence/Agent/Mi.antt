-- ===== src/Coherence/Agent/Mi.antt =====
-- include/comparch/coherence/agent_mi.hpp and src/coherence/agent_mi.cpp. `throw` is `bad_msg`, or
-- the exception of a request in a transient state.
use multicore_oo_o_sim.Base.{ℕ, Result, ok, throw}
use multicore_oo_o_sim.Coherence.Message.{
  Message, MessageKind, Settings, load, store, data_msg, recall_goto_i,
}
use multicore_oo_o_sim.Coherence.Agent.{Port, send_getm, send_data_dir, send_data_proc, count_miss}

pub data MiState : Type 0 where
  st_i st_m st_im : MiState

module _ (s : Settings) (id : ℕ) where
  do_proc_i : MessageKind → ℕ → Port → Result (MiState × Port)
  unfolding send_getm count_miss
  do_proc_i load b p = ok (st_im, count_miss (send_getm s id b p))
  do_proc_i store b p = ok (st_im, count_miss (send_getm s id b p))
  do_proc_i _ b p = throw

  do_proc_m : MessageKind → ℕ → Port → Result (MiState × Port)
  unfolding send_data_proc
  do_proc_m load b p = ok (st_m, send_data_proc s id b p)
  do_proc_m store b p = ok (st_m, send_data_proc s id b p)
  do_proc_m _ b p = throw

  do_ntwk_m : MessageKind → ℕ → Port → Result (MiState × Port)
  unfolding send_data_dir
  do_ntwk_m recall_goto_i b p = ok (st_i, send_data_dir s id b p)
  do_ntwk_m _ b p = throw

  do_ntwk_im : MessageKind → ℕ → Port → Result (MiState × Port)
  unfolding send_data_proc
  do_ntwk_im data_msg b p = ok (st_m, send_data_proc s id b p)
  do_ntwk_im _ b p = throw

  unfoldable pub process_proc_request : MiState → Message → Port → Result (MiState × Port)
  unfolding do_proc_i do_proc_m
  process_proc_request st_i req p = do_proc_i req.kind req.block p
  process_proc_request st_m req p = do_proc_m req.kind req.block p
  process_proc_request st_im req p = throw

  unfoldable pub process_ntwk_request : MiState → Message → Port → Result (MiState × Port)
  unfolding do_ntwk_m do_ntwk_im
  process_ntwk_request st_i req p = throw
  process_ntwk_request st_m req p = do_ntwk_m req.kind req.block p
  process_ntwk_request st_im req p = do_ntwk_im req.kind req.block p

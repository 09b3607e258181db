-- ===== src/Coherence/Agent/Mesi.antt =====
-- include/comparch/coherence/agent_mesi.hpp and src/coherence/agent_mesi.cpp. `throw` is `bad_msg`,
-- or the exception of a request in a transient state.
use multicore_oo_o_sim.Base.{ℕ, Result, ok, throw}
use multicore_oo_o_sim.Coherence.Message.{
  Message, MessageKind, Settings, load, store, data_msg, data_e, ack, req_invalid, recall_goto_i,
  recall_goto_s,
}
use multicore_oo_o_sim.Coherence.Agent.{
  Port, send_gets, send_getm, send_getx, send_invack, send_data_dir, send_data_proc, count_miss,
}

pub data MesiState : Type 0 where
  st_i st_s st_e st_m st_is st_im st_sm st_em : MesiState

module _ (s : Settings) (id : ℕ) where
  do_proc_i : MessageKind → ℕ → Port → Result (MesiState × Port)
  unfolding send_gets send_getm count_miss
  do_proc_i load b p = ok (st_is, count_miss (send_gets s id b p))
  do_proc_i store b p = ok (st_im, count_miss (send_getm s id b p))
  do_proc_i _ b p = throw

  do_proc_s : MessageKind → ℕ → Port → Result (MesiState × Port)
  unfolding send_getm send_data_proc
  do_proc_s load b p = ok (st_s, send_data_proc s id b p)
  do_proc_s store b p = ok (st_sm, send_getm s id b p)
  do_proc_s _ b p = throw

  do_proc_e : MessageKind → ℕ → Port → Result (MesiState × Port)
  unfolding send_getx send_data_proc
  do_proc_e load b p = ok (st_e, send_data_proc s id b p)
  do_proc_e store b p = ok (st_em, send_getx s id b p)
  do_proc_e _ b p = throw

  do_proc_m : MessageKind → ℕ → Port → Result (MesiState × Port)
  unfolding send_data_proc
  do_proc_m load b p = ok (st_m, send_data_proc s id b p)
  do_proc_m store b p = ok (st_m, send_data_proc s id b p)
  do_proc_m _ b p = throw

  do_ntwk_s : MessageKind → ℕ → Port → Result (MesiState × Port)
  unfolding send_invack
  do_ntwk_s req_invalid b p = ok (st_i, send_invack s id b p)
  do_ntwk_s _ b p = throw

  do_ntwk_e : MessageKind → ℕ → Port → Result (MesiState × Port)
  unfolding send_data_dir
  do_ntwk_e recall_goto_i b p = ok (st_i, send_data_dir s id b p)
  do_ntwk_e recall_goto_s b p = ok (st_s, send_data_dir s id b p)
  do_ntwk_e _ b p = throw

  do_ntwk_m : MessageKind → ℕ → Port → Result (MesiState × Port)
  unfolding send_data_dir
  do_ntwk_m recall_goto_i b p = ok (st_i, send_data_dir s id b p)
  do_ntwk_m recall_goto_s b p = ok (st_s, send_data_dir s id b p)
  do_ntwk_m _ b p = throw

  do_ntwk_is : MessageKind → ℕ → Port → Result (MesiState × Port)
  unfolding send_data_proc
  do_ntwk_is data_msg b p = ok (st_s, send_data_proc s id b p)
  do_ntwk_is data_e b p = ok (st_e, send_data_proc s id b p)
  do_ntwk_is _ b p = throw

  do_ntwk_im : MessageKind → ℕ → Port → Result (MesiState × Port)
  unfolding send_data_proc
  do_ntwk_im data_msg b p = ok (st_m, send_data_proc s id b p)
  do_ntwk_im _ b p = throw

  do_ntwk_sm : MessageKind → ℕ → Port → Result (MesiState × Port)
  unfolding send_invack send_data_proc
  do_ntwk_sm req_invalid b p = ok (st_im, send_invack s id b p)
  do_ntwk_sm ack b p = ok (st_m, send_data_proc s id b p)
  do_ntwk_sm data_msg b p = ok (st_m, send_data_proc s id b p)
  do_ntwk_sm _ b p = throw

  do_ntwk_em : MessageKind → ℕ → Port → Result (MesiState × Port)
  unfolding send_data_dir send_data_proc
  do_ntwk_em recall_goto_i b p = ok (st_im, send_data_dir s id b p)
  do_ntwk_em recall_goto_s b p = ok (st_sm, send_data_dir s id b p)
  do_ntwk_em ack b p = ok (st_m, send_data_proc s id b p)
  do_ntwk_em data_msg b p = ok (st_m, send_data_proc s id b p)
  do_ntwk_em _ b p = throw

  unfoldable pub process_proc_request : MesiState → Message → Port → Result (MesiState × Port)
  unfolding do_proc_i do_proc_s do_proc_e do_proc_m
  process_proc_request st_i req p = do_proc_i req.kind req.block p
  process_proc_request st_s req p = do_proc_s req.kind req.block p
  process_proc_request st_e req p = do_proc_e req.kind req.block p
  process_proc_request st_m req p = do_proc_m req.kind req.block p
  process_proc_request _ req p = throw

  unfoldable pub process_ntwk_request : MesiState → Message → Port → Result (MesiState × Port)
  unfolding do_ntwk_s do_ntwk_e do_ntwk_m do_ntwk_is do_ntwk_im do_ntwk_sm do_ntwk_em
  process_ntwk_request st_i req p = throw
  process_ntwk_request st_s req p = do_ntwk_s req.kind req.block p
  process_ntwk_request st_e req p = do_ntwk_e req.kind req.block p
  process_ntwk_request st_m req p = do_ntwk_m req.kind req.block p
  process_ntwk_request st_is req p = do_ntwk_is req.kind req.block p
  process_ntwk_request st_im req p = do_ntwk_im req.kind req.block p
  process_ntwk_request st_sm req p = do_ntwk_sm req.kind req.block p
  process_ntwk_request st_em req p = do_ntwk_em req.kind req.block p

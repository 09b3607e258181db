-- ===== src/Coherence/Directory/Mesi.antt =====
-- src/coherence/directory_mesi.cpp.
use multicore_oo_o_sim.Base.{
  ℕ, ◌+◌, zero, suc, Bool, true, false, some, none, List, [], ◌∷◌, if◌then◌else◌, ◌==◌, ◌&&◌, not,
  get_or, set, inc32, dec32, inc64, positive32, minus_one64, Result, ok, throw, ◌>>=◌,
}
use multicore_oo_o_sim.Coherence.Message.{
  Message, MessageKind, gets, getm, getx, data_msg, data_e, ack, invack, req_invalid, recall_goto_i,
  recall_goto_s,
}
use multicore_oo_o_sim.Coherence.Directory.{
  DirState, DirEntry, DirectoryController, dir_i, dir_s, dir_e, dir_m, dir_mm, dir_ms, dir_sm,
  dir_es, dir_em, get_entry, put_entry, dequeue, cycle_queue, send_request, schedule_data_response,
  handle_writeback, last_present, respond, is_due, is_present,
}

-- The code sets the bit and counts, whatever the bit was.
unfoldable pub add_sharer : ℕ → DirEntry → DirEntry
add_sharer i e = record e {
  presence = set e.presence i true;
  active_sharers = inc32 e.active_sharers;
}

unfoldable pub remove_sharer : ℕ → DirEntry → DirEntry
remove_sharer i e = record e {
  presence = set e.presence i false;
  active_sharers = dec32 e.active_sharers;
}

-- The request of a block that nobody holds: the memory answers.
on_i_request : DirState → DirEntry → Message → DirectoryController → DirectoryController
unfolding put_entry schedule_data_response dequeue add_sharer
on_i_request next e m d = dequeue (
    schedule_data_response m.block m.src
      (put_entry m.block (add_sharer m.src (record e { state = next })) d))

-- The owner is called back, and the entry waits for its data.
on_owned_request :
    DirState → MessageKind → DirEntry → Message → DirectoryController → DirectoryController
unfolding put_entry send_request dequeue last_present
on_owned_request next recall e m d =
    let target = last_present d.settings.num_procs 0 e.presence minus_one64 in
    let d' : DirectoryController = record d { tag_to_send = m.block; target_node = target } in
    dequeue (
      put_entry m.block (record e { state = next; req_node_in_transient = m.src })
        (send_request target m.block recall false d'))

abbrev count_c2c : DirectoryController → DirectoryController
count_c2c d = record d {
  stats = record (d.stats) { c2c_transfers = inc64 (d.stats.c2c_transfers) };
}

-- The old owner's data goes on to the requester, who owns the block now.
on_handover_data : DirEntry → Message → DirectoryController → DirectoryController
unfolding put_entry send_request dequeue add_sharer remove_sharer
on_handover_data e m d =
    let target = e.req_node_in_transient in
    let d' : DirectoryController = record d { tag_to_send = m.block; target_node = target } in
    dequeue (
      put_entry m.block (add_sharer target (record (remove_sharer m.src e) { state = dir_m }))
        (send_request target m.block data_msg false (count_c2c d')))

-- The old owner keeps a copy, and a dirty one is written to memory.
on_share_data : Bool → DirEntry → Message → DirectoryController → DirectoryController
unfolding put_entry send_request dequeue add_sharer
on_share_data writes e m d =
    let target = e.req_node_in_transient in
    let d₁ : DirectoryController = record d { tag_to_send = m.block; target_node = target } in
    let d₂ = count_c2c d₁ in
    let d₃ : DirectoryController =
      if writes
      then record d₂ {
        stats = record (d₂.stats) { memory_writes = inc64 (d₂.stats.memory_writes) };
      }
      else d₂ in
    dequeue (
      put_entry m.block (add_sharer target (record e { state = dir_s }))
        (send_request target m.block data_msg false d₃))

-- The silent upgrade of an exclusive holder.
on_e_getx : DirEntry → Message → DirectoryController → DirectoryController
unfolding put_entry send_request dequeue
on_e_getx e m d =
    let d' : DirectoryController = record d {
      tag_to_send = m.block;
      target_node = m.src;
      stats = record (d.stats) { silent_upgrades = inc64 (d.stats.silent_upgrades) };
    } in
    dequeue
      (put_entry m.block (record e { state = dir_m }) (send_request m.src m.block ack false d'))

-- `for (i = 0; i < num_procs; ++i)`, with the rounds left and `i`: each present node but the requester
-- is sent an invalidation.
unfoldable pub invalidate_others :
    ℕ → ℕ → List Bool → ℕ → ℕ → DirectoryController → DirectoryController
unfolding send_request
invalidate_others zero i ps requester block d = d
invalidate_others (suc n) i ps requester block d = invalidate_others n (i + 1) ps requester block (
    if get_or ps i false && not (i == requester)
    then send_request i block req_invalid false (record d { tag_to_send = block; target_node = i })
    else d)

unfoldable pub count_others : ℕ → ℕ → List Bool → ℕ → ℕ
count_others zero i ps requester = 0
count_others (suc n) i ps requester =
    (if get_or ps i false && not (i == requester) then 1 else 0)
    + count_others n (i + 1) ps requester

on_s_upgrade : DirEntry → Message → DirectoryController → DirectoryController
unfolding put_entry dequeue invalidate_others count_others
on_s_upgrade e m d =
    let n = d.settings.num_procs in
    dequeue (
      put_entry m.block
        (record e {
          inv_ack_waiting = count_others n 0 e.presence m.src;
          state = dir_sm;
          req_node_in_transient = m.src;
        })
        (invalidate_others n 0 e.presence m.src m.block d))

abbrev lose_sharer : ℕ → DirEntry → DirEntry
lose_sharer i e = record e {
  presence = set e.presence i false;
  inv_ack_waiting = dec32 e.inv_ack_waiting;
  active_sharers = dec32 e.active_sharers;
}

on_last_invack : DirEntry → Message → DirectoryController → DirectoryController
unfolding put_entry send_request schedule_data_response dequeue add_sharer
on_last_invack e m d =
    let target = e.req_node_in_transient in
    if is_present e target
    then dequeue (
        put_entry m.block (record e { state = dir_m })
          (send_request target m.block ack false
            (record d { tag_to_send = m.block; target_node = target })))
    else dequeue (
        schedule_data_response m.block target
          (put_entry m.block (record (add_sharer target e) { state = dir_m }) d))

on_sm_invack : DirEntry → Message → DirectoryController → Result DirectoryController
unfolding on_last_invack put_entry dequeue
on_sm_invack e m d =
    let e' = lose_sharer m.src e in
    if not (positive32 e.inv_ack_waiting)
    then throw
    else if e'.inv_ack_waiting == 0
    then ok (on_last_invack e' m d)
    else ok (dequeue (put_entry m.block e' d))

-- The chain of tests on the entry's state and the message's kind.
dispatch :
    DirState → MessageKind → DirEntry → Message → DirectoryController → Result DirectoryController
unfolding on_i_request on_owned_request on_handover_data on_share_data on_e_getx on_s_upgrade
    on_sm_invack cycle_queue
dispatch dir_i getm e m d = ok (on_i_request dir_m e m d)
dispatch dir_i gets e m d = ok (on_i_request dir_e e m (record d { send_e = true }))
dispatch dir_i getx e m d = ok (on_i_request dir_m e m d)
dispatch dir_m getm e m d = ok (on_owned_request dir_mm recall_goto_i e m d)
dispatch dir_m gets e m d = ok (on_owned_request dir_ms recall_goto_s e m d)
dispatch dir_m getx e m d = ok (on_owned_request dir_mm recall_goto_i e m d)
dispatch dir_mm data_msg e m d = ok (on_handover_data e m d)
dispatch dir_ms data_msg e m d = ok (on_share_data true e m d)
dispatch dir_e getm e m d = ok (on_owned_request dir_em recall_goto_i e m d)
dispatch dir_e gets e m d = ok (on_owned_request dir_es recall_goto_s e m d)
dispatch dir_e getx e m d = ok (on_e_getx e m d)
dispatch dir_es data_msg e m d = ok (on_share_data false e m d)
dispatch dir_em data_msg e m d = ok (on_handover_data e m d)
dispatch dir_s getm e m d = ok (on_s_upgrade e m d)
dispatch dir_s gets e m d = ok (on_i_request dir_s e m d)
dispatch dir_s getx e m d = ok (on_s_upgrade e m d)
dispatch dir_sm invack e m d = on_sm_invack e m d
dispatch dir_sm getm e m d = ok (cycle_queue d)
dispatch dir_sm gets e m d = ok (cycle_queue d)
dispatch dir_sm getx e m d = ok (cycle_queue d)
dispatch dir_mm getm e m d = ok (cycle_queue d)
dispatch dir_mm gets e m d = ok (cycle_queue d)
dispatch dir_mm getx e m d = ok (cycle_queue d)
dispatch dir_ms getm e m d = ok (cycle_queue d)
dispatch dir_ms gets e m d = ok (cycle_queue d)
dispatch dir_ms getx e m d = ok (cycle_queue d)
dispatch dir_em getm e m d = ok (cycle_queue d)
dispatch dir_em gets e m d = ok (cycle_queue d)
dispatch dir_em getx e m d = ok (cycle_queue d)
dispatch dir_es getm e m d = ok (cycle_queue d)
dispatch dir_es gets e m d = ok (cycle_queue d)
dispatch dir_es getx e m d = ok (cycle_queue d)
dispatch _ _ e m d = throw

handle : Message → DirectoryController → Result DirectoryController
unfolding handle_writeback dispatch put_entry
handle m d =
    let e = get_entry m.block d in
    let d' = put_entry m.block e d in
    elim (handle_writeback e m d') [ some d'' ↦ ok d'' | none ↦ dispatch e.state m.kind e m d' ]

poll : List Message → DirectoryController → Result DirectoryController
unfolding handle
poll [] d = ok d
poll (m ∷ ms) d = handle m d

respond_if_due : DirectoryController → DirectoryController
unfolding respond is_due
respond_if_due d =
    if is_due d
    then if d.send_e then record (respond data_e d) { send_e = false } else respond data_msg d
    else d

unfoldable pub mesi_tick : DirectoryController → Result DirectoryController
unfolding poll respond_if_due
mesi_tick d = do
  d' ← (if d.request_in_progress then ok d else poll d.request_queue d)
  ok (respond_if_due d')

-- ===== src/Coherence/Directory/Msi.antt =====
-- src/coherence/directory_msi.cpp.
pub mod Sharers
pub mod Valid
pub mod Handlers
pub mod Tick
mod Tests
use multicore_oo_o_sim.Base.{
  ℕ, ◌+◌, Bool, true, false, some, none, List, [], ◌∷◌, if◌then◌else◌, ◌==◌, ◌&&◌, not, set, inc32,
  dec32, inc64, Result, ok, throw, ◌>>=◌,
}
use multicore_oo_o_sim.Coherence.Message.{
  Message, MessageKind, gets, getm, data_msg, ack, invack, req_invalid, recall_goto_i,
  recall_goto_s,
}
use multicore_oo_o_sim.Coherence.Directory.{
  DirState, DirEntry, DirectoryController, dir_i, dir_s, dir_m, dir_mm, dir_ms, dir_sm, get_entry,
  put_entry, dequeue, cycle_queue, send_request, schedule_data_response, handle_writeback,
  first_present, respond, is_due, is_present,
}

-- The requester becomes a sharer, unless it is one.
unfoldable pub join_sharer : ℕ → DirEntry → DirEntry
join_sharer i e =
    if is_present e i
    then e
    else record e { presence = set e.presence i true; active_sharers = inc32 e.active_sharers }

-- `(M, DATA)` answers set the bit and count whatever it was.
unfoldable pub add_sharer : ℕ → DirEntry → DirEntry
add_sharer i e = record e {
  presence = set e.presence i true;
  active_sharers = inc32 e.active_sharers;
}

-- The loop that drops the first present node and stops.
unfoldable pub clear_first : List Bool → List Bool
clear_first [] = []
clear_first (true ∷ bs) = false ∷ bs
clear_first (false ∷ bs) = false ∷ clear_first bs

unfoldable pub any_present : List Bool → Bool
any_present [] = false
any_present (true ∷ bs) = true
any_present (false ∷ bs) = any_present bs

unfoldable pub drop_owner : DirEntry → DirEntry
unfolding clear_first any_present
drop_owner e = record e {
  presence = clear_first e.presence;
  active_sharers = if any_present e.presence then dec32 e.active_sharers else e.active_sharers;
}

-- Each present node but the requester is sent an invalidation; `i` is the index of the list's head.
unfoldable pub invalidate_others : List Bool → ℕ → ℕ → ℕ → DirectoryController → DirectoryController
unfolding send_request
invalidate_others [] i requester block d = d
invalidate_others (b ∷ bs) i requester block d =
    invalidate_others bs (i + 1) requester block
      (if b && not (i == requester) then send_request i block req_invalid false d else d)

unfoldable pub count_others : List Bool → ℕ → ℕ → ℕ
count_others [] i requester = 0
count_others (b ∷ bs) i requester =
    (if b && not (i == requester) then 1 else 0) + count_others bs (i + 1) requester

on_i_getm : DirEntry → Message → DirectoryController → DirectoryController
unfolding put_entry schedule_data_response dequeue join_sharer
on_i_getm e m d = dequeue (
    schedule_data_response m.block m.src (
      put_entry m.block
        (join_sharer m.src (record e { state = dir_m; dirty = true; block_id = m.block })) d))

on_i_gets : DirEntry → Message → DirectoryController → DirectoryController
unfolding put_entry schedule_data_response dequeue join_sharer
on_i_gets e m d = dequeue (
    schedule_data_response m.block m.src (
      put_entry m.block
        (join_sharer m.src (record e { state = dir_s; dirty = false; block_id = m.block })) d))

on_m_request :
    DirState → MessageKind → DirEntry → Message → DirectoryController → DirectoryController
unfolding put_entry send_request dequeue first_present
on_m_request next recall e m d =
    let d' = send_request (first_present e.presence 0) m.block recall false d in
    dequeue (
      put_entry m.block (record e { state = next; req_node_in_transient = m.src })
        (record d' { tag_to_send = m.block }))

abbrev count_c2c : DirectoryController → DirectoryController
count_c2c d = record d {
  stats = record (d.stats) { c2c_transfers = inc64 (d.stats.c2c_transfers) };
}

on_mm_data : DirEntry → Message → DirectoryController → DirectoryController
unfolding put_entry send_request dequeue drop_owner add_sharer
on_mm_data e m d =
    let requester = e.req_node_in_transient in
    dequeue (
      put_entry m.block
        (record (add_sharer requester (drop_owner e)) { dirty = true; state = dir_m })
        (count_c2c (send_request requester m.block data_msg false d)))

on_ms_data : DirEntry → Message → DirectoryController → DirectoryController
unfolding put_entry send_request dequeue add_sharer
on_ms_data e m d =
    let requester = e.req_node_in_transient in
    let d' = send_request requester m.block data_msg false (count_c2c d) in
    dequeue (
      put_entry m.block (record (add_sharer requester e) { state = dir_s; dirty = false })
        (record d' {
          stats = record (d'.stats) { memory_writes = inc64 (d'.stats.memory_writes) };
        }))

on_s_getm : DirEntry → Message → DirectoryController → DirectoryController
unfolding put_entry send_request dequeue invalidate_others count_others
on_s_getm e m d =
    let others = count_others e.presence 0 m.src in
    let d' = invalidate_others e.presence 0 m.src e.block_id d in
    if others == 0
    then dequeue (
        put_entry m.block (record e { dirty = true; state = dir_m })
          (send_request m.src e.block_id ack false d'))
    else dequeue (
        put_entry m.block
          (record e {
            req_node_in_transient = m.src;
            inv_ack_waiting = others;
            getm_upgrade = is_present e m.src;
            state = dir_sm;
          })
          d')

on_s_gets : DirEntry → Message → DirectoryController → DirectoryController
unfolding put_entry schedule_data_response dequeue join_sharer
on_s_gets e m d = dequeue (
    schedule_data_response m.block m.src
      (put_entry m.block (join_sharer m.src (record e { state = dir_s })) d))

abbrev lose_sharer : ℕ → DirEntry → DirEntry
lose_sharer i e = record e {
  presence = set e.presence i false;
  active_sharers = dec32 e.active_sharers;
  inv_ack_waiting = dec32 e.inv_ack_waiting;
}

on_sm_invack : DirEntry → Message → DirectoryController → DirectoryController
unfolding put_entry send_request schedule_data_response dequeue add_sharer
on_sm_invack e₀ m d =
    let e = lose_sharer m.src e₀ in
    if e.inv_ack_waiting == 0
    then if e.getm_upgrade
      then dequeue (
          put_entry m.block (record e { dirty = true; state = dir_m })
            (send_request e.req_node_in_transient e.block_id ack false d))
      else dequeue (
          schedule_data_response e.block_id e.req_node_in_transient (
            put_entry m.block
              (record (add_sharer e.req_node_in_transient e) { state = dir_m; dirty = true }) d))
    else dequeue (put_entry m.block e d)

-- The chain of tests on the entry's state and the message's kind.
pub dispatch :
    DirState → MessageKind → DirEntry → Message → DirectoryController → Result DirectoryController
unfolding on_i_getm on_i_gets on_m_request on_mm_data on_ms_data on_s_getm on_s_gets on_sm_invack
    cycle_queue
dispatch dir_i getm e m d = ok (on_i_getm e m d)
dispatch dir_i gets e m d = ok (on_i_gets e m d)
dispatch dir_m getm e m d = ok (on_m_request dir_mm recall_goto_i e m d)
dispatch dir_m gets e m d = ok (on_m_request dir_ms recall_goto_s e m d)
dispatch dir_mm data_msg e m d = ok (on_mm_data e m d)
dispatch dir_ms data_msg e m d = ok (on_ms_data e m d)
dispatch dir_s getm e m d = ok (on_s_getm e m d)
dispatch dir_s gets e m d = ok (on_s_gets e m d)
dispatch dir_sm invack e m d = ok (on_sm_invack e m d)
dispatch dir_sm getm e m d = ok (cycle_queue d)
dispatch dir_sm gets e m d = ok (cycle_queue d)
dispatch dir_mm getm e m d = ok (cycle_queue d)
dispatch dir_mm gets e m d = ok (cycle_queue d)
dispatch dir_ms getm e m d = ok (cycle_queue d)
dispatch dir_ms gets e m d = ok (cycle_queue d)
dispatch _ _ e m d = throw

handle : Message → DirectoryController → Result DirectoryController
unfolding handle_writeback dispatch put_entry
handle m d =
    let e = get_entry m.block d in
    let d' = put_entry m.block e d in
    elim (handle_writeback e m d') [ some d'' ↦ ok d'' | none ↦ dispatch e.state m.kind e m d' ]

poll : List Message → DirectoryController → Result DirectoryController
unfolding handle
poll [] d = ok d
poll (m ∷ ms) d = handle m d

respond_if_due : DirectoryController → DirectoryController
unfolding respond is_due
respond_if_due d = if is_due d then respond data_msg d else d

unfoldable pub msi_tick : DirectoryController → Result DirectoryController
unfolding poll respond_if_due
msi_tick d = do
  d' ← (if d.request_in_progress then ok d else poll d.request_queue d)
  ok (respond_if_due d')

-- ===== src/Coherence/Directory/Mi.antt =====
-- src/coherence/directory_mi.cpp.
pub mod Tokens
pub mod Eviction
use multicore_oo_o_sim.Base.{
  ℕ, Bool, true, false, Option, none, some, List, [], ◌∷◌, if◌then◌else◌, set, inc32, dec32, inc64,
  minus_one64, Result, ok, throw, ◌>>=◌,
}
use multicore_oo_o_sim.Coherence.Message.{Message, MessageKind, getm, data_msg, recall_goto_i}
use multicore_oo_o_sim.Coherence.Directory.{
  DirState, DirEntry, DirectoryController, dir_i, dir_m, dir_mm, get_entry, put_entry, dequeue,
  cycle_queue, send_request, schedule_data_response, handle_writeback, last_present, respond,
  is_due,
}

-- The requester becomes a sharer; the code does not look whether it is one.
abbrev add_sharer : ℕ → DirEntry → DirEntry
add_sharer i e = record e {
  presence = set e.presence i true;
  active_sharers = inc32 e.active_sharers;
}

abbrev remove_sharer : ℕ → DirEntry → DirEntry
remove_sharer i e = record e {
  presence = set e.presence i false;
  active_sharers = dec32 e.active_sharers;
}

on_i_getm : DirEntry → Message → DirectoryController → DirectoryController
unfolding put_entry schedule_data_response dequeue
on_i_getm e m d = dequeue (
    schedule_data_response m.block m.src
      (put_entry m.block (add_sharer m.src (record e { state = dir_m })) d))

on_m_getm : DirEntry → Message → DirectoryController → DirectoryController
unfolding put_entry send_request dequeue last_present
on_m_getm e m d =
    let target = last_present d.settings.num_procs 0 e.presence minus_one64 in
    let d' : DirectoryController = record d { tag_to_send = m.block; target_node = target } in
    dequeue (
      put_entry m.block (record e { state = dir_mm; req_node_in_transient = m.src })
        (send_request target m.block recall_goto_i false d'))

on_mm_data : DirEntry → Message → DirectoryController → DirectoryController
unfolding put_entry send_request dequeue
on_mm_data e m d =
    let target = e.req_node_in_transient in
    let d' : DirectoryController = record d {
      tag_to_send = m.block;
      target_node = target;
      stats = record (d.stats) { c2c_transfers = inc64 (d.stats.c2c_transfers) };
    } in
    dequeue (
      put_entry m.block (add_sharer target (record (remove_sharer m.src e) { state = dir_m }))
        (send_request target m.block data_msg false d'))

-- The chain of tests on the entry's state and the message's kind.
dispatch :
    DirState → MessageKind → DirEntry → Message → DirectoryController → Result DirectoryController
unfolding on_i_getm on_m_getm on_mm_data cycle_queue
dispatch dir_i getm e m d = ok (on_i_getm e m d)
dispatch dir_m getm e m d = ok (on_m_getm e m d)
dispatch dir_mm data_msg e m d = ok (on_mm_data e m d)
dispatch dir_mm getm e m d = ok (cycle_queue d)
dispatch _ _ e m d = throw

-- `get_entry` also stores the entry that it makes.
handle : Message → DirectoryController → Result DirectoryController
unfolding handle_writeback dispatch put_entry
handle m d =
    let e = get_entry m.block d in
    let d' = put_entry m.block e d in
    elim (handle_writeback e m d') [ some d'' ↦ ok d'' | none ↦ dispatch e.state m.kind e m d' ]

poll : List Message → DirectoryController → Result DirectoryController
unfolding handle
poll [] d = ok d
poll (m ∷ ms) d = handle m d

respond_if_due : DirectoryController → DirectoryController
unfolding respond is_due
respond_if_due d = if is_due d then respond data_msg d else d

unfoldable pub mi_tick : DirectoryController → Result DirectoryController
unfolding poll respond_if_due
mi_tick d = do
  d' ← (if d.request_in_progress then ok d else poll d.request_queue d)
  ok (respond_if_due d')

-- ===== src/Coherence/Directory/Mi/Tokens.antt =====
-- What a cycle of the MI directory does to the ownership of a block: it makes none and loses none.
use multicore_oo_o_sim.Base.{
  ℕ, ◌≡◌, refl, subst, ◌∙◌, false, List, [], ◌∷◌, arith, ok, ◌>>=◌, first_returned, ok-injective,
  Bool-cases, inl, inr, inc64, minus_one64,
}
use multicore_oo_o_sim.Coherence.Message.{Message, MessageKind, data_msg, getm, recall_goto_i}
use multicore_oo_o_sim.Coherence.Directory.{
  DirState, DirEntry, DirectoryController, dir_i, dir_m, dir_mm, get_entry, put_entry, dequeue,
  cycle_queue, handle_writeback, respond, is_due, last_present,
}
use multicore_oo_o_sim.Coherence.Directory.Carriers.{
  is_wb, carriers-append, writebacks-append, dir_tokens, dir_writebacks, schedule-fields,
  send_request-fields,
}
use multicore_oo_o_sim.Coherence.Directory.Mi.{
  on_i_getm, on_m_getm, on_mm_data, dispatch, handle, poll, respond_if_due, mi_tick, add_sharer,
}

module _ (b : ℕ) (m : Message) (ms : List Message) (d : DirectoryController)
    (queued : d.request_queue ≡ m ∷ ms) (free : d.request_in_progress ≡ false) (e : DirEntry)
    (same : (get_entry m.block d).state ≡ e.state) where
  on_i_getm-tokens :
      e.state ≡ dir_i
      → m.kind ≡ getm
      → (dir_tokens b (on_i_getm e m d) ≡ dir_tokens b d)
        × (dir_writebacks (on_i_getm e m d) ≡ dir_writebacks d)
  unfolding on_i_getm put_entry dequeue
  on_i_getm-tokens st k =
      let put : DirectoryController =
        put_entry m.block (add_sharer m.src (record e { state = dir_m })) d in
      ground (arith, schedule-fields m.block m.src put)

  on_m_getm-tokens :
      e.state ≡ dir_m
      → m.kind ≡ getm
      → (dir_tokens b (on_m_getm e m d) ≡ dir_tokens b d)
        × (dir_writebacks (on_m_getm e m d) ≡ dir_writebacks d)
  unfolding on_m_getm put_entry dequeue
  on_m_getm-tokens st k =
      let target = last_present d.settings.num_procs 0 e.presence minus_one64 in
      let d' : DirectoryController = record d { tag_to_send = m.block; target_node = target } in
      ground (arith, send_request-fields b target m.block recall_goto_i false d')

  on_mm_data-tokens :
      e.state ≡ dir_mm
      → m.kind ≡ data_msg
      → (dir_tokens b (on_mm_data e m d) ≡ dir_tokens b d)
        × (dir_writebacks (on_mm_data e m d) ≡ dir_writebacks d)
  unfolding on_mm_data put_entry dequeue
  on_mm_data-tokens st k =
      let target = e.req_node_in_transient in
      let d' : DirectoryController = record d {
        tag_to_send = m.block;
        target_node = target;
        stats = record (d.stats) { c2c_transfers = inc64 (d.stats.c2c_transfers) };
      } in
      ground (arith, send_request-fields b target m.block data_msg false d')

  cycle_queue-tokens :
      (dir_tokens b (cycle_queue d) ≡ dir_tokens b d)
      × (dir_writebacks (cycle_queue d) ≡ dir_writebacks d)
  unfolding cycle_queue
  cycle_queue-tokens =
      ground (
        arith,
        carriers-append b d.request_next (m ∷ []),
        writebacks-append d.request_next (m ∷ []),
      )

  abbrev Keeps : DirectoryController → Type 0
  Keeps d' = (dir_tokens b d' ≡ dir_tokens b d) × (dir_writebacks d' ≡ dir_writebacks d)

  dispatch-tokens :
      (st : DirState) (k : MessageKind) (d' : DirectoryController)
      → e.state ≡ st
      → m.kind ≡ k
      → dispatch st k e m d ≡ ok d'
      → Keeps d'
  unfolding dispatch
  dispatch-tokens dir_i getm d' st k p = subst Keeps (ok-injective p) (on_i_getm-tokens st k)
  dispatch-tokens dir_m getm d' st k p = subst Keeps (ok-injective p) (on_m_getm-tokens st k)
  dispatch-tokens dir_mm data_msg d' st k p = subst Keeps (ok-injective p) (on_mm_data-tokens st k)
  dispatch-tokens dir_mm getm d' st k p = subst Keeps (ok-injective p) cycle_queue-tokens
  dispatch-tokens _ _ d' st k p = cc

put_entry-tokens :
    (b block : ℕ) (d : DirectoryController)
    → let d' = put_entry block (get_entry block d) d in
      (dir_tokens b d' ≡ dir_tokens b d)
      × (dir_writebacks d' ≡ dir_writebacks d)
      × ((get_entry block d').state ≡ (get_entry block d).state)
      × (d'.request_queue ≡ d.request_queue)
      × (d'.request_in_progress ≡ d.request_in_progress)
unfolding put_entry
put_entry-tokens b block d = (ground arith, refl, ground arith, refl, refl)

handle-tokens :
    (b : ℕ) (m : Message) (ms : List Message) (d d' : DirectoryController)
    → d.request_queue ≡ m ∷ ms
    → d.request_in_progress ≡ false
    → is_wb m.kind ≡ false
    → handle m d ≡ ok d'
    → (dir_tokens b d' ≡ dir_tokens b d) × (dir_writebacks d' ≡ dir_writebacks d)
unfolding handle handle_writeback
handle-tokens b m ms d d' q f w p =
    let e = get_entry m.block d in
    let d₀ = put_entry m.block e d in
    let (tokens, wbs, same, queue, free) = put_entry-tokens b m.block d in
    let now : dispatch e.state m.kind e m d₀ ≡ ok d' = ground arith in
    let (tokens', wbs') =
      dispatch-tokens b m ms d₀ (queue ∙ q) (free ∙ f) e same e.state m.kind d' refl refl now in
    (tokens' ∙ tokens, wbs' ∙ wbs)

respond_if_due-tokens :
    (b : ℕ) (d : DirectoryController)
    → (dir_tokens b (respond_if_due d) ≡ dir_tokens b d)
      × (dir_writebacks (respond_if_due d) ≡ dir_writebacks d)
unfolding respond_if_due respond is_due
respond_if_due-tokens b d =
    let counted : DirectoryController = record d {
      stats = record (d.stats) { memory_reads = inc64 (d.stats.memory_reads) };
    } in
    ground (
      arith,
      send_request-fields b d.target_node d.tag_to_send data_msg false d,
      send_request-fields b d.target_node d.tag_to_send data_msg false counted,
    )

poll-tokens :
    (b : ℕ) (q : List Message) (d d' : DirectoryController)
    → d.request_queue ≡ q
    → d.request_in_progress ≡ false
    → dir_writebacks d ≡ 0
    → poll q d ≡ ok d'
    → (dir_tokens b d' ≡ dir_tokens b d) × (dir_writebacks d' ≡ dir_writebacks d)
unfolding poll
poll-tokens b [] d d' q f w p = ground arith
poll-tokens b (m ∷ ms) d d' q f w p =
    let no_wb : is_wb m.kind ≡ false = ground arith in handle-tokens b m ms d d' q f no_wb p

-- Where no eviction notice waits at the directory, its cycle neither makes nor loses the ownership of
-- any block, whichever message it serves.
pub mi_tick-tokens :
    (b : ℕ) (d d' : DirectoryController)
    → dir_writebacks d ≡ 0
    → mi_tick d ≡ ok d'
    → (dir_tokens b d' ≡ dir_tokens b d) × (dir_writebacks d' ≡ 0)
unfolding mi_tick
mi_tick-tokens b d d' w p = elim (Bool-cases d.request_in_progress) [
  | inl busy ↦ ground (arith, respond_if_due-tokens b d)
  | inr free ↦
      let polled : (poll d.request_queue d >>= λ d₁. ok (respond_if_due d₁)) ≡ ok d' =
        ground arith in
      let (d₁, p₁, p₂) =
        first_returned (poll d.request_queue d) (λ d₁. ok (respond_if_due d₁)) polled in
      let kept = poll-tokens b d.request_queue d d₁ refl free w p₁ in
      ground (arith, kept, respond_if_due-tokens b d₁)
]

-- ===== src/Coherence/Directory/Msi/Handlers.antt =====
-- The handlers of the MSI directory keep its entries well formed.
use multicore_oo_o_sim.Base.{
  ℕ, ◌+◌, ◌<◌, ◌≡◌, ◌≢◌, refl, subst, ap, update, ◌∙◌, Bool, true, false, List, [], ◌∷◌, arith,
  if◌then◌else◌, ◌==◌, ok, ok-injective, Bool-cases, inl, inr, if-cases, some, not, ◌&&◌,
}
use multicore_oo_o_sim.Coherence.Message.{
  Message, MessageKind, gets, getm, data_msg, ack, invack, req_invalid, recall_goto_i,
  recall_goto_s,
}
use multicore_oo_o_sim.Coherence.Directory.{
  DirState, DirEntry, DirectoryController, dir_i, dir_s, dir_m, dir_mm, dir_ms, dir_sm, put_entry,
  dequeue, cycle_queue, send_request, schedule_data_response, is_present, max_sharers,
}
use multicore_oo_o_sim.Coherence.Directory.Entries.{
  Every, Every-entries, put_entry-Every, entries-dequeue, entries-cycle_queue, entries-send_request,
  entries-schedule,
}
use multicore_oo_o_sim.Coherence.Directory.Msi.{
  on_i_getm, on_i_gets, on_m_request, on_mm_data, on_ms_data, on_s_getm, on_s_gets, on_sm_invack,
  invalidate_others, count_others, lose_sharer, dispatch,
}
use multicore_oo_o_sim.Coherence.Directory.Msi.Valid.{
  IsValid, Sane, join_m-IsValid, join_s-IsValid, share-IsValid, recall_m-IsValid, recall_s-IsValid,
  upgrade_now-IsValid, upgrade_wait-IsValid, handover-IsValid, shared-IsValid, lose-IsValid,
  acked_upgrade-IsValid, acked_fetch-IsValid,
}

-- Every entry is well formed.
abbrev pub AllValid : DirectoryController → Type 0
AllValid = Every (λ block e. IsValid e)

entries-invalidate_others :
    (ps : List Bool) (i r block : ℕ) (d : DirectoryController)
    → (invalidate_others ps i r block d).entries ≡ d.entries
unfolding invalidate_others send_request
entries-invalidate_others [] i r block d = refl
entries-invalidate_others (p ∷ ps) i r block d =
    let d' : DirectoryController =
      if p && not (i == r) then send_request i block req_invalid false d else d in
    entries-invalidate_others ps (i + 1) r block d' ∙ ground arith

-- What is stored, when a handler does nothing else to the entries.
stored :
    (block : ℕ) (e : DirEntry) (d d' : DirectoryController)
    → AllValid d
    → IsValid e
    → d'.entries ≡ (put_entry block e d).entries
    → AllValid d'
stored block e d d' all v same =
    Every-entries (λ b e. IsValid e) (put_entry block e d) d' same
      (put_entry-Every (λ b e. IsValid e) block e d all v)

pub stored_last :
    (block : ℕ) (e : DirEntry) (d d₁ : DirectoryController)
    → AllValid d
    → IsValid e
    → d₁.entries ≡ d.entries
    → AllValid (dequeue (put_entry block e d₁))
unfolding put_entry
stored_last block e d d₁ all v same =
    stored block e d (dequeue (put_entry block e d₁)) all v
      (entries-dequeue (put_entry block e d₁) ∙ ap (λ es. update es block (some e)) same)

stored_scheduled :
    (block tag target : ℕ) (e : DirEntry) (d : DirectoryController)
    → AllValid d
    → IsValid e
    → AllValid (dequeue (schedule_data_response tag target (put_entry block e d)))
stored_scheduled block tag target e d all v =
    stored block e d (dequeue (schedule_data_response tag target (put_entry block e d))) all v
      (simp (entries-dequeue, entries-schedule))

module _ (e : DirEntry) (m : Message) (d : DirectoryController) (all : AllValid d)
    (v : IsValid e) where
  on_i_getm-AllValid : e.state ≡ dir_i → m.src < max_sharers → AllValid (on_i_getm e m d)
  unfolding on_i_getm
  on_i_getm-AllValid st lt =
      stored_scheduled m.block m.block m.src _ d all (join_m-IsValid e m v lt st)

  on_i_gets-AllValid : e.state ≡ dir_i → m.src < max_sharers → AllValid (on_i_gets e m d)
  unfolding on_i_gets
  on_i_gets-AllValid st lt =
      stored_scheduled m.block m.block m.src _ d all (join_s-IsValid e m v lt st)

  on_s_gets-AllValid : m.src < max_sharers → AllValid (on_s_gets e m d)
  unfolding on_s_gets
  on_s_gets-AllValid lt = stored_scheduled m.block m.block m.src _ d all (share-IsValid e m v lt)

  on_m_getm-AllValid :
      e.state ≡ dir_m → m.src < max_sharers → AllValid (on_m_request dir_mm recall_goto_i e m d)
  unfolding on_m_request put_entry send_request
  on_m_getm-AllValid st lt =
      stored m.block _ d (on_m_request dir_mm recall_goto_i e m d) all
        (recall_m-IsValid e m v lt st) (simp entries-dequeue)

  on_m_gets-AllValid :
      e.state ≡ dir_m
      → m.src < max_sharers
      → is_present e m.src ≡ false
      → AllValid (on_m_request dir_ms recall_goto_s e m d)
  unfolding on_m_request put_entry send_request
  on_m_gets-AllValid st lt p =
      stored m.block _ d (on_m_request dir_ms recall_goto_s e m d) all
        (recall_s-IsValid e m v lt st p) (simp entries-dequeue)

  on_mm_data-AllValid : e.state ≡ dir_mm → AllValid (on_mm_data e m d)
  unfolding on_mm_data put_entry send_request
  on_mm_data-AllValid st =
      stored m.block _ d (on_mm_data e m d) all (handover-IsValid e v st) (simp entries-dequeue)

  on_ms_data-AllValid : e.state ≡ dir_ms → AllValid (on_ms_data e m d)
  unfolding on_ms_data put_entry send_request
  on_ms_data-AllValid st =
      stored m.block _ d (on_ms_data e m d) all (shared-IsValid e v st) (simp entries-dequeue)

  on_s_getm-AllValid : e.state ≡ dir_s → m.src < max_sharers → AllValid (on_s_getm e m d)
  unfolding on_s_getm
  on_s_getm-AllValid st lt =
      let d₁ = invalidate_others e.presence 0 m.src e.block_id d in
      let same = entries-invalidate_others e.presence 0 m.src e.block_id d in
      elim (Bool-cases (count_others e.presence 0 m.src == 0)) [
        | inl done ↦
            rw (done, on_s_getm)
              (stored_last m.block _ d (send_request m.src e.block_id ack false d₁) all
                (upgrade_now-IsValid e m v lt st (ground arith))
                (entries-send_request m.src e.block_id ack false d₁ ∙ same))
        | inr waits ↦
            rw (waits, on_s_getm)
              (stored_last m.block _ d d₁ all (upgrade_wait-IsValid e m v lt (ground arith)) same)
      ]

  on_sm_invack-AllValid :
      e.state ≡ dir_sm
      → is_present e m.src ≡ true
      → m.src ≢ e.req_node_in_transient
      → AllValid (on_sm_invack e m d)
  unfolding on_sm_invack
  on_sm_invack-AllValid st here other =
      let e' = lose_sharer m.src e in
      let req = e.req_node_in_transient in
      if-cases AllValid (e'.inv_ack_waiting == 0) _ _
        (λ done.
          if-cases AllValid e.getm_upgrade _ _
            (λ upgrade.
              stored_last m.block _ d (send_request req e.block_id ack false d) all
                (acked_upgrade-IsValid e m v st here other (ground arith) upgrade)
                (entries-send_request req e.block_id ack false d))
            (λ fetch.
              stored_scheduled m.block e.block_id req _ d all
                (acked_fetch-IsValid e m v st here other (ground arith) fetch)))
        (λ waits.
          stored_last m.block e' d d all (lose-IsValid e m v st here other (ground arith)) refl)

  cycled : AllValid (cycle_queue d)
  cycled = Every-entries (λ block e. IsValid e) d (cycle_queue d) (entries-cycle_queue d) all

  pub dispatch-AllValid :
      (st : DirState) (k : MessageKind) (d' : DirectoryController)
      → e.state ≡ st
      → Sane st k e m
      → dispatch st k e m d ≡ ok d'
      → AllValid d'
  unfolding dispatch
  dispatch-AllValid dir_i getm d' st ok_m p =
      subst AllValid (ok-injective p) (on_i_getm-AllValid st ok_m)
  dispatch-AllValid dir_i gets d' st ok_m p =
      subst AllValid (ok-injective p) (on_i_gets-AllValid st ok_m)
  dispatch-AllValid dir_m getm d' st ok_m p =
      subst AllValid (ok-injective p) (on_m_getm-AllValid st ok_m)
  dispatch-AllValid dir_m gets d' st ok_m p =
      subst AllValid (ok-injective p) (on_m_gets-AllValid st ok_m.0 ok_m.1)
  dispatch-AllValid dir_mm data_msg d' st ok_m p =
      subst AllValid (ok-injective p) (on_mm_data-AllValid st)
  dispatch-AllValid dir_ms data_msg d' st ok_m p =
      subst AllValid (ok-injective p) (on_ms_data-AllValid st)
  dispatch-AllValid dir_s getm d' st ok_m p =
      subst AllValid (ok-injective p) (on_s_getm-AllValid st ok_m)
  dispatch-AllValid dir_s gets d' st ok_m p =
      subst AllValid (ok-injective p) (on_s_gets-AllValid ok_m.0)
  dispatch-AllValid dir_sm invack d' st ok_m p =
      subst AllValid (ok-injective p) (on_sm_invack-AllValid st ok_m.0 ok_m.1)
  dispatch-AllValid dir_sm getm d' st ok_m p = subst AllValid (ok-injective p) cycled
  dispatch-AllValid dir_sm gets d' st ok_m p = subst AllValid (ok-injective p) cycled
  dispatch-AllValid dir_mm getm d' st ok_m p = subst AllValid (ok-injective p) cycled
  dispatch-AllValid dir_mm gets d' st ok_m p = subst AllValid (ok-injective p) cycled
  dispatch-AllValid dir_ms getm d' st ok_m p = subst AllValid (ok-injective p) cycled
  dispatch-AllValid dir_ms gets d' st ok_m p = subst AllValid (ok-injective p) cycled
  dispatch-AllValid _ _ d' st ok_m p = cc

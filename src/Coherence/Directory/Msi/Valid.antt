-- ===== src/Coherence/Directory/Msi/Valid.antt =====
-- The well-formed entries of the MSI directory, and the entries that its handlers store.
use multicore_oo_o_sim.Base.{
  ℕ, ◌+◌, ◌≤◌, ◌<◌, ◌≡◌, ◌≢◌, refl, true, false, arith, if◌then◌else◌, length, set, length-set,
  get_or-set_ne,
}
use multicore_oo_o_sim.Coherence.Message.{Message, MessageKind, gets, invack}
use multicore_oo_o_sim.Coherence.Directory.{
  DirState, DirEntry, dir_i, dir_s, dir_m, dir_mm, dir_ms, dir_sm, new_entry, is_present, is_stable,
  written_back, drop_sharer, max_sharers,
}
use multicore_oo_o_sim.Coherence.Directory.Sharers.{
  sharers, sharers-set, sharers-le, sharers-get, get_or-present,
}
use multicore_oo_o_sim.Coherence.Directory.Msi.{
  join_sharer, add_sharer, drop_owner, clear_first, count_others, lose_sharer,
}
use multicore_oo_o_sim.Coherence.Directory.Msi.Sharers.{
  any_present-sharers, sharers-clear_first, length-clear_first, count_others-sharers,
}

-- What the state of an entry says of its presence bits.
abbrev pub Shape : DirState → DirEntry → Type 0
Shape dir_i e = sharers e.presence ≡ 0
Shape dir_s e = 1 ≤ sharers e.presence
Shape dir_m e = sharers e.presence ≡ 1
Shape dir_mm e = (sharers e.presence ≡ 1) × (e.req_node_in_transient < max_sharers)
Shape dir_ms e =
    (sharers e.presence ≡ 1)
    × (e.req_node_in_transient < max_sharers)
    × (is_present e e.req_node_in_transient ≡ false)
Shape dir_sm e =
    (1 ≤ e.inv_ack_waiting)
    × (e.req_node_in_transient < max_sharers)
    × (e.getm_upgrade ≡ is_present e e.req_node_in_transient)
    × (e.inv_ack_waiting + (if is_present e e.req_node_in_transient then 1 else 0)
        ≡ sharers e.presence)
Shape _ e = ⊥

pub record IsValid (e : DirEntry) : Type 0 where
  pub sized : length e.presence ≡ max_sharers
  pub counted : e.active_sharers ≡ sharers e.presence
  pub shaped : Shape e.state e

-- What a message must say, for the state that it meets: a processor asks for a shared copy only where it
-- has none, and an invalidation is acknowledged once, by a sharer that was sent one.
abbrev pub Sane : DirState → MessageKind → DirEntry → Message → Type 0
Sane dir_s gets e m = (m.src < max_sharers) × (is_present e m.src ≡ false)
Sane dir_m gets e m = (m.src < max_sharers) × (is_present e m.src ≡ false)
Sane dir_sm invack e m = (is_present e m.src ≡ true) × (m.src ≢ e.req_node_in_transient)
Sane _ _ e m = m.src < max_sharers

pub new_entry-IsValid : (block : ℕ) → IsValid (new_entry block)
new_entry-IsValid block = record { sized = refl; counted = refl; shaped = refl }

module _ (e : DirEntry) (m : Message) (v : IsValid e) (lt : m.src < max_sharers) where
  pub join_m-IsValid :
      e.state ≡ dir_i
      → IsValid (join_sharer m.src (record e { state = dir_m; dirty = true; block_id = m.block }))
  unfolding join_sharer
  join_m-IsValid st = ground (
    arith,
    sharers-set e.presence m.src true,
    length-set e.presence m.src true,
    sharers-get e.presence m.src,
  )

  pub join_s-IsValid :
      e.state ≡ dir_i
      → IsValid (join_sharer m.src (record e { state = dir_s; dirty = false; block_id = m.block }))
  unfolding join_sharer
  join_s-IsValid st = ground (
    arith,
    sharers-set e.presence m.src true,
    length-set e.presence m.src true,
    sharers-get e.presence m.src,
  )

  pub share-IsValid : IsValid (join_sharer m.src (record e { state = dir_s }))
  unfolding join_sharer
  share-IsValid = ground (
    arith,
    sharers-set e.presence m.src true,
    length-set e.presence m.src true,
    sharers-get e.presence m.src,
    sharers-le (set e.presence m.src true),
  )

  pub recall_m-IsValid :
      e.state ≡ dir_m → IsValid (record e { state = dir_mm; req_node_in_transient = m.src })
  recall_m-IsValid st = ground arith

  pub recall_s-IsValid :
      e.state ≡ dir_m
      → is_present e m.src ≡ false
      → IsValid (record e { state = dir_ms; req_node_in_transient = m.src })
  recall_s-IsValid st p = ground arith

  pub written_back-IsValid : is_stable e.state ≡ true → IsValid (written_back e m)
  unfolding written_back drop_sharer
  written_back-IsValid st = ground (
    arith,
    sharers-set e.presence m.src false,
    length-set e.presence m.src false,
    sharers-le e.presence,
  )

  pub upgrade_now-IsValid :
      e.state ≡ dir_s
      → count_others e.presence 0 m.src ≡ 0
      → IsValid (record e { dirty = true; state = dir_m })
  upgrade_now-IsValid st z = ground (arith, count_others-sharers e.presence m.src)

  pub upgrade_wait-IsValid :
      count_others e.presence 0 m.src ≢ 0
      → IsValid (record e {
        req_node_in_transient = m.src;
        inv_ack_waiting = count_others e.presence 0 m.src;
        getm_upgrade = is_present e m.src;
        state = dir_sm;
      })
  upgrade_wait-IsValid z = ground (arith, count_others-sharers e.presence m.src)

module _ (e : DirEntry) (v : IsValid e) where
  pub handover-IsValid :
      e.state ≡ dir_mm
      → IsValid (record (add_sharer e.req_node_in_transient (drop_owner e)) {
        dirty = true;
        state = dir_m;
      })
  unfolding add_sharer drop_owner
  handover-IsValid st = ground (
    arith,
    any_present-sharers e.presence,
    sharers-clear_first e.presence,
    length-clear_first e.presence,
    sharers-set (clear_first e.presence) e.req_node_in_transient true,
    length-set (clear_first e.presence) e.req_node_in_transient true,
    sharers-get (clear_first e.presence) e.req_node_in_transient,
  )

  pub shared-IsValid :
      e.state ≡ dir_ms
      → IsValid (record (add_sharer e.req_node_in_transient e) { state = dir_s; dirty = false })
  unfolding add_sharer
  shared-IsValid st = ground (
    arith,
    sharers-set e.presence e.req_node_in_transient true,
    length-set e.presence e.req_node_in_transient true,
  )

module _ (e : DirEntry) (m : Message) (v : IsValid e) (st : e.state ≡ dir_sm)
    (there : is_present e m.src ≡ true) (other : m.src ≢ e.req_node_in_transient) where
  lost :
      let e' = lose_sharer m.src e in
      (length e'.presence ≡ max_sharers)
      × (e'.active_sharers ≡ sharers e'.presence)
      × (e'.inv_ack_waiting + 1 ≡ e.inv_ack_waiting)
      × (is_present e' e.req_node_in_transient ≡ is_present e e.req_node_in_transient)
      × (sharers e'.presence + 1 ≡ sharers e.presence)
  lost = ground (
    arith,
    sharers-set e.presence m.src false,
    length-set e.presence m.src false,
    sharers-le e.presence,
    get_or-present e.presence m.src,
    get_or-set_ne e.presence m.src e.req_node_in_transient false false,
  )

  pub lose-IsValid : (lose_sharer m.src e).inv_ack_waiting ≢ 0 → IsValid (lose_sharer m.src e)
  lose-IsValid n = ground (arith, lost)

  pub acked_upgrade-IsValid :
      (lose_sharer m.src e).inv_ack_waiting ≡ 0
      → e.getm_upgrade ≡ true
      → IsValid (record (lose_sharer m.src e) { dirty = true; state = dir_m })
  acked_upgrade-IsValid z u = ground (arith, lost)

  pub acked_fetch-IsValid :
      (lose_sharer m.src e).inv_ack_waiting ≡ 0
      → e.getm_upgrade ≡ false
      → IsValid (record (add_sharer e.req_node_in_transient (lose_sharer m.src e)) {
        state = dir_m;
        dirty = true;
      })
  unfolding add_sharer
  acked_fetch-IsValid z u = ground (
    arith,
    lost,
    sharers-set (lose_sharer m.src e).presence e.req_node_in_transient true,
    length-set (lose_sharer m.src e).presence e.req_node_in_transient true,
  )

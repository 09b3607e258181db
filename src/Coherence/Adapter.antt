-- ===== src/Coherence/Adapter.antt =====
-- include/comparch/coherence/coherence_adapter.hpp and src/coherence/coherence_adapter.cpp: the adapter between a
-- core's caches and its coherence cache. The adapter is what stands below the last of the caches, so
-- that the state of the caches holds it; the methods that reach back into the caches act on that state.
pub mod Wakes
pub mod Invalidates
pub mod Fills
pub mod Wiring
mod Tests
use multicore_oo_o_sim.Base.{
  ℕ, ◌+◌, ◌*◌, ◌/◌, ◌%◌, ◌^◌, Bool, true, false, Option, none, some, List, [], ◌∷◌, ◌++◌, ◌==◌,
  ◌&&◌, ◌||◌, not, if◌then◌else◌, u64,
}
use multicore_oo_o_sim.Cache.Mshr
use multicore_oo_o_sim.Cache.Mshr.{Op, op_write, AccessResult, MshrEntry, contains, remove_first}
use multicore_oo_o_sim.Cache.Level.{
  MemReq, CoherenceSink, Downstream, Cache, get_tag, get_index, byte_of, is_write, block_in,
  mark_entry, coherence_invalidate, coherence_set_dirty, coherence_clean,
}
use multicore_oo_o_sim.Cache.Level.Insert.{insert_new_block}
use multicore_oo_o_sim.Cache.Level.Below.{over_level}
use multicore_oo_o_sim.Coherence.Message.{
  Message, MessageKind, nop, load, store, gets, getm, data_msg, data_wb, req_invalid, invack, ack,
  data_e, getx, data_f, recall_goto_i, recall_goto_s, req_message_num, Settings, message,
}
use multicore_oo_o_sim.Coherence.Agent.{Port}

-- The adapter, with the mailbox and the port of the coherence cache that it wraps.
pub record CoherenceAdapter : Type 0 where
  pub id : ℕ
  pub settings : Settings
  pub block_size_log2 : ℕ
  pub outbound_proc : List Message
  pub pending_stores : List ℕ
  pub cpu_in_next : Option Message
  pub port : Port

abbrev pub to_cache_block : ℕ → ℕ → ℕ
to_cache_block byte_block block_size_log2 = byte_block / 2 ^ block_size_log2

abbrev pub to_byte_block : ℕ → ℕ → ℕ
to_byte_block cache_block block_size_log2 = cache_block * 2 ^ block_size_log2 % u64

-- `insert` and `erase` of a set without order.
abbrev pub insert_store : ℕ → List ℕ → List ℕ
insert_store x l = if contains x l then l else x ∷ l

unfoldable pub on_miss : ℕ → Op → CoherenceAdapter → CoherenceAdapter
on_miss block_addr op a =
    let byte_block = to_byte_block block_addr a.block_size_log2 in
    let kind = if is_write op then store else load in
    record a {
      pending_stores =
          if is_write op then insert_store byte_block a.pending_stores else a.pending_stores;
      outbound_proc = a.outbound_proc ++ message a.settings a.id a.id byte_block kind ∷ [];
    }

unfoldable pub on_evict : ℕ → Bool → CoherenceAdapter → CoherenceAdapter
on_evict block_addr dirty a =
    let byte_block = to_byte_block block_addr a.block_size_log2 in
    let msg : Message = message a.settings a.id a.settings.num_procs byte_block data_wb in
    record a {
      port = record (a.port) {
        ntwk_out_next = a.port.ntwk_out_next ++ (record msg { dirty = dirty }) ∷ [];
      };
    }

-- A cache whose one pointer that is set is the adapter, as a coherence sink.
abbrev pub over_adapter : Downstream CoherenceAdapter
over_adapter = record {
  next_level = none;
  main_memory = none;
  coherence_sink = some (record { on_miss = on_miss; on_evict = on_evict });
}

-- One pending request goes to the mailbox, if that is empty.
abbrev pub drained : List Message → Option Message → CoherenceAdapter → CoherenceAdapter
drained [] mailbox a = a
drained (m ∷ ms) (some busy) a = a
drained (m ∷ ms) none a = record a { cpu_in_next = some m; outbound_proc = ms }

abbrev pub drain : CoherenceAdapter → CoherenceAdapter
drain a = drained a.outbound_proc a.cpu_in_next a

-- The answer is taken out of its slot, and the store that waited for it is forgotten.
abbrev pub consume : Message → CoherenceAdapter → CoherenceAdapter
consume m a = record a {
  pending_stores = remove_first m.block a.pending_stores;
  port = record (a.port) { cache_in_next = none };
}

unfoldable pub mark_ids : List ℕ → Mshr.Mshr → Mshr.Mshr
mark_ids [] t = t
mark_ids (id ∷ ids) t = mark_ids ids (mark_entry id t)

-- The loop over the entries, which stay the same but for their ready bits.
unfoldable pub mark_all : ℕ → Mshr.Mshr → Mshr.Mshr → Mshr.Mshr
mark_all block_addr [] t = t
mark_all block_addr (e ∷ es) t =
    mark_all block_addr es
      (if e.valid && (e.block_addr == block_addr) then mark_ids (e.id ∷ e.merged_ids) t else t)

module _ {D : Type 0} where
  unfoldable pub mark_block_ready : ℕ → Cache D → Cache D
  mark_block_ready block_addr c = record c { mshr = mark_all block_addr c.mshr c.mshr }

module _ {D : Type 0} (down : Downstream D) where
  unfoldable pub cache_fill : ℕ → Bool → Cache D → Cache D
  cache_fill block_addr write c =
      if block_in c (byte_of c.cfg block_addr)
      then (if write then coherence_set_dirty block_addr c else c)
      else insert_new_block down write (get_tag c.cfg block_addr) (get_index c.cfg block_addr)
          block_addr false c

-- What `tick` does with an answer for the block where the adapter stands below L1, and below L2.
abbrev pub fill_l1 : ℕ → Bool → Cache CoherenceAdapter → Cache CoherenceAdapter
fill_l1 block was_store c = mark_block_ready block (cache_fill over_adapter block was_store c)

abbrev pub fill_l2 : ℕ → Cache (Cache CoherenceAdapter) → Cache (Cache CoherenceAdapter)
fill_l2 block c = record c { below = cache_fill over_adapter block false c.below }

abbrev pub mark_l2 : ℕ → Cache (Cache CoherenceAdapter) → Cache (Cache CoherenceAdapter)
mark_l2 block c = record c { below = mark_block_ready block c.below }

abbrev pub fill_both : ℕ → Bool → Cache (Cache CoherenceAdapter) → Cache (Cache CoherenceAdapter)
fill_both block was_store c = mark_l2 block (
    mark_block_ready block (cache_fill (over_level over_adapter) block was_store (fill_l2 block c)))

abbrev pub served_l1 : Option Message → Cache CoherenceAdapter → Cache CoherenceAdapter
served_l1 none c = c
served_l1 (some m) c =
    fill_l1 (to_cache_block m.block c.below.block_size_log2)
      (contains m.block c.below.pending_stores) (record c { below = consume m c.below })

abbrev pub served_both :
    Option Message → Cache (Cache CoherenceAdapter) → Cache (Cache CoherenceAdapter)
served_both none c = c
served_both (some m) c =
    fill_both (to_cache_block m.block c.below.below.block_size_log2)
      (contains m.block c.below.below.pending_stores)
      (record c { below = record (c.below) { below = consume m c.below.below } })

-- `tick` with shared last-level cache, where there is no L2, and with a private L2.
unfoldable pub tick_shared : Cache CoherenceAdapter → Cache CoherenceAdapter
tick_shared c = served_l1 c.below.port.cache_in_next (record c { below = drain c.below })

unfoldable pub tick_private : Cache (Cache CoherenceAdapter) → Cache (Cache CoherenceAdapter)
tick_private c =
    served_both c.below.below.port.cache_in_next
      (record c { below = record (c.below) { below = drain c.below.below } })

-- What a message of the network does to a cache.
abbrev pub on_event : {D : Type 0} → ℕ → MessageKind → Bool → Cache D → Cache D
on_event block req_invalid dirty c = coherence_invalidate block c
on_event block recall_goto_i dirty c = coherence_invalidate block c
on_event block recall_goto_s dirty c = if not dirty then coherence_clean block c else c
on_event block _ dirty c = c

unfoldable pub on_ntwk_event_shared : Message → Cache CoherenceAdapter → Cache CoherenceAdapter
on_ntwk_event_shared m c =
    on_event (to_cache_block m.block c.below.block_size_log2) m.kind m.dirty c

unfoldable pub on_ntwk_event_private :
    Message → Cache (Cache CoherenceAdapter) → Cache (Cache CoherenceAdapter)
on_ntwk_event_private m c =
    let block = to_cache_block m.block c.below.below.block_size_log2 in
    let l1 : Cache (Cache CoherenceAdapter) = on_event block m.kind m.dirty c in
    record l1 { below = on_event block m.kind m.dirty c.below }

-- `is_done`.
abbrev pub is_done : CoherenceAdapter → Bool
is_done a = elim a.port.cache_in_next [
  | none ↦ elim a.outbound_proc [ [] ↦ true | _ ↦ false ]
  | some m ↦ false
]

-- ===== src/Coherence/Adapter/Fills.antt =====
-- src/coherence/coherence_adapter.cpp: the line that an answer puts into a cache.
use multicore_oo_o_sim.Base.{
  ℕ, ◌*◌, ◌/◌, ◌^◌, ◌<◌, ◌≤◌, ◌≡◌, refl, ap, sym, subst, ◌∙◌, arith, Bool, true, false, Option,
  none, some, List, [], ◌∷◌, ◌||◌, not, if◌then◌else◌, if-cases, get_or, set, get_or-set_self,
  length, u64,
}
use native.Mathlib.Nat.{mod-lt, mod-eq_of_lt, mul-div_cancel, div-mul-le_self}
use multicore_oo_o_sim.Cache.Mshr.{contains}
use multicore_oo_o_sim.Cache.Sets.{
  TagMeta, Replacement, lru_mip, lru_lip, is_in, find_block, write_dirty, place, make_room,
}
use multicore_oo_o_sim.Cache.Sets.Shape.{set_ok, room_made, is_in-write_dirty, is_in-insert}
use multicore_oo_o_sim.Cache.Level.{
  wbwa, Downstream, Config, Cache, index_bit, assoc, get_tag, get_index, get_block_addr, byte_of,
  row, is_in_cache, block_in, new_block, coherence_set_dirty,
}
use multicore_oo_o_sim.Cache.Level.Insert.{insert_new_block, born_dirty}
use multicore_oo_o_sim.Cache.Level.Shape.{
  IsValid, insert_new_block-IsValid, coherence_set_dirty-IsValid,
}
use multicore_oo_o_sim.Cache.Level.Run.{pow_pos}
use multicore_oo_o_sim.Coherence.Message.{Message}
use multicore_oo_o_sim.Coherence.Adapter.{
  CoherenceAdapter, cache_fill, over_adapter, consume, drain, drained, mark_block_ready, served_l1,
  tick_shared, to_cache_block,
}
use multicore_oo_o_sim.Coherence.Adapter.Invalidates.{dirty_found}

dirty-write_dirty :
    (t : ℕ) (l : List TagMeta)
    → is_in t l ≡ true
    → dirty_found (find_block t (write_dirty true t l)) ≡ true
unfolding find_block write_dirty is_in
dirty-write_dirty t [] h = cc
dirty-write_dirty t (b ∷ bs) h = ground (arith, dirty-write_dirty t bs)

dirty-place :
    (r : Replacement) (b : TagMeta) (l : List TagMeta)
    → is_in b.tag l ≡ false
    → b.valid ≡ true
    → dirty_found (find_block b.tag (place r b l)) ≡ b.dirty
unfolding find_block place is_in
dirty-place lru_mip b l h v = ground arith
dirty-place lru_lip b [] h v = ground arith
dirty-place lru_lip b (x ∷ xs) h v = ground (arith, dirty-place lru_lip b xs)

block_of_byte :
    (k : Config) (block : ℕ) → block * 2 ^ k.b < u64 → get_block_addr k (byte_of k block) ≡ block
block_of_byte k block h =
    ap (λ n. n / 2 ^ k.b) (mod-eq_of_lt h) ∙ mul-div_cancel block (pow_pos k.b)

module _ {D : Type 0} (k : Config) (block : ℕ) where
  -- The block is there, dirty if it was filled for a write, and the sets are well formed.
  pub record Filled (write : Bool) (c : Cache D) : Type 0 where
    pub valid : IsValid k c
    pub resident : is_in (get_tag k block) (row c (get_index k block)) ≡ true
    pub dirtied :
        not write || dirty_found (find_block (get_tag k block) (row c (get_index k block))) ≡ true

  index_lt : (c : Cache D) → IsValid k c → get_index k block < length c.rows
  index_lt c v =
      subst (λ n. get_index k block < n) (sym v.all_sets) (mod-lt block (pow_pos (index_bit k)))

  resident_case :
      (write : Bool) (c : Cache D)
      → c.cfg ≡ k
      → IsValid k c
      → is_in_cache (get_tag k block) (get_index k block) c ≡ true
      → Filled write (if write then coherence_set_dirty block c else c)
  unfolding coherence_set_dirty
  resident_case false c e v i = record { valid = v; resident = i; dirtied = refl }
  resident_case true c e v i =
      let l : List TagMeta = row c (get_index k block) in
      let l' : List TagMeta = write_dirty true (get_tag k block) l in
      let put : row (coherence_set_dirty block c) (get_index k block) ≡ l' =
        ap
          (λ j.
            get_or
              (set c.rows (get_index j block)
                (write_dirty true (get_tag j block) (row c (get_index j block))))
              (get_index k block) [])
          e
        ∙ get_or-set_self c.rows (get_index k block) l' [] (index_lt c v) in
      record {
        valid = coherence_set_dirty-IsValid k block c v;
        resident =
            ap (is_in (get_tag k block)) put
            ∙ is_in-write_dirty true (get_tag k block) (get_tag k block) l
            ∙ i;
        dirtied =
            ap (λ l. dirty_found (find_block (get_tag k block) l)) put
            ∙ dirty-write_dirty (get_tag k block) l i;
      }

  module _ (down : Downstream D) where
    absent_case :
        (write : Bool) (c : Cache D)
        → c.cfg ≡ k
        → k.write_policy ≡ wbwa
        → IsValid k c
        → is_in_cache (get_tag k block) (get_index k block) c ≡ false
        → Filled write
            (insert_new_block down write (get_tag k block) (get_index k block) block false c)
    unfolding insert_new_block
    absent_case write c e p v i =
        let x : TagMeta =
          new_block (get_tag k block) block (born_dirty c.cfg.write_policy write) false in
        let l : List TagMeta = row c (get_index k block) in
        let room : List TagMeta = make_room (assoc c.cfg) l in
        let put : get_or (set c.rows (get_index k block) (place c.cfg.replacement x room))
              (get_index k block) []
            ≡ place c.cfg.replacement x room =
          get_or-set_self c.rows (get_index k block) _ [] (index_lt c v) in
        let born : born_dirty c.cfg.write_policy write ≡ write =
          ap (λ q. born_dirty q write) (ap (λ j. j.write_policy) e ∙ p) in
        let gone : is_in (get_tag k block) room ≡ false =
          (room_made (assoc c.cfg) (get_tag k block) l (subst (λ j. 0 < assoc j) (sym e) v.some_way)
            i
            (subst (λ j. set_ok (assoc j) l ≡ true) (sym e) (v.sets_ok (get_index k block)))).1.1 in
        record {
          valid = insert_new_block-IsValid down k write _ _ block false c i v;
          resident =
              ap (is_in (get_tag k block)) put
              ∙ is_in-insert (assoc c.cfg) c.cfg.replacement x l refl;
          dirtied =
              let dirty : _ =
                ap (λ l. dirty_found (find_block (get_tag k block) l)) put
                ∙ dirty-place c.cfg.replacement x room gone refl
                ∙ born in
              ground (arith, dirty);
        }

    -- The answer for a block finds or makes a line for it.
    pub cache_fill-Filled :
        (write : Bool) (c : Cache D)
        → k.write_policy ≡ wbwa
        → block * 2 ^ k.b < u64
        → IsValid k c
        → Filled write (cache_fill down block write c)
    unfolding cache_fill
    cache_fill-Filled write c p h v =
        let e : c.cfg ≡ k = v.configured in
        let same : get_block_addr c.cfg (byte_of c.cfg block) ≡ block =
          block_of_byte c.cfg block (subst (λ j. block * 2 ^ j.b < u64) (sym e) h) in
        let here : block_in c (byte_of c.cfg block)
            ≡ is_in_cache (get_tag k block) (get_index k block) c =
          ap (λ n. is_in_cache (get_tag c.cfg n) (get_index c.cfg n) c) same
          ∙ ap (λ j. is_in_cache (get_tag j block) (get_index j block) c) e in
        if-cases (Filled write) (block_in c (byte_of c.cfg block)) _ _
          (λ t. resident_case write c e v (sym here ∙ t))
          (λ t.
            subst
              (λ j.
                Filled write
                  (insert_new_block down write (get_tag j block) (get_index j block) block false c))
              (sym e) (absent_case write c e p v (sym here ∙ t)))

  -- What is not in the sets does not matter.
  marked-Filled :
      (write : Bool) (c : Cache D) → Filled write c → Filled write (mark_block_ready block c)
  unfolding mark_block_ready
  marked-Filled write c f = record {
    valid = record {
      configured = f.valid.configured;
      some_way = f.valid.some_way;
      all_sets = f.valid.all_sets;
      sets_ok = f.valid.sets_ok;
    };
    resident = f.resident;
    dirtied = f.dirtied;
  }

drain_kept :
    (a : CoherenceAdapter)
    → ((drain a).block_size_log2 ≡ a.block_size_log2)
      × ((drain a).pending_stores ≡ a.pending_stores)
drain_kept a = kept a.outbound_proc a.cpu_in_next
  where
    kept :
        (l : List Message) (o : Option Message)
        → ((drained l o a).block_size_log2 ≡ a.block_size_log2)
          × ((drained l o a).pending_stores ≡ a.pending_stores)
    kept [] o = (refl, refl)
    kept (m ∷ ms) (some busy) = (refl, refl)
    kept (m ∷ ms) none = (refl, refl)

-- Where the last-level cache is shared and L1 writes back, a cycle of the adapter that finds an answer in
-- its slot leaves the block in L1, dirty if a store waited for it, and the sets of L1 well formed.
pub tick_shared-Filled :
    (k : Config) (c : Cache CoherenceAdapter) (m : Message)
    → k.write_policy ≡ wbwa
    → c.below.block_size_log2 ≡ k.b
    → m.block < u64
    → IsValid k c
    → c.below.port.cache_in_next ≡ some m
    → Filled k
        (to_cache_block m.block k.b)
        (contains m.block c.below.pending_stores)
        (tick_shared c)
unfolding tick_shared
tick_shared-Filled k c m p e h v a =
    let d : CoherenceAdapter = drain c.below in
    let kept : _ = drain_kept c.below in
    let block : ℕ = to_cache_block m.block k.b in
    let c' : Cache CoherenceAdapter = record c { below = consume m d } in
    let v' : IsValid k c' = record {
      configured = v.configured;
      some_way = v.some_way;
      all_sets = v.all_sets;
      sets_ok = v.sets_ok;
    } in
    let fit : block * 2 ^ k.b < u64 =
      let le : block * 2 ^ k.b ≤ m.block = div-mul-le_self m.block (2 ^ k.b) in omega (arith, le) in
    subst
      (λ o.
        Filled k block (contains m.block c.below.pending_stores)
          (served_l1 o (record c { below = d })))
      (sym a)
      (subst
        (λ n. Filled k block (contains m.block c.below.pending_stores) (
          mark_block_ready (to_cache_block m.block n) (
            cache_fill over_adapter (to_cache_block m.block n) (contains m.block d.pending_stores)
              c')))
        (sym (kept.0 ∙ e))
        (subst
          (λ l.
            Filled k block (contains m.block c.below.pending_stores)
              (mark_block_ready block (cache_fill over_adapter block (contains m.block l) c')))
          (sym kept.1)
          (marked-Filled k block _ _ (
            cache_fill-Filled k block over_adapter (contains m.block c.below.pending_stores) c' p
              fit v'))))

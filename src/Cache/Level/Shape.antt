-- ===== src/Cache/Level/Shape.antt =====
-- src/cache/cache.cpp: the shape of the sets, under every operation of a cache.
pub mod Accesses
use multicore_oo_o_sim.Base.{
  ℕ, ◌^◌, ◌<◌, ◌≡◌, refl, sym, ap, ◌∙◌, arith, Bool, true, false, Option, none, some, List, [],
  ◌&&◌, not, if-cases, length, get_or, set, get_or-set_all, length-set,
}
use multicore_oo_o_sim.Cache.Mshr.{Op, op_read, AccessResult}
use multicore_oo_o_sim.Cache.Sets.{
  TagMeta, find_block, to_front, find_and_promote, promote_found, make_room, place,
}
use multicore_oo_o_sim.Cache.Sets.Shape.{
  set_ok, set_ok-to_front, set_ok-write_dirty, set_ok-remove, set_ok-insert, find_block-is_in,
  find_block-absent,
}
use multicore_oo_o_sim.Cache.Prefetch.{Prefetcher, prefetch_on_miss}
use multicore_oo_o_sim.Cache.Level.{
  MemReq, index_bit, WritePolicy, wbwa, wtwna, NextLevel, Memory, CoherenceSink, Downstream, Config,
  Cache, assoc, get_tag, get_index, get_block_addr, is_write, row, is_in_cache, block_in, new_block,
  coherence_invalidate, coherence_set_dirty, coherence_clean,
}
use multicore_oo_o_sim.Cache.Level.Insert.{
  before_insert, insert_new_block, issue_prefetch, prefetched_by, run_prefetcher, born_dirty,
}
use multicore_oo_o_sim.Cache.Level.Access.{
  access, by_policy, fetch, fill, wbwa_found, wbwa_resident, fetch_from, wtwna_found, write_through,
  count_access, count_miss, count_read_miss, touched, upgrade, wbwa_hit,
}

-- Each set holds at most as many blocks as there are ways, all valid and no two with one tag; there is a way.
pub record IsValid {D : Type 0} (k : Config) (c : Cache D) : Type 0 where
  pub configured : c.cfg ≡ k
  pub some_way : 0 < assoc k
  pub all_sets : length c.rows ≡ 2 ^ index_bit k
  pub sets_ok : (i : ℕ) → set_ok (assoc k) (row c i) ≡ true

module _ {D : Type 0} (k : Config) where
  rows_set :
      (c : Cache D) (rows : List (List TagMeta)) (index : ℕ) (l : List TagMeta)
      → IsValid k c
      → c.rows ≡ rows
      → set_ok (assoc k) l ≡ true
      → (i : ℕ) → set_ok (assoc k) (get_or (set rows index l) i []) ≡ true
  rows_set c rows index l v e h =
      get_or-set_all (λ l. set_ok (assoc k) l ≡ true) rows index l [] h
        (λ i. ap (λ r. set_ok (assoc k) (get_or r i [])) (sym e) ∙ v.sets_ok i)

  rows_len :
      (c : Cache D) (index : ℕ) (l : List TagMeta)
      → IsValid k c
      → length (set c.rows index l) ≡ 2 ^ index_bit k
  rows_len c index l v = length-set c.rows index l ∙ v.all_sets

  pub coherence_set_dirty-IsValid :
      (block_addr : ℕ) (c : Cache D) → IsValid k c → IsValid k (coherence_set_dirty block_addr c)
  unfolding coherence_set_dirty
  coherence_set_dirty-IsValid block_addr c v = record {
    configured = v.configured;
    some_way = v.some_way;
    all_sets = rows_len c _ _ v;
    sets_ok =
        rows_set c c.rows _ _ v refl
          (set_ok-write_dirty (assoc k) true _ (row c (get_index c.cfg block_addr)) ∙ v.sets_ok _);
  }

  pub coherence_clean-IsValid :
      (block_addr : ℕ) (c : Cache D) → IsValid k c → IsValid k (coherence_clean block_addr c)
  unfolding coherence_clean
  coherence_clean-IsValid block_addr c v = record {
    configured = v.configured;
    some_way = v.some_way;
    all_sets = rows_len c _ _ v;
    sets_ok =
        rows_set c c.rows _ _ v refl
          (set_ok-write_dirty (assoc k) false _ (row c (get_index c.cfg block_addr)) ∙ v.sets_ok _);
  }

  pub coherence_invalidate-IsValid :
      (block_addr : ℕ) (c : Cache D) → IsValid k c → IsValid k (coherence_invalidate block_addr c)
  unfolding coherence_invalidate
  coherence_invalidate-IsValid block_addr c v =
      if-cases (IsValid k) (is_in_cache (get_tag c.cfg block_addr) (get_index c.cfg block_addr) c) _
        _
        (λ p. record {
          configured = v.configured;
          some_way = v.some_way;
          all_sets = rows_len c _ _ v;
          sets_ok =
              rows_set c c.rows _ _ v refl
                (set_ok-remove (assoc k) _ (row c (get_index c.cfg block_addr)) (v.sets_ok _));
        })
        (λ p. v)

module _ {D : Type 0} (down : Downstream D) (k : Config) where
  -- What is told of an eviction changes neither the configuration nor the rows.
  before_insert-cfg :
      (p : WritePolicy) (index : ℕ) (c : Cache D) → (before_insert down p index c).cfg ≡ c.cfg
  before_insert-cfg p index c = ground arith

  pub insert_new_block-IsValid :
      (w : Bool) (tag index block : ℕ) (pre : Bool) (c : Cache D)
      → is_in_cache tag index c ≡ false
      → IsValid k c
      → IsValid k (insert_new_block down w tag index block pre c)
  unfolding insert_new_block
  insert_new_block-IsValid w tag index block pre c h v =
      let x : TagMeta = new_block tag block (born_dirty c.cfg.write_policy w) pre in
      record {
        configured = before_insert-cfg c.cfg.write_policy index c ∙ v.configured;
        some_way = v.some_way;
        all_sets = rows_len k c index _ v;
        sets_ok = rows_set k c c.rows index _ v refl (
            ap
              (λ j.
                set_ok (assoc k) (place c.cfg.replacement x (make_room (assoc j) (row c index))))
              v.configured
            ∙ set_ok-insert (assoc k) c.cfg.replacement x (row c index) v.some_way refl h
                (v.sets_ok index));
      }

  -- What leaves the configuration and the rows alone.
  pub same_shape : (c d : Cache D) → d.cfg ≡ c.cfg → d.rows ≡ c.rows → IsValid k c → IsValid k d
  same_shape c d p q v = record {
    configured = p ∙ v.configured;
    some_way = v.some_way;
    all_sets = ap length q ∙ v.all_sets;
    sets_ok = λ i. ap (λ r. set_ok (assoc k) (get_or r i [])) q ∙ v.sets_ok i;
  }

  pub issue_prefetch-IsValid :
      (byte_addr : ℕ) (c : Cache D) → IsValid k c → IsValid k (issue_prefetch down byte_addr c)
  unfolding issue_prefetch
  issue_prefetch-IsValid byte_addr c v =
      let block : ℕ = get_block_addr c.cfg byte_addr in
      let tag : ℕ = get_tag c.cfg block in
      let index : ℕ = get_index c.cfg block in
      if-cases (IsValid k) (is_in_cache tag index c) _ _ (λ p. v)
        (λ p.
          same_shape (insert_new_block down false tag index block true c) _ refl refl
            (insert_new_block-IsValid false tag index block true c p v))

  run_prefetcher-IsValid :
      (peer : ℕ → Bool) (req : MemReq) (c : Cache D)
      → IsValid k c
      → IsValid k (run_prefetcher down peer req c)
  unfolding run_prefetcher
  run_prefetcher-IsValid peer req c v =
      by_request
        (prefetch_on_miss c.cfg.b peer (block_in c) (get_block_addr c.cfg req.addr) c.prefetcher)
    where
      by_request : (r : Option ℕ × Prefetcher) → IsValid k (prefetched_by down r c)
      by_request (none, p) = same_shape c _ refl refl v
      by_request (some byte_addr, p) =
          same_shape (issue_prefetch down byte_addr c) _ refl refl
            (issue_prefetch-IsValid byte_addr c v)

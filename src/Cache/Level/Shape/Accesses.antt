-- ===== src/Cache/Level/Shape/Accesses.antt =====
-- src/cache/cache.cpp: the shape of the sets under an access.
use multicore_oo_o_sim.Base.{
  ℕ, ◌≡◌, refl, ap, ◌∙◌, Bool, false, Option, none, some, [], ◌&&◌, not, if-cases, length, get_or,
  set,
}
use multicore_oo_o_sim.Cache.Mshr.{Op, op_read, AccessResult}
use multicore_oo_o_sim.Cache.Sets.{TagMeta, find_block, to_front, find_and_promote, promote_found}
use multicore_oo_o_sim.Cache.Sets.Shape.{
  set_ok, set_ok-to_front, find_block-is_in, find_block-absent,
}
use multicore_oo_o_sim.Cache.Level.{
  MemReq, WritePolicy, wbwa, wtwna, NextLevel, Memory, CoherenceSink, Downstream, Config, Cache,
  assoc, get_tag, get_index, get_block_addr, is_write, row, is_in_cache,
}
use multicore_oo_o_sim.Cache.Level.Access.{
  access, by_policy, fill, wbwa_found, wbwa_resident, fetch_from, wtwna_found, write_through,
  count_access, count_miss, count_read_miss, touched, upgrade, wbwa_hit,
}
use multicore_oo_o_sim.Cache.Level.Shape.{
  IsValid, rows_set, rows_len, same_shape, insert_new_block-IsValid, run_prefetcher-IsValid,
}

module _ {D : Type 0} (down : Downstream D) (k : Config) where
  fill-IsValid :
      (peer : ℕ → Bool) (write : Bool) (req : MemReq) (l : Option ℕ) (c : Cache D)
      → is_in_cache
          (get_tag c.cfg (get_block_addr c.cfg req.addr))
          (get_index c.cfg (get_block_addr c.cfg req.addr))
          c
        ≡ false
      → IsValid k c
      → IsValid k (fill down peer write req (l, c)).1
  fill-IsValid peer write req none c h v = v
  fill-IsValid peer write req (some latency) c h v =
      run_prefetcher-IsValid down k peer req _
        (insert_new_block-IsValid down k write _ _ _ false c h v)

  -- A fetch changes only what is below.
  fetched-IsValid :
      (peer : ℕ → Bool) (write : Bool) (n : Option (NextLevel D)) (m : Option (Memory D))
      (s : Option (CoherenceSink D)) (o : Op) (req : MemReq) (c : Cache D)
      → is_in_cache
          (get_tag c.cfg (get_block_addr c.cfg req.addr))
          (get_index c.cfg (get_block_addr c.cfg req.addr))
          c
        ≡ false
      → IsValid k c
      → IsValid k (fill down peer write req (fetch_from down n m s o req c)).1
  fetched-IsValid peer write (some next) m s o req c h v =
      let r : Option ℕ × Cache D = fetch_from down (some next) m s o req c in
      fill-IsValid peer write req r.0 r.1 h (same_shape down k c r.1 refl refl v)
  fetched-IsValid peer write none (some memory) s o req c h v =
      let r : Option ℕ × Cache D = fetch_from down none (some memory) s o req c in
      fill-IsValid peer write req r.0 r.1 h (same_shape down k c r.1 refl refl v)
  fetched-IsValid peer write none none (some sink) o req c h v = same_shape down k c _ refl refl v
  fetched-IsValid peer write none none none o req c h v = fill-IsValid peer write req (some 0) c h v

  promoted-IsValid :
      (c d : Cache D) (t index : ℕ) (b b' : TagMeta)
      → find_block t (row c index) ≡ some b
      → b'.tag ≡ b.tag
      → b'.valid ≡ b.valid
      → d.cfg ≡ c.cfg
      → d.rows ≡ set c.rows index (to_front t b' (row c index))
      → IsValid k c
      → IsValid k d
  promoted-IsValid c d t index b b' f p q e r v =
      let there : _ = find_block-is_in t (row c index) b f in
      record {
        configured = e ∙ v.configured;
        some_way = v.some_way;
        all_sets = ap length r ∙ rows_len k c index _ v;
        sets_ok = λ i.
            ap (λ r. set_ok (assoc k) (get_or r i [])) r
            ∙ rows_set k c c.rows index _ v refl
                (set_ok-to_front (assoc k) t b' (row c index) (q ∙ there.1.1) (p ∙ there.1.0)
                  there.0 (v.sets_ok index))
                i;
      }

  resident-IsValid :
      (s : Option (CoherenceSink D)) (write : Bool) (block : ℕ) (b : TagMeta) (tag index : ℕ)
      (c : Cache D)
      → find_block tag (row c index) ≡ some b
      → IsValid k c
      → IsValid k (wbwa_resident down s write block b tag index c).1
  resident-IsValid none write block b tag index c f v =
      promoted-IsValid c _ tag index b (touched down write b) f refl refl refl refl v
  resident-IsValid (some sink) write block b tag index c f v =
      if-cases (λ (r : AccessResult × Cache D). IsValid k r.1) (write && not b.dirty)
        (upgrade down sink block b tag index c) (wbwa_hit down write b tag index c)
        (λ p. promoted-IsValid c _ tag index b b f refl refl refl refl v)
        (λ p. promoted-IsValid c _ tag index b (touched down write b) f refl refl refl refl v)

  wbwa_found-IsValid :
      (peer : ℕ → Bool) (req : MemReq) (o : Option TagMeta) (c : Cache D)
      → find_block
          (get_tag c.cfg (get_block_addr c.cfg req.addr))
          (row c (get_index c.cfg (get_block_addr c.cfg req.addr)))
        ≡ o
      → IsValid k c
      → IsValid k (wbwa_found down peer req o c).1
  wbwa_found-IsValid peer req none c f v =
      fetched-IsValid peer (is_write req.op) down.next_level down.main_memory down.coherence_sink
        req.op req (count_miss down c)
        (find_block-absent _ (row c (get_index c.cfg (get_block_addr c.cfg req.addr))) f)
        (same_shape down k c (count_miss down c) refl refl v)
  wbwa_found-IsValid peer req (some b) c f v =
      let block : ℕ = get_block_addr c.cfg req.addr in
      resident-IsValid down.coherence_sink (is_write req.op) block b (get_tag c.cfg block)
        (get_index c.cfg block) c f v

  wtwna_found-IsValid :
      (peer : ℕ → Bool) (req : MemReq) (o : Option TagMeta) (c : Cache D)
      → find_block
          (get_tag c.cfg (get_block_addr c.cfg req.addr))
          (row c (get_index c.cfg (get_block_addr c.cfg req.addr)))
        ≡ o
      → IsValid k c
      → IsValid k (wtwna_found down peer req o c).1
  wtwna_found-IsValid peer req none c f v =
      fetched-IsValid peer false down.next_level down.main_memory down.coherence_sink op_read req
        (count_read_miss down c)
        (find_block-absent _ (row c (get_index c.cfg (get_block_addr c.cfg req.addr))) f)
        (same_shape down k c (count_read_miss down c) refl refl v)
  wtwna_found-IsValid peer req (some b) c f v =
      promoted-IsValid c _ _ (get_index c.cfg (get_block_addr c.cfg req.addr)) b
        (touched down false b) f refl refl refl refl v

  write_through-IsValid :
      (tag index : ℕ) (o : Option TagMeta) (c : Cache D)
      → find_block tag (row c index) ≡ o
      → IsValid k c
      → IsValid k (write_through down tag index c).1
  unfolding find_and_promote
  write_through-IsValid tag index none c f v = record {
    configured = v.configured;
    some_way = v.some_way;
    all_sets = rows_len k c index _ v;
    sets_ok =
        rows_set k c c.rows index _ v refl
          (ap (λ o. set_ok (assoc k) (promote_found tag o (row c index))) f ∙ v.sets_ok index);
  }
  write_through-IsValid tag index (some b) c f v =
      promoted-IsValid c _ tag index b b f refl refl refl
        (ap (λ o. set c.rows index (promote_found tag o (row c index))) f) v

  by_policy-IsValid :
      (peer : ℕ → Bool) (p : WritePolicy) (req : MemReq) (c : Cache D)
      → IsValid k c
      → IsValid k (by_policy down peer p req c).1
  by_policy-IsValid peer wbwa req c v = wbwa_found-IsValid peer req _ c refl v
  by_policy-IsValid peer wtwna req c v =
      if-cases (λ (r : AccessResult × Cache D). IsValid k r.1) (is_write req.op) _ _
        (λ p. write_through-IsValid _ _ _ c refl v) (λ p. wtwna_found-IsValid peer req _ c refl v)

  pub access-IsValid :
      (peer : ℕ → Bool) (req : MemReq) (c : Cache D)
      → IsValid k c
      → IsValid k (access down peer req c).1
  unfolding access
  access-IsValid peer req c v =
      by_policy-IsValid peer c.cfg.write_policy req (count_access down req c)
        (same_shape down k c (count_access down req c) refl refl v)

-- ===== src/Cache/Level/Access/Books.antt =====
-- src/cache/cache.cpp: what an access has to do with the table of misses and the clock.
use multicore_oo_o_sim.Base.{ℕ, ◌≡◌, refl, ◌∙◌, arith, Bool, false, Option, none, some, if-cases}
use multicore_oo_o_sim.Cache.Mshr
use multicore_oo_o_sim.Cache.Mshr.{
  Op, op_read, AccessResult, MshrEntry, behind, merge, merged, occupancy,
}
use multicore_oo_o_sim.Cache.Prefetch.{Prefetcher, prefetch_on_miss}
use multicore_oo_o_sim.Cache.Sets.{TagMeta}
use multicore_oo_o_sim.Cache.Level.{
  MemReq, WritePolicy, wbwa, wtwna, NextLevel, Memory, CoherenceSink, Downstream, Config, Cache,
  get_block_addr, get_tag, get_index, is_write, is_in_cache, block_in,
}
use multicore_oo_o_sim.Cache.Level.Insert.{
  before_insert, insert_new_block, issue_prefetch, prefetched_by, run_prefetcher,
}
use multicore_oo_o_sim.Cache.Level.Access.{
  access, by_policy, fill, wbwa_found, fetch_from, wtwna_found, count_access, count_miss,
  count_read_miss,
}

-- The configuration, the table of misses, the clock and the next identifier.
abbrev pub book : {D : Type 0} → Cache D → Config × (Mshr.Mshr × (ℕ × ℕ))
book c = (c.cfg, (c.mshr, (c.now, c.next_id)))

module _ {D : Type 0} (down : Downstream D) where
  pub book-before_insert :
      (p : WritePolicy) (index : ℕ) (c : Cache D) → book (before_insert down p index c) ≡ book c
  book-before_insert p index c = ground arith

  book-issue_prefetch :
      (byte_addr : ℕ) (c : Cache D) → book (issue_prefetch down byte_addr c) ≡ book c
  unfolding issue_prefetch insert_new_block
  book-issue_prefetch byte_addr c =
      let block : ℕ = get_block_addr c.cfg byte_addr in
      if-cases (λ (d : Cache D). book d ≡ book c)
        (is_in_cache (get_tag c.cfg block) (get_index c.cfg block) c) _ _ (λ p. refl)
        (λ p. book-before_insert c.cfg.write_policy (get_index c.cfg block) c)

  book-run_prefetcher :
      (peer : ℕ → Bool) (req : MemReq) (c : Cache D)
      → book (run_prefetcher down peer req c) ≡ book c
  unfolding run_prefetcher
  book-run_prefetcher peer req c =
      by_request
        (prefetch_on_miss c.cfg.b peer (block_in c) (get_block_addr c.cfg req.addr) c.prefetcher)
    where
      by_request : (r : Option ℕ × Prefetcher) → book (prefetched_by down r c) ≡ book c
      by_request (none, p) = refl
      by_request (some byte_addr, p) = book-issue_prefetch byte_addr c

  book-fill :
      (peer : ℕ → Bool) (write : Bool) (req : MemReq) (l : Option ℕ) (c : Cache D)
      → book (fill down peer write req (l, c)).1 ≡ book c
  unfolding insert_new_block
  book-fill peer write req none c = refl
  book-fill peer write req (some latency) c =
      book-run_prefetcher peer req _
      ∙ book-before_insert c.cfg.write_policy (get_index c.cfg (get_block_addr c.cfg req.addr)) c

  book-fetched :
      (peer : ℕ → Bool) (write : Bool) (n : Option (NextLevel D)) (m : Option (Memory D))
      (s : Option (CoherenceSink D)) (o : Op) (req : MemReq) (c : Cache D)
      → book (fill down peer write req (fetch_from down n m s o req c)).1 ≡ book c
  book-fetched peer write (some next) m s o req c =
      let r : Option ℕ × Cache D = fetch_from down (some next) m s o req c in
      book-fill peer write req r.0 r.1
  book-fetched peer write none (some memory) s o req c =
      let r : Option ℕ × Cache D = fetch_from down none (some memory) s o req c in
      book-fill peer write req r.0 r.1
  book-fetched peer write none none (some sink) o req c = refl
  book-fetched peer write none none none o req c = book-fill peer write req (some 0) c

  book-wbwa_found :
      (peer : ℕ → Bool) (req : MemReq) (o : Option TagMeta) (c : Cache D)
      → book (wbwa_found down peer req o c).1 ≡ book c
  book-wbwa_found peer req none c =
      book-fetched peer (is_write req.op) down.next_level down.main_memory down.coherence_sink
        req.op req (count_miss down c)
  book-wbwa_found peer req (some b) c = ground arith

  book-wtwna_found :
      (peer : ℕ → Bool) (req : MemReq) (o : Option TagMeta) (c : Cache D)
      → book (wtwna_found down peer req o c).1 ≡ book c
  book-wtwna_found peer req none c =
      book-fetched peer false down.next_level down.main_memory down.coherence_sink op_read req
        (count_read_miss down c)
  book-wtwna_found peer req (some b) c = refl

  book-by_policy :
      (peer : ℕ → Bool) (p : WritePolicy) (req : MemReq) (c : Cache D)
      → book (by_policy down peer p req c).1 ≡ book c
  book-by_policy peer wbwa req c = book-wbwa_found peer req _ c
  book-by_policy peer wtwna req c =
      if-cases (λ (r : AccessResult × Cache D). book r.1 ≡ book c) (is_write req.op) _ _ (λ w. refl)
        (λ w. book-wtwna_found peer req _ c)

  -- An access touches neither the configuration nor the table of misses, the clock and the next identifier.
  pub book-access :
      (peer : ℕ → Bool) (req : MemReq) (c : Cache D) → book (access down peer req c).1 ≡ book c
  unfolding access
  book-access peer req c = book-by_policy peer c.cfg.write_policy req (count_access down req c)

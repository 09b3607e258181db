-- ===== src/Cache/Level/Account.antt =====
-- src/cache/cache.cpp and include/comparch/cache/cache_stats.hpp: how the counters of a cache add up.
use multicore_oo_o_sim.Base.{
  ℕ, ◌+◌, ◌%◌, ◌≡◌, refl, sym, subst, ◌∙◌, arith, Bool, false, Option, none, some, if-cases, u64,
}
use multicore_oo_o_sim.Cache.Mshr.{Op, op_read, AccessResult}
use multicore_oo_o_sim.Cache.Sets.{TagMeta}
use multicore_oo_o_sim.Cache.Prefetch.{Prefetcher, prefetch_on_miss}
use multicore_oo_o_sim.Cache.Level.{
  MemReq, WritePolicy, wbwa, wtwna, NextLevel, Memory, CoherenceSink, Downstream, CacheStats, Cache,
  get_tag, get_index, get_block_addr, is_write, is_in_cache, block_in,
}
use multicore_oo_o_sim.Cache.Level.Insert.{
  before_insert, insert_new_block, issue_prefetch, prefetched_by, run_prefetcher,
}
use multicore_oo_o_sim.Cache.Level.Access.{
  access, by_policy, fill, wbwa_found, fetch_from, wtwna_found, count_access, count_miss,
  count_read_miss,
}

-- The counters that a prefetch and an eviction leave alone.
pub record Tally : Type 0 where
  pub accesses : ℕ
  pub reads : ℕ
  pub writes : ℕ
  pub hits : ℕ
  pub misses : ℕ
  pub upgrade_misses : ℕ
  pub read_hits : ℕ
  pub read_misses : ℕ

abbrev pub tally : CacheStats → Tally
tally s = record {
  accesses = s.accesses;
  reads = s.reads;
  writes = s.writes;
  hits = s.hits;
  misses = s.misses;
  upgrade_misses = s.upgrade_misses;
  read_hits = s.read_hits;
  read_misses = s.read_misses;
}

abbrev pub kinds : Tally → ℕ
kinds t = (t.reads + t.writes) % u64

abbrev pub outcomes : Tally → ℕ
outcomes t = (t.hits + t.misses + t.upgrade_misses) % u64

abbrev pub read_outcomes : Tally → ℕ
read_outcomes t = (t.read_hits + t.read_misses) % u64

-- Reads and writes are the accesses. Under WBWA each access has one outcome, under WTWNA each read has.
abbrev pub Balances : WritePolicy → Tally → Type 0
Balances wbwa t = (kinds t ≡ t.accesses) × (outcomes t ≡ t.accesses)
Balances wtwna t = (kinds t ≡ t.accesses) × (read_outcomes t ≡ t.reads)

module _ {D : Type 0} (down : Downstream D) where
  tally-before_insert :
      (p : WritePolicy) (index : ℕ) (c : Cache D)
      → tally (before_insert down p index c).stats ≡ tally c.stats
  tally-before_insert p index c = ground arith

  pub tally-issue_prefetch :
      (byte_addr : ℕ) (c : Cache D) → tally (issue_prefetch down byte_addr c).stats ≡ tally c.stats
  unfolding issue_prefetch insert_new_block
  tally-issue_prefetch byte_addr c =
      let block : ℕ = get_block_addr c.cfg byte_addr in
      if-cases (λ (d : Cache D). tally d.stats ≡ tally c.stats)
        (is_in_cache (get_tag c.cfg block) (get_index c.cfg block) c) _ _ (λ p. refl)
        (λ p. tally-before_insert c.cfg.write_policy (get_index c.cfg block) c)

  tally-run_prefetcher :
      (peer : ℕ → Bool) (req : MemReq) (c : Cache D)
      → tally (run_prefetcher down peer req c).stats ≡ tally c.stats
  unfolding run_prefetcher
  tally-run_prefetcher peer req c =
      by_request
        (prefetch_on_miss c.cfg.b peer (block_in c) (get_block_addr c.cfg req.addr) c.prefetcher)
    where
      by_request :
          (r : Option ℕ × Prefetcher) → tally (prefetched_by down r c).stats ≡ tally c.stats
      by_request (none, p) = refl
      by_request (some byte_addr, p) = tally-issue_prefetch byte_addr c

  tally-fill :
      (peer : ℕ → Bool) (write : Bool) (req : MemReq) (l : Option ℕ) (c : Cache D)
      → tally (fill down peer write req (l, c)).1.stats ≡ tally c.stats
  unfolding insert_new_block
  tally-fill peer write req none c = refl
  tally-fill peer write req (some latency) c =
      tally-run_prefetcher peer req _
      ∙ tally-before_insert c.cfg.write_policy (get_index c.cfg (get_block_addr c.cfg req.addr)) c

  tally-fetched :
      (peer : ℕ → Bool) (write : Bool) (n : Option (NextLevel D)) (m : Option (Memory D))
      (s : Option (CoherenceSink D)) (o : Op) (req : MemReq) (c : Cache D)
      → tally (fill down peer write req (fetch_from down n m s o req c)).1.stats ≡ tally c.stats
  tally-fetched peer write (some next) m s o req c =
      let r : Option ℕ × Cache D = fetch_from down (some next) m s o req c in
      tally-fill peer write req r.0 r.1
  tally-fetched peer write none (some memory) s o req c =
      let r : Option ℕ × Cache D = fetch_from down none (some memory) s o req c in
      tally-fill peer write req r.0 r.1
  tally-fetched peer write none none (some sink) o req c = refl
  tally-fetched peer write none none none o req c = tally-fill peer write req (some 0) c

  access_wbwa :
      (peer : ℕ → Bool) (req : MemReq) (o : Option TagMeta) (c : Cache D)
      → Balances wbwa (tally c.stats)
      → Balances wbwa (tally (wbwa_found down peer req o (count_access down req c)).1.stats)
  access_wbwa peer req none c v =
      subst (Balances wbwa)
        (sym (
          tally-fetched peer (is_write req.op) down.next_level down.main_memory down.coherence_sink
            req.op req (count_miss down (count_access down req c))))
        (ground arith)
  access_wbwa peer req (some b) c v = ground arith

  access_wtwna :
      (peer : ℕ → Bool) (req : MemReq) (o : Option TagMeta) (c : Cache D)
      → is_write req.op ≡ false
      → Balances wtwna (tally c.stats)
      → Balances wtwna (tally (wtwna_found down peer req o (count_access down req c)).1.stats)
  access_wtwna peer req none c r v =
      subst (Balances wtwna)
        (sym (
          tally-fetched peer false down.next_level down.main_memory down.coherence_sink op_read req
            (count_read_miss down (count_access down req c))))
        (ground arith)
  access_wtwna peer req (some b) c r v = ground arith

  by_policy-Balances :
      (peer : ℕ → Bool) (p : WritePolicy) (req : MemReq) (c : Cache D)
      → Balances p (tally c.stats)
      → Balances p (tally (by_policy down peer p req (count_access down req c)).1.stats)
  by_policy-Balances peer wbwa req c v = access_wbwa peer req _ c v
  by_policy-Balances peer wtwna req c v =
      if-cases (λ (r : AccessResult × Cache D). Balances wtwna (tally r.1.stats)) (is_write req.op)
        _ _ (λ w. ground arith) (λ w. access_wtwna peer req _ c w v)

  pub access-Balances :
      (peer : ℕ → Bool) (p : WritePolicy) (req : MemReq) (c : Cache D)
      → c.cfg.write_policy ≡ p
      → Balances p (tally c.stats)
      → Balances p (tally (access down peer req c).1.stats)
  unfolding access
  access-Balances peer p req c e v =
      subst (λ q. Balances p (tally (by_policy down peer q req (count_access down req c)).1.stats))
        (sym e) (by_policy-Balances peer p req c v)

-- ===== src/Cache/Level/Run/Totals.antt =====
-- include/comparch/cache/cache_stats.hpp: the counters of a cache over all the calls made to it.
use multicore_oo_o_sim.Base.{
  ℕ, ◌≡◌, refl, ap, subst, sym, arith, Bool, Option, none, some, List, [], ◌∷◌, leb, ◌+◌, if-cases,
  Result, ok, ok-injective,
}
use multicore_oo_o_sim.Cache.Mshr
use multicore_oo_o_sim.Cache.Mshr.{AccessResult, MshrEntry}
use multicore_oo_o_sim.Cache.Prefetch.{Prefetcher}
use multicore_oo_o_sim.Cache.Level.{
  MemReq, WritePolicy, wbwa, wtwna, Downstream, Config, no_stats, Cache, is_write, get_block_addr,
  coherence_invalidate, coherence_set_dirty, coherence_clean, make,
}
use multicore_oo_o_sim.Cache.Level.Access.{access}
use multicore_oo_o_sim.Cache.Level.Issue.{issue, issue_fresh, issue_onto, accessed, targets}
use multicore_oo_o_sim.Cache.Level.Shape.{IsValid}
use multicore_oo_o_sim.Cache.Level.Account.{tally, Balances, access-Balances, tally-issue_prefetch}
use multicore_oo_o_sim.Cache.Level.Run.{
  Call, call_access, call_issue, call_complete, call_tick, call_mark_ready, call_invalidate,
  call_set_dirty, call_clean, call_prefetch, step, run, step-IsValid, make-IsValid,
}

no_stats-Balances : (p : WritePolicy) → Balances p (tally no_stats)
no_stats-Balances wbwa = (refl, refl)
no_stats-Balances wtwna = (refl, refl)

module _ {D : Type 0} (down : Downstream D) (p : WritePolicy) where
  accessed-Balances :
      (req : MemReq) (r : AccessResult × Cache D)
      → Balances p (tally r.1.stats)
      → Balances p (tally (accessed down req r).1.stats)
  accessed-Balances req (result, c) v = v

  issue_fresh-Balances :
      (peer : ℕ → Bool) (req : MemReq) (c : Cache D)
      → c.cfg.write_policy ≡ p
      → Balances p (tally c.stats)
      → Balances p (tally (issue_fresh down peer req c).1.stats)
  issue_fresh-Balances peer req c e v =
      if-cases (λ (r : Option ℕ × Cache D). Balances p (tally r.1.stats)) (Mshr.full c.mshr) _ _
        (λ f. v)
        (λ f.
          accessed-Balances req (access down peer req c) (access-Balances down peer p req c e v))

  issue_onto-Balances :
      (peer : ℕ → Bool) (req : MemReq) (o : Option MshrEntry) (c : Cache D)
      → c.cfg.write_policy ≡ p
      → Balances p (tally c.stats)
      → Balances p (tally (issue_onto down peer req o c).1.stats)
  issue_onto-Balances peer req none c e v = issue_fresh-Balances peer req c e v
  issue_onto-Balances peer req (some m) c e v =
      if-cases (λ (r : Option ℕ × Cache D). Balances p (tally r.1.stats)) (is_write req.op) _ _
        (λ w. issue_fresh-Balances peer req c e v) (λ w. v)

  tally-coherence_invalidate :
      (block_addr : ℕ) (c : Cache D)
      → tally (coherence_invalidate block_addr c).stats ≡ tally c.stats
  unfolding coherence_invalidate
  tally-coherence_invalidate block_addr c = ground arith

  step-Balances :
      (x : Call) (c : Cache D)
      → c.cfg.write_policy ≡ p
      → Balances p (tally c.stats)
      → Balances p (tally (step down x c).stats)
  unfolding step issue coherence_set_dirty coherence_clean
  step-Balances (call_access peer req) c e v = access-Balances down peer p req c e v
  step-Balances (call_issue peer req) c e v =
      issue_onto-Balances peer req (targets (get_block_addr c.cfg req.addr) c.mshr) c e v
  step-Balances (call_complete id) c e v = v
  step-Balances call_tick c e v = v
  step-Balances (call_mark_ready id) c e v = v
  step-Balances (call_invalidate block_addr) c e v =
      subst (Balances p) (sym (tally-coherence_invalidate block_addr c)) v
  step-Balances (call_set_dirty block_addr) c e v = v
  step-Balances (call_clean block_addr) c e v = v
  step-Balances (call_prefetch byte_addr) c e v =
      subst (Balances p) (sym (tally-issue_prefetch down byte_addr c)) v

module _ {D : Type 0} (down : Downstream D) (k : Config) where
  run-Balances :
      (xs : List Call) (c : Cache D)
      → IsValid k c
      → Balances k.write_policy (tally c.stats)
      → Balances k.write_policy (tally (run down xs c).stats)
  unfolding run
  run-Balances [] c v b = b
  run-Balances (x ∷ xs) c v b =
      run-Balances xs (step down x c) (step-IsValid down k x c v)
        (step-Balances down k.write_policy x c (ap (λ j. j.write_policy) v.configured) b)

made_stats :
    {D : Type 0} (k : Config) (p : Prefetcher) (below : D) (c : Cache D)
    → make k p below ≡ ok c
    → c.stats ≡ no_stats
unfolding make
made_stats {D} k p below c =
    if-cases (λ (r : Result (Cache D)). r ≡ ok c → c.stats ≡ no_stats) (leb k.c (k.b + k.s)) _ _
      (λ t h. absurd cc) (λ t h. sym (ap (λ d. d.stats) (ok-injective h)))

-- After any of those calls on a cache that was constructed, its counters add up, around their width of 64
-- bits: reads and writes to the accesses, and under WBWA hits, misses and upgrade misses to the
-- accesses too, under WTWNA read hits and read misses to the reads.
pub run-make-Balances :
    {D : Type 0} (down : Downstream D) (k : Config) (p : Prefetcher) (below : D) (c : Cache D)
    (calls : List Call)
    → make k p below ≡ ok c
    → Balances k.write_policy (tally (run down calls c).stats)
run-make-Balances down k p below c calls h =
    run-Balances down k calls c (make-IsValid k p below c h) (
      subst (λ s. Balances k.write_policy (tally s)) (sym (made_stats k p below c h))
        (no_stats-Balances k.write_policy))

-- ===== src/Cache/Level/Run.antt =====
-- include/comparch/cache/cache.hpp: a cache from its construction on, through any calls of its public methods.
pub mod Totals
use multicore_oo_o_sim.Base.{
  ℕ, zero, suc, ◌+◌, ◌<◌, ◌^◌, ◌≡◌, refl, ap, subst, sym, ◌∙◌, arith, Bool, true, false, Option,
  none, some, List, [], ◌∷◌, leb, if◌then◌else◌, if-cases, Result, throw, ok, ok-injective,
  length-replicate, get_or-replicate,
}
use multicore_oo_o_sim.Cache.Mshr
use multicore_oo_o_sim.Cache.Mshr.{AccessResult, MshrEntry}
use multicore_oo_o_sim.Cache.Prefetch.{Prefetcher}
use multicore_oo_o_sim.Cache.Level.{
  MemReq, Downstream, Config, Cache, assoc, index_bit, is_write, row, get_block_addr,
  coherence_invalidate, coherence_set_dirty, coherence_clean, complete, tick, mark_ready, make,
}
use multicore_oo_o_sim.Cache.Level.Insert.{issue_prefetch}
use multicore_oo_o_sim.Cache.Level.Access.{access}
use multicore_oo_o_sim.Cache.Level.Issue.{issue, issue_fresh, issue_onto, enter, accessed, targets}
use multicore_oo_o_sim.Cache.Level.Shape.{
  IsValid, same_shape, issue_prefetch-IsValid, coherence_invalidate-IsValid,
  coherence_set_dirty-IsValid, coherence_clean-IsValid,
}
use multicore_oo_o_sim.Cache.Level.Shape.Accesses.{access-IsValid}
use multicore_oo_o_sim.Cache.Sets.Shape.{set_ok}

-- A call of a method that changes the state; the first argument of the first two is what the level above holds.
pub data Call : Type 0 where
  call_access : (ℕ → Bool) → MemReq → Call
  call_issue : (ℕ → Bool) → MemReq → Call
  call_complete : ℕ → Call
  call_tick : Call
  call_mark_ready : ℕ → Call
  call_invalidate : ℕ → Call
  call_set_dirty : ℕ → Call
  call_clean : ℕ → Call
  call_prefetch : ℕ → Call

module _ {D : Type 0} (down : Downstream D) where
  unfoldable pub step : Call → Cache D → Cache D
  step (call_access peer req) c = (access down peer req c).1
  step (call_issue peer req) c = (issue down peer req c).1
  step (call_complete id) c = complete id c
  step call_tick c = tick c
  step (call_mark_ready id) c = mark_ready id c
  step (call_invalidate block_addr) c = coherence_invalidate block_addr c
  step (call_set_dirty block_addr) c = coherence_set_dirty block_addr c
  step (call_clean block_addr) c = coherence_clean block_addr c
  step (call_prefetch byte_addr) c = issue_prefetch down byte_addr c

  unfoldable pub run : List Call → Cache D → Cache D
  run [] c = c
  run (x ∷ xs) c = run xs (step x c)

module _ {D : Type 0} (down : Downstream D) (k : Config) where
  accessed-IsValid :
      (req : MemReq) (r : AccessResult × Cache D)
      → IsValid k r.1
      → IsValid k (accessed down req r).1
  accessed-IsValid req (result, c) v = same_shape down k c _ refl refl v

  issue_fresh-IsValid :
      (peer : ℕ → Bool) (req : MemReq) (c : Cache D)
      → IsValid k c
      → IsValid k (issue_fresh down peer req c).1
  issue_fresh-IsValid peer req c v =
      if-cases (λ (r : Option ℕ × Cache D). IsValid k r.1) (Mshr.full c.mshr) _ _ (λ p. v)
        (λ p. accessed-IsValid req (access down peer req c) (access-IsValid down k peer req c v))

  issue_onto-IsValid :
      (peer : ℕ → Bool) (req : MemReq) (o : Option MshrEntry) (c : Cache D)
      → IsValid k c
      → IsValid k (issue_onto down peer req o c).1
  issue_onto-IsValid peer req none c v = issue_fresh-IsValid peer req c v
  issue_onto-IsValid peer req (some e) c v =
      if-cases (λ (r : Option ℕ × Cache D). IsValid k r.1) (is_write req.op) _ _
        (λ p. issue_fresh-IsValid peer req c v) (λ p. same_shape down k c _ refl refl v)

  step-IsValid : (x : Call) (c : Cache D) → IsValid k c → IsValid k (step down x c)
  unfolding step issue
  step-IsValid (call_access peer req) c v = access-IsValid down k peer req c v
  step-IsValid (call_issue peer req) c v =
      issue_onto-IsValid peer req (targets (get_block_addr c.cfg req.addr) c.mshr) c v
  step-IsValid (call_complete id) c v = same_shape down k c _ refl refl v
  step-IsValid call_tick c v = same_shape down k c _ refl refl v
  step-IsValid (call_mark_ready id) c v = same_shape down k c _ refl refl v
  step-IsValid (call_invalidate block_addr) c v = coherence_invalidate-IsValid k block_addr c v
  step-IsValid (call_set_dirty block_addr) c v = coherence_set_dirty-IsValid k block_addr c v
  step-IsValid (call_clean block_addr) c v = coherence_clean-IsValid k block_addr c v
  step-IsValid (call_prefetch byte_addr) c v = issue_prefetch-IsValid down k byte_addr c v

  run-IsValid : (xs : List Call) (c : Cache D) → IsValid k c → IsValid k (run down xs c)
  unfolding run
  run-IsValid [] c v = v
  run-IsValid (x ∷ xs) c v = run-IsValid xs (step down x c) (step-IsValid x c v)

pub pow_pos : (s : ℕ) → 0 < 2 ^ s
pow_pos zero = omega arith
pow_pos (suc s) = let h : 0 < 2 ^ s = pow_pos s in omega arith

made_set_ok : (n : ℕ) → set_ok n [] ≡ true
made_set_ok n = ground arith

make-IsValid :
    {D : Type 0} (k : Config) (p : Prefetcher) (below : D) (c : Cache D)
    → make k p below ≡ ok c
    → IsValid k c
unfolding make
make-IsValid {D} k p below c =
    if-cases (λ (r : Result (Cache D)). r ≡ ok c → IsValid k c) (leb k.c (k.b + k.s)) _ _
      (λ t h. absurd cc)
      (λ t h. subst (IsValid k) (ok-injective h) (record {
        configured = refl;
        some_way = pow_pos k.s;
        all_sets = length-replicate (2 ^ index_bit k) [];
        sets_ok = λ i.
            ap (set_ok (assoc k)) (get_or-replicate (2 ^ index_bit k) i []) ∙ made_set_ok (assoc k);
      }))

-- After any calls of these methods on a cache that was constructed, over whatever is below it and with
-- whatever prefetcher, it has its 2^(C-B-S) sets, and each set holds at most 2^S blocks, all valid and
-- with different tags.
pub run-make-IsValid :
    {D : Type 0} (down : Downstream D) (k : Config) (p : Prefetcher) (below : D) (c : Cache D)
    (calls : List Call)
    → make k p below ≡ ok c
    → IsValid k (run down calls c)
run-make-IsValid down k p below c calls h = run-IsValid down k calls c (make-IsValid k p below c h)

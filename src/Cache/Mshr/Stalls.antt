-- ===== src/Cache/Mshr/Stalls.antt =====
-- src/cache/mshr.cpp: when an allocation stalls.
use multicore_oo_o_sim.Base.{
  ℕ, ◌≡◌, refl, ◌∙◌, Bool, true, false, not, ◌&&◌, ◌||◌, Option, none, some, [], ◌∷◌, ◌==◌,
  if◌then◌else◌, arith, if-cases,
}
use multicore_oo_o_sim.Cache.Mshr.{
  Op, AccessResult, MshrEntry, Mshr, behind, merge, fill, or_fill, fresh_entry, allocate, full,
}

abbrev pub is_none {ℓ} : {A : Type ℓ} → Option A → Bool
is_none none = true
is_none (some a) = false

-- A valid slot is for the block.
abbrev pub in_flight : ℕ → Mshr → Bool
in_flight b [] = false
in_flight b (e ∷ es) = (e.valid && (e.block_addr == b)) || in_flight b es

is_none-behind : (e : MshrEntry) (r : Option (MshrEntry × Mshr)) → is_none (behind e r) ≡ is_none r
is_none-behind e none = refl
is_none-behind e (some r) = refl

pub is_none-merge : (id b : ℕ) (t : Mshr) → is_none (merge id b t) ≡ not (in_flight b t)
unfolding merge
is_none-merge id b [] = refl
is_none-merge id b (e ∷ es) =
    if-cases (λ (x : Option (MshrEntry × Mshr)). is_none x ≡ not (in_flight b (e ∷ es)))
      (e.valid && (e.block_addr == b)) _ _ (λ p. rw p refl)
      (λ p. rw p (is_none-behind e (merge id b es) ∙ is_none-merge id b es))

is_none-fill : (fresh : MshrEntry) (t : Mshr) → is_none (fill fresh t) ≡ full t
unfolding fill full
is_none-fill fresh [] = refl
is_none-fill fresh (e ∷ es) =
    if-cases
      (λ (x : Option (MshrEntry × Mshr)). is_none x ≡ (if not e.valid then false else full es))
      (not e.valid) _ _ (λ p. rw p refl)
      (λ p. rw p (is_none-behind e (fill fresh es) ∙ is_none-fill fresh es))

or_fill_stalls :
    (fresh : MshrEntry) (b : ℕ) (t : Mshr) (r : Option (MshrEntry × Mshr))
    → is_none r ≡ not (in_flight b t)
    → is_none (or_fill fresh t r) ≡ not (in_flight b t) && full t
or_fill_stalls fresh b t (some r) p = ground arith
or_fill_stalls fresh b t none p = is_none-fill fresh t ∙ ground arith

-- An allocation makes its caller stall exactly when every slot is taken and none is for the block.
pub allocate_stalls :
    (id b : ℕ) (op : Op) (pc due : ℕ) (result : AccessResult) (t : Mshr)
    → is_none (allocate id b op pc due result t) ≡ not (in_flight b t) && full t
unfolding allocate
allocate_stalls id b op pc due result t =
    or_fill_stalls (fresh_entry id b op pc due result) b t (merge id b t) (is_none-merge id b t)

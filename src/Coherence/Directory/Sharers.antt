-- ===== src/Coherence/Directory/Sharers.antt =====
-- Counting the bits of a presence vector.
use multicore_oo_o_sim.Base.{
  ℕ, zero, suc, ◌+◌, ◌≤◌, ◌<◌, ◌≡◌, refl, Bool, true, false, List, [], ◌∷◌, arith, if◌then◌else◌,
  length, get_or, set, replicate,
}

abbrev pub sharers : List Bool → ℕ
sharers [] = 0
sharers (p ∷ ps) = (if p then 1 else 0) + sharers ps

pub sharers-set :
    (ps : List Bool) (i : ℕ) (v : Bool)
    → i < length ps
    → sharers (set ps i v) + (if get_or ps i false then 1 else 0)
      ≡ sharers ps + (if v then 1 else 0)
sharers-set [] i v h = absurd (omega arith)
sharers-set (p ∷ ps) zero v h = omega arith
sharers-set (p ∷ ps) (suc i) v h = omega (arith, sharers-set ps i v (omega arith))

pub sharers-le : (ps : List Bool) → sharers ps ≤ length ps
sharers-le [] = omega arith
sharers-le (p ∷ ps) = ground (arith, sharers-le ps)

pub sharers-get : (ps : List Bool) (i : ℕ) → get_or ps i false ≡ true → 1 ≤ sharers ps
sharers-get [] i h = cc
sharers-get (p ∷ ps) zero h = ground arith
sharers-get (p ∷ ps) (suc i) h = omega (arith, sharers-get ps i h)

pub get_or-present : (ps : List Bool) (i : ℕ) → get_or ps i false ≡ true → i < length ps
get_or-present [] i h = cc
get_or-present (p ∷ ps) zero h = omega arith
get_or-present (p ∷ ps) (suc i) h = omega (arith, get_or-present ps i h)

pub sharers-replicate : (n : ℕ) → sharers (replicate n false) ≡ 0
sharers-replicate zero = refl
sharers-replicate (suc n) = omega (arith, sharers-replicate n)

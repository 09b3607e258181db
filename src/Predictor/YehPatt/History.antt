-- ===== src/Predictor/YehPatt/History.antt =====
-- src/predictor/yeh_patt.cpp: the history register under outcomes of one kind.
use multicore_oo_o_sim.Base.{
  ℕ, zero, suc, ◌+◌, ◌-◌, ◌*◌, ◌%◌, ◌^◌, ◌≤◌, ◌<◌, ◌≡◌, sym, ap, ◌∙◌, arith, Bool, true, false,
  if◌then◌else◌, u64,
}
use native.Mathlib.Nat.{
  mod-lt, mod-add-mod, mod-eq_of_lt, mul-mod_left, mod-eq-sub-mod, two-pow-succ, mul-add,
}
use native.Mathlib.Decide.{dec_lt}
use multicore_oo_o_sim.Predictor.YehPatt.{shift_in}

-- What the register tends to.
abbrev pub settled : (m : ℕ) → Bool → ℕ
settled m true = m - 1
settled m false = 0

-- How far the register is from it.
abbrev pub gap : ℕ → Bool → ℕ → ℕ
gap m true h = m - 1 - h
gap m false h = h

abbrev doubled : ℕ → ℕ → ℕ
doubled zero k = k
doubled (suc n) k = doubled n k + doubled n k

doubled-mod : (x m : ℕ) → (x % m + x % m) % m ≡ (x + x) % m
doubled-mod x m = mod-add-mod x m (x % m) ∙ ap (λ t. t % m) (omega arith) ∙ mod-add-mod x m x

gap_of_ones : (m h : ℕ) → h < m → m - 1 - (2 * h + 1) % m ≡ (m - 1 - h + (m - 1 - h)) % m
gap_of_ones m h l = elim (dec_lt (2 * h + 1) m) [
  | yes p ↦
      let x : ℕ = m - 1 - h + (m - 1 - h) in
      omega (
        arith,
        mod-eq_of_lt p,
        mod-eq-sub-mod {n = x} {m = m} (omega arith),
        mod-eq_of_lt {n = x - m} {m = m} (omega arith),
      )
  | no p ↦ omega (
    arith,
    mod-eq-sub-mod {n = 2 * h + 1} {m = m} (omega arith),
    mod-eq_of_lt {n = 2 * h + 1 - m} {m = m} (omega arith),
    mod-eq_of_lt {n = m - 1 - h + (m - 1 - h)} {m = m} (omega arith),
  )
]

unwrapped : (h : ℕ) → h < 2 ^ 20 → 2 * h % u64 ≡ 2 * h
unwrapped h l = mod-eq_of_lt (omega arith)

shift_in-gap :
    (p : ℕ) (d : Bool) (h : ℕ)
    → h < 2 ^ p
    → 2 ^ p ≤ 2 ^ 20
    → gap (2 ^ p) d (shift_in p d h) ≡ (gap (2 ^ p) d h + gap (2 ^ p) d h) % 2 ^ p
shift_in-gap p true h l s =
    ap (λ t. 2 ^ p - 1 - (t + 1) % 2 ^ p) (unwrapped h (omega arith)) ∙ gap_of_ones (2 ^ p) h l
shift_in-gap p false h l s =
    ap (λ t. (t + 0) % 2 ^ p) (unwrapped h (omega arith)) ∙ ap (λ t. t % 2 ^ p) (omega arith)

-- The register after `n` outcomes of one kind.
abbrev pub shifted : ℕ → Bool → ℕ → ℕ → ℕ
shifted p d zero h = h
shifted p d (suc n) h = shift_in p d (shifted p d n h)

pub shift_in_below : (p : ℕ) (d : Bool) (h : ℕ) → 0 < 2 ^ p → shift_in p d h < 2 ^ p
shift_in_below p d h s = mod-lt (2 * h % u64 + (if d then 1 else 0)) s

shifted_below : (p : ℕ) (d : Bool) (n h : ℕ) → h < 2 ^ p → shifted p d n h < 2 ^ p
shifted_below p d zero h l = l
shifted_below p d (suc n) h l = shift_in_below p d (shifted p d n h) (omega arith)

gap_below : (m : ℕ) (d : Bool) (h : ℕ) → h < m → gap m d h < m
gap_below m true h l = omega arith
gap_below m false h l = l

shifted-gap :
    (p : ℕ) (d : Bool) (n h : ℕ)
    → h < 2 ^ p
    → 2 ^ p ≤ 2 ^ 20
    → gap (2 ^ p) d (shifted p d n h) ≡ doubled n (gap (2 ^ p) d h) % 2 ^ p
shifted-gap p d zero h l s = sym (mod-eq_of_lt (gap_below (2 ^ p) d h l))
shifted-gap p d (suc n) h l s =
    shift_in-gap p d (shifted p d n h) (shifted_below p d n h l) s
    ∙ ap (λ t. (t + t) % 2 ^ p) (shifted-gap p d n h l s)
    ∙ doubled-mod (doubled n (gap (2 ^ p) d h)) (2 ^ p)

doubled_pow : (n k : ℕ) → doubled n k ≡ k * 2 ^ n
doubled_pow zero k = omega arith
doubled_pow (suc n) k =
    ap (λ t. t + t) (doubled_pow n k)
    ∙ sym (ap (λ t. k * t) (two-pow-succ n) ∙ mul-add k (2 ^ n) (2 ^ n))

settled_of_gap : (m : ℕ) (d : Bool) (h : ℕ) → h < m → gap m d h ≡ 0 → h ≡ settled m d
settled_of_gap m true h l e = omega arith
settled_of_gap m false h l e = e

-- As many outcomes as the register has bits fill it.
pub shifted-settled :
    (p : ℕ) (d : Bool) (h : ℕ) → h < 2 ^ p → 2 ^ p ≤ 2 ^ 20 → shifted p d p h ≡ settled (2 ^ p) d
shifted-settled p d h l s = settled_of_gap (2 ^ p) d (shifted p d p h) (shifted_below p d p h l) (
    shifted-gap p d p h l s
    ∙ ap (λ t. t % 2 ^ p) (doubled_pow p (gap (2 ^ p) d h))
    ∙ mul-mod_left (gap (2 ^ p) d h) (2 ^ p))

pub settled_stays :
    (p : ℕ) (d : Bool)
    → 0 < 2 ^ p
    → 2 ^ p ≤ 2 ^ 20
    → shift_in p d (settled (2 ^ p) d) ≡ settled (2 ^ p) d
settled_stays p true a s = settled_of_gap (2 ^ p) true _ (shift_in_below p true (2 ^ p - 1) a) (
    shift_in-gap p true (2 ^ p - 1) (omega arith) s
    ∙ ap (λ t. (t + t) % 2 ^ p) none_left
    ∙ mod-eq_of_lt a)
  where
    none_left : 2 ^ p - 1 - (2 ^ p - 1) ≡ 0
    none_left = omega arith
settled_stays p false a s = mod-eq_of_lt a

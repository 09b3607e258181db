-- ===== src/Predictor/YehPatt/Made.antt =====
-- src/predictor/yeh_patt.cpp: what the factory function lets through.
use multicore_oo_o_sim.Base.{
  ℕ, zero, suc, ◌^◌, ◌≤◌, ◌<◌, ◌≡◌, subst, arith, ◌&&◌, Result, ok, ok-injective, if-cases,
}
use native.Mathlib.Nat.{two-pow-succ, pow-le-pow_right}
use multicore_oo_o_sim.Predictor.YehPatt.{YehPatt, make_yeh_patt, in_range}
use multicore_oo_o_sim.Predictor.YehPatt.Learns.{IsValid, make-IsValid}

pow_pos : (n : ℕ) → 0 < 2 ^ n
pow_pos zero = omega arith
pow_pos (suc n) = omega (arith, two-pow-succ n, pow_pos n)

-- A predictor that the factory function builds, after its range checks, is well formed.
pub make_yeh_patt-IsValid :
    (history_bits pattern_bits : ℕ) (y : YehPatt)
    → make_yeh_patt history_bits pattern_bits ≡ ok y
    → IsValid y
unfolding make_yeh_patt
make_yeh_patt-IsValid hb pb y e =
    if-cases (λ (r : Result YehPatt). r ≡ ok y → IsValid y) (in_range hb 1 20 && in_range pb 1 20) _
      _
      (λ p q.
        let small : pb ≤ 20 = ground arith in
        let sized : 2 ^ pb ≤ 2 ^ 20 = pow-le-pow_right {n = 2} (omega arith) small in
        subst IsValid (ok-injective q) (make-IsValid hb pb (pow_pos hb) (pow_pos pb) sized))
      (λ p q. cc) e

-- ===== src/Predictor/Perceptron/Bounds.antt =====
-- src/predictor/perceptron.cpp: the range of the weights and of the outputs.
use multicore_oo_o_sim.Base.{
  ℕ, zero, suc, ◌+◌, ◌*◌, ◌/◌, ◌^◌, ◌≤◌, ◌≡◌, refl, ap, subst, ◌∙◌, arith, Bool, true, List, [],
  ◌∷◌, if◌then◌else◌, if-cases, get_or, get_or-set_all, get_or-replicate, replicate, length,
  length-replicate, leb, ◌==◌, ◌&&◌, Result, ok, ok-injective,
}
use multicore_oo_o_sim.Base.Int.{ℤ, pos, ◌+ℤ◌}
use native.Mathlib.Nat.{mul-le-mul}
use multicore_oo_o_sim.Predictor.YehPatt.{Branch, in_range}
use multicore_oo_o_sim.Predictor.Perceptron.{
  Perceptron, theta_of, make, neg, abs, clamp, sign, low_bit, dot_history, dot_row, index, row_of,
  dot_product, agreement, train_history, train_row, trains, update, make_perceptron,
}

abs-add : (a b : ℤ) → abs (a +ℤ b) ≤ abs a + abs b
abs-add a b = ground arith

abs-neg : (a : ℤ) → abs (neg a) ≡ abs a
abs-neg a = ground arith

abs-clamp : (theta : ℕ) (a : ℤ) → abs (clamp theta a) ≤ theta
abs-clamp theta a = ground arith

-- Every weight is within theta of 0.
abbrev pub within : ℕ → List ℤ → Bool
within theta [] = true
within theta (w ∷ ws) = leb (abs w) theta && within theta ws

within-zeros : (theta n : ℕ) → within theta (replicate n (pos 0)) ≡ true
within-zeros theta zero = refl
within-zeros theta (suc n) = ground (arith, within-zeros theta n)

within-train_history :
    (theta : ℕ) (taken : Bool) (ws : List ℤ) (h : ℕ)
    → within theta (train_history theta taken ws h) ≡ true
unfolding train_history
within-train_history theta taken [] h = refl
within-train_history theta taken (w ∷ ws) h = ground (
  arith,
  abs-clamp theta (w +ℤ agreement taken (low_bit h)),
  within-train_history theta taken ws (h / 2),
)

length-train_history :
    (theta : ℕ) (taken : Bool) (ws : List ℤ) (h : ℕ)
    → length (train_history theta taken ws h) ≡ length ws
unfolding train_history
length-train_history theta taken [] h = refl
length-train_history theta taken (w ∷ ws) h = ap suc (length-train_history theta taken ws (h / 2))

-- What a row keeps: its length and the range of its weights.
abbrev pub row_ok : (history_bits theta : ℕ) → List ℤ → Bool
row_ok history_bits theta row = (length row == history_bits + 1) && within theta row

row_ok-train_row :
    (n theta : ℕ) (taken : Bool) (row : List ℤ) (h : ℕ)
    → row_ok n theta row ≡ true
    → row_ok n theta (train_row theta taken row h) ≡ true
row_ok-train_row n theta taken [] h r = r
row_ok-train_row n theta taken (bias ∷ ws) h r = ground (
  arith,
  abs-clamp theta (bias +ℤ sign taken),
  within-train_history theta taken ws h,
  length-train_history theta taken ws h,
)

row_ok-zeros : (n theta : ℕ) → row_ok n theta (replicate (n + 1) (pos 0)) ≡ true
row_ok-zeros n theta = ground (arith, length-replicate (n + 1) (pos 0), within-zeros theta (n + 1))

-- Each step of the dot product adds at most theta.
abs-dot_history :
    (theta : ℕ) (ws : List ℤ) (h : ℕ) (sum : ℤ)
    → within theta ws ≡ true
    → abs (dot_history ws h sum) ≤ abs sum + length ws * theta
unfolding dot_history
abs-dot_history theta [] h sum r = omega arith
abs-dot_history theta (w ∷ ws) h sum r =
    let x : ℤ = if low_bit h then w else neg w in
    let mag : abs x ≤ theta = ground arith in
    let rest : abs (dot_history ws (h / 2) (sum +ℤ x)) ≤ abs (sum +ℤ x) + length ws * theta =
      abs-dot_history theta ws (h / 2) (sum +ℤ x) (ground arith) in
    let sums : abs (sum +ℤ x) ≤ abs sum + abs x = abs-add sum x in omega (arith, mag, rest, sums)

abs-dot_row :
    (n theta : ℕ) (row : List ℤ) (h : ℕ)
    → row_ok n theta row ≡ true
    → abs (dot_row row h) ≤ (n + 1) * theta
abs-dot_row n theta [] h r = omega arith
abs-dot_row n theta (bias ∷ ws) h r =
    let d : abs (dot_history ws h bias) ≤ abs bias + length ws * theta =
      abs-dot_history theta ws h bias (ground arith) in
    let size : length ws ≡ n = ground arith in
    let first : abs bias ≤ theta = ground arith in
    let d' : abs (dot_history ws h bias) ≤ abs bias + n * theta =
      subst (λ m. abs (dot_history ws h bias) ≤ abs bias + m * theta) size d in
    omega (arith, first, d')

-- Each row of the table keeps its length and its range, for the sizes that the predictor was made with.
pub record IsTrained (history_bits : ℕ) (p : Perceptron) : Type 0 where
  pub sized : p.history_bits ≡ history_bits
  pub threshold : p.theta ≡ theta_of history_bits
  pub rows_ok :
      (i : ℕ)
      → row_ok history_bits
          (theta_of history_bits)
          (get_or p.table i (replicate (history_bits + 1) (pos 0)))
        ≡ true

make-IsTrained : (n index_bits : ℕ) → IsTrained n (make n index_bits)
unfolding make
make-IsTrained n index_bits = record {
  sized = refl;
  threshold = refl;
  rows_ok = λ i.
      ap (row_ok n (theta_of n)) (get_or-replicate (2 ^ index_bits) i (replicate (n + 1) (pos 0)))
      ∙ row_ok-zeros n (theta_of n);
}

row_of_ok :
    (n : ℕ) (b : Branch) (p : Perceptron)
    → IsTrained n p
    → row_ok n (theta_of n) (row_of b p) ≡ true
row_of_ok n b p v =
    ap (λ m. row_ok n (theta_of n) (get_or p.table (index b p) (replicate (m + 1) (pos 0)))) v.sized
    ∙ v.rows_ok (index b p)

update-IsTrained :
    (n : ℕ) (b : Branch) (prediction : Bool) (p : Perceptron)
    → IsTrained n p
    → IsTrained n (update b prediction p)
unfolding update
update-IsTrained n b prediction p v =
    let blank : List ℤ = replicate (n + 1) (pos 0) in
    let new : List ℤ = train_row p.theta b.taken (row_of b p) p.ghr in
    let new_ok : row_ok n (theta_of n) new ≡ true =
      ap (λ t. row_ok n (theta_of n) (train_row t b.taken (row_of b p) p.ghr)) v.threshold
      ∙ row_ok-train_row n (theta_of n) b.taken (row_of b p) p.ghr (row_of_ok n b p v) in
    record {
      sized = v.sized;
      threshold = v.threshold;
      rows_ok = λ i.
          if-cases (λ (t : List (List ℤ)). row_ok n (theta_of n) (get_or t i blank) ≡ true)
            (trains b prediction p) _ _
            (λ q.
              get_or-set_all (λ l. row_ok n (theta_of n) l ≡ true) p.table (index b p) new blank
                new_ok v.rows_ok i)
            (λ q. v.rows_ok i);
    }

-- The branches whose outcomes a predictor has learnt from, each with the prediction made for it.
unfoldable pub train_all : List (Branch × Bool) → Perceptron → Perceptron
train_all [] p = p
train_all ((b, prediction) ∷ us) p = train_all us (update b prediction p)

train_all-IsTrained :
    (n : ℕ) (us : List (Branch × Bool)) (p : Perceptron)
    → IsTrained n p
    → IsTrained n (train_all us p)
unfolding train_all
train_all-IsTrained n [] p v = v
train_all-IsTrained n ((b, prediction) ∷ us) p v =
    train_all-IsTrained n us (update b prediction p) (update-IsTrained n b prediction p v)

made-IsTrained :
    (n index_bits : ℕ) (p : Perceptron)
    → make_perceptron n index_bits ≡ ok p
    → (n ≤ 30) × IsTrained n p
unfolding make_perceptron
made-IsTrained n index_bits p e =
    if-cases (λ (r : Result Perceptron). r ≡ ok p → (n ≤ 30) × IsTrained n p)
      (in_range n 1 30 && in_range index_bits 1 20) _ _
      (λ t q.
        let small : n ≤ 30 = ground arith in
        (small, subst (IsTrained n) (ok-injective q) (make-IsTrained n index_bits)))
      (λ t q. absurd cc) e

-- A perceptron that the factory function built, whatever branches it has learnt from since, computes for
-- each branch an output of at most 2201 in size, which an `int` holds.
pub output_bounded :
    (history_bits index_bits : ℕ) (p : Perceptron) (us : List (Branch × Bool)) (b : Branch)
    → make_perceptron history_bits index_bits ≡ ok p
    → abs (dot_product b (train_all us p)) ≤ 2201
unfolding dot_product
output_bounded n index_bits p us b e =
    let made : (n ≤ 30) × IsTrained n p = made-IsTrained n index_bits p e in
    let v : IsTrained n (train_all us p) = train_all-IsTrained n us p made.1 in
    let small : n ≤ 30 = made.0 in
    let d : abs (dot_row (row_of b (train_all us p)) (train_all us p).ghr) ≤ (n + 1) * theta_of n =
      abs-dot_row n (theta_of n) (row_of b (train_all us p)) (train_all us p).ghr
        (row_of_ok n b (train_all us p) v) in
    let few : n + 1 ≤ 31 = omega (arith, small) in
    let theta : theta_of n ≤ 71 = omega (arith, small) in
    let top : (n + 1) * theta_of n ≤ 31 * 71 = mul-le-mul few theta in omega (arith, d, top)

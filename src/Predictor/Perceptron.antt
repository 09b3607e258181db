-- ===== src/Predictor/Perceptron.antt =====
-- src/predictor/perceptron.cpp: the perceptron predictor. A row of the table is the bias weight with the
-- weights of the history bits after it, so that the loops over the history are recursions on the row.
pub mod Bounds
mod Tests
use multicore_oo_o_sim.Base.{
  ℕ, ◌+◌, ◌-◌, ◌*◌, ◌/◌, ◌%◌, ◌^◌, Bool, true, false, List, [], ◌∷◌, if◌then◌else◌, get_or, set,
  replicate, u64, ltb, leb, ◌==◌, ◌&&◌, ◌||◌, not, Result, throw, ok,
}
use multicore_oo_o_sim.Base.Int.{ℤ, pos, negsuc, pos_part, neg_part, sub_ℕ, ◌+ℤ◌, ltb_ℤ}
use multicore_oo_o_sim.Predictor.YehPatt.{Branch, in_range}

pub record Perceptron : Type 0 where
  pub history_bits : ℕ
  pub theta : ℕ
  pub index_bits : ℕ
  pub ghr : ℕ
  pub table : List (List ℤ)

-- floor (1.93 * G + 14), where 1.93 * G is not within 0.01 of the next integer up to the G allowed.
abbrev pub theta_of : ℕ → ℕ
theta_of history_bits = 193 * history_bits / 100 + 14

unfoldable pub make : (history_bits index_bits : ℕ) → Perceptron
make history_bits index_bits = record {
  history_bits = history_bits;
  theta = theta_of history_bits;
  index_bits = index_bits;
  ghr = 0;
  table = replicate (2 ^ index_bits) (replicate (history_bits + 1) (pos 0));
}

abbrev pub neg : ℤ → ℤ
neg a = sub_ℕ (neg_part a) (pos_part a)

-- `std::abs`.
abbrev pub abs : ℤ → ℕ
abs a = pos_part a + neg_part a

-- `std::clamp` to [-theta, theta].
abbrev pub clamp : ℕ → ℤ → ℤ
clamp theta a =
    if ltb_ℤ a (neg (pos theta))
    then neg (pos theta)
    else (if ltb_ℤ (pos theta) a then pos theta else a)

-- The factor +1 or -1 of a bit.
abbrev pub sign : Bool → ℤ
sign bit = if bit then pos 1 else negsuc 0

abbrev pub low_bit : ℕ → Bool
low_bit h = h % 2 == 1

unfoldable pub dot_history : List ℤ → ℕ → ℤ → ℤ
dot_history [] h sum = sum
dot_history (w ∷ ws) h sum = dot_history ws (h / 2) (sum +ℤ (if low_bit h then w else neg w))

abbrev pub dot_row : List ℤ → ℕ → ℤ
dot_row [] h = pos 0
dot_row (bias ∷ ws) h = dot_history ws h bias

abbrev pub index : Branch → Perceptron → ℕ
index b p = (b.ip / 4) % 2 ^ p.index_bits

abbrev pub row_of : Branch → Perceptron → List ℤ
row_of b p = get_or p.table (index b p) (replicate (p.history_bits + 1) (pos 0))

unfoldable pub dot_product : Branch → Perceptron → ℤ
dot_product b p = dot_row (row_of b p) p.ghr

unfoldable pub predict : Branch → Perceptron → Bool
predict b p = ltb_ℤ (pos 0) (dot_product b p)

-- t * x, of two factors.
abbrev pub agreement : Bool → Bool → ℤ
agreement taken bit = if taken then sign bit else neg (sign bit)

unfoldable pub train_history : ℕ → Bool → List ℤ → ℕ → List ℤ
train_history theta taken [] h = []
train_history theta taken (w ∷ ws) h =
    clamp theta (w +ℤ agreement taken (low_bit h)) ∷ train_history theta taken ws (h / 2)

abbrev pub train_row : ℕ → Bool → List ℤ → ℕ → List ℤ
train_row theta taken [] h = []
train_row theta taken (bias ∷ ws) h =
    clamp theta (bias +ℤ sign taken) ∷ train_history theta taken ws h

abbrev pub differ : Bool → Bool → Bool
differ a b = if a then not b else b

abbrev pub trains : Branch → Bool → Perceptron → Bool
trains b prediction p = differ prediction b.taken || ltb (abs (dot_product b p)) p.theta

unfoldable pub update : Branch → Bool → Perceptron → Perceptron
update b prediction p = record p {
  table =
      if trains b prediction p
      then set p.table (index b p) (train_row p.theta b.taken (row_of b p) p.ghr)
      else p.table;
  ghr = 2 * p.ghr % u64 + (if b.taken then 1 else 0);
}

-- `make_perceptron`, which checks the configured sizes.
unfoldable pub make_perceptron : (history_bits index_bits : ℕ) → Result Perceptron
make_perceptron history_bits index_bits =
    if in_range history_bits 1 30 && in_range index_bits 1 20
    then ok (make history_bits index_bits)
    else throw

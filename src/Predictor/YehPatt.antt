-- ===== src/Predictor/YehPatt.antt =====
-- src/predictor/yeh_patt.cpp: the two-level adaptive predictor. `x & (2^n - 1)` is `x % 2 ^ n`.
pub mod History
pub mod Learns
pub mod Made
mod Tests
use multicore_oo_o_sim.Base.{
  ℕ, ◌+◌, ◌*◌, ◌/◌, ◌%◌, ◌^◌, Bool, true, false, List, if◌then◌else◌, get_or, set, replicate, u64,
  leb, ◌&&◌, Result, throw, ok,
}
use multicore_oo_o_sim.Predictor.Counter
use multicore_oo_o_sim.Predictor.Counter.{SaturatingCounter, is_taken}

pub record Branch : Type 0 where
  pub ip : ℕ
  pub taken : Bool
  pub inst_num : ℕ

pub record YehPatt : Type 0 where
  pub history_bits : ℕ
  pub pattern_bits : ℕ
  pub history_table : List ℕ
  pub pattern_table : List SaturatingCounter

abbrev pub seed : SaturatingCounter
seed = record { bits = 2; value = 1 }

unfoldable pub make : (history_bits pattern_bits : ℕ) → YehPatt
make history_bits pattern_bits = record {
  history_bits = history_bits;
  pattern_bits = pattern_bits;
  history_table = replicate (2 ^ history_bits) 0;
  pattern_table = replicate (2 ^ pattern_bits) seed;
}

abbrev pub ht_idx : Branch → YehPatt → ℕ
ht_idx b y = (b.ip / 4) % 2 ^ y.history_bits

abbrev pub history : Branch → YehPatt → ℕ
history b y = get_or y.history_table (ht_idx b y) 0

abbrev pub pt_idx : Branch → YehPatt → ℕ
pt_idx b y = history b y % 2 ^ y.pattern_bits

abbrev pub pattern_entry : YehPatt → ℕ → SaturatingCounter
pattern_entry y i = get_or y.pattern_table i seed

unfoldable pub predict : Branch → YehPatt → Bool
predict b y = is_taken (pattern_entry y (pt_idx b y))

abbrev pub in_range : ℕ → ℕ → ℕ → Bool
in_range x lo hi = leb lo x && leb x hi

-- The history register with the outcome shifted in.
abbrev pub shift_in : (pattern_bits : ℕ) → Bool → ℕ → ℕ
shift_in pattern_bits taken h = (2 * h % u64 + (if taken then 1 else 0)) % 2 ^ pattern_bits

unfoldable pub update : Branch → YehPatt → YehPatt
update b y = record y {
  pattern_table =
      set y.pattern_table (pt_idx b y) (Counter.update b.taken (pattern_entry y (pt_idx b y)));
  history_table = set y.history_table (ht_idx b y) (shift_in y.pattern_bits b.taken (history b y));
}

-- `make_yeh_patt`, which checks the configured sizes.
unfoldable pub make_yeh_patt : (history_bits pattern_bits : ℕ) → Result YehPatt
make_yeh_patt history_bits pattern_bits =
    if in_range history_bits 1 20 && in_range pattern_bits 1 20
    then ok (make history_bits pattern_bits)
    else throw

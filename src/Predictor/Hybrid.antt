-- ===== src/Predictor/Hybrid.antt =====
-- src/predictor/hybrid.cpp and src/predictor/always_taken.cpp: the tournament of the two-level predictor and the
-- perceptron, and the baseline. The map of pending predictions is a function from instruction numbers.
pub mod InFlight
mod Tests
use multicore_oo_o_sim.Base.{
  ℕ, ◌+◌, ◌-◌, ◌/◌, ◌%◌, ◌^◌, Bool, true, false, Option, none, some, List, [], ◌∷◌, if◌then◌else◌,
  get_or, set, replicate, update, ◌==◌, ◌&&◌, Result, throw, ok, ◌>>=◌,
}
use multicore_oo_o_sim.Predictor.Counter
use multicore_oo_o_sim.Predictor.Counter.{SaturatingCounter, is_taken}
use multicore_oo_o_sim.Predictor.YehPatt
use multicore_oo_o_sim.Predictor.YehPatt.{Branch, YehPatt, make_yeh_patt, in_range}
use multicore_oo_o_sim.Predictor.Perceptron
use multicore_oo_o_sim.Predictor.Perceptron.{Perceptron, make_perceptron, differ}

pub record Pending : Type 0 where
  pub yp : Bool
  pub pct : Bool

pub record PredictorConfig : Type 0 where
  pub history_bits : ℕ
  pub pattern_bits : ℕ
  pub perceptron_history_bits : ℕ
  pub perceptron_index_bits : ℕ
  pub tournament_index_bits : ℕ
  pub tournament_counter_bits : ℕ
  pub hybrid_init : ℕ

pub record Hybrid : Type 0 where
  pub yp : YehPatt
  pub pct : Perceptron
  pub index_bits : ℕ
  pub tnmt_table : List SaturatingCounter
  pub pending : ℕ → Option Pending

abbrev pub init_value_for : (hybrid_init counter_bits : ℕ) → ℕ
init_value_for hybrid_init bits =
    if hybrid_init == 0
    then 0
    else (if hybrid_init == 1
        then 2 ^ (bits - 1) - 1
        else (if hybrid_init == 3 then 2 ^ bits - 1 else 2 ^ (bits - 1)))

-- The constructor: the counter is made by `SaturatingCounter`, which checks it too.
abbrev pub built : PredictorConfig → YehPatt → Perceptron → SaturatingCounter → Hybrid
built cfg yp pct seed = record {
  yp = yp;
  pct = pct;
  index_bits = cfg.tournament_index_bits;
  tnmt_table = replicate (2 ^ cfg.tournament_index_bits) seed;
  pending = λ inst_num. none;
}

abbrev pub compose : PredictorConfig → Result Hybrid
compose cfg = do
  yp ← make_yeh_patt cfg.history_bits cfg.pattern_bits
  pct ← make_perceptron cfg.perceptron_history_bits cfg.perceptron_index_bits
  seed ←
      Counter.make cfg.tournament_counter_bits
        (init_value_for cfg.hybrid_init cfg.tournament_counter_bits)
  ok (built cfg yp pct seed)

-- `make_hybrid`.
unfoldable pub make_hybrid : PredictorConfig → Result Hybrid
make_hybrid cfg =
    if in_range cfg.tournament_index_bits 1 24
      && (in_range cfg.tournament_counter_bits 2 8 && in_range cfg.hybrid_init 0 3)
    then compose cfg
    else throw

abbrev pub selector_index : Branch → Hybrid → ℕ
selector_index b y = (b.ip / 4) % 2 ^ y.index_bits

-- The counter at an index of the table, which has all of them.
abbrev pub selector : Branch → Hybrid → SaturatingCounter
selector b y = get_or y.tnmt_table (selector_index b y) (record { bits = 2; value = 0 })

abbrev pub sub_predictions : Branch → Hybrid → Pending
sub_predictions b y = record { yp = YehPatt.predict b y.yp; pct = Perceptron.predict b y.pct }

-- `emplace`, and the assertion that no prediction of that number was waiting.
abbrev pub emplaced : Option Pending → Pending → Branch → Hybrid → Result (Bool × Hybrid)
emplaced none p b y = ok (
  if is_taken (selector b y) then p.pct else p.yp,
  record y { pending = update y.pending b.inst_num (some p) },
)
emplaced (some waiting) p b y = throw

-- The method `predict`, which is `throw` where its assertion fails.
unfoldable pub predict : Branch → Hybrid → Result (Bool × Hybrid)
predict b y = emplaced (y.pending b.inst_num) (sub_predictions b y) b y

-- The selector moves only where the two predictions differ.
unfoldable pub train_selector : Bool → Pending → SaturatingCounter → SaturatingCounter
train_selector taken p c =
    if differ p.yp p.pct
    then (if differ p.yp taken then Counter.update true c else Counter.update false c)
    else c

abbrev pub trained : Branch → Pending → Hybrid → Hybrid
trained b p y = record y {
  yp = YehPatt.update b y.yp;
  pct = Perceptron.update b p.pct y.pct;
  tnmt_table = set y.tnmt_table (selector_index b y) (train_selector b.taken p (selector b y));
  pending = update y.pending b.inst_num none;
}

abbrev pub consumed : Option Pending → Branch → Hybrid → Result Hybrid
consumed none b y = throw
consumed (some p) b y = ok (trained b p y)

-- The method `update`, which is `throw` where its assertion fails.
unfoldable pub train : Branch → Hybrid → Result Hybrid
train b y = consumed (y.pending b.inst_num) b y

-- `AlwaysTaken`.
unfoldable pub always_taken : Branch → Bool
always_taken b = true

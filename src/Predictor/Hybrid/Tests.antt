-- ===== src/Predictor/Hybrid/Tests.antt =====
-- The tournament on concrete inputs.
use multicore_oo_o_sim.Base.{
  ℕ, ◌≡◌, refl, Bool, true, false, none, List, [], ◌∷◌, replicate, Result, throw, ok,
}
use multicore_oo_o_sim.Predictor.Counter
use multicore_oo_o_sim.Predictor.Counter.{SaturatingCounter}
use multicore_oo_o_sim.Predictor.YehPatt
use multicore_oo_o_sim.Predictor.YehPatt.{Branch}
use multicore_oo_o_sim.Predictor.Perceptron
use multicore_oo_o_sim.Predictor.Hybrid.{
  PredictorConfig, Hybrid, make_hybrid, predict, train, trained, sub_predictions,
}
use multicore_oo_o_sim.Predictor.Hybrid.InFlight.{
  Event, predicted, resolved, replay, train_remembers,
}

abbrev config : PredictorConfig
config = record {
  history_bits = 1;
  pattern_bits = 1;
  perceptron_history_bits = 1;
  perceptron_index_bits = 1;
  tournament_index_bits = 1;
  tournament_counter_bits = 4;
  hybrid_init = 2;
}

abbrev start : Hybrid
start = record {
  yp = YehPatt.make 1 1;
  pct = Perceptron.make 1 1;
  index_bits = 1;
  tnmt_table = replicate 2 (record { bits = 4; value = 8 });
  pending = λ inst_num. none;
}

start_made : make_hybrid config ≡ ok start
unfolding make_hybrid YehPatt.make_yeh_patt Perceptron.make_perceptron Counter.make
start_made = refl

abbrev branch : ℕ → Bool → Branch
branch inst_num taken = record { ip = 8; taken = taken; inst_num = inst_num }

-- Two more branches are predicted, and one of them is resolved, before the first one is.
abbrev between : List Event
between = predicted (branch 2 true) ∷ predicted (branch 3 false) ∷ resolved (branch 2 true) ∷ []

abbrev or_start : Result Hybrid → Hybrid
or_start throw = start
or_start (ok y) = y

abbrev answer : Bool × Hybrid
answer = elim (predict (branch 1 true) start) [ throw ↦ (false, start) | ok r ↦ r ]

abbrev later : Hybrid
later = or_start (replay between answer.1)

-- A second prediction of a branch that is still in flight.
predicted_twice : predict (branch 1 true) answer.1 ≡ throw
unfolding predict
predicted_twice = refl

train_remembers_example :
    train (branch 1 true) later
    ≡ ok (trained (branch 1 true) (sub_predictions (branch 1 true) start) later)
unfolding replay predict train
train_remembers_example =
    train_remembers (branch 1 true) between start answer.0 answer.1 later refl refl refl

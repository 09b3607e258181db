-- ===== src/Predictor/Perceptron/Tests.antt =====
-- The perceptron on concrete inputs.
use multicore_oo_o_sim.Base.{ℕ, ◌≤◌, ◌≡◌, refl, Bool, true, false, List, [], ◌∷◌}
use multicore_oo_o_sim.Base.Int.{negsuc}
use multicore_oo_o_sim.Predictor.YehPatt.{Branch}
use multicore_oo_o_sim.Predictor.Perceptron.{
  make, make_perceptron, abs, dot_product, dot_history, update, train_history,
}
use multicore_oo_o_sim.Predictor.Perceptron.Bounds.{train_all, output_bounded}

abbrev at_pc : ℕ → Bool → Branch
at_pc ip taken = record { ip = ip; taken = taken; inst_num = 0 }

-- A branch that is taken, not taken and taken again, with the predictions made for it.
abbrev outcomes : List (Branch × Bool)
outcomes = (at_pc 8 true, false) ∷ (at_pc 8 false, true) ∷ (at_pc 8 true, false) ∷ []

learnt_output : dot_product (at_pc 8 true) (train_all outcomes (make 2 1)) ≡ negsuc 2
unfolding dot_product dot_history train_all update train_history make
learnt_output = refl

output_bounded_example : abs (dot_product (at_pc 8 true) (train_all outcomes (make 2 1))) ≤ 2201
unfolding make_perceptron
output_bounded_example = output_bounded 2 1 (make 2 1) outcomes (at_pc 8 true) refl

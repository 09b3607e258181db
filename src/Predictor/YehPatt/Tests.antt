-- ===== src/Predictor/YehPatt/Tests.antt =====
-- The predictors on concrete inputs.
use multicore_oo_o_sim.Base.{suc, ◌≡◌, refl, true, false, arith, ok, throw}
use multicore_oo_o_sim.Predictor.Counter
use multicore_oo_o_sim.Predictor.Counter.{SaturatingCounter, is_taken, update_keeps_strong}
use multicore_oo_o_sim.Predictor.YehPatt.{Branch, YehPatt, make, make_yeh_patt, predict, update}
use multicore_oo_o_sim.Predictor.YehPatt.Learns.{
  IsValid, train, learns_direction, make-IsValid, update-IsValid,
}
use multicore_oo_o_sim.Predictor.YehPatt.Made.{make_yeh_patt-IsValid}

abbrev branch : Branch
branch = record { ip = 4100; taken = false; inst_num = 0 }

-- Eight history registers of three bits.
abbrev small : YehPatt
small = make 3 3

small_first : predict branch small ≡ false
unfolding make predict
small_first = refl

small_trained : predict branch (train true branch 5 small) ≡ true
unfolding make predict update Counter.update
small_trained = refl

counter_checked : Counter.make 2 4 ≡ throw
unfolding Counter.make
counter_checked = refl

small-IsValid : IsValid small
small-IsValid = make-IsValid 3 3 (omega arith) (omega arith) (omega arith)

small_bits : small.pattern_bits ≡ 3
unfolding make
small_bits = refl

learns_direction_example :
    predict branch (train true branch (suc (suc small.pattern_bits)) small) ≡ true
learns_direction_example = learns_direction true branch small small-IsValid

update-IsValid_example : IsValid (update branch small)
update-IsValid_example = update-IsValid branch small small-IsValid

abbrev strong : SaturatingCounter
strong = record { bits = 4; value = 12 }

update_keeps_strong_example : is_taken (Counter.update false strong) ≡ is_taken strong
update_keeps_strong_example = update_keeps_strong false strong refl

made : make_yeh_patt 3 3 ≡ ok small
unfolding make_yeh_patt
made = refl

refused : make_yeh_patt 3 21 ≡ throw
unfolding make_yeh_patt
refused = refl

make_yeh_patt-IsValid_example : IsValid small
make_yeh_patt-IsValid_example = make_yeh_patt-IsValid 3 3 small made

-- ===== src/Ooo/Rob/Tests.antt =====
-- The reorder buffer on concrete inputs.
use multicore_oo_o_sim.Base.{ℕ, ◌≡◌, refl, List, [], ◌∷◌, none, false, arith}
use multicore_oo_o_sim.Ooo.Inst.{blank_inst}
use multicore_oo_o_sim.Ooo.Rob.{RobEntry, make, allocate, retire_head, set_ready}
use multicore_oo_o_sim.Ooo.Rob.Order.{
  RobOp, dispatch, retire, complete, rob_run, started, InOrder, retires_oldest_first,
}

abbrev tagged : ℕ → RobEntry
tagged tag = record { ready = false; dest_reg = none; dest_tag = tag; inst = blank_inst }

-- Two slots: the third entry is refused, and the fourth goes where the first was.
abbrev busy : List RobOp
busy =
    dispatch (tagged 7)
    ∷ dispatch (tagged 8)
    ∷ dispatch (tagged 9)
    ∷ complete 1
    ∷ retire
    ∷ dispatch (tagged 10)
    ∷ retire
    ∷ []

busy_retired : (rob_run busy (started 2)).retired ≡ 7 ∷ 8 ∷ []
unfolding make allocate retire_head set_ready
busy_retired = refl

busy_tail : (rob_run busy (started 2)).rob.tail ≡ 1
unfolding make allocate retire_head set_ready
busy_tail = refl

retires_oldest_first_example : InOrder (rob_run busy (started 2))
retires_oldest_first_example = retires_oldest_first 2 busy (omega arith)

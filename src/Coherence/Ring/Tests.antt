-- ===== src/Coherence/Ring/Tests.antt =====
-- A ring of five nodes.
use multicore_oo_o_sim.Base.{◌≡◌, ◌≤◌, refl, arith}
use multicore_oo_o_sim.Coherence.Ring.{target, after_hops}
use multicore_oo_o_sim.Coherence.Ring.Arrives.{shortest, after_hops-shortest}

wraps_left : target 5 0 3 ≡ 4
unfolding target
wraps_left = refl

after_hops-shortest_example : (after_hops 5 2 0 3 ≡ 3) × (shortest 5 0 3 ≤ 2)
after_hops-shortest_example = after_hops-shortest 5 0 3 (omega arith) (omega arith)

-- ===== src/Coherence/Directory/Msi/Sharers.antt =====
-- The MSI directory's loops over a presence vector.
use multicore_oo_o_sim.Base.{
  ℕ, zero, suc, ◌+◌, ◌-◌, ◌<◌, ◌≡◌, refl, Bool, true, false, List, [], ◌∷◌, arith, if◌then◌else◌,
  ◌==◌, length, get_or,
}
use multicore_oo_o_sim.Coherence.Directory.Sharers.{sharers}
use multicore_oo_o_sim.Coherence.Directory.Msi.{clear_first, any_present, count_others}

pub any_present-sharers :
    (ps : List Bool) → any_present ps ≡ (if sharers ps == 0 then false else true)
unfolding any_present
any_present-sharers [] = refl
any_present-sharers (true ∷ ps) = ground arith
any_present-sharers (false ∷ ps) = ground (arith, any_present-sharers ps)

pub sharers-clear_first : (ps : List Bool) → sharers (clear_first ps) ≡ sharers ps - 1
unfolding clear_first
sharers-clear_first [] = refl
sharers-clear_first (true ∷ ps) = omega arith
sharers-clear_first (false ∷ ps) = omega (arith, sharers-clear_first ps)

pub length-clear_first : (ps : List Bool) → length (clear_first ps) ≡ length ps
unfolding clear_first
length-clear_first [] = refl
length-clear_first (true ∷ ps) = refl
length-clear_first (false ∷ ps) = omega (arith, length-clear_first ps)

count_others_past : (ps : List Bool) (i r : ℕ) → r < i → count_others ps i r ≡ sharers ps
unfolding count_others
count_others_past [] i r h = refl
count_others_past (p ∷ ps) i r h = ground (arith, count_others_past ps (i + 1) r)

count_others_from :
    (ps : List Bool) (i k r : ℕ)
    → r ≡ i + k
    → count_others ps i r + (if get_or ps k false then 1 else 0) ≡ sharers ps
unfolding count_others
count_others_from [] i k r h = refl
count_others_from (p ∷ ps) i zero r h = ground (arith, count_others_past ps (i + 1) r)
count_others_from (p ∷ ps) i (suc k) r h = ground (arith, count_others_from ps (i + 1) k r)

pub count_others-sharers :
    (ps : List Bool) (r : ℕ)
    → count_others ps 0 r + (if get_or ps r false then 1 else 0) ≡ sharers ps
count_others-sharers ps r = count_others_from ps 0 r r (omega arith)

-- ===== src/Ooo/Core/Sources.antt =====
-- src/ooo/core.cpp, src/ooo/schedq.cpp: the operands that wait, under a completion and a dispatch.
use multicore_oo_o_sim.Base.{ℕ, ◌≡◌, refl, true, List, [], ◌∷◌, ◌++◌, map, arith}
use multicore_oo_o_sim.Ooo.SchedQ.{SchedEntry, SrcOperand, erase_first, wake_operand, wake}
use multicore_oo_o_sim.Ooo.Core.Wakeup.{
  source_ok, sources_ok, has_tag-erase, has_tag-wake, has_tag-append,
}

-- After the broadcast no operand waits for the tag, so that its entry can go.
source_ok-completed :
    (q : List SchedEntry) (tag t : ℕ) (s : SrcOperand)
    → source_ok q tag s ≡ true
    → source_ok (erase_first t (map (wake t) q)) tag (wake_operand t s) ≡ true
unfolding wake_operand
source_ok-completed q tag t s h =
    ground (arith, has_tag-erase s.tag t (map (wake t) q), has_tag-wake s.tag t q)

sources_ok-completed :
    (q es : List SchedEntry) (t : ℕ)
    → sources_ok q es ≡ true
    → sources_ok (erase_first t (map (wake t) q)) (map (wake t) es) ≡ true
sources_ok-completed q [] t h = refl
sources_ok-completed q (e ∷ es) t h = ground (
  arith,
  source_ok-completed q e.dest_tag t e.src1,
  source_ok-completed q e.dest_tag t e.src2,
  sources_ok-completed q es t,
)

sources_ok-erase :
    (q es : List SchedEntry) (t : ℕ)
    → sources_ok q es ≡ true
    → sources_ok q (erase_first t es) ≡ true
unfolding erase_first
sources_ok-erase q [] t h = h
sources_ok-erase q (e ∷ es) t h = ground (arith, sources_ok-erase q es t)

pub sources_ok-writeback :
    (q : List SchedEntry) (t : ℕ)
    → sources_ok q q ≡ true
    → sources_ok (erase_first t (map (wake t) q)) (erase_first t (map (wake t) q)) ≡ true
sources_ok-writeback q t h =
    sources_ok-erase (erase_first t (map (wake t) q)) (map (wake t) q) t
      (sources_ok-completed q q t h)

source_ok-append :
    (q : List SchedEntry) (e : SchedEntry) (tag : ℕ) (s : SrcOperand)
    → source_ok q tag s ≡ true
    → source_ok (q ++ e ∷ []) tag s ≡ true
source_ok-append q e tag s h = ground (arith, has_tag-append s.tag q e)

-- A new entry at the end whose own operands wait for entries before it.
pub sources_ok-append :
    (q es : List SchedEntry) (e : SchedEntry)
    → source_ok q e.dest_tag e.src1 ≡ true
    → source_ok q e.dest_tag e.src2 ≡ true
    → sources_ok q es ≡ true
    → sources_ok (q ++ e ∷ []) (es ++ e ∷ []) ≡ true
sources_ok-append q [] e h₁ h₂ h =
    ground (arith, source_ok-append q e e.dest_tag e.src1, source_ok-append q e e.dest_tag e.src2)
sources_ok-append q (x ∷ xs) e h₁ h₂ h = ground (
  arith,
  source_ok-append q e x.dest_tag x.src1,
  source_ok-append q e x.dest_tag x.src2,
  sources_ok-append q xs e,
)

-- ===== src/Predictor/Counter.antt =====
-- include/comparch/predictor/saturating_counter.hpp: the saturating counter.
use multicore_oo_o_sim.Base.{
  ℕ, ◌+◌, ◌-◌, ◌^◌, ◌≤◌, ◌≡◌, arith, Bool, false, not, ◌&&◌, ◌||◌, ◌==◌, if◌then◌else◌, ltb, leb,
  Result, throw, ok,
}

pub record SaturatingCounter : Type 0 where
  pub bits : ℕ
  pub value : ℕ

abbrev pub max : SaturatingCounter → ℕ
max c = 2 ^ c.bits - 1

abbrev pub weak_taken : SaturatingCounter → ℕ
weak_taken c = 2 ^ (c.bits - 1)

unfoldable pub make : (bits init : ℕ) → Result SaturatingCounter
make bits init =
    let c : SaturatingCounter = record { bits = bits; value = init } in
    if leb 1 bits && leb bits 31 then (if leb init (max c) then ok c else throw) else throw

abbrev pub is_taken : SaturatingCounter → Bool
is_taken c = leb (weak_taken c) c.value

abbrev pub is_weak : SaturatingCounter → Bool
is_weak c = (c.value == weak_taken c) || (c.value == weak_taken c - 1)

unfoldable pub update : Bool → SaturatingCounter → SaturatingCounter
update taken c =
    if taken && ltb c.value (max c)
    then (record c { value = c.value + 1 })
    else (if not taken && ltb 0 c.value then (record c { value = c.value - 1 }) else c)

unfoldable pub reset : Bool → SaturatingCounter → SaturatingCounter
reset weakly_taken c = record c { value = if weakly_taken then weak_taken c else weak_taken c - 1 }

pub update-bits : (taken : Bool) (c : SaturatingCounter) → (update taken c).bits ≡ c.bits
unfolding update
update-bits taken c = ground arith

-- An update keeps the counter in its range.
pub update_bounded :
    (taken : Bool) (c : SaturatingCounter)
    → c.value ≤ max c
    → (update taken c).value ≤ max (update taken c)
unfolding update
update_bounded taken c h = ground arith

-- A counter that is not weak keeps its prediction under one outcome of either kind.
pub update_keeps_strong :
    (taken : Bool) (c : SaturatingCounter)
    → is_weak c ≡ false
    → is_taken (update taken c) ≡ is_taken c
unfolding update
update_keeps_strong taken c h = ground arith

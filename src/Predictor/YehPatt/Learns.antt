-- ===== src/Predictor/YehPatt/Learns.antt =====
-- src/predictor/yeh_patt.cpp: the invariant of the tables, and the training on one branch.
use multicore_oo_o_sim.Base.{
  ℕ, zero, suc, ◌/◌, ◌%◌, ◌^◌, ◌≤◌, ◌<◌, ◌≡◌, refl, sym, ap, ap₂, subst, ◌∙◌, arith, Bool, true,
  false, length, get_or, length-set, length-replicate, get_or-replicate, get_or-set_all,
  get_or-set_self,
}
use native.Mathlib.Nat.{mod-lt}
use multicore_oo_o_sim.Predictor.Counter
use multicore_oo_o_sim.Predictor.Counter.{SaturatingCounter, is_taken, update-bits, update_bounded}
use multicore_oo_o_sim.Predictor.YehPatt.{
  Branch, YehPatt, seed, make, ht_idx, history, pt_idx, pattern_entry, predict, shift_in, update,
}
use multicore_oo_o_sim.Predictor.YehPatt.History.{
  settled, shifted, shift_in_below, shifted-settled, settled_stays,
}

-- The sizes that the constructor sets up, and what every update keeps.
pub record IsValid (y : YehPatt) : Type 0 where
  pub history_sized : length y.history_table ≡ 2 ^ y.history_bits
  pub pattern_sized : length y.pattern_table ≡ 2 ^ y.pattern_bits
  pub some_history : 0 < 2 ^ y.history_bits
  pub some_pattern : 0 < 2 ^ y.pattern_bits
  pub small_pattern : 2 ^ y.pattern_bits ≤ 2 ^ 20
  pub masked : (i : ℕ) → get_or y.history_table i 0 < 2 ^ y.pattern_bits
  pub two_bits : (i : ℕ) → (pattern_entry y i).bits ≡ 2
  pub in_range : (i : ℕ) → (pattern_entry y i).value ≤ 3

-- A two-bit counter keeps its range, and two outcomes of one kind decide it.
two_bit_range :
    (d : Bool) (c : SaturatingCounter) → c.bits ≡ 2 → c.value ≤ 3 → (Counter.update d c).value ≤ 3
unfolding Counter.update
two_bit_range d c b h = ground arith

two_bit_decided :
    (d : Bool) (v : ℕ)
    → v ≤ 3
    → is_taken (Counter.update d (Counter.update d (record { bits = 2; value = v }))) ≡ d
unfolding Counter.update
two_bit_decided true v h = ground arith
two_bit_decided false v h = ground arith

-- Training a well-formed predictor on any branch keeps its tables at their sizes, its histories within
-- their bits, and its counters two bits wide and in their range.
pub update-IsValid : (b : Branch) (y : YehPatt) → IsValid y → IsValid (update b y)
unfolding update
update-IsValid b y v = record {
  history_sized = length-set y.history_table _ _ ∙ v.history_sized;
  pattern_sized = length-set y.pattern_table _ _ ∙ v.pattern_sized;
  some_history = v.some_history;
  some_pattern = v.some_pattern;
  small_pattern = v.small_pattern;
  masked =
      get_or-set_all (λ h. h < 2 ^ y.pattern_bits) y.history_table _ _ 0
        (shift_in_below y.pattern_bits b.taken (history b y) v.some_pattern) v.masked;
  two_bits =
      get_or-set_all (λ (c : SaturatingCounter). c.bits ≡ 2) y.pattern_table _ _ seed
        (update-bits b.taken (pattern_entry y (pt_idx b y)) ∙ v.two_bits (pt_idx b y)) v.two_bits;
  in_range =
      get_or-set_all (λ (c : SaturatingCounter). c.value ≤ 3) y.pattern_table _ _ seed
        (two_bit_range b.taken (pattern_entry y (pt_idx b y)) (v.two_bits (pt_idx b y))
          (v.in_range (pt_idx b y)))
        v.in_range;
}

pub make-IsValid :
    (history_bits pattern_bits : ℕ)
    → 0 < 2 ^ history_bits
    → 0 < 2 ^ pattern_bits
    → 2 ^ pattern_bits ≤ 2 ^ 20
    → IsValid (make history_bits pattern_bits)
unfolding make
make-IsValid hb pb h p s = record {
  history_sized = length-replicate (2 ^ hb) 0;
  pattern_sized = length-replicate (2 ^ pb) seed;
  some_history = h;
  some_pattern = p;
  small_pattern = s;
  masked = λ i. subst (λ t. t < 2 ^ pb) (sym (get_or-replicate (2 ^ hb) i 0)) p;
  two_bits = λ i. ap (λ (c : SaturatingCounter). c.bits) (get_or-replicate (2 ^ pb) i seed);
  in_range = λ i.
      subst (λ (c : SaturatingCounter). c.value ≤ 3) (sym (get_or-replicate (2 ^ pb) i seed))
        (omega arith);
}

-- A branch that goes one way `n` times.
abbrev pub train : Bool → Branch → ℕ → YehPatt → YehPatt
train d b zero y = y
train d b (suc n) y = update (record b { taken = d }) (train d b n y)

history-update :
    (d : Bool) (b : Branch) (y : YehPatt)
    → IsValid y
    → history b (update (record b { taken = d }) y) ≡ shift_in y.pattern_bits d (history b y)
unfolding update
history-update d b y v =
    get_or-set_self y.history_table (ht_idx b y) _ 0
      (omega (arith, v.history_sized, mod-lt (b.ip / 4) v.some_history))

train-IsValid : (d : Bool) (b : Branch) (n : ℕ) (y : YehPatt) → IsValid y → IsValid (train d b n y)
train-IsValid d b zero y v = v
train-IsValid d b (suc n) y v =
    update-IsValid (record b { taken = d }) (train d b n y) (train-IsValid d b n y v)

train-bits :
    (d : Bool) (b : Branch) (n : ℕ) (y : YehPatt) → (train d b n y).pattern_bits ≡ y.pattern_bits
unfolding update
train-bits d b zero y = refl
train-bits d b (suc n) y = train-bits d b n y

train-history :
    (d : Bool) (b : Branch) (n : ℕ) (y : YehPatt)
    → IsValid y
    → history b (train d b n y) ≡ shifted y.pattern_bits d n (history b y)
train-history d b zero y v = refl
train-history d b (suc n) y v =
    history-update d b (train d b n y) (train-IsValid d b n y v)
    ∙ ap₂ (λ p h. shift_in p d h) (train-bits d b n y) (train-history d b n y v)

-- A full register stays full.
settled-update :
    (d : Bool) (b : Branch) (y : YehPatt)
    → IsValid y
    → history b y ≡ settled (2 ^ y.pattern_bits) d
    → history b (update (record b { taken = d }) y) ≡ settled (2 ^ y.pattern_bits) d
settled-update d b y v e =
    history-update d b y v
    ∙ ap (shift_in y.pattern_bits d) e
    ∙ settled_stays y.pattern_bits d v.some_pattern v.small_pattern

pattern-update :
    (d : Bool) (b : Branch) (y : YehPatt) (i : ℕ)
    → IsValid y
    → pt_idx b y ≡ i
    → pattern_entry (update (record b { taken = d }) y) i ≡ Counter.update d (pattern_entry y i)
unfolding update
pattern-update d b y i v e =
    subst
      (λ i.
        pattern_entry (update (record b { taken = d }) y) i ≡ Counter.update d (pattern_entry y i))
      e
      (get_or-set_self y.pattern_table (pt_idx b y) _ seed
        (omega (arith, v.pattern_sized, mod-lt (history b y) v.some_pattern)))

decided :
    (d : Bool) (c : SaturatingCounter)
    → c.bits ≡ 2
    → c.value ≤ 3
    → is_taken (Counter.update d (Counter.update d c)) ≡ d
decided d c b h =
    subst
      (λ n.
        is_taken (Counter.update d (Counter.update d (record { bits = n; value = c.value }))) ≡ d)
      (sym b) (two_bit_decided d c.value h)

decides_when_settled :
    (d : Bool) (b : Branch) (y : YehPatt)
    → IsValid y
    → history b y ≡ settled (2 ^ y.pattern_bits) d
    → predict b (train d b 2 y) ≡ d
unfolding predict update
decides_when_settled d b y v e =
    let i : ℕ = settled (2 ^ y.pattern_bits) d % 2 ^ y.pattern_bits in
    let at : (h : ℕ) → h ≡ settled (2 ^ y.pattern_bits) d → h % 2 ^ y.pattern_bits ≡ i =
      λ h p. ap (λ t. t % 2 ^ y.pattern_bits) p in
    let y₁ : YehPatt = train d b 1 y in
    let v₁ : IsValid y₁ = train-IsValid d b 1 y v in
    let full₁ : history b y₁ ≡ settled (2 ^ y.pattern_bits) d = settled-update d b y v e in
    let full₂ : history b (train d b 2 y) ≡ settled (2 ^ y.pattern_bits) d =
      settled-update d b y₁ v₁ full₁ in
    let slot : pt_idx b (train d b 2 y) ≡ i = at _ full₂ in
    ap (λ j. is_taken (pattern_entry (train d b 2 y) j)) slot
    ∙ ap is_taken (
        pattern-update d b y₁ i v₁ (at _ full₁)
        ∙ ap (Counter.update d) (pattern-update d b y i v (at _ e)))
    ∙ decided d (pattern_entry y i) (v.two_bits i) (v.in_range i)

-- From any well-formed state of the two-level predictor, a branch that goes one way as often as a
-- history has bits, and twice more, with no other update between, is then predicted to go that way.
pub learns_direction :
    (d : Bool) (b : Branch) (y : YehPatt)
    → IsValid y
    → predict b (train d b (suc (suc y.pattern_bits)) y) ≡ d
learns_direction d b y v =
    let z : YehPatt = train d b y.pattern_bits y in
    let w : IsValid z = train-IsValid d b y.pattern_bits y v in
    decides_when_settled d b z w (
      train-history d b y.pattern_bits y v
      ∙ shifted-settled y.pattern_bits d (history b y) (v.masked (ht_idx b y)) v.small_pattern
      ∙ ap (λ p. settled (2 ^ p) d) (sym (train-bits d b y.pattern_bits y)))

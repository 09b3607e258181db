-- ===== src/Predictor/Hybrid/InFlight.antt =====
-- src/predictor/hybrid.cpp: the predictions that wait for the outcomes of their branches.
use multicore_oo_o_sim.Base.{
  ℕ, ◌≡◌, refl, ap, sym, ◌∙◌, arith, Bool, true, false, Option, none, some, List, [], ◌∷◌, ◌==◌,
  ◌&&◌, update_self, Result, throw, ok, ok-injective, not,
}
use multicore_oo_o_sim.Predictor.YehPatt.{Branch}
use multicore_oo_o_sim.Predictor.Hybrid.{
  Pending, Hybrid, predict, train, trained, consumed, sub_predictions, emplaced,
}

-- A prediction of a branch, or the outcome of one.
pub data Event : Type 0 where
  predicted : Branch → Event
  resolved : Branch → Event

abbrev pub branch_of : Event → Branch
branch_of (predicted b) = b
branch_of (resolved b) = b

-- None of the events is of the branch with this number.
abbrev pub others : ℕ → List Event → Bool
others n [] = true
others n (e ∷ es) = not ((branch_of e).inst_num == n) && others n es

-- A prediction or an outcome; where an assertion fails the run ends.
unfoldable pub replay : List Event → Hybrid → Result Hybrid
replay [] y = ok y
replay (predicted b ∷ es) y = elim (predict b y) [ throw ↦ throw | ok (taken, z) ↦ replay es z ]
replay (resolved b ∷ es) y = elim (train b y) [ throw ↦ throw | ok z ↦ replay es z ]

pending-predict :
    (n : ℕ) (b : Branch) (y : Hybrid) (taken : Bool) (z : Hybrid)
    → b.inst_num == n ≡ false
    → predict b y ≡ ok (taken, z)
    → z.pending n ≡ y.pending n
unfolding predict
pending-predict n b y taken z h e = at_entry (y.pending b.inst_num) e
  where
    at_entry :
        (o : Option Pending)
        → emplaced o (sub_predictions b y) b y ≡ ok (taken, z)
        → z.pending n ≡ y.pending n
    at_entry none e =
        sym (ap (λ (r : Bool × Hybrid). r.1.pending n) (ok-injective e)) ∙ ground arith
    at_entry (some waiting) e = absurd cc

pending-train :
    (n : ℕ) (b : Branch) (y z : Hybrid)
    → b.inst_num == n ≡ false
    → train b y ≡ ok z
    → z.pending n ≡ y.pending n
unfolding train
pending-train n b y z h e = at_entry (y.pending b.inst_num) e
  where
    at_entry : (o : Option Pending) → consumed o b y ≡ ok z → z.pending n ≡ y.pending n
    at_entry none e = absurd cc
    at_entry (some p) e = sym (ap (λ (x : Hybrid). x.pending n) (ok-injective e)) ∙ ground arith

pending-replay :
    (n : ℕ) (es : List Event) (y z : Hybrid)
    → others n es ≡ true
    → replay es y ≡ ok z
    → z.pending n ≡ y.pending n
unfolding replay
pending-replay n [] y z h e = sym (ap (λ (x : Hybrid). x.pending n) (ok-injective e))
pending-replay n (predicted b ∷ es) y z h e =
    at_answer (predict b y) refl (λ x e. pending-replay n es x z (ground arith) e) e
  where
    at_answer :
        (r : Result (Bool × Hybrid))
        → predict b y ≡ r
        → ((x : Hybrid) → replay es x ≡ ok z → z.pending n ≡ x.pending n)
        → elim r [ throw ↦ throw | ok (taken, z) ↦ replay es z ] ≡ ok z
        → z.pending n ≡ y.pending n
    at_answer throw t again e = absurd cc
    at_answer (ok (taken, x)) t again e = again x e ∙ pending-predict n b y taken x (ground arith) t
pending-replay n (resolved b ∷ es) y z h e =
    at_outcome (train b y) refl (λ x e. pending-replay n es x z (ground arith) e) e
  where
    at_outcome :
        (r : Result Hybrid)
        → train b y ≡ r
        → ((x : Hybrid) → replay es x ≡ ok z → z.pending n ≡ x.pending n)
        → elim r [ throw ↦ throw | ok z ↦ replay es z ] ≡ ok z
        → z.pending n ≡ y.pending n
    at_outcome throw t again e = absurd cc
    at_outcome (ok x) t again e = again x e ∙ pending-train n b y x (ground arith) t

stored :
    (b : Branch) (y : Hybrid) (taken : Bool) (x : Hybrid)
    → predict b y ≡ ok (taken, x)
    → x.pending b.inst_num ≡ some (sub_predictions b y)
unfolding predict
stored b y taken x e = at_entry (y.pending b.inst_num) e
  where
    at_entry :
        (o : Option Pending)
        → emplaced o (sub_predictions b y) b y ≡ ok (taken, x)
        → x.pending b.inst_num ≡ some (sub_predictions b y)
    at_entry none e =
        sym (ap (λ (r : Bool × Hybrid). r.1.pending b.inst_num) (ok-injective e))
        ∙ update_self y.pending b.inst_num (some (sub_predictions b y))
    at_entry (some waiting) e = absurd cc

-- After a branch was predicted, where no assertion failed, and any other branches were predicted and
-- resolved, its outcome trains the predictor with the two predictions that were made for it.
pub train_remembers :
    (b : Branch) (es : List Event) (y : Hybrid) (taken : Bool) (x z : Hybrid)
    → predict b y ≡ ok (taken, x)
    → others b.inst_num es ≡ true
    → replay es x ≡ ok z
    → train b z ≡ ok (trained b (sub_predictions b y) z)
unfolding train
train_remembers b es y taken x z p h e =
    ap (λ o. consumed o b z) (pending-replay b.inst_num es x z h e ∙ stored b y taken x p)

-- ===== src/Ooo/Rob/Order.antt =====
-- src/ooo/rob.cpp: the reorder buffer as its users drive it, and the order in which it retires.
use multicore_oo_o_sim.Base.{
  ℕ, ◌<◌, ◌≡◌, refl, sym, ap, ◌∙◌, List, [], ◌∷◌, ◌++◌, if◌then◌else◌, if-cases,
}
use mathlib.Core.List.{append_assoc}
use multicore_oo_o_sim.Ooo.Rob.{
  Rob, RobEntry, make, allocate, head_entry, retire_head, full, empty, set_ready,
}
use multicore_oo_o_sim.Ooo.Rob.Tags.{
  IsValid, tags, allocate-IsValid, retire_head-IsValid, set_ready-IsValid, make-IsValid,
  tags-allocate, tags-retire_head, tags-set_ready,
}

-- What happens to a buffer from outside: the dispatch stage adds an entry, the retire stage takes the
-- oldest off, and the execute stage completes one. The stages ask `full` and `empty` first.
pub data RobOp : Type 0 where
  dispatch : RobEntry → RobOp
  retire : RobOp
  complete : ℕ → RobOp

pub record Log : Type 0 where
  pub accepted : List ℕ
  pub retired : List ℕ
  pub rob : Rob

abbrev pub rob_step : RobOp → Log → Log
rob_step (dispatch e) l = if full l.rob then l else (record {
  accepted = l.accepted ++ e.dest_tag ∷ [];
  retired = l.retired;
  rob = (allocate e l.rob).1;
})
rob_step retire l = if empty l.rob then l else (record {
  accepted = l.accepted;
  retired = l.retired ++ (head_entry l.rob).dest_tag ∷ [];
  rob = retire_head l.rob;
})
rob_step (complete i) l = record l { rob = set_ready i l.rob }

abbrev pub rob_run : List RobOp → Log → Log
rob_run [] l = l
rob_run (o ∷ os) l = rob_run os (rob_step o l)

-- A log is in order when what has been accepted is what has been retired, then what is in flight.
pub record InOrder (l : Log) : Type 0 where
  pub valid : IsValid l.rob
  pub order : l.accepted ≡ l.retired ++ tags l.rob

pub rob_step-InOrder : (o : RobOp) (l : Log) → InOrder l → InOrder (rob_step o l)
rob_step-InOrder (dispatch e) l v =
    if-cases InOrder (full l.rob) _ _ (λ p. v)
      (λ p. record {
        valid = allocate-IsValid l.rob e v.valid p;
        order =
            ap (λ t. t ++ e.dest_tag ∷ []) v.order
            ∙ append_assoc l.retired (tags l.rob) (e.dest_tag ∷ [])
            ∙ ap (l.retired ++◌) (sym (tags-allocate l.rob e v.valid p));
      })
rob_step-InOrder retire l v =
    if-cases InOrder (empty l.rob) _ _ (λ p. v)
      (λ p. record {
        valid = retire_head-IsValid l.rob v.valid p;
        order =
            v.order
            ∙ ap (l.retired ++◌) (sym (tags-retire_head l.rob v.valid p))
            ∙ sym (
                append_assoc l.retired ((head_entry l.rob).dest_tag ∷ [])
                  (tags (retire_head l.rob)));
      })
rob_step-InOrder (complete i) l v = record {
  valid = set_ready-IsValid i l.rob v.valid;
  order = v.order ∙ ap (l.retired ++◌) (sym (tags-set_ready i l.rob));
}

run-InOrder : (os : List RobOp) (l : Log) → InOrder l → InOrder (rob_run os l)
run-InOrder [] l v = v
run-InOrder (o ∷ os) l v = run-InOrder os (rob_step o l) (rob_step-InOrder o l v)

-- A buffer fresh from the constructor.
abbrev pub started : ℕ → Log
started capacity = record { accepted = []; retired = []; rob = make capacity }

started-InOrder : (capacity : ℕ) → 0 < capacity → InOrder (started capacity)
unfolding make
started-InOrder capacity h = record { valid = make-IsValid capacity h; order = refl }

-- Whatever a buffer with room for an entry is asked to do from its construction on (to take an entry, which it
-- does unless it is full, to retire its head, which it does unless it is empty, and to complete an
-- entry), the tags that it has accepted are, in order, those that it has retired, then those in
-- flight from its head on; and its counters stay within its array.
pub retires_oldest_first :
    (capacity : ℕ) (os : List RobOp) → 0 < capacity → InOrder (rob_run os (started capacity))
retires_oldest_first capacity os h = run-InOrder os (started capacity) (started-InOrder capacity h)

-- ===== src/Ooo/Rob.antt =====
-- include/comparch/ooo/rob.hpp and src/ooo/rob.cpp: the reorder buffer, a circular array of entries.
pub mod Tags
pub mod Order
mod Tests
use multicore_oo_o_sim.Base.{
  ℕ, ◌+◌, ◌-◌, ◌%◌, Bool, true, false, Option, none, List, [], ◌∷◌, ◌==◌, get_or, set, replicate,
}
use multicore_oo_o_sim.Ooo.Inst.{Inst, blank_inst}

pub record RobEntry : Type 0 where
  pub ready : Bool
  pub dest_reg : Option ℕ
  pub dest_tag : ℕ
  pub inst : Inst

abbrev pub blank_entry : RobEntry
blank_entry = record { ready = false; dest_reg = none; dest_tag = 0; inst = blank_inst }

pub record Rob : Type 0 where
  pub entries : List RobEntry
  pub capacity : ℕ
  pub head : ℕ
  pub tail : ℕ
  pub count : ℕ

unfoldable pub make : ℕ → Rob
make capacity = record {
  entries = replicate capacity blank_entry;
  capacity = capacity;
  head = 0;
  tail = 0;
  count = 0;
}

-- The index of the new entry, and the buffer. The caller has asked `full`.
unfoldable pub allocate : RobEntry → Rob → ℕ × Rob
allocate e r = (
  r.tail,
  record r {
    entries = set r.entries r.tail e;
    tail = (r.tail + 1) % r.capacity;
    count = r.count + 1;
  },
)

abbrev pub entry : Rob → ℕ → RobEntry
entry r i = get_or r.entries i blank_entry

abbrev pub head_entry : Rob → RobEntry
head_entry r = entry r r.head

-- The caller has asked `empty`, so that the count does not go below 0.
unfoldable pub retire_head : Rob → Rob
retire_head r = record r { head = (r.head + 1) % r.capacity; count = r.count - 1 }

abbrev pub full : Rob → Bool
full r = r.count == r.capacity

abbrev pub empty : Rob → Bool
empty r = r.count == 0

-- What the execute stage does through `operator[]`: it sets the flag of one entry.
unfoldable pub set_ready : ℕ → Rob → Rob
set_ready i r = record r { entries = set r.entries i (record (entry r i) { ready = true }) }

-- ===== src/Ooo/Classify/Operands.antt =====
-- src/ooo/inst.cpp: the operands of a classified record.
use multicore_oo_o_sim.Base.{
  ℕ, ◌≡◌, refl, arith, Bool, true, false, Option, none, some, List, [], ◌∷◌, ◌==◌, not,
  if◌then◌else◌,
}
use multicore_oo_o_sim.Trace.Format.{Record}
use multicore_oo_o_sim.Ooo.Inst.{Inst, Opcode, alu, mul, load, store, branch}
use multicore_oo_o_sim.Ooo.Classify.{first_nonzero_reg, second_from, classify}

-- The entries of a list of registers that are in use, and the one at a place.
abbrev pub in_use : List ℕ → List ℕ
in_use [] = []
in_use (r ∷ rs) = if r == 0 then in_use rs else r ∷ in_use rs

abbrev pub first : List ℕ → Option ℕ
first [] = none
first (r ∷ rs) = some r

abbrev pub second : List ℕ → Option ℕ
second [] = none
second (r ∷ rs) = first rs

first_nonzero_reg_lem : (l : List ℕ) → first_nonzero_reg l ≡ first (in_use l)
unfolding first_nonzero_reg
first_nonzero_reg_lem [] = refl
first_nonzero_reg_lem (r ∷ rs) = ground (arith, first_nonzero_reg_lem rs)

second_from-true : (l : List ℕ) → second_from true l ≡ first (in_use l)
unfolding second_from
second_from-true [] = refl
second_from-true (r ∷ rs) = ground (arith, second_from-true rs)

second_from_lem : (l : List ℕ) → second_from false l ≡ second (in_use l)
unfolding second_from
second_from_lem [] = refl
second_from_lem (r ∷ rs) = ground (arith, second_from_lem rs, second_from-true rs)

abbrev pub accesses_memory : Opcode → Bool
accesses_memory alu = false
accesses_memory mul = false
accesses_memory load = true
accesses_memory store = true
accesses_memory branch = false

-- What the back end needs to know of an instruction from a record without a synchronisation token.
pub record HasOperands (rec : Record) (inst : Inst) : Type 0 where
  pub written : inst.dest ≡ first (in_use rec.destination_registers)
  pub read_first : inst.src1 ≡ first (in_use rec.source_registers)
  pub read_second : inst.src2 ≡ second (in_use rec.source_registers)
  pub addressed : accesses_memory inst.opcode ≡ not (inst.mem_addr == 0)

-- A record without a synchronisation token becomes an instruction that writes the first of the record's
-- destination registers in use and reads the first two of its source registers in use, and that
-- has an address exactly if it is a load or a store.
pub classify-HasOperands :
    (rec : Record) (dyn_count : ℕ)
    → rec.sync_token ≡ none
    → HasOperands rec (classify rec dyn_count)
unfolding classify
classify-HasOperands rec dyn_count h = rw h (record {
  written = first_nonzero_reg_lem rec.destination_registers;
  read_first = first_nonzero_reg_lem rec.source_registers;
  read_second = second_from_lem rec.source_registers;
  addressed = ground arith;
})

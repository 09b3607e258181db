-- ===== src/Ooo/SchedQ.antt =====
-- include/comparch/ooo/schedq.hpp and src/ooo/schedq.cpp: the scheduling queue.
use multicore_oo_o_sim.Base.{
  ℕ, Bool, true, false, List, [], ◌∷◌, ◌++◌, map, ◌==◌, if◌then◌else◌, leb, length,
}
use multicore_oo_o_sim.Ooo.Inst.{Inst}

pub record SrcOperand : Type 0 where
  pub tag : ℕ
  pub ready : Bool

pub record SchedEntry : Type 0 where
  pub inst : Inst
  pub src1 : SrcOperand
  pub src2 : SrcOperand
  pub dest_tag : ℕ
  pub rob_idx : ℕ
  pub busy : Bool

pub record SchedQ : Type 0 where
  pub entries : List SchedEntry
  pub capacity : ℕ

abbrev pub make : ℕ → SchedQ
make capacity = record { entries = []; capacity = capacity }

abbrev pub full : SchedQ → Bool
full q = leb q.capacity (length q.entries)

abbrev pub push_back : SchedEntry → SchedQ → SchedQ
push_back e q = record q { entries = q.entries ++ e ∷ [] }

-- The first entry with the tag is left out.
unfoldable pub erase_first : ℕ → List SchedEntry → List SchedEntry
erase_first t [] = []
erase_first t (e ∷ es) = if e.dest_tag == t then es else e ∷ erase_first t es

unfoldable pub has_tag : ℕ → List SchedEntry → Bool
has_tag t [] = false
has_tag t (e ∷ es) = if e.dest_tag == t then true else has_tag t es

abbrev pub erase_by_tag : ℕ → SchedQ → Bool × SchedQ
erase_by_tag t q = (has_tag t q.entries, record q { entries = erase_first t q.entries })

unfoldable pub wake_operand : ℕ → SrcOperand → SrcOperand
wake_operand t s = if s.tag == t then (record s { ready = true }) else s

abbrev pub wake : ℕ → SchedEntry → SchedEntry
wake t e = record e { src1 = wake_operand t e.src1; src2 = wake_operand t e.src2 }

abbrev pub wake_dependents : ℕ → SchedQ → SchedQ
wake_dependents t q = record q { entries = map (wake t) q.entries }

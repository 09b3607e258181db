-- ===== src/Ooo/Rat.antt =====
-- include/comparch/ooo/rat.hpp and src/ooo/rat.cpp: the register alias table.
use multicore_oo_o_sim.Base.{
  ℕ, zero, suc, ◌+◌, Bool, true, false, Option, none, some, List, [], ◌∷◌, map, ◌==◌, if◌then◌else◌,
  get_or, set, inc64,
}

pub record RatEntry : Type 0 where
  pub tag : ℕ
  pub ready : Bool

-- What a register that is not there reads as.
abbrev pub no_entry : RatEntry
no_entry = record { tag = 0; ready = true }

abbrev pub num_arch_regs : ℕ
num_arch_regs = 256

pub record Rat : Type 0 where
  pub entries : List RatEntry
  pub next_tag : ℕ

-- Entries for `n` registers from register `i` on.
unfoldable pub seeded : ℕ → ℕ → List RatEntry
seeded i zero = []
seeded i (suc n) = record { tag = i + 1; ready = true } ∷ seeded (suc i) n

unfoldable pub make : Rat
make = record { entries = seeded 0 num_arch_regs; next_tag = num_arch_regs + 1 }

abbrev pub register : Rat → ℕ → RatEntry
register t r = get_or t.entries r no_entry

unfoldable pub read : Option ℕ → Rat → RatEntry
read none t = no_entry
read (some r) t = register t r

unfoldable pub write_use : Option ℕ → ℕ → Rat → Rat
write_use none tag t = t
write_use (some r) tag t = record t {
  entries = set t.entries r (record { tag = tag; ready = false });
}

unfoldable pub mark_complete : Option ℕ → ℕ → Rat → Rat
mark_complete none tag t = t
mark_complete (some r) tag t =
    if (register t r).tag == tag
    then (record t { entries = set t.entries r (record (register t r) { ready = true }) })
    else t

abbrev pub readied : RatEntry → RatEntry
readied e = record e { ready = true }

unfoldable pub flush_to_ready : Rat → Rat
flush_to_ready t = record t { entries = map readied t.entries }

unfoldable pub allocate_tag : Rat → ℕ × Rat
allocate_tag t = (t.next_tag, record t { next_tag = inc64 t.next_tag })

-- ===== src/Ooo/Core/Wakeup.antt =====
-- src/ooo/core.cpp, src/ooo/schedq.cpp: who will wake what waits. Tests on a queue, and how its
-- operations change them.
use multicore_oo_o_sim.Base.{
  ℕ, ◌+◌, ◌≤◌, ◌<◌, ◌≡◌, ◌≢◌, refl, ap, Bool, true, false, ◌&&◌, ◌||◌, Option, none, some, List, [],
  ◌∷◌, ◌++◌, map, arith, ◌==◌, if◌then◌else◌, ltb, leb,
}
use mathlib.Core.List.{Memᴰ}
use multicore_oo_o_sim.Ooo.Rat.{RatEntry}
use multicore_oo_o_sim.Ooo.SchedQ.{SchedEntry, SrcOperand, erase_first, has_tag, wake}

abbrev pub is_reg : ℕ → Option ℕ → Bool
is_reg r none = false
is_reg r (some q) = q == r

-- Some entry has the tag and writes the register.
abbrev pub writes : ℕ → ℕ → List SchedEntry → Bool
writes t r [] = false
writes t r (e ∷ es) = ((e.dest_tag == t) && is_reg r e.inst.dest) || writes t r es

-- The tags increase along the queue, and lie between two bounds.
abbrev pub ascending : ℕ → List SchedEntry → ℕ → Bool
ascending lo [] hi = leb lo hi
ascending lo (e ∷ es) hi = leb lo e.dest_tag && ascending (e.dest_tag + 1) es hi

-- An operand of an instruction is ready, or waits for an older one in the queue.
abbrev pub source_ok : List SchedEntry → ℕ → SrcOperand → Bool
source_ok q tag s = s.ready || (has_tag s.tag q && ltb s.tag tag)

abbrev pub sources_ok : List SchedEntry → List SchedEntry → Bool
sources_ok q [] = true
sources_ok q (e ∷ es) =
    source_ok q e.dest_tag e.src1 && (source_ok q e.dest_tag e.src2 && sources_ok q es)

-- A register is ready, or an instruction in the queue is to write it.
abbrev pub register_ok : List SchedEntry → ℕ → RatEntry → Bool
register_ok q r e = e.ready || writes e.tag r q

pub has_tag-bounds :
    (t lo : ℕ) (q : List SchedEntry) (hi : ℕ)
    → ascending lo q hi ≡ true
    → has_tag t q ≡ true
    → (lo ≤ t) × (t < hi)
unfolding has_tag
has_tag-bounds t lo [] hi a h = cc
has_tag-bounds t lo (e ∷ es) hi a h =
    ground (arith, has_tag-bounds t (e.dest_tag + 1) es hi, ascending_le (e.dest_tag + 1) es hi)
  where
    ascending_le : (lo : ℕ) (q : List SchedEntry) (hi : ℕ) → ascending lo q hi ≡ true → lo ≤ hi
    ascending_le lo [] hi a = ground arith
    ascending_le lo (e ∷ es) hi a = ground (arith, ascending_le (e.dest_tag + 1) es hi)

pub writes-has_tag : (t r : ℕ) (q : List SchedEntry) → writes t r q ≡ true → has_tag t q ≡ true
unfolding has_tag
writes-has_tag t r [] h = cc
writes-has_tag t r (e ∷ es) h = ground (arith, writes-has_tag t r es)

pub ascending-weaken :
    (lo lo' : ℕ) (q : List SchedEntry) (hi : ℕ)
    → lo' ≤ lo
    → ascending lo q hi ≡ true
    → ascending lo' q hi ≡ true
ascending-weaken lo lo' [] hi l a = ground arith
ascending-weaken lo lo' (e ∷ es) hi l a = ground arith

pub ascending-append :
    (lo : ℕ) (q : List SchedEntry) (hi : ℕ) (e : SchedEntry)
    → e.dest_tag ≡ hi
    → ascending lo q hi ≡ true
    → ascending lo (q ++ e ∷ []) (hi + 1) ≡ true
ascending-append lo [] hi e p a = ground arith
ascending-append lo (x ∷ xs) hi e p a = ground (arith, ascending-append (x.dest_tag + 1) xs hi e)

pub ascending-erase :
    (lo : ℕ) (q : List SchedEntry) (hi t : ℕ)
    → ascending lo q hi ≡ true
    → ascending lo (erase_first t q) hi ≡ true
unfolding erase_first
ascending-erase lo [] hi t a = a
ascending-erase lo (x ∷ xs) hi t a =
    ground
      (arith, ascending-erase (x.dest_tag + 1) xs hi t, ascending-weaken (x.dest_tag + 1) lo xs hi)

pub ascending-wake :
    (lo : ℕ) (q : List SchedEntry) (hi t : ℕ) → ascending lo (map (wake t) q) hi ≡ ascending lo q hi
ascending-wake lo [] hi t = refl
ascending-wake lo (x ∷ xs) hi t =
    ap (leb lo x.dest_tag &&◌) (ascending-wake (x.dest_tag + 1) xs hi t)

pub has_tag-wake : (u t : ℕ) (q : List SchedEntry) → has_tag u (map (wake t) q) ≡ has_tag u q
unfolding has_tag
has_tag-wake u t [] = refl
has_tag-wake u t (x ∷ xs) = ap (λ b. if x.dest_tag == u then true else b) (has_tag-wake u t xs)

pub writes-wake : (u r t : ℕ) (q : List SchedEntry) → writes u r (map (wake t) q) ≡ writes u r q
writes-wake u r t [] = refl
writes-wake u r t (x ∷ xs) =
    ap (((x.dest_tag == u) && is_reg r x.inst.dest) ||◌) (writes-wake u r t xs)

pub has_tag-erase :
    (u t : ℕ) (q : List SchedEntry) → u ≢ t → has_tag u (erase_first t q) ≡ has_tag u q
unfolding has_tag erase_first
has_tag-erase u t [] n = refl
has_tag-erase u t (x ∷ xs) n = ground (arith, has_tag-erase u t xs)

pub writes-erase :
    (u r t : ℕ) (q : List SchedEntry) → u ≢ t → writes u r (erase_first t q) ≡ writes u r q
unfolding erase_first
writes-erase u r t [] n = refl
writes-erase u r t (x ∷ xs) n = ground (arith, writes-erase u r t xs)

pub has_tag-append :
    (u : ℕ) (q : List SchedEntry) (e : SchedEntry)
    → has_tag u q ≡ true
    → has_tag u (q ++ e ∷ []) ≡ true
unfolding has_tag
has_tag-append u [] e h = cc
has_tag-append u (x ∷ xs) e h = ground (arith, has_tag-append u xs e)

pub writes-append :
    (u r : ℕ) (q : List SchedEntry) (e : SchedEntry)
    → writes u r (q ++ e ∷ []) ≡ writes u r q || ((e.dest_tag == u) && is_reg r e.inst.dest)
writes-append u r [] e = ground arith
writes-append u r (x ∷ xs) e = ground (arith, writes-append u r xs e)

pub has_tag-Mem : (s : SchedEntry) (q : List SchedEntry) → Memᴰ s q → has_tag s.dest_tag q ≡ true
unfolding has_tag
has_tag-Mem s [] m = elim m [ ]
has_tag-Mem s (x ∷ xs) (Memᴰ.head p) =
    let same : s.dest_tag ≡ x.dest_tag = ap (λ e. e.dest_tag) p in ground arith
has_tag-Mem s (x ∷ xs) (Memᴰ.tail m) = ground (arith, has_tag-Mem s xs m)

-- The tag of an entry leads to it alone.
pub writes-Mem :
    (s : SchedEntry) (r lo : ℕ) (q : List SchedEntry) (hi : ℕ)
    → ascending lo q hi ≡ true
    → Memᴰ s q
    → writes s.dest_tag r q ≡ true
    → is_reg r s.inst.dest ≡ true
writes-Mem s r lo [] hi a m w = elim m [ ]
writes-Mem s r lo (x ∷ xs) hi a (Memᴰ.head p) w =
    let same : s.dest_tag ≡ x.dest_tag = ap (λ e. e.dest_tag) p in
    let dest : is_reg r s.inst.dest ≡ is_reg r x.inst.dest = ap (λ e. is_reg r e.inst.dest) p in
    ground (arith, has_tag-bounds s.dest_tag (x.dest_tag + 1) xs hi, writes-has_tag s.dest_tag r xs)
writes-Mem s r lo (x ∷ xs) hi a (Memᴰ.tail m) w = ground (
  arith,
  has_tag-bounds s.dest_tag (x.dest_tag + 1) xs hi,
  has_tag-Mem s xs m,
  writes-Mem s r (x.dest_tag + 1) xs hi,
  m,
)

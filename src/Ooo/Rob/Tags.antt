-- ===== src/Ooo/Rob/Tags.antt =====
-- src/ooo/rob.cpp: the tags in flight, oldest first, and what each operation makes of them.
use multicore_oo_o_sim.Base.{
  ℕ, zero, suc, ◌+◌, ◌-◌, ◌%◌, ◌≤◌, ◌<◌, ◌≡◌, ◌≢◌, refl, ap, ap₂, ◌∙◌, true, false, List, [], ◌∷◌,
  ◌++◌, arith, length, get_or, set, length-set, length-replicate, get_or-set_self, get_or-set_ne,
  sym, subst,
}
use native.Mathlib.Nat.{mod-lt, mod-add-mod, mod-eq_of_lt, mod-eq-sub-mod}
use native.Mathlib.Decide.{dec_lt}
use multicore_oo_o_sim.Ooo.Rob.{
  Rob, RobEntry, blank_entry, make, allocate, entry, head_entry, retire_head, full, empty,
  set_ready,
}

abbrev pub tag_at : Rob → ℕ → ℕ
tag_at r i = (entry r i).dest_tag

-- The tags of `n` entries from index `i` on, round the array.
abbrev pub tags_from : Rob → ℕ → ℕ → List ℕ
tags_from r i zero = []
tags_from r i (suc n) = tag_at r (i % r.capacity) ∷ tags_from r (suc i) n

-- The tags in flight, oldest first.
abbrev pub tags : Rob → List ℕ
tags r = tags_from r r.head r.count

pub record IsValid (r : Rob) : Type 0 where
  pub sized : length r.entries ≡ r.capacity
  pub some_room : 0 < r.capacity
  pub head_in : r.head < r.capacity
  pub fits : r.count ≤ r.capacity
  pub tail_at : r.tail ≡ (r.head + r.count) % r.capacity

-- Steps round an array of `c` slots that are fewer than `c` do not lead back.
step_differs : (c a d : ℕ) → 0 < d → d < c → (a + d) % c ≢ a % c
step_differs c a d pos dc e =
    let r = a % c in
    let below : r < c = mod-lt a (omega arith) in
    let moved : (r + d) % c ≡ r = mod-add-mod a c d ∙ e in
    elim (dec_lt (r + d) c) [
      | yes p ↦ omega (arith, moved, mod-eq_of_lt p)
      | no p ↦ omega (
        arith,
        moved,
        mod-eq-sub-mod {n = r + d} {m = c} (omega arith),
        mod-eq_of_lt {n = r + d - c} {m = c} (omega arith),
      )
    ]

next_slot : (c i j : ℕ) → i % c ≡ j % c → suc i % c ≡ suc j % c
next_slot c i j e =
    let from_i : suc i % c ≡ (i % c + 1) % c =
      ap (λ t. t % c) (omega arith) ∙ sym (mod-add-mod i c 1) in
    let from_j : (j % c + 1) % c ≡ suc j % c = mod-add-mod j c 1 ∙ ap (λ t. t % c) (omega arith) in
    from_i ∙ (ap (λ t. (t + 1) % c) e ∙ from_j)

tags_from-mod :
    (r : Rob) (i j n : ℕ) → i % r.capacity ≡ j % r.capacity → tags_from r i n ≡ tags_from r j n
tags_from-mod r i j zero e = refl
tags_from-mod r i j (suc n) e =
    ap₂ ◌∷◌ (ap (tag_at r) e) (tags_from-mod r (suc i) (suc j) n (next_slot r.capacity i j e))

-- Two buffers with the same tags in the slots concerned have the same tags in flight.
tags_from-agree :
    (r q : Rob) (i n : ℕ)
    → q.capacity ≡ r.capacity
    → ((k : ℕ) → k < n → tag_at q ((i + k) % r.capacity) ≡ tag_at r ((i + k) % r.capacity))
    → tags_from q i n ≡ tags_from r i n
tags_from-agree r q i zero c same = refl
tags_from-agree r q i (suc n) c same =
    ap₂ ◌∷◌ (ap (λ t. tag_at q (i % t)) c ∙ slots_agree) (tags_from-agree r q (suc i) n c later)
  where
    slots_agree : tag_at q (i % r.capacity) ≡ tag_at r (i % r.capacity)
    slots_agree =
        let z : i + 0 ≡ i = omega arith in
        let at_0 : tag_at q ((i + 0) % r.capacity) ≡ tag_at r ((i + 0) % r.capacity) =
          same 0 (omega arith) in
        subst (λ t. tag_at q (t % r.capacity) ≡ tag_at r (t % r.capacity)) z at_0

    later :
        (k : ℕ) → k < n → tag_at q ((suc i + k) % r.capacity) ≡ tag_at r ((suc i + k) % r.capacity)
    later k h =
        let z : i + suc k ≡ suc i + k = omega arith in
        subst (λ t. tag_at q (t % r.capacity) ≡ tag_at r (t % r.capacity)) z
          (same (suc k) (omega arith))

tags_from-snoc :
    (r : Rob) (i n : ℕ)
    → tags_from r i (suc n) ≡ tags_from r i n ++ tag_at r ((i + n) % r.capacity) ∷ []
tags_from-snoc r i zero = ap (λ t. tag_at r (t % r.capacity) ∷ []) (omega arith)
tags_from-snoc r i (suc n) =
    ap (λ l. tag_at r (i % r.capacity) ∷ l)
      (tags_from-snoc r (suc i) n
        ∙ ap (λ t. tags_from r (suc i) n ++ tag_at r (t % r.capacity) ∷ []) (omega arith))

pub allocate-IsValid :
    (r : Rob) (e : RobEntry) → IsValid r → full r ≡ false → IsValid (allocate e r).1
unfolding allocate
allocate-IsValid r e v f = record {
  sized = ground (arith, length-set r.entries r.tail e);
  some_room = v.some_room;
  head_in = v.head_in;
  fits = ground arith;
  tail_at =
      rw v.tail_at
        (mod-add-mod (r.head + r.count) r.capacity 1 ∙ ap (λ t. t % r.capacity) (omega arith));
}

pub retire_head-IsValid : (r : Rob) → IsValid r → empty r ≡ false → IsValid (retire_head r)
unfolding retire_head
retire_head-IsValid r v f = record {
  sized = v.sized;
  some_room = v.some_room;
  head_in = mod-lt (r.head + 1) v.some_room;
  fits = ground arith;
  tail_at =
      v.tail_at
      ∙ ap (λ t. t % r.capacity) (ground arith)
      ∙ sym (mod-add-mod (r.head + 1) r.capacity (r.count - 1));
}

-- An entry goes in at the end of those in flight.
pub tags-allocate :
    (r : Rob) (e : RobEntry)
    → IsValid r
    → full r ≡ false
    → tags (allocate e r).1 ≡ tags r ++ e.dest_tag ∷ []
unfolding allocate
tags-allocate r e v f =
    ap (tags_from q r.head) one_more
    ∙ tags_from-snoc q r.head r.count
    ∙ ap₂ (λ xs t. xs ++ t ∷ []) (tags_from-agree r q r.head r.count refl kept) new
  where
    q : Rob
    q = (allocate e r).1

    one_more : r.count + 1 ≡ suc r.count
    one_more = omega arith

    new : tag_at q ((r.head + r.count) % r.capacity) ≡ e.dest_tag
    new =
        ap (tag_at q) (sym v.tail_at)
        ∙ ap (λ x. x.dest_tag)
            (get_or-set_self r.entries r.tail e blank_entry
              (omega (arith, v.sized, v.tail_at, mod-lt (r.head + r.count) v.some_room)))

    apart : (k : ℕ) → k < r.count → r.tail ≢ (r.head + k) % r.capacity
    apart k h p =
        step_differs r.capacity (r.head + k) (r.count - k) (omega arith) (ground arith)
          (ap (λ t. t % r.capacity) (omega arith) ∙ sym v.tail_at ∙ p)

    kept :
        (k : ℕ)
        → k < r.count
        → tag_at q ((r.head + k) % r.capacity) ≡ tag_at r ((r.head + k) % r.capacity)
    kept k h =
        ap (λ x. x.dest_tag)
          (get_or-set_ne r.entries r.tail ((r.head + k) % r.capacity) e blank_entry (apart k h))

-- What leaves is the oldest.
pub tags-retire_head :
    (r : Rob)
    → IsValid r
    → empty r ≡ false
    → (head_entry r).dest_tag ∷ tags (retire_head r) ≡ tags r
unfolding retire_head
tags-retire_head r v f =
    let q : Rob = retire_head r in
    let n : ℕ = r.count - 1 in
    let first : head_entry r ≡ entry r (r.head % r.capacity) =
      ap (entry r) (sym (mod-eq_of_lt v.head_in)) in
    let start : (r.head + 1) % r.capacity % r.capacity ≡ suc r.head % r.capacity =
      mod-eq_of_lt (mod-lt (r.head + 1) v.some_room) ∙ ap (λ t. t % r.capacity) (omega arith) in
    let rest : tags q ≡ tags_from r (suc r.head) n =
      tags_from-agree r q q.head n refl (λ k h. refl)
      ∙ tags_from-mod r q.head (suc r.head) n start in
    let some_left : suc n ≡ r.count = ground arith in
    ap₂ (λ x l. x.dest_tag ∷ l) first rest ∙ ap (tags_from r r.head) some_left

-- A write that keeps the observed part of its slot is not observed.
get_or-set_like :
    {A : Type 0} (f : A → ℕ) (xs : List A) (i j : ℕ) (v d : A)
    → f v ≡ f (get_or xs i d)
    → f (get_or (set xs i v) j d) ≡ f (get_or xs j d)
get_or-set_like f [] i j v d e = refl
get_or-set_like f (x ∷ xs) zero zero v d e = e
get_or-set_like f (x ∷ xs) zero (suc j) v d e = refl
get_or-set_like f (x ∷ xs) (suc i) zero v d e = refl
get_or-set_like f (x ∷ xs) (suc i) (suc j) v d e = get_or-set_like f xs i j v d e

set_ready-tag : (i j : ℕ) (r : Rob) → tag_at (set_ready i r) j ≡ tag_at r j
unfolding set_ready
set_ready-tag i j r = get_or-set_like (λ x. x.dest_tag) r.entries i j _ blank_entry refl

pub set_ready-IsValid : (i : ℕ) (r : Rob) → IsValid r → IsValid (set_ready i r)
unfolding set_ready
set_ready-IsValid i r v = record {
  sized = length-set r.entries i (record (entry r i) { ready = true }) ∙ v.sized;
  some_room = v.some_room;
  head_in = v.head_in;
  fits = v.fits;
  tail_at = v.tail_at;
}

pub tags-set_ready : (i : ℕ) (r : Rob) → tags (set_ready i r) ≡ tags r
unfolding set_ready
tags-set_ready i r =
    tags_from-agree r (set_ready i r) r.head r.count refl
      (λ k h. set_ready-tag i ((r.head + k) % r.capacity) r)

pub make-IsValid : (capacity : ℕ) → 0 < capacity → IsValid (make capacity)
unfolding make
make-IsValid capacity h = record {
  sized = length-replicate capacity blank_entry;
  some_room = h;
  head_in = h;
  fits = omega arith;
  tail_at = sym (mod-eq_of_lt h);
}

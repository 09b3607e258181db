-- ===== src/Cache/Sets/Shape.antt =====
-- src/cache/cache.cpp: the shape of a set, its size and its tags, under each change of it.
use multicore_oo_o_sim.Base.{
  ℕ, suc, ◌+◌, ◌-◌, ◌<◌, ◌≤◌, ◌≡◌, refl, ap, arith, Bool, true, false, Option, none, some, List, [],
  ◌∷◌, ◌++◌, ◌&&◌, ◌||◌, not, length, length-append, leb, if-cases, subst,
}
use mathlib.Core.Option.{some-injective}
use multicore_oo_o_sim.Cache.Sets.{
  TagMeta, Replacement, lru_mip, lru_lip, matches, is_in, find_block, remove, to_front, write_dirty,
  pop_back, make_room, place,
}

-- Every block is valid, and no two have the same tag.
abbrev pub distinct : List TagMeta → Bool
distinct [] = true
distinct (b ∷ bs) = b.valid && (not (is_in b.tag bs) && distinct bs)

-- What a set keeps: its size within the associativity, its tags apart.
abbrev pub set_ok : ℕ → List TagMeta → Bool
set_ok assoc set = leb (length set) assoc && distinct set

is_in-remove : (t u : ℕ) (l : List TagMeta) → is_in t l ≡ false → is_in t (remove u l) ≡ false
unfolding is_in remove
is_in-remove t u [] h = refl
is_in-remove t u (b ∷ bs) h = ground (arith, is_in-remove t u bs)

pub distinct-remove : (t : ℕ) (l : List TagMeta) → distinct l ≡ true → distinct (remove t l) ≡ true
unfolding remove is_in
distinct-remove t [] h = h
distinct-remove t (b ∷ bs) h = ground (arith, distinct-remove t bs, is_in-remove b.tag t bs)

pub removed : (t : ℕ) (l : List TagMeta) → distinct l ≡ true → is_in t (remove t l) ≡ false
unfolding remove is_in
removed t [] h = refl
removed t (b ∷ bs) h = ground (arith, removed t bs)

pub length-remove_found :
    (t : ℕ) (l : List TagMeta) → is_in t l ≡ true → suc (length (remove t l)) ≡ length l
unfolding is_in remove
length-remove_found t [] h = cc
length-remove_found t (b ∷ bs) h = ground (arith, length-remove_found t bs)

pub length-remove : (t : ℕ) (l : List TagMeta) → length (remove t l) ≤ length l
unfolding remove
length-remove t [] = omega arith
length-remove t (b ∷ bs) = ground (arith, length-remove t bs)

-- A block with the tag, put in front of what is left.
pub set_ok-to_front :
    (assoc t : ℕ) (b : TagMeta) (l : List TagMeta)
    → b.valid ≡ true
    → b.tag ≡ t
    → is_in t l ≡ true
    → set_ok assoc l ≡ true
    → set_ok assoc (to_front t b l) ≡ true
set_ok-to_front assoc t b l v e i h = ground (
  arith,
  length-remove_found t l,
  distinct-remove t l,
  removed t l,
  ap (λ u. is_in u (remove t l)) e,
)

pub find_block-is_in :
    (t : ℕ) (l : List TagMeta) (b : TagMeta)
    → find_block t l ≡ some b
    → (is_in t l ≡ true) × ((b.tag ≡ t) × (b.valid ≡ true))
unfolding find_block is_in
find_block-is_in t [] b h = cc
find_block-is_in t (x ∷ xs) b h =
    if-cases
      (λ (o : Option TagMeta).
        o ≡ some b → (matches t x || is_in t xs ≡ true) × ((b.tag ≡ t) × (b.valid ≡ true)))
      (matches t x) _ _
      (λ p q.
        let same : x ≡ b = some-injective x b q in
        subst (λ y. (matches t x || is_in t xs ≡ true) × ((y.tag ≡ t) × (y.valid ≡ true))) same
          (ground arith))
      (λ p q. let r : _ = find_block-is_in t xs b q in ground (arith, r)) h

pub find_block-absent : (t : ℕ) (l : List TagMeta) → find_block t l ≡ none → is_in t l ≡ false
unfolding find_block is_in
find_block-absent t [] h = refl
find_block-absent t (x ∷ xs) h = ground (arith, find_block-absent t xs)

pub is_in-write_dirty :
    (d : Bool) (t u : ℕ) (l : List TagMeta) → is_in u (write_dirty d t l) ≡ is_in u l
unfolding write_dirty is_in
is_in-write_dirty d t u [] = refl
is_in-write_dirty d t u (x ∷ xs) = ground (arith, is_in-write_dirty d t u xs)

length-write_dirty : (d : Bool) (t : ℕ) (l : List TagMeta) → length (write_dirty d t l) ≡ length l
unfolding write_dirty
length-write_dirty d t [] = refl
length-write_dirty d t (x ∷ xs) = ground (arith, length-write_dirty d t xs)

distinct-write_dirty :
    (d : Bool) (t : ℕ) (l : List TagMeta) → distinct (write_dirty d t l) ≡ distinct l
unfolding write_dirty
distinct-write_dirty d t [] = refl
distinct-write_dirty d t (x ∷ xs) =
    ground (arith, distinct-write_dirty d t xs, is_in-write_dirty d t x.tag xs)

pub set_ok-write_dirty :
    (assoc : ℕ) (d : Bool) (t : ℕ) (l : List TagMeta)
    → set_ok assoc (write_dirty d t l) ≡ set_ok assoc l
set_ok-write_dirty assoc d t l =
    ground (arith, length-write_dirty d t l, distinct-write_dirty d t l)

pub set_ok-remove :
    (assoc t : ℕ) (l : List TagMeta) → set_ok assoc l ≡ true → set_ok assoc (remove t l) ≡ true
set_ok-remove assoc t l h = ground (arith, length-remove t l, distinct-remove t l)

is_in-pop_back : (t : ℕ) (l : List TagMeta) → is_in t l ≡ false → is_in t (pop_back l) ≡ false
unfolding is_in pop_back
is_in-pop_back t [] h = refl
is_in-pop_back t (x ∷ []) h = refl
is_in-pop_back t (x ∷ y ∷ ys) h = ground (arith, is_in-pop_back t (y ∷ ys))

distinct-pop_back : (l : List TagMeta) → distinct l ≡ true → distinct (pop_back l) ≡ true
unfolding pop_back
distinct-pop_back [] h = h
distinct-pop_back (x ∷ []) h = refl
distinct-pop_back (x ∷ y ∷ ys) h =
    ground (arith, distinct-pop_back (y ∷ ys), is_in-pop_back x.tag (y ∷ ys))

length-pop_back : (l : List TagMeta) → length (pop_back l) ≡ length l - 1
unfolding pop_back
length-pop_back [] = refl
length-pop_back (x ∷ []) = refl
length-pop_back (x ∷ y ∷ ys) = ground (arith, length-pop_back (y ∷ ys))

is_in-snoc :
    (t : ℕ) (l : List TagMeta) (b : TagMeta) → is_in t (l ++ b ∷ []) ≡ is_in t l || matches t b
unfolding is_in
is_in-snoc t [] b = ground arith
is_in-snoc t (x ∷ xs) b = ground (arith, is_in-snoc t xs b)

distinct-snoc :
    (l : List TagMeta) (b : TagMeta)
    → distinct l ≡ true
    → is_in b.tag l ≡ false
    → b.valid ≡ true
    → distinct (l ++ b ∷ []) ≡ true
unfolding is_in
distinct-snoc [] b h i v = ground arith
distinct-snoc (x ∷ xs) b h i v = ground (arith, distinct-snoc xs b, is_in-snoc x.tag xs b)

pub room_made :
    (assoc t : ℕ) (l : List TagMeta)
    → 0 < assoc
    → is_in t l ≡ false
    → set_ok assoc l ≡ true
    → (length (make_room assoc l) < assoc)
      × ((distinct (make_room assoc l) ≡ true) × (is_in t (make_room assoc l) ≡ false))
unfolding make_room
room_made assoc t l a i h =
    ground (arith, length-pop_back l, distinct-pop_back l, is_in-pop_back t l)

length-snoc : (l : List TagMeta) (b : TagMeta) → length (l ++ b ∷ []) ≡ length l + 1
length-snoc l b = length-append l (b ∷ [])

-- A block whose tag is not there takes the place of the oldest one where the set is full.
pub set_ok-insert :
    (assoc : ℕ) (r : Replacement) (b : TagMeta) (l : List TagMeta)
    → 0 < assoc
    → b.valid ≡ true
    → is_in b.tag l ≡ false
    → set_ok assoc l ≡ true
    → set_ok assoc (place r b (make_room assoc l)) ≡ true
unfolding place make_room
set_ok-insert assoc lru_mip b l a v i h = ground (arith, room_made assoc b.tag l)
set_ok-insert assoc lru_lip b l a v i h = ground (
  arith,
  room_made assoc b.tag l,
  length-snoc (make_room assoc l) b,
  distinct-snoc (make_room assoc l) b,
)

pub is_in-insert :
    (assoc : ℕ) (r : Replacement) (b : TagMeta) (l : List TagMeta)
    → b.valid ≡ true
    → is_in b.tag (place r b (make_room assoc l)) ≡ true
unfolding place is_in
is_in-insert assoc lru_mip b l v = ground arith
is_in-insert assoc lru_lip b l v = ground (arith, is_in-snoc b.tag (make_room assoc l) b)

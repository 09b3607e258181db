-- ===== src/Cache/Sets.antt =====
-- include/comparch/cache/cache.hpp and src/cache/cache.cpp: a set of the cache, its blocks with the most
-- recent first, and what the loops over it do.
pub mod Shape
use multicore_oo_o_sim.Base.{
  ℕ, zero, suc, ◌+◌, Bool, true, false, Option, none, some, List, [], ◌∷◌, ◌++◌, ◌==◌, ◌&&◌, ◌||◌,
  not, if◌then◌else◌, length,
}

pub record TagMeta : Type 0 where
  pub block_addr : ℕ
  pub tag : ℕ
  pub dirty : Bool
  pub valid : Bool
  pub prefetched : Bool

pub data Replacement : Type 0 where
  lru_mip lru_lip : Replacement

abbrev pub matches : ℕ → TagMeta → Bool
matches tag b = (b.tag == tag) && b.valid

-- `is_in_cache`, in the set.
unfoldable pub is_in : ℕ → List TagMeta → Bool
is_in tag [] = false
is_in tag (b ∷ bs) = matches tag b || is_in tag bs

unfoldable pub find_block : ℕ → List TagMeta → Option TagMeta
find_block tag [] = none
find_block tag (b ∷ bs) = if matches tag b then some b else find_block tag bs

-- The list without the block that `find_block` finds.
unfoldable pub remove : ℕ → List TagMeta → List TagMeta
remove tag [] = []
remove tag (b ∷ bs) = if matches tag b then bs else b ∷ remove tag bs

-- `splice` of a block to the front of the list.
abbrev pub to_front : ℕ → TagMeta → List TagMeta → List TagMeta
to_front tag b set = b ∷ remove tag set

-- `find_and_promote`.
abbrev pub promote_found : ℕ → Option TagMeta → List TagMeta → List TagMeta
promote_found tag none set = set
promote_found tag (some b) set = to_front tag b set

unfoldable pub find_and_promote : ℕ → List TagMeta → List TagMeta
find_and_promote tag set = promote_found tag (find_block tag set) set

-- The loops of `coherence_set_dirty` and `coherence_clean`.
unfoldable pub write_dirty : Bool → ℕ → List TagMeta → List TagMeta
write_dirty dirty tag [] = []
write_dirty dirty tag (b ∷ bs) =
    if matches tag b then (record b { dirty = dirty }) ∷ bs else b ∷ write_dirty dirty tag bs

-- `LRU_list.back()` and `pop_back()`.
unfoldable pub back : List TagMeta → Option TagMeta
back [] = none
back (b ∷ []) = some b
back (b ∷ c ∷ bs) = back (c ∷ bs)

unfoldable pub pop_back : List TagMeta → List TagMeta
pop_back [] = []
pop_back (b ∷ []) = []
pop_back (b ∷ c ∷ bs) = b ∷ pop_back (c ∷ bs)

unfoldable pub make_room : ℕ → List TagMeta → List TagMeta
make_room assoc set = if length set == assoc then pop_back set else set

-- MIP puts a new block in front, LIP at the back.
unfoldable pub place : Replacement → TagMeta → List TagMeta → List TagMeta
place lru_mip b set = b ∷ set
place lru_lip b set = set ++ b ∷ []

-- ===== src/Coherence/Lls.antt =====
-- include/comparch/coherence/lls_cache.hpp and src/coherence/lls_cache.cpp: the shared last-level
-- cache, a set-associative cache that tracks only which blocks it holds, most recent first.
use multicore_oo_o_sim.Base.{
  ℕ, ◌/◌, ◌%◌, Bool, true, false, List, [], ◌∷◌, ◌||◌, ◌==◌, leb, not, if◌then◌else◌, length,
  get_or, set, replicate, Result, ok, throw,
}

pub record LlsLookup : Type 0 where
  pub hit : Bool
  pub evicted : Bool
  pub victim : ℕ

pub record LlsCache : Type 0 where
  pub size_blocks : ℕ
  pub assoc : ℕ
  pub num_sets : ℕ
  pub sets : List (List ℕ)

-- The constructor throws on a size that is no multiple of the associativity.
unfoldable pub make : ℕ → ℕ → Result LlsCache
make size assoc =
    if size == 0 || assoc == 0
    then ok (record { size_blocks = 0; assoc = 0; num_sets = 0; sets = [] })
    else if not (size % assoc == 0)
    then throw
    else ok (record {
      size_blocks = size;
      assoc = assoc;
      num_sets = size / assoc;
      sets = replicate (size / assoc) [];
    })

unfoldable pub holds : ℕ → List ℕ → Bool
holds b [] = false
holds b (x ∷ xs) = x == b || holds b xs

unfoldable pub remove : ℕ → List ℕ → List ℕ
remove b [] = []
remove b (x ∷ xs) = if x == b then xs else x ∷ remove b xs

unfoldable pub back : List ℕ → ℕ
back [] = 0
back (x ∷ []) = x
back (x ∷ y ∷ xs) = back (y ∷ xs)

unfoldable pub pop_back : List ℕ → List ℕ
pop_back [] = []
pop_back (x ∷ []) = []
pop_back (x ∷ y ∷ xs) = x ∷ pop_back (y ∷ xs)

-- One set under an access: the lookup, and the set as it stands afterwards.
unfoldable pub access_set : ℕ → ℕ → List ℕ → LlsLookup × List ℕ
unfolding holds remove back pop_back
access_set assoc b xs =
    if holds b xs
    then (record { hit = true; evicted = false; victim = 0 }, b ∷ remove b xs)
    else if leb assoc (length xs)
    then (record { hit = false; evicted = true; victim = back xs }, b ∷ pop_back xs)
    else (record { hit = false; evicted = false; victim = 0 }, b ∷ xs)

abbrev pub set_of : LlsCache → ℕ → ℕ
set_of c b = b % c.num_sets

pub contains : LlsCache → ℕ → Bool
unfolding holds
contains c b = if c.num_sets == 0 then false else holds b (get_or c.sets (set_of c b) [])

unfoldable pub access : ℕ → LlsCache → LlsLookup × LlsCache
unfolding access_set
access b c =
    if c.num_sets == 0
    then (record { hit = false; evicted = false; victim = 0 }, c)
    else let (r, xs) = access_set c.assoc b (get_or c.sets (set_of c b) []) in
      (r, record c { sets = set c.sets (set_of c b) xs })

pub invalidate : ℕ → LlsCache → LlsCache
unfolding remove
invalidate b c =
    if c.num_sets == 0
    then c
    else record c { sets = set c.sets (set_of c b) (remove b (get_or c.sets (set_of c b) [])) }

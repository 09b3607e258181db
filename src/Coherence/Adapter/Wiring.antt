-- ===== src/Coherence/Adapter/Wiring.antt =====
-- src/full/full_mode.cpp: what the L1 cache of a core points to, in the two cache modes, and what the stores
-- of the core tell the adapter there.
pub mod Lines
pub mod Stores
use multicore_oo_o_sim.Base.{
  ℕ, ◌+◌, ◌<◌, ◌^◌, ◌≡◌, refl, sym, subst, ap, ◌∙◌, arith, Bool, true, false, Option, none, some,
  List, [], ◌∷◌, ◌==◌, ◌&&◌, ◌||◌, not, if◌then◌else◌, get_or, set, get_or-set_self, length,
  Option-cases, inl, inr,
}
use native.Mathlib.Nat.{mod-lt}
use multicore_oo_o_sim.Cache.Mshr.{AccessResult, op_write}
use multicore_oo_o_sim.Cache.Sets.{TagMeta, is_in, find_block, remove, to_front}
use multicore_oo_o_sim.Cache.Sets.Shape.{find_block-is_in, find_block-absent}
use multicore_oo_o_sim.Cache.Level.{
  MemReq, WritePolicy, wbwa, Downstream, Config, Cache, index_bit, get_tag, get_index,
  get_block_addr, suspended_latency, is_write, row,
}
use multicore_oo_o_sim.Cache.Level.Access.{access, by_policy, wbwa_found, touched, count_access}
use multicore_oo_o_sim.Cache.Level.Shape.{IsValid}
use multicore_oo_o_sim.Cache.Level.Shape.Accesses.{access-IsValid}
use multicore_oo_o_sim.Cache.Level.Run.{pow_pos}
use multicore_oo_o_sim.Coherence.Message.{CacheMode, private_l2, shared_lls}
use multicore_oo_o_sim.Coherence.Adapter.{CoherenceAdapter, on_miss, on_evict, over_adapter}
use multicore_oo_o_sim.Coherence.Adapter.Invalidates.{dirty_found}

-- What stands below the L1 cache.
abbrev pub BelowL1 : CacheMode → Type 0
BelowL1 private_l2 = Cache CoherenceAdapter
BelowL1 shared_lls = CoherenceAdapter

-- The pointer to L2 is null where there is none, and the adapter is spliced in behind the last cache.
abbrev pub wire_l1 : (mode : CacheMode) → Downstream (BelowL1 mode)
wire_l1 private_l2 = record {
  next_level = some (λ peer req l2. access over_adapter peer req l2);
  main_memory = none;
  coherence_sink = none;
}
wire_l1 shared_lls = record {
  next_level = none;
  main_memory = none;
  coherence_sink = some (record { on_miss = on_miss; on_evict = on_evict });
}

-- The requests of a core, one after the other; no cache stands above L1.
unfoldable pub serve :
    (mode : CacheMode) → List MemReq → Cache (BelowL1 mode) → Cache (BelowL1 mode)
serve mode [] c = c
serve mode (req ∷ reqs) c = serve mode reqs (access (wire_l1 mode) (λ addr. false) req c).1

abbrev pub all_to : Config → ℕ → List MemReq → Bool
all_to k block [] = true
all_to k block (req ∷ reqs) = (get_block_addr k req.addr == block) && all_to k block reqs

abbrev pub any_store : List MemReq → Bool
any_store [] = false
any_store (req ∷ reqs) = is_write req.op || any_store reqs

-- Whether the cache holds the block dirty.
abbrev pub holds_dirty : {D : Type 0} → Config → ℕ → Cache D → Bool
holds_dirty k block c = dirty_found (find_block (get_tag k block) (row c (get_index k block)))

abbrev pub holds : {D : Type 0} → Config → ℕ → Cache D → Bool
holds k block c = is_in (get_tag k block) (row c (get_index k block))

-- The adapter after it was asked for the ownership of the block at each store of the list.
abbrev pub asked : ℕ → List MemReq → CoherenceAdapter → CoherenceAdapter
asked block [] a = a
asked block (req ∷ reqs) a =
    asked block reqs (if is_write req.op then on_miss block op_write a else a)

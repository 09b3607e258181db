-- ===== src/Cache/Level/Tests.antt =====
-- The levels of cache on concrete inputs: a small WBWA cache over a WTWNA one over the memory.
use multicore_oo_o_sim.Base.{ℕ, ◌^◌, replicate, ◌≡◌, refl, Bool, true, false, List, [], ◌∷◌, ok}
use multicore_oo_o_sim.Cache.Mshr
use multicore_oo_o_sim.Cache.Mshr.{Op, op_read, op_write, AccessResult, occupancy}
use multicore_oo_o_sim.Cache.Sets.{
  lru_mip, lru_lip, is_in, find_block, remove, back, pop_back, make_room, place,
}
use multicore_oo_o_sim.Cache.Prefetch.{Prefetcher, no_prefetcher, plus_one, prefetch_on_miss}
use multicore_oo_o_sim.Cache.Level.{
  MemReq, wbwa, wtwna, Config, Cache, no_stats, index_bit, make, coherence_invalidate,
}
use multicore_oo_o_sim.Cache.Level.Insert.{insert_new_block, issue_prefetch, run_prefetcher}
use multicore_oo_o_sim.Cache.Level.Access.{access}
use multicore_oo_o_sim.Cache.Level.Below.{
  MainMemory, make_memory, access_memory, over_memory, over_level,
}
use multicore_oo_o_sim.Cache.Level.Account.{tally, Balances}
use multicore_oo_o_sim.Cache.Level.Issue.{issue, targets}
use multicore_oo_o_sim.Cache.Level.Issue.Merging.{Answered, issue_answers}
use multicore_oo_o_sim.Cache.Level.Issue.Slots.{occupancy-issue}
use multicore_oo_o_sim.Cache.Level.Run.{
  Call, call_access, call_issue, call_tick, call_invalidate, step, run, run-make-IsValid,
}
use multicore_oo_o_sim.Cache.Level.Run.Totals.{run-make-Balances}
use multicore_oo_o_sim.Cache.Level.Shape.{IsValid}

-- Two sets of two blocks of 16 bytes, and four sets of two of them.
abbrev l1 : Config
l1 = record {
  c = 6;
  b = 4;
  s = 1;
  replacement = lru_mip;
  write_policy = wbwa;
  hit_latency = 2;
  mshr_entries = 2;
}

abbrev l2 : Config
l2 = record {
  c = 7;
  b = 4;
  s = 1;
  replacement = lru_lip;
  write_policy = wtwna;
  hit_latency = 10;
  mshr_entries = 2;
}

abbrev fresh : {D : Type 0} → Config → Prefetcher → D → Cache D
fresh k p below = record {
  cfg = k;
  stats = no_stats;
  rows = replicate (2 ^ index_bit k) [];
  mshr = Mshr.make k.mshr_entries;
  now = 0;
  next_id = 1;
  prefetcher = p;
  below = below;
}

abbrev one_level : Cache MainMemory
one_level = fresh l1 no_prefetcher (make_memory 100)

abbrev two_levels : Cache (Cache MainMemory)
two_levels = fresh l1 plus_one (fresh l2 no_prefetcher (make_memory 100))

abbrev nobody : ℕ → Bool
nobody addr = false

abbrev at_address : Op → ℕ → MemReq
at_address op addr = record { addr = addr; op = op; pc = 0; originating_op = op; tid = 0 }

one_level_made : make l1 no_prefetcher (make_memory 100) ≡ ok one_level
unfolding make
one_level_made = refl

two_levels_made : make l1 plus_one (fresh l2 no_prefetcher (make_memory 100)) ≡ ok two_levels
unfolding make
two_levels_made = refl

-- A write, a read of the next block, two reads that drive out the first block, and a recall.
abbrev calls : List Call
calls =
    call_access nobody (at_address op_write 8)
    ∷ call_access nobody (at_address op_read 16)
    ∷ call_access nobody (at_address op_read 32)
    ∷ call_issue nobody (at_address op_read 64)
    ∷ call_tick
    ∷ call_invalidate 4
    ∷ []

-- What the memory has seen of a list of accesses to the two levels: their latencies, and its reads and writes.
abbrev seen : AccessResult × Cache (Cache MainMemory) → (Bool × ℕ) × (ℕ × ℕ)
seen (r, c) = ((r.hit, r.latency), (c.below.below.stats.reads, c.below.below.stats.writes))

cold_miss :
    seen (access (over_level over_memory) nobody (at_address op_read 64) two_levels)
    ≡ ((false, 112), (1, 0))
unfolding access access_memory insert_new_block run_prefetcher issue_prefetch prefetch_on_miss is_in
    find_block remove back make_room place
cold_miss = refl

-- The block next to the one that missed has been asked for, and is there.
next_hit :
    seen (
      access
        (over_level over_memory)
        nobody
        (at_address op_read 80)
        (access (over_level over_memory) nobody (at_address op_read 64) two_levels).1)
    ≡ ((true, 2), (1, 0))
unfolding access access_memory insert_new_block run_prefetcher issue_prefetch prefetch_on_miss is_in
    find_block remove back make_room place
next_hit = refl

-- The dirty block goes through the write-through level to memory when it is driven out.
written_back : (run over_memory calls one_level).below.stats.writes ≡ 1
unfolding run step issue targets access access_memory insert_new_block run_prefetcher issue_prefetch
    prefetch_on_miss is_in find_block remove back pop_back make_room place coherence_invalidate
    Mshr.full
written_back = refl

run-make-IsValid_example : IsValid l1 (run over_memory calls one_level)
run-make-IsValid_example =
    run-make-IsValid over_memory l1 no_prefetcher (make_memory 100) one_level calls one_level_made

run-make-Balances_example :
    Balances wbwa (tally (run (over_level over_memory) calls two_levels).stats)
run-make-Balances_example =
    run-make-Balances (over_level over_memory) l1 plus_one
      (fresh l2 no_prefetcher (make_memory 100)) two_levels calls two_levels_made

-- A read in flight of the block of address 64.
abbrev waiting : Cache MainMemory
waiting = record one_level {
  now = 5;
  next_id = 2;
  mshr =
      Mshr.fresh_entry 1 4 op_read 0 107 (record { hit = false; latency = 102 })
      ∷ Mshr.blank_entry
      ∷ [];
}

issue_answers_example :
    Answered over_memory false waiting (issue over_memory nobody (at_address op_read 72) waiting)
unfolding Mshr.full
issue_answers_example = issue_answers over_memory nobody (at_address op_read 72) waiting

-- The write of the block is entered in the slot of the read.
occupancy-issue_example :
    occupancy (issue over_memory nobody (at_address op_write 72) waiting).1.mshr ≡ 1
unfolding occupancy
occupancy-issue_example = occupancy-issue over_memory nobody (at_address op_write 72) waiting

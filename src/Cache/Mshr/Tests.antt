-- ===== src/Cache/Mshr/Tests.antt =====
-- The table of misses on concrete inputs.
use multicore_oo_o_sim.Base.{◌+◌, ◌-◌, ◌≡◌, refl, false, not, ◌&&◌, [], ◌∷◌, ◌==◌, arith}
use multicore_oo_o_sim.Cache.Mshr.{
  op_read, op_write, Mshr, AccessResult, make, fresh_entry, contains, remove_first, entry_holds,
  merge, fill, allocate, find, tick, promote, drop_holder, release, full, occupancy,
}
use multicore_oo_o_sim.Cache.Mshr.Others.{table_after, miss_of, release-others, allocate-others}
use multicore_oo_o_sim.Cache.Mshr.Stalls.{is_none, in_flight, allocate_stalls}
use multicore_oo_o_sim.Cache.Mshr.Holders.{
  holders, granted, holders-release, holders-allocate, find_finds_held,
}

abbrev missed : AccessResult
missed = record { hit = false; latency = 100 }

-- Two slots: 1 and 2 share the first, 3 has the second.
abbrev busy : Mshr
busy =
    record (fresh_entry 1 64 op_read 4096 100 missed) { merged_ids = 2 ∷ [] }
    ∷ fresh_entry 3 128 op_write 4100 120 missed
    ∷ []

busy_allocated :
    table_after
      (allocate 3 128 op_write 4100 120 missed (
        table_after
          (allocate 2 64 op_read 0 0 missed
            (table_after (allocate 1 64 op_read 4096 100 missed (make 2)) (make 2)))
          []))
      []
    ≡ busy
unfolding allocate merge fill
busy_allocated = refl

busy_released :
    release 2 (release 1 busy)
    ≡ record (fresh_entry 2 64 op_read 4096 100 missed) { valid = false }
      ∷ fresh_entry 3 128 op_write 4100 120 missed
      ∷ []
unfolding release drop_holder entry_holds promote contains remove_first
busy_released = refl

busy_occupancy : occupancy (tick 110 busy) ≡ 2
unfolding occupancy tick
busy_occupancy = refl

release-others_example : miss_of 2 (release 1 busy) ≡ miss_of 2 busy
release-others_example = release-others 1 2 busy (λ e. omega (arith, e))

allocate-others_example :
    miss_of 1 (table_after (allocate 4 64 op_read 0 0 missed busy) busy) ≡ miss_of 1 busy
allocate-others_example = allocate-others 4 64 op_read 0 0 missed 1 busy (λ e. omega (arith, e))

allocate_stalls_example :
    is_none (allocate 4 256 op_read 0 0 missed busy) ≡ not (in_flight 256 busy) && full busy
allocate_stalls_example = allocate_stalls 4 256 op_read 0 0 missed busy

holders-release_example : holders 2 (release 2 busy) ≡ holders 2 busy - 1
holders-release_example = holders-release 2 busy

holders-allocate_example :
    holders 4 (table_after (allocate 4 64 op_read 0 0 missed busy) busy)
    ≡ holders 4 busy + granted (allocate 4 64 op_read 0 0 missed busy)
holders-allocate_example = holders-allocate 4 64 op_read 0 0 missed busy

find_finds_held_example : is_none (find 2 busy) ≡ (holders 2 busy == 0)
find_finds_held_example = find_finds_held 2 busy

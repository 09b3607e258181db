-- ===== src/Cache/Level/Issue.antt =====
-- src/cache/cache.cpp: the asynchronous requests of the core, over the table of misses.
pub mod Merging
pub mod Slots
use multicore_oo_o_sim.Base.{
  ℕ, ◌+◌, ◌%◌, Bool, true, false, Option, none, some, List, [], ◌∷◌, ◌==◌, ◌&&◌, if◌then◌else◌,
  inc64, u64, minus_one64,
}
use multicore_oo_o_sim.Cache.Mshr
use multicore_oo_o_sim.Cache.Mshr.Others.{table_after}
use multicore_oo_o_sim.Cache.Mshr.{Op, AccessResult, MshrEntry}
use multicore_oo_o_sim.Cache.Level.{
  MemReq, Downstream, Cache, get_block_addr, is_write, suspended_latency,
}
use multicore_oo_o_sim.Cache.Level.Access.{access}

-- The first valid entry for the block.
unfoldable pub targets : ℕ → Mshr.Mshr → Option MshrEntry
targets block_addr [] = none
targets block_addr (e ∷ es) =
    if e.valid && (e.block_addr == block_addr) then some e else targets block_addr es

abbrev pub due_cycle : AccessResult → ℕ → ℕ
due_cycle result now =
    if result.latency == suspended_latency then minus_one64 else (now + result.latency) % u64

module _ {D : Type 0} where
  -- The identifier that `next_id_++` gives, and the request entered in the table under it.
  abbrev pub enter : MemReq → ℕ → AccessResult → Cache D → Option ℕ × Cache D
  enter req due result c = (
    some c.next_id,
    record c {
      next_id = inc64 c.next_id;
      mshr =
          table_after
            (Mshr.allocate c.next_id (get_block_addr c.cfg req.addr) req.op req.pc due result
              c.mshr)
            c.mshr;
    },
  )

module _ {D : Type 0} (down : Downstream D) where
  abbrev pub accessed : MemReq → AccessResult × Cache D → Option ℕ × Cache D
  accessed req (result, c) = enter req (due_cycle result c.now) result c

  abbrev pub issue_fresh : (ℕ → Bool) → MemReq → Cache D → Option ℕ × Cache D
  issue_fresh peer req c =
      if Mshr.full c.mshr then (none, c) else accessed req (access down peer req c)

  abbrev pub issue_onto : (ℕ → Bool) → MemReq → Option MshrEntry → Cache D → Option ℕ × Cache D
  issue_onto peer req none c = issue_fresh peer req c
  issue_onto peer req (some e) c =
      if is_write req.op then issue_fresh peer req c else enter req e.due_cycle e.result c

  -- `Cache::issue`: the identifier, or `none` when the caller must stall.
  unfoldable pub issue : (ℕ → Bool) → MemReq → Cache D → Option ℕ × Cache D
  issue peer req c = issue_onto peer req (targets (get_block_addr c.cfg req.addr) c.mshr) c

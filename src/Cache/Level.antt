-- ===== src/Cache/Level.antt =====
-- include/comparch/cache/cache.hpp and src/cache/cache.cpp: the state of one level of cache, over what is
-- below it, and the operations that touch this level alone.
pub mod Insert
pub mod Access
pub mod Issue
pub mod Shape
pub mod Run
pub mod Account
pub mod Below
mod Tests
use multicore_oo_o_sim.Base.{
  ℕ, zero, suc, ◌+◌, ◌-◌, ◌*◌, ◌/◌, ◌%◌, ◌^◌, Bool, true, false, Option, none, some, List, [], ◌∷◌,
  ◌==◌, ◌&&◌, ◌||◌, not, leb, if◌then◌else◌, length, get_or, set, replicate, inc64, u64,
  minus_one64, Result, throw, ok,
}
use multicore_oo_o_sim.Cache.Mshr
use multicore_oo_o_sim.Cache.Mshr.{Op, op_read, op_write, op_prefetch, AccessResult, MshrEntry}
use multicore_oo_o_sim.Cache.Sets.{
  TagMeta, Replacement, is_in, find_block, remove, to_front, find_and_promote, write_dirty, back,
  make_room, place,
}
use multicore_oo_o_sim.Cache.Prefetch.{Prefetcher, no_prefetcher, prefetch_on_miss}

pub record MemReq : Type 0 where
  pub addr : ℕ
  pub op : Op
  pub pc : ℕ
  pub originating_op : Op
  pub tid : ℕ

pub data WritePolicy : Type 0 where
  wbwa wtwna : WritePolicy

pub record CoherenceSink (D : Type 0) : Type 0 where
  pub on_miss : ℕ → Op → D → D
  pub on_evict : ℕ → Bool → D → D

-- The `access` of a next level, given the blocks that this level holds, which a prefetcher there
-- asks for; and that of the memory.
abbrev pub NextLevel : Type 0 → Type 0
NextLevel D = (ℕ → Bool) → MemReq → D → AccessResult × D

abbrev pub Memory : Type 0 → Type 0
Memory D = MemReq → D → AccessResult × D

-- The three pointers of the configuration, any of which may be null, over the state `D` of all that
-- they point to.
pub record Downstream (D : Type 0) : Type 0 where
  pub next_level : Option (NextLevel D)
  pub main_memory : Option (Memory D)
  pub coherence_sink : Option (CoherenceSink D)

pub record Config : Type 0 where
  pub c : ℕ
  pub b : ℕ
  pub s : ℕ
  pub replacement : Replacement
  pub write_policy : WritePolicy
  pub hit_latency : ℕ
  pub mshr_entries : ℕ

pub record CacheStats : Type 0 where
  pub accesses : ℕ
  pub reads : ℕ
  pub writes : ℕ
  pub hits : ℕ
  pub misses : ℕ
  pub writebacks : ℕ
  pub read_hits : ℕ
  pub read_misses : ℕ
  pub prefetches_issued : ℕ
  pub prefetch_hits : ℕ
  pub prefetch_misses : ℕ
  pub coherence_invals : ℕ
  pub upgrade_misses : ℕ

abbrev pub no_stats : CacheStats
no_stats = record {
  accesses = 0;
  reads = 0;
  writes = 0;
  hits = 0;
  misses = 0;
  writebacks = 0;
  read_hits = 0;
  read_misses = 0;
  prefetches_issued = 0;
  prefetch_hits = 0;
  prefetch_misses = 0;
  coherence_invals = 0;
  upgrade_misses = 0;
}

pub record Cache (D : Type 0) : Type 0 where
  pub cfg : Config
  pub stats : CacheStats
  pub rows : List (List TagMeta)
  pub mshr : Mshr.Mshr
  pub now : ℕ
  pub next_id : ℕ
  pub prefetcher : Prefetcher
  pub below : D

abbrev pub index_bit : Config → ℕ
index_bit k = k.c - k.b - k.s

abbrev pub assoc : Config → ℕ
assoc k = 2 ^ k.s

unfoldable pub make : {D : Type 0} → Config → Prefetcher → D → Result (Cache D)
make cfg prefetcher below =
    if leb cfg.c (cfg.b + cfg.s)
    then throw
    else ok (record {
      cfg = cfg;
      stats = no_stats;
      rows = replicate (2 ^ index_bit cfg) [];
      mshr = Mshr.make cfg.mshr_entries;
      now = 0;
      next_id = 1;
      prefetcher = prefetcher;
      below = below;
    })

abbrev pub get_tag : Config → ℕ → ℕ
get_tag k block_addr = block_addr / 2 ^ index_bit k

abbrev pub get_index : Config → ℕ → ℕ
get_index k block_addr = block_addr % 2 ^ index_bit k

abbrev pub get_block_addr : Config → ℕ → ℕ
get_block_addr k addr = addr / 2 ^ k.b

abbrev pub byte_of : Config → ℕ → ℕ
byte_of k block_addr = block_addr * 2 ^ k.b % u64

-- `UINT_MAX`.
abbrev pub suspended_latency : ℕ
suspended_latency = 2 ^ 32 - 1

abbrev pub is_write : Op → Bool
is_write op_read = false
is_write op_write = true
is_write op_prefetch = false

abbrev pub new_block : ℕ → ℕ → Bool → Bool → TagMeta
new_block tag block_addr dirty is_prefetch = record {
  block_addr = block_addr;
  tag = tag;
  dirty = dirty;
  valid = true;
  prefetched = is_prefetch;
}

unfoldable pub mark_entry : ℕ → Mshr.Mshr → Mshr.Mshr
mark_entry id [] = []
mark_entry id (e ∷ es) =
    if Mshr.entry_holds e id then (record e { ready = true }) ∷ es else e ∷ mark_entry id es

module _ {D : Type 0} where
  abbrev pub row : Cache D → ℕ → List TagMeta
  row c index = get_or c.rows index []

  abbrev pub set_row : ℕ → List TagMeta → Cache D → Cache D
  set_row index l c = record c { rows = set c.rows index l }

  abbrev pub is_in_cache : ℕ → ℕ → Cache D → Bool
  is_in_cache tag index c = is_in tag (row c index)

  abbrev pub block_in : Cache D → ℕ → Bool
  block_in c addr =
      let block = get_block_addr c.cfg addr in
      is_in_cache (get_tag c.cfg block) (get_index c.cfg block) c

  abbrev pub count_writeback : Cache D → Cache D
  count_writeback c = record c {
    stats = record (c.stats) { writebacks = inc64 c.stats.writebacks };
  }

  abbrev pub count_wasted : Cache D → Cache D
  count_wasted c = record c {
    stats = record (c.stats) { prefetch_misses = inc64 c.stats.prefetch_misses };
  }

  unfoldable pub coherence_invalidate : ℕ → Cache D → Cache D
  coherence_invalidate block_addr c =
      let tag = get_tag c.cfg block_addr in
      let index = get_index c.cfg block_addr in
      if is_in_cache tag index c
      then (record c {
        rows = set c.rows index (remove tag (row c index));
        stats = record (c.stats) { coherence_invals = inc64 c.stats.coherence_invals };
      })
      else c

  unfoldable pub coherence_set_dirty : ℕ → Cache D → Cache D
  coherence_set_dirty block_addr c =
      let index = get_index c.cfg block_addr in
      set_row index (write_dirty true (get_tag c.cfg block_addr) (row c index)) c

  unfoldable pub coherence_clean : ℕ → Cache D → Cache D
  coherence_clean block_addr c =
      let index = get_index c.cfg block_addr in
      set_row index (write_dirty false (get_tag c.cfg block_addr) (row c index)) c

  abbrev pub peek : ℕ → Cache D → Option MshrEntry
  peek id c = Mshr.find id c.mshr

  abbrev pub complete : ℕ → Cache D → Cache D
  complete id c = record c { mshr = Mshr.release id c.mshr }

  abbrev pub tick : Cache D → Cache D
  tick c = record c { now = inc64 c.now; mshr = Mshr.tick (inc64 c.now) c.mshr }

  abbrev pub mark_ready : ℕ → Cache D → Cache D
  mark_ready id c = record c { mshr = mark_entry id c.mshr }

-- ===== src/Cache/Level/Access.antt =====
-- src/cache/cache.cpp: one demand access, under either write policy.
pub mod Books
use multicore_oo_o_sim.Base.{
  ℕ, zero, suc, ◌+◌, ◌-◌, ◌*◌, ◌/◌, ◌%◌, ◌^◌, Bool, true, false, Option, none, some, List, [], ◌∷◌,
  ◌==◌, ◌&&◌, ◌||◌, not, leb, if◌then◌else◌, length, get_or, set, inc64, u64,
}
use multicore_oo_o_sim.Cache.Mshr.{Op, op_read, op_write, AccessResult}
use multicore_oo_o_sim.Cache.Sets.{
  TagMeta, is_in, find_block, to_front, find_and_promote, back, make_room, place,
}
use multicore_oo_o_sim.Cache.Prefetch.{Prefetcher, prefetch_on_miss}
use multicore_oo_o_sim.Cache.Level.{
  MemReq, WritePolicy, wbwa, wtwna, NextLevel, Memory, CoherenceSink, Downstream, Config, Cache,
  assoc, get_tag, get_index, get_block_addr, byte_of, suspended_latency, is_write, row, set_row,
  is_in_cache, block_in, new_block, count_writeback, count_wasted,
}
use multicore_oo_o_sim.Cache.Level.Insert.{insert_new_block, run_prefetcher}

module _ {D : Type 0} (down : Downstream D) where
  -- The read that a miss sends below.
  abbrev pub fetch_request : Op → MemReq → Config → MemReq
  fetch_request originating req k = record {
    addr = byte_of k (get_block_addr k req.addr);
    op = op_read;
    pc = req.pc;
    originating_op = originating;
    tid = req.tid;
  }

  -- The latency from below, or `none` when the answer is to come from the coherence protocol.
  abbrev pub unless_suspended : ℕ → Option ℕ
  unless_suspended latency = if latency == suspended_latency then none else some latency

  abbrev pub fetch_from :
      Option (NextLevel D)
      → Option (Memory D)
      → Option (CoherenceSink D)
      → Op
      → MemReq
      → Cache D
      → Option ℕ × Cache D
  fetch_from (some next) memory sink originating req c =
      let answer = next (block_in c) (fetch_request originating req c.cfg) c.below in
      (unless_suspended answer.0.latency, record c { below = answer.1 })
  fetch_from none (some memory) sink originating req c =
      let answer = memory (fetch_request op_read req c.cfg) c.below in
      (some answer.0.latency, record c { below = answer.1 })
  fetch_from none none (some sink) originating req c = (
    none,
    record c { below = sink.on_miss (get_block_addr c.cfg req.addr) req.originating_op c.below },
  )
  fetch_from none none none originating req c = (some 0, c)

  abbrev pub fetch : Op → MemReq → Cache D → Option ℕ × Cache D
  fetch originating req c =
      fetch_from down.next_level down.main_memory down.coherence_sink originating req c

  -- What follows the fetch, with the result of the access.
  abbrev pub fill : (ℕ → Bool) → Bool → MemReq → Option ℕ × Cache D → AccessResult × Cache D
  fill peer write req (none, c) = (record { hit = false; latency = suspended_latency }, c)
  fill peer write req (some latency, c) =
      let block = get_block_addr c.cfg req.addr in
      (
        record { hit = false; latency = (c.cfg.hit_latency + latency) % 2 ^ 32 },
        run_prefetcher down peer req (
            insert_new_block down write (get_tag c.cfg block) (get_index c.cfg block) block false
              c),
      )

  abbrev pub hit_result : Config → AccessResult
  hit_result k = record { hit = true; latency = k.hit_latency }

  abbrev pub count_access : MemReq → Cache D → Cache D
  count_access req c = record c {
    stats = record (c.stats) {
      accesses = inc64 c.stats.accesses;
      reads = if is_write req.op then c.stats.reads else inc64 c.stats.reads;
      writes = if is_write req.op then inc64 c.stats.writes else c.stats.writes;
    };
  }

  abbrev pub count_hit : TagMeta → Cache D → Cache D
  count_hit b c = record c {
    stats = record (c.stats) {
      hits = inc64 c.stats.hits;
      prefetch_hits = if b.prefetched then inc64 c.stats.prefetch_hits else c.stats.prefetch_hits;
    };
  }

  abbrev pub count_miss : Cache D → Cache D
  count_miss c = record c { stats = record (c.stats) { misses = inc64 c.stats.misses } }

  -- A write of a clean line that the protocol manages: the line stays, and the protocol is asked.
  abbrev pub upgrade : CoherenceSink D → ℕ → TagMeta → ℕ → ℕ → Cache D → AccessResult × Cache D
  upgrade sink block_addr b tag index c = (
    record { hit = false; latency = suspended_latency },
    record c {
      rows = set c.rows index (to_front tag b (row c index));
      stats = record (c.stats) { upgrade_misses = inc64 c.stats.upgrade_misses };
      below = sink.on_miss block_addr op_write c.below;
    },
  )

  abbrev pub touched : Bool → TagMeta → TagMeta
  touched write b = record b { prefetched = false; dirty = if write then true else b.dirty }

  abbrev pub wbwa_hit : Bool → TagMeta → ℕ → ℕ → Cache D → AccessResult × Cache D
  wbwa_hit write b tag index c = (
    hit_result c.cfg,
    set_row index (to_front tag (touched write b) (row c index)) (count_hit b c),
  )

  abbrev pub wbwa_resident :
      Option (CoherenceSink D) → Bool → ℕ → TagMeta → ℕ → ℕ → Cache D → AccessResult × Cache D
  wbwa_resident (some sink) write block_addr b tag index c =
      if write && not b.dirty
      then upgrade sink block_addr b tag index c
      else wbwa_hit write b tag index c
  wbwa_resident none write block_addr b tag index c = wbwa_hit write b tag index c

  abbrev pub wbwa_found : (ℕ → Bool) → MemReq → Option TagMeta → Cache D → AccessResult × Cache D
  wbwa_found peer req none c = fill peer (is_write req.op) req (fetch req.op req (count_miss c))
  wbwa_found peer req (some b) c =
      let block = get_block_addr c.cfg req.addr in
      wbwa_resident down.coherence_sink (is_write req.op) block b (get_tag c.cfg block)
        (get_index c.cfg block) c

  abbrev pub count_read_hit : TagMeta → Cache D → Cache D
  count_read_hit b c = record c {
    stats = record (c.stats) {
      read_hits = inc64 c.stats.read_hits;
      prefetch_hits = if b.prefetched then inc64 c.stats.prefetch_hits else c.stats.prefetch_hits;
    };
  }

  abbrev pub count_read_miss : Cache D → Cache D
  count_read_miss c = record c {
    stats = record (c.stats) { read_misses = inc64 c.stats.read_misses };
  }

  abbrev pub wtwna_found : (ℕ → Bool) → MemReq → Option TagMeta → Cache D → AccessResult × Cache D
  wtwna_found peer req none c = fill peer false req (fetch op_read req (count_read_miss c))
  wtwna_found peer req (some b) c =
      let block = get_block_addr c.cfg req.addr in
      let tag = get_tag c.cfg block in
      let index = get_index c.cfg block in
      (
        hit_result c.cfg,
        set_row index (to_front tag (touched false b) (row c index)) (count_read_hit b c),
      )

  -- The write path of WTWNA: a hit moves the block, a miss allocates none.
  abbrev pub write_through : ℕ → ℕ → Cache D → AccessResult × Cache D
  write_through tag index c = (
    record { hit = is_in_cache tag index c; latency = c.cfg.hit_latency },
    set_row index (find_and_promote tag (row c index)) c,
  )

  abbrev pub by_policy : (ℕ → Bool) → WritePolicy → MemReq → Cache D → AccessResult × Cache D
  by_policy peer wbwa req c =
      let block = get_block_addr c.cfg req.addr in
      wbwa_found peer req (find_block (get_tag c.cfg block) (row c (get_index c.cfg block))) c
  by_policy peer wtwna req c =
      let block = get_block_addr c.cfg req.addr in
      let tag = get_tag c.cfg block in
      let index = get_index c.cfg block in
      if is_write req.op
      then write_through tag index c
      else wtwna_found peer req (find_block tag (row c index)) c

  -- `Cache::access`; `peer` is what the level above holds.
  unfoldable pub access : (ℕ → Bool) → MemReq → Cache D → AccessResult × Cache D
  access peer req c = by_policy peer c.cfg.write_policy req (count_access req c)

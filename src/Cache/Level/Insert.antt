-- ===== src/Cache/Level/Insert.antt =====
-- src/cache/cache.cpp: a block that enters the cache, and the one that it drives out.
use multicore_oo_o_sim.Base.{
  ℕ, Bool, true, false, Option, none, some, ◌==◌, if◌then◌else◌, length, set, inc64,
}
use multicore_oo_o_sim.Cache.Mshr.{op_read, op_write}
use multicore_oo_o_sim.Cache.Sets.{TagMeta, back, make_room, place}
use multicore_oo_o_sim.Cache.Prefetch.{Prefetcher, prefetch_on_miss}
use multicore_oo_o_sim.Cache.Level.{
  MemReq, WritePolicy, wbwa, wtwna, NextLevel, Memory, CoherenceSink, Downstream, Config, Cache,
  assoc, get_tag, get_index, get_block_addr, byte_of, row, is_in_cache, block_in, new_block,
  count_writeback, count_wasted,
}

abbrev pub born_dirty : WritePolicy → Bool → Bool
born_dirty wbwa write = write
born_dirty wtwna write = false

module _ {D : Type 0} (down : Downstream D) where
  abbrev pub write_request : Config → ℕ → MemReq
  write_request k block_addr = record {
    addr = byte_of k block_addr;
    op = op_write;
    pc = 0;
    originating_op = op_read;
    tid = 0;
  }

  abbrev pub write_below : Option (NextLevel D) → Option (Memory D) → TagMeta → Cache D → Cache D
  write_below (some next) memory v c = record c {
    below = (next (block_in c) (write_request c.cfg v.block_addr) c.below).1;
  }
  write_below none (some memory) v c = record c {
    below = (memory (write_request c.cfg v.block_addr) c.below).1;
  }
  write_below none none v c = c

  abbrev pub tell_sink : CoherenceSink D → TagMeta → Cache D → Cache D
  tell_sink sink v c = record c { below = sink.on_evict v.block_addr v.dirty c.below }

  -- What is told of the eviction of a block: the sink always, what is below of a dirty one.
  abbrev pub evict_to : Option (CoherenceSink D) → TagMeta → Cache D → Cache D
  evict_to (some sink) v c = tell_sink sink v (if v.dirty then count_writeback c else c)
  evict_to none v c =
      if v.dirty then write_below down.next_level down.main_memory v (count_writeback c) else c

  abbrev pub evict : Option TagMeta → Cache D → Cache D
  evict none c = c
  evict (some v) c = evict_to down.coherence_sink v c

  abbrev pub waste : Option TagMeta → Cache D → Cache D
  waste none c = c
  waste (some v) c = if v.prefetched then count_wasted c else c

  abbrev pub overfull : ℕ → Cache D → Bool
  overfull index c = length (row c index) == assoc c.cfg

  abbrev pub before_insert : WritePolicy → ℕ → Cache D → Cache D
  before_insert wbwa index c = if overfull index c then evict (back (row c index)) c else c
  before_insert wtwna index c = if overfull index c then waste (back (row c index)) c else c

  -- `write` is whether `rw` is 'W'. The eviction is told of before the block leaves the row.
  unfoldable pub insert_new_block : Bool → ℕ → ℕ → ℕ → Bool → Cache D → Cache D
  insert_new_block write tag index block_addr is_prefetch c =
      let told : Cache D = before_insert c.cfg.write_policy index c in
      record told {
        rows = set c.rows index (
            place c.cfg.replacement
              (new_block tag block_addr (born_dirty c.cfg.write_policy write) is_prefetch)
              (make_room (assoc c.cfg) (row c index)));
      }

  unfoldable pub issue_prefetch : ℕ → Cache D → Cache D
  issue_prefetch byte_addr c =
      let block = get_block_addr c.cfg byte_addr in
      let tag = get_tag c.cfg block in
      let index = get_index c.cfg block in
      let filled : Cache D = insert_new_block false tag index block true c in
      if is_in_cache tag index c then c else (record filled {
        stats = record (filled.stats) { prefetches_issued = inc64 filled.stats.prefetches_issued };
      })

  abbrev pub prefetched_by : Option ℕ × Prefetcher → Cache D → Cache D
  prefetched_by (none, p) c = record c { prefetcher = p }
  prefetched_by (some byte_addr, p) c = record (issue_prefetch byte_addr c) { prefetcher = p }

  -- `prefetcher->on_miss(*this, peer_above, req)`.
  unfoldable pub run_prefetcher : (ℕ → Bool) → MemReq → Cache D → Cache D
  run_prefetcher peer req c =
      prefetched_by
        (prefetch_on_miss c.cfg.b peer (block_in c) (get_block_addr c.cfg req.addr) c.prefetcher) c

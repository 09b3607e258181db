-- ===== src/Cache/Level/Below.antt =====
-- src/cache/main_memory.cpp, and src/cache/cache.cpp: what can stand below a level of cache, the memory or
-- another level.
use multicore_oo_o_sim.Base.{ℕ, none, some, true, if◌then◌else◌, inc64}
use multicore_oo_o_sim.Cache.Mshr.{AccessResult}
use multicore_oo_o_sim.Cache.Level.{MemReq, Downstream, CacheStats, no_stats, Cache, is_write}
use multicore_oo_o_sim.Cache.Level.Access.{access}

pub record MainMemory : Type 0 where
  pub latency : ℕ
  pub stats : CacheStats

abbrev pub make_memory : ℕ → MainMemory
make_memory latency = record { latency = latency; stats = no_stats }

-- `MainMemory::access`.
unfoldable pub access_memory : MemReq → MainMemory → AccessResult × MainMemory
access_memory req m = (
  record { hit = true; latency = m.latency },
  record m {
    stats = record (m.stats) {
      accesses = inc64 m.stats.accesses;
      hits = inc64 m.stats.hits;
      reads = if is_write req.op then m.stats.reads else inc64 m.stats.reads;
      writes = if is_write req.op then inc64 m.stats.writes else m.stats.writes;
    };
  },
)

-- A level over the memory.
abbrev pub over_memory : Downstream MainMemory
over_memory = record {
  next_level = none;
  main_memory = some (λ req m. access_memory req m);
  coherence_sink = none;
}

-- A level over another one, which stands over what `down` tells of.
abbrev pub over_level : {D : Type 0} → Downstream D → Downstream (Cache D)
over_level down = record {
  next_level = some (λ peer req c. access down peer req c);
  main_memory = none;
  coherence_sink = none;
}

-- ===== src/Cache/Count.antt =====
-- src/lib.rs: the statistics that the operations raise, `stats.x = stats.x.saturating_add(1)`.
use rivet_cache.Prelude.{ℕ}
use rivet_cache.Prelude.Words.{sat_add}
use rivet_cache.Cache.{Inner}

abbrev pub memory_hit : Inner → Inner
memory_hit i = record i { stats = record (i.stats) { memory_hits = sat_add i.stats.memory_hits 1 } }

abbrev pub disk_hit : Inner → Inner
disk_hit i = record i { stats = record (i.stats) { disk_hits = sat_add i.stats.disk_hits 1 } }

abbrev pub miss : Inner → Inner
miss i = record i { stats = record (i.stats) { misses = sat_add i.stats.misses 1 } }

abbrev pub write : Inner → Inner
write i = record i { stats = record (i.stats) { writes = sat_add i.stats.writes 1 } }

abbrev pub memory_eviction : Inner → Inner
memory_eviction i = record i {
  stats = record (i.stats) { memory_evictions = sat_add i.stats.memory_evictions 1 };
}

abbrev pub disk_eviction : Inner → Inner
disk_eviction i = record i {
  stats = record (i.stats) { disk_evictions = sat_add i.stats.disk_evictions 1 };
}

abbrev pub expiration : Inner → Inner
expiration i = record i { stats = record (i.stats) { expirations = sat_add i.stats.expirations 1 } }

abbrev pub corruption : ℕ → Inner → Inner
corruption n i = record i {
  stats = record (i.stats) { corruptions = sat_add i.stats.corruptions n };
}

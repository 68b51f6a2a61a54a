-- ===== src/Kv/Engine/Put/First.antt =====
-- What `KvEngine::put` with the policy `Primary` writes.
use rivet_cache.Prelude.{Bool, ℕ, ◌≡◌, sym, ◌∙◌, ap, List, ◌∷◌, Option}
use rivet_cache.Prelude.Results.{ok}
use rivet_cache.Cache.{Duration}
use rivet_cache.Kv.{KvBlock}
use rivet_cache.Kv.Engine.{KvWritePolicy, KvEngine, KvEngineInner}
use rivet_cache.Kv.Engine.Put.{put, put_by_policy, put_entry_to, entry_of}
use rivet_cache.Kv.Engine.Put.All.{finish_put-result}

put-put_primary :
    {T : Type 0} (e : KvEngine T) (now : ℕ) (block : KvBlock) (ttl : Option Duration)
    (pinned : Bool) (inner : KvEngineInner T)
    → e.write_policy ≡ KvWritePolicy.primary
    → ((put e now block ttl pinned inner).0
        ≡ (put_entry_to e 0 (entry_of now block ttl pinned) inner.tiers).0)
      × ((put e now block ttl pinned inner).1.tiers
          ≡ (put_entry_to e 0 (entry_of now block ttl pinned) inner.tiers).1)
unfolding put put_by_policy
put-put_primary e now block ttl pinned inner primary =
    rw (primary, put_by_policy)
      (finish_put-result (put_entry_to e 0 (entry_of now block ttl pinned) inner.tiers).0
        (put_entry_to e 0 (entry_of now block ttl pinned) inner.tiers).1 inner.stats)

-- Under the policy `Primary` the first tier takes the entry, and the others stay as they are.
pub put-first :
    {T : Type 0} (e : KvEngine T) (now : ℕ) (block : KvBlock) (ttl : Option Duration)
    (pinned : Bool) (inner : KvEngineInner T) (t : T) (ts : List T)
    → e.write_policy ≡ KvWritePolicy.primary
    → inner.tiers ≡ t ∷ ts
    → (put e now block ttl pinned inner).0 ≡ ok tt
    → let entry = entry_of now block ttl pinned in
      ((e.tier.put entry t).0 ≡ ok tt)
      × ((put e now block ttl pinned inner).1.tiers ≡ (e.tier.put entry t).1 ∷ ts)
unfolding put_entry_to
put-first e now block ttl pinned inner t ts primary there h =
    let entry = entry_of now block ttl pinned in
    let (result, tiers) = put-put_primary e now block ttl pinned inner primary in
    let opened = ap (λ us. put_entry_to e 0 entry us) there in
    (ap (λ r. r.0) (sym opened) ∙ sym result ∙ h, tiers ∙ ap (λ r. r.1) opened)

-- ===== src/Kv/Engine/Put/All.antt =====
-- What `KvEngine::put` with the policy `All` leaves in the tiers.
use mathlib.Core.Path.{subst}
use rivet_cache.Prelude.{inl, inr}
use rivet_cache.Prelude.{
  map, All, Bool, ℕ, ◌≡◌, refl, sym, ◌∙◌, ap, List, [], ◌∷◌, ◌++◌, Option, arith,
}
use rivet_cache.Prelude.Results.{Result-cases, Result, ok, err, ErrorKind}
use rivet_cache.Cache.{Duration}
use rivet_cache.Kv.{KvTierEntry, KvBlock}
use rivet_cache.Kv.Engine.{KvWritePolicy, KvEngine, KvEngineStats, KvEngineInner}
use rivet_cache.Kv.Engine.Put.{remove_written, put, put_all, put_by_policy, finish_put, entry_of}

pub finish_put-result :
    {T : Type 0} (r : Result (Unit {0})) (ts : List T) (stats : KvEngineStats)
    → ((finish_put r ts stats).0 ≡ r) × ((finish_put r ts stats).1.tiers ≡ ts)
unfolding finish_put
finish_put-result (ok tt) ts stats = (refl, refl)
finish_put-result (err x) ts stats = (refl, refl)

put-put_all :
    {T : Type 0} (e : KvEngine T) (now : ℕ) (block : KvBlock) (ttl : Option Duration)
    (pinned : Bool) (inner : KvEngineInner T)
    → e.write_policy ≡ KvWritePolicy.all
    → ((put e now block ttl pinned inner).0
        ≡ (put_all e (entry_of now block ttl pinned) [] inner.tiers).0)
      × ((put e now block ttl pinned inner).1.tiers
          ≡ (put_all e (entry_of now block ttl pinned) [] inner.tiers).1)
unfolding put put_by_policy
put-put_all e now block ttl pinned inner all =
    rw (all, put_by_policy)
      (finish_put-result (put_all e (entry_of now block ttl pinned) [] inner.tiers).0
        (put_all e (entry_of now block ttl pinned) [] inner.tiers).1 inner.stats)

module _ {T : Type 0} (e : KvEngine T) (entry : KvTierEntry) where
  -- A tier that has taken the entry, after the removal of its key.
  abbrev pub undone : T → T
  undone t = (e.tier.remove entry.block.key (e.tier.put entry t).1).1

  -- The tiers before one that fails have taken the entry, and `remove` was called for its key; those
  -- behind it are as they were.
  pub IsUndone : List T → ErrorKind → List T → Type 0
  IsUndone ts x after =
      (accepted : List T) × (failing : T) × (rest : List T) × (ts ≡ accepted ++ (failing ∷ rest))
      × All (λ t. (e.tier.put entry t).0 ≡ ok tt) accepted
      × ((e.tier.put entry failing).0 ≡ err x)
      × (after ≡ map undone accepted ++ ((e.tier.put entry failing).1 ∷ rest))

  put_all-undoes :
      (written ts : List T) (x : ErrorKind)
      → (put_all e entry written ts).0 ≡ err x
      → (below : List T) × IsUndone ts x below
        × ((put_all e entry written ts).1 ≡ remove_written e entry.block.key written below)
  unfolding put_all remove_written IsUndone
  put_all-undoes written [] x h = absurd (ground arith)
  put_all-undoes written (t ∷ ts) x h = elim (Result-cases (e.tier.put entry t).0) [
    | inl (u, q) ↦
        let (below, (accepted, failing, rest, parts, taken, refused, left), after) =
          put_all-undoes ((e.tier.put entry t).1 ∷ written) ts x (rw (q, put_all) at h) in
        (
          undone t ∷ below,
          (
            t ∷ accepted,
            failing,
            rest,
            ap (◌∷◌ t) parts,
            (q, taken),
            refused,
            ap (◌∷◌ (undone t)) left,
          ),
          rw (q, put_all) after,
        )
    | inr (y, q) ↦ (
      (e.tier.put entry t).1 ∷ ts,
      ([], t, ts, refl, tt, q ∙ (rw (q, put_all) at h), refl),
      rw (q, put_all),
    )
  ]

-- A `put` under the policy `All` that fails has stopped at a tier that refuses the entry with that
-- error. Each tier before it had taken the entry and is then as its `remove` of the key leaves it,
-- whether or not that works; the tier that refuses is as its own `put` leaves it, and those behind it
-- are as they were.
pub put-undoes_written :
    {T : Type 0} (e : KvEngine T) (now : ℕ) (block : KvBlock) (ttl : Option Duration)
    (pinned : Bool) (inner : KvEngineInner T) (x : ErrorKind)
    → e.write_policy ≡ KvWritePolicy.all
    → (put e now block ttl pinned inner).0 ≡ err x
    → IsUndone e
        (entry_of now block ttl pinned)
        inner.tiers
        x
        (put e now block ttl pinned inner).1.tiers
unfolding remove_written
put-undoes_written e now block ttl pinned inner x all h =
    let entry = entry_of now block ttl pinned in
    let (result, tiers) = put-put_all e now block ttl pinned inner all in
    let (below, undone_, after) = put_all-undoes e entry [] inner.tiers x (sym result ∙ h) in
    subst (λ ts. IsUndone e entry inner.tiers x ts) (sym (tiers ∙ after)) undone_

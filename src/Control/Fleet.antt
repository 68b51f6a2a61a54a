-- ===== src/Control/Fleet.antt =====
-- src/control.rs: `FleetRegistry`, with `WorkerRole` of src/distributed.rs. The clock is the argument
-- `now`. The mutex is not modelled.
use rivet_cache.Prelude.{
  ℕ, ◌-◌, ◌≡◌, refl, Bool, ◌||◌, List, [], ◌∷◌, Option, none, some, leb, ltb, ◌==◌, if◌then◌else◌,
  length, arith, Bool-cases, inl, inr,
}
use rivet_cache.Prelude.Lists.{Bytes, Bytes-discrete, retain}
use rivet_cache.Prelude.Maps.{lookup, insert, Distinct}
use rivet_cache.Prelude.Text.{is_blank}
use rivet_cache.Prelude.Results.{ok, err, invalid_input}
use rivet_cache.Prelude.States.{Op}
use rivet_cache.Control.{validate_id}

pub data WorkerRole : Type 0 where
  prefill decode hybrid : WorkerRole

pub record FleetNode : Type 0 where
  pub id : Bytes
  pub endpoint : Bytes
  pub role : WorkerRole
  pub capacity_bytes : ℕ
  pub used_bytes : ℕ
  pub last_seen_epoch_secs : ℕ

abbrev pub FleetRegistry : Type 0
FleetRegistry = List (Bytes × FleetNode)

unfoldable pub heartbeat : ℕ → Bytes → Bytes → WorkerRole → ℕ → ℕ → Op FleetRegistry FleetNode
heartbeat now id endpoint role capacity_bytes used_bytes nodes = elim (validate_id id) [
  | err x ↦ (err x, nodes)
  | ok _ ↦
      if is_blank endpoint || capacity_bytes == 0 || ltb capacity_bytes used_bytes
      then (err invalid_input, nodes)
      else (
        ok (record {
          id = id;
          endpoint = endpoint;
          role = role;
          capacity_bytes = capacity_bytes;
          used_bytes = used_bytes;
          last_seen_epoch_secs = now;
        }),
        insert Bytes-discrete id
            (record {
              id = id;
              endpoint = endpoint;
              role = role;
              capacity_bytes = capacity_bytes;
              used_bytes = used_bytes;
              last_seen_epoch_secs = now;
            })
            nodes,
      )
]

unfoldable pub is_recent : ℕ → ℕ → Bytes × FleetNode → Bool
is_recent now max_age (id, node) = leb (now - node.last_seen_epoch_secs) max_age

unfoldable pub prune_stale : ℕ → ℕ → Op FleetRegistry ℕ
unfolding is_recent
prune_stale now max_age nodes =
    let kept = retain (is_recent now max_age) nodes in (ok (length nodes - length kept), kept)

-- The node, unless it is stale.
abbrev pub if_recent : ℕ → ℕ → Option FleetNode → Option FleetNode
if_recent now max_age none = none
if_recent now max_age (some node) =
    if leb (now - node.last_seen_epoch_secs) max_age then some node else none

lookup-retain-none :
    (p : Bytes × FleetNode → Bool) (k : Bytes) (m : FleetRegistry)
    → lookup Bytes-discrete k m ≡ none
    → lookup Bytes-discrete k (retain p m) ≡ none
unfolding lookup retain
lookup-retain-none p k [] h = refl
lookup-retain-none p k ((j, v) ∷ m) h = elim (Bytes-discrete k j) [
  | yes same ↦ absurd (ground arith)
  | no other ↦ ground (arith, lookup-retain-none p k m)
]

-- A registry that holds no id twice shows after `prune_stale` just the nodes that were seen within
-- the age, and still holds no id twice.
prune_stale-lookup :
    (now max_age : ℕ) (k : Bytes) (m : FleetRegistry)
    → Distinct Bytes-discrete m
    → Distinct Bytes-discrete (prune_stale now max_age m).1
      × (lookup Bytes-discrete k (prune_stale now max_age m).1
          ≡ if_recent now max_age (lookup Bytes-discrete k m))
unfolding prune_stale retain lookup is_recent
prune_stale-lookup now max_age k [] d = (tt, refl)
prune_stale-lookup now max_age k ((j, v) ∷ m) (absent, d) =
    let (rest, shown) = prune_stale-lookup now max_age k m d in
    let gone = lookup-retain-none (is_recent now max_age) j m absent in
    elim (Bool-cases (leb (now - v.last_seen_epoch_secs) max_age)) [
      | inl recent ↦ rw (recent, retain) ((gone, rest), ground arith)
      | inr stale ↦ rw (stale, retain) (rest, ground arith)
    ]

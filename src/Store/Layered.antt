-- ===== src/Store/Layered.antt =====
-- src/store.rs: `LayeredStore`. The backends share one implementation `st`, over a state that may
-- be a sum, and each has a state of its own: no backend stands in the list twice.
-- The vector `inserted_backends` is the flag beside each backend that was written.
pub mod Atomic
use rivet_cache.Prelude.{
  ℕ, Bool, true, false, not, ◌&&◌, ◌||◌, List, [], ◌∷◌, ◌++◌, Option, none, some, bool_eq, ◌==◌,
  if◌then◌else◌, max, holds,
}
use rivet_cache.Prelude.Lists.{Bytes, Bytes-discrete}
use rivet_cache.Prelude.Maps.{lookup, insert}
use rivet_cache.Prelude.Words.{sat_add}
use rivet_cache.Prelude.Results.{ErrorKind, Result, ok, err, invalid_data, invalid_input}
use rivet_cache.Prelude.States.{Op, first_error}
use rivet_cache.Store.{StoredEntry, StoreRecord, StoreSnapshot, PutOutcome, PersistentStore}

-- `derive(PartialEq)` on `StoredEntry`.
pub entry_eq : StoredEntry → StoredEntry → Bool
entry_eq a b =
    holds (Bytes-discrete a.value b.value)
    && a.expires_at == b.expires_at
    && bool_eq a.pinned b.pinned

unfoldable pub new {ℓ} : {S : Type ℓ} → List S → Result (List S)
new [] = err invalid_input
new (s ∷ ss) = ok (s ∷ ss)

-- One record of a backend's index joins the merged index.
unfoldable pub merge_record :
    List (Bytes × StoreRecord) → StoreRecord → Result (List (Bytes × StoreRecord))
merge_record merged record_ = elim (lookup Bytes-discrete record_.key merged) [
  | none ↦ ok (insert Bytes-discrete record_.key record_ merged)
  | some current ↦
      if not (current.expires_at == record_.expires_at)
        || not (bool_eq current.pinned record_.pinned)
      then err invalid_data
      else ok (
          insert Bytes-discrete record_.key
            (record current {
              stored_bytes = sat_add current.stored_bytes record_.stored_bytes;
              last_access = max current.last_access record_.last_access;
            })
            merged)
]

unfoldable pub merge_records :
    List (Bytes × StoreRecord) → List StoreRecord → Result (List (Bytes × StoreRecord))
merge_records merged [] = ok merged
merge_records merged (r ∷ rs) = elim (merge_record merged r) [
  | ok merged' ↦ merge_records merged' rs
  | err e ↦ err e
]

unfoldable pub into_values : List (Bytes × StoreRecord) → List StoreRecord
into_values [] = []
into_values ((k, r) ∷ m) = r ∷ into_values m

module _ {S : Type 0} (st : PersistentStore S) where
  pub merge_all :
      List (Bytes × StoreRecord) → ℕ → List S → Result (List (Bytes × StoreRecord) × ℕ) × List S
  merge_all merged corruptions [] = (ok (merged, corruptions), [])
  merge_all merged corruptions (s ∷ ss) =
      let (r, s') = st.load_index s in
      elim r [
        | err e ↦ (err e, s' ∷ ss)
        | ok snapshot ↦ elim (merge_records merged snapshot.entries) [
          | err e ↦ (err e, s' ∷ ss)
          | ok merged' ↦
              let (r', ss') = merge_all merged' (sat_add corruptions snapshot.corruptions) ss in
              (r', s' ∷ ss')
        ]
      ]

  unfoldable pub load_index : Op (List S) StoreSnapshot
  unfolding merge_all
  load_index ss =
      let (r, ss') = merge_all [] 0 ss in
      elim r [
        | err e ↦ (err e, ss')
        | ok x ↦ (ok (record { entries = into_values x.0; corruptions = x.1 }), ss')
      ]

  -- The first backend that has the key answers.
  unfoldable pub get : Bytes → Op (List S) (Option StoredEntry)
  get key [] = (ok none, [])
  get key (s ∷ ss) =
      let (r, s') = st.get key s in
      elim r [
        | err e ↦ (err e, s' ∷ ss)
        | ok found ↦ elim found [
          | some entry ↦ (ok (some entry), s' ∷ ss)
          | none ↦ let (r', ss') = get key ss in (r', s' ∷ ss')
        ]
      ]

  -- The first loop of `put_if_absent`: no backend may hold another entry.
  pub check : Bytes → StoredEntry → Op (List S) (Unit {0})
  check key entry [] = (ok tt, [])
  check key entry (s ∷ ss) =
      let (r, s') = st.get key s in
      elim r [
        | err e ↦ (err e, s' ∷ ss)
        | ok found ↦ elim found [
          | some existing ↦ elim (entry_eq existing entry) [
            | true ↦ let (r', ss') = check key entry ss in (r', s' ∷ ss')
            | false ↦ (err invalid_data, s' ∷ ss)
          ]
          | none ↦ let (r', ss') = check key entry ss in (r', s' ∷ ss')
        ]
      ]

  -- The backends written so far, the last one first, with the flag `inserted`.
  abbrev pub Written : Type 0
  Written = List (Bool × S)

  -- Undo the insertions; an error of `remove` is ignored.
  pub roll_back : Bytes → Written → List S → List S
  roll_back key [] rest = rest
  roll_back key ((inserted, s) ∷ done) rest =
      roll_back key done ((if inserted then (st.remove key s).1 else s) ∷ rest)

  pub keep : Written → List S → List S
  keep [] rest = rest
  keep ((inserted, s) ∷ done) rest = keep done (s ∷ rest)

  pub any_inserted : Written → Bool
  any_inserted [] = false
  any_inserted ((inserted, s) ∷ done) = inserted || any_inserted done

  -- The second loop of `put_if_absent`.
  pub write : Bytes → StoredEntry → ℕ → Written → Op (List S) PutOutcome
  write key entry stored_bytes done [] =
      (ok (record { inserted = any_inserted done; stored_bytes = stored_bytes }), keep done [])
  write key entry stored_bytes done (s ∷ ss) =
      let (r, s') = st.put_if_absent key entry s in
      elim r [
        | ok outcome ↦
            write key entry (sat_add stored_bytes outcome.stored_bytes)
              ((outcome.inserted, s') ∷ done) ss
        | err e ↦ (err e, roll_back key done (s' ∷ ss))
      ]

  unfoldable pub put_if_absent : Bytes → StoredEntry → Op (List S) PutOutcome
  unfolding check write roll_back keep any_inserted
  put_if_absent key entry ss =
      let (r, ss') = check key entry ss in
      elim r [ ok _ ↦ write key entry 0 [] ss' | err e ↦ (err e, ss') ]

  -- `remove` and `clear` go through all backends and return the first error.
  unfoldable pub remove : Bytes → Op (List S) (Unit {0})
  remove key [] = (ok tt, [])
  remove key (s ∷ ss) =
      let (r, s') = st.remove key s in let (r', ss') = remove key ss in (first_error r r', s' ∷ ss')

  unfoldable pub clear : Op (List S) (Unit {0})
  clear [] = (ok tt, [])
  clear (s ∷ ss) =
      let (r, s') = st.clear s in let (r', ss') = clear ss in (first_error r r', s' ∷ ss')

  abbrev pub store : PersistentStore (List S)
  store = record {
    load_index = load_index;
    get = get;
    put_if_absent = put_if_absent;
    remove = remove;
    clear = clear;
  }

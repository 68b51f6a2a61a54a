-- ===== src/Store/Contract.antt =====
-- What a backend promises through `PersistentStore`: it is seen as a partial function from keys to
-- entries. Every call may fail, and a call that fails has not changed what is seen. `VolatileStore`
-- keeps the contract.
use mathlib.Core.Path.{fun_ext, subst}
use rivet_cache.Prelude.{
  Option-cases, ℕ, List, inl, inr, Option-cases, ◌∙◌, true, false, ◌≡◌, ◌≢◌, Option, none, some,
  ite, arith,
}
use rivet_cache.Prelude.Lists.{Bytes, Bytes-discrete}
use rivet_cache.Prelude.Maps.{lookup, insert, remove, lookup-insert, lookup-remove}
use rivet_cache.Prelude.Results.{ErrorKind, ok, err}
use rivet_cache.Store.{StoredEntry, PutOutcome, PersistentStore}
use rivet_cache.Store.Volatile
use rivet_cache.Store.Volatile.{VolatileStore}

abbrev pub View : Type 0
View = Bytes → Option StoredEntry

abbrev pub update : View → Bytes → Option StoredEntry → View
update f k o j = ite (Bytes-discrete j k) o (f j)

pub record IsBackend {S : Type 0} (st : PersistentStore S) (view : S → View) : Type 0 where
  pub get_keeps : (k : Bytes) (s : S) → view (st.get k s).1 ≡ view s
  pub get_reads :
      (k : Bytes) (s : S) (o : Option StoredEntry) → (st.get k s).0 ≡ ok o → o ≡ view s k
  pub put_fails :
      (k : Bytes) (e : StoredEntry) (s : S) (x : ErrorKind)
      → (st.put_if_absent k e s).0 ≡ err x
      → view (st.put_if_absent k e s).1 ≡ view s
  pub put_inserts :
      (k : Bytes) (e : StoredEntry) (s : S) (o : PutOutcome)
      → (st.put_if_absent k e s).0 ≡ ok o
      → o.inserted ≡ true
      → (view s k ≡ none) × (view (st.put_if_absent k e s).1 ≡ update (view s) k (some e))
  pub put_finds :
      (k : Bytes) (e : StoredEntry) (s : S) (o : PutOutcome)
      → (st.put_if_absent k e s).0 ≡ ok o
      → o.inserted ≡ false
      → (view s k ≢ none) × (view (st.put_if_absent k e s).1 ≡ view s)

-- `remove` always works: what the best-effort rollback relies on.
pub record CanRemove {S : Type 0} (st : PersistentStore S) (view : S → View) : Type 0 where
  pub remove_erases : (k : Bytes) (s : S) → view (st.remove k s).1 ≡ update (view s) k none

-- To erase what was put where nothing was leaves the view as it was.
pub update-update_absent :
    (f : View) (k : Bytes) (e : StoredEntry) → f k ≡ none → update (update f k (some e)) k none ≡ f
update-update_absent f k e h = fun_ext (λ j. at j)
  where
    at : (j : Bytes) → update (update f k (some e)) k none j ≡ f j
    at j = ground arith

abbrev pub entry_of : Option (StoredEntry × ℕ) → Option StoredEntry
entry_of none = none
entry_of (some x) = some x.0

abbrev pub entries_view : List (Bytes × (StoredEntry × ℕ)) → View
entries_view m k = entry_of (lookup Bytes-discrete k m)

abbrev pub volatile_view : VolatileStore → View
volatile_view s = entries_view s.entries

entries_view-insert :
    (k : Bytes) (e : StoredEntry) (t : ℕ) (m : List (Bytes × (StoredEntry × ℕ)))
    → entries_view (insert Bytes-discrete k (e, t) m) ≡ update (entries_view m) k (some e)
entries_view-insert k e t m = fun_ext (λ j. at j)
  where
    at :
        (j : Bytes)
        → entries_view (insert Bytes-discrete k (e, t) m) j ≡ update (entries_view m) k (some e) j
    at j = rw lookup-insert (ground arith)

entries_view-remove :
    (k : Bytes) (m : List (Bytes × (StoredEntry × ℕ)))
    → entries_view (remove Bytes-discrete k m) ≡ update (entries_view m) k none
entries_view-remove k m = fun_ext (λ j. at j)
  where
    at : (j : Bytes) → entries_view (remove Bytes-discrete k m) j ≡ update (entries_view m) k none j
    at j = rw lookup-remove (ground arith)

pub update_same : (f : View) (k : Bytes) → update f k (f k) ≡ f
update_same f k = fun_ext (λ j. at j)
  where
    at : (j : Bytes) → update f k (f k) j ≡ f j
    at j = ground arith

module _ (k : Bytes) (s : VolatileStore) where
  volatile_get_keeps : volatile_view (Volatile.get k s).1 ≡ volatile_view s
  unfolding Volatile.get lookup
  volatile_get_keeps = elim (Option-cases (lookup Bytes-discrete k s.entries)) [
    | inl absent ↦ rw (absent, Volatile.get)
    | inr ((e, t), there) ↦ rw there (
        entries_view-insert k e _ s.entries
        ∙ subst (λ o. update (volatile_view s) k o ≡ volatile_view s) (rw (there, entries_view))
            (update_same (volatile_view s) k))
  ]

  module _ (e : StoredEntry) (o : PutOutcome) (h : (Volatile.put_if_absent k e s).0 ≡ ok o) where
    volatile_put_inserts :
        o.inserted ≡ true
        → (volatile_view s k ≡ none)
          × (volatile_view (Volatile.put_if_absent k e s).1 ≡ update (volatile_view s) k (some e))
    unfolding Volatile.put_if_absent
    volatile_put_inserts i = elim (Option-cases (lookup Bytes-discrete k s.entries)) [
      | inl absent ↦
          (rw absent, rw (absent, Volatile.put_if_absent) (entries_view-insert k e _ s.entries))
      | inr (x, there) ↦ absurd (ground arith)
    ]

    volatile_put_finds :
        o.inserted ≡ false
        → (volatile_view s k ≢ none)
          × (volatile_view (Volatile.put_if_absent k e s).1 ≡ volatile_view s)
    unfolding Volatile.put_if_absent
    volatile_put_finds i = elim (Option-cases (lookup Bytes-discrete k s.entries)) [
      | inl absent ↦ absurd (ground arith)
      | inr (x, there) ↦ ((λ n. cc (there, n)), rw (there, Volatile.put_if_absent))
    ]

-- The in-process backend keeps the contract of a backend: a `get` reads what it shows and changes
-- nothing, a `put_if_absent` that inserts shows the entry where nothing was, one that finds a key or
-- fails changes nothing.
pub volatile-IsBackend : IsBackend Volatile.store volatile_view
unfolding Volatile.get Volatile.put_if_absent
volatile-IsBackend = record {
  get_keeps = volatile_get_keeps;
  get_reads = λ k s o h. ground arith;
  put_fails = λ k e s x h. ground arith;
  put_inserts = λ k e s o h. volatile_put_inserts k s e o h;
  put_finds = λ k e s o h. volatile_put_finds k s e o h;
}

pub volatile-CanRemove : CanRemove Volatile.store volatile_view
unfolding Volatile.remove
volatile-CanRemove = record { remove_erases = λ k s. entries_view-remove k s.entries }

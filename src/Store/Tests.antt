-- ===== src/Store/Tests.antt =====
-- Runs of src/store.rs, and the theorems on layered stores at concrete inputs.
use rivet_cache.Prelude.{◌≡◌, ◌≢◌, refl, Bool, true, false, [], ◌∷◌, map, none, some}
use rivet_cache.Prelude.Lists.{Bytes, Bytes-discrete}
use rivet_cache.Prelude.Maps.{lookup, insert, remove}
use rivet_cache.Prelude.Words.{sat_add}
use rivet_cache.Prelude.Results.{Result, ok, err, other, ErrorKind}
use rivet_cache.Store.{StoredEntry, PutOutcome, PersistentStore}
use rivet_cache.Store.Volatile
use rivet_cache.Store.Volatile.{VolatileStore}
use rivet_cache.Store.Contract.{
  View, update, IsBackend, CanRemove, volatile_view, volatile-IsBackend, volatile-CanRemove,
}
use rivet_cache.Store.Layered.{put_if_absent, get}
use rivet_cache.Store.Layered.Atomic.{put-rolls_back, put-replicates}

-- A volatile store behind a switch that makes `put_if_absent` fail.
abbrev Flaky : Type 0
Flaky = Bool × VolatileStore

abbrev flaky_put : Bytes → StoredEntry → Flaky → Result PutOutcome × Flaky
flaky_put k e (true, s) = (err other, (true, s))
flaky_put k e (false, s) = let (r, s') = Volatile.put_if_absent k e s in (r, (false, s'))

abbrev flaky : PersistentStore Flaky
flaky = record {
  load_index = λ s. let (r, s') = Volatile.load_index s.1 in (r, (s.0, s'));
  get = λ k s. let (r, s') = Volatile.get k s.1 in (r, (s.0, s'));
  put_if_absent = flaky_put;
  remove = λ k s. let (r, s') = Volatile.remove k s.1 in (r, (s.0, s'));
  clear = λ s. let (r, s') = Volatile.clear s.1 in (r, (s.0, s'));
}

abbrev flaky_view : Flaky → View
flaky_view s = volatile_view s.1

flaky_fails :
    (k : Bytes) (e : StoredEntry) (s : Flaky) (x : ErrorKind)
    → (flaky_put k e s).0 ≡ err x
    → flaky_view (flaky_put k e s).1 ≡ flaky_view s
flaky_fails k e (true, s) x h = refl
flaky_fails k e (false, s) x h = volatile-IsBackend.put_fails k e s x h

flaky_inserts :
    (k : Bytes) (e : StoredEntry) (s : Flaky) (o : PutOutcome)
    → (flaky_put k e s).0 ≡ ok o
    → o.inserted ≡ true
    → (flaky_view s k ≡ none) × (flaky_view (flaky_put k e s).1 ≡ update (flaky_view s) k (some e))
flaky_inserts k e (true, s) o h = cc
flaky_inserts k e (false, s) o h = volatile-IsBackend.put_inserts k e s o h

flaky_finds :
    (k : Bytes) (e : StoredEntry) (s : Flaky) (o : PutOutcome)
    → (flaky_put k e s).0 ≡ ok o
    → o.inserted ≡ false
    → (flaky_view s k ≢ none) × (flaky_view (flaky_put k e s).1 ≡ flaky_view s)
flaky_finds k e (true, s) o h = cc
flaky_finds k e (false, s) o h = volatile-IsBackend.put_finds k e s o h

flaky-IsBackend : IsBackend flaky flaky_view
flaky-IsBackend = record {
  get_keeps = λ k s. volatile-IsBackend.get_keeps k s.1;
  get_reads = λ k s o h. volatile-IsBackend.get_reads k s.1 o h;
  put_fails = flaky_fails;
  put_inserts = flaky_inserts;
  put_finds = flaky_finds;
}

flaky-CanRemove : CanRemove flaky flaky_view
flaky-CanRemove = record { remove_erases = λ k s. volatile-CanRemove.remove_erases k s.1 }

abbrev entry : StoredEntry
entry = record { value = 1 ∷ 2 ∷ []; expires_at = 0; pinned = false }

abbrev healthy : Flaky
healthy = (false, Volatile.new)

abbrev broken : Flaky
broken = (true, Volatile.new)

program : Unit {0}
unfolding put_if_absent get Volatile.put_if_absent Volatile.get Volatile.remove lookup insert remove
    Bytes-discrete sat_add
program = tt

put_fails_runs : (put_if_absent flaky (b'k' ∷ []) entry (healthy ∷ broken ∷ [])).0 ≡ err other
unfolding program
put_fails_runs = refl

put_runs :
    (put_if_absent flaky (b'k' ∷ []) entry (healthy ∷ healthy ∷ [])).0
    ≡ ok (record { inserted = true; stored_bytes = 4 })
unfolding program
put_runs = refl

put-rolls_back_example :
    map flaky_view (put_if_absent flaky (b'k' ∷ []) entry (healthy ∷ broken ∷ [])).1
    ≡ map flaky_view (healthy ∷ broken ∷ [])
put-rolls_back_example =
    put-rolls_back flaky flaky_view flaky-IsBackend flaky-CanRemove (b'k' ∷ []) entry
      (healthy ∷ broken ∷ []) other put_fails_runs

put-replicates_example :
    map flaky_view (put_if_absent flaky (b'k' ∷ []) entry (healthy ∷ healthy ∷ [])).1
    ≡ map (λ f. update f (b'k' ∷ []) (some entry)) (map flaky_view (healthy ∷ healthy ∷ []))
put-replicates_example =
    put-replicates flaky flaky_view flaky-IsBackend (b'k' ∷ []) entry (healthy ∷ healthy ∷ [])
      (record { inserted = true; stored_bytes = 4 }) put_runs

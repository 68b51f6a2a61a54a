-- ===== src/Store/Layered/Atomic.antt =====
-- `LayeredStore::put_if_absent` writes every backend or none.
use mathlib.Core.Path.{subst}
use rivet_cache.Prelude.{
  ℕ, Bool, true, false, ◌≡◌, refl, sym, ◌∙◌, ap, none, some, List, [], ◌∷◌, map, arith,
  if◌then◌else◌, Bool-cases, inl, inr, ◌⊎◌,
}
use rivet_cache.Prelude.Lists.{Bytes, All}
use rivet_cache.Prelude.Words.{sat_add}
use rivet_cache.Prelude.Results.{Result-cases, ErrorKind, ok, err}
use rivet_cache.Store.{StoredEntry, PutOutcome, PersistentStore}
use rivet_cache.Store.Contract.{
  View, update, IsBackend, CanRemove, update-update_absent, update_same,
}
use rivet_cache.Store.Layered.{check, Written, roll_back, keep, write, put_if_absent, entry_eq}

pub rev_onto {ℓ} : {A : Type ℓ} → List A → List A → List A
rev_onto [] rest = rest
rev_onto (x ∷ xs) rest = rev_onto xs (x ∷ rest)

entry_eq→eq : (a b : StoredEntry) → entry_eq a b ≡ true → a ≡ b
unfolding entry_eq
entry_eq→eq a b h = ground arith

module _ {S : Type 0} (st : PersistentStore S) (view : S → View) (b : IsBackend st view) where
  check-view :
      (k : Bytes) (e : StoredEntry) (ss : List S) → map view (check st k e ss).1 ≡ map view ss
  unfolding check
  check-view k e [] = refl
  check-view k e (s ∷ ss) = ground (arith, check-view k e ss, b.get_keeps k s)

  module _ (c : CanRemove st view) (k : Bytes) (e : StoredEntry) where
    -- What a written backend shows once its insertion is undone.
    undone : Bool × S → View
    undone (inserted, s) = if inserted then update (view s) k none else view s

    roll_back-view :
        (done : Written st) (rest : List S)
        → map view (roll_back st k done rest) ≡ rev_onto (map undone done) (map view rest)
    unfolding roll_back rev_onto undone
    roll_back-view [] rest = refl
    roll_back-view ((true, s) ∷ done) rest =
        roll_back-view done ((st.remove k s).1 ∷ rest)
        ∙ ap (λ v. rev_onto (map undone done) (v ∷ map view rest)) (c.remove_erases k s)
    roll_back-view ((false, s) ∷ done) rest = roll_back-view done (s ∷ rest)

    put-undone :
        (s : S) (o : PutOutcome)
        → (st.put_if_absent k e s).0 ≡ ok o
        → undone (o.inserted, (st.put_if_absent k e s).1) ≡ view s
    unfolding undone
    put-undone s o h = elim (Bool-cases o.inserted) [
      | inl new ↦
          let (absent, seen) = b.put_inserts k e s o h new in
          rw (new, seen) (update-update_absent (view s) k e absent)
      | inr old ↦ rw old ((b.put_finds k e s o h old).1)
    ]

    write-view_err :
        (ss : List S) (n : ℕ) (done : Written st) (x : ErrorKind)
        → (write st k e n done ss).0 ≡ err x
        → map view (write st k e n done ss).1 ≡ rev_onto (map undone done) (map view ss)
    unfolding write rev_onto
    write-view_err [] n done x h = absurd (cc h)
    write-view_err (s ∷ ss) n done x h = elim (Result-cases (st.put_if_absent k e s).0) [
      | inr (y, q) ↦
          rw (q, write)
            (roll_back-view done ((st.put_if_absent k e s).1 ∷ ss)
              ∙ ap (λ v. rev_onto (map undone done) (v ∷ map view ss)) (b.put_fails k e s y q))
      | inl (o, q) ↦
          rw (q, write)
            (write-view_err ss (sat_add n o.stored_bytes)
                ((o.inserted, (st.put_if_absent k e s).1) ∷ done) x (rw (q, write) at h)
              ∙ ap (λ v. rev_onto (map undone done) (v ∷ map view ss)) (put-undone s o q))
    ]

    -- Over backends that keep the contract of Store/Contract, where a `put_if_absent` that fails changes
    -- nothing, and whose `remove` always works, a failed `put_if_absent` of the layers leaves every
    -- backend with the entries that it had.
    pub put-rolls_back :
        (ss : List S) (x : ErrorKind)
        → (put_if_absent st k e ss).0 ≡ err x
        → map view (put_if_absent st k e ss).1 ≡ map view ss
    unfolding put_if_absent rev_onto
    put-rolls_back ss x h = elim (Result-cases (check st k e ss).0) [
      | inr (y, q) ↦ rw (q, put_if_absent) (check-view k e ss)
      | inl (_, q) ↦
          rw (q, put_if_absent)
            (write-view_err (check st k e ss).1 0 [] x (rw (q, put_if_absent) at h)
              ∙ check-view k e ss)
    ]

  module _ (k : Bytes) (e : StoredEntry) where
    -- What the first loop has seen when it ends without an error.
    Agrees : View → Type 0
    Agrees f = (f k ≡ none) ⊎ (f k ≡ some e)

    check-Agrees : (ss : List S) → (check st k e ss).0 ≡ ok tt → All Agrees (map view ss)
    unfolding check Agrees
    check-Agrees [] h = tt
    check-Agrees (s ∷ ss) h = elim (Result-cases (st.get k s).0) [
      | inr (y, q) ↦ cc (rw (q, check) at h)
      | inl (none, q) ↦ (inl (sym (b.get_reads k s none q)), check-Agrees ss (rw (q, check) at h))
      | inl (some f, q) ↦ elim (Bool-cases (entry_eq f e)) [
        | inl same ↦ (
          inr (sym (b.get_reads k s (some f) q) ∙ ap some (entry_eq→eq f e same)),
          check-Agrees ss (rw (q, check, same) at h),
        )
        | inr other ↦ cc (rw (q, check, other) at h)
      ]
    ]

    put-written :
        (s : S) (o : PutOutcome)
        → Agrees (view s)
        → (st.put_if_absent k e s).0 ≡ ok o
        → view (st.put_if_absent k e s).1 ≡ update (view s) k (some e)
    unfolding Agrees
    put-written s o a h = elim (Bool-cases o.inserted) [
      | inl new ↦ (b.put_inserts k e s o h new).1
      | inr old ↦
          let (there, kept) = b.put_finds k e s o h old in
          elim a [
            | inl absent ↦ absurd (there absent)
            | inr same ↦ kept ∙ sym (rw (← same) (update_same (view s) k))
          ]
    ]

    keep-view :
        (done : Written st) (rest : List S)
        → map view (keep st done rest) ≡ rev_onto (map (λ d. view d.1) done) (map view rest)
    unfolding keep rev_onto
    keep-view [] rest = refl
    keep-view ((inserted, s) ∷ done) rest = keep-view done (s ∷ rest)

    write-view_ok :
        (ss : List S) (n : ℕ) (done : Written st) (o : PutOutcome)
        → All Agrees (map view ss)
        → (write st k e n done ss).0 ≡ ok o
        → map view (write st k e n done ss).1
          ≡ rev_onto (map (λ d. view d.1) done) (map (λ f. update f k (some e)) (map view ss))
    unfolding write rev_onto
    write-view_ok [] n done o a h = keep-view done []
    write-view_ok (s ∷ ss) n done o a h = elim (Result-cases (st.put_if_absent k e s).0) [
      | inr (y, q) ↦ cc (rw (q, write) at h)
      | inl (p, q) ↦
          rw (q, write)
            (write-view_ok ss (sat_add n p.stored_bytes)
                ((p.inserted, (st.put_if_absent k e s).1) ∷ done) o a.1 (rw (q, write) at h)
              ∙ ap
                  (λ v.
                    rev_onto (map (λ d. view d.1) done)
                      (v ∷ map (λ f. update f k (some e)) (map view ss)))
                  (put-written s p a.0 q))
    ]

    -- After a successful `put_if_absent` every backend holds the entry, and no other key changed.
    pub put-replicates :
        (ss : List S) (o : PutOutcome)
        → (put_if_absent st k e ss).0 ≡ ok o
        → map view (put_if_absent st k e ss).1 ≡ map (λ f. update f k (some e)) (map view ss)
    unfolding put_if_absent rev_onto
    put-replicates ss o h = elim (Result-cases (check st k e ss).0) [
      | inr (y, q) ↦ cc (rw (q, put_if_absent) at h)
      | inl (_, q) ↦
          rw (q, put_if_absent)
            (write-view_ok (check st k e ss).1 0 [] o
                (subst (All Agrees) (sym (check-view k e ss)) (check-Agrees ss q))
                (rw (q, put_if_absent) at h)
              ∙ ap (map (λ f. update f k (some e))) (check-view k e ss))
    ]

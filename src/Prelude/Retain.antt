-- ===== src/Prelude/Retain.antt =====
-- What `retain` keeps.
use mathlib.Core.List.Memᴰ
use mathlib.Core.List.Memᴰ.{head, tail}
use mathlib.Core.List.{List, [], ◌∷◌, ◌++◌, Memᴰ}
use mathlib.Core.Path.{subst, ◌≡◌, refl, sym, ap, ◌∙◌}
use mathlib.Core.Logic.{inl, inr}
use mathlib.Core.Bool.{Bool, true, false}
use rivet_cache.Prelude.Tests.{Bool-cases}
use rivet_cache.Prelude.Lists.{retain, All}

module _ {ℓ} {A : Type ℓ} (p : A → Bool) where
  retain_keep : (x : A) (xs : List A) → p x ≡ true → retain p (x ∷ xs) ≡ x ∷ retain p xs
  unfolding retain
  retain_keep x xs h = rw (h, retain)

  retain_skip : (x : A) (xs : List A) → p x ≡ false → retain p (x ∷ xs) ≡ retain p xs
  unfolding retain
  retain_skip x xs h = rw (h, retain)

  pub retain-append : (xs ys : List A) → retain p (xs ++ ys) ≡ retain p xs ++ retain p ys
  unfolding retain
  retain-append [] ys = refl
  retain-append (x ∷ xs) ys = elim (Bool-cases (p x)) [
    | inl keep ↦ rw (retain_keep x xs keep, retain_keep x (xs ++ ys) keep, retain-append xs ys)
    | inr skip ↦ rw (retain_skip x xs skip, retain_skip x (xs ++ ys) skip, retain-append xs ys)
  ]

  pub retain-mem : (x : A) (xs : List A) → p x ≡ true → Memᴰ x xs → Memᴰ x (retain p xs)
  retain-mem x [] h m = elim m [ ]
  retain-mem x (y ∷ ys) h m = elim (Memᴰ.cases_cons m) [
    | inl e ↦ subst (Memᴰ x) (sym (retain_keep y ys (sym (ap p e) ∙ h))) (head e)
    | inr t ↦ elim (Bool-cases (p y)) [
      | inl keep ↦ subst (Memᴰ x) (sym (retain_keep y ys keep)) (tail (retain-mem x ys h t))
      | inr skip ↦ subst (Memᴰ x) (sym (retain_skip y ys skip)) (retain-mem x ys h t)
    ]
  ]

  pub mem-retain : (x : A) (xs : List A) → Memᴰ x (retain p xs) → Memᴰ x xs × (p x ≡ true)
  unfolding retain
  mem-retain x [] m = elim m [ ]
  mem-retain x (y ∷ ys) m = elim (Bool-cases (p y)) [
    | inl keep ↦ elim (Memᴰ.cases_cons (subst (Memᴰ x) (retain_keep y ys keep) m)) [
      | inl e ↦ (head e, cc)
      | inr t ↦ let (there, holds_) = mem-retain x ys t in (tail there, holds_)
    ]
    | inr skip ↦
        let (there, holds_) = mem-retain x ys (subst (Memᴰ x) (retain_skip y ys skip) m) in
        (tail there, holds_)
  ]

  -- A property of all elements is one of those that are kept, which pass the test besides.
  pub retain-All {κ} :
      (P : A → Type κ) (xs : List A) → All P xs → All (λ x. P x × (p x ≡ true)) (retain p xs)
  unfolding retain
  retain-All P [] ps = tt
  retain-All P (x ∷ xs) (q, qs) = elim (Bool-cases (p x)) [
    | inl keep ↦ rw (retain_keep x xs keep) ((q, keep), retain-All P xs qs)
    | inr skip ↦ rw (retain_skip x xs skip) (retain-All P xs qs)
  ]

module _ {ℓ} {A : Type ℓ} where
  pub All-map {κ ν} :
      {P : A → Type κ} {Q : A → Type ν} (xs : List A) → ((x : A) → P x → Q x) → All P xs → All Q xs
  All-map [] f ps = tt
  All-map (x ∷ xs) f (p, ps) = (f x p, All-map xs f ps)

  pub All-mem : (xs : List A) → All (λ x. Memᴰ x xs) xs
  All-mem [] = tt
  All-mem (x ∷ xs) = (head refl, All-map xs (λ y m. tail m) (All-mem xs))

  pub All-append : (P : A → Type 0) (xs ys : List A) → All P xs → All P ys → All P (xs ++ ys)
  All-append P [] ys ps qs = qs
  All-append P (x ∷ xs) ys (p, ps) qs = (p, All-append P xs ys ps qs)

  pub All-and : (P Q : A → Type 0) (xs : List A) → All P xs → All Q xs → All (λ x. P x × Q x) xs
  All-and P Q [] ps qs = tt
  All-and P Q (x ∷ xs) (p, ps) (q, qs) = ((p, q), All-and P Q xs ps qs)

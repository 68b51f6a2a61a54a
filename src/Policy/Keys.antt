-- ===== src/Policy/Keys.antt =====
-- `Sha256KeyStrategy::make_key` feeds its three texts to the digest so that no two triples share
-- their input: each text stands behind its length.
use mathlib.Core.List.{append_assoc, append-nil}
use rivet_cache.Prelude.{
  ℕ, ◌≤◌, ◌≡◌, ◌≢◌, refl, sym, ap, ◌∙◌, [], ◌++◌, arith, length, ◌⊎◌, inl, inr,
}
use rivet_cache.Prelude.Lists.{Bytes, Bytes-discrete, take, drop, take_of_append, drop_of_append}
use rivet_cache.Prelude.Words.{
  u64_max, to_le_bytes, from_le_bytes, from_le_bytes-to_le_bytes, length-to_le_bytes,
}
use rivet_cache.Policy.{key_material, make_key, domain}

-- Two distinct inputs with one digest.
abbrev pub Collision : (Bytes → Bytes) → Type 0
Collision digest = (x : Bytes) × (y : Bytes) × (x ≢ y) × (digest x ≡ digest y)

pub append_cancel :
    (xs ys r s : Bytes) → length xs ≡ length ys → xs ++ r ≡ ys ++ s → (xs ≡ ys) × (r ≡ s)
append_cancel xs ys r s l e = (
  sym (take_of_append (length ys) xs r l)
      ∙ ap (take (length ys)) e
      ∙ take_of_append (length ys) ys s refl,
  sym (drop_of_append (length ys) xs r l)
      ∙ ap (drop (length ys)) e
      ∙ drop_of_append (length ys) ys s refl,
)

to_le_bytes-injective :
    (a b : ℕ) → a ≤ u64_max → b ≤ u64_max → to_le_bytes 8 a ≡ to_le_bytes 8 b → a ≡ b
to_le_bytes-injective a b p q e =
    sym (from_le_bytes-to_le_bytes 8 a (omega arith))
    ∙ ap from_le_bytes e
    ∙ from_le_bytes-to_le_bytes 8 b (omega arith)

-- A length-prefixed text can be read back from the front of the input.
pub prefixed_cancel :
    (a b r s : Bytes)
    → length a ≤ u64_max
    → length b ≤ u64_max
    → to_le_bytes 8 (length a) ++ (a ++ r) ≡ to_le_bytes 8 (length b) ++ (b ++ s)
    → (a ≡ b) × (r ≡ s)
prefixed_cancel a b r s p q e =
    let (heads, tails) =
      append_cancel (to_le_bytes 8 (length a)) (to_le_bytes 8 (length b)) (a ++ r) (b ++ s)
        (length-to_le_bytes 8 (length a) ∙ sym (length-to_le_bytes 8 (length b))) e in
    append_cancel a b r s (to_le_bytes-injective (length a) (length b) p q heads) tails

-- The texts that one digest input holds, one behind the other.
key_material-nested :
    (n m p : Bytes)
    → key_material n m p
      ≡ domain
        ++ (to_le_bytes 8 (length n)
            ++ (n ++ (to_le_bytes 8 (length m) ++ (m ++ (to_le_bytes 8 (length p) ++ (p ++ []))))))
unfolding key_material
key_material-nested n m p = simp (append_assoc, append-nil)

-- Triples of texts of at most 2^64 - 1 bytes with one digest input are equal.
pub key_material-injective :
    (n m p n' m' p' : Bytes)
    → length n ≤ u64_max
    → length m ≤ u64_max
    → length p ≤ u64_max
    → length n' ≤ u64_max
    → length m' ≤ u64_max
    → length p' ≤ u64_max
    → key_material n m p ≡ key_material n' m' p'
    → (n ≡ n') × (m ≡ m') × (p ≡ p')
key_material-injective n m p n' m' p' hn hm hp hn' hm' hp' e =
    let e' = sym (key_material-nested n m p) ∙ e ∙ key_material-nested n' m' p' in
    let (_, texts) = append_cancel domain domain _ _ refl e' in
    let (en, rest) = prefixed_cancel n n' _ _ hn hn' texts in
    let (em, last) = prefixed_cancel m m' _ _ hm hm' rest in
    let (ep, _) = prefixed_cancel p p' [] [] hp hp' last in (en, em, ep)

-- Equal keys come from equal texts, or exhibit a collision of the digest. The encoder is one that
-- can be read back, and the texts have at most 2^64 - 1 bytes.
pub make_key-injective :
    (sha256 hex_encode : Bytes → Bytes)
    → ((x y : Bytes) → hex_encode x ≡ hex_encode y → x ≡ y)
    → (n m p n' m' p' : Bytes) → length n ≤ u64_max
    → length m ≤ u64_max
    → length p ≤ u64_max
    → length n' ≤ u64_max
    → length m' ≤ u64_max
    → length p' ≤ u64_max
    → make_key sha256 hex_encode n m p ≡ make_key sha256 hex_encode n' m' p'
    → ((n ≡ n') × (m ≡ m') × (p ≡ p')) ⊎ Collision sha256
unfolding make_key
make_key-injective sha256 hex_encode readable n m p n' m' p' hn hm hp hn' hm' hp' e =
    elim (Bytes-discrete (key_material n m p) (key_material n' m' p')) [
      | yes same ↦ inl (key_material-injective n m p n' m' p' hn hm hp hn' hm' hp' same)
      | no other ↦ inr (key_material n m p, key_material n' m' p', other, readable _ _ e)
    ]

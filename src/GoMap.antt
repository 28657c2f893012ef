-- ===== src/GoMap.antt =====
-- Go's `map[string]V` as a list of entries, and the loop `for k, v := range m` that deletes
-- entries. The order of the entries is not the order of Go's iteration, which is unspecified; the
-- laws do not depend on it.
use boot_backend_go_clean.Common.{
  ◌≡◌, refl, Bool, false, ◌&&◌, ◌||◌, Option, none, some, List, [], ◌∷◌, arith, if◌then◌else◌,
}
use boot_backend_go_clean.Common.Text.{Text, text_eq, text_eq_iff}

abbrev pub GoMap {ℓ} : Type ℓ → Type ℓ
GoMap V = List (Text × V)

module _ {ℓ} {V : Type ℓ} where
  -- v, exists := m[k]
  unfoldable pub lookup : Text → GoMap V → Option V
  unfolding text_eq
  lookup k [] = none
  lookup k ((j, v) ∷ m) = if text_eq j k then some v else lookup k m

  -- delete(m, k)
  unfoldable pub delete : Text → GoMap V → GoMap V
  unfolding text_eq
  delete k [] = []
  delete k ((j, v) ∷ m) = let rest = delete k m in if text_eq j k then rest else (j, v) ∷ rest

  -- m[k] = v
  unfoldable pub insert : Text → V → GoMap V → GoMap V
  unfolding delete
  insert k v m = (k, v) ∷ delete k m

  -- No key has two entries.
  abbrev pub IsMap : GoMap V → Type ℓ
  IsMap [] = Unit
  IsMap ((k, v) ∷ m) = (lookup k m ≡ none) × IsMap m

module _ {ℓ κ} {V : Type ℓ} {W : Type κ} where
  -- for k, v := range entries { if p(v) { delete(m, k) } }
  unfoldable pub delete_where : (V → Bool) → GoMap V → GoMap W → GoMap W
  unfolding delete
  delete_where p [] m = m
  delete_where p ((k, v) ∷ entries) m = delete_where p entries (if p v then delete k m else m)

module _ {ℓ} {V : Type ℓ} where
  pub lookup-delete :
      (k j : Text) (m : GoMap V)
      → lookup j (delete k m) ≡ (if text_eq k j then none else lookup j m)
  unfolding lookup delete
  lookup-delete k j [] = ground arith
  lookup-delete k j ((i, v) ∷ m) =
      ground (arith, lookup-delete k j m, text_eq_iff i k, text_eq_iff i j, text_eq_iff k j)

  pub lookup-insert :
      (k j : Text) (v : V) (m : GoMap V)
      → lookup j (insert k v m) ≡ (if text_eq k j then some v else lookup j m)
  unfolding insert lookup
  lookup-insert k j v m = ground (arith, lookup-delete k j m)

  pub delete-IsMap : (k : Text) (m : GoMap V) → IsMap m → IsMap (delete k m)
  unfolding delete
  delete-IsMap k [] h = tt
  delete-IsMap k ((j, v) ∷ m) h = ground (arith, lookup-delete k j m, delete-IsMap k m h.1)

  pub insert-IsMap : (k : Text) (v : V) (m : GoMap V) → IsMap m → IsMap (insert k v m)
  unfolding insert
  insert-IsMap k v m h = ground (arith, lookup-delete k k m, text_eq_iff k k, delete-IsMap k m h)

  -- Whether the loop deletes the key `j`.
  abbrev hit : (V → Bool) → Text → GoMap V → Bool
  hit p j [] = false
  hit p j ((k, v) ∷ m) = text_eq k j && p v || hit p j m

  abbrev pub test : (V → Bool) → Option V → Bool
  test p none = false
  test p (some v) = p v

  hit-none : (p : V → Bool) (j : Text) (m : GoMap V) → lookup j m ≡ none → hit p j m ≡ false
  unfolding lookup
  hit-none p j [] e = refl
  hit-none p j ((k, v) ∷ m) e = ground (arith, hit-none p j m)

  hit-eq-test : (p : V → Bool) (j : Text) (m : GoMap V) → IsMap m → hit p j m ≡ test p (lookup j m)
  unfolding lookup
  hit-eq-test p j [] h = refl
  hit-eq-test p j ((k, v) ∷ m) h =
      ground (arith, hit-eq-test p j m h.1, hit-none p j m, text_eq_iff k j)

module _ {ℓ κ} {V : Type ℓ} {W : Type κ} where
  lookup-loop :
      (p : V → Bool) (j : Text) (entries : GoMap V) (m : GoMap W)
      → lookup j (delete_where p entries m) ≡ (if hit p j entries then none else lookup j m)
  unfolding delete_where
  lookup-loop p j [] m = refl
  lookup-loop p j ((k, v) ∷ entries) m =
      ground (arith, lookup-loop p j entries (if p v then delete k m else m), lookup-delete k j m)

  -- The loop over a map deletes exactly the keys whose value there passes the test.
  pub lookup-delete_where :
      (p : V → Bool) (j : Text) (entries : GoMap V) (m : GoMap W)
      → IsMap entries
      → lookup j (delete_where p entries m)
        ≡ (if test p (lookup j entries) then none else lookup j m)
  lookup-delete_where p j entries m h = rw (lookup-loop p j entries m, hit-eq-test p j entries h)

  pub delete_where-IsMap :
      (p : V → Bool) (entries : GoMap V) (m : GoMap W) → IsMap m → IsMap (delete_where p entries m)
  unfolding delete_where
  delete_where-IsMap p [] m h = h
  delete_where-IsMap p ((k, v) ∷ entries) m h =
      delete_where-IsMap p entries _ (ground (arith, delete-IsMap k m h))

-- ===== src/Maps/Laws.antt =====
-- What is found in a map after an assignment, and that a map has each key once.
use finance_engine.Prelude.{
  true, false, none, some, List, [], ◌∷◌, Comparable, ◌==◌, ◌≡◌, refl, sym, ap, ◌∙◌, ◌⊎◌, inl, inr,
  Bool-cases, ==-refl, ==-ne, ne_of_test,
}
use finance_engine.Maps.{lookup, alter, or_else}

-- An element of a list, and where it stands.
abbrev pub In : {A : Type 0} → A → List A → Type 0
In x [] = ⊥
In x (y ∷ ys) = (x ≡ y) ⊎ In x ys

differ : {K : Type 0} ⦃c : Comparable K⦄ (j k : K) → (j == k) ≡ false → (k == j) ≡ false
differ j k h = ==-ne k j (λ e. ne_of_test j k h (sym e))

module _ {K V : Type 0} ⦃c : Comparable K⦄ where
  pub lookup-alter_self :
      (zero : V) (f : V → V) (k : K) (m : List (K × V))
      → lookup k (alter zero f k m) ≡ some (f (or_else zero (lookup k m)))
  unfolding lookup alter
  lookup-alter_self zero f k [] = rw (==-refl k) refl
  lookup-alter_self zero f k ((j, v) ∷ m) = elim (Bool-cases (j == k)) [
    | inl same ↦ rw (same, same) refl
    | inr other ↦ rw (other, other) (lookup-alter_self zero f k m)
  ]

  pub lookup-alter_other :
      (zero : V) (f : V → V) (k j : K) (m : List (K × V))
      → (k == j) ≡ false
      → lookup j (alter zero f k m) ≡ lookup j m
  unfolding lookup alter
  lookup-alter_other zero f k j [] ne = rw ne refl
  lookup-alter_other zero f k j ((i, v) ∷ m) ne = elim (Bool-cases (i == k)) [
    | inl same ↦
        let miss : (i == j) ≡ false = ap (λ x. x == j) ((c.same_iff i k).0 same) ∙ ne in
        rw (same, miss) refl
    | inr other ↦ rw (other, lookup-alter_other zero f k j m ne) refl
  ]

  -- No key stands twice.
  abbrev pub IsMap : List (K × V) → Type 0
  IsMap [] = Unit
  IsMap ((k, v) ∷ m) = (lookup k m ≡ none) × IsMap m

  pub IsMap-alter :
      (zero : V) (f : V → V) (k : K) (m : List (K × V)) → IsMap m → IsMap (alter zero f k m)
  unfolding alter lookup
  IsMap-alter zero f k [] h = (refl, tt)
  IsMap-alter zero f k ((j, v) ∷ m) h = elim (Bool-cases (j == k)) [
    | inl same ↦ rw same h
    | inr other ↦
        rw other
          (lookup-alter_other zero f k j m (differ j k other) ∙ h.0, IsMap-alter zero f k m h.1)
  ]

  -- What stands in a map is found, and the other way round.
  pub In-lookup : (k : K) (v : V) (m : List (K × V)) → IsMap m → In (k, v) m → lookup k m ≡ some v
  unfolding lookup
  In-lookup k v [] h at = elim at [ ]
  In-lookup k v ((j, u) ∷ m) h (inl here) =
      let same : (j == k) ≡ true = (c.same_iff j k).1 (ap (λ p. p.0) (sym here)) in
      rw same (ap (λ p. some p.1) (sym here))
  In-lookup k v ((j, u) ∷ m) h (inr there) = elim (Bool-cases (j == k)) [
    | inl same ↦
        let found : lookup j m ≡ some v =
          ap (λ x. lookup x m) ((c.same_iff j k).0 same) ∙ In-lookup k v m h.1 there in
        absurd (cc (found, h.0))
    | inr other ↦ rw other (In-lookup k v m h.1 there)
  ]

  pub lookup-In : (k : K) (v : V) (m : List (K × V)) → lookup k m ≡ some v → In (k, v) m
  unfolding lookup
  lookup-In k v [] h = absurd (cc h)
  lookup-In k v ((j, u) ∷ m) h = elim (Bool-cases (j == k)) [
    | inl same ↦
        let key : j ≡ k = (c.same_iff j k).0 same in
        let value : u ≡ v = cc (rw same at h) in inl (λ i. (sym key i, sym value i))
    | inr other ↦ inr (lookup-In k v m (rw other at h))
  ]

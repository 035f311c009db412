-- ===== src/Base/Sort.antt =====
-- `sort.Slice`, which sorts by a `less` function and promises nothing of items that it does not tell
-- apart. Any order of those is a run of the source; this one keeps the order that it finds.
use mathlib.Core.Path.{◌≡◌}
use mathlib.Core.Bool.{Bool, true, false}
use mathlib.Core.List.{List, [], ◌∷◌, Perm}
use mathlib.Core.List.Perm
use mathlib.Core.Logic.{inl, inr, ◌↔◌}
use native.Mathlib.Omega.{arith}
use the_score.Base.Tests.{if◌then◌else◌, Bool-cases}
use the_score.Base.Lists.{All, In}

module _ {ℓ} {A : Type ℓ} (less : A → A → Bool) where
  abbrev insert : A → List A → List A
  insert x [] = x ∷ []
  insert x (y ∷ ys) = let later = y ∷ insert x ys in if less y x then later else x ∷ y ∷ ys

  abbrev pub sort : List A → List A
  sort [] = []
  sort (x ∷ xs) = insert x (sort xs)

  -- No item is less than one before it.
  abbrev Sorted : List A → Type 0
  Sorted [] = Unit
  Sorted (x ∷ xs) = All (λ y. less y x ≡ false) xs × Sorted xs

  -- What `sort.Slice` asks of its `less`.
  pub record IsWeakOrder : Type ℓ where
    pub asym : (a b : A) → less a b ≡ true → less b a ≡ false
    pub trans : (a b c : A) → less b a ≡ false → less c b ≡ false → less c a ≡ false

module _ {ℓ} {A : Type ℓ} (less : A → A → Bool) where
  insert-perm : (x : A) (xs : List A) → Perm (insert less x xs) (x ∷ xs)
  insert-perm x [] = Perm.refl _
  insert-perm x (y ∷ ys) = elim (Bool-cases (less y x)) [
    | inl after ↦ rw after (Perm.trans (Perm.cons y (insert-perm x ys)) (Perm.swap x y ys))
    | inr before ↦ rw before (Perm.refl _)
  ]

  pub sort-perm : (xs : List A) → Perm (sort less xs) xs
  sort-perm [] = Perm.refl _
  sort-perm (x ∷ xs) = Perm.trans (insert-perm x (sort less xs)) (Perm.cons x (sort-perm xs))

  insert-All {κ} :
      (P : A → Type κ) (x : A) (xs : List A) → P x → All P xs → All P (insert less x xs)
  insert-All P x [] p h = (p, tt)
  insert-All P x (y ∷ ys) p h = elim (Bool-cases (less y x)) [
    | inl after ↦ rw after (h.0, insert-All P x ys p h.1)
    | inr before ↦ rw before (p, h)
  ]

module _ {ℓ} {A : Type ℓ} {less : A → A → Bool} (order : IsWeakOrder less) where
  All-below :
      (x y : A) (ys : List A)
      → less y x ≡ false
      → All (λ z. less z y ≡ false) ys
      → All (λ z. less z x ≡ false) ys
  All-below x y [] h k = tt
  All-below x y (z ∷ zs) h (k, ks) = (order.trans x y z h k, All-below x y zs h ks)

  insert-Sorted : (x : A) (xs : List A) → Sorted less xs → Sorted less (insert less x xs)
  insert-Sorted x [] h = (tt, tt)
  insert-Sorted x (y ∷ ys) (h, hs) = elim (Bool-cases (less y x)) [
    | inl after ↦ rw after (
      insert-All less (λ z. less z y ≡ false) x ys (order.asym y x after) h,
      insert-Sorted x ys hs,
    )
    | inr before ↦ rw before ((before, All-below x y ys before h), (h, hs))
  ]

  pub sort-Sorted : (xs : List A) → Sorted less (sort less xs)
  sort-Sorted [] = tt
  sort-Sorted (x ∷ xs) = insert-Sorted x (sort less xs) (sort-Sorted xs)

module _ {A : Type 0} (less : A → A → Bool) where
  In-insert : (a x : A) (xs : List A) → In a (insert less x xs) ↔ In a (x ∷ xs)
  In-insert a x [] = ground arith
  In-insert a x (y ∷ ys) = ground (arith, In-insert a x ys)

  pub In-sort : (a : A) (xs : List A) → In a (sort less xs) ↔ In a xs
  In-sort a [] = ground arith
  In-sort a (x ∷ xs) = ground (arith, In-insert a x (sort less xs), In-sort a xs)

-- Every item stands in a relation to those behind it.
module _ {ℓ} {A : Type ℓ} (R : A → A → Type 0) where
  abbrev pub Ordered : List A → Type 0
  Ordered [] = Unit
  Ordered (x ∷ xs) = All (R x) xs × Ordered xs

module _ {ℓ} {A : Type ℓ} {less : A → A → Bool} {R : A → A → Type 0} where
  All-of_Sorted :
      (means : (a b : A) → less b a ≡ false → R a b) (x : A) (xs : List A)
      → All (λ y. less y x ≡ false) xs
      → All (R x) xs
  All-of_Sorted means x [] h = tt
  All-of_Sorted means x (y ∷ ys) (h, hs) = (means x y h, All-of_Sorted means x ys hs)

  pub Sorted-Ordered :
      (means : (a b : A) → less b a ≡ false → R a b) (xs : List A) → Sorted less xs → Ordered R xs
  Sorted-Ordered means [] h = tt
  Sorted-Ordered means (x ∷ xs) (h, hs) = (All-of_Sorted means x xs h, Sorted-Ordered means xs hs)

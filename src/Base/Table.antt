-- ===== src/Base/Table.antt =====
-- A Go map with string keys, as an association list. The order of the entries stands for the order
-- in which `range` visits them, which Go leaves open.
use Prim.Native.String.{String}
use mathlib.Core.Path.{◌≡◌, refl}
use mathlib.Core.Option.{Option, none, some}
use mathlib.Core.Logic.{◌↔◌}
use mathlib.Core.List.{List, [], ◌∷◌}
use native.Mathlib.Omega.{arith}
use text.Mathlib.Text.{◌==◌}
use text.Mathlib.TextEquality.{eq_iff}
use the_score.Base.Tests.{if◌then◌else◌}
use the_score.Base.Lists.{In}

abbrev pub Table {ℓ} : Type ℓ → Type ℓ
Table V = List (String × V)

module _ {ℓ} {V : Type ℓ} where
  -- v, ok := m[k]
  unfoldable pub get : String → Table V → Option V
  get k [] = none
  get k ((j, v) ∷ m) = if j == k then some v else get k m

  -- m[k] = v
  unfoldable pub put : String → V → Table V → Table V
  put k v [] = (k, v) ∷ []
  put k v ((j, w) ∷ m) = if j == k then (k, v) ∷ m else (j, w) ∷ put k v m

  -- delete(m, k)
  pub remove : String → Table V → Table V
  remove k [] = []
  remove k ((j, w) ∷ m) = let rest = remove k m in if j == k then rest else (j, w) ∷ rest

  -- for _, v := range m
  unfoldable pub values : Table V → List V
  values [] = []
  values ((j, v) ∷ m) = v ∷ values m

  pub get-put :
      (k j : String) (v : V) (m : Table V)
      → get j (put k v m) ≡ (if k == j then some v else get j m)
  unfolding get put
  get-put k j v [] = refl
  get-put k j v ((i, w) ∷ m) = ground (arith, eq_iff k j, eq_iff i k, eq_iff i j, get-put k j v m)

  pub get-remove :
      (k j : String) (m : Table V) → get j (remove k m) ≡ (if k == j then none else get j m)
  unfolding get remove
  get-remove k j [] = ground arith
  get-remove k j ((i, w) ∷ m) = ground (arith, eq_iff k j, eq_iff i k, eq_iff i j, get-remove k j m)

module _ {ℓ} {V : Type ℓ} where
  pub remove_of_none : (k : String) (m : Table V) → get k m ≡ none → remove k m ≡ m
  unfolding get remove
  remove_of_none k [] h = refl
  remove_of_none k ((j, w) ∷ m) h = ground (arith, remove_of_none k m)

pub get-nil {ℓ} : {V : Type ℓ} (k : String) → get {V = V} k [] ≡ none
unfolding get
get-nil k = refl

pub ruleset table_laws = (get-nil, get-put, get-remove)

-- Every value stands under its own key, and no key stands twice.
module _ {V : Type 0} (key : V → String) where
  abbrev pub IsKeyed : Table V → Type 0
  IsKeyed [] = Unit
  IsKeyed ((j, v) ∷ m) = (key v ≡ j) × (get j m ≡ none) × IsKeyed m

module _ {V : Type 0} (key : V → String) where
  pub put-IsKeyed :
      (k : String) (v : V) (m : Table V) → key v ≡ k → IsKeyed key m → IsKeyed key (put k v m)
  unfolding put
  put-IsKeyed k v [] e h = ground (arith, get-nil {V = V} k)
  put-IsKeyed k v ((j, w) ∷ m) e h =
      ground (arith, eq_iff j k, eq_iff k j, get-put k j v m, put-IsKeyed k v m e)

  pub remove-IsKeyed : (k : String) (m : Table V) → IsKeyed key m → IsKeyed key (remove k m)
  unfolding remove
  remove-IsKeyed k [] h = tt
  remove-IsKeyed k ((j, w) ∷ m) h = ground (arith, eq_iff j k, get-remove k j m, remove-IsKeyed k m)

  pub key-get : (k : String) (v : V) (m : Table V) → IsKeyed key m → get k m ≡ some v → key v ≡ k
  unfolding get
  key-get k v [] h e = cc
  key-get k v ((j, w) ∷ m) h e = ground (arith, eq_iff j k, key-get k v m)

  -- What `range` visits is what a lookup finds.
  pub In-values : (v : V) (m : Table V) → IsKeyed key m → In v (values m) ↔ (get (key v) m ≡ some v)
  unfolding get values
  In-values v [] h = ground arith
  In-values v ((j, w) ∷ m) h = ground (arith, eq_iff j (key v), In-values v m h.2)

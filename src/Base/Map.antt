-- ===== src/Base/Map.antt =====
-- JavaScript's Map over numbered keys: an association list in insertion order. `put` on a key
-- that is there keeps its place.
use Prim.Native.Nat.{ℕ, suc, ◌+◌, ◌≤◌}
use mathlib.Core.Path.{◌≡◌, refl}
use mathlib.Core.Bool.{Bool}
use mathlib.Core.Option.{Option, none, some}
use mathlib.Core.List.{List, [], ◌∷◌}
use native.Mathlib.Omega.{arith}
use teacher_assistant.Base.Tests.{◌==◌, if◌then◌else◌, is_some}

abbrev pub Map {ℓ} : Type ℓ → Type ℓ
Map V = List (ℕ × V)

module _ {ℓ} {V : Type ℓ} where
  unfoldable pub get : ℕ → Map V → Option V
  get k [] = none
  get k ((j, v) ∷ m) = if j == k then some v else get k m

  unfoldable pub put : ℕ → V → Map V → Map V
  put k v [] = (k, v) ∷ []
  put k v ((j, w) ∷ m) = if j == k then (j, v) ∷ m else (j, w) ∷ put k v m

  unfoldable pub remove : ℕ → Map V → Map V
  remove k [] = []
  remove k ((j, w) ∷ m) = if j == k then remove k m else (j, w) ∷ remove k m

  -- The entries that pass a test: a loop that deletes the others.
  unfoldable pub keep : (ℕ → V → Bool) → Map V → Map V
  keep p [] = []
  keep p ((j, w) ∷ m) = if p j w then (j, w) ∷ keep p m else keep p m

  abbrev pub has : ℕ → Map V → Bool
  has k m = is_some (get k m)

  -- The number of entries whose value passes a test.
  unfoldable pub count : (V → Bool) → Map V → ℕ
  count p [] = 0
  count p ((j, w) ∷ m) = if p w then suc (count p m) else count p m

  -- No key twice.
  abbrev pub Distinct : Map V → Type ℓ
  Distinct [] = Unit
  Distinct ((j, w) ∷ m) = (get j m ≡ none) × Distinct m

  pub get-put :
      (k j : ℕ) (v : V) (m : Map V) → get j (put k v m) ≡ (if k == j then some v else get j m)
  unfolding get put
  get-put k j v [] = refl
  get-put k j v ((i, w) ∷ m) = ground (arith, get-put k j v m)

  pub get-remove : (k j : ℕ) (m : Map V) → get j (remove k m) ≡ (if k == j then none else get j m)
  unfolding get remove
  get-remove k j [] = ground arith
  get-remove k j ((i, w) ∷ m) = ground (arith, get-remove k j m)

  abbrev pub keep_if : (V → Bool) → Option V → Option V
  keep_if p none = none
  keep_if p (some v) = if p v then some v else none

  get-keep-none : (p : ℕ → V → Bool) (j : ℕ) (m : Map V) → get j m ≡ none → get j (keep p m) ≡ none
  unfolding get keep
  get-keep-none p j [] h = refl
  get-keep-none p j ((i, w) ∷ m) h = ground (arith, get-keep-none p j m)

  pub get-keep :
      (p : ℕ → V → Bool) (j : ℕ) (m : Map V)
      → Distinct m
      → get j (keep p m) ≡ keep_if (p j) (get j m)
  unfolding get keep
  get-keep p j [] d = refl
  get-keep p j ((i, w) ∷ m) d = ground (arith, get-keep p j m d.1, get-keep-none p j m)

  pub put-Distinct : (k : ℕ) (v : V) (m : Map V) → Distinct m → Distinct (put k v m)
  unfolding get put
  put-Distinct k v [] d = (refl, tt)
  put-Distinct k v ((j, w) ∷ m) d = ground (arith, put-Distinct k v m d.1, get-put k j v m)

  pub remove-Distinct : (k : ℕ) (m : Map V) → Distinct m → Distinct (remove k m)
  unfolding get remove
  remove-Distinct k [] d = tt
  remove-Distinct k ((j, w) ∷ m) d = ground (arith, remove-Distinct k m d.1, get-remove k j m)

  pub keep-Distinct : (p : ℕ → V → Bool) (m : Map V) → Distinct m → Distinct (keep p m)
  unfolding get keep
  keep-Distinct p [] d = tt
  keep-Distinct p ((j, w) ∷ m) d = ground (arith, keep-Distinct p m d.1, get-keep-none p j m d.0)

module _ {ℓ} {V : Type ℓ} (p : V → Bool) where
  abbrev pub tally : Option V → ℕ
  tally none = 0
  tally (some v) = if p v then 1 else 0

  pub count-put :
      (k : ℕ) (v : V) (m : Map V)
      → count p (put k v m) + tally (get k m) ≡ count p m + tally (some v)
  unfolding get put count
  count-put k v [] = ground arith
  count-put k v ((j, w) ∷ m) = ground (arith, count-put k v m)

  pub count-remove : (k : ℕ) (m : Map V) → count p (remove k m) ≤ count p m
  unfolding remove count
  count-remove k [] = ground arith
  count-remove k ((j, w) ∷ m) = ground (arith, count-remove k m)

  pub count-keep : (q : ℕ → V → Bool) (m : Map V) → count p (keep q m) ≤ count p m
  unfolding keep count
  count-keep q [] = ground arith
  count-keep q ((j, w) ∷ m) = ground (arith, count-keep q m)

  -- A value in the map is counted.
  pub tally-le-count : (k : ℕ) (m : Map V) → tally (get k m) ≤ count p m
  unfolding get count
  tally-le-count k [] = ground arith
  tally-le-count k ((j, w) ∷ m) = ground (arith, tally-le-count k m)

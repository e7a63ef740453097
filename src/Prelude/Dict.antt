-- ===== src/Prelude/Dict.antt =====
-- A Python dictionary as an association list in insertion order. Keys are identifiers, which the
-- program only compares. An assignment keeps the place of an existing key, as in Python.
use Prim.Native.Nat.{ℕ, ◌+◌}
use mathlib.Core.Path.{◌≡◌, refl}
use mathlib.Core.Bool.{Bool}
use mathlib.Core.Option.{Option, none, some}
use mathlib.Core.Option
use mathlib.Core.List.{List, [], ◌∷◌, map}
use native.Mathlib.Omega.{arith}
use job_orchestrator.Prelude.Tests.{◌==◌, if◌then◌else◌, is_some}
use job_orchestrator.Prelude.Lists.{length}

abbrev pub Dict {ℓ} : Type ℓ → Type ℓ
Dict V = List (ℕ × V)

module _ {ℓ} {V : Type ℓ} where
  unfoldable pub lookup : ℕ → Dict V → Option V
  lookup k [] = none
  lookup k ((j, v) ∷ m) = if j == k then some v else lookup k m

  unfoldable pub insert : ℕ → V → Dict V → Dict V
  insert k v [] = (k, v) ∷ []
  insert k v ((j, w) ∷ m) = if j == k then (k, v) ∷ m else (j, w) ∷ insert k v m

  unfoldable pub remove : ℕ → Dict V → Dict V
  remove k [] = []
  remove k ((j, v) ∷ m) = let rest = remove k m in if j == k then rest else (j, v) ∷ rest

  abbrev pub has_key : ℕ → Dict V → Bool
  has_key k m = is_some (lookup k m)

  abbrev pub keys : Dict V → List ℕ
  keys m = map (λ e. e.0) m

  abbrev pub values : Dict V → List V
  values m = map (λ e. e.1) m

  pub lookup-insert :
      (j k : ℕ) (v : V) (m : Dict V)
      → lookup j (insert k v m) ≡ (if k == j then some v else lookup j m)
  unfolding lookup insert
  lookup-insert j k v [] = refl
  lookup-insert j k v ((i, w) ∷ m) = ground (arith, lookup-insert j k v m)

  pub lookup-remove :
      (j k : ℕ) (m : Dict V) → lookup j (remove k m) ≡ (if k == j then none else lookup j m)
  unfolding lookup remove
  lookup-remove j k [] = ground arith
  lookup-remove j k ((i, w) ∷ m) = ground (arith, lookup-remove j k m)

  -- No key occurs twice.
  abbrev pub IsDict : Dict V → Type ℓ
  IsDict [] = Unit
  IsDict ((k, v) ∷ m) = (lookup k m ≡ none) × IsDict m

  pub insert-IsDict : (k : ℕ) (v : V) (m : Dict V) → IsDict m → IsDict (insert k v m)
  unfolding lookup insert
  insert-IsDict k v [] h = (refl, tt)
  insert-IsDict k v ((j, w) ∷ m) h = ground (arith, insert-IsDict k v m, lookup-insert j k v m)

  pub remove-IsDict : (k : ℕ) (m : Dict V) → IsDict m → IsDict (remove k m)
  unfolding remove
  remove-IsDict k [] h = tt
  remove-IsDict k ((j, w) ∷ m) h = ground (arith, remove-IsDict k m, lookup-remove j k m)

  pub length-insert :
      (k : ℕ) (v : V) (m : Dict V)
      → length (insert k v m) ≡ (if has_key k m then length m else length m + 1)
  unfolding lookup insert
  length-insert k v [] = refl
  length-insert k v ((j, w) ∷ m) = ground (arith, length-insert k v m)

  pub remove_absent : (k : ℕ) (m : Dict V) → lookup k m ≡ none → remove k m ≡ m
  unfolding lookup remove
  remove_absent k [] h = refl
  remove_absent k ((j, w) ∷ m) h = ground (arith, remove_absent k m)

  pub length-remove :
      (k : ℕ) (m : Dict V)
      → IsDict m
      → length m ≡ (if has_key k m then length (remove k m) + 1 else length (remove k m))
  unfolding lookup remove
  length-remove k [] h = refl
  length-remove k ((j, w) ∷ m) h = ground (arith, length-remove k m, remove_absent k m)

  -- The value under a present key is changed in place.
  unfoldable pub modify : (V → V) → ℕ → Dict V → Dict V
  modify f k [] = []
  modify f k ((j, v) ∷ m) = if j == k then (j, f v) ∷ m else (j, v) ∷ modify f k m

  pub lookup-modify :
      (f : V → V) (j k : ℕ) (m : Dict V)
      → lookup j (modify f k m) ≡ (if k == j then Option.map f (lookup j m) else lookup j m)
  unfolding lookup modify
  lookup-modify f j k [] = ground arith
  lookup-modify f j k ((i, w) ∷ m) = ground (arith, lookup-modify f j k m)

  pub modify-IsDict : (f : V → V) (k : ℕ) (m : Dict V) → IsDict m → IsDict (modify f k m)
  unfolding modify
  modify-IsDict f k [] h = tt
  modify-IsDict f k ((j, w) ∷ m) h = ground (arith, modify-IsDict f k m, lookup-modify f j k m)

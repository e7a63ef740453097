-- ===== src/Prelude/Ids.antt =====
-- A Python set of identifiers, as a list without repetitions in an arbitrary order, and the
-- methods of lists of identifiers.
use Prim.Native.Nat.{ℕ, suc, ◌+◌}
use mathlib.Core.Path.{◌≡◌, refl, ap}
use mathlib.Core.Bool.{Bool, true, false, ◌||◌}
use mathlib.Core.List.{List, [], ◌∷◌, ◌++◌}
use native.Mathlib.Omega.{arith}
use job_orchestrator.Prelude.Tests.{◌==◌, if◌then◌else◌}
use job_orchestrator.Prelude.Lists.{length}
use job_orchestrator.Prelude.Dict
use job_orchestrator.Prelude.Dict.{Dict, IsDict}

unfoldable pub contains : ℕ → List ℕ → Bool
contains a [] = false
contains a (x ∷ xs) = x == a || contains a xs

-- `s.add(a)`
unfoldable pub add : ℕ → List ℕ → List ℕ
add a s = if contains a s then s else s ++ a ∷ []

-- `s.discard(a)`
unfoldable pub discard : ℕ → List ℕ → List ℕ
discard a [] = []
discard a (x ∷ xs) = let rest = discard a xs in if x == a then rest else x ∷ rest

-- `if a in xs: xs.remove(a)`
unfoldable pub drop_first : ℕ → List ℕ → List ℕ
drop_first a [] = []
drop_first a (x ∷ xs) = let rest = drop_first a xs in if x == a then xs else x ∷ rest

pub contains-append :
    (a : ℕ) (xs ys : List ℕ) → contains a (xs ++ ys) ≡ (contains a xs || contains a ys)
unfolding contains
contains-append a [] ys = refl
contains-append a (x ∷ xs) ys = ground (arith, contains-append a xs ys)

pub contains-add : (a b : ℕ) (s : List ℕ) → contains a (add b s) ≡ (b == a || contains a s)
unfolding contains add
contains-add a b s = ground (arith, contains-append a s (b ∷ []))

pub contains-discard :
    (a b : ℕ) (s : List ℕ) → contains a (discard b s) ≡ (if b == a then false else contains a s)
unfolding contains discard
contains-discard a b [] = ground arith
contains-discard a b (x ∷ xs) = ground (arith, contains-discard a b xs)

-- No member is listed twice.
abbrev pub IsNodup : List ℕ → Type 0
IsNodup [] = Unit
IsNodup (x ∷ xs) = (contains x xs ≡ false) × IsNodup xs

pub snoc-IsNodup : (a : ℕ) (s : List ℕ) → contains a s ≡ false → IsNodup s → IsNodup (s ++ a ∷ [])
unfolding contains
snoc-IsNodup a [] h n = (refl, tt)
snoc-IsNodup a (x ∷ xs) h n = ground (arith, snoc-IsNodup a xs, contains-append x xs (a ∷ []))

pub add-IsNodup : (a : ℕ) (s : List ℕ) → IsNodup s → IsNodup (add a s)
unfolding add
add-IsNodup a s n = ground (arith, snoc-IsNodup a s)

pub discard-IsNodup : (a : ℕ) (s : List ℕ) → IsNodup s → IsNodup (discard a s)
unfolding discard
discard-IsNodup a [] n = tt
discard-IsNodup a (x ∷ xs) n = ground (arith, discard-IsNodup a xs, contains-discard x a xs)

pub discard_absent : (a : ℕ) (s : List ℕ) → contains a s ≡ false → discard a s ≡ s
unfolding contains discard
discard_absent a [] h = refl
discard_absent a (x ∷ xs) h = ground (arith, discard_absent a xs)

pub length-discard :
    (a : ℕ) (s : List ℕ)
    → IsNodup s
    → length s ≡ (if contains a s then length (discard a s) + 1 else length (discard a s))
unfolding contains discard
length-discard a [] n = refl
length-discard a (x ∷ xs) n = ground (arith, length-discard a xs, discard_absent a xs)

pub contains-drop_first :
    (a b : ℕ) (s : List ℕ)
    → contains a s ≡ true
    → (b == a) ≡ false
    → contains a (drop_first b s) ≡ true
unfolding contains drop_first
contains-drop_first a b [] h n = h
contains-drop_first a b (x ∷ xs) h n = ground (arith, contains-drop_first a b xs)

pub contains-keys : {V : Type 0} (k : ℕ) (m : Dict V) → contains k (Dict.keys m) ≡ Dict.has_key k m
unfolding contains Dict.lookup
contains-keys k [] = refl
contains-keys k ((j, v) ∷ m) = ground (arith, contains-keys k m)

pub keys-IsNodup : {V : Type 0} (m : Dict V) → IsDict m → IsNodup (Dict.keys m)
keys-IsNodup [] h = tt
keys-IsNodup ((j, v) ∷ m) h = ground (arith, keys-IsNodup m h.1, contains-keys j m)

pub length-keys : {V : Type 0} (m : Dict V) → length (Dict.keys m) ≡ length m
length-keys [] = refl
length-keys ((j, v) ∷ m) = ap suc (length-keys m)

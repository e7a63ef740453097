-- ===== src/Queue/Order.antt =====
-- The order of queue entries, and the heap as an ascending list.
use job_orchestrator.Prelude.{
  ◌≡◌, ◌≢◌, refl, sym, ◌∙◌, ap, Bool, true, false, List, [], ◌∷◌, ◌++◌, inl, inr, arith, All,
  All-append, All-filter, All-map, filter, Bool-cases,
}
use job_orchestrator.Queue.{Entry, entry_lt, heappush, push_all}
use mathlib.Core.List.{append_assoc}

pub entry_lt_trans :
    (a b c : Entry) → entry_lt a b ≡ true → entry_lt b c ≡ true → entry_lt a c ≡ true
unfolding entry_lt
entry_lt_trans a b c h k = ground arith

-- Entries with different insertion numbers are always ordered.
pub entry_lt_total :
    (a b : Entry)
    → a.insertion_order ≢ b.insertion_order
    → entry_lt a b ≡ false
    → entry_lt b a ≡ true
unfolding entry_lt
entry_lt_total a b h k = ground arith

abbrev pub IsLeast : Entry → List Entry → Type 0
IsLeast e h = All (λ x. entry_lt e x ≡ true) h

abbrev pub IsSorted : List Entry → Type 0
IsSorted [] = Unit
IsSorted (e ∷ h) = IsLeast e h × IsSorted h

pub heappush-All :
    (P : Entry → Type 0) (e : Entry) (h : List Entry) → P e → All P h → All P (heappush e h)
unfolding heappush
heappush-All P e [] p a = (p, tt)
heappush-All P e (x ∷ xs) p a = elim (Bool-cases (entry_lt e x)) [
  | inl lt ↦ rw lt (p, a)
  | inr ge ↦ rw ge (a.0, heappush-All P e xs p a.1)
]

IsLeast-below : (e x : Entry) (h : List Entry) → entry_lt e x ≡ true → IsLeast x h → IsLeast e h
IsLeast-below e x h lt = All-map (λ y k. entry_lt_trans e x y lt k) h

-- An entry whose insertion number is new to the heap keeps it sorted.
pub heappush-IsSorted :
    (e : Entry) (h : List Entry)
    → All (λ x. x.insertion_order ≢ e.insertion_order) h
    → IsSorted h
    → IsSorted (heappush e h)
unfolding heappush
heappush-IsSorted e [] a s = (tt, tt)
heappush-IsSorted e (x ∷ xs) a s = elim (Bool-cases (entry_lt e x)) [
  | inl lt ↦ rw lt ((lt, IsLeast-below e x xs lt s.0), s)
  | inr ge ↦ rw ge (
    heappush-All (λ y. entry_lt x y ≡ true) e xs (entry_lt_total e x (λ q. a.0 (sym q)) ge) s.0,
    heappush-IsSorted e xs a.1 s.1,
  )
]

-- A least entry goes to the front.
heappush_least : (e : Entry) (h : List Entry) → IsLeast e h → heappush e h ≡ e ∷ h
unfolding heappush
heappush_least e [] l = refl
heappush_least e (x ∷ xs) l = rw l.0

entry_lt_asym : (a b : Entry) → entry_lt a b ≡ true → entry_lt b a ≡ false
unfolding entry_lt
entry_lt_asym a b h = ground arith

heappush_between :
    (e : Entry) (xs h : List Entry)
    → All (λ x. entry_lt x e ≡ true) xs
    → IsLeast e h
    → heappush e (xs ++ h) ≡ xs ++ e ∷ h
unfolding heappush
heappush_between e [] h a l = heappush_least e h l
heappush_between e (x ∷ xs) h a l =
    rw (entry_lt_asym x e a.0) (ap (λ t. x ∷ t) (heappush_between e xs h a.1 l))

pub IsSorted-append :
    (xs ys : List Entry) → IsSorted (xs ++ ys) → IsSorted ys × All (λ x. IsLeast x ys) xs
IsSorted-append [] ys s = (s, tt)
IsSorted-append (x ∷ xs) ys s =
    let rest = IsSorted-append xs ys s.1 in
    (rest.0, (((All-append (λ y. entry_lt x y ≡ true) xs ys).0 s.0).1, rest.1))

-- Without its middle entry a sorted list is sorted.
pub IsSorted-drop :
    (xs : List Entry) (e : Entry) (ys : List Entry) → IsSorted (xs ++ e ∷ ys) → IsSorted (xs ++ ys)
IsSorted-drop [] e ys s = s.1
IsSorted-drop (x ∷ xs) e ys s =
    let parts = (All-append (λ y. entry_lt x y ≡ true) xs (e ∷ ys)).0 s.0 in
    (
      (All-append (λ y. entry_lt x y ≡ true) xs ys).1 (parts.0, parts.1.1),
      IsSorted-drop xs e ys s.1,
    )

-- Pushing back the entries that were popped restores the list.
push_all-between :
    (es xs h : List Entry) → IsSorted (xs ++ (es ++ h)) → push_all es (xs ++ h) ≡ xs ++ (es ++ h)
unfolding push_all
push_all-between [] xs h s = refl
push_all-between (e ∷ es) xs h s =
    let parts = IsSorted-append xs (e ∷ (es ++ h)) s in
    let below = All-map (λ x (l : IsLeast x (e ∷ (es ++ h))). l.0) xs parts.1 in
    let least = ((All-append (λ y. entry_lt e y ≡ true) es h).0 parts.0.0).1 in
    let moved = push_all-between es (xs ++ e ∷ []) h (rw (append_assoc xs (e ∷ []) (es ++ h)) s) in
    rw (heappush_between e xs h below least) (
      ap (push_all es) (sym (append_assoc xs (e ∷ []) h))
      ∙ (moved ∙ append_assoc xs (e ∷ []) (es ++ h)))

pub push_all_back : (es h : List Entry) → IsSorted (es ++ h) → push_all es h ≡ es ++ h
push_all_back es h s = push_all-between es [] h s

-- Filtering commutes with a push of an entry that is kept.
pub filter-heappush :
    (p : Entry → Bool) (e : Entry) (h : List Entry)
    → IsSorted h
    → p e ≡ true
    → filter p (heappush e h) ≡ heappush e (filter p h)
unfolding heappush
filter-heappush p e [] s k = rw k
filter-heappush p e (x ∷ xs) s k = elim (Bool-cases (entry_lt e x)) [
  | inl lt ↦
      let least : IsLeast e (x ∷ xs) = (lt, IsLeast-below e x xs lt s.0) in
      rw (lt, k) (sym (heappush_least e _ (All-filter (λ y. entry_lt e y ≡ true) p (x ∷ xs) least)))
  | inr ge ↦ ground (arith, filter-heappush p e xs s.1 k)
]

pub filter-IsSorted : (p : Entry → Bool) (h : List Entry) → IsSorted h → IsSorted (filter p h)
filter-IsSorted p [] s = tt
filter-IsSorted p (x ∷ xs) s = elim (Bool-cases (p x)) [
  | inl keep ↦ rw keep (All-filter (λ y. entry_lt x y ≡ true) p xs s.0, filter-IsSorted p xs s.1)
  | inr skip ↦ rw skip (filter-IsSorted p xs s.1)
]

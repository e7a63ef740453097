-- ===== src/Core/Dag/Sort/Hits.antt =====
-- How many dependencies of a job are among the jobs that are sorted already, and lists of
-- identifiers in an order that puts dependencies first.
use job_orchestrator.Prelude.{
  ℕ, suc, ◌+◌, ◌≤◌, ◌<◌, ◌≡◌, refl, true, false, ◌||◌, ◌↔◌, List, [], ◌∷◌, ◌++◌, ◌==◌,
  if◌then◌else◌, length, arith,
}
use job_orchestrator.Prelude.Ids.{
  contains, IsNodup, contains-append, discard, contains-discard, length-discard, discard-IsNodup,
}
use job_orchestrator.Prelude.Dict.{Dict}
use job_orchestrator.Core.Dag.{Node}
use job_orchestrator.Core.Dag.Graph.{ins}

unfoldable pub hits : List ℕ → List ℕ → ℕ
hits done [] = 0
hits done (d ∷ ds) = let rest = hits done ds in if contains d done then rest + 1 else rest

pub hits_nil : (ds : List ℕ) → hits [] ds ≡ 0
unfolding hits contains
hits_nil [] = refl
hits_nil (d ∷ ds) = hits_nil ds

pub hits-le : (done ds : List ℕ) → hits done ds ≤ length ds
unfolding hits
hits-le done [] = omega arith
hits-le done (d ∷ ds) = ground (arith, hits-le done ds)

pub hits_snoc :
    (x : ℕ) (done ds : List ℕ)
    → IsNodup ds
    → contains x done ≡ false
    → hits (done ++ x ∷ []) ds ≡ (if contains x ds then hits done ds + 1 else hits done ds)
unfolding hits contains
hits_snoc x done [] n h = refl
hits_snoc x done (d ∷ ds) n h = ground (arith, hits_snoc x done ds, contains-append d done (x ∷ []))

pub hits_full :
    (done ds : List ℕ)
    → ((hits done ds == length ds) ≡ true)
      ↔ ((d : ℕ) → contains d ds ≡ true → contains d done ≡ true)
unfolding hits contains
hits_full done [] = (λ _ d h. ground arith, λ _. refl)
hits_full done (d ∷ ds) = (
  λ h x hx. ground (arith, hits-le done ds, (hits_full done ds).0 _ x),
  λ h. ground (arith, h d, (hits_full done ds).1 (λ x hx. ground (arith, h x))),
)

-- Each element comes after its dependencies, `before` and the earlier elements.
unfoldable pub IsTopological : Dict Node → List ℕ → List ℕ → Type 0
IsTopological nodes before [] = Unit
IsTopological nodes before (x ∷ xs) =
    ((d : ℕ) → contains d (ins x nodes) ≡ true → contains d before ≡ true)
    × IsTopological nodes (x ∷ before) xs

pub snoc-IsTopological :
    (nodes : Dict Node) (x : ℕ) (before xs : List ℕ)
    → IsTopological nodes before xs
    → ((d : ℕ) → contains d (ins x nodes) ≡ true → (contains d before || contains d xs) ≡ true)
    → IsTopological nodes before (xs ++ x ∷ [])
unfolding IsTopological contains
snoc-IsTopological nodes x before [] t h = ((λ d i. ground (arith, h d i)), tt)
snoc-IsTopological nodes x before (y ∷ xs) t h =
    (t.0, snoc-IsTopological nodes x (y ∷ before) xs t.1 (λ d i. ground (arith, h d i)))

-- The place of an identifier in a list.
unfoldable pub position : ℕ → List ℕ → ℕ
position k [] = 0
position k (x ∷ xs) = let rest = position k xs in if x == k then 0 else suc rest

pub position_before :
    (nodes : Dict Node) (a b : ℕ) (before xs : List ℕ)
    → IsTopological nodes before xs
    → contains b xs ≡ true
    → contains a (ins b nodes) ≡ true
    → contains a before ≡ false
    → position a xs < position b xs
unfolding IsTopological contains position
position_before nodes a b before [] t hb e n = ground arith
position_before nodes a b before (x ∷ xs) t hb e n =
    ground (arith, t.0 a, position_before nodes a b (x ∷ before) xs t.1)

-- The pigeonhole principle.
pub Nodup-length-le :
    (xs ys : List ℕ)
    → IsNodup xs
    → IsNodup ys
    → ((k : ℕ) → contains k xs ≡ true → contains k ys ≡ true)
    → length xs ≤ length ys
unfolding contains
Nodup-length-le [] ys n m f = omega arith
Nodup-length-le (x ∷ xs) ys n m f = ground (
  arith,
  length-discard x ys m,
  f x,
  Nodup-length-le xs (discard x ys) n.1 (discard-IsNodup x ys m)
      (λ k h. ground (arith, f k, contains-discard k x ys)),
)

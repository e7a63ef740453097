-- ===== src/Core/Dag/Cycles/Colors.antt =====
-- The colors of the search for a cycle: how many nodes are white, and the order in which nodes
-- turned black.
use job_orchestrator.Prelude.{
  ℕ, suc, ◌≤◌, ◌<◌, ◌≡◌, refl, Bool, true, false, ◌⊎◌, inl, inr, Option, none, some, [], ◌∷◌, ◌==◌,
  if◌then◌else◌, arith, ◌↔◌, length,
}
use job_orchestrator.Prelude.Ids.{contains}
use job_orchestrator.Prelude.Dict
use job_orchestrator.Prelude.Dict.{Dict}
use job_orchestrator.Core.Dag.{Node}
use job_orchestrator.Core.Dag.Graph.{outs}
use job_orchestrator.Core.Dag.Cycles.{Color, white, gray, black}

pub Color-cases :
    (o : Option Color) → (o ≡ none) ⊎ ((o ≡ some white) ⊎ ((o ≡ some gray) ⊎ (o ≡ some black)))
Color-cases none = inl refl
Color-cases (some white) = inr (inl refl)
Color-cases (some gray) = inr (inr (inl refl))
Color-cases (some black) = inr (inr (inr refl))

abbrev pub is_white : Color → Bool
is_white white = true
is_white gray = false
is_white black = false

abbrev pub whites : Dict Color → ℕ
whites [] = 0
whites ((k, c) ∷ colors) = if is_white c then suc (whites colors) else whites colors

-- A white node is painted.
pub whites-insert_white :
    (k : ℕ) (c : Color) (colors : Dict Color)
    → Dict.lookup k colors ≡ some white
    → is_white c ≡ false
    → whites colors ≡ suc (whites (Dict.insert k c colors))
unfolding Dict.lookup Dict.insert
whites-insert_white k c [] e h = ground (arith, e)
whites-insert_white k c ((j, v) ∷ colors) e h = ground (arith, e, h, whites-insert_white k c colors)

pub whites-insert_gray :
    (k : ℕ) (c : Color) (colors : Dict Color)
    → Dict.lookup k colors ≡ some gray
    → is_white c ≡ false
    → whites colors ≡ whites (Dict.insert k c colors)
unfolding Dict.lookup Dict.insert
whites-insert_gray k c [] e h = ground (arith, e)
whites-insert_gray k c ((j, v) ∷ colors) e h = ground (arith, e, h, whites-insert_gray k c colors)

pub whites-le : (colors : Dict Color) → whites colors ≤ length colors
whites-le [] = omega arith
whites-le ((k, c) ∷ colors) = ground (arith, whites-le colors)

module _ (nodes : Dict Node) where
  -- A black node got a number below `bound` when it turned black, after all its dependents.
  pub record IsFinished (colors : Dict Color) (rank : ℕ → ℕ) (bound : ℕ) : Type 0 where
    pub below : (b : ℕ) → Dict.lookup b colors ≡ some black → rank b < bound
    pub after :
        (b d : ℕ)
        → Dict.lookup b colors ≡ some black
        → contains d (outs b nodes) ≡ true
        → (Dict.lookup d colors ≡ some black) × (rank d < rank b)

  pub record IsColored (colors : Dict Color) : Type 0 where
    pub known : (k : ℕ) → Dict.has_key k colors ≡ Dict.has_key k nodes
    pub finished : (rank : ℕ → ℕ) × (bound : ℕ) × IsFinished colors rank bound

  -- What a part of the search that finds no cycle does to the colors.
  pub record IsLater (old colors : Dict Color) : Type 0 where
    pub colored : IsColored colors
    pub fewer : whites colors ≤ whites old
    pub grays : (k : ℕ) → (Dict.lookup k colors ≡ some gray) ↔ (Dict.lookup k old ≡ some gray)
    pub blacks : (k : ℕ) → Dict.lookup k old ≡ some black → Dict.lookup k colors ≡ some black

  -- A node turns gray.
  pub gray-IsColored :
      (id : ℕ) (colors : Dict Color)
      → Dict.lookup id colors ≡ some white
      → IsColored colors
      → IsColored (Dict.insert id gray colors)
  gray-IsColored id colors e c =
      let (rank, bound, f) = c.finished in
      record {
        known = λ k. ground (arith, e, c.known k, Dict.lookup-insert k id gray colors);
        finished = (
          rank,
          bound,
          record {
            below = λ b h. ground (arith, e, h, f.below b, Dict.lookup-insert b id gray colors);
            after = λ b d h here. ground (
              arith,
              e,
              h,
              here,
              f.after b d,
              Dict.lookup-insert b id gray colors,
              Dict.lookup-insert d id gray colors,
            );
          },
        );
      }

  -- A gray node turns black once all its dependents are black.
  pub black-IsColored :
      (id : ℕ) (colors : Dict Color)
      → Dict.lookup id colors ≡ some gray
      → ((d : ℕ) → contains d (outs id nodes) ≡ true → Dict.lookup d colors ≡ some black)
      → IsColored colors
      → IsColored (Dict.insert id black colors)
  black-IsColored id colors e all_black c =
      let (rank, bound, f) = c.finished in
      let rank2 : ℕ → ℕ = λ k. if k == id then bound else rank k in
      record {
        known = λ k. ground (arith, e, c.known k, Dict.lookup-insert k id black colors);
        finished = (
          rank2,
          suc bound,
          record {
            below = λ b h. ground (arith, e, h, f.below b, Dict.lookup-insert b id black colors);
            after = λ b d h here. ground (
              arith,
              e,
              h,
              here,
              all_black d,
              f.below d,
              f.after b d,
              Dict.lookup-insert b id black colors,
              Dict.lookup-insert d id black colors,
            );
          },
        );
      }

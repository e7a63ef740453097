-- ===== src/Queue/Live.antt =====
-- The abstract view of the queue: the entries that are not marked as removed, in ascending order.
-- While no two heap entries share an identifier, each method is a plain operation on that list.
use job_orchestrator.Prelude.{
  ℕ, ◌≡◌, refl, sym, ◌∙◌, ap, Bool, true, false, not, Option, none, some, List, [], ◌∷◌, ◌++◌, ◌==◌,
  leb, inl, inr, arith, All, All-append, filter, filter-append, if◌then◌else◌, Bool-cases, subst,
  ap₂,
}
use job_orchestrator.Prelude.Ids.{contains, discard, contains-discard}
use job_orchestrator.Queue.{Entry, Queue, Scan, drop_entry, scan}
use job_orchestrator.Queue.Order.{IsSorted, IsSorted-drop}
use mathlib.Core.List.{append_assoc, append-nil}

abbrev pub is_live : List ℕ → Entry → Bool
is_live removed e = not (contains e.job_id removed)

-- The entries of a list that carry no mark.
abbrev pub unmarked : List ℕ → List Entry → List Entry
unmarked removed l = filter (is_live removed) l

unfoldable pub live : Queue → List Entry
live q = unmarked q.removed q.heap

-- The first entry that is due.
unfoldable pub first_ready : ℕ → List Entry → Option Entry
first_ready now [] = none
first_ready now (e ∷ l) = if leb e.scheduled_time now then some e else first_ready now l

-- The list without the first entry that is due.
unfoldable pub without_ready : ℕ → List Entry → List Entry
without_ready now [] = []
without_ready now (e ∷ l) = if leb e.scheduled_time now then l else e ∷ without_ready now l

abbrev pub IsOther : ℕ → List Entry → Type 0
IsOther id l = All (λ x. (x.job_id == id) ≡ false) l

-- No two entries share an identifier.
abbrev pub IsUnique : List Entry → Type 0
IsUnique [] = Unit
IsUnique (e ∷ l) = IsOther e.job_id l × IsUnique l

pub IsUnique-drop :
    (xs : List Entry) (e : Entry) (ys : List Entry)
    → IsUnique (xs ++ e ∷ ys)
    → IsUnique (xs ++ ys) × IsOther e.job_id (xs ++ ys)
IsUnique-drop [] e ys u = (u.1, u.0)
IsUnique-drop (x ∷ xs) e ys u =
    let apart = (All-append (λ y. (y.job_id == x.job_id) ≡ false) xs (e ∷ ys)).0 u.0 in
    let rest = IsUnique-drop xs e ys u.1 in
    (
      ((All-append (λ y. (y.job_id == x.job_id) ≡ false) xs ys).1 (apart.0, apart.1.1), rest.0),
      (ground arith, rest.1),
    )

-- Taking the mark off an identifier that no entry of a list has changes nothing in the list.
pub unmarked-discard :
    (id : ℕ) (removed : List ℕ) (l : List Entry)
    → IsOther id l
    → unmarked (discard id removed) l ≡ unmarked removed l
unmarked-discard id removed [] o = refl
unmarked-discard id removed (e ∷ l) o =
    ground (arith, contains-discard e.job_id id removed, unmarked-discard id removed l o.1)

abbrev pub left_over : Scan → List Entry
left_over s = s.buffer ++ s.queue.heap

pub record Scanned (now : ℕ) (h buffer : List Entry) (q : Queue) (s : Scan) : Type 0 where
  pub found : s.ready ≡ first_ready now (unmarked q.removed h)
  pub kept :
      unmarked s.queue.removed (left_over s)
      ≡ unmarked q.removed buffer ++ without_ready now (unmarked q.removed h)
  pub sorted : IsSorted (left_over s)
  pub unique : IsUnique (left_over s)

module _ (now : ℕ) where
  -- A marked entry goes, and with it a mark that no other entry shares.
  Scanned-marked :
      (e : Entry) (h buffer : List Entry) (q : Queue) (s : Scan)
      → contains e.job_id q.removed ≡ true
      → IsOther e.job_id (buffer ++ h)
      → Scanned now h buffer (drop_entry e q) s
      → Scanned now (e ∷ h) buffer q s
  unfolding drop_entry
  Scanned-marked e h buffer q s marked other z =
      let others = (All-append (λ y. (y.job_id == e.job_id) ≡ false) buffer h).0 other in
      let same_h = unmarked-discard e.job_id q.removed h others.1 in
      let same_buffer = unmarked-discard e.job_id q.removed buffer others.0 in
      record {
        found = rw marked (z.found ∙ ap (first_ready now) same_h);
        kept = rw marked (z.kept ∙ ap₂ (λ a b. a ++ without_ready now b) same_buffer same_h);
        sorted = z.sorted;
        unique = z.unique;
      }

  Scanned-due :
      (e : Entry) (h buffer : List Entry) (q : Queue)
      → contains e.job_id q.removed ≡ false
      → leb e.scheduled_time now ≡ true
      → IsSorted (buffer ++ h)
      → IsUnique (buffer ++ h)
      → Scanned now
          (e ∷ h)
          buffer
          q
          (record { ready = some e; buffer = buffer; queue = record q { heap = h } })
  unfolding first_ready without_ready
  Scanned-due e h buffer q clear due s u = record {
    found = rw clear (rw due);
    kept = rw clear (rw due (filter-append (is_live q.removed) buffer h));
    sorted = s;
    unique = u;
  }

  Scanned-early :
      (e : Entry) (h buffer : List Entry) (q : Queue) (s : Scan)
      → contains e.job_id q.removed ≡ false
      → leb e.scheduled_time now ≡ false
      → Scanned now h (buffer ++ e ∷ []) q s
      → Scanned now (e ∷ h) buffer q s
  unfolding first_ready without_ready
  Scanned-early e h buffer q s clear early z = record {
    found = rw clear (rw early z.found);
    kept = rw clear (
        rw early (
          z.kept
          ∙ (ap (λ a. a ++ without_ready now (unmarked q.removed h))
                (filter-append (is_live q.removed) buffer (e ∷ []) ∙ rw clear)
              ∙ append_assoc (unmarked q.removed buffer) (e ∷ [])
                  (without_ready now (unmarked q.removed h)))));
    sorted = z.sorted;
    unique = z.unique;
  }

  pub scan_lem :
      (h buffer : List Entry) (q : Queue)
      → IsSorted (buffer ++ h)
      → IsUnique (buffer ++ h)
      → Scanned now h buffer q (scan now h buffer q)
  unfolding scan first_ready without_ready
  scan_lem [] buffer q s u = record {
    found = refl;
    kept = ap (unmarked q.removed) (append-nil buffer) ∙ sym (append-nil _);
    sorted = s;
    unique = u;
  }
  scan_lem (e ∷ h) buffer q s u =
      let s' = IsSorted-drop buffer e h s in
      let (u', other) = IsUnique-drop buffer e h u in
      elim (Bool-cases (contains e.job_id q.removed)) [
        | inl marked ↦
            rw marked (
              Scanned-marked e h buffer q _ marked other (scan_lem h buffer (drop_entry e q) s' u'))
        | inr clear ↦ elim (Bool-cases (leb e.scheduled_time now)) [
          | inl due ↦ rw clear (rw due (Scanned-due e h buffer q clear due s' u'))
          | inr early ↦
              let assoc = sym (append_assoc buffer (e ∷ []) h) in
              rw clear (
                rw early (
                  Scanned-early e h buffer q _ clear early (
                    scan_lem h (buffer ++ e ∷ []) q (subst IsSorted assoc s)
                      (subst IsUnique assoc u))))
        ]
      ]

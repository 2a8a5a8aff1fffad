-- ===== src/LegacyImport/Added.antt =====
-- legacy_import.py: the rows that a call of `import_legacy_window` adds, and its counts.
use ha_skywatch.Prelude.{
  ℕ, suc, ◌+◌, ◌≤◌, Bool, true, false, not, Option, none, some, Text, text_lt, count_if, ◌&&◌, List,
  [], ◌∷◌, ◌++◌, All, filter, map, length, ◌≡◌, refl, sym, ap, ◌∙◌, arith, if_cases, ltb,
}
use ha_skywatch.Prelude.Sort.{All-sort_by}
use ha_skywatch.LegacyImport.{Cell, null, number, text, Row, Target, copied}
use ha_skywatch.LegacyImport.Window.{
  Strftime, WindowPlan, new_rows, commit_rows, in_window, not_dup, select_row, candidates,
  is_same_event, from_since, before_until,
}
use ha_skywatch.LegacyImport.Import.{WindowTable, target_table, accepts_row, Planned}
use ha_skywatch.LegacyImport.Dedupe.{IsPlan, numbered, is_same_event-select, time-select}
use ha_skywatch.LegacyImport.Rerun.{insert_rows_lem, length-new_rows, any-ext, count_if_mono}
use ha_skywatch.LegacyImport.Parts.{Committed}

filter_all {ℓ} :
    {A : Type ℓ} (p : A → Bool) (xs : List A) → All (λ x. p x ≡ true) xs → filter p xs ≡ xs
filter_all p [] h = refl
filter_all p (x ∷ xs) (h, hs) = rw h (ap (λ r. x ∷ r) (filter_all p xs hs))

All-filter_both :
    {A : Type 0} (p q : A → Bool) (xs : List A)
    → All (λ x. (p x ≡ true) × (q x ≡ true)) (filter (λ x. p x && q x) xs)
All-filter_both p q [] = tt
All-filter_both p q (x ∷ xs) =
    if_cases (All (λ x. (p x ≡ true) × (q x ≡ true))) (p x && q x) (x ∷ filter (λ x. p x && q x) xs)
      (filter (λ x. p x && q x) xs)
      (λ e. ((ground (arith, e), ground (arith, e)), All-filter_both p q xs))
      (λ _. All-filter_both p q xs)

-- A time at or after the bound, in the order of texts.
abbrev pub IsSince : Option Text → Cell → Type 0
IsSince none c = Unit
IsSince (some since) (text t) = text_lt t since ≡ false
IsSince (some since) null = ⊥
IsSince (some since) (number x) = ⊥

-- A time before the bound, in the order of texts. SQLite has a number before every text.
abbrev pub IsUntil : Option Text → Cell → Type 0
IsUntil none c = Unit
IsUntil (some until) (text t) = text_lt t until ≡ true
IsUntil (some until) null = ⊥
IsUntil (some until) (number x) = Unit

from_since-IsSince : (since : Option Text) (c : Cell) → from_since since c ≡ true → IsSince since c
unfolding from_since
from_since-IsSince none c h = tt
from_since-IsSince (some since) (text t) h = ground (arith, h)
from_since-IsSince (some since) null h = ground (arith, h)
from_since-IsSince (some since) (number x) h = ground (arith, h)

before_until-IsUntil :
    (until : Option Text) (c : Cell) → before_until until c ≡ true → IsUntil until c
unfolding before_until
before_until-IsUntil none c h = tt
before_until-IsUntil (some until) (text t) h = h
before_until-IsUntil (some until) null h = ground (arith, h)
before_until-IsUntil (some until) (number x) h = tt

module _ (f : Strftime) (plan : WindowPlan) (well : IsPlan plan) where
  -- The time of a row that is copied is that of its legacy row.
  abbrev IsChosen : List Row → Row → Type 0
  IsChosen main r = (in_window plan r ≡ true) × (not_dup f plan main r ≡ true)

  select-IsChosen :
      (main : List Row) (l : Row) → IsChosen main l → IsChosen main (select_row plan l)
  unfolding in_window not_dup
  select-IsChosen main l (w, nd) = (
    rw (time-select plan l well) w,
    ap not (
          any-ext (is_same_event f plan (select_row plan l)) (is_same_event f plan l) main
            (is_same_event-select plan l f well))
        ∙ nd,
  )

  map-IsChosen :
      (main : List Row) (xs : List Row)
      → All (IsChosen main) xs
      → All (IsChosen main) (map (select_row plan) xs)
  map-IsChosen main [] h = tt
  map-IsChosen main (l ∷ xs) (h, hs) = (select-IsChosen main l h, map-IsChosen main xs hs)

  new_rows-IsChosen : (legacy main : List Row) → All (IsChosen main) (new_rows f plan legacy main)
  unfolding new_rows
  new_rows-IsChosen legacy main = map-IsChosen main _ (
      All-sort_by (λ (a b : Row). ltb a.id b.id) (IsChosen main) _
        (All-filter_both (in_window plan) (not_dup f plan main) legacy))

  chosen_not_dup :
      (main : List Row) (xs : List Row)
      → All (IsChosen main) xs
      → All (λ r. not_dup f plan main r ≡ true) xs
  chosen_not_dup main [] h = tt
  chosen_not_dup main (x ∷ xs) ((w, nd), hs) = (nd, chosen_not_dup main xs hs)

  -- An inserted row has its time between the bounds.
  abbrev IsInTime : Row → Type 0
  IsInTime r = IsSince plan.since (r.cell plan.time_col) × IsUntil plan.until (r.cell plan.time_col)

  numbered-IsInTime :
      (main : List Row) (seq : ℕ) (xs : List Row)
      → All (IsChosen main) xs
      → All IsInTime (numbered plan seq xs)
  unfolding in_window
  numbered-IsInTime main seq [] h = tt
  numbered-IsInTime main seq (x ∷ xs) ((w, nd), hs) =
      let same : copied plan.columns x.cell plan.time_col ≡ x.cell plan.time_col =
        ground (arith, well.timed) in
      (
        rw same (
          from_since-IsSince plan.since (x.cell plan.time_col) (ground (arith, w)),
          before_until-IsUntil plan.until (x.cell plan.time_col) (ground (arith, w)),
        ),
        numbered-IsInTime main (seq + 1) xs hs,
      )

-- The rows of the table stand as they were, and behind them the new rows of the plan, in order,
-- with the next ids and the legacy cells of the plan's columns. There is one for each legacy row in
-- the window that has no row of the same event there, and each has its time between the bounds.
pub record Adds (f : Strftime) (table : WindowTable) (q : Planned) (d d' : Target) (n : ℕ)
    : Type 0 where
  pub added : List Row
  pub is_new :
      added
      ≡ numbered q.plan
          (target_table table d).seq
          (new_rows f q.plan q.source.rows (target_table table d).rows)
  pub appended : (target_table table d').rows ≡ (target_table table d).rows ++ added
  pub counted : n ≡ length added
  pub exact :
      n
      ≡ count_if
          (λ l. in_window q.plan l && not_dup f q.plan (target_table table d).rows l)
          q.source.rows
  pub within :
      All
        (λ r.
          IsSince q.plan.since (r.cell q.plan.time_col)
          × IsUntil q.plan.until (r.cell q.plan.time_col))
        added
  pub bounded : n ≤ candidates q.plan q.source.rows

length-numbered :
    (plan : WindowPlan) (seq : ℕ) (rows : List Row) → length (numbered plan seq rows) ≡ length rows
length-numbered plan seq [] = refl
length-numbered plan seq (l ∷ rows) = ap suc (length-numbered plan (seq + 1) rows)

pub Committed-Adds :
    (f : Strftime) (table : WindowTable) (q : Planned) (d d' : Target) (n : ℕ)
    → IsPlan q.plan
    → Committed f table q d d' n
    → Adds f table q d d' n
unfolding commit_rows candidates
Committed-Adds f table q d d' n well h =
    let main = (target_table table d).rows in
    let rows = new_rows f q.plan q.source.rows main in
    let chosen = new_rows-IsChosen f q.plan well q.source.rows main in
    let all =
      filter_all (not_dup f q.plan main) rows (chosen_not_dup f q.plan well main rows chosen) in
    let ins =
      insert_rows_lem (accepts_row table) q.plan (filter (not_dup f q.plan main) rows)
        (target_table table d) (n, target_table table d') h in
    let exact : n ≡ length rows = ins.counted ∙ ap length all in
    record {
      added = numbered q.plan (target_table table d).seq rows;
      appended =
          ins.appended ∙ ap (λ xs. main ++ numbered q.plan (target_table table d).seq xs) all;
      counted = exact ∙ sym (length-numbered q.plan (target_table table d).seq rows);
      is_new = refl;
      exact = exact ∙ length-new_rows f q.plan q.source.rows main;
      within = numbered-IsInTime f q.plan well main (target_table table d).seq rows chosen;
      bounded = omega (
        arith,
        exact,
        length-new_rows f q.plan q.source.rows main,
        count_if_mono (λ l. in_window q.plan l && not_dup f q.plan main l) (in_window q.plan)
            q.source.rows (λ l e. ground (arith, e)),
      );
    }

-- ===== src/LegacyImport/Dedupe.antt =====
-- legacy_import.py: the window and the identity rule of the windowed import.
use ha_skywatch.Prelude.{
  ℕ, ◌+◌, true, false, Option, none, some, List, [], ◌∷◌, Text, codes, text_eq, All, ◌≡◌, refl, sym,
  ap, ◌∙◌, arith, text_eq_refl,
}
use ha_skywatch.Prelude.Int.{ℤ, pos, negsuc}
use ha_skywatch.Python.{finite, inf, neg_inf, nan}
use ha_skywatch.Storage.Migrations.{column_exists, fix_photo}
use ha_skywatch.Storage.Migrations.Photos.{fix_photo_idem}
use ha_skywatch.LegacyImport.{
  Cell, null, number, text, Row, same_ℤ, same_float, is_cell, fix_cell, copied,
}
use ha_skywatch.LegacyImport.Window.{
  Strftime, WindowPlan, source_expr, near_in_time, same_columns, is_same_event, select_row,
}

same_ℤ_refl : (n : ℤ) → same_ℤ n n ≡ true
unfolding same_ℤ
same_ℤ_refl (pos n) = ground arith
same_ℤ_refl (negsuc n) = ground arith

is_cell_refl : (c : Cell) → is_cell c c ≡ true
unfolding is_cell same_float
is_cell_refl null = refl
is_cell_refl (text s) = text_eq_refl s
is_cell_refl (number (finite n)) = same_ℤ_refl n
is_cell_refl (number inf) = refl
is_cell_refl (number neg_inf) = refl
is_cell_refl (number nan) = refl

cell_of : Option Text → Cell
cell_of none = null
cell_of (some s) = text s

fix_cell_text : (s : Text) → fix_cell (text s) ≡ cell_of (fix_photo (some s))
unfolding fix_cell cell_of fix_photo
fix_cell_text s = ground arith

fix_cell-cell_of : (x : Option Text) → fix_cell (cell_of x) ≡ cell_of (fix_photo x)
unfolding fix_cell cell_of fix_photo
fix_cell-cell_of none = refl
fix_cell-cell_of (some s) = fix_cell_text s

pub fix_cell_idem : (c : Cell) → fix_cell (fix_cell c) ≡ fix_cell c
unfolding fix_cell
fix_cell_idem null = refl
fix_cell_idem (number x) = refl
fix_cell_idem (text s) =
    ap fix_cell (fix_cell_text s)
    ∙ fix_cell-cell_of (fix_photo (some s))
    ∙ ap cell_of (fix_photo_idem (some s))
    ∙ sym (fix_cell_text s)

-- What `select_sql` gives for a column that it selects is not changed by `_source_expr`.
source_expr-select :
    (plan : WindowPlan) (l : Row) (col : Text)
    → column_exists col plan.columns ≡ true
    → source_expr col (select_row plan l).cell ≡ source_expr col l.cell
unfolding source_expr select_row
source_expr-select plan l col h = ground (arith, fix_cell_idem (l.cell col))

-- An inserted row has the cell that its legacy row gives.
abbrev pub inserted_row : WindowPlan → ℕ → Row → Row
inserted_row plan seq l = record { id = seq + 1; cell = copied plan.columns l.cell }

-- The rows that an INSERT adds after the number `seq`.
abbrev pub numbered : WindowPlan → ℕ → List Row → List Row
numbered plan seq [] = []
numbered plan seq (l ∷ rows) = inserted_row plan seq l ∷ numbered plan (seq + 1) rows

-- The plan copies the time column, and that is not the photo.
pub record IsPlan (plan : WindowPlan) : Type 0 where
  pub timed : column_exists plan.time_col plan.columns ≡ true
  pub not_photo : text_eq plan.time_col (codes "aircraft_photo") ≡ false

-- A legacy row's time is near itself, so that the rule of identity can hold of it and its copy.
abbrev pub IsTimed : Strftime → WindowPlan → Row → Type 0
IsTimed f plan l =
    near_in_time f plan.tolerance_seconds (l.cell plan.time_col) (l.cell plan.time_col) ≡ true

exist-cons :
    (c : Text) (xs ys : List Text)
    → All (λ x. column_exists x xs ≡ true) ys
    → All (λ x. column_exists x (c ∷ xs) ≡ true) ys
exist-cons c xs [] h = tt
exist-cons c xs (y ∷ ys) (h, hs) = (ground (arith, h), exist-cons c xs ys hs)

all_columns : (xs : List Text) → All (λ x. column_exists x xs ≡ true) xs
all_columns [] = tt
all_columns (x ∷ xs) = (ground (arith, text_eq_refl x), exist-cons x xs xs (all_columns xs))

module _ (plan : WindowPlan) (l : Row) where
  same_columns-select :
      (time_col : Text) (columns : List Text) (t : Text → Cell)
      → All (λ c. column_exists c plan.columns ≡ true) columns
      → same_columns time_col columns (select_row plan l).cell t
        ≡ same_columns time_col columns l.cell t
  unfolding same_columns
  same_columns-select time_col [] t h = refl
  same_columns-select time_col (c ∷ columns) t (h, hs) =
      rw (source_expr-select plan l c h, same_columns-select time_col columns t hs) refl

  same_columns-inserted :
      (time_col : Text) (columns : List Text)
      → All (λ c. column_exists c plan.columns ≡ true) columns
      → same_columns time_col columns l.cell (copied plan.columns (select_row plan l).cell) ≡ true
  unfolding same_columns select_row
  same_columns-inserted time_col [] h = refl
  same_columns-inserted time_col (c ∷ columns) (h, hs) =
      ground
        (arith, h, is_cell_refl (source_expr c l.cell), same_columns-inserted time_col columns hs)

  pub time-select : IsPlan plan → (select_row plan l).cell plan.time_col ≡ l.cell plan.time_col
  unfolding select_row source_expr
  time-select h = ground (arith, h.timed, h.not_photo)

  -- The staged row and the legacy row are of the same events.
  pub is_same_event-select :
      (f : Strftime)
      → IsPlan plan
      → (t : Row) → is_same_event f plan (select_row plan l) t ≡ is_same_event f plan l t
  unfolding is_same_event
  is_same_event-select f h t =
      rw
        (
          time-select h,
          same_columns-select plan.time_col plan.columns t.cell (all_columns plan.columns),
        )
        refl

  -- A legacy row and the row inserted for it are of the same event.
  pub is_same_event-inserted :
      (f : Strftime) (seq : ℕ)
      → IsPlan plan
      → IsTimed f plan l
      → is_same_event f plan l (inserted_row plan seq (select_row plan l)) ≡ true
  unfolding is_same_event
  is_same_event-inserted f seq h timed =
      let same : copied plan.columns (select_row plan l).cell plan.time_col ≡ l.cell plan.time_col =
        ground (arith, h.timed, time-select h) in
      rw (same, timed, same_columns-inserted plan.time_col plan.columns (all_columns plan.columns))
        refl

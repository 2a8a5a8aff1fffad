-- ===== src/LegacyImport/Window.antt =====
-- legacy_import.py: `_to_utc_iso` and `_window_plan`, the SELECTs and the INSERT of the plan as
-- functions on the rows. SQLite's `strftime`, which moves a stored text by some seconds, is a
-- parameter.
use ha_skywatch.Prelude.{
  ℕ, ltb, Bool, true, false, not, ◌&&◌, ◌||◌, Option, none, some, List, [], ◌∷◌, Text, codes,
  text_eq, text_lt, text_le, any, filter, count_if, map, if◌then◌else◌,
}
use ha_skywatch.Prelude.Sort.{sort_by}
use ha_skywatch.Time.{DateTime, naive, aware, utc_text}
use ha_skywatch.Python.{Platform}
use ha_skywatch.Python.Result.{Result, ok, err, legacy_import}
use ha_skywatch.Normalizers.{replace_z}
use ha_skywatch.Storage.Migrations.{and_then}
use ha_skywatch.LegacyImport.{
  Cell, null, number, text, Row, LegacyTable, TargetTable, is_cell, fix_cell, columns_to_copy,
  copied, insert_rows,
}

-- An argument `since` or `until`.
pub data Bound : Type 0 where
  absent : Bound
  written : Text → Bound
  moment : DateTime → Bound

-- `strftime(_ISO_FMT, t, '-n seconds')` and `strftime(_ISO_FMT, t, '+n seconds')`, where SQLite
-- reads the text `t` as a time.
pub record Strftime : Type 0 where
  pub earlier : ℕ → Text → Option Text
  pub later : ℕ → Text → Option Text

-- `value.astimezone(UTC).strftime(_ISO_FMT)`, a naive value taken for UTC. For years from 1000 on
-- this is the stored form.
unfoldable pub utc_iso : DateTime → Text
utc_iso (naive w) = utc_text w
utc_iso (aware t) = utc_text t

unfoldable pub to_utc_iso : Platform → Bound → Result (Option Text)
unfolding utc_iso
to_utc_iso p absent = ok none
to_utc_iso p (written []) = ok none
to_utc_iso p (written (c ∷ s)) = elim (p.from_isoformat (replace_z (c ∷ s))) [
  | none ↦ err legacy_import
  | some t ↦ ok (some (utc_iso t))
]
to_utc_iso p (moment t) = ok (some (utc_iso t))

abbrev pub default_dedupe_tolerance_seconds : ℕ
default_dedupe_tolerance_seconds = 2

-- `_source_expr`, the value of the SELECT expression for a column.
unfoldable pub source_expr : Text → (Text → Cell) → Cell
unfolding fix_cell
source_expr column cell =
    if text_eq column (codes "aircraft_photo") then fix_cell (cell column) else cell column

pub record WindowPlan : Type 0 where
  pub time_col : Text
  pub columns : List Text
  pub since : Option Text
  pub until : Option Text
  pub tolerance_seconds : ℕ

unfoldable pub window_plan :
    Text → List Text → List Text → Option Text → Option Text → ℕ → LegacyTable → Result WindowPlan
unfolding columns_to_copy
window_plan time_col required optional since until tolerance legacy =
    and_then (columns_to_copy required optional legacy.columns) λ columns. ok (record {
      time_col = time_col;
      columns = columns;
      since = since;
      until = until;
      tolerance_seconds = tolerance;
    })

-- `t >= since` and `t < until` in SQL, where no bound is no test, NULL is within no bound, and a
-- number stands before every text.
unfoldable pub from_since : Option Text → Cell → Bool
from_since none t = true
from_since (some since) null = false
from_since (some since) (number t) = false
from_since (some since) (text t) = not (text_lt t since)

unfoldable pub before_until : Option Text → Cell → Bool
before_until none t = true
before_until (some until) null = false
before_until (some until) (number t) = true
before_until (some until) (text t) = text_lt t until

-- `window_sql`
unfoldable pub in_window : WindowPlan → Row → Bool
unfolding from_since before_until
in_window plan l =
    from_since plan.since (l.cell plan.time_col) && before_until plan.until (l.cell plan.time_col)

-- The value of `t BETWEEN low AND high` at a text, NULL taken for false.
abbrev pub between : Option Text → Option Text → Text → Bool
between none high t = false
between (some low) none t = false
between (some low) (some high) t = text_le low t && text_le t high

-- The first line of `identity`.
unfoldable pub near_in_time : Strftime → ℕ → Cell → Cell → Bool
near_in_time f tol (text l) (text t) = between (f.earlier tol l) (f.later tol l) t
near_in_time f tol _ _ = false

-- The columns of the other lines: neither the time nor one of `_NON_IDENTITY_COLUMNS`.
unfoldable pub is_identity_column : Text → Text → Bool
is_identity_column time_col col =
    not (text_eq col time_col) && not (text_eq col (codes "entry_time"))

-- The other lines of `identity`.
unfoldable pub same_columns : Text → List Text → (Text → Cell) → (Text → Cell) → Bool
unfolding is_identity_column source_expr is_cell
same_columns time_col [] l t = true
same_columns time_col (col ∷ columns) l t =
    (not (is_identity_column time_col col) || is_cell (t col) (source_expr col l))
    && same_columns time_col columns l t

-- `identity`: the legacy row and the target's row are of the same event.
unfoldable pub is_same_event : Strftime → WindowPlan → Row → Row → Bool
unfolding near_in_time same_columns
is_same_event f plan l t =
    near_in_time f plan.tolerance_seconds (l.cell plan.time_col) (t.cell plan.time_col)
    && same_columns plan.time_col plan.columns l.cell t.cell

-- `not_dup`
unfoldable pub not_dup : Strftime → WindowPlan → List Row → Row → Bool
unfolding is_same_event
not_dup f plan main l = not (any (is_same_event f plan l) main)

-- `select_sql`
unfoldable pub select_row : WindowPlan → Row → Row
unfolding source_expr
select_row plan l = record { id = l.id; cell = copied plan.columns (λ col. source_expr col l.cell) }

-- `candidates_sql`
unfoldable pub candidates : WindowPlan → List Row → ℕ
unfolding in_window
candidates plan legacy = count_if (in_window plan) legacy

-- `new_rows_sql`
unfoldable pub new_rows : Strftime → WindowPlan → List Row → List Row → List Row
unfolding in_window not_dup select_row
new_rows f plan legacy main = map (select_row plan) (
    sort_by (λ a b. ltb a.id b.id) (filter (λ l. in_window plan l && not_dup f plan main l) legacy))

-- `commit_sql`. The rows are chosen against the table as it was before the statement.
unfoldable pub commit_rows :
    Strftime
    → WindowPlan
    → (List Row → Row → Bool)
    → List Row
    → TargetTable
    → Result (ℕ × TargetTable)
unfolding not_dup
commit_rows f plan accepts staged t =
    insert_rows accepts plan.columns (filter (not_dup f plan t.rows) staged) t

-- ===== src/Storage/Migrations/Columns.antt =====
-- storage/migrations.py: the columns that are added, and those that the indexes need.
use ha_skywatch.Prelude.{
  true, List, [], ◌∷◌, Text, codes, text_eq, text_eq_refl, ◌≡◌, refl, ◌∙◌, arith, Bool-cases, inl,
  inr, if_either, if_cases,
}
use ha_skywatch.Prelude.Unique.{any-append}
use ha_skywatch.Python.Result.{ok}
use ha_skywatch.Storage.Migrations.{
  Table, column_exists, all_exist, create_indexes, add_column_if_missing, add_columns,
}

exists_added : (c : Text) (t : Table) → column_exists c (add_column_if_missing c t).columns ≡ true
unfolding add_column_if_missing
exists_added c t =
    if_cases (λ (u : Table). column_exists c u.columns ≡ true) (column_exists c t.columns) _ _
      (λ e. e) (λ _. any-append (text_eq c) t.columns (c ∷ []) ∙ ground (arith, text_eq_refl c))

exists_kept :
    (c k : Text) (t : Table)
    → column_exists c t.columns ≡ true
    → column_exists c (add_column_if_missing k t).columns ≡ true
unfolding add_column_if_missing
exists_kept c k t h =
    if_either (λ (u : Table). column_exists c u.columns ≡ true) (column_exists k t.columns) _ _ h
      (any-append (text_eq c) t.columns (k ∷ []) ∙ ground (arith, h))

add_column_again :
    (c : Text) (t : Table) → column_exists c t.columns ≡ true → add_column_if_missing c t ≡ t
unfolding add_column_if_missing
add_column_again c t h =
    if_cases (λ (u : Table). u ≡ t) (column_exists c t.columns) _ _ (λ _. refl)
      (λ e. absurd (ground (arith, h, e)))

all_exist_kept :
    (wanted : List Text) (k : Text) (t : Table)
    → all_exist wanted t.columns ≡ true
    → all_exist wanted (add_column_if_missing k t).columns ≡ true
all_exist_kept [] k t h = refl
all_exist_kept (c ∷ wanted) k t h =
    ground
      (arith, exists_kept c k t (ground (arith, h)), all_exist_kept wanted k t (ground (arith, h)))

-- The columns that the legacy schema does not have.
abbrev pub added : List Text
added = codes "entry_time" ∷ codes "heading" ∷ codes "vertical_speed" ∷ codes "on_ground" ∷ []

pub all_exist-add_columns :
    (wanted : List Text) (t : Table)
    → all_exist wanted t.columns ≡ true
    → all_exist wanted (add_columns t).columns ≡ true
unfolding add_columns
all_exist-add_columns wanted t h =
    all_exist_kept wanted _ _
      (all_exist_kept wanted _ _ (all_exist_kept wanted _ _ (all_exist_kept wanted _ t h)))

pub added_exist : (t : Table) → all_exist added (add_columns t).columns ≡ true
unfolding add_columns
added_exist t =
    let a = add_column_if_missing (codes "entry_time") t in
    let b = add_column_if_missing (codes "heading") a in
    let c = add_column_if_missing (codes "vertical_speed") b in
    ground (
      arith,
      exists_kept (codes "entry_time") (codes "on_ground") c (
          exists_kept (codes "entry_time") (codes "vertical_speed") b (
            exists_kept (codes "entry_time") (codes "heading") a
              (exists_added (codes "entry_time") t))),
      exists_kept (codes "heading") (codes "on_ground") c (
          exists_kept (codes "heading") (codes "vertical_speed") b
            (exists_added (codes "heading") a)),
      exists_kept (codes "vertical_speed") (codes "on_ground") c
          (exists_added (codes "vertical_speed") b),
      exists_added (codes "on_ground") c,
    )

pub add_columns_again : (t : Table) → all_exist added t.columns ≡ true → add_columns t ≡ t
unfolding add_columns
add_columns_again t h =
    let a = add_column_again (codes "entry_time") t (ground (arith, h)) in
    let b = add_column_again (codes "heading") t (ground (arith, h)) in
    let c = add_column_again (codes "vertical_speed") t (ground (arith, h)) in
    let d = add_column_again (codes "on_ground") t (ground (arith, h)) in rw (a, b, c) d

pub create_indexes_lem :
    (wanted : List Text) (t u : Table)
    → create_indexes wanted t ≡ ok u
    → (all_exist wanted t.columns ≡ true) × (u ≡ t)
unfolding create_indexes
create_indexes_lem wanted t u h = elim (Bool-cases (all_exist wanted t.columns)) [
  | inl e ↦ (e, ground (arith, h, e))
  | inr e ↦ absurd (ground (arith, h, e))
]

pub indexes_again :
    (wanted : List Text) (t : Table)
    → all_exist wanted t.columns ≡ true
    → create_indexes wanted t ≡ ok t
unfolding create_indexes
indexes_again wanted t h = ground (arith, h)

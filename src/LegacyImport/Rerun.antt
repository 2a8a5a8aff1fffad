-- ===== src/LegacyImport/Rerun.antt =====
-- legacy_import.py: what the INSERT of a plan adds, and the plan of a second run.
use mathlib.Core.Path.{subst}
use ha_skywatch.Prelude.{
  ℕ, suc, ◌+◌, ◌≤◌, ltb, Bool, true, ◌&&◌, List, [], ◌∷◌, ◌++◌, any, filter, count_if, map, length,
  All, ◌≡◌, refl, sym, ap, ◌∙◌, arith, Bool-cases, inl, inr, if_cases, if◌then◌else◌, length-map,
  length-filter,
}
use ha_skywatch.Prelude.Sort.{sort_by, count_if-sort_by, length-sort_by, All-sort_by}
use ha_skywatch.Prelude.Unique.{any-append}
use ha_skywatch.Python.Result.{ok}
use ha_skywatch.Storage.Migrations.Laws.{and_then_lem}
use ha_skywatch.Storage.Migrations.Photos.{ok-inj}
use ha_skywatch.LegacyImport.{Row, TargetTable, insert_rows}
use ha_skywatch.LegacyImport.Window.{
  Strftime, WindowPlan, is_same_event, not_dup, select_row, in_window, new_rows, commit_rows,
}
use ha_skywatch.LegacyImport.Dedupe.{
  IsPlan, IsTimed, inserted_row, numbered, is_same_event-select, is_same_event-inserted,
}

-- The INSERT adds its rows behind the old ones, all of them.
pub record Inserts (plan : WindowPlan) (rows : List Row) (t : TargetTable) (o : ℕ × TargetTable)
    : Type 0 where
  pub counted : o.0 ≡ length rows
  pub appended : o.1.rows ≡ t.rows ++ numbered plan t.seq rows

append_assoc_one :
    {A : Type 0} (xs : List A) (x : A) (ys : List A) → (xs ++ (x ∷ [])) ++ ys ≡ xs ++ (x ∷ ys)
append_assoc_one [] x ys = refl
append_assoc_one (y ∷ xs) x ys = ap (λ r. y ∷ r) (append_assoc_one xs x ys)

pub append-nil : {A : Type 0} (xs : List A) → xs ++ [] ≡ xs
append-nil [] = refl
append-nil (x ∷ xs) = ap (λ r. x ∷ r) (append-nil xs)

pub insert_rows_lem :
    (accepts : List Row → Row → Bool) (plan : WindowPlan) (rows : List Row) (t : TargetTable)
    (o : ℕ × TargetTable)
    → insert_rows accepts plan.columns rows t ≡ ok o
    → Inserts plan rows t o
unfolding insert_rows
insert_rows_lem accepts plan [] t o h =
    subst (λ o'. Inserts plan [] t o') (ok-inj _ o h)
      (record { counted = refl; appended = sym (append-nil t.rows) })
insert_rows_lem accepts plan (l ∷ rows) t o h =
    elim (Bool-cases (accepts t.rows (inserted_row plan t.seq l))) [
      | inr refused ↦ absurd (ground (arith, h, refused))
      | inl accepted ↦
          let next : TargetTable = record {
            rows = t.rows ++ (inserted_row plan t.seq l ∷ []);
            seq = t.seq + 1;
          } in
          let (o', h', e) =
            and_then_lem (insert_rows accepts plan.columns rows next) (λ (n, u). ok (suc n, u)) o
              (ground (arith, h, accepted)) in
          let ih = insert_rows_lem accepts plan rows next o' h' in
          subst (λ o''. Inserts plan (l ∷ rows) t o'') (ok-inj _ o e)
            (record {
              counted = ap suc ih.counted;
              appended =
                  ih.appended
                  ∙ append_assoc_one t.rows (inserted_row plan t.seq l)
                      (numbered plan (t.seq + 1) rows);
            })
    ]

-- Where a test holds of a row of `part`, it holds of a row of `whole`.
abbrev Covers : List Row → List Row → Type 0
Covers whole part = (p : Row → Bool) → any p part ≡ true → any p whole ≡ true

pub any-ext : (p q : Row → Bool) (xs : List Row) → ((x : Row) → p x ≡ q x) → any p xs ≡ any q xs
any-ext p q [] h = refl
any-ext p q (x ∷ xs) h = rw (h x, any-ext p q xs h) refl

module _ (f : Strftime) (plan : WindowPlan) (well : IsPlan plan) (main whole : List Row) where
  -- After the commit each row that was selected has a row of the same event in the table.
  none_new :
      (seq : ℕ) (xs : List Row)
      → All (IsTimed f plan) xs
      → Covers whole main
      → Covers whole (numbered plan seq (filter (not_dup f plan main) (map (select_row plan) xs)))
      → count_if (not_dup f plan whole) xs ≡ 0
  unfolding not_dup
  none_new seq [] timed old new = refl
  none_new seq (l ∷ xs) (timed, rest) old new =
      elim (Bool-cases (not_dup f plan main (select_row plan l))) [
        | inl is_new ↦
            let new' : Covers whole (
                inserted_row plan seq (select_row plan l)
                ∷ numbered plan (seq + 1)
                    (filter (not_dup f plan main) (map (select_row plan) xs))) =
              subst
                (λ b. Covers whole (
                  numbered plan seq (
                    if b
                    then select_row plan l ∷ filter (not_dup f plan main) (map (select_row plan) xs)
                    else filter (not_dup f plan main) (map (select_row plan) xs))))
                is_new new in
            let found : any (is_same_event f plan l) whole ≡ true =
              new' (is_same_event f plan l)
                (ground (arith, is_same_event-inserted plan l f seq well timed)) in
            ground
              (arith, found, none_new (seq + 1) xs rest old (λ p h. new' p (ground (arith, h))))
        | inr is_old ↦
            let found : any (is_same_event f plan l) whole ≡ true = old (is_same_event f plan l) (
              sym (
                any-ext (is_same_event f plan (select_row plan l)) (is_same_event f plan l) main
                  (is_same_event-select plan l f well))
              ∙ ground (arith, is_old)) in
            ground (
              arith,
              found,
              none_new seq xs rest old (
                  subst
                    (λ b. Covers whole (
                      numbered plan seq (
                        if b
                        then select_row plan l
                          ∷ filter (not_dup f plan main) (map (select_row plan) xs)
                        else filter (not_dup f plan main) (map (select_row plan) xs))))
                    is_old new),
            )
      ]

pub All-filter_and {ℓ} :
    {A : Type 0} (Q : A → Type ℓ) (p q : A → Bool) (xs : List A)
    → All (λ x. p x ≡ true → Q x) xs
    → All Q (filter (λ x. p x && q x) xs)
All-filter_and Q p q [] h = tt
All-filter_and Q p q (x ∷ xs) (h, hs) =
    if_cases (All Q) (p x && q x) (x ∷ filter (λ x. p x && q x) xs) (filter (λ x. p x && q x) xs)
      (λ e. (h (ground (arith, e)), All-filter_and Q p q xs hs)) (λ _. All-filter_and Q p q xs hs)

count_if-filter :
    {A : Type 0} (p q : A → Bool) (xs : List A)
    → count_if q (filter p xs) ≡ count_if (λ x. p x && q x) xs
count_if-filter p q [] = refl
count_if-filter p q (x ∷ xs) = ground (arith, count_if-filter p q xs)

pub count_if_mono :
    {A : Type 0} (p q : A → Bool) (xs : List A)
    → ((x : A) → p x ≡ true → q x ≡ true)
    → count_if p xs ≤ count_if q xs
count_if_mono p q [] h = omega arith
count_if_mono p q (x ∷ xs) h = ground (arith, h x, count_if_mono p q xs h)

nil_of_length : {A : Type 0} (xs : List A) → length xs ≡ 0 → xs ≡ []
nil_of_length [] h = refl
nil_of_length (x ∷ xs) h = absurd (omega arith)

any-append_left : (p : Row → Bool) (xs ys : List Row) → any p xs ≡ true → any p (xs ++ ys) ≡ true
any-append_left p xs ys h = ground (arith, any-append p xs ys, h)

any-append_right : (p : Row → Bool) (xs ys : List Row) → any p ys ≡ true → any p (xs ++ ys) ≡ true
any-append_right p xs ys h = ground (arith, any-append p xs ys, h)

-- The rows that are staged: no more than the candidates.
pub length-new_rows :
    (f : Strftime) (plan : WindowPlan) (legacy main : List Row)
    → length (new_rows f plan legacy main)
      ≡ count_if (λ l. in_window plan l && not_dup f plan main l) legacy
unfolding new_rows
length-new_rows f plan legacy main =
    length-map (select_row plan) _
    ∙ length-sort_by _ _
    ∙ length-filter (λ l. in_window plan l && not_dup f plan main l) legacy

-- What a table has that holds all rows of another.
abbrev pub Extends : List Row → List Row → Type 0
Extends whole part = (more : List Row) × (whole ≡ part ++ more)

module _ (f : Strftime) (plan : WindowPlan) (well : IsPlan plan) (legacy main : List Row) where
  -- The rows that a second run would insert, counted among all legacy rows.
  none_left :
      (t u : TargetTable) (n : ℕ) (accepts : List Row → Row → Bool) (whole : List Row)
      → All (λ l. in_window plan l ≡ true → IsTimed f plan l) legacy
      → Extends t.rows main
      → commit_rows f plan accepts (new_rows f plan legacy main) t ≡ ok (n, u)
      → Extends whole u.rows
      → count_if
          (not_dup f plan whole)
          (filter (λ l. in_window plan l && not_dup f plan main l) legacy)
        ≡ 0
  unfolding commit_rows new_rows
  none_left t u n accepts whole timed (more, e) done (more', e') =
      let chosen = filter (λ l. in_window plan l && not_dup f plan main l) legacy in
      let ordered = sort_by (λ (a b : Row). ltb a.id b.id) chosen in
      let added = filter (not_dup f plan t.rows) (map (select_row plan) ordered) in
      let ins = insert_rows_lem accepts plan added t (n, u) done in
      let covers : Covers whole u.rows =
        λ p h. subst (λ rows. any p rows ≡ true) (sym e') (any-append_left p u.rows more' h) in
      let times : All (IsTimed f plan) ordered =
        All-sort_by (λ (a b : Row). ltb a.id b.id) (IsTimed f plan) chosen
          (All-filter_and (IsTimed f plan) (in_window plan) (not_dup f plan main) legacy timed) in
      sym (count_if-sort_by (λ (a b : Row). ltb a.id b.id) (not_dup f plan whole) chosen)
      ∙ none_new f plan well t.rows whole t.seq ordered times
          (λ p h.
            covers p
              (subst (λ rows. any p rows ≡ true) (sym ins.appended) (any-append_left p t.rows _ h)))
          (λ p h. covers p (
            subst (λ rows. any p rows ≡ true) (sym ins.appended)
              (any-append_right p t.rows (numbered plan t.seq added) h)))

  not_dup_mono :
      (t u : TargetTable) (n : ℕ) (accepts : List Row → Row → Bool) (whole : List Row)
      → Extends t.rows main
      → commit_rows f plan accepts (new_rows f plan legacy main) t ≡ ok (n, u)
      → Extends whole u.rows
      → (l : Row) → not_dup f plan whole l ≡ true
      → not_dup f plan main l ≡ true
  unfolding commit_rows not_dup
  not_dup_mono t u n accepts whole (more, e) done (more', e') l h =
      let ins = insert_rows_lem accepts plan _ t (n, u) done in
      let p = is_same_event f plan l in
      elim (Bool-cases (any p main)) [
        | inr absent ↦ ground (arith, absent)
        | inl found ↦
            let in_t : any p t.rows ≡ true =
              subst (λ rows. any p rows ≡ true) (sym e) (any-append_left p main more found) in
            let in_u : any p u.rows ≡ true =
              subst (λ rows. any p rows ≡ true) (sym ins.appended)
                (any-append_left p t.rows _ in_t) in
            let in_whole : any p whole ≡ true =
              subst (λ rows. any p rows ≡ true) (sym e') (any-append_left p u.rows more' in_u) in
            absurd (ground (arith, h, in_whole))
      ]

  -- A run that finds the rows of an earlier one in the table has nothing to insert, whatever rows
  -- others added before or after the copy.
  pub new_rows-commit_rows :
      (t u : TargetTable) (n : ℕ) (accepts : List Row → Row → Bool) (whole : List Row)
      → All (λ l. in_window plan l ≡ true → IsTimed f plan l) legacy
      → Extends t.rows main
      → commit_rows f plan accepts (new_rows f plan legacy main) t ≡ ok (n, u)
      → Extends whole u.rows
      → new_rows f plan legacy whole ≡ []
  new_rows-commit_rows t u n accepts whole timed before done after = nil_of_length _ (
      omega (
        arith,
        length-new_rows f plan legacy whole,
        count_if-filter (λ l. in_window plan l && not_dup f plan main l) (not_dup f plan whole)
            legacy,
        none_left t u n accepts whole timed before done after,
        count_if_mono (λ l. in_window plan l && not_dup f plan whole l)
            (λ l. (in_window plan l && not_dup f plan main l) && not_dup f plan whole l) legacy
            (λ l h. ground (arith, h, not_dup_mono t u n accepts whole before done after l)),
      ))

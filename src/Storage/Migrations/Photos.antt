-- ===== src/Storage/Migrations/Photos.antt =====
-- storage/migrations.py: the one-time UPDATE of the photo URLs.
use mathlib.Core.Path.{subst}
use ha_skywatch.Prelude.{
  Bool, true, false, not, ◌&&◌, Option, none, some, List, [], ◌∷◌, ◌++◌, Text, codes, text_eq, like,
  like_one, upper_char, drop, map, length, ◌≡◌, refl, sym, ap, ◌∙◌, arith, Bool-cases, inl, inr,
  if_cases, ◌==◌,
}
use ha_skywatch.Python.Result.{Result, ok}
use ha_skywatch.Storage.Migrations.{Table, column_exists, fix_photo, update_row, fix_photos}

-- No character of the pattern is `%` or `_`.
is_literal : Text → Bool
is_literal [] = true
is_literal (c ∷ s) = not (c == b'%') && (not (c == b'_') && is_literal s)

like-drop :
    (qs ps s : Text)
    → is_literal qs ≡ true
    → like (qs ++ ps) s ≡ true
    → like ps (drop (length qs) s) ≡ true
unfolding is_literal like like_one
like-drop [] ps s h m = m
like-drop (q ∷ qs) ps [] h m = absurd (ground (arith, h, m))
like-drop (q ∷ qs) ps (c ∷ s) h m = like-drop qs ps s (ground (arith, h)) (ground (arith, h, m))

drop_twice : (s : Text) → drop 6 (drop 6 s) ≡ drop 12 s
drop_twice [] = refl
drop_twice (_ ∷ []) = refl
drop_twice (_ ∷ _ ∷ []) = refl
drop_twice (_ ∷ _ ∷ _ ∷ []) = refl
drop_twice (_ ∷ _ ∷ _ ∷ _ ∷ []) = refl
drop_twice (_ ∷ _ ∷ _ ∷ _ ∷ _ ∷ []) = refl
drop_twice (_ ∷ _ ∷ _ ∷ _ ∷ _ ∷ _ ∷ s) = refl

two_starts :
    (s : Text) → like (codes "//%") s ≡ true → like (codes "https://%") s ≡ true → false ≡ true
unfolding like like_one upper_char
two_starts [] a b = a
two_starts (c ∷ s) a b = ground (arith, a, b)

-- A photo that was fixed is not fixed again.
fixed_once :
    (s : Text)
    → like (codes "https:https://%") s ≡ true
    → like (codes "https:https://%") (drop 6 s) ≡ false
unfolding is_literal
fixed_once s m = elim (Bool-cases (like (codes "https:https://%") (drop 6 s))) [
  | inr e ↦ e
  | inl again ↦
      let slashes : like (codes "//%") (drop 12 s) ≡ true =
        like-drop (codes "https:https:") (codes "//%") s refl m in
      let start : like (codes "https://%") (drop 6 (drop 6 s)) ≡ true =
        like-drop (codes "https:") (codes "https://%") (drop 6 s) refl again in
      absurd (
        ground (
          arith,
          two_starts (drop 12 s) slashes
              (ap (like (codes "https://%")) (sym (drop_twice s)) ∙ start),
        ))
]

pub fix_photo_idem : (x : Option Text) → fix_photo (fix_photo x) ≡ fix_photo x
unfolding fix_photo
fix_photo_idem none = refl
fix_photo_idem (some s) = elim (Bool-cases (like (codes "https:https://%") s)) [
  | inl e ↦ rw (e, fixed_once s e) refl
  | inr e ↦ rw (e, e) refl
]

update_row_idem :
    (columns : List Text) (row : List (Option Text))
    → update_row
        (codes "aircraft_photo")
        fix_photo
        columns
        (update_row (codes "aircraft_photo") fix_photo columns row)
      ≡ update_row (codes "aircraft_photo") fix_photo columns row
unfolding update_row
update_row_idem [] row = refl
update_row_idem (c ∷ columns) [] = refl
update_row_idem (c ∷ columns) (x ∷ row) = elim (Bool-cases (text_eq (codes "aircraft_photo") c)) [
  | inl e ↦ rw (e, e) (ap (λ y. y ∷ row) (fix_photo_idem x))
  | inr e ↦ rw (e, e) (ap (λ r. x ∷ r) (update_row_idem columns row))
]

update_rows_idem :
    (columns : List Text) (rows : List (List (Option Text)))
    → map
        (update_row (codes "aircraft_photo") fix_photo columns)
        (map (update_row (codes "aircraft_photo") fix_photo columns) rows)
      ≡ map (update_row (codes "aircraft_photo") fix_photo columns) rows
update_rows_idem columns [] = refl
update_rows_idem columns (row ∷ rows) =
    ground (arith, update_row_idem columns row, update_rows_idem columns rows)

abbrev fixed : Table → Table
fixed t = record t { rows = map (update_row (codes "aircraft_photo") fix_photo t.columns) t.rows }

fix_photos-fixed :
    (t : Table)
    → column_exists (codes "aircraft_photo") t.columns ≡ true
    → fix_photos (fixed t) ≡ ok (fixed t)
unfolding fix_photos
fix_photos-fixed t e =
    if_cases (λ (r : Result Table). r ≡ ok (fixed t))
      (column_exists (codes "aircraft_photo") t.columns) _ _
      (λ _.
        ap (λ rows. ok (record { columns = t.columns; rows = rows }))
          (update_rows_idem t.columns t.rows))
      (λ no. absurd (ground (arith, e, no)))

fix_photos_ok :
    (t : Table)
    → column_exists (codes "aircraft_photo") t.columns ≡ true
    → fix_photos t ≡ ok (fixed t)
unfolding fix_photos
fix_photos_ok t e = ground (arith, e)

pub ok-inj : {A : Type 0} (a b : A) → ok a ≡ ok b → a ≡ b
ok-inj a b h = cc

pub fix_photos_lem :
    (t u : Table) → fix_photos t ≡ ok u → (u.columns ≡ t.columns) × (fix_photos u ≡ ok u)
unfolding fix_photos
fix_photos_lem t u h = elim (Bool-cases (column_exists (codes "aircraft_photo") t.columns)) [
  | inl e ↦
      let same : fixed t ≡ u = ok-inj (fixed t) u (sym (fix_photos_ok t e) ∙ h) in
      subst (λ (v : Table). (v.columns ≡ t.columns) × (fix_photos v ≡ ok v)) same
        (refl, fix_photos-fixed t e)
  | inr e ↦ absurd (ground (arith, h, e))
]

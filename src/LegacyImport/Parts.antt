-- ===== src/LegacyImport/Parts.antt =====
-- legacy_import.py: what the run of two plans did to each table.
use mathlib.Core.Path.{subst}
use ha_skywatch.Prelude.{ℕ, true, codes, ◌≡◌, refl, sym, ap, ◌∙◌, arith, Bool-cases, inl, inr}
use ha_skywatch.Python.Result.{Result, ok, err}
use ha_skywatch.Storage.Migrations.{and_then, column_exists}
use ha_skywatch.Storage.Migrations.Laws.{and_then_lem}
use ha_skywatch.Storage.Migrations.Photos.{ok-inj}
use ha_skywatch.LegacyImport.{LegacyTable, Target, TargetTable}
use ha_skywatch.LegacyImport.Window.{Strftime, new_rows, commit_rows}
use ha_skywatch.LegacyImport.Import.{
  WindowTable, sightings_table, movements_table, target_table, accepts_row, Planned, Plans,
  put_back, ordered,
}
use ha_skywatch.LegacyImport.Locked.{copy_spec}
use ha_skywatch.LegacyImport.Quiet.{stages, stage_of, new_here}

abbrev pub HasIds : LegacyTable → Type 0
HasIds t = column_exists (codes "id") t.columns ≡ true

-- The INSERT of a plan turned one table of `d` into that of `d'`.
abbrev pub Committed : Strftime → WindowTable → Planned → Target → Target → ℕ → Type 0
Committed f table q d d' n =
    commit_rows f q.plan (accepts_row table)
      (new_rows f q.plan q.source.rows (target_table table d).rows) (target_table table d)
    ≡ ok (n, target_table table d')

pub record RunParts (f : Strftime) (plans : Plans) (d : Target) (n : ℕ × ℕ) (d' : Target)
    : Type 0 where
  pub sightings_ids : HasIds plans.sightings.source
  pub movements_ids : HasIds plans.airport_movements.source
  pub sightings : Committed f sightings_table plans.sightings d d' n.0
  pub movements : Committed f movements_table plans.airport_movements d d' n.1
  pub entries : d'.entries ≡ d.entries

ordered_ok : {A : Type 0} (t : LegacyTable) (a b : A) → ordered t a ≡ ok b → HasIds t × (a ≡ b)
unfolding ordered
ordered_ok t a b h = elim (Bool-cases (column_exists (codes "id") t.columns)) [
  | inl e ↦ (e, ok-inj a b (ground (arith, h, e)))
  | inr e ↦ absurd (ground (arith, h, e))
]

module _ (f : Strftime) (d : Target) where
  abbrev second_part : ℕ → Target → Result (ℕ × TargetTable) → Result ((ℕ × ℕ) × Target)
  second_part i d1 r = and_then (put_back f movements_table d1 r) λ (i', d2). ok ((i, i'), d2)

  second_parts :
      (i : ℕ) (t : TargetTable) (r : Result (ℕ × TargetTable)) (n : ℕ × ℕ) (d' : Target)
      → second_part i (record d { sightings = t }) r ≡ ok (n, d')
      → (r ≡ ok (n.1, d'.airport_movements))
        × (i ≡ n.0)
        × (t ≡ d'.sightings)
        × (d'.entries ≡ d.entries)
  second_parts i t (err e) n d' h = cc
  second_parts i t (ok (i', t')) n d' h =
      let same : ((i, i'), record d { sightings = t; airport_movements = t' }) ≡ (n, d') =
        ok-inj _ (n, d') h in
      (
        ap (λ (x : (ℕ × ℕ) × Target). ok (x.0.1, x.1.airport_movements)) same,
        ap (λ (x : (ℕ × ℕ) × Target). x.0.0) same,
        ap (λ (x : (ℕ × ℕ) × Target). x.1.sightings) same,
        sym (ap (λ (x : (ℕ × ℕ) × Target). x.1.entries) same),
      )

  both_parts :
      (r : Result (ℕ × TargetTable)) (r' : Target → Result (ℕ × TargetTable)) (n : ℕ × ℕ)
      (d' : Target)
      → and_then (put_back f sightings_table d r) (λ (i, d1). second_part i d1 (r' d1)) ≡ ok (n, d')
      → ((t : TargetTable) → r' (record d { sightings = t }) ≡ r' d)
      → (r ≡ ok (n.0, d'.sightings))
        × (r' d ≡ ok (n.1, d'.airport_movements))
        × (d'.entries ≡ d.entries)
  both_parts (err e) r' n d' h k = cc
  both_parts (ok (i, t)) r' n d' h k =
      let (e, ei, et, ee) = second_parts i t (r' (record d { sightings = t })) n d' h in
      (ap (λ x. ok (x, t)) ei ∙ ap (λ x. ok (n.0, x)) et, sym (k t) ∙ e, ee)

module _ (f : Strftime) (plans : Plans) (d : Target) where
  pub run-RunParts :
      (n : ℕ × ℕ) (d' : Target)
      → and_then (stages f plans d) (λ st. copy_spec f plans st d) ≡ ok (n, d')
      → RunParts f plans d n d'
  run-RunParts n d' h =
      let s = plans.sightings in
      let m = plans.airport_movements in
      let (st, hst, h1) =
        and_then_lem (stages f plans d) (λ st. copy_spec f plans st d) (n, d') h in
      let (a, ha, h2) = and_then_lem (new_here f sightings_table s d) _ st hst in
      let (b, hb, h3) = and_then_lem (new_here f movements_table m d) _ st h2 in
      let (s_ids, ea) = ordered_ok s.source _ a ha in
      let (m_ids, eb) = ordered_ok m.source _ b hb in
      let staged : st
          ≡ stage_of (new_rows f s.plan s.source.rows d.sightings.rows)
              (new_rows f m.plan m.source.rows d.airport_movements.rows) =
        sym (ok-inj _ st h3) ∙ ap (λ x. stage_of x b) (sym ea) ∙ ap (stage_of _) (sym eb) in
      let (hs, hm, he) =
        both_parts f d
          (commit_rows f s.plan (accepts_row sightings_table)
            (new_rows f s.plan s.source.rows d.sightings.rows) d.sightings)
          (λ d1.
            commit_rows f m.plan (accepts_row movements_table)
              (new_rows f m.plan m.source.rows d.airport_movements.rows) d1.airport_movements)
          n d' (subst (λ x. copy_spec f plans x d ≡ ok (n, d')) staged h1) (λ t. refl) in
      record {
        sightings_ids = s_ids;
        movements_ids = m_ids;
        sightings = hs;
        movements = hm;
        entries = he;
      }

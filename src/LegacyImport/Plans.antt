-- ===== src/LegacyImport/Plans.antt =====
-- legacy_import.py: the plans of `import_legacy_window` as a function of its arguments.
use ha_skywatch.Prelude.{ℕ, Option, none, some, List, [], Text, codes, ◌≡◌, refl, ◌∙◌, ap}
use ha_skywatch.Python.{Platform}
use ha_skywatch.Python.Result.{Result, ok, err, legacy_import, Exec, continue}
use ha_skywatch.Storage.Migrations.{and_then}
use ha_skywatch.LegacyImport.{
  LegacyTable, LegacyFile, legacy_sightings_columns, optional_legacy_sightings_columns,
  legacy_movements_columns,
}
use ha_skywatch.LegacyImport.Window.{Bound, to_utc_iso, WindowPlan, window_plan}
use ha_skywatch.LegacyImport.Session.{Session, query}
use ha_skywatch.LegacyImport.Import.{
  Planned, Plans, plan_table, plan_tables, require_window_tables, existing, check_window,
}
use ha_skywatch.LegacyImport.Reading.{Post, Reads-plan_tables}

abbrev pub required : Option LegacyTable → Result LegacyTable
required none = err legacy_import
required (some t) = ok t

abbrev pub planned :
    Text → List Text → List Text → Option Text → Option Text → ℕ → LegacyTable → Result Planned
planned time_col columns optional since until tolerance t =
    and_then (window_plan time_col columns optional since until tolerance t)
      λ plan. ok (record { plan = plan; source = t })

-- The two plans, or the refusal of a database without the tables or their columns.
abbrev pub plans_of : LegacyFile → Option Text → Option Text → ℕ → Result Plans
plans_of legacy since until tolerance = and_then (required legacy.sightings) λ s.
    and_then (required legacy.airport_movements) λ m.
      and_then
        (planned (codes "exit_time") legacy_sightings_columns optional_legacy_sightings_columns
          since until tolerance s)
        λ ps.
          and_then
            (planned (codes "event_time") legacy_movements_columns [] since until tolerance m)
            λ pm. ok (record { sightings = ps; airport_movements = pm })

-- The bounds and the plans, or the refusal.
abbrev pub window_plans : Platform → LegacyFile → Bound → Bound → ℕ → Result Plans
window_plans p legacy since until tolerance = and_then (to_utc_iso p since) λ since_iso.
    and_then (to_utc_iso p until) λ until_iso.
      and_then (check_window since_iso until_iso) λ _. plans_of legacy since_iso until_iso tolerance

bind_ok :
    {A B : Type 0} (o : Result A × Session) (k : A → Exec Session B) (b : B)
    → (continue o.0 k o.1).0 ≡ ok b
    → (a : A) × (o.0 ≡ ok a) × ((k a o.1).0 ≡ ok b)
bind_ok (ok a, t) k b h = (a, refl, h)
bind_ok (err e, t) k b h = cc

existing_ok : (o : Option LegacyTable) (t : LegacyTable) → existing o ≡ ok t → o ≡ some t
existing_ok none t h = cc
existing_ok (some u) t h = cc

module _ (time_col : Text) (columns optional : List Text) (since until : Option Text)
    (tolerance : ℕ) where
  plan_table_ok :
      (o : Option LegacyTable) (s : Session) (q : Planned)
      → (plan_table time_col columns optional since until tolerance o s).0 ≡ ok q
      → (t : LegacyTable) × (o ≡ some t)
        × (planned time_col columns optional since until tolerance t ≡ ok q)
  unfolding plan_table
  plan_table_ok o s q h =
      let (t, ht, h1) = bind_ok (existing o, s) _ q h in
      let (_, _, h2) = bind_ok (query (λ _. tt) s) _ q h1 in
      let (plan, hp, h3) =
        bind_ok
          (window_plan time_col columns optional since until tolerance t, (query (λ _. tt) s).1) _ q
          h2 in
      (
        t,
        existing_ok o t ht,
        ap (λ (r : Result WindowPlan). and_then r λ x. ok (record { plan = x; source = t })) hp
            ∙ h3,
      )

module _ (f g : LegacyTable → Result Planned) where
  abbrev joined : Option LegacyTable → Option LegacyTable → Result Plans
  joined o o' = and_then (required o) λ s. and_then (required o') λ m.
      and_then (f s)
        λ ps. and_then (g m) λ pm. ok (record { sightings = ps; airport_movements = pm })

  joined_ok :
      (o o' : Option LegacyTable) (s m : LegacyTable) (ps pm : Planned)
      → o ≡ some s
      → o' ≡ some m
      → f s ≡ ok ps
      → g m ≡ ok pm
      → joined o o' ≡ ok (record { sightings = ps; airport_movements = pm })
  joined_ok o o' s m ps pm e e' h h' = rw (e, e', h, h') refl

plan_tables_ok :
    (legacy : LegacyFile) (since until : Option Text) (tolerance : ℕ) (s : Session) (plans : Plans)
    → (plan_tables legacy since until tolerance s).0 ≡ ok plans
    → plans_of legacy since until tolerance ≡ ok plans
unfolding plan_tables
plan_tables_ok legacy since until tolerance s plans h =
    let s1 = (require_window_tables legacy s).1 in
    let (_, _, h1) = bind_ok (require_window_tables legacy s) _ plans h in
    let first =
      plan_table (codes "exit_time") legacy_sightings_columns optional_legacy_sightings_columns
        since until tolerance legacy.sightings s1 in
    let (ps, hs, h2) = bind_ok first _ plans h1 in
    let (pm, hm, h3) =
      bind_ok
        (plan_table (codes "event_time") legacy_movements_columns [] since until tolerance
          legacy.airport_movements first.1)
        _ plans h2 in
    let (ts, es, ds) =
      plan_table_ok (codes "exit_time") legacy_sightings_columns optional_legacy_sightings_columns
        since until tolerance legacy.sightings s1 ps hs in
    let (tm, em, dm) =
      plan_table_ok (codes "event_time") legacy_movements_columns [] since until tolerance
        legacy.airport_movements first.1 pm hm in
    joined_ok
      (planned (codes "exit_time") legacy_sightings_columns optional_legacy_sightings_columns since
        until tolerance)
      (planned (codes "event_time") legacy_movements_columns [] since until tolerance)
      legacy.sightings legacy.airport_movements ts tm ps pm es em ds dm
    ∙ h3

pub plan_tables_post :
    (legacy : LegacyFile) (since until : Option Text) (tolerance : ℕ)
    → Post
        (plan_tables legacy since until tolerance)
        (λ s plans t. plans_of legacy since until tolerance ≡ ok plans)
plan_tables_post legacy since until tolerance s idle = (
  (Reads-plan_tables legacy since until tolerance).waits s idle,
  plan_tables_ok legacy since until tolerance s,
)

-- ===== src/Storage/Migrations/Laws.antt =====
-- storage/migrations.py: the migration and the ladder, run once and run again.
use mathlib.Core.Path.{subst}
use ha_skywatch.Prelude.{
  ℕ, ◌-◌, ◌≤◌, true, Option, some, List, [], ◌∷◌, Text, codes, ◌≡◌, refl, sym, ap, ◌∙◌, arith,
  Bool-cases, ltb, inl, inr,
}
use ha_skywatch.Python.Result.{Result, ok, err}
use ha_skywatch.Storage.Migrations.{
  Table, LegacyDb, sighting_indexes, sighting_columns, movement_columns, schema_version, climb,
  all_exist, create_table, create_indexes, add_columns, and_then, migrate_sightings,
  migrate_movements, migrate_entries, migrate_positions, migrate_0_to_1, run_migrations,
}
use ha_skywatch.Storage.Migrations.Photos.{ok-inj, fix_photos_lem}
use ha_skywatch.Storage.Migrations.Columns.{
  added, all_exist-add_columns, added_exist, add_columns_again, create_indexes_lem, indexes_again,
}

-- The parts of a migrated table that a second run looks at.
pub and_then_lem :
    {A B : Type 0} (r : Result A) (f : A → Result B) (b : B)
    → and_then r f ≡ ok b
    → (a : A) × (r ≡ ok a) × (f a ≡ ok b)
and_then_lem (ok a) f b h = (a, refl, h)
and_then_lem (err e) f b h = cc

sightings_again :
    (o : Option Table) (u : Table)
    → migrate_sightings o ≡ ok u
    → (migrate_sightings (some u) ≡ ok u) × (all_exist added u.columns ≡ true)
unfolding migrate_sightings
sightings_again o u h =
    let t = create_table sighting_columns o in
    let (t', created, fix) = and_then_lem (create_indexes sighting_indexes t) _ u h in
    let (exist, same) = create_indexes_lem sighting_indexes t t' created in
    let (columns, again) = fix_photos_lem (add_columns t') u fix in
    let indexed : all_exist sighting_indexes u.columns ≡ true =
      ap (all_exist sighting_indexes) columns
      ∙ all_exist-add_columns sighting_indexes t'
          (ap (λ (x : Table). all_exist sighting_indexes x.columns) same ∙ exist) in
    let have : all_exist added u.columns ≡ true = ap (all_exist added) columns ∙ added_exist t' in
    (rw (indexes_again sighting_indexes u indexed, add_columns_again u have) again, have)

movements_again :
    (o : Option Table) (u : Table) → migrate_movements o ≡ ok u → migrate_movements (some u) ≡ ok u
unfolding migrate_movements
movements_again o u h =
    let wanted = codes "event_time" ∷ codes "airport_iata" ∷ codes "direction" ∷ [] in
    let t = create_table movement_columns o in
    let (t', created, fix) = and_then_lem (create_indexes wanted t) _ u h in
    let (exist, same) = create_indexes_lem wanted t t' created in
    let (columns, again) = fix_photos_lem t' u fix in
    let indexed : all_exist wanted u.columns ≡ true =
      ap (all_exist wanted) columns ∙ ap (λ (x : Table). all_exist wanted x.columns) same ∙ exist in
    rw (indexes_again wanted u indexed) again

indexed_again :
    (wanted : List Text) (t u : Table)
    → create_indexes wanted t ≡ ok u
    → create_indexes wanted u ≡ ok u
indexed_again wanted t u h =
    let (exist, same) = create_indexes_lem wanted t u h in
    indexes_again wanted u (ap (λ (x : Table). all_exist wanted x.columns) same ∙ exist)

-- The migration may be run again: on what it made of a database it changes nothing.
pub migrate_twice : (d d' : LegacyDb) → migrate_0_to_1 d ≡ ok d' → migrate_0_to_1 d' ≡ ok d'
unfolding migrate_0_to_1 migrate_entries migrate_positions
migrate_twice d d' h =
    let (s, hs, h1) = and_then_lem (migrate_sightings d.sightings) _ d' h in
    let (e, he, h2) = and_then_lem (migrate_entries d.entries) _ d' h1 in
    let (m, hm, h3) = and_then_lem (migrate_movements d.airport_movements) _ d' h2 in
    let (r, hr, h4) = and_then_lem (migrate_positions d.flight_positions) _ d' h3 in
    subst (λ v. migrate_0_to_1 v ≡ ok v) (ok-inj _ d' h4)
      (rw
        (
          (sightings_again d.sightings s hs).0,
          indexed_again _ _ e he,
          movements_again d.airport_movements m hm,
          indexed_again _ _ r hr,
        )
        refl)

new_columns :
    (d m : LegacyDb)
    → migrate_0_to_1 d ≡ ok m
    → (t : Table) × (m.sightings ≡ some t) × (all_exist added t.columns ≡ true)
unfolding migrate_0_to_1
new_columns d m h =
    let (s, hs, h1) = and_then_lem (migrate_sightings d.sightings) _ m h in
    let (e, he, h2) = and_then_lem (migrate_entries d.entries) _ m h1 in
    let (a, ha, h3) = and_then_lem (migrate_movements d.airport_movements) _ m h2 in
    let (r, hr, h4) = and_then_lem (migrate_positions d.flight_positions) _ m h3 in
    (
      s,
      ap (λ (x : LegacyDb). x.sightings) (sym (ok-inj _ m h4)),
      (sightings_again d.sightings s hs).1,
    )

-- A database at the schema's version or a later one is left as it is.
up_to_date : (d : LegacyDb) → schema_version ≤ d.user_version → run_migrations d ≡ ok d
unfolding run_migrations climb
up_to_date d h =
    subst (λ steps. climb steps d.user_version d ≡ ok d) (no_steps d.user_version h) refl
  where
    no_steps : (v : ℕ) → 1 ≤ v → 0 ≡ 1 - v
    no_steps v h = omega arith

from_zero :
    (d d' : LegacyDb)
    → d.user_version ≡ 0
    → run_migrations d ≡ ok d'
    → (d'.user_version ≡ 1)
      × ((t : Table) × (d'.sightings ≡ some t) × (all_exist added t.columns ≡ true))
unfolding run_migrations climb
from_zero d d' v h =
    let k : climb 1 0 d ≡ ok d' = subst (λ n. climb (1 - n) n d ≡ ok d') v h in
    let (m, hm, e) = and_then_lem (migrate_0_to_1 d) _ d' k in
    let same = sym (ok-inj _ d' e) in
    let (t, ht, have) = new_columns d m hm in
    (
      ap (λ (x : LegacyDb). x.user_version) same,
      (t, ap (λ (x : LegacyDb). x.sightings) same ∙ ht, have),
    )

-- Where it returns, the ladder has brought the database to version 1 at least, and a second run
-- changes nothing. From version 0 the table of sightings has then got the four new columns.
pub run_migrations_lem :
    (d d' : LegacyDb)
    → run_migrations d ≡ ok d'
    → (schema_version ≤ d'.user_version)
      × (run_migrations d' ≡ ok d')
      × (d.user_version ≡ 0
          → (t : Table) × (d'.sightings ≡ some t) × (all_exist added t.columns ≡ true))
run_migrations_lem d d' h = elim (Bool-cases (ltb 0 d.user_version)) [
  | inl e ↦
      let same : d ≡ d' = ok-inj d d' (sym (up_to_date d (ground (arith, e))) ∙ h) in
      let at : 1 ≤ d'.user_version =
        subst (λ (x : LegacyDb). 1 ≤ x.user_version) same (ground (arith, e)) in
      (at, up_to_date d' at, λ v. absurd (ground (arith, e, v)))
  | inr e ↦
      let (at, have) = from_zero d d' (ground (arith, e)) h in
      (omega (arith, at), up_to_date d' (omega (arith, at)), λ v. have)
]

-- ===== src/LegacyImport/Reading.antt =====
-- legacy_import.py: the statements of `import_legacy_window` that only read or drop a stage, and what
-- holds after a statement that did not raise.
use ha_skywatch.Prelude.{ℕ, false, Option, none, some, List, Text, ◌≡◌, refl, length, if_cases}
use ha_skywatch.Python.Result.{
  Result, ok, err, operational, legacy_import, Exec, pure, continue, ◌>>=◌,
}
use ha_skywatch.LegacyImport.{LegacyTable, LegacyFile}
use ha_skywatch.LegacyImport.Window.{Strftime, WindowPlan, window_plan, candidates, new_rows}
use ha_skywatch.LegacyImport.Session.{Session, arrive, view, execute, next_moment}
use ha_skywatch.LegacyImport.Import.{
  WindowTable, sightings_table, movements_table, target_table, set_staged, existing, require_table,
  require_window_tables, Plans, plan_table, plan_tables, ordered, count_candidates,
  drop_stage_table, drop_stage_tables, count_new_rows, count_plans,
}
use ha_skywatch.LegacyImport.Later.{
  Waits, Waits-trans, Waits-arrive, Reads, Reads-pure, Reads-lift, Reads-execute, Reads-query,
  Reads-bind, Keeps, Waits-Keeps, Waits-refl,
}

Reads-raise_or : (o : Option LegacyTable) → Reads (require_table o)
unfolding require_table
Reads-raise_or none = Reads-lift (err legacy_import)
Reads-raise_or (some t) = Reads-pure tt

Reads-plan_table :
    (time_col : Text) (required optional : List Text) (since until : Option Text) (tolerance : ℕ)
    (o : Option LegacyTable)
    → Reads (plan_table time_col required optional since until tolerance o)
unfolding plan_table
Reads-plan_table time_col required optional since until tolerance o =
    Reads-bind _ _ (Reads-lift (existing o)) λ source. Reads-bind _ _ (Reads-query (λ _. tt)) λ _.
      Reads-bind _ _
        (Reads-lift (window_plan time_col required optional since until tolerance source))
        λ plan. Reads-pure _

pub Reads-plan_tables :
    (legacy : LegacyFile) (since until : Option Text) (tolerance : ℕ)
    → Reads (plan_tables legacy since until tolerance)
unfolding plan_tables require_window_tables
Reads-plan_tables legacy since until tolerance =
    Reads-bind _ _
      (Reads-bind _ _ (Reads-query (λ _. tt)) λ _.
        Reads-bind _ _ (Reads-raise_or legacy.sightings)
          λ _. Reads-raise_or legacy.airport_movements)
      λ _.
        Reads-bind _ _ (Reads-plan_table _ _ _ _ _ _ _)
          λ s. Reads-bind _ _ (Reads-plan_table _ _ _ _ _ _ _) λ m. Reads-pure _

pub Reads-drop : (table : WindowTable) → Reads (drop_stage_table table)
unfolding drop_stage_table
Reads-drop table =
    Reads-execute (λ s. (ok tt, record s { stage = set_staged table none s.stage }))
      (λ s. (refl, refl, refl))

pub drop_stage_tables-Waits :
    (s : Session) → s.in_transaction ≡ false → Waits s (drop_stage_tables s)
unfolding drop_stage_tables
drop_stage_tables-Waits s h =
    let first = (Reads-drop sightings_table).waits s h in
    Waits-trans first
      ((Reads-drop movements_table).waits (drop_stage_table sightings_table s).1 first.idle)

module _ (f : Strftime) where
  Reads-count_new_rows :
      (table : WindowTable) (legacy : LegacyTable) (plan : WindowPlan)
      → Reads (count_new_rows f table legacy plan)
  unfolding count_new_rows
  Reads-count_new_rows table legacy plan =
      Reads-execute
        (λ s. (
          ordered legacy (length (new_rows f plan legacy.rows (target_table table (view s)).rows)),
          s,
        ))
        (λ s. (refl, refl, refl))

  pub Reads-count_candidates :
      (legacy : LegacyTable) (plan : WindowPlan) → Reads (count_candidates f legacy plan)
  unfolding count_candidates
  Reads-count_candidates legacy plan = Reads-query (λ _. candidates plan legacy.rows)

  pub Reads-count_plans : (plans : Plans) → Reads (count_plans f plans)
  unfolding count_plans
  Reads-count_plans plans =
      let s = plans.sightings in
      let m = plans.airport_movements in
      Reads-bind _ _ (Reads-count_candidates s.source s.plan) λ c.
        Reads-bind _ _ (Reads-count_new_rows sightings_table s.source s.plan) λ i.
          Reads-bind _ _ (Reads-count_candidates m.source m.plan) λ c'.
            Reads-bind _ _ (Reads-count_new_rows movements_table m.source m.plan) λ i'. Reads-pure _

-- Run with no transaction open, `m` opens none and leaves the target alone; where it returns `a`,
-- `Q` relates the sessions before and after it.
abbrev pub Post : {A : Type 0} → Exec Session A → (Session → A → Session → Type 0) → Type 0
Post {A} m Q =
    (s : Session)
    → s.in_transaction ≡ false
    → Waits s (m s).1 × ((a : A) → (m s).0 ≡ ok a → Q s a (m s).1)

module _ {A B : Type 0} where
  -- What is known of `m` and then of `k`, with the session between the two.
  abbrev pub Both :
      (Session → A → Session → Type 0)
      → (A → Session → B → Session → Type 0)
      → Session
      → B
      → Session
      → Type 0
  Both Q R s b u = (a : A) × (t : Session) × Waits s t × Waits t u × Q s a t × R a t b u

  post_continue :
      (s : Session) (o : Result A × Session) (k : A → Exec Session B)
      (Q : Session → A → Session → Type 0) (R : A → Session → B → Session → Type 0)
      → Waits s o.1
      → ((a : A) → o.0 ≡ ok a → Q s a o.1)
      → ((a : A) → Post (k a) (R a))
      → let o' = continue o.0 k o.1 in Waits s o'.1 × ((b : B) → o'.0 ≡ ok b → Both Q R s b o'.1)
  post_continue s (err e, t) k Q R w q r = (w, λ b h. cc)
  post_continue s (ok a, t) k Q R w q r =
      let (v, p) = r a t w.idle in (Waits-trans w v, λ b h. (a, t, w, v, q a refl, p b h))

  pub Post-bind :
      (m : Exec Session A) (k : A → Exec Session B) (Q : Session → A → Session → Type 0)
      (R : A → Session → B → Session → Type 0)
      → Post m Q
      → ((a : A) → Post (k a) (R a))
      → Post (m >>= k) (Both Q R)
  Post-bind m k Q R h r s idle = let (w, q) = h s idle in post_continue s (m s) k Q R w q r

module _ {A : Type 0} where
  -- What a statement does, from the session that it finds.
  abbrev pub Found : (Session → A → Session → Type 0) → Session → A → Session → Type 0
  Found Q s a t = (s' : Session) × Waits s s' × (s'.stage ≡ s.stage) × Waits s' t × Q s' a t

  pub Post-execute :
      (f : Session → Result A × Session) (Q : Session → A → Session → Type 0)
      → ((s : Session) → Keeps s (f s).1)
      → ((s : Session) (a : A) → s.in_transaction ≡ false → (f s).0 ≡ ok a → Q s a (f s).1)
      → Post (execute f) (Found Q)
  unfolding execute arrive
  Post-execute f Q keeps q s idle =
      let w = Waits-arrive s idle in
      let v = Waits-Keeps (arrive s) (f (arrive s)).1 w.idle (keeps (arrive s)) in
      if_cases (λ (o : Result A × Session). Waits s o.1 × ((a : A) → o.0 ≡ ok a → Found Q s a o.1))
        (next_moment s.moments).fails (err operational, arrive s) (f (arrive s))
        (λ _. (w, λ a h. cc))
        (λ _. (Waits-trans w v, λ a h. (arrive s, w, refl, v, q (arrive s) a w.idle h)))

  pub Post-mono :
      (m : Exec Session A) (Q R : Session → A → Session → Type 0)
      → Post m Q
      → ((s : Session) (a : A) (t : Session) → Q s a t → R s a t)
      → Post m R
  Post-mono m Q R h k s idle = let (w, q) = h s idle in (w, λ a e. k s a (m s).1 (q a e))

  pub Post-pure : (a : A) → Post (pure a) (λ s b t. (b ≡ a) × (t ≡ s))
  Post-pure a s idle = (Waits-refl s idle, λ b h. (cc, refl))

-- ===== src/LegacyImport/Locked.antt =====
-- legacy_import.py: the transaction that copies the staged rows, under the write lock.
use mathlib.Core.Path.{subst}
use ha_skywatch.Prelude.{
  ℕ, true, false, ◌≡◌, ◌⊎◌, inl, inr, refl, sym, ◌∙◌, ap, arith, if_cases, if◌then◌else◌,
}
use ha_skywatch.Python.Result.{Error, Result, ok, err, operational, pure, continue, ◌>>=◌}
use ha_skywatch.Storage.Migrations.{and_then}
use ha_skywatch.LegacyImport.{Target}
use ha_skywatch.LegacyImport.Window.{Strftime, WindowPlan}
use ha_skywatch.LegacyImport.Session.{
  Stage, Session, arrive, execute, commit, with_working, next_moment,
}
use ha_skywatch.LegacyImport.Import.{
  WindowTable, sightings_table, movements_table, staged, Plans, commit_staged, commit_stage,
}
use ha_skywatch.LegacyImport.Later.{Later, Later-trans, Later-held}

-- `o` came from `s` under the write lock: nothing was committed, the stages are as they were, and
-- the working state became what `r` says, or the statement raised.
pub record Locks {A : Type 0} (s : Session) (r : Result (A × Target)) (o : Result A × Session)
    : Type 0 where
  pub locked : o.1.in_transaction ≡ true
  pub later : Later s.committed s.moments o.1.committed o.1.moments
  pub committed : o.1.committed ≡ s.committed
  pub stage : o.1.stage ≡ s.stage
  pub outcome :
      ((a : A) × (d : Target) × (r ≡ ok (a, d)) × (o.0 ≡ ok a) × (o.1.working ≡ d))
      ⊎ ((e : Error) × (o.0 ≡ err e))

pub held_arrive :
    (s : Session)
    → s.in_transaction ≡ true
    → (Later s.committed s.moments (arrive s).committed (arrive s).moments)
      × ((arrive s).committed ≡ s.committed)
unfolding arrive
held_arrive s h =
    let same = ap (λ b. if b then s.committed else (next_moment s.moments).arrives s.committed) h in
    (
      subst (λ d. Later s.committed s.moments d (arrive s).moments) (sym same)
          (Later-held s.committed s.moments),
      same,
    )

module _ {A : Type 0} where
  pub Locks-with :
      (r : Result (A × Target)) (s t : Session)
      → s.in_transaction ≡ true
      → Later s.committed s.moments t.committed t.moments
      → t.committed ≡ s.committed
      → t.stage ≡ s.stage
      → Locks s r (with_working r t)
  Locks-with (ok (n, d)) s t h l c g = record {
    locked = refl;
    later = l;
    committed = c;
    stage = g;
    outcome = inl (n, d, refl, refl, refl);
  }
  Locks-with (err e) s t h l c g = record {
    locked = refl;
    later = l;
    committed = c;
    stage = g;
    outcome = inr (e, refl);
  }

module _ (f : Strftime) (table : WindowTable) (plan : WindowPlan) where
  -- The statement, which sees the working state.
  pub commit_stage-Locks :
      (s : Session)
      → s.in_transaction ≡ true
      → Locks s
          (commit_staged f table plan (staged table s.stage) s.working)
          (commit_stage f table plan s)
  unfolding commit_stage execute arrive
  commit_stage-Locks s h =
      let (l, c) = held_arrive s h in
      if_cases (Locks s (commit_staged f table plan (staged table s.stage) s.working))
        (next_moment s.moments).fails _ _
        (λ _. record {
          locked = h;
          later = l;
          committed = c;
          stage = refl;
          outcome = inr (operational, refl);
        })
        (λ _.
          subst
            (λ d.
              Locks s (commit_staged f table plan (staged table s.stage) s.working)
                (with_working (commit_staged f table plan (staged table s.stage) d) (arrive s)))
            (sym (ap (λ b. if b then s.working else (arrive s).committed) h))
            (Locks-with (commit_staged f table plan (staged table s.stage) s.working) s (arrive s) h
              l c refl))

-- The transaction ended: it committed what `r` says, or it raised and committed nothing.
pub record Ends {A : Type 0} (s : Session) (r : Result (A × Target)) (o : Result A × Session)
    : Type 0 where
  pub outcome :
      ((n : A) × (d : Target) × (r ≡ ok (n, d))
        × (o.0 ≡ ok n)
        × (o.1.committed ≡ d)
        × (o.1.in_transaction ≡ false)
        × (Later s.committed s.moments s.committed o.1.moments))
      ⊎ ((e : Error) × (o.0 ≡ err e) × (Later s.committed s.moments o.1.committed o.1.moments))

-- Earlier statements under the lock do not change what an end means.
pub Ends-Locks :
    {A B : Type 0} (s t : Session) (q : Result (A × Target)) (a : Result A)
    (r : Result (B × Target)) (o : Result B × Session)
    → Locks s q (a, t)
    → Ends t r o
    → Ends s r o
Ends-Locks s t q a r o l h = record {
  outcome = elim h.outcome [
    | inl (n, d, er, eo, ed, idle, kept) ↦ inl (
      n,
      d,
      er,
      eo,
      ed,
      idle,
      subst (λ x. Later s.committed s.moments x o.1.moments) l.committed (Later-trans l.later kept),
    )
    | inr (e, eo, later) ↦ inr (e, eo, Later-trans l.later later)
  ];
}

pub commit-Ends :
    {A : Type 0} (n : A) (s : Session)
    → s.in_transaction ≡ true
    → Ends s (ok (n, s.working)) ((commit >>= λ _. pure n) s)
unfolding commit execute arrive
commit-Ends n s h =
    let (l, c) = held_arrive s h in
    subst
      (λ b. Ends s (ok (n, s.working)) (
        let o =
          if b
          then execute (λ t. (ok tt, record t { committed = t.working; in_transaction = false })) s
          else (ok tt, s) in
        continue o.0 (λ _. pure n) o.1))
      (sym h)
      (if_cases
        (λ (o : Result (Unit {0}) × Session).
          Ends s (ok (n, s.working)) (continue o.0 (λ _. pure n) o.1))
        (next_moment s.moments).fails _ _ (λ _. record { outcome = inr (operational, refl, l) })
        (λ _. record {
          outcome = inl (
            n,
            s.working,
            refl,
            refl,
            refl,
            refl,
            subst (λ d. Later s.committed s.moments d (arrive s).moments) c l,
          );
        }))

module _ (f : Strftime) (plans : Plans) (st : Stage) where
  abbrev second_spec : ℕ → Target → Result ((ℕ × ℕ) × Target)
  second_spec i d =
      and_then (commit_staged f movements_table plans.airport_movements.plan st.airport_movements d)
        λ (i', d'). ok ((i, i'), d')

  -- What the transaction computes from the target as it finds it and the staged rows.
  abbrev pub copy_spec : Target → Result ((ℕ × ℕ) × Target)
  copy_spec d =
      and_then (commit_staged f sightings_table plans.sightings.plan st.sightings d)
        λ (i, d'). second_spec i d'

  second-Ends :
      (i : ℕ) (s : Session) (r : Result (ℕ × Target)) (o : Result ℕ × Session)
      → Locks s r o
      → Ends {A = ℕ × ℕ} s
          (and_then r (λ (i', d'). ok ((i, i'), d')))
          (continue o.0 (λ i'. commit >>= λ _. pure (i, i')) o.1)
  second-Ends i s r (err e, t) l = record { outcome = inr (e, refl, l.later) }
  second-Ends i s r (ok i', t) l = elim l.outcome [
    | inr (e, bad) ↦ absurd (ground (arith, bad))
    | inl (a, d, er, ea, ed) ↦
        let same : ok (i', t.working) ≡ r = ground (arith, er, ea, ed) in
        subst
          (λ r'.
            Ends {A = ℕ × ℕ} s (and_then r' (λ (i', d'). ok ((i, i'), d')))
              ((commit >>= λ _. pure (i, i')) t))
          same
          (Ends-Locks s t r (ok i') (ok ((i, i'), t.working)) _ l (commit-Ends (i, i') t l.locked))
  ]

  pub first-Ends :
      (s : Session) (r : Result (ℕ × Target)) (o : Result ℕ × Session)
      → s.stage ≡ st
      → Locks s r o
      → Ends {A = ℕ × ℕ} s (and_then r (λ (i, d'). second_spec i d')) (
          continue o.0
            (λ i. commit_stage f movements_table plans.airport_movements.plan >>= λ i'.
              commit >>= λ _. pure (i, i'))
            o.1)
  first-Ends s r (err e, t) g l = record { outcome = inr (e, refl, l.later) }
  first-Ends s r (ok i, t) g l = elim l.outcome [
    | inr (e, bad) ↦ absurd (ground (arith, bad))
    | inl (a, d, er, ea, ed) ↦
        let same : ok (i, t.working) ≡ r = ground (arith, er, ea, ed) in
        let next = commit_stage-Locks f movements_table plans.airport_movements.plan t l.locked in
        let seen : Stage = t.stage in
        subst
          (λ r'. Ends {A = ℕ × ℕ} s (and_then r' (λ (i, d'). second_spec i d')) (
            (commit_stage f movements_table plans.airport_movements.plan >>= λ i'.
            commit >>= λ _. pure (i, i'))
              t))
          same
          (Ends-Locks s t r (ok i) (second_spec i t.working) _ l (
            subst
              (λ (x : Stage).
                Ends {A = ℕ × ℕ} t
                  (and_then
                    (commit_staged f movements_table plans.airport_movements.plan
                      x.airport_movements t.working)
                    (λ (i', d'). ok ((i, i'), d')))
                  ((commit_stage f movements_table plans.airport_movements.plan >>= λ i'.
                      commit >>= λ _. pure (i, i'))
                    t))
              (l.stage ∙ g) (second-Ends i t _ _ next)))
  ]

-- ===== src/LegacyImport/CopyAtomic.antt =====
-- legacy_import.py: `import_legacy_db` copies all or nothing.
use mathlib.Core.Path.{subst}
use ha_skywatch.Prelude.{
  ℕ, true, some, ◌≡◌, inl, inr, refl, sym, ◌∙◌, ap, arith, if_cases, if◌then◌else◌,
}
use ha_skywatch.Python.Result.{
  Error, Result, ok, err, operational, Exec, pure, continue, ◌>>=◌, ◌>>◌,
}
use ha_skywatch.Storage.Migrations.{and_then}
use ha_skywatch.LegacyImport.{LegacyTable, Target}
use ha_skywatch.LegacyImport.Session.{
  Session, arrive, view, execute, query, update, commit, with_working, next_moment,
}
use ha_skywatch.LegacyImport.Copy.{
  CopySummary, copy_sightings, copy_entries, copy_movements, fix_sightings, fix_movements,
  copy_step,
}
use ha_skywatch.LegacyImport.Later.{Later-trans}
use ha_skywatch.LegacyImport.Locked.{Locks, Locks-with, held_arrive, Ends, Ends-Locks, commit-Ends}

-- Under the write lock, `m` does to the working state what `g` says, or raises.
record Holds {A : Type 0} (m : Exec Session A) (g : Target → Result (A × Target)) : Type 0 where
  locks : (s : Session) → s.in_transaction ≡ true → Locks s (g s.working) (m s)

module _ {A : Type 0} where
  raised_Locks :
      (r : Result (A × Target)) (s : Session) (e : Error)
      → s.in_transaction ≡ true
      → Locks s r (err e, arrive s)
  unfolding arrive
  raised_Locks r s e h =
      let (l, c) = held_arrive s h in
      record { locked = h; later = l; committed = c; stage = refl; outcome = inr (e, refl) }

  Holds-update : (g : Target → Result (A × Target)) → Holds (update g) g
  unfolding update execute arrive
  Holds-update g = record {
    locks = λ s h.
        let (l, c) = held_arrive s h in
        if_cases (Locks s (g s.working)) (next_moment s.moments).fails (err operational, arrive s)
          (with_working (g (view (arrive s))) (arrive s))
          (λ _. raised_Locks (g s.working) s operational h)
          (λ _.
            subst (λ d. Locks s (g s.working) (with_working (g d) (arrive s)))
              (sym (ap (λ b. if b then s.working else (arrive s).committed) h))
              (Locks-with (g s.working) s (arrive s) h l c refl));
  }

Holds-query : Holds (query (λ _. tt)) (λ d. ok (tt, d))
unfolding query execute arrive
Holds-query = record {
  locks = λ s h.
      let (l, c) = held_arrive s h in
      if_cases (Locks s (ok (tt, s.working))) (next_moment s.moments).fails _ (ok tt, arrive s)
        (λ _. raised_Locks (ok (tt, s.working)) s operational h)
        (λ _. record {
          locked = h;
          later = l;
          committed = c;
          stage = refl;
          outcome = inl (tt, s.working, refl, refl, refl);
        });
}

module _ {A B : Type 0} where
  Locks-trans :
      (s t : Session) (q : Result (A × Target)) (a : Result A) (r : Result (B × Target))
      (o : Result B × Session)
      → Locks s q (a, t)
      → Locks t r o
      → Locks s r o
  Locks-trans s t q a r o l h = record {
    locked = h.locked;
    later = Later-trans l.later h.later;
    committed = h.committed ∙ l.committed;
    stage = h.stage ∙ l.stage;
    outcome = h.outcome;
  }

  hold_continue :
      (s : Session) (r : Result (A × Target)) (o : Result A × Session) (k : A → Exec Session B)
      (h : A → Target → Result (B × Target))
      → Locks s r o
      → ((a : A) → Holds (k a) (h a))
      → Locks s (and_then r λ (a, d). h a d) (continue o.0 k o.1)
  hold_continue s r (err e, t) k h l ks = record {
    locked = l.locked;
    later = l.later;
    committed = l.committed;
    stage = l.stage;
    outcome = inr (e, refl);
  }
  hold_continue s r (ok a, t) k h l ks = elim l.outcome [
    | inr (e, bad) ↦ absurd (ground (arith, bad))
    | inl (a', d, er, ea, ed) ↦
        let same : ok (a, t.working) ≡ r = ground (arith, er, ea, ed) in
        subst (λ r'. Locks s (and_then r' λ (a, d). h a d) (k a t)) same
          (Locks-trans s t r (ok a) (h a t.working) (k a t) l ((ks a).locks t l.locked))
  ]

  Holds-bind :
      (m : Exec Session A) (k : A → Exec Session B) (g : Target → Result (A × Target))
      (h : A → Target → Result (B × Target))
      → Holds m g
      → ((a : A) → Holds (k a) (h a))
      → Holds (m >>= k) (λ d. and_then (g d) λ (a, d'). h a d')
  Holds-bind m k g h hm ks = record {
    locks = λ s locked. hold_continue s (g s.working) (m s) k h (hm.locks s locked) ks;
  }

-- A unit of work under the lock that ends in the commit.
pub record Finishes {A : Type 0} (m : Exec Session A) (g : Target → Result (A × Target))
    : Type 0 where
  pub ends : (s : Session) → s.in_transaction ≡ true → Ends s (g s.working) (m s)

module _ {A B : Type 0} where
  pub finish_continue :
      (s : Session) (r : Result (A × Target)) (o : Result A × Session) (k : A → Exec Session B)
      (h : A → Target → Result (B × Target))
      → Locks s r o
      → ((a : A) → Finishes (k a) (h a))
      → Ends s (and_then r λ (a, d). h a d) (continue o.0 k o.1)
  finish_continue s r (err e, t) k h l ks = record { outcome = inr (e, refl, l.later) }
  finish_continue s r (ok a, t) k h l ks = elim l.outcome [
    | inr (e, bad) ↦ absurd (ground (arith, bad))
    | inl (a', d, er, ea, ed) ↦
        let same : ok (a, t.working) ≡ r = ground (arith, er, ea, ed) in
        subst (λ r'. Ends s (and_then r' λ (a, d). h a d) (k a t)) same
          (Ends-Locks s t r (ok a) (h a t.working) (k a t) l ((ks a).ends t l.locked))
  ]

  Finishes-bind :
      (m : Exec Session A) (k : A → Exec Session B) (g : Target → Result (A × Target))
      (h : A → Target → Result (B × Target))
      → Holds m g
      → ((a : A) → Finishes (k a) (h a))
      → Finishes (m >>= k) (λ d. and_then (g d) λ (a, d'). h a d')
  Finishes-bind m k g h hm ks = record {
    ends = λ s locked. finish_continue s (g s.working) (m s) k h (hm.locks s locked) ks;
  }

Finishes-commit : {A : Type 0} (a : A) → Finishes (commit >>= λ _. pure a) (λ d. ok (a, d))
Finishes-commit a = record { ends = commit-Ends a }

Holds-copy_step :
    (copy : LegacyTable → Target → Result (ℕ × Target)) (t : LegacyTable)
    → Holds (copy_step copy (some t)) (copy t)
unfolding copy_step
Holds-copy_step copy t =
    Holds-bind (query (λ _. tt)) (λ _. update (copy t)) (λ d. ok (tt, d)) (λ _. copy t) Holds-query
      (λ _. Holds-update (copy t))

module _ (s e m : LegacyTable) where
  abbrev summary_of : ℕ → ℕ → ℕ → CopySummary
  summary_of a b c = record { sightings_inserted = a; entries_inserted = b; movements_inserted = c }

  abbrev fix_spec : ℕ → ℕ → ℕ → Target → Result (CopySummary × Target)
  fix_spec a b c d =
      and_then (fix_sightings d)
        λ (_, d'). and_then (fix_movements d') λ (_, d''). ok (summary_of a b c, d'')

  abbrev pub rest_spec : ℕ → Target → Result (CopySummary × Target)
  rest_spec a d =
      and_then (copy_entries e d)
        λ (b, d'). and_then (copy_movements m d') λ (c, d''). fix_spec a b c d''

  -- What the import makes of the target: the three copies, then the two UPDATE statements.
  abbrev pub copy_db_spec : Target → Result (CopySummary × Target)
  copy_db_spec d = and_then (copy_sightings s d) λ (a, d'). rest_spec a d'

  abbrev fix_and_commit : ℕ → ℕ → ℕ → Exec Session CopySummary
  fix_and_commit a b c =
      update fix_sightings >> (update fix_movements >> (commit >> pure (summary_of a b c)))

  abbrev pub rest : ℕ → Exec Session CopySummary
  rest a = copy_step copy_entries (some e) >>= λ b.
      copy_step copy_movements (some m) >>= λ c. fix_and_commit a b c

  Finishes-fix : (a b c : ℕ) → Finishes (fix_and_commit a b c) (fix_spec a b c)
  Finishes-fix a b c =
      Finishes-bind (update fix_sightings) _ fix_sightings _ (Holds-update fix_sightings) λ _.
        Finishes-bind (update fix_movements) (λ _. commit >> pure (summary_of a b c)) fix_movements
          (λ _ d. ok (summary_of a b c, d)) (Holds-update fix_movements)
          λ _. Finishes-commit (summary_of a b c)

  pub Finishes-rest : (a : ℕ) → Finishes (rest a) (rest_spec a)
  Finishes-rest a =
      Finishes-bind (copy_step copy_entries (some e)) _ (copy_entries e) _
        (Holds-copy_step copy_entries e)
        λ b.
          Finishes-bind (copy_step copy_movements (some m)) (fix_and_commit a b) (copy_movements m)
            (fix_spec a b) (Holds-copy_step copy_movements m) (Finishes-fix a b)

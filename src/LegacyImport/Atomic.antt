-- ===== src/LegacyImport/Atomic.antt =====
-- legacy_import.py: `import_legacy_window` from its call to its return.
use mathlib.Core.Path.{subst}
use ha_skywatch.Prelude.{
  ℕ, false, Text, Option, some, ◌≡◌, ◌⊎◌, inl, inr, refl, sym, arith, if_cases,
}
use ha_skywatch.Python.{Platform}
use ha_skywatch.Python.Result.{Error, Result, ok, err, Exec, continue, ◌>>=◌, ◌>>◌}
use ha_skywatch.Storage.Migrations.{and_then}
use ha_skywatch.LegacyImport.{LegacyFile}
use ha_skywatch.LegacyImport.Window.{Bound, Strftime, to_utc_iso}
use ha_skywatch.LegacyImport.Session.{Session, commit, attach}
use ha_skywatch.LegacyImport.Import.{
  Plans, Summary, lift, plan_tables, check_window, attempt, import_legacy_window,
}
use ha_skywatch.LegacyImport.Later.{now, Later-trans, Waits, Waits-trans, Reads-attach}
use ha_skywatch.LegacyImport.Plans.{window_plans, plans_of, plan_tables_post}
use ha_skywatch.LegacyImport.Real.{IsImported, IsUnchanged, raised_ends, run_plans-Whole}

module _ (f : Strftime) where
  -- What is known from a later session on is known from an earlier one on.
  imported_before :
      (plans : Plans) (s t : Session) (o : Result Summary × Session)
      → Waits s t
      → IsImported f plans t o
      → IsImported f plans s o
  imported_before plans s t o w h = record {
    at_sightings = h.at_sightings;
    at_movements = h.at_movements;
    at_lock = h.at_lock;
    first = Waits-trans w h.first;
    second = h.second;
    third = h.third;
    inserted = h.inserted;
    result = h.result;
    copied = h.copied;
    moments = h.moments;
    alone = h.alone;
    last = h.last;
    outcome = h.outcome;
  }

  -- All of the import whose plans are `r`, or nothing.
  abbrev pub Atomic : Result Plans → Session → Result Summary × Session → Type 0
  Atomic r s o = ((plans : Plans) × (r ≡ ok plans) × IsImported f plans s o) ⊎ IsUnchanged s o

  after_plans :
      (r : Result Plans) (s : Session) (o : Result Plans × Session)
      → Waits s o.1
      → ((plans : Plans) → o.0 ≡ ok plans → r ≡ ok plans)
      → Atomic r s (attempt f false o)
  unfolding attempt
  after_plans r s (err e, t) w q = inr (raised_ends false s t e w.later)
  after_plans r s (ok plans, t) w q = elim (run_plans-Whole f plans t w.idle) [
    | inl h ↦ inl (plans, q plans refl, imported_before plans s t _ w h)
    | inr h ↦ inr (record { later = Later-trans w.later h.later; raised = h.raised })
  ]

commit_idle : (s : Session) → s.in_transaction ≡ false → commit s ≡ (ok tt, s)
unfolding commit
commit_idle s idle =
    if_cases (λ (o : Result (Unit {0}) × Session). o ≡ (ok tt, s)) s.in_transaction _ _
      (λ open_. absurd (ground (arith, open_, idle))) (λ _. refl)

refused : (f : Strftime) (r : Result Plans) (s : Session) (e : Error) → Atomic f r s (err e, s)
refused f r s e = inr (record { later = now; raised = (e, refl) })

module _ (f : Strftime) (legacy : LegacyFile) (tolerance : ℕ) (s : Session)
    (idle : s.in_transaction ≡ false) where
  -- The call after the check of its bounds.
  abbrev after_check : Option Text → Option Text → Exec Session Summary
  after_check since until =
      commit >> (attach >> λ t. attempt f false (plan_tables legacy since until tolerance t))

  after_attach :
      (since until : Option Text) (o : Result (Unit {0}) × Session)
      → Waits s o.1
      → Atomic f
          (plans_of legacy since until tolerance)
          s
          (continue o.0 (λ _ t. attempt f false (plan_tables legacy since until tolerance t)) o.1)
  after_attach since until (err e, t) w = inr (record { later = w.later; raised = (e, refl) })
  after_attach since until (ok a, t) w =
      let (v, q) = plan_tables_post legacy since until tolerance t w.idle in
      after_plans f (plans_of legacy since until tolerance) s
        (plan_tables legacy since until tolerance t) (Waits-trans w v) q

  after_check-Atomic :
      (since until : Option Text) (c : Result (Unit {0}))
      → Atomic f
          (and_then c λ _. plans_of legacy since until tolerance)
          s
          ((lift c >>= λ _. after_check since until) s)
  after_check-Atomic since until (err e) = refused f _ s e
  after_check-Atomic since until (ok a) =
      subst
        (λ (o : Result (Unit {0}) × Session). Atomic f (plans_of legacy since until tolerance) s (
          continue o.0
            (λ _. attach >> λ t. attempt f false (plan_tables legacy since until tolerance t)) o.1))
        (sym (commit_idle s idle)) (after_attach since until (attach s) (Reads-attach.waits s idle))

  after_bounds-Atomic :
      (since until : Result (Option Text))
      → Atomic f
          (and_then since
            λ a. and_then until λ b. and_then (check_window a b) λ _. plans_of legacy a b tolerance)
          s
          ((lift since >>= λ a.
              lift until >>= λ b. lift (check_window a b) >>= λ _. after_check a b)
            s)
  after_bounds-Atomic (err e) until = refused f _ s e
  after_bounds-Atomic (ok a) (err e) = refused f _ s e
  after_bounds-Atomic (ok a) (ok b) = after_check-Atomic a b (check_window a b)

-- An import on an open connection that is not in a transaction, with statements failing and others
-- writing in between at will: either the rows of the stages are copied in one transaction, after which
-- only the DETACH may raise, or the call raises and the data are as the others have made them.
pub import_legacy_window-IsAtomic :
    (p : Platform) (f : Strftime) (legacy : LegacyFile) (since until : Bound) (tolerance : ℕ)
    (s : Session)
    → s.in_transaction ≡ false
    → Atomic f
        (window_plans p legacy since until tolerance)
        s
        (import_legacy_window p f (some legacy) since until tolerance false s)
unfolding import_legacy_window
import_legacy_window-IsAtomic p f legacy since until tolerance s idle =
    after_bounds-Atomic f legacy tolerance s idle (to_utc_iso p since) (to_utc_iso p until)

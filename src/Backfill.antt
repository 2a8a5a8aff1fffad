-- ===== src/Backfill.antt =====
-- scripts/backfill-legacy-window.py: the backup, the import and the exit of `main`. SQLite's backup is
-- taken to copy the file; whether the copy passes the integrity check is a parameter.
use mathlib.Core.Path.{subst}
use ha_skywatch.Prelude.{
  ℕ, Bool, true, false, Option, none, some, List, [], ◌∷◌, Text, text_eq, text_eq_iff, ◌≡◌, ◌⊎◌,
  inl, inr, refl, sym, ap, ◌∙◌, arith, if◌then◌else◌,
}
use ha_skywatch.Python.{Platform}
use ha_skywatch.Python.Result.{
  Error, Result, ok, err, legacy_import, operational, programming, integrity, overflow, value_error,
  key_error, not_ready, home_assistant,
}
use ha_skywatch.LegacyImport.{LegacyFile, Target}
use ha_skywatch.LegacyImport.Window.{Strftime, default_dedupe_tolerance_seconds}
use ha_skywatch.LegacyImport.Session.{Session, Moment}
use ha_skywatch.LegacyImport.Import.{Summary, import_legacy_window}
use ha_skywatch.Services.{bound_of, open_session}

-- The arguments that `main` uses, after argparse; the tolerance is not negative.
pub record Args : Type 0 where
  pub since : Option Text
  pub until : Option Text
  pub tolerance_seconds : Option ℕ
  pub backup : Option Text
  pub dry_run : Bool

-- The target database, and the other files by their paths.
pub record Disk : Type 0 where
  pub target : Target
  pub files : List (Text × Target)

-- How the script ends: it prints the summary and returns 0, prints what the import refused and
-- returns 2, leaves by `sys.exit` with a text, or raises.
pub data Ending : Type 0 where
  printed : Summary → Ending
  refused stopped : Ending
  raised : Error → Ending

unfoldable pub file_at : Text → List (Text × Target) → Option Target
file_at path [] = none
file_at path ((key, d) ∷ files) =
    let rest = file_at path files in if text_eq key path then some d else rest

-- `_online_backup`, given the file at its destination, and whether it returned.
abbrev backup_to : Bool → Text → Disk → Option Target → Bool × Disk
backup_to intact dest disk (some d) = (false, disk)
backup_to intact dest disk none = (intact, record disk { files = (dest, disk.target) ∷ disk.files })

unfoldable pub online_backup : Bool → Text → Disk → Bool × Disk
unfolding file_at
online_backup intact dest disk = backup_to intact dest disk (file_at dest disk.files)

-- `if args.backup and not args.dry_run`
unfoldable pub backup_first : Bool → Disk → Option Text → Bool → Bool × Disk
unfolding online_backup
backup_first intact disk none dry_run = (true, disk)
backup_first intact disk (some dest) true = (true, disk)
backup_first intact disk (some dest) false = online_backup intact dest disk

abbrev tolerance_of : Option ℕ → ℕ
tolerance_of none = default_dedupe_tolerance_seconds
tolerance_of (some n) = n

abbrev finish : Disk → Result Summary × Session → Ending × Disk
finish disk (ok summary, s) = (printed summary, record disk { target = s.committed })
finish disk (err legacy_import, s) = (refused, record disk { target = s.committed })
finish disk (err e, s) = (raised e, record disk { target = s.committed })

module _ (p : Platform) (f : Strftime) (legacy : Option LegacyFile) (intact : Bool) (args : Args)
    (moments : List Moment) where
  abbrev after_backup : Bool × Disk → Ending × Disk
  unfolding import_legacy_window
  after_backup (false, disk) = (stopped, disk)
  after_backup (true, disk) = finish disk (
      import_legacy_window p f legacy (bound_of args.since) (bound_of args.until)
        (tolerance_of args.tolerance_seconds) args.dry_run (open_session disk.target moments))

  unfoldable pub main : Disk → Ending × Disk
  unfolding backup_first after_backup
  main disk = after_backup (backup_first intact disk args.backup args.dry_run)

finish_files : (disk : Disk) (o : Result Summary × Session) → (finish disk o).1.files ≡ disk.files
finish_files disk (ok summary, s) = refl
finish_files disk (err legacy_import, s) = refl
finish_files disk (err operational, s) = refl
finish_files disk (err programming, s) = refl
finish_files disk (err integrity, s) = refl
finish_files disk (err overflow, s) = refl
finish_files disk (err value_error, s) = refl
finish_files disk (err key_error, s) = refl
finish_files disk (err not_ready, s) = refl
finish_files disk (err home_assistant, s) = refl

-- The script stopped and the target is d, or the file at dest is d.
abbrev pub IsBackedUp : Text → Target → Ending × Disk → Type 0
IsBackedUp dest d o = ((o.0 ≡ stopped) × (o.1.target ≡ d)) ⊎ (file_at dest o.1.files ≡ some d)

backup_to_keeps :
    (intact : Bool) (dest : Text) (disk : Disk) (there : Option Target)
    → ((backup_to intact dest disk there).1.target ≡ disk.target)
      × ((backup_to intact dest disk there).0 ≡ true
          → file_at dest (backup_to intact dest disk there).1.files ≡ some disk.target)
unfolding file_at
backup_to_keeps intact dest disk (some d) = (refl, λ h. cc)
backup_to_keeps intact dest disk none = (refl, λ h. ground (arith, text_eq_iff dest dest))

after_backup-IsBackedUp :
    (p : Platform) (f : Strftime) (legacy : Option LegacyFile) (intact : Bool) (args : Args)
    (moments : List Moment) (dest : Text) (d : Target) (o : Bool × Disk)
    → (o.1.target ≡ d) × (o.0 ≡ true → file_at dest o.1.files ≡ some d)
    → IsBackedUp dest d (after_backup p f legacy intact args moments o)
unfolding after_backup
after_backup-IsBackedUp p f legacy intact args moments dest d (false, disk) (same, h) =
    inl (refl, same)
after_backup-IsBackedUp p f legacy intact args moments dest d (true, disk) (same, h) =
    inr (ap (file_at dest) (finish_files disk _) ∙ h refl)

-- With a path for the backup and without a dry run, the script either stops with the target as it
-- was, or has left a copy of the target as it was before the import under that path, whatever the
-- import does.
pub main-IsBackedUp :
    (p : Platform) (f : Strftime) (legacy : Option LegacyFile) (intact : Bool) (args : Args)
    (moments : List Moment) (disk : Disk) (dest : Text)
    → args.backup ≡ some dest
    → args.dry_run ≡ false
    → IsBackedUp dest disk.target (main p f legacy intact args moments disk)
unfolding main backup_first online_backup
main-IsBackedUp p f legacy intact args moments disk dest wanted real =
    subst (λ o. IsBackedUp dest disk.target (after_backup p f legacy intact args moments o))
      (sym (
        ap (λ b. backup_first intact disk b args.dry_run) wanted
        ∙ ap (backup_first intact disk (some dest)) real))
      (after_backup-IsBackedUp p f legacy intact args moments dest disk.target
        (online_backup intact dest disk)
        (backup_to_keeps intact dest disk (file_at dest disk.files)))

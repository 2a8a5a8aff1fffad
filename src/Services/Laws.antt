-- ===== src/Services/Laws.antt =====
-- services.py: which coordinators a service reaches, and when the import leaves its mark.
use mathlib.Core.Path.{subst}
use ha_skywatch.Prelude.{
  false, Option, none, some, List, [], ◌∷◌, Text, text_eq, text_eq_iff, any, ◌≡◌, ◌≢◌, ◌⊎◌, inl,
  inr, refl, sym, ◌∙◌, arith, Bool-cases, if◌then◌else◌,
}
use ha_skywatch.Prelude.Int.{ℤ}
use ha_skywatch.Prelude.Unique.{IsUnique}
use ha_skywatch.Python.{Platform}
use ha_skywatch.Python.Result.{
  Error, Result, ok, err, legacy_import, operational, programming, integrity, overflow, value_error,
  key_error, not_ready, home_assistant,
}
use ha_skywatch.Coordinator.{World, async_set_page}
use ha_skywatch.LegacyImport.{LegacyFile}
use ha_skywatch.LegacyImport.Window.{Strftime, default_dedupe_tolerance_seconds}
use ha_skywatch.LegacyImport.Session.{Session, Moment}
use ha_skywatch.LegacyImport.Import.{Summary, import_legacy_window}
use ha_skywatch.Services.{
  Coordinators, get_coordinator, call_method, for_entries, handle_set_page, ImportCall, Files,
  source_path_of, bound_of, open_session, sentinel_text, after_import, handle_import_legacy,
}

abbrev pub apply_to : (World → World) → Option World → Option World
apply_to method none = none
apply_to method (some w) = some (method w)

get_coordinator-call_method :
    (method : World → World) (id entry_id : Text) (coordinators : Coordinators)
    → get_coordinator id (call_method method entry_id coordinators) ≡ (
        if text_eq entry_id id
        then apply_to method (get_coordinator id coordinators)
        else get_coordinator id coordinators)
unfolding get_coordinator call_method
get_coordinator-call_method method id entry_id [] = ground arith
get_coordinator-call_method method id entry_id ((key, w) ∷ coordinators) = ground (
  arith,
  text_eq_iff key entry_id,
  text_eq_iff key id,
  text_eq_iff entry_id id,
  get_coordinator-call_method method id entry_id coordinators,
)

any_swap :
    (e : Text) (entries : List Text) → any (text_eq e) entries ≡ any (λ x. text_eq x e) entries
any_swap e [] = refl
any_swap e (x ∷ entries) = ground (arith, text_eq_iff e x, text_eq_iff x e, any_swap e entries)

unreached :
    (method : World → World) (entries : List Text) (id : Text) (coordinators : Coordinators)
    → any (λ e. text_eq e id) entries ≡ false
    → get_coordinator id (for_entries method entries coordinators) ≡ get_coordinator id coordinators
unfolding for_entries
unreached method [] id coordinators h = refl
unreached method (e ∷ entries) id coordinators h = ground (
  arith,
  get_coordinator-call_method method id e coordinators,
  unreached method entries id (call_method method e coordinators) (ground (arith, h)),
)

reached :
    (method : World → World) (entries : List Text) (id : Text) (coordinators : Coordinators)
    → IsUnique text_eq entries
    → get_coordinator id (for_entries method entries coordinators) ≡ (
        if any (λ e. text_eq e id) entries
        then apply_to method (get_coordinator id coordinators)
        else get_coordinator id coordinators)
unfolding for_entries
reached method [] id coordinators h = refl
reached method (e ∷ entries) id coordinators (new, h) = elim (Bool-cases (text_eq e id)) [
  | inr other ↦ ground (
    arith,
    other,
    get_coordinator-call_method method id e coordinators,
    reached method entries id (call_method method e coordinators) h,
  )
  | inl same ↦
      let here : any (λ x. text_eq x id) entries ≡ false =
        subst (λ y. any (λ x. text_eq x y) entries ≡ false) ((text_eq_iff e id).0 same)
          (sym (any_swap e entries) ∙ new) in
      unreached method entries id (call_method method e coordinators) here
      ∙ ground (arith, same, get_coordinator-call_method method id e coordinators)
]

-- With entries that are listed once each, the set_page service sets the page of the coordinator of
-- each entry listed, if it has one, and no other coordinator is touched.
pub get_coordinator-handle_set_page :
    (page : ℤ) (entries : List Text) (id : Text) (coordinators : Coordinators)
    → IsUnique text_eq entries
    → get_coordinator id (handle_set_page page entries coordinators) ≡ (
        if any (λ e. text_eq e id) entries
        then apply_to (async_set_page page) (get_coordinator id coordinators)
        else get_coordinator id coordinators)
unfolding handle_set_page
get_coordinator-handle_set_page page entries id coordinators h =
    reached (async_set_page page) entries id coordinators h

module _ (p : Platform) (f : Strftime) (file_at : Text → Option LegacyFile) where
  -- The outcome of the import below the handler.
  abbrev pub imported : ImportCall → List Moment → Files → Result Summary × Session
  imported call moments files =
      import_legacy_window p f (file_at (source_path_of call.source_path)) (bound_of call.since)
        (bound_of call.until) default_dedupe_tolerance_seconds false
        (open_session files.target moments)

  -- The handler returned and the import did, and the mark names the file; or it raised, no
  -- LegacyImportError, and the mark is as it was.
  abbrev pub Marks : Text → Files → Result Summary × Session → Result (Unit {0}) × Files → Type 0
  Marks path files i o =
      ((s : Summary) × (i.0 ≡ ok s) × (o.0 ≡ ok tt) × (o.1.sentinel ≡ some (sentinel_text path)))
      ⊎ ((e : Error) × (o.0 ≡ err e) × (e ≢ legacy_import) × (o.1.sentinel ≡ files.sentinel))

  after_import-Marks :
      (path : Text) (files : Files) (i : Result Summary × Session)
      → Marks path files i (after_import path files i)
  unfolding after_import
  after_import-Marks path files (ok s, t) = inl (s, refl, refl, refl)
  after_import-Marks path files (err legacy_import, t) = inr (home_assistant, refl, (λ h. cc), refl)
  after_import-Marks path files (err operational, t) = inr (operational, refl, (λ h. cc), refl)
  after_import-Marks path files (err programming, t) = inr (programming, refl, (λ h. cc), refl)
  after_import-Marks path files (err integrity, t) = inr (integrity, refl, (λ h. cc), refl)
  after_import-Marks path files (err overflow, t) = inr (overflow, refl, (λ h. cc), refl)
  after_import-Marks path files (err value_error, t) = inr (value_error, refl, (λ h. cc), refl)
  after_import-Marks path files (err key_error, t) = inr (key_error, refl, (λ h. cc), refl)
  after_import-Marks path files (err not_ready, t) = inr (not_ready, refl, (λ h. cc), refl)
  after_import-Marks path files (err home_assistant, t) =
      inr (home_assistant, refl, (λ h. cc), refl)

  pub handle_import_legacy-Marks :
      (call : ImportCall) (entries : List Text) (moments : List Moment) (files : Files)
      → Marks
          (source_path_of call.source_path)
          files
          (imported call moments files)
          (handle_import_legacy p f file_at call entries moments files)
  unfolding handle_import_legacy
  handle_import_legacy-Marks call [] moments files = inr (home_assistant, refl, (λ h. cc), refl)
  handle_import_legacy-Marks call (entry ∷ entries) moments files =
      after_import-Marks (source_path_of call.source_path) files (imported call moments files)

-- ===== src/Setup/Laws.antt =====
-- __init__.py: unloading after setting up, a setup that raises.
use mathlib.Core.Path.{subst}
use ha_skywatch.Prelude.{
  Bool, true, false, Option, none, some, List, [], ◌∷◌, Text, text_eq_iff, ◌≡◌, refl, sym, ap, ◌∙◌,
  arith, ◌⊎◌, inl, inr, length, ◌==◌, if◌then◌else◌, Bool-cases,
}
use ha_skywatch.Python.{Zone}
use ha_skywatch.Python.Result.{Error, Result, ok, err, Exec, pure, ◌>>=◌, ◌>>◌, continue}
use ha_skywatch.Storage.Connection.{Conn}
use ha_skywatch.Classify.{WatchItem, from_dict}
use ha_skywatch.Coordinator.{World, async_unload, add_listeners}
use ha_skywatch.Coordinator.Setup.{Surroundings, async_setup}
use ha_skywatch.Services.{Coordinators, get_coordinator}
use ha_skywatch.Setup.{
  Options, Settings, merged, settings, Hass, put_coordinator, pop_coordinator, keep_coordinator,
  register_if_first, async_setup_entry, Answers, set_up, watch_entries, tz_name, zone_of,
  read_settings, settings_of, or_default, drop_coordinator, async_unload_entry,
}

get_coordinator-put_coordinator :
    (entry_id : Text) (w : World) (coordinators : Coordinators)
    → get_coordinator entry_id (put_coordinator entry_id w coordinators) ≡ some w
unfolding get_coordinator put_coordinator
get_coordinator-put_coordinator entry_id w [] = ground (arith, text_eq_iff entry_id entry_id)
get_coordinator-put_coordinator entry_id w ((key, v) ∷ coordinators) =
    ground
      (arith, text_eq_iff key entry_id, get_coordinator-put_coordinator entry_id w coordinators)

pop_coordinator-put_coordinator :
    (entry_id : Text) (w : World) (coordinators : Coordinators)
    → get_coordinator entry_id coordinators ≡ none
    → pop_coordinator entry_id (put_coordinator entry_id w coordinators) ≡ coordinators
unfolding get_coordinator put_coordinator pop_coordinator
pop_coordinator-put_coordinator entry_id w [] h = ground (arith, text_eq_iff entry_id entry_id)
pop_coordinator-put_coordinator entry_id w ((key, v) ∷ coordinators) h =
    ground
      (arith, h, text_eq_iff key entry_id, pop_coordinator-put_coordinator entry_id w coordinators)

module _ {S A B : Type 0} where
  -- What does not change the state.
  continue-IsReading :
      (r : Result A) (f : A → Exec S B) (s : S) → ((a : A) → (f a s).1 ≡ s) → (continue r f s).1 ≡ s
  continue-IsReading (ok a) f s h = h a
  continue-IsReading (err e) f s h = refl

watch_entries_state :
    {S : Type 0} → (items : List WatchItem) (s : S) → (watch_entries items s).1 ≡ s
unfolding watch_entries
watch_entries_state [] s = refl
watch_entries_state (item ∷ items) s =
    continue-IsReading (from_dict item)
      (λ entry. watch_entries items >>= (λ entries. pure (entry ∷ entries))) s
      (λ entry.
        continue-IsReading (watch_entries items s).0 (λ entries. pure (entry ∷ entries))
          (watch_entries items s).1 (λ entries. refl)
        ∙ watch_entries_state items s)

zone_of_state : {S : Type 0} → (zone : Option Zone) (s : S) → (zone_of zone s).1 ≡ s
zone_of_state none s = refl
zone_of_state (some zone) s = refl

pub settings_state :
    {S : Type 0}
    → (zone_info : Text → Option Zone) (time_zone : Option Text) (cfg : Options) (s : S)
    → (settings zone_info time_zone cfg s).1 ≡ s
unfolding settings
settings_state zone_info time_zone cfg s =
    elim (zone_info (tz_name cfg.timezone time_zone)) as (λ z. (read_settings cfg z s).1 ≡ s) [
      | none ↦ refl
      | some tz ↦
          continue-IsReading (watch_entries (or_default [] cfg.watch_list) s).0
            (λ watch_list. pure (settings_of cfg tz watch_list))
            (watch_entries (or_default [] cfg.watch_list) s).1 (λ w. refl)
          ∙ watch_entries_state (or_default [] cfg.watch_list) s
    ]

abbrev IsKept : Hass → Hass → Type 0
IsKept hass hass' = (hass'.data' ≡ hass.data') × (hass'.services ≡ hass.services)

-- The setup of the coordinator worked, and it is in `hass.data`, with its connection open.
abbrev pub IsLeftBehind : Text → Result (Unit {0}) × World → Hass → Type 0
IsLeftBehind entry_id outcome hass =
    (outcome.0 ≡ ok tt)
    × (get_coordinator entry_id hass.data' ≡ some outcome.1)
    × (outcome.1.has_db ≡ true)
    × (outcome.1.store.closed ≡ false)

abbrev pub IsRaised : Text → Result (Unit {0}) × World → Hass → Hass → Type 0
IsRaised entry_id outcome hass hass' = IsKept hass hass' ⊎ IsLeftBehind entry_id outcome hass'

module _ (entry_id : Text) (entries : List Text) (hass : Hass) (e : Error) where
  -- The end of `set_up`, from what the platforms and the views answer.
  abbrev ending : Result (Unit {0}) → Result (Unit {0}) → Settings → Exec Hass Settings
  unfolding register_if_first
  ending forwarded views cfg =
      (λ h. (forwarded, h)) >> (register_if_first entries >> ((λ h. (views, h)) >> pure cfg))

  ending_keeps :
      (forwarded views : Result (Unit {0})) (cfg : Settings) (h : Hass)
      → (ending forwarded views cfg h).1.data' ≡ h.data'
  unfolding register_if_first ending
  ending_keeps (err x) views cfg h = refl
  ending_keeps (ok a) (err x) cfg h = refl
  ending_keeps (ok a) (ok b) cfg h = refl

  set_up-err :
      (answers : Answers) (outcome : Result (Unit {0}) × World) (r : Result Settings)
      → (outcome.0 ≡ ok tt → (outcome.1.has_db ≡ true) × (outcome.1.store.closed ≡ false))
      → (continue r (set_up answers entry_id entries outcome) hass).0 ≡ err e
      → IsRaised entry_id outcome hass (continue r (set_up answers entry_id entries outcome) hass).1
  unfolding keep_coordinator register_if_first
  set_up-err answers outcome (err x) running h = inl (refl, refl)
  set_up-err answers (err x, w) (ok cfg) running h = inl (refl, refl)
  set_up-err answers (ok a, w) (ok cfg) running h = inr (
    refl,
    ap (get_coordinator entry_id) (
          ending_keeps answers.forwarded (if length entries == 1 then answers.views else ok tt) cfg
            (record hass { data' = put_coordinator entry_id w hass.data' }))
        ∙ get_coordinator-put_coordinator entry_id w hass.data',
    (running refl).0,
    (running refl).1,
  )

-- A coordinator whose setup returned has its connection open.
running_after :
    (fr24_loaded refreshed : Bool) (opened : Result Conn) (w : World)
    → let o =
        async_setup
          (record { opened = opened; fr24_loaded = fr24_loaded; refreshed = refreshed })
          w in
      o.0 ≡ ok tt → (o.1.has_db ≡ true) × (o.1.store.closed ≡ false)
unfolding async_setup
running_after fr24_loaded refreshed (err e) w h = cc
running_after false refreshed (ok conn) w h = (refl, refl)
running_after true false (ok conn) w h = (unfold add_listeners in (refl, refl))
running_after true true (ok conn) w h = (unfold add_listeners in (refl, refl))

-- A setup that raises either leaves the coordinators of `hass.data` and the services as they were, or
-- the setup of the coordinator worked, and the coordinator stays in `hass.data` under the entry's id
-- with its connection open.
pub async_setup_entry-err :
    (zone_info : Text → Option Zone) (time_zone : Option Text) (entry_id : Text)
    (entries : List Text) (data' options : Options) (at : Surroundings) (answers : Answers)
    (coordinator : World) (hass : Hass) (e : Error)
    → let o : Result Settings × Hass =
        async_setup_entry zone_info time_zone entry_id entries data' options at answers coordinator
          hass in
      o.0 ≡ err e → IsRaised entry_id (async_setup at coordinator) hass o.1
unfolding async_setup_entry
async_setup_entry-err zone_info time_zone entry_id entries data' options at answers coordinator hass
      e h =
    let outcome = async_setup at coordinator in
    let read = settings zone_info time_zone (merged data' options) hass in
    subst
      (λ s.
        (continue read.0 (set_up answers entry_id entries outcome) s).0 ≡ err e
        → IsRaised entry_id outcome hass
            (continue read.0 (set_up answers entry_id entries outcome) s).1)
      (sym (settings_state zone_info time_zone (merged data' options) hass))
      (set_up-err entry_id entries hass e answers outcome read.0
        (running_after at.fr24_loaded at.refreshed at.opened coordinator))
      h

-- Home Assistant sets up the platforms and takes the views.
abbrev pub willing : Answers
willing = record { forwarded = ok tt; views = ok tt }

module _ (entry_id : Text) (entries : List Text) (w : World) (hass : Hass) (cfg : Settings) where
  -- The entry is loaded with the coordinator w, and unloading it brings the coordinators back.
  unfoldable pub IsUndone : Result Settings × Hass → Type 0
  unfolding async_unload_entry
  IsUndone loaded =
      (loaded.0 ≡ ok cfg)
      × (get_coordinator entry_id loaded.1.data' ≡ some w)
      × ((async_unload_entry entry_id entries true loaded.1).0 ≡ ok true)
      × ((async_unload_entry entry_id entries true loaded.1).1.data' ≡ hass.data')
      × ((async_unload_entry entry_id entries true loaded.1).1.apart ≡ async_unload w ∷ hass.apart)

  -- The state in which the setup ends.
  unfoldable pub loaded_hass : Hass
  unfolding register_if_first put_coordinator
  loaded_hass =
      (register_if_first entries (record hass { data' = put_coordinator entry_id w hass.data' })).1

  pub set_up_lem : set_up willing entry_id entries (ok tt, w) cfg hass ≡ (ok cfg, loaded_hass)
  unfolding keep_coordinator register_if_first loaded_hass
  set_up_lem = elim (Bool-cases (length entries == 1)) [ inl e ↦ rw e refl | inr e ↦ rw e refl ]

  loaded-IsUndone : get_coordinator entry_id hass.data' ≡ none → IsUndone (ok cfg, loaded_hass)
  unfolding register_if_first drop_coordinator IsUndone loaded_hass
  loaded-IsUndone new =
      let found = get_coordinator-put_coordinator entry_id w hass.data' in
      let dropped = ap (λ o. drop_coordinator entry_id entries o loaded_hass) found in
      (
        refl,
        found,
        ap (λ o. o.0) dropped,
        ap (λ o. o.1.data') dropped ∙ pop_coordinator-put_coordinator entry_id w hass.data' new,
        ap (λ o. o.1.apart) dropped,
      )

  set_up-IsUndone :
      get_coordinator entry_id hass.data' ≡ none
      → IsUndone (set_up willing entry_id entries (ok tt, w) cfg hass)
  set_up-IsUndone new = subst IsUndone (sym set_up_lem) (loaded-IsUndone new)

-- Setting up an entry that is not loaded, where its settings are read, the database opens,
-- Flightradar24 is loaded and the first refresh, the platforms and the views work, loads the coordinator; unloading the entry
-- then gives back the coordinators of `hass.data` as they were, and leaves the unloaded one apart.
pub async_unload_entry-async_setup_entry :
    (zone_info : Text → Option Zone) (time_zone : Option Text) (entry_id : Text)
    (entries : List Text) (data' options : Options) (conn : Conn) (coordinator : World)
    (hass : Hass) (cfg : Settings)
    → let at : Surroundings = record { opened = ok conn; fr24_loaded = true; refreshed = true } in
      get_coordinator entry_id hass.data' ≡ none
      → (settings zone_info time_zone (merged data' options) hass).0 ≡ ok cfg
      → IsUndone entry_id entries (async_setup at coordinator).1 hass cfg (
          async_setup_entry zone_info time_zone entry_id entries data' options at willing
            coordinator hass)
unfolding async_setup_entry async_setup
async_unload_entry-async_setup_entry zone_info time_zone entry_id entries data' options conn
      coordinator hass cfg new read =
    let at : Surroundings = record { opened = ok conn; fr24_loaded = true; refreshed = true } in
    let w = (async_setup at coordinator).1 in
    subst
      (λ s. IsUndone entry_id entries w hass cfg (
        continue (settings zone_info time_zone (merged data' options) hass).0
          (set_up willing entry_id entries (ok tt, w)) s))
      (sym (settings_state zone_info time_zone (merged data' options) hass))
      (subst
        (λ r.
          IsUndone entry_id entries w hass cfg
            (continue r (set_up willing entry_id entries (ok tt, w)) hass))
        (sym read) (set_up-IsUndone entry_id entries w hass cfg new))

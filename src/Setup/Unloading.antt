-- ===== src/Setup/Unloading.antt =====
-- __init__.py: the services at the unloading of an entry.
use mathlib.Core.Path.{subst}
use ha_skywatch.Prelude.{
  Bool, true, false, Option, none, some, List, [], ◌∷◌, ◌++◌, ◌||◌, All, Text, codes, text_eq, any,
  ◌≡◌, refl, sym, arith, if◌then◌else◌, text_eq_refl,
}
use ha_skywatch.Python.{Zone}
use ha_skywatch.Python.Result.{Result, ok, continue}
use ha_skywatch.Storage.Connection.{Conn}
use ha_skywatch.Coordinator.{World}
use ha_skywatch.Coordinator.Setup.{Surroundings, async_setup}
use ha_skywatch.Services.{get_coordinator}
use ha_skywatch.Setup.{
  Options, Settings, merged, settings, Hass, async_setup_entry, set_up, drop_coordinator,
  async_unload_entry, register_services, service_names, register_if_first,
}
use ha_skywatch.Setup.Laws.{set_up_lem, settings_state, loaded_hass, willing}

any-append :
    (name : Text) (xs ys : List Text)
    → any (text_eq name) (xs ++ ys) ≡ any (text_eq name) xs || any (text_eq name) ys
any-append name [] ys = refl
any-append name (x ∷ xs) ys = ground (arith, any-append name xs ys)

any-register :
    (name : Text) (names services : List Text)
    → any (text_eq name) services ≡ true
    → any (text_eq name) (register_services names services) ≡ true
unfolding register_services
any-register name [] services h = h
any-register name (x ∷ names) services h =
    any-register name names _ (ground (arith, h, any-append name services (x ∷ [])))

-- Each name has its service.
abbrev pub IsRegistered : List Text → List Text → Type 0
IsRegistered names services = All (λ name. any (text_eq name) services ≡ true) names

register-IsRegistered :
    (names services : List Text) → IsRegistered names (register_services names services)
unfolding register_services
register-IsRegistered [] services = tt
register-IsRegistered (x ∷ names) services =
    let more = if any (text_eq x) services then services else services ++ (x ∷ []) in
    (
      any-register x names more (ground (arith, any-append x services (x ∷ []), text_eq_refl x)),
      register-IsRegistered names more,
    )

-- Unloading an entry that Home Assistant still lists does not touch the services.
async_unload_entry-services :
    (entry_id : Text) (entries : List Text) (unload_ok : Bool) (hass : Hass)
    → any (text_eq entry_id) entries ≡ true
    → (async_unload_entry entry_id entries unload_ok hass).1.services ≡ hass.services
unfolding async_unload_entry drop_coordinator
async_unload_entry-services entry_id entries false hass h = refl
async_unload_entry-services entry_id [] true hass h = cc
async_unload_entry-services entry_id (e ∷ entries) true hass h =
    elim (get_coordinator entry_id hass.data')
      as (λ w. (drop_coordinator entry_id (e ∷ entries) w hass).1.services ≡ hass.services) [
        | none ↦ refl
        | some w ↦ ground arith
      ]

-- All services are registered after the entry, the only one, is unloaded.
abbrev pub IsLeft : Text → Bool → Hass → Type 0
IsLeft entry_id unload_ok loaded =
    IsRegistered (codes "import_legacy_db" ∷ codes "set_page" ∷ codes "set_search_term" ∷ [])
      (async_unload_entry entry_id (entry_id ∷ []) unload_ok loaded).1.services

loaded-IsLeft :
    (entry_id : Text) (w : World) (hass : Hass) (cfg : Settings) (unload_ok : Bool)
    → IsLeft entry_id unload_ok (loaded_hass entry_id (entry_id ∷ []) w hass cfg)
unfolding register_if_first loaded_hass
loaded-IsLeft entry_id w hass cfg unload_ok =
    subst (IsRegistered service_names)
      (sym (
        async_unload_entry-services entry_id (entry_id ∷ []) unload_ok
          (loaded_hass entry_id (entry_id ∷ []) w hass cfg)
          (ground (arith, text_eq_refl entry_id))))
      (register-IsRegistered service_names hass.services)

-- Setting up the only entry, where nothing fails, registers the three services of Skywatch, and
-- unloading it while Home Assistant still lists it, whether the platforms unload or not, leaves all
-- three registered.
pub async_unload_entry-keeps :
    (zone_info : Text → Option Zone) (time_zone : Option Text) (entry_id : Text)
    (data' options : Options) (conn : Conn) (coordinator : World) (hass : Hass) (cfg : Settings)
    (unload_ok : Bool)
    → let at : Surroundings = record { opened = ok conn; fr24_loaded = true; refreshed = true } in
      (settings zone_info time_zone (merged data' options) hass).0 ≡ ok cfg
      → IsLeft entry_id unload_ok
          (async_setup_entry zone_info time_zone entry_id
            (entry_id ∷ [])
            data'
            options
            at
            willing
            coordinator
            hass).1
unfolding async_setup_entry async_setup
async_unload_entry-keeps zone_info time_zone entry_id data' options conn coordinator hass cfg
      unload_ok read =
    let at : Surroundings = record { opened = ok conn; fr24_loaded = true; refreshed = true } in
    let w = (async_setup at coordinator).1 in
    let entries = entry_id ∷ [] in
    subst
      (λ s.
        IsLeft entry_id unload_ok
          (continue (settings zone_info time_zone (merged data' options) hass).0
            (set_up willing entry_id entries (ok tt, w)) s).1)
      (sym (settings_state zone_info time_zone (merged data' options) hass))
      (subst
        (λ r.
          IsLeft entry_id unload_ok
            (continue r (set_up willing entry_id entries (ok tt, w)) hass).1)
        (sym read)
        (subst (λ (o : Result Settings × Hass). IsLeft entry_id unload_ok o.1)
          (sym (set_up_lem entry_id entries w hass cfg))
          (loaded-IsLeft entry_id w hass cfg unload_ok)))

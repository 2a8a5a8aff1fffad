-- ===== src/Backends/Fr24/Bus.antt =====
-- backends/fr24.py: the subscription to the events of the bus, and what the source reads of the live
-- sensor.
use ha_skywatch.Prelude.{
  Bool, true, false, Option, none, some, List, [], ◌∷◌, Text, codes, any, ◌≡◌, refl,
}
use ha_skywatch.Python.Result.{ok, err, not_ready, Exec}
use ha_skywatch.Backends.Base.{register, unsub, unsub-register}

-- The handlers of the source.
pub data Handler : Type 0 where
  entry_handler exit_handler landed_handler took_off_handler : Handler

unfoldable pub same_handler : Handler → Handler → Bool
same_handler entry_handler entry_handler = true
same_handler exit_handler exit_handler = true
same_handler landed_handler landed_handler = true
same_handler took_off_handler took_off_handler = true
same_handler _ _ = false

-- The listeners of the bus for the four kinds of event.
pub record Bus : Type 0 where
  pub flightradar24_entry : List Handler
  pub flightradar24_exit : List Handler
  pub flightradar24_area_landed : List Handler
  pub flightradar24_area_took_off : List Handler

-- `async_setup`, given whether Flightradar24 has entries.
unfoldable pub listen_to_bus : Bool → Exec Bus (Unit {0})
unfolding register
listen_to_bus false bus = (err not_ready, bus)
listen_to_bus true bus = (
  ok tt,
  record {
    flightradar24_entry = register bus.flightradar24_entry entry_handler;
    flightradar24_exit = register bus.flightradar24_exit exit_handler;
    flightradar24_area_landed = register bus.flightradar24_area_landed landed_handler;
    flightradar24_area_took_off = register bus.flightradar24_area_took_off took_off_handler;
  },
)

-- `async_teardown`, after a setup that returned.
unfoldable pub async_teardown : Bus → Bus
unfolding unsub same_handler
async_teardown bus = record {
  flightradar24_entry = unsub same_handler bus.flightradar24_entry entry_handler;
  flightradar24_exit = unsub same_handler bus.flightradar24_exit exit_handler;
  flightradar24_area_landed = unsub same_handler bus.flightradar24_area_landed landed_handler;
  flightradar24_area_took_off = unsub same_handler bus.flightradar24_area_took_off took_off_handler;
}

-- The attribute `flights` of the live sensor: a list, or missing or something else.
pub data FlightsAttribute (F : Type 0) : Type 0 where
  listed : List F → FlightsAttribute F
  other : FlightsAttribute F

-- `current_flights`, given the state of the live sensor.
unfoldable pub current_flights : {F : Type 0} → Option (FlightsAttribute F) → List F
current_flights none = []
current_flights (some other) = []
current_flights (some (listed flights)) = flights

unfoldable pub watched_entities : List Text
watched_entities = codes "sensor.flightradar24_current_in_area" ∷ []

-- No handler of the source listens to the bus.
pub record IsUnheard (bus : Bus) : Type 0 where
  pub no_entry : any (λ h. same_handler h entry_handler) bus.flightradar24_entry ≡ false
  pub no_exit : any (λ h. same_handler h exit_handler) bus.flightradar24_exit ≡ false
  pub no_landed : any (λ h. same_handler h landed_handler) bus.flightradar24_area_landed ≡ false
  pub no_took_off :
      any (λ h. same_handler h took_off_handler) bus.flightradar24_area_took_off ≡ false

-- On a bus on which no handler of the source listens, the teardown takes out what the setup, with
-- Flightradar24 loaded, has put in.
pub async_teardown-listen_to_bus :
    (bus : Bus) → IsUnheard bus → async_teardown (listen_to_bus true bus).1 ≡ bus
unfolding async_teardown listen_to_bus same_handler
async_teardown-listen_to_bus bus h = rw (
  unsub-register same_handler bus.flightradar24_entry entry_handler refl h.no_entry,
  unsub-register same_handler bus.flightradar24_exit exit_handler refl h.no_exit,
  unsub-register same_handler bus.flightradar24_area_landed landed_handler refl h.no_landed,
  unsub-register same_handler bus.flightradar24_area_took_off took_off_handler refl h.no_took_off,
)

-- ===== src/Coordinator/Handling.antt =====
-- coordinator.py: the handling of an event of the provider, callback by callback.
use ha_skywatch.Prelude.{Option, none, some, List, Text, codes}
use ha_skywatch.Python.{Platform}
use ha_skywatch.Python.Result.{Result, ok, err, Exec}
use ha_skywatch.Time.{Instant}
use ha_skywatch.Models.{Entry, Sighting, Movement, landed, took_off}
use ha_skywatch.Backends.Base.{emit_keeps}
use ha_skywatch.Backends.Fr24.{
  payload_to_entry, payload_to_sighting, payload_to_movement, handle_entry, handle_exit, emit_if,
  emit_result, id_of, handle_landed, handle_took_off,
}
use ha_skywatch.Coordinator.{
  World, Config, persist_entry, persist_exit, persist_movement, Listener, on_entry, on_exit,
  on_landing, on_takeoff, calls, fire_and_create, entry_event, exit_event, movement_event,
}
use ha_skywatch.Coordinator.Run.{ProviderEvent, entered, left, arrived, departed, provider_event}

-- What holds after an event is fired with its task, whichever of the four kinds, if it did before.
pub record IsKept (cfg : Config) (P : World → Type 0) : Type 0 where
  pub by_entry :
      (e : Entry) (w : World)
      → P w
      → P (fire_and_create cfg (entry_event cfg e) (persist_entry e) w).1
  pub by_exit :
      (flight_id : Option Text) (s : Sighting) (w : World)
      → P w
      → P (fire_and_create cfg (exit_event cfg flight_id s) (persist_exit flight_id s) w).1
  pub by_landing :
      (m : Movement) (w : World)
      → P w
      → P (fire_and_create cfg (movement_event cfg (codes "landed") m) (persist_movement m) w).1
  pub by_takeoff :
      (m : Movement) (w : World)
      → P w
      → P (fire_and_create cfg (movement_event cfg (codes "took_off") m) (persist_movement m) w).1

module _ (cfg : Config) (P : World → Type 0) (kept : IsKept cfg P) (w : World) (at : P w) where
  if_keeps :
      {A : Type 0} (o : Option A) (call : A → Listener → Exec World (Unit {0}))
      (listeners : List Listener)
      → ((a : A) (cb : Listener) (s : World) → P s → P (call a cb s).1)
      → P (emit_if o call listeners w).1
  if_keeps none call listeners h = at
  if_keeps (some a) call listeners h = emit_keeps (call a) P listeners w (h a) at

  result_keeps :
      {A : Type 0} (r : Result (Option A)) (call : A → Listener → Exec World (Unit {0}))
      (listeners : List Listener)
      → ((a : A) (cb : Listener) (s : World) → P s → P (call a cb s).1)
      → P (emit_result r call listeners w).1
  result_keeps (err e) call listeners h = at
  result_keeps (ok o) call listeners h = if_keeps o call listeners h

  movement_keeps :
      (m : Movement) (cb : Listener) (s : World) → P s → P ((calls cfg).call_movement m cb s).1
  unfolding calls
  movement_keeps m on_landing s k = kept.by_landing m s k
  movement_keeps m on_entry s k = kept.by_takeoff m s k
  movement_keeps m on_exit s k = kept.by_takeoff m s k
  movement_keeps m on_takeoff s k = kept.by_takeoff m s k

  pub provider_event_keeps :
      (p : Platform) (now : Instant) (ev : ProviderEvent) → P (provider_event p cfg now ev w).1
  unfolding provider_event handle_entry handle_exit handle_landed handle_took_off calls
  provider_event_keeps p now (entered payload) =
      if_keeps (payload_to_entry now payload) _ _ (λ e cb s k. kept.by_entry e s k)
  provider_event_keeps p now (left payload) =
      result_keeps (payload_to_sighting p now payload) _ _
        (λ e cb s k. kept.by_exit (id_of payload) e s k)
  provider_event_keeps p now (arrived payload) =
      if_keeps (payload_to_movement now landed payload) (calls cfg).call_movement _ movement_keeps
  provider_event_keeps p now (departed payload) =
      if_keeps (payload_to_movement now took_off payload) (calls cfg).call_movement _ movement_keeps

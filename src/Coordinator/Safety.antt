-- ===== src/Coordinator/Safety.antt =====
-- coordinator.py: the connection object through events, tasks, jobs and unloading.
use mathlib.Core.Path.{subst}
use ha_skywatch.Prelude.{
  true, List, [], ◌∷◌, ◌≡◌, refl, sym, ap, ◌∙◌, arith, Bool-cases, inl, inr, if_either,
}
use ha_skywatch.Python.{Platform}
use ha_skywatch.Python.Result.{Result, ok, err, Exec}
use ha_skywatch.Time.{Instant}
use ha_skywatch.Storage.Connection.{SerializedConnection, IsIdle, run, close}
use ha_skywatch.Storage.Repository.{
  Sample, record_entry, record_exit, record_movement, record_positions,
}
use ha_skywatch.Storage.Repository.Invariant.{IsValid}
use ha_skywatch.Storage.History.{Job, entry, exit, movement, positions, do_job, do_job-IsSound}
use ha_skywatch.Coordinator.{
  World, Config, Task, persist_entry, persist_exit, persist_movement, Queued, write_entry,
  write_exit, write_movement, write_positions, close_db, Flight, async_db, async_set_page,
  async_set_search_term, async_unload, start_task, fire_and_create,
}
use ha_skywatch.Coordinator.Run.{ProviderEvent, refresh_if, execute, provider_event}
use ha_skywatch.Coordinator.Capture.{queue_rows, capture_positions}
use ha_skywatch.Coordinator.Steps.{
  Step, event, start, finish, capture, set_page, set_search, unload, Steps, done, more,
}
use ha_skywatch.Coordinator.Handling.{provider_event_keeps}

-- No transaction is open, and the committed tables keep their keys.
pub record IsSafe (s : SerializedConnection) : Type 0 where
  pub idle : IsIdle s.conn
  pub valid : IsValid s.conn.committed

module _ (p : Platform) where
  run_closed :
      {A : Type 0} (m : Exec _ A) (s : SerializedConnection) → s.closed ≡ true → (run m s).1 ≡ s
  unfolding run
  run_closed m s h = ground arith

  do_job_closed : (job : Job) (s : SerializedConnection) → s.closed ≡ true → do_job p job s ≡ s
  unfolding do_job
  do_job_closed (entry now e) s h = run_closed (record_entry p now e) s h
  do_job_closed (exit flight_id sighting) s h = run_closed (record_exit p flight_id sighting) s h
  do_job_closed (movement m) s h = run_closed (record_movement p m) s h
  do_job_closed (positions now rows) s h = run_closed (record_positions p now rows) s h

  do_job-IsSafe : (job : Job) (s : SerializedConnection) → IsSafe s → IsSafe (do_job p job s)
  do_job-IsSafe job s h = elim (Bool-cases s.closed) [
    | inl closed ↦ subst IsSafe (sym (do_job_closed job s closed)) h
    | inr still_open ↦
        let sound =
          do_job-IsSound p job s
            (record { still_open = still_open; idle = h.idle; valid = h.valid }) in
        record { idle = sound.idle; valid = sound.valid }
  ]

  store_refresh_if : {A : Type 0} (r : Result A) (w : World) → (refresh_if r w).store ≡ w.store
  store_refresh_if (ok a) w = refl
  store_refresh_if (err e) w = refl

  close_closed : (s : SerializedConnection) → s.closed ≡ true → close s ≡ s
  unfolding close
  close_closed s h = ground arith

  close-IsSafe : (s : SerializedConnection) → IsSafe s → IsSafe (close s)
  unfolding close
  close-IsSafe s h = if_either IsSafe s.closed _ _ h (record { idle = h.idle; valid = h.valid })

  -- What a job of the executor does to the connection object.
  abbrev pub after_job : Instant → Queued → SerializedConnection → SerializedConnection
  after_job now (write_entry e) s = do_job p (entry now e) s
  after_job now (write_exit flight_id sighting) s = do_job p (exit flight_id sighting) s
  after_job now (write_movement m) s = do_job p (movement m) s
  after_job now (write_positions rows) s = do_job p (positions now rows) s
  after_job now close_db s = close s

  pub store-execute :
      (now : Instant) (job : Queued) (w : World)
      → (execute p now job w).store ≡ after_job now job w.store
  unfolding execute do_job
  store-execute now (write_entry e) w = refl
  store-execute now (write_exit flight_id sighting) w =
      store_refresh_if (run (record_exit p flight_id sighting) w.store).0 _
  store-execute now (write_movement m) w = store_refresh_if (run (record_movement p m) w.store).0 _
  store-execute now (write_positions rows) w = refl
  store-execute now close_db w = refl

  after_job-IsSafe :
      (now : Instant) (job : Queued) (s : SerializedConnection)
      → IsSafe s
      → IsSafe (after_job now job s)
  after_job-IsSafe now (write_entry e) s h = do_job-IsSafe _ s h
  after_job-IsSafe now (write_exit flight_id sighting) s h = do_job-IsSafe _ s h
  after_job-IsSafe now (write_movement m) s h = do_job-IsSafe _ s h
  after_job-IsSafe now (write_positions rows) s h = do_job-IsSafe _ s h
  after_job-IsSafe now close_db s h = close-IsSafe s h

  after_job_closed :
      (now : Instant) (job : Queued) (s : SerializedConnection)
      → s.closed ≡ true
      → after_job now job s ≡ s
  after_job_closed now (write_entry e) s h = do_job_closed _ s h
  after_job_closed now (write_exit flight_id sighting) s h = do_job_closed _ s h
  after_job_closed now (write_movement m) s h = do_job_closed _ s h
  after_job_closed now (write_positions rows) s h = do_job_closed _ s h
  after_job_closed now close_db s h = close_closed s h

store-async_db : (job : Queued) (w : World) → (async_db job w).store ≡ w.store
unfolding async_db
store-async_db job w = if_either (λ (t : World). t.store ≡ w.store) w.has_db _ _ refl refl

pub store-start_task : (task : Task) (w : World) → (start_task task w).store ≡ w.store
unfolding start_task
store-start_task (persist_entry e) w = store-async_db _ w
store-start_task (persist_exit flight_id s) w = store-async_db _ w
store-start_task (persist_movement m) w = store-async_db _ w

module _ (p : Platform) where
  store-queue_rows : (r : Result (List Sample)) (w : World) → (queue_rows p r w).store ≡ w.store
  store-queue_rows (err e) w = refl
  store-queue_rows (ok []) w = refl
  store-queue_rows (ok (s ∷ rows)) w = store-async_db _ w

  pub store-capture_positions :
      (now : Instant) (flights : List Flight) (w : World)
      → (capture_positions p now flights w).store ≡ w.store
  unfolding capture_positions
  store-capture_positions now flights w =
      if_either (λ (t : World). t.store ≡ w.store) w.has_db _ _ (store-queue_rows _ w) refl

module _ (p : Platform) (cfg : Config) where
  store-provider_event :
      (now : Instant) (ev : ProviderEvent) (w : World)
      → (provider_event p cfg now ev w).1.store ≡ w.store
  store-provider_event now ev w =
      provider_event_keeps cfg (λ t. t.store ≡ w.store)
        (record {
          by_entry = λ e t h. unfold fire_and_create in h;
          by_exit = λ flight_id s t h. unfold fire_and_create in h;
          by_landing = λ m t h. unfold fire_and_create in h;
          by_takeoff = λ m t h. unfold fire_and_create in h;
        })
        w refl p now ev

  -- A step leaves the connection object as it is, or is a job's.
  step_store :
      (P : SerializedConnection → Type 0)
      → ((now : Instant) (job : Queued) (s : SerializedConnection)
          → P s
          → P (after_job p now job s))
      → (v w : World) → Step p cfg v w
      → P v.store
      → P w.store
  unfolding async_set_page async_set_search_term async_unload
  step_store P h v _ (event now ev _) at = subst P (sym (store-provider_event now ev v)) at
  step_store P h v _ (start before after task _ e) at = subst P (sym (store-start_task task _)) at
  step_store P h v _ (finish now before after job _ e) at =
      subst P (sym (store-execute p now job _)) (h now job v.store at)
  step_store P h v _ (capture now flights _) at =
      subst P (sym (store-capture_positions p now flights v)) at
  step_store P h v _ (set_page page _) at = at
  step_store P h v _ (set_search term _) at = at
  step_store P h v _ (unload _) at = at

  steps_store :
      (P : SerializedConnection → Type 0)
      → ((now : Instant) (job : Queued) (s : SerializedConnection)
          → P s
          → P (after_job p now job s))
      → (v w : World) → Steps p cfg v w
      → P v.store
      → P w.store
  steps_store P h v _ (done _) at = at
  steps_store P h _ _ (more u v w s t) at = step_store P h v w t (steps_store P h u v s at)

  -- Whatever happens in whatever order, the connection is idle between two jobs and the committed
  -- tables keep their keys.
  pub steps-IsSafe : (v w : World) → Steps p cfg v w → IsSafe v.store → IsSafe w.store
  steps-IsSafe v w s h = steps_store IsSafe (after_job-IsSafe p) v w s h

  -- Once the connection is closed nothing is written: whatever jobs were queued and whatever
  -- happens later, the data stay as they are.
  pub steps_closed : (v w : World) → Steps p cfg v w → v.store.closed ≡ true → w.store ≡ v.store
  steps_closed v w s h =
      steps_store (λ t. t ≡ v.store)
        (λ now job t e. ap (after_job p now job) e ∙ after_job_closed p now job v.store h) v w s
        refl

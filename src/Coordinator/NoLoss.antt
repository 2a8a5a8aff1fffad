-- ===== src/Coordinator/NoLoss.antt =====
-- coordinator.py: the count of exits and movements, step by step.
use ha_skywatch.Prelude.{
  ℕ, true, false, List, [], ◌∷◌, ◌++◌, ◌≡◌, refl, sym, ◌∙◌, arith, if_either, if_cases,
  if◌then◌else◌, count_if-append,
}
use ha_skywatch.Python.{Platform}
use ha_skywatch.Python.Result.{Result, ok, err}
use ha_skywatch.Time.{Instant}
use ha_skywatch.Storage.Connection.{SerializedConnection, run}
use ha_skywatch.Storage.Repository.{Sample, record_exit, record_movement}
use ha_skywatch.Storage.History.{do_job}
use ha_skywatch.Coordinator.{
  World, Config, Task, persist_entry, persist_exit, persist_movement, Queued, write_entry,
  write_exit, write_movement, write_positions, close_db, Flight, async_db, async_set_page,
  async_set_search_term, async_unload, start_task,
}
use ha_skywatch.Coordinator.Run.{refresh_if, execute}
use ha_skywatch.Coordinator.Capture.{queue_rows, capture_positions}
use ha_skywatch.Coordinator.Steps.{
  Step, event, start, finish, capture, set_page, set_search, unload, Steps, done, more,
}
use ha_skywatch.Coordinator.Handling.{provider_event_keeps}
use ha_skywatch.Coordinator.Jobs.{
  IsDone, IsDone-entry, IsDone-exit, IsDone-movement, IsDone-positions,
}
use ha_skywatch.Coordinator.Counting.{
  is_exit_job, is_movement_job, is_close, IsTracked, count_if-middle, IsTracked-IsKept, start_keeps,
}

-- A queued job other than `close` runs and leaves the queue.
done_keeps :
    {n m : ℕ}
    → (store : SerializedConnection) (before after : List Queued) (job : Queued) (w : World)
    → w.queue ≡ before ++ (job ∷ after)
    → is_close job ≡ false
    → (w.has_db ≡ true
        → IsDone w.store store
            (if is_exit_job job then 1 else 0)
            (if is_movement_job job then 1 else 0))
    → IsTracked n m w
    → IsTracked n m (record w { store = store; queue = before ++ after })
done_keeps store before after job w e no_close h tracked = record {
  running = λ loaded.
      let r = tracked.running loaded in
      let d = h loaded in
      record {
        still_open = d.still_open;
        idle = d.idle;
        no_faults = d.no_faults;
        no_close =
            ground
              (arith, r.no_close, no_close, count_if-middle is_close w.queue before after job e);
        exits = ground (
          arith,
          r.exits,
          d.more_sightings,
          count_if-middle is_exit_job w.queue before after job e,
        );
        movements = ground (
          arith,
          r.movements,
          d.more_movements,
          count_if-middle is_movement_job w.queue before after job e,
        );
      };
}

refresh_keeps :
    {n m : ℕ}
    → {A : Type 0} (r : Result A) (w : World) → IsTracked n m w
    → IsTracked n m (refresh_if r w)
refresh_keeps (ok a) w tracked = record { running = tracked.running }
refresh_keeps (err e) w tracked = tracked

-- With a `close` in the queue the coordinator is not loaded.
close_keeps :
    {n m : ℕ}
    → (before after : List Queued) (w v : World) → w.queue ≡ before ++ (close_db ∷ after)
    → v.has_db ≡ w.has_db
    → IsTracked n m w
    → IsTracked n m v
close_keeps before after w v e same tracked = record {
  running = λ loaded.
      let r = tracked.running (sym same ∙ loaded) in
      absurd (ground (arith, r.no_close, count_if-middle is_close w.queue before after close_db e));
}

module _ (p : Platform) where
  finish_keeps :
      {n m : ℕ}
      → (now : Instant) (before after : List Queued) (job : Queued) (w : World)
      → w.queue ≡ before ++ (job ∷ after)
      → IsTracked n m w
      → IsTracked n m (execute p now job (record w { queue = before ++ after }))
  unfolding execute do_job
  finish_keeps now before after (write_entry en) w e tracked =
      done_keeps _ before after (write_entry en) w e refl
        (λ h.
          let r = tracked.running h in
          IsDone-entry p w.store r.still_open r.idle r.no_faults now en)
        tracked
  finish_keeps now before after (write_exit flight_id s) w e tracked =
      refresh_keeps (run (record_exit p flight_id s) w.store).0 _ (
        done_keeps _ before after (write_exit flight_id s) w e refl
          (λ h.
            let r = tracked.running h in
            IsDone-exit p w.store r.still_open r.idle r.no_faults flight_id s)
          tracked)
  finish_keeps now before after (write_movement m) w e tracked =
      refresh_keeps (run (record_movement p m) w.store).0 _ (
        done_keeps _ before after (write_movement m) w e refl
          (λ h.
            let r = tracked.running h in
            IsDone-movement p w.store r.still_open r.idle r.no_faults m)
          tracked)
  finish_keeps now before after (write_positions rows) w e tracked =
      done_keeps _ before after (write_positions rows) w e refl
        (λ h.
          let r = tracked.running h in
          IsDone-positions p w.store r.still_open r.idle r.no_faults now rows)
        tracked
  finish_keeps now before after close_db w e tracked = close_keeps before after w _ e refl tracked

  start_task_keeps :
      {n m : ℕ}
      → (before after : List Task) (task : Task) (w : World) → w.tasks ≡ before ++ (task ∷ after)
      → IsTracked n m w
      → IsTracked n m (start_task task (record w { tasks = before ++ after }))
  unfolding start_task
  start_task_keeps before after (persist_entry en) w e h =
      start_keeps (write_entry en) before after _ w e refl refl refl h
  start_task_keeps before after (persist_exit flight_id s) w e h =
      start_keeps (write_exit flight_id s) before after _ w e refl refl refl h
  start_task_keeps before after (persist_movement m) w e h =
      start_keeps (write_movement m) before after _ w e refl refl refl h

  rows_keep :
      {n m : ℕ}
      → (rows : List Sample) (w : World) → IsTracked n m w
      → IsTracked n m (async_db (write_positions rows) w)
  unfolding async_db
  rows_keep rows w tracked =
      if_cases (IsTracked _ _) w.has_db _ _
        (λ loaded.
          let r = tracked.running loaded in
          record {
            running = λ _. record {
              still_open = r.still_open;
              idle = r.idle;
              no_faults = r.no_faults;
              no_close =
                  ground (
                    arith,
                    r.no_close,
                    count_if-append is_close w.queue (write_positions rows ∷ []),
                  );
              exits =
                  ground (
                    arith,
                    r.exits,
                    count_if-append is_exit_job w.queue (write_positions rows ∷ []),
                  );
              movements = ground (
                arith,
                r.movements,
                count_if-append is_movement_job w.queue (write_positions rows ∷ []),
              );
            };
          })
        (λ _. tracked)

  queue_rows_keeps :
      {n m : ℕ}
      → (r : Result (List Sample)) (w : World) → IsTracked n m w
      → IsTracked n m (queue_rows p r w)
  queue_rows_keeps (err e) w h = h
  queue_rows_keeps (ok []) w h = h
  queue_rows_keeps (ok (s ∷ rows)) w h = rows_keep (s ∷ rows) w h

  capture_keeps :
      {n m : ℕ}
      → (now : Instant) (flights : List Flight) (w : World) → IsTracked n m w
      → IsTracked n m (capture_positions p now flights w)
  unfolding capture_positions
  capture_keeps now flights w h = if_either (IsTracked _ _) w.has_db _ _ (queue_rows_keeps _ w h) h

module _ (p : Platform) (cfg : Config) where
  Step-keeps : {n m : ℕ} → (v w : World) → Step p cfg v w → IsTracked n m v → IsTracked n m w
  unfolding async_set_page async_set_search_term async_unload
  Step-keeps v _ (event now ev _) h =
      provider_event_keeps cfg (IsTracked _ _) (IsTracked-IsKept cfg) v h p now ev
  Step-keeps v _ (start before after task _ e) h = start_task_keeps p before after task v e h
  Step-keeps v _ (finish now before after job _ e) h = finish_keeps p now before after job v e h
  Step-keeps v _ (capture now flights _) h = capture_keeps p now flights v h
  Step-keeps v _ (set_page page _) h = record { running = h.running }
  Step-keeps v _ (set_search term _) h = record { running = h.running }
  Step-keeps v _ (unload _) h = record { running = λ loaded. absurd (ground (arith, loaded)) }

  -- Through any events, tasks, jobs and unloading in any order: while the coordinator is loaded and
  -- no statement fails, the sightings stored, the exit jobs in the queue and the exit tasks not
  -- started are together as many as the exits announced on the bus and the n sightings that were there
  -- before, and so it is with the movements and the m movements.
  pub steps-IsTracked :
      {n m : ℕ} → (v w : World) → Steps p cfg v w → IsTracked n m v → IsTracked n m w
  steps-IsTracked v _ (done _) h = h
  steps-IsTracked _ _ (more u v w s t) h = Step-keeps v w t (steps-IsTracked u v s h)

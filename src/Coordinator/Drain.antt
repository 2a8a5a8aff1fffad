-- ===== src/Coordinator/Drain.antt =====
-- coordinator.py: the tasks that wait are started and the jobs that wait are run, one after the other.
use ha_skywatch.Prelude.{
  ℕ, ◌+◌, Bool, true, List, [], ◌∷◌, ◌≡◌, refl, ap, ◌∙◌, arith, count_if, length,
}
use ha_skywatch.Python.{Platform}
use ha_skywatch.Python.Result.{Result, ok, err}
use ha_skywatch.Time.{Instant}
use ha_skywatch.Storage.Connection.{run}
use ha_skywatch.Storage.Repository.{record_exit, record_movement}
use ha_skywatch.Coordinator.{
  World, Config, Task, persist_entry, persist_exit, persist_movement, Queued, write_entry,
  write_exit, write_movement, write_positions, close_db, async_db, start_task,
}
use ha_skywatch.Coordinator.Run.{execute, refresh_if}
use ha_skywatch.Coordinator.Steps.{Steps, done, more, start, finish}
use ha_skywatch.Coordinator.Counting.{
  IsTracked, is_exit_event, is_movement_event, is_exit_job, is_exit_task, is_movement_job,
  is_movement_task,
}
use ha_skywatch.Coordinator.NoLoss.{steps-IsTracked}

-- No event is fired, and the connection is held as before.
abbrev pub IsSilent : World → World → Type 0
IsSilent v w = (w.fired ≡ v.fired) × (w.has_db ≡ v.has_db)

IsSilent-trans : (u v w : World) → IsSilent u v → IsSilent v w → IsSilent u w
IsSilent-trans u v w (fired, db) (fired', db') = (fired' ∙ fired, db' ∙ db)

refresh_if_keeps :
    {A : Type 0}
    → (r : Result A) (w : World)
    → ((refresh_if r w).tasks ≡ w.tasks)
      × ((refresh_if r w).queue ≡ w.queue)
      × IsSilent w (refresh_if r w)
refresh_if_keeps (ok a) w = (refl, refl, (refl, refl))
refresh_if_keeps (err e) w = (refl, refl, (refl, refl))

-- Counts that add up to one sum before and after, where nothing waits afterwards.
all_counted :
    {A B C : Type 0} (n stored stored' : ℕ) (job : A → Bool) (task : B → Bool) (event : C → Bool)
    (jobs jobs' : List A) (tasks tasks' : List B) (fired fired' : List C)
    → stored + count_if job jobs + count_if task tasks ≡ n + count_if event fired
    → stored' + count_if job jobs' + count_if task tasks' ≡ n + count_if event fired'
    → jobs' ≡ []
    → tasks' ≡ []
    → fired' ≡ fired
    → (stored' ≡ stored + count_if job jobs + count_if task tasks)
      × (stored' ≡ n + count_if event fired)
all_counted n stored stored' job task event jobs jobs' tasks tasks' fired fired' h h' no_jobs
      no_tasks same =
    let j = ap (count_if job) no_jobs in
    let t = ap (count_if task) no_tasks in
    let e = ap (count_if event) same in
    (omega (arith, h, h', j, t, e), omega (arith, h, h', j, t, e))

module _ (p : Platform) (cfg : Config) where
  Steps_trans : (u v w : World) → Steps p cfg u v → Steps p cfg v w → Steps p cfg u w
  Steps_trans u _ _ s (done v) = s
  Steps_trans u v w s (more _ x _ t step) = more u x w (Steps_trans u v x s t) step

  execute_keeps :
      (now : Instant) (job : Queued) (w : World)
      → ((execute p now job w).tasks ≡ w.tasks)
        × ((execute p now job w).queue ≡ w.queue)
        × IsSilent w (execute p now job w)
  unfolding execute
  execute_keeps now (write_entry e) w = (refl, refl, (refl, refl))
  execute_keeps now (write_exit flight_id s) w =
      let r = run (record_exit p flight_id s) w.store in
      refresh_if_keeps r.0 (record w { store = r.1 })
  execute_keeps now (write_movement m) w =
      let r = run (record_movement p m) w.store in refresh_if_keeps r.0 (record w { store = r.1 })
  execute_keeps now (write_positions rows) w = (refl, refl, (refl, refl))
  execute_keeps now close_db w = (refl, refl, (refl, refl))

  start_keeps :
      (task : Task) (w : World)
      → ((start_task task w).tasks ≡ w.tasks) × IsSilent w (start_task task w)
  unfolding start_task async_db
  start_keeps (persist_entry e) w = ground arith
  start_keeps (persist_exit flight_id s) w = ground arith
  start_keeps (persist_movement m) w = ground arith

  run_jobs :
      (now : Instant) (jobs : List Queued) (w : World)
      → w.queue ≡ jobs
      → (v : World) × Steps p cfg w v × (v.tasks ≡ w.tasks) × (v.queue ≡ []) × IsSilent w v
  run_jobs now [] w e = (w, done w, refl, e, (refl, refl))
  run_jobs now (job ∷ jobs) w e =
      let u = execute p now job (record w { queue = jobs }) in
      let (tasks, queue, silent) = execute_keeps now job (record w { queue = jobs }) in
      let (v, steps, tasks', none_left, silent') = run_jobs now jobs u queue in
      (
        v,
        Steps_trans w u v (more w w u (done w) (finish now [] jobs job w e)) steps,
        tasks' ∙ tasks,
        none_left,
        IsSilent-trans w u v silent silent',
      )

  start_all :
      (tasks : List Task) (w : World)
      → w.tasks ≡ tasks
      → (v : World) × Steps p cfg w v × (v.tasks ≡ []) × IsSilent w v
  start_all [] w e = (w, done w, e, (refl, refl))
  start_all (task ∷ tasks) w e =
      let u = start_task task (record w { tasks = tasks }) in
      let (rest, silent) = start_keeps task (record w { tasks = tasks }) in
      let (v, steps, none_left, silent') = start_all tasks u rest in
      (
        v,
        Steps_trans w u v (more w w u (done w) (start [] tasks task w e)) steps,
        none_left,
        IsSilent-trans w u v silent silent',
      )

  -- The executor and the event loop have nothing to do, and no event is fired on the way. There are
  -- more sightings and movements by as many as there were exits and movements waiting, and so as many
  -- as were announced, besides the n and m that were there before.
  pub record IsDrained (n m : ℕ) (w v : World) : Type 0 where
    pub steps : Steps p cfg w v
    pub no_tasks : v.tasks ≡ []
    pub no_jobs : v.queue ≡ []
    pub silent : v.fired ≡ w.fired
    pub exits :
        (length v.store.conn.committed.sightings
          ≡ length w.store.conn.committed.sightings
            + count_if is_exit_job w.queue
            + count_if is_exit_task w.tasks)
        × (length v.store.conn.committed.sightings ≡ n + count_if is_exit_event w.fired)
    pub movements :
        (length v.store.conn.committed.airport_movements
          ≡ length w.store.conn.committed.airport_movements
            + count_if is_movement_job w.queue
            + count_if is_movement_task w.tasks)
        × (length v.store.conn.committed.airport_movements ≡ m + count_if is_movement_event w.fired)

  -- From a loaded coordinator whose connection is open and idle, with no close queued and no statement
  -- going to fail, and whose exits and movements add up, starting the tasks that wait and running the
  -- jobs in the queue leads in finitely many steps to a state where no task and no job is left and the
  -- table of sightings has one row more for each exit that waited, that of movements for each movement.
  pub drain :
      {n m : ℕ}
      → (now : Instant) (w : World) → w.has_db ≡ true
      → IsTracked n m w
      → (v : World) × IsDrained n m w v
  drain now w loaded tracked =
      let (u, started, no_tasks, silent) = start_all w.tasks w refl in
      let (v, ran, tasks, no_jobs, silent') = run_jobs now u.queue u refl in
      let steps = Steps_trans w u v started ran in
      let (fired, db) = IsSilent-trans w u v silent silent' in
      let before = tracked.running loaded in
      let r = (steps-IsTracked p cfg w v steps tracked).running (db ∙ loaded) in
      (
        v,
        record {
          steps = steps;
          no_tasks = tasks ∙ no_tasks;
          no_jobs = no_jobs;
          silent = fired;
          exits =
              all_counted _ _ _ is_exit_job is_exit_task is_exit_event w.queue _ w.tasks _ _ _
                before.exits r.exits no_jobs (tasks ∙ no_tasks) fired;
          movements =
              all_counted _ _ _ is_movement_job is_movement_task is_movement_event w.queue _ w.tasks
                _ _ _ before.movements r.movements no_jobs (tasks ∙ no_tasks) fired;
        },
      )

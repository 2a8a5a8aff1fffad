-- ===== src/Coordinator/Counting.antt =====
-- coordinator.py: the exits and movements on their way from an event to a row, counted.
use ha_skywatch.Prelude.{
  ℕ, ◌+◌, Bool, true, false, ◌||◌, List, [], ◌∷◌, ◌++◌, codes, text_eq, compare_text, ◌≡◌, refl, ap,
  ◌∙◌, arith, if_cases, if◌then◌else◌, count_if, count_if-append, length,
}
use ha_skywatch.Storage.Connection.{SerializedConnection, IsIdle}
use ha_skywatch.Coordinator.{
  World, Config, SkywatchEvent, Task, persist_entry, persist_exit, persist_movement, Queued,
  write_exit, write_movement, close_db, async_db, skywatch_event, entry_event, exit_event,
  movement_event, fire_and_create,
}
use ha_skywatch.Coordinator.Handling.{IsKept}

abbrev pub is_exit_event : SkywatchEvent → Bool
is_exit_event e = text_eq e.kind (codes "exit")

abbrev pub is_movement_event : SkywatchEvent → Bool
is_movement_event e = text_eq e.kind (codes "landed") || text_eq e.kind (codes "took_off")

abbrev pub is_exit_task : Task → Bool
is_exit_task (persist_exit flight_id s) = true
is_exit_task _ = false

abbrev pub is_movement_task : Task → Bool
is_movement_task (persist_movement m) = true
is_movement_task _ = false

abbrev pub is_exit_job : Queued → Bool
is_exit_job (write_exit flight_id s) = true
is_exit_job _ = false

abbrev pub is_movement_job : Queued → Bool
is_movement_job (write_movement m) = true
is_movement_job _ = false

abbrev pub is_close : Queued → Bool
is_close close_db = true
is_close _ = false

-- The connection is open and idle, nothing closes it, no statement is going to fail, and every
-- exit and every movement that was announced has its row, or its job or its task is still to run,
-- besides n sightings and m movements that were there before.
pub record IsRunning (n m : ℕ) (store : SerializedConnection) (queue : List Queued)
    (tasks : List Task) (fired : List SkywatchEvent) : Type 0 where
  pub still_open : store.closed ≡ false
  pub idle : IsIdle store.conn
  pub no_faults : store.conn.faults ≡ []
  pub no_close : count_if is_close queue ≡ 0
  pub exits :
      length store.conn.committed.sightings
        + count_if is_exit_job queue
        + count_if is_exit_task tasks
      ≡ n + count_if is_exit_event fired
  pub movements :
      length store.conn.committed.airport_movements
        + count_if is_movement_job queue
        + count_if is_movement_task tasks
      ≡ m + count_if is_movement_event fired

-- That holds as long as the coordinator is loaded.
pub record IsTracked (n m : ℕ) (w : World) : Type 0 where
  pub running : w.has_db ≡ true → IsRunning n m w.store w.queue w.tasks w.fired

pub count_if-middle :
    {A : Type 0} (test : A → Bool) (xs before after : List A) (x : A)
    → xs ≡ before ++ (x ∷ after)
    → count_if test xs ≡ count_if test (before ++ after) + (if test x then 1 else 0)
count_if-middle test xs before after x e =
    ap (count_if test) e
    ∙ ground (arith, count_if-append test before (x ∷ after), count_if-append test before after)

module _ (cfg : Config) where
  pub fire_keeps :
      {n m : ℕ}
      → (e : SkywatchEvent) (t : Task) → is_exit_event e ≡ is_exit_task t
      → is_movement_event e ≡ is_movement_task t
      → (w : World) → IsTracked n m w
      → IsTracked n m (fire_and_create cfg e t w).1
  unfolding fire_and_create
  fire_keeps e t same_exit same_movement w tracked = record {
    running = λ h.
        let r = tracked.running h in
        record {
          still_open = r.still_open;
          idle = r.idle;
          no_faults = r.no_faults;
          no_close = r.no_close;
          exits = ground (
            arith,
            r.exits,
            same_exit,
            count_if-append is_exit_task w.tasks (t ∷ []),
            count_if-append is_exit_event w.fired (e ∷ []),
          );
          movements = ground (
            arith,
            r.movements,
            same_movement,
            count_if-append is_movement_task w.tasks (t ∷ []),
            count_if-append is_movement_event w.fired (e ∷ []),
          );
        };
  }

  pub IsTracked-IsKept : {n m : ℕ} → IsKept cfg (IsTracked n m)
  unfolding entry_event exit_event movement_event skywatch_event compare_text
  IsTracked-IsKept = record {
    by_entry = λ e w h. fire_keeps (entry_event cfg e) (persist_entry e) refl refl w h;
    by_exit = λ flight_id s w h.
        fire_keeps (exit_event cfg flight_id s) (persist_exit flight_id s) refl refl w h;
    by_landing = λ m w h.
        fire_keeps (movement_event cfg (codes "landed") m) (persist_movement m) refl refl w h;
    by_takeoff = λ m w h.
        fire_keeps (movement_event cfg (codes "took_off") m) (persist_movement m) refl refl w h;
  }

-- A task that starts puts a job of its kind into the queue.
pub start_keeps :
    {n m : ℕ}
    → (job : Queued) (before after : List Task) (task : Task) (w : World)
    → w.tasks ≡ before ++ (task ∷ after)
    → is_exit_job job ≡ is_exit_task task
    → is_movement_job job ≡ is_movement_task task
    → is_close job ≡ false
    → IsTracked n m w
    → IsTracked n m (async_db job (record w { tasks = before ++ after }))
unfolding async_db
start_keeps job before after task w e same_exit same_movement no_close tracked =
    if_cases (IsTracked _ _) w.has_db _ _
      (λ loaded.
        let r = tracked.running loaded in
        record {
          running = λ _. record {
            still_open = r.still_open;
            idle = r.idle;
            no_faults = r.no_faults;
            no_close =
                ground (arith, r.no_close, no_close, count_if-append is_close w.queue (job ∷ []));
            exits = ground (
              arith,
              r.exits,
              same_exit,
              count_if-append is_exit_job w.queue (job ∷ []),
              count_if-middle is_exit_task w.tasks before after task e,
            );
            movements = ground (
              arith,
              r.movements,
              same_movement,
              count_if-append is_movement_job w.queue (job ∷ []),
              count_if-middle is_movement_task w.tasks before after task e,
            );
          };
        })
      (λ unloaded. record { running = λ h. absurd (ground (arith, h, unloaded)) })

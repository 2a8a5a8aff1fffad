-- ===== src/Coordinator/Steps.antt =====
-- coordinator.py: what may happen next on the event loop and in the executor. Tasks start and jobs
-- run in any order: asyncio keeps the order of tasks, but the executor's threads do not keep that
-- of the jobs.
use ha_skywatch.Prelude.{List, Text, ◌∷◌, ◌++◌, ◌≡◌}
use ha_skywatch.Prelude.Int.{ℤ}
use ha_skywatch.Python.{Platform}
use ha_skywatch.Time.{Instant}
use ha_skywatch.Coordinator.{
  World, Config, Task, Queued, Flight, async_set_page, async_set_search_term, async_unload,
  start_task,
}
use ha_skywatch.Coordinator.Run.{ProviderEvent, execute, provider_event}
use ha_skywatch.Coordinator.Capture.{capture_positions}

pub data Step (p : Platform) (cfg : Config) : World → World → Type 0 where
  event :
      (now : Instant) (ev : ProviderEvent) (w : World)
      → Step p cfg w (provider_event p cfg now ev w).1
  start :
      (before after : List Task) (task : Task) (w : World)
      → w.tasks ≡ before ++ (task ∷ after)
      → Step p cfg w (start_task task (record w { tasks = before ++ after }))
  finish :
      (now : Instant) (before after : List Queued) (job : Queued) (w : World)
      → w.queue ≡ before ++ (job ∷ after)
      → Step p cfg w (execute p now job (record w { queue = before ++ after }))
  capture :
      (now : Instant) (flights : List Flight) (w : World)
      → Step p cfg w (capture_positions p now flights w)
  set_page : (page : ℤ) (w : World) → Step p cfg w (async_set_page page w)
  set_search : (term : Text) (w : World) → Step p cfg w (async_set_search_term term w)
  unload : (w : World) → Step p cfg w (async_unload w)

-- Any number of steps.
pub data Steps (p : Platform) (cfg : Config) : World → World → Type 0 where
  done : (w : World) → Steps p cfg w w
  more : (u v w : World) → Steps p cfg u v → Step p cfg v w → Steps p cfg u w

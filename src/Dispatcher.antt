-- ===== src/Dispatcher.antt =====
-- src/dispatcher.h and src/dispatcher.cpp: the tasks that any thread hands to the thread of the game.
-- What the code does under `taskLock`, and the run of one task, are the steps; the steps of the threads
-- interleave as they like. A task is named by a number; `handled` is a record of the tasks that the
-- thread has been through.
pub mod Order
mod Tests
use otxserver.Common.{
  ℕ, zero, suc, ◌+◌, ◌-◌, ◌*◌, ◌/◌, ◌%◌, ◌^◌, ◌≤◌, ◌<◌, min, max, ◌≡◌, refl, sym, ap, ◌∙◌, ◌≢◌, ◌↔◌,
  ◌⊎◌, inl, inr, Bool, true, false, not, ◌&&◌, ◌||◌, Option, none, some, List, [], ◌∷◌, ◌++◌, map,
  arith, ltb, leb, ◌==◌, if◌then◌else◌, ltb→lt, lt→ltb, leb→le, ==_iff, ==_refl, Bool-cases,
  Option-cases, dist, if_intro, length, get_elem?, get_or, set, take, drop, length-append,
  take-append, drop-append, All, All-append,
}

-- `ThreadState`
pub data ThreadState : Type 0 where
  running closing terminated : ThreadState

abbrev pub is_running : ThreadState → Bool
is_running running = true
is_running closing = false
is_running terminated = false

abbrev pub is_terminated : ThreadState → Bool
is_terminated running = false
is_terminated closing = false
is_terminated terminated = true

-- `Task`: its expiration is 0 for none. The task of `Dispatcher::shutdown` ends the thread.
pub data Task : Type 0 where
  task : ℕ → ℕ → Task
  shutdown_task : Task

-- `hasExpired`
unfoldable pub has_expired : ℕ → Task → Bool
has_expired now (task id expiration) = not (expiration == 0) && ltb expiration now
has_expired now shutdown_task = false

-- `tmp_task_list` is what is left of the tasks that `threadMain` has taken.
pub record Dispatcher : Type 0 where
  pub state : ThreadState
  pub task_list : List Task
  pub tmp_task_list : List Task
  pub cycle : ℕ
  pub handled : List Task

-- `addTask`
unfoldable pub add_task : Task → Dispatcher → Dispatcher
add_task t d = if is_running d.state then record d { task_list = d.task_list ++ (t ∷ []) } else d

-- `shutdown`
unfoldable pub shutdown : Dispatcher → Dispatcher
shutdown d = record d { task_list = d.task_list ++ (shutdown_task ∷ []) }

-- `ThreadHolder::stop`
unfoldable pub stop : Dispatcher → Dispatcher
stop d = record d { state = closing }

abbrev pub is_empty : List Task → Bool
is_empty [] = true
is_empty (t ∷ ts) = false

-- `threadMain`: where no task is left and the thread is not terminated, the two lists are swapped. A
-- wait that ends without a task swaps two empty lists.
unfoldable pub take_tasks : Dispatcher → Dispatcher
take_tasks d =
    if is_empty d.tmp_task_list && not (is_terminated d.state)
    then record d { tmp_task_list = d.task_list; task_list = [] }
    else d

-- `(*task)()`: of the task itself only the end of the thread is seen here.
abbrev pub execute : Task → ThreadState → ThreadState
execute (task id expiration) s = s
execute shutdown_task s = terminated

-- One round of the loop over `tmpTaskList`.
unfoldable pub run_task : ℕ → Task → Dispatcher → Dispatcher
run_task now t d =
    if has_expired now t then record d { handled = d.handled ++ (t ∷ []) } else record d {
      state = execute t d.state;
      cycle = d.cycle + 1;
      handled = d.handled ++ (t ∷ []);
    }

abbrev pub run_next : ℕ → List Task → Dispatcher → Dispatcher
run_next now [] d = d
run_next now (t ∷ ts) d = run_task now t (record d { tmp_task_list = ts })

-- The steps, of any thread.
pub data Step : Type 0 where
  adds : Task → Step
  shuts_down stops takes : Step
  runs : ℕ → Step

unfoldable pub step : Step → Dispatcher → Dispatcher
step (adds t) d = add_task t d
step shuts_down d = shutdown d
step stops d = stop d
step takes d = take_tasks d
step (runs now) d = run_next now d.tmp_task_list d

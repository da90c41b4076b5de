-- ===== src/Dispatcher/Tests.antt =====
-- The theorem on the dispatcher at two tasks, of which one expires, and a shutdown between them.
use otxserver.Common.{◌≡◌, List, [], ◌∷◌}
use otxserver.Dispatcher.{running, task, Dispatcher, Step, adds, shuts_down, takes, runs}
use otxserver.Dispatcher.Order.{run, accepted, history, run-history}

abbrev idle : Dispatcher
idle = record { state = running; task_list = []; tmp_task_list = []; cycle = 0; handled = [] }

abbrev steps : List Step
steps =
    adds (task 1 0)
    ∷ takes
    ∷ adds (task 2 50)
    ∷ runs 10
    ∷ shuts_down
    ∷ takes
    ∷ runs 60
    ∷ runs 61
    ∷ adds (task 3 0)
    ∷ []

run-history_example : history (run steps idle) ≡ accepted steps idle
run-history_example = run-history steps idle

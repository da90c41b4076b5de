-- ===== src/Dispatcher/Order.antt =====
-- The order in which the dispatcher of src/dispatcher.cpp goes through its tasks.
use otxserver.Common.{
  ℕ, ◌≡◌, refl, sym, ap, ◌∙◌, inl, inr, not, ◌&&◌, List, [], ◌∷◌, ◌++◌, if◌then◌else◌, Bool-cases,
  if_intro,
}
use otxserver.Dispatcher.{
  is_running, is_terminated, Task, shutdown_task, has_expired, Dispatcher, add_task, shutdown, stop,
  is_empty, take_tasks, run_task, run_next, Step, adds, shuts_down, stops, takes, runs, step,
}

-- The tasks that a step puts on the list.
abbrev pub accepts : Step → Dispatcher → List Task
accepts (adds t) d = if is_running d.state then t ∷ [] else []
accepts shuts_down d = shutdown_task ∷ []
accepts stops d = []
accepts takes d = []
accepts (runs now) d = []

unfoldable pub run : List Step → Dispatcher → Dispatcher
run [] d = d
run (s ∷ ss) d = run ss (step s d)

unfoldable pub accepted : List Step → Dispatcher → List Task
accepted [] d = []
accepted (s ∷ ss) d = accepts s d ++ accepted ss (step s d)

-- All the tasks that the dispatcher has been handed, in order.
abbrev pub history : Dispatcher → List Task
history d = d.handled ++ (d.tmp_task_list ++ d.task_list)

append_assoc : (xs ys zs : List Task) → (xs ++ ys) ++ zs ≡ xs ++ (ys ++ zs)
append_assoc [] ys zs = refl
append_assoc (x ∷ xs) ys zs = ap (◌∷◌ x) (append_assoc xs ys zs)

append_nil : (xs : List Task) → xs ++ [] ≡ xs
append_nil [] = refl
append_nil (x ∷ xs) = ap (◌∷◌ x) (append_nil xs)

push-history :
    (h b l : List Task) (t : Task) → h ++ (b ++ (l ++ (t ∷ []))) ≡ (h ++ (b ++ l)) ++ (t ∷ [])
push-history h b l t = rw (append_assoc h (b ++ l) (t ∷ []), append_assoc b l (t ∷ []))

take-history :
    (d : Dispatcher) (b : List Task) → d.tmp_task_list ≡ b → history (take_tasks d) ≡ history d
unfolding take_tasks
take-history d [] e =
    if_intro (λ (x : Dispatcher). history x ≡ history d)
      (is_empty d.tmp_task_list && not (is_terminated d.state))
      (rw (e, append_nil d.task_list) refl) refl
take-history d (t ∷ ts) e = rw e refl

run_task-history :
    (now : ℕ) (t : Task) (d : Dispatcher)
    → history (run_task now t d) ≡ d.handled ++ ((t ∷ d.tmp_task_list) ++ d.task_list)
unfolding run_task
run_task-history now t d =
    if_intro (λ (x : Dispatcher). history x ≡ d.handled ++ ((t ∷ d.tmp_task_list) ++ d.task_list))
      (has_expired now t) (append_assoc d.handled (t ∷ []) (d.tmp_task_list ++ d.task_list))
      (append_assoc d.handled (t ∷ []) (d.tmp_task_list ++ d.task_list))

run_next-history :
    (now : ℕ) (b : List Task) (d : Dispatcher)
    → d.tmp_task_list ≡ b
    → history (run_next now b d) ≡ history d
run_next-history now [] d e = refl
run_next-history now (t ∷ ts) d e =
    run_task-history now t (record d { tmp_task_list = ts }) ∙ rw e refl

add_task-history :
    (t : Task) (d : Dispatcher)
    → history (add_task t d) ≡ history d ++ (if is_running d.state then t ∷ [] else [])
unfolding add_task
add_task-history t d = elim (Bool-cases (is_running d.state)) [
  | inl e ↦ rw e (push-history d.handled d.tmp_task_list d.task_list t)
  | inr e ↦ rw e (sym (append_nil (history d)))
]

step-history : (s : Step) (d : Dispatcher) → history (step s d) ≡ history d ++ accepts s d
unfolding step shutdown stop
step-history (adds t) d = add_task-history t d
step-history shuts_down d = push-history d.handled d.tmp_task_list d.task_list shutdown_task
step-history stops d = sym (append_nil (history d))
step-history takes d = take-history d d.tmp_task_list refl ∙ sym (append_nil (history d))
step-history (runs now) d =
    run_next-history now d.tmp_task_list d refl ∙ sym (append_nil (history d))

-- However the steps of the threads interleave, the tasks that the dispatcher has been through, then
-- those that it has taken, then those on its list, are the tasks of the beginning followed by those
-- that it has accepted since, in the order of their acceptance: none is lost, done twice or overtaken.
pub run-history :
    (ss : List Step) (d : Dispatcher) → history (run ss d) ≡ history d ++ accepted ss d
unfolding run accepted
run-history [] d = sym (append_nil (history d))
run-history (s ∷ ss) d =
    run-history ss (step s d)
    ∙ ap (λ h. h ++ accepted ss (step s d)) (step-history s d)
    ∙ append_assoc (history d) (accepts s d) (accepted ss (step s d))

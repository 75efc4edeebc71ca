-- ===== src/Pipeline/Examples.antt =====
-- A task engine with two threads, and one task.
use zpserver.Common.{ℕ, ◌≡◌, refl, true, some, arith, get_elem?}
use zpserver.Pipeline.{
  popped, ready, running_task, released, Pipeline, add_ref, set_lock, set_at, set_phase,
  push_quietly, push_task, on_finished_task, first_idle, fire, member, remove_one, fetch_new_task,
  work, pushes, fires, fetches, works, Steps, start, then_step, new_pipeline,
}
use zpserver.Pipeline.Schedule.{IsValid, Steps-IsValid}
use zpserver.Pipeline.References.{new_pipeline-IsValid, runs_alone, released_without_reference}

-- The first thread takes task 5 and is about to lock it.
abbrev about_to_run : Pipeline
about_to_run = work true 0 (popped 5) (fetch_new_task 0 (fire (push_task 5 (new_pipeline 2))))

to_about_to_run : Steps (new_pipeline 2) about_to_run
unfolding new_pipeline push_task push_quietly add_ref fire first_idle on_finished_task
    fetch_new_task member remove_one set_phase set_at work
to_about_to_run =
    then_step
      (then_step (then_step (then_step start (pushes 5)) (fires (omega arith)))
        (fetches 0 refl refl))
      (works 0 (popped 5) true refl (λ e. cc))

abbrev runs_five : Pipeline
runs_five = work true 0 (ready 5) about_to_run

at_ready : get_elem? about_to_run.phases 0 ≡ some (ready 5)
unfolding new_pipeline push_task push_quietly add_ref fire first_idle on_finished_task
    fetch_new_task member remove_one set_phase set_at work
at_ready = refl

to_runs_five : Steps (new_pipeline 2) runs_five
to_runs_five = then_step to_about_to_run (works 0 (ready 5) true at_ready (λ e. cc))

Steps-IsValid_example : IsValid runs_five
Steps-IsValid_example = Steps-IsValid (new_pipeline-IsValid 2 (omega arith)) to_runs_five

at_running : get_elem? runs_five.phases 0 ≡ some (running_task 5)
unfolding new_pipeline push_task push_quietly add_ref fire first_idle on_finished_task
    fetch_new_task member remove_one set_phase set_at set_lock work
at_running = refl

runs_alone_example : ◌≡◌ {A = ℕ} 0 0
runs_alone_example = runs_alone 2 5 0 0 runs_five (omega arith) to_runs_five at_running at_running

released_without_reference_example :
    (s : Pipeline) × Steps (new_pipeline 2) s
    × (get_elem? s.phases 0 ≡ some (released 5 true))
    × (s.ref_count 5 ≡ 0)
released_without_reference_example = released_without_reference 1 5

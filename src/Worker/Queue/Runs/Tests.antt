-- ===== src/Worker/Queue/Runs/Tests.antt =====
-- A run of the claimed build of the queue, whose heartbeat goes on beside it.
use osaip.Base.{ℕ, true, All, ◌+◌, ◌≡◌, refl, none, some, [], ◌∷◌}
use osaip.Worker.Queue.{
  Database, JobStatus, job_of, heartbeat, beat_row, finalize_job, finish_row, skip_open,
}
use osaip.Worker.Queue.Commit.{
  start_step, fail_step, commit_version, flip, flip_row, dataset_version, has_version,
}
use osaip.Worker.Queue.Execute.{
  build_done, build_failed, Worker, execute_job, observe, transact, is_cancel_requested, run_step,
  run_each, result_of, after_step, choose_step,
}
use osaip.Worker.Queue.Succeeded.{IsBuilt, run_each-IsBuilt}
use osaip.Worker.Queue.Tests.{busy, running, step}

abbrev worker : Worker
worker = record {
  others = λ t db. heartbeat 1 t db;
  clock = λ t. 130 + t;
  plan = λ recipe target. none;
  build = λ recipe target version.
      build_done "clean/v1" "{}" 3 "{}" "c" "{}" ((10, 1) ∷ []) (10 ∷ []) 20;
  log_prefix = λ ordinal. "logs";
}

-- The job ends as succeeded, with the first version of its dataset.
job_ends :
    job_of 1 ((execute_job worker 1 (0, busy)).1.jobs)
    ≡ some (record running {
      heartbeat_at = some 6;
      status = JobStatus.succeeded;
      finished_at = some 136;
    })
unfolding execute_job observe transact is_cancel_requested run_step run_each result_of after_step
    choose_step heartbeat beat_row finalize_job finish_row start_step commit_version flip
job_ends = refl

version_1 : dataset_version 11 ((execute_job worker 1 (0, busy)).1.datasets) ≡ some 1
unfolding execute_job observe transact is_cancel_requested run_step run_each result_of after_step
    choose_step heartbeat beat_row finalize_job finish_row start_step commit_version flip_row flip
version_1 = refl

abbrev broken : Worker
broken = record worker { build = λ recipe target version. build_failed "No such column." }

job_fails :
    job_of 1 ((execute_job broken 1 (0, busy)).1.jobs)
    ≡ some (record running {
      heartbeat_at = some 7;
      status = JobStatus.failed;
      finished_at = some 137;
    })
unfolding execute_job observe transact is_cancel_requested run_step run_each result_of after_step
    choose_step heartbeat beat_row finalize_job finish_row start_step fail_step skip_open
job_fails = refl

versions_stay :
    (t : ℕ) (db : Database) (d v : ℕ)
    → has_version d v db.versions ≡ true
    → has_version d v (worker.others t db).versions ≡ true
unfolding heartbeat
versions_stay t db d v was = was

run_each-IsBuilt_example :
    All (λ s. IsBuilt s busy (run_each worker 1 (step ∷ []) (0, busy)).1.1) (step ∷ [])
unfolding run_each observe transact is_cancel_requested run_step result_of after_step choose_step
    heartbeat beat_row start_step commit_version flip
run_each-IsBuilt_example = run_each-IsBuilt worker versions_stay 1 (step ∷ []) (0, busy) refl

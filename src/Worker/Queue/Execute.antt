-- ===== src/Worker/Queue/Execute.antt =====
-- apps/worker/osaip_worker/executor.py: `execute_job` and `_run_step`, as the transactions that a run
-- makes. `others` is what the other transactions make of the database before the next one of the run,
-- and `clock` its time, both by the number of the transaction. `build` stands for the inputs, the
-- connection and the engine: what it yields for a recipe and the next version of its target. `plan`
-- gives the exception before it, as that of a policy, if any. An interrupted build is one whose job is
-- asked to stop, which is not taken back.
use osaip.Base.{
  ℕ, suc, String, Bool, true, false, Option, none, some, List, [], ◌∷◌, ◌==◌, ltb, if◌then◌else◌,
}
use osaip.Worker.Queue.{
  JobStatus, StepStatus, Job, JobStep, Database, job_of, is_running, finalize_job,
}
use osaip.Worker.Queue.Commit.{
  BuildResult, Committed, flipped, cancelled, superseded, raised, start_step, fail_step, skip_step,
  commit_version, dataset_version,
}

-- What the engine yields for a step: an exception, with its text for the user, or the parts of the
-- version that do not come from the step.
pub data Build : Type 0 where
  build_failed : String → Build
  build_done : String → String → ℕ → String → String → String → List (ℕ × ℕ) → List ℕ → ℕ → Build

-- The ends of a step: as it should, _Cancelled, _Superseded, or an exception with its text.
pub data StepEnd : Type 0 where
  step_done step_cancelled step_superseded : StepEnd
  step_failed : String → StepEnd

pub record Worker : Type 0 where
  pub others : ℕ → Database → Database
  pub clock : ℕ → ℕ
  pub plan : ℕ → ℕ → Option String
  pub build : ℕ → ℕ → ℕ → Build
  pub log_prefix : ℕ → String

-- The database with the number of the transactions so far.
abbrev pub State : Type 0
State = ℕ × Database

-- One transaction of the run, after those of the others.
unfoldable pub transact : Worker → State → (ℕ → Database → Database) → State
transact w (t, db) tx = (suc t, tx (w.clock t) (w.others t db))

-- A read of the run sees what the others have made of the database.
unfoldable pub observe : Worker → State → State
observe w (t, db) = (suc t, w.others t db)

-- `_cancel_requested`
asked_to_stop : Option Job → Bool
asked_to_stop none = false
asked_to_stop (some j) = j.cancel_requested

unfoldable pub is_cancel_requested : ℕ → Database → Bool
unfolding asked_to_stop
is_cancel_requested job db = asked_to_stop (job_of job db.jobs)

-- The version that a step writes.
unfoldable pub result_of :
    ℕ
    → ℕ
    → ℕ
    → ℕ
    → String
    → String
    → ℕ
    → String
    → String
    → String
    → List (ℕ × ℕ)
    → List ℕ
    → ℕ
    → BuildResult
result_of job step target version location schema rows profile hash config inputs ids size =
    record {
      job_id = job;
      step_id = step;
      target_id = target;
      next_version = version;
      location = location;
      schema_json = schema;
      row_count = rows;
      profile_json = profile;
      recipe_hash = hash;
      recipe_config = config;
      input_versions = inputs;
      input_dataset_ids = ids;
      log_size = size;
    }

-- The transaction of `_commit_version`, and what `_run_step` does with its result.
unfoldable pub after_commit : Worker → ℕ → Committed → State → StepEnd × State
after_commit w step flipped s = (step_done, s)
after_commit w step cancelled s = (step_cancelled, transact w s (skip_step step))
after_commit w step superseded s = (step_superseded, s)
after_commit w step raised s = (step_failed "The build step failed.", s)

unfoldable pub commit_step : Worker → BuildResult → State → StepEnd × State
unfolding after_commit
commit_step w b (t, db) =
    let seen = w.others t db in
    let ran = commit_version b (w.clock t) seen in after_commit w b.step_id ran.0 (suc t, ran.1)

-- The end of the build: an exception is a cancellation where the job is asked to stop.
unfoldable pub end_build : Worker → ℕ → ℕ → ℕ → ℕ → Build → State → StepEnd × State
unfolding commit_step result_of
end_build w job step target version (build_failed error) s =
    let after = observe w s in
    if is_cancel_requested job (after.1)
    then (step_cancelled, after)
    else (step_failed error, after)
end_build w job step target version
      (build_done location schema rows profile hash config inputs ids size) s =
    commit_step w
      (result_of job step target version location schema rows profile hash config inputs ids size) s

-- The check before the build, and the build.
unfoldable pub start_build : Worker → ℕ → ℕ → ℕ → ℕ → ℕ → State → StepEnd × State
unfolding end_build
start_build w job step recipe target version s =
    let checked = observe w s in
    if is_cancel_requested job (checked.1)
    then (step_cancelled, checked)
    else end_build w job step target version (w.build recipe target version) checked

-- The exception before the build, if any.
unfoldable pub plan_build : Worker → ℕ → ℕ → ℕ → ℕ → ℕ → Option String → State → StepEnd × State
unfolding start_build
plan_build w job step recipe target version (some error) s = (step_failed error, s)
plan_build w job step recipe target version none s = start_build w job step recipe target version s

-- From the read of the target on.
unfoldable pub build_target : Worker → ℕ → ℕ → ℕ → ℕ → Option ℕ → State → StepEnd × State
unfolding plan_build
build_target w job step recipe target none s = (step_failed "The build step failed.", s)
build_target w job step recipe target (some current) s =
    plan_build w job step recipe target (suc current) (w.plan recipe target) s

-- `_run_step`
unfoldable pub run_step : Worker → ℕ → JobStep → Option ℕ → Option ℕ → State → StepEnd × State
unfolding build_target
run_step w job step none target s = (step_failed "The build step failed.", s)
run_step w job step (some recipe) none s = (step_failed "The build step failed.", s)
run_step w job step (some recipe) (some target) s =
    let started = transact w s (start_step step.id (w.log_prefix step.ordinal)) in
    let seen = observe w started in
    build_target w job step.id recipe target (dataset_version target (seen.1.datasets)) seen

unfoldable pub is_queued_step : StepStatus → Bool
is_queued_step StepStatus.queued = true
is_queued_step _ = false

-- What the loop does at the end of a step, where `go_on` is its rest.
unfoldable pub after_step :
    Worker → ℕ → (State → Option JobStatus × State) → StepEnd → State → Option JobStatus × State
after_step w step go_on step_done s = go_on s
after_step w step go_on step_cancelled s = (some JobStatus.cancelled, s)
after_step w step go_on step_superseded s = (none, s)
after_step w step go_on (step_failed error) s =
    (some JobStatus.failed, transact w s (fail_step step error))

-- A step that was not queued is passed by, and a job that is asked to stop runs none.
unfoldable pub choose_step :
    Bool
    → Bool
    → State
    → Option JobStatus × State
    → Option JobStatus × State
    → Option JobStatus × State
choose_step false stops checked passed ran = passed
choose_step true true checked passed ran = (some JobStatus.cancelled, checked)
choose_step true false checked passed ran = ran

-- The loop over the steps as they were read, up to the outcome; none for a run that is superseded.
unfoldable pub run_each : Worker → ℕ → List JobStep → State → Option JobStatus × State
unfolding is_queued_step
run_each w job [] s = (some JobStatus.succeeded, s)
run_each w job (step ∷ more) s =
    let checked = observe w s in
    let ran = run_step w job step step.recipe_id step.target_dataset_id checked in
    choose_step (is_queued_step step.status) (is_cancel_requested job (checked.1)) checked
      (run_each w job more s) (after_step w step.id (run_each w job more) (ran.0) (ran.1))

-- `order_by(JobStep.ordinal)`
insert_step : JobStep → List JobStep → List JobStep
insert_step s [] = s ∷ []
insert_step s (r ∷ rs) = if ltb r.ordinal s.ordinal then r ∷ insert_step s rs else s ∷ r ∷ rs

ordered_steps : ℕ → List JobStep → List JobStep
unfolding insert_step
ordered_steps job [] = []
ordered_steps job (s ∷ ss) =
    let rest = ordered_steps job ss in if s.job_id == job then insert_step s rest else rest

unfoldable pub end_job : Worker → ℕ → Option JobStatus → State → State
end_job w job none s = s
end_job w job (some outcome) s = transact w s (λ now. finalize_job job outcome now)

unfoldable pub execute_found : Worker → ℕ → Option Job → State → State
unfolding end_job ordered_steps
execute_found w job none s = s
execute_found w job (some j) s =
    let ran = run_each w job (ordered_steps job (s.1.steps)) s in
    if is_running j.status then end_job w job (ran.0) (ran.1) else s

unfoldable pub execute_job : Worker → ℕ → State → State
unfolding execute_found
execute_job w job s = let seen = observe w s in execute_found w job (job_of job (seen.1.jobs)) seen

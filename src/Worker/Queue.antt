-- ===== src/Worker/Queue.antt =====
-- apps/worker/osaip_worker/executor.py: the transactions on the jobs, and `cancel_job` of
-- apps/api/osaip_api/routers/builds.py. The database's time is in seconds. `locked` holds of the rows
-- that another transaction has locked, which SKIP LOCKED leaves out.
pub mod Rows
pub mod Commit
pub mod Flips
pub mod Transactions
pub mod Lives
pub mod Sweeps
pub mod Lifecycle
pub mod Ends
pub mod Outcomes
pub mod Execute
pub mod Runs
pub mod Effects
pub mod Versions
pub mod Succeeded
mod Tests
use osaip.Base.{
  ℕ, suc, ◌+◌, String, Bool, true, false, not, ◌&&◌, ◌||◌, Option, none, some, List, [], ◌∷◌, map,
  keep, ltb, leb, ◌==◌, if◌then◌else◌,
}
use osaip.Api.Propagation.{Dataset as Labels}

pub data JobStatus : Type 0 where
  queued running succeeded failed cancelled : JobStatus

pub data StepStatus : Type 0 where
  queued running succeeded failed skipped : StepStatus

pub record Job : Type 0 where
  pub id : ℕ
  pub project_id : ℕ
  pub status : JobStatus
  pub heartbeat_at : Option ℕ
  pub claimed_by : Option String
  pub attempts : ℕ
  pub cancel_requested : Bool
  pub created_at : ℕ
  pub started_at : Option ℕ
  pub finished_at : Option ℕ

pub record JobStep : Type 0 where
  pub id : ℕ
  pub job_id : ℕ
  pub ordinal : ℕ
  pub recipe_id : Option ℕ
  pub target_dataset_id : Option ℕ
  pub status : StepStatus
  pub log_prefix : Option String
  pub log_size : ℕ
  pub error : Option String
  pub started_at : Option ℕ
  pub finished_at : Option ℕ

pub record Dataset : Type 0 where
  pub id : ℕ
  pub name : String
  pub current_version : ℕ
  pub labels : Labels

-- The JSON columns are the texts that are stored.
pub record DatasetVersion : Type 0 where
  pub dataset_id : ℕ
  pub version : ℕ
  pub location : String
  pub schema_json : String
  pub row_count : ℕ
  pub profile_json : String
  pub recipe_config_hash : String
  pub input_versions : List (ℕ × ℕ)
  pub config_snapshot : String

pub record Database : Type 0 where
  pub jobs : List Job
  pub steps : List JobStep
  pub datasets : List Dataset
  pub versions : List DatasetVersion

abbrev pub requeue_timeout : ℕ
requeue_timeout = 60

abbrev pub max_attempts : ℕ
max_attempts = 3

-- `UPDATE ... SET ... WHERE ...`
abbrev pub update_where : {A : Type 0} → (A → Bool) → (A → A) → List A → List A
update_where test f [] = []
update_where test f (x ∷ xs) = (if test x then f x else x) ∷ update_where test f xs

-- The row of an id.
abbrev pub job_of : ℕ → List Job → Option Job
job_of id [] = none
job_of id (j ∷ js) = if j.id == id then some j else job_of id js

abbrev pub is_queued : JobStatus → Bool
is_queued JobStatus.queued = true
is_queued _ = false

abbrev pub is_running : JobStatus → Bool
is_running JobStatus.running = true
is_running _ = false

-- `step.status in ("queued", "running")`
abbrev pub is_pending : StepStatus → Bool
is_pending StepStatus.queued = true
is_pending StepStatus.running = true
is_pending _ = false

abbrev pub is_underway : StepStatus → Bool
is_underway StepStatus.running = true
is_underway _ = false

-- The steps of a job that are queued or running become skipped.
unfoldable pub skip_open : ℕ → ℕ → List JobStep → List JobStep
skip_open job now steps =
    update_where (λ s. s.job_id == job && is_pending s.status)
      (λ s. record s { status = StepStatus.skipped; finished_at = some now }) steps

-- `ORDER BY created_at ... LIMIT 1`
unfoldable pub older : Job → Option Job → Job
older j none = j
older j (some k) = if ltb k.created_at j.created_at then k else j

unfoldable pub oldest_queued : (ℕ → Bool) → List Job → Option Job
unfolding older
oldest_queued locked [] = none
oldest_queued locked (j ∷ js) =
    let rest = oldest_queued locked js in
    if is_queued j.status && not (locked j.id) then some (older j rest) else rest

unfoldable pub claim_row : String → ℕ → Job → Job
claim_row worker now j = record j {
  status = JobStatus.running;
  started_at = some now;
  heartbeat_at = some now;
  claimed_by = some worker;
}

unfoldable pub claim_found : String → ℕ → Database → Option Job → Option ℕ × Database
unfolding claim_row
claim_found worker now db none = (none, db)
claim_found worker now db (some j) = (
  some j.id,
  record db { jobs = update_where (λ k. k.id == j.id) (claim_row worker now) db.jobs },
)

unfoldable pub claim : String → ℕ → (ℕ → Bool) → Database → Option ℕ × Database
unfolding claim_found
claim worker now locked db = claim_found worker now db (oldest_queued locked db.jobs)

-- The update of `_heartbeat_loop`.
unfoldable pub beat_row : ℕ → Job → Job
beat_row now j = record j { heartbeat_at = some now }

unfoldable pub heartbeat : ℕ → ℕ → Database → Database
heartbeat id now db = record db {
  jobs = update_where (λ j. j.id == id && is_running j.status) (beat_row now) db.jobs;
}

-- `heartbeat_at < now() - make_interval(secs => :timeout)`, which no NULL passes.
long_ago : ℕ → Option ℕ → Bool
long_ago now none = false
long_ago now (some t) = ltb (t + requeue_timeout) now

unfoldable pub is_stale : ℕ → (ℕ → Bool) → Job → Bool
unfolding long_ago
is_stale now locked j = is_running j.status && long_ago now j.heartbeat_at && not (locked j.id)

unfoldable pub poison_row : ℕ → Job → Job
poison_row now j = record j {
  status = JobStatus.failed;
  attempts = suc j.attempts;
  finished_at = some now;
  claimed_by = none;
}

unfoldable pub requeue_row : Job → Job
requeue_row j = record j {
  status = JobStatus.queued;
  attempts = suc j.attempts;
  claimed_by = none;
  heartbeat_at = none;
  started_at = none;
}

requeue_steps : ℕ → List JobStep → List JobStep
requeue_steps job steps =
    update_where (λ s. s.job_id == job && is_underway s.status)
      (λ s. record s { status = StepStatus.queued; started_at = none }) steps

-- One round of the loop over the stale rows, with the attempts that were read.
unfoldable pub sweep_one : ℕ → Database → Job → Database
unfolding requeue_steps
sweep_one now db stale =
    let at = λ (j : Job). j.id == stale.id in
    if ltb max_attempts (suc stale.attempts)
    then record db {
      jobs = update_where at (poison_row now) db.jobs;
      steps = skip_open stale.id now db.steps;
    }
    else record db {
      jobs = update_where at requeue_row db.jobs;
      steps = requeue_steps stale.id db.steps;
    }

unfoldable pub sweep_each : ℕ → Database → List Job → Database
unfolding sweep_one
sweep_each now db [] = db
sweep_each now db (stale ∷ more) = sweep_each now (sweep_one now db stale) more

unfoldable pub sweep : ℕ → (ℕ → Bool) → Database → Database
unfolding sweep_each
sweep now locked db = sweep_each now db (keep (is_stale now locked) db.jobs)

-- `cancel_job`, for the row found: a queued job is over, a running one is asked to stop.
unfoldable pub cancel_row : ℕ → Job → Job
cancel_row now j =
    if is_queued j.status
    then record j { cancel_requested = true; status = JobStatus.cancelled; finished_at = some now }
    else if is_running j.status
    then record j { cancel_requested = true }
    else j

unfoldable pub cancel_found : ℕ → Database → Option Job → Option Database
unfolding cancel_row
cancel_found now db none = none
cancel_found now db (some j) = some (record db {
  jobs = update_where (λ k. k.id == j.id) (cancel_row now) db.jobs;
  steps = if is_queued j.status then skip_open j.id now db.steps else db.steps;
})

unfoldable pub in_project : ℕ → Option Job → Option Job
in_project project none = none
in_project project (some j) = if j.project_id == project then some j else none

-- None where the project has no such job.
unfoldable pub cancel_job : ℕ → ℕ → ℕ → Database → Option Database
unfolding cancel_found in_project
cancel_job project id now db = cancel_found now db (in_project project (job_of id db.jobs))

-- The row of the job that a run has ended with an outcome, and its transaction.
unfoldable pub finish_row : JobStatus → ℕ → Job → Job
finish_row outcome now j = record j { status = outcome; finished_at = some now }

skips_steps : JobStatus → Bool
skips_steps JobStatus.failed = true
skips_steps JobStatus.cancelled = true
skips_steps _ = false

unfoldable pub finalize_found : JobStatus → ℕ → Database → Option Job → Database
unfolding skips_steps finish_row
finalize_found outcome now db none = db
finalize_found outcome now db (some j) =
    if is_running j.status
    then record db {
      jobs = update_where (λ k. k.id == j.id) (finish_row outcome now) db.jobs;
      steps = if skips_steps outcome then skip_open j.id now db.steps else db.steps;
    }
    else db

unfoldable pub finalize_job : ℕ → JobStatus → ℕ → Database → Database
unfolding finalize_found
finalize_job id outcome now db = finalize_found outcome now db (job_of id db.jobs)

-- ===== src/Worker/Queue/Commit.antt =====
-- apps/worker/osaip_worker/executor.py: `_commit_version`, and the transactions on a step.
use osaip.Base.{
  ℕ, String, Bool, not, ◌&&◌, Option, none, some, List, [], ◌∷◌, ◌++◌, any_of, ◌==◌, if◌then◌else◌,
}
use osaip.Base.Worklist.{member}
use osaip.Api.Propagation.{Dataset as Labels, apply_classification_floor}
use osaip.Worker.Queue.{
  Job, StepStatus, Dataset, DatasetVersion, Database, update_where, job_of, is_running, is_pending,
}

-- `_start_step`
unfoldable pub start_step : ℕ → String → ℕ → Database → Database
start_step id log_prefix now db = record db {
  steps =
      update_where (λ s. s.id == id)
        (λ s. record s {
          status = StepStatus.running;
          started_at = some now;
          log_prefix = some log_prefix;
        })
        db.steps;
}

-- `_fail_step`, with the text of the error.
unfoldable pub fail_step : ℕ → String → ℕ → Database → Database
fail_step id error now db = record db {
  steps =
      update_where (λ s. s.id == id)
        (λ s. record s { status = StepStatus.failed; finished_at = some now; error = some error })
        db.steps;
}

-- `_skip_step`
unfoldable pub skip_step : ℕ → ℕ → Database → Database
skip_step id now db = record db {
  steps =
      update_where (λ s. s.id == id && is_pending s.status)
        (λ s. record s { status = StepStatus.skipped; finished_at = some now }) db.steps;
}

-- What a build of a step yields, with the inputs that it read.
pub record BuildResult : Type 0 where
  pub job_id : ℕ
  pub step_id : ℕ
  pub target_id : ℕ
  pub next_version : ℕ
  pub location : String
  pub schema_json : String
  pub row_count : ℕ
  pub profile_json : String
  pub recipe_hash : String
  pub recipe_config : String
  pub input_versions : List (ℕ × ℕ)
  pub input_dataset_ids : List ℕ
  pub log_size : ℕ

-- `raised` is the exception of a row that is not there, and of the unique constraint on the versions.
pub data Committed : Type 0 where
  flipped cancelled superseded raised : Committed

-- The row of DatasetVersion.
unfoldable pub new_version : BuildResult → DatasetVersion
new_version b = record {
  dataset_id = b.target_id;
  version = b.next_version;
  location = b.location;
  schema_json = b.schema_json;
  row_count = b.row_count;
  profile_json = b.profile_json;
  recipe_config_hash = b.recipe_hash;
  input_versions = b.input_versions;
  config_snapshot = b.recipe_config;
}

-- uq_dataset_versions_dataset_version
abbrev pub has_version : ℕ → ℕ → List DatasetVersion → Bool
has_version dataset version vs =
    any_of (λ (v : DatasetVersion). v.dataset_id == dataset && v.version == version) vs

abbrev pub dataset_of : ℕ → List Dataset → Option Dataset
dataset_of id [] = none
dataset_of id (d ∷ ds) = if d.id == id then some d else dataset_of id ds

-- The labels of the inputs, in the order of the table.
input_labels : List ℕ → List Dataset → List Labels
input_labels ids [] = []
input_labels ids (d ∷ ds) =
    let rest = input_labels ids ds in if member d.id ids then d.labels ∷ rest else rest

unfoldable pub flip_row : BuildResult → List Labels → Dataset → Dataset
flip_row b inputs d = record d {
  current_version = b.next_version;
  labels = apply_classification_floor d.labels inputs;
}

unfoldable pub flip : BuildResult → ℕ → Database → Database
unfolding new_version flip_row input_labels
flip b now db = record db {
  versions = db.versions ++ (new_version b ∷ []);
  datasets =
      update_where (λ d. d.id == b.target_id)
        (flip_row b (input_labels b.input_dataset_ids db.datasets)) db.datasets;
  steps =
      update_where (λ s. s.id == b.step_id)
        (λ s. record s {
          status = StepStatus.succeeded;
          finished_at = some now;
          log_size = b.log_size;
        })
        db.steps;
}

unfoldable pub commit_target : BuildResult → ℕ → Database → Option Dataset → Committed × Database
commit_target b now db none = (raised, db)
commit_target b now db (some target) =
    if has_version b.target_id b.next_version db.versions
    then (raised, db)
    else (flipped, flip b now db)

unfoldable pub commit_found : BuildResult → ℕ → Database → Option Job → Committed × Database
unfolding commit_target
commit_found b now db none = (raised, db)
commit_found b now db (some job) =
    if not (is_running job.status)
    then (superseded, db)
    else if job.cancel_requested
    then (cancelled, db)
    else commit_target b now db (dataset_of b.target_id db.datasets)

-- `_commit_version`: one transaction under the lock of the dataset.
unfoldable pub commit_version : BuildResult → ℕ → Database → Committed × Database
unfolding commit_found
commit_version b now db = commit_found b now db (job_of b.job_id db.jobs)

-- `target.current_version`
abbrev pub dataset_version : ℕ → List Dataset → Option ℕ
dataset_version id [] = none
dataset_version id (d ∷ ds) = if d.id == id then some d.current_version else dataset_version id ds

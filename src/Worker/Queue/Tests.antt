-- ===== src/Worker/Queue/Tests.antt =====
-- A queue with a build that waits, of dataset 11, and one that has succeeded.
use osaip.Base.{
  ℕ, suc, ◌≤◌, ◌≡◌, ◌≢◌, ◌⊎◌, refl, ap, Bool, true, false, none, some, List, [], ◌∷◌, arith,
  Bool-cases, inl, inr, ◌==◌,
}
use mathlib.Core.Option.{some-injective}
use osaip.Api.Propagation.{Classification, BbnLevel, Confidentiality}
use osaip.Worker.Queue.{
  JobStatus, StepStatus, Job, JobStep, Dataset, Database, job_of, claim, oldest_queued, older,
  claim_row, sweep, is_stale, sweep_one, poison_row, requeue_row, cancel_job, cancel_row, skip_open,
}
use osaip.Worker.Queue.Rows.{ids, IsKeyed}
use osaip.Worker.Queue.Commit.{BuildResult, flipped, commit_version, has_version, dataset_version}
use osaip.Worker.Queue.Transactions.{Transactions, start, read, next, claims, claims_of, logged}
use osaip.Worker.Queue.Outcomes.{ended_job-stays, claims-le_4, cancelled_job-commits_nothing}
use osaip.Worker.Queue.Versions.{AreContiguous, commit_version-next}

abbrev waiting : Job
waiting = record {
  id = 1;
  project_id = 7;
  status = JobStatus.queued;
  heartbeat_at = none;
  claimed_by = none;
  attempts = 0;
  cancel_requested = false;
  created_at = 100;
  started_at = none;
  finished_at = none;
}

abbrev pub done : Job
done = record waiting { id = 2; status = JobStatus.succeeded; finished_at = some 90 }

abbrev pub running : Job
running = record waiting {
  status = JobStatus.running;
  heartbeat_at = some 120;
  claimed_by = some "w";
  started_at = some 120;
}

abbrev pub step : JobStep
step = record {
  id = 5;
  job_id = 1;
  ordinal = 0;
  recipe_id = some 1;
  target_dataset_id = some 11;
  status = StepStatus.queued;
  log_prefix = none;
  log_size = 0;
  error = none;
  started_at = none;
  finished_at = none;
}

abbrev pub clean : Dataset
clean = record {
  id = 11;
  name = "clean";
  current_version = 0;
  labels = record {
    classification = Classification.none;
    bbn_level = BbnLevel.unset;
    confidentiality = Confidentiality.unset;
    legal_basis = "";
    purpose_codes = [];
  };
}

abbrev queue : Database
queue = record {
  jobs = waiting ∷ done ∷ [];
  steps = step ∷ [];
  datasets = clean ∷ [];
  versions = [];
}

abbrev nobody : ℕ → Bool
nobody id = false

abbrev pub busy : Database
busy = record queue { jobs = running ∷ done ∷ [] }

claimed_first : claim "w" 120 nobody queue ≡ (some 1, busy)
unfolding claim oldest_queued older claim_row
claimed_first = refl

-- The worker is silent for 61 seconds.
swept : sweep 181 nobody busy ≡ record busy { jobs = record waiting { attempts = 1 } ∷ done ∷ [] }
unfolding sweep is_stale sweep_one requeue_row
swept = refl

given_up :
    sweep 181 nobody (record busy { jobs = record running { attempts = 3 } ∷ [] }) ≡ record busy {
      jobs =
          record running {
            attempts = 4;
            status = JobStatus.failed;
            finished_at = some 181;
            claimed_by = none;
          }
          ∷ [];
      steps = record step { status = StepStatus.skipped; finished_at = some 181 } ∷ [];
    }
unfolding sweep is_stale sweep_one poison_row skip_open
given_up = refl

keyed : IsKeyed (ids queue.jobs)
unfolding IsKeyed
keyed = ((refl, tt), (tt, tt))

-- The log of a claim, and what follows it.
abbrev log : List ℕ
log = logged ((claim "w" 120 nobody queue).0) []

abbrev after : Database
after = (claim "w" 120 nobody queue).1

ran : Transactions queue log ((11, 0) ∷ []) after
ran = next (read start 11 refl) (claims "w" 120 nobody)

ended_job-stays_example : (job_of 2 after.jobs ≡ some done) × (claims_of 2 log ≡ 0)
ended_job-stays_example = ended_job-stays keyed ran 2 refl refl

claims-le_4_example : claims_of 1 log ≤ 4
claims-le_4_example = claims-le_4 keyed ran 1 refl

abbrev built : BuildResult
built = record {
  job_id = 1;
  step_id = 5;
  target_id = 11;
  next_version = 1;
  location = "s3://osaip/projects/P/datasets/clean/v1/data.parquet";
  schema_json = "{}";
  row_count = 3;
  profile_json = "{}";
  recipe_hash = "c";
  recipe_config = "{}";
  input_versions = (10, 1) ∷ [];
  input_dataset_ids = 10 ∷ [];
  log_size = 0;
}

abbrev stopping : Database
stopping = record busy { jobs = record running { cancel_requested = true } ∷ done ∷ [] }

stopped : cancel_job 7 1 130 busy ≡ some stopping
unfolding cancel_job cancel_row skip_open
stopped = refl

cancelled_job-commits_nothing_example :
    ((commit_version built 140 stopping).0 ≢ flipped)
    × ((commit_version built 140 stopping).1 ≡ stopping)
cancelled_job-commits_nothing_example =
    cancelled_job-commits_nothing 7 1 130 busy stopping stopped keyed start built 140 refl

contiguous : AreContiguous queue
unfolding AreContiguous
contiguous d c e v lo hi = elim (Bool-cases (11 == d)) [
  | inl here ↦ absurd (omega (arith, some-injective _ _ (rw here at e), lo, hi))
  | inr other ↦ absurd (cc (rw other at e))
]

still_0 : dataset_version 11 after.datasets ≡ some 0
still_0 = ap (λ r. dataset_version 11 r.1.datasets) claimed_first

commit_version-next_example :
    ((commit_version built 140 after).0 ≢ flipped × ((commit_version built 140 after).1 ≡ after))
    ⊎ ((1 ≡ suc 0)
        × (dataset_version 11 ((commit_version built 140 after).1.datasets) ≡ some (suc 0))
        × (has_version 11 1 after.versions ≡ false)
        × (has_version 11 1 ((commit_version built 140 after).1.versions) ≡ true))
commit_version-next_example = commit_version-next contiguous ran built 140 0 0 refl refl still_0

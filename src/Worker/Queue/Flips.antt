-- ===== src/Worker/Queue/Flips.antt =====
-- The commit of a version: when it flips, and that otherwise it changes nothing.
use osaip.Base.{ℕ, ◌≡◌, ◌≢◌, ◌⊎◌, refl, true, false, some, Bool-cases, Option-cases, inl, inr}
use osaip.Worker.Queue.{Job, Dataset, Database, job_of, is_running}
use osaip.Worker.Queue.Commit.{
  BuildResult, Committed, flipped, cancelled, superseded, raised, has_version, dataset_of, flip,
  commit_target, commit_found, commit_version,
}

-- The job runs and is not asked to stop, the target is there, and the version is not yet.
pub record MayFlip (b : BuildResult) (db : Database) : Type 0 where
  pub job : Job
  pub job_found : job_of b.job_id db.jobs ≡ some job
  pub runs : is_running job.status ≡ true
  pub wanted : job.cancel_requested ≡ false
  pub target : Dataset
  pub target_found : dataset_of b.target_id db.datasets ≡ some target
  pub unused : has_version b.target_id b.next_version db.versions ≡ false

pub commit_version-cases :
    (b : BuildResult) (now : ℕ) (db : Database)
    → ((c : Committed) × (commit_version b now db ≡ (c, db)) × (c ≢ flipped))
      ⊎ (MayFlip b db × (commit_version b now db ≡ (flipped, flip b now db)))
unfolding commit_version commit_found commit_target
commit_version-cases b now db = elim (Option-cases (job_of b.job_id db.jobs)) [
  | inl nobody ↦ inl (raised, rw nobody refl, cc)
  | inr (job, found) ↦ elim (Bool-cases (is_running job.status)) [
    | inr stopped ↦ inl (superseded, rw (found, stopped) refl, cc)
    | inl runs ↦ elim (Bool-cases job.cancel_requested) [
      | inl asked ↦ inl (cancelled, rw (found, runs, asked) refl, cc)
      | inr wanted ↦ elim (Option-cases (dataset_of b.target_id db.datasets)) [
        | inl nothing ↦ inl (raised, rw (found, runs, wanted, nothing) refl, cc)
        | inr (target, at) ↦
            elim (Bool-cases (has_version b.target_id b.next_version db.versions)) [
              | inl used ↦ inl (raised, rw (found, runs, wanted, at, used) refl, cc)
              | inr unused ↦ inr (
                record {
                  job = job;
                  job_found = found;
                  runs = runs;
                  wanted = wanted;
                  target = target;
                  target_found = at;
                  unused = unused;
                },
                rw (found, runs, wanted, at, unused) refl,
              )
            ]
      ]
    ]
  ]
]

pub commit_version-jobs :
    (b : BuildResult) (now : ℕ) (db : Database) → (commit_version b now db).1.jobs ≡ db.jobs
unfolding flip
commit_version-jobs b now db = elim (commit_version-cases b now db) [
  | inl (c, e, other) ↦ rw e refl
  | inr (may, e) ↦ rw e refl
]

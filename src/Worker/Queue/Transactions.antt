-- ===== src/Worker/Queue/Transactions.antt =====
-- The transactions of the workers, the sweeper and the API, in any order.
use osaip.Base.{
  ℕ, suc, ◌+◌, ◌≡◌, String, Bool, true, false, ◌&&◌, Option, none, some, List, [], ◌∷◌, any_of,
  ◌==◌, if◌then◌else◌,
}
use osaip.Worker.Queue.{JobStatus, Database, claim, heartbeat, sweep, cancel_job, finalize_job}
use osaip.Worker.Queue.Commit.{
  BuildResult, start_step, fail_step, skip_step, commit_version, dataset_version,
}

-- A run finalizes a job with one of these.
abbrev pub is_terminal : JobStatus → Bool
is_terminal JobStatus.succeeded = true
is_terminal JobStatus.failed = true
is_terminal JobStatus.cancelled = true
is_terminal _ = false

-- The versions that runs have read, each with its dataset.
abbrev pub has_read : List (ℕ × ℕ) → ℕ → ℕ → Bool
has_read reads dataset version = any_of (λ r. r.0 == dataset && r.1 == version) reads

-- One transaction, with the job that it claims. `_run_step` commits the version after one that it has
-- read.
pub data Transaction (reads : List (ℕ × ℕ)) : Option ℕ → Database → Database → Type 0 where
  claims :
      {db : Database} (worker : String) (now : ℕ) (locked : ℕ → Bool)
      → Transaction reads ((claim worker now locked db).0) db ((claim worker now locked db).1)
  beats : {db : Database} (id now : ℕ) → Transaction reads none db (heartbeat id now db)
  sweeps :
      {db : Database} (now : ℕ) (locked : ℕ → Bool)
      → Transaction reads none db (sweep now locked db)
  cancels :
      {db db' : Database} (project id now : ℕ)
      → cancel_job project id now db ≡ some db'
      → Transaction reads none db db'
  starts :
      {db : Database} (id : ℕ) (log_prefix : String) (now : ℕ)
      → Transaction reads none db (start_step id log_prefix now db)
  fails :
      {db : Database} (id : ℕ) (error : String) (now : ℕ)
      → Transaction reads none db (fail_step id error now db)
  skips : {db : Database} (id now : ℕ) → Transaction reads none db (skip_step id now db)
  commits :
      {db : Database} (b : BuildResult) (now read : ℕ)
      → has_read reads b.target_id read ≡ true
      → b.next_version ≡ suc read
      → Transaction reads none db ((commit_version b now db).1)
  finalizes :
      {db : Database} (id : ℕ) (outcome : JobStatus) (now : ℕ)
      → is_terminal outcome ≡ true
      → Transaction reads none db (finalize_job id outcome now db)

abbrev pub logged : Option ℕ → List ℕ → List ℕ
logged none log = log
logged (some id) log = id ∷ log

-- How often a job was claimed.
unfoldable pub claims_of : ℕ → List ℕ → ℕ
claims_of k [] = 0
claims_of k (i ∷ is) = (if i == k then 1 else 0) + claims_of k is

-- What can follow from a database, with the jobs claimed and the versions read on the way, the last
-- ones first.
pub data Transactions (begun : Database) : List ℕ → List (ℕ × ℕ) → Database → Type 0 where
  start : Transactions begun [] [] begun
  read :
      {log : List ℕ} {reads : List (ℕ × ℕ)} {db : Database} {version : ℕ}
      → Transactions begun log reads db
      → (dataset : ℕ) → dataset_version dataset db.datasets ≡ some version
      → Transactions begun log ((dataset, version) ∷ reads) db
  next :
      {log : List ℕ} {reads : List (ℕ × ℕ)} {claimed : Option ℕ} {db db' : Database}
      → Transactions begun log reads db
      → Transaction reads claimed db db'
      → Transactions begun (logged claimed log) reads db'

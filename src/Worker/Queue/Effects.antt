-- ===== src/Worker/Queue/Effects.antt =====
-- What a transaction does to the datasets and their versions.
use osaip.Base.{
  ℕ, suc, ◌≡◌, refl, sym, ap, ◌∙◌, true, false, Option, none, some, List, [], ◌∷◌, keep, ltb, ◌==◌,
  if◌then◌else◌, Bool-cases, Option-cases, inl, inr, arith,
}
use mathlib.Core.Option.{some-injective}
use osaip.Api.Propagation.{Dataset as Labels}
use osaip.Worker.Queue.{
  JobStatus, Job, Dataset, Database, max_attempts, update_where, job_of, is_running, claim,
  claim_found, oldest_queued, heartbeat, is_stale, sweep, sweep_each, sweep_one, cancel_job,
  cancel_found, in_project, finalize_job, finalize_found,
}
use osaip.Worker.Queue.Commit.{
  BuildResult, dataset_version, flip, flip_row, start_step, fail_step, skip_step,
}
use osaip.Worker.Queue.Flips.{MayFlip, commit_version-cases}
use osaip.Worker.Queue.Transactions.{
  Transaction, claims, beats, sweeps, cancels, starts, fails, skips, commits, finalizes, has_read,
}

pub data Effect (reads : List (ℕ × ℕ)) (db db' : Database) : Type 0 where
  none_changed : db'.datasets ≡ db.datasets → db'.versions ≡ db.versions → Effect reads db db'
  one_flipped :
      (b : BuildResult) (now was : ℕ)
      → has_read reads b.target_id was ≡ true
      → b.next_version ≡ suc was
      → MayFlip b db
      → db' ≡ flip b now db
      → Effect reads db db'

unfoldable pub changed_version : ℕ → ℕ → ℕ → Option ℕ → Option ℕ
changed_version target k n none = none
changed_version target k n (some c) = some (if target == k then n else c)

pub dataset_version-flip :
    (k : ℕ) (b : BuildResult) (inputs : List Labels) (ds : List Dataset)
    → dataset_version k (update_where (λ (d : Dataset). d.id == b.target_id) (flip_row b inputs) ds)
      ≡ changed_version b.target_id k b.next_version (dataset_version k ds)
unfolding flip_row changed_version
dataset_version-flip k b inputs [] = refl
dataset_version-flip k b inputs (d ∷ ds) = elim (Bool-cases (d.id == b.target_id)) [
  | inl hit ↦ elim (Bool-cases (d.id == k)) [
    | inl here ↦
        let both : (b.target_id == k) ≡ true = ground (arith, hit, here) in
        rw (hit, here, both) refl
    | inr there ↦ rw (hit, there) (dataset_version-flip k b inputs ds)
  ]
  | inr miss ↦ elim (Bool-cases (d.id == k)) [
    | inl here ↦
        let apart : (b.target_id == k) ≡ false = ground (arith, miss, here) in
        rw (miss, here, apart) refl
    | inr there ↦ rw (miss, there) (dataset_version-flip k b inputs ds)
  ]
]

sweep_each-versions :
    (now : ℕ) (db : Database) (stale : List Job)
    → ((sweep_each now db stale).datasets ≡ db.datasets)
      × ((sweep_each now db stale).versions ≡ db.versions)
unfolding sweep_each sweep_one
sweep_each-versions now db [] = (refl, refl)
sweep_each-versions now db (i ∷ rest) =
    let (ds, vs) = sweep_each-versions now (sweep_one now db i) rest in
    elim (Bool-cases (ltb max_attempts (suc i.attempts))) [
      | inl over ↦ (ds ∙ rw over refl, vs ∙ rw over refl)
      | inr under ↦ (ds ∙ rw under refl, vs ∙ rw under refl)
    ]

cancel_found-versions :
    (now : ℕ) (db db' : Database) (o : Option Job)
    → cancel_found now db o ≡ some db'
    → (db'.datasets ≡ db.datasets) × (db'.versions ≡ db.versions)
unfolding cancel_found
cancel_found-versions now db db' none e = absurd (cc e)
cancel_found-versions now db db' (some j) e = (
  sym (ap (λ d. d.datasets) (some-injective _ _ e)),
  sym (ap (λ d. d.versions) (some-injective _ _ e)),
)

finalize_found-versions :
    (outcome : JobStatus) (now : ℕ) (db : Database) (o : Option Job)
    → ((finalize_found outcome now db o).datasets ≡ db.datasets)
      × ((finalize_found outcome now db o).versions ≡ db.versions)
unfolding finalize_found
finalize_found-versions outcome now db none = (refl, refl)
finalize_found-versions outcome now db (some j) = elim (Bool-cases (is_running j.status)) [
  | inl runs ↦ rw runs (refl, refl)
  | inr off ↦ rw off (refl, refl)
]

pub Transaction-Effect :
    {reads : List (ℕ × ℕ)} {c : Option ℕ} {db db' : Database}
    → Transaction reads c db db'
    → Effect reads db db'
unfolding claim claim_found heartbeat sweep cancel_job start_step fail_step skip_step finalize_job
Transaction-Effect {db} (claims worker now locked) =
    elim (Option-cases (oldest_queued locked db.jobs)) [
      | inl nobody ↦ rw nobody (none_changed refl refl)
      | inr (i, e) ↦ rw e (none_changed refl refl)
    ]
Transaction-Effect (beats id now) = none_changed refl refl
Transaction-Effect {db} (sweeps now locked) =
    let (ds, vs) = sweep_each-versions now db (keep (is_stale now locked) db.jobs) in
    none_changed ds vs
Transaction-Effect {db} (cancels {db'} project id now e) =
    let (ds, vs) = cancel_found-versions now db db' (in_project project (job_of id db.jobs)) e in
    none_changed ds vs
Transaction-Effect (starts id log_prefix now) = none_changed refl refl
Transaction-Effect (fails id error now) = none_changed refl refl
Transaction-Effect (skips id now) = none_changed refl refl
Transaction-Effect {db} (commits b now was known after) = elim (commit_version-cases b now db) [
  | inl (c, ran, other) ↦ rw ran (none_changed refl refl)
  | inr (may, ran) ↦ rw ran (one_flipped b now was known after may refl)
]
Transaction-Effect {db} (finalizes id outcome now over) =
    let (ds, vs) = finalize_found-versions outcome now db (job_of id db.jobs) in none_changed ds vs

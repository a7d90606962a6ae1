-- ===== src/Worker/Queue/Lifecycle.antt =====
-- Every order of transactions moves a job along its state machine.
use mathlib.Core.Path.{subst}
use osaip.Base.{
  ℕ, ◌≡◌, refl, sym, ap, ◌∙◌, true, ◌&&◌, Option, none, some, List, [], ◌==◌, Bool-cases,
  Option-cases, inl, inr,
}
use osaip.Worker.Queue.{
  JobStatus, Job, Database, update_where, job_of, is_queued, is_running, claim_row, claim,
  oldest_queued, beat_row, heartbeat, cancel_row, cancel_job, finish_row, finalize_job, claim_found,
  cancel_found, in_project, finalize_found,
}
use osaip.Worker.Queue.Rows.{ids, IsKeyed, ids-update_where, id-job_of}
use osaip.Worker.Queue.Transactions.{
  is_terminal, Transaction, claims, beats, sweeps, cancels, starts, fails, skips, commits,
  finalizes, logged, claims_of, Transactions, start, read, next,
}
use osaip.Worker.Queue.Commit.{start_step, fail_step, skip_step}
use osaip.Worker.Queue.Flips.{commit_version-jobs}
use osaip.Worker.Queue.Lives.{
  LivesIn, update-LivesIn, same_row, claim-LivesIn, heartbeat-LivesIn, born, asked, ended,
}
use osaip.Worker.Queue.Sweeps.{sweep-LivesIn, ids-sweep}

-- A cancellation changes the jobs like this.
pub cancel_job-jobs :
    (project id now : ℕ) (db db' : Database)
    → cancel_job project id now db ≡ some db'
    → (i : ℕ) × (db'.jobs ≡ update_where (λ (k : Job). k.id == i) (cancel_row now) db.jobs)
unfolding cancel_job cancel_found
cancel_job-jobs project id now db db' e = found (in_project project (job_of id db.jobs)) e
  where
    jobs_of : Option Database → List Job
    jobs_of none = []
    jobs_of (some d) = d.jobs

    found :
        (o : Option Job)
        → cancel_found now db o ≡ some db'
        → (i : ℕ) × (db'.jobs ≡ update_where (λ (k : Job). k.id == i) (cancel_row now) db.jobs)
    found none e = absurd (cc e)
    found (some j) e = (j.id, sym (ap (λ o. jobs_of o) e))

pub cancel_row-id : (now : ℕ) (j : Job) → (cancel_row now j).id ≡ j.id
unfolding cancel_row
cancel_row-id now j = elim (Bool-cases (is_queued j.status)) [
  | inl waits ↦ rw waits refl
  | inr other ↦ elim (Bool-cases (is_running j.status)) [
    | inl runs ↦ rw (other, runs) refl
    | inr over ↦ rw (other, over) refl
  ]
]

finalize_job-LivesIn :
    (k : ℕ) (j₀ : Job) (n : ℕ) (outcome : JobStatus) (now : ℕ) (db : Database) (id : ℕ)
    → is_terminal outcome ≡ true
    → LivesIn k j₀ n db.jobs
    → LivesIn k j₀ n (finalize_job id outcome now db).jobs
unfolding finalize_job finalize_found finish_row
finalize_job-LivesIn k j₀ n outcome now db id over lives = elim (Option-cases (job_of id db.jobs)) [
  | inl nobody ↦ rw nobody lives
  | inr (i, found) ↦ elim (Bool-cases (is_running i.status)) [
    | inl runs ↦
        rw (found, runs)
          (update-LivesIn k j₀ (λ j. j.id == i.id) (finish_row outcome now) db.jobs (λ j. refl)
            (λ j e l hit.
              let own =
                subst (λ x. job_of x db.jobs ≡ some i) (sym (id-job_of id db.jobs found)) found in
              let same = same_row k j₀ db.jobs own e hit in
              ended l (ap (λ r. is_running r.status) (sym same) ∙ runs) outcome over now)
            (λ j e l off. l) lives)
    | inr stopped ↦ rw (found, stopped) lives
  ]
]

Transaction-LivesIn :
    (k : ℕ) (j₀ : Job) {reads : List (ℕ × ℕ)} {c : Option ℕ} {db db' : Database} (log : List ℕ)
    → Transaction reads c db db'
    → IsKeyed (ids db.jobs)
    → LivesIn k j₀ (claims_of k log) db.jobs
    → LivesIn k j₀ (claims_of k (logged c log)) db'.jobs
unfolding start_step fail_step skip_step
Transaction-LivesIn k j₀ {db} log (claims worker now locked) keyed l =
    claim-LivesIn k j₀ _ worker now locked db log keyed refl l
Transaction-LivesIn k j₀ {db} log (beats id now) keyed l = heartbeat-LivesIn k j₀ _ id now db l
Transaction-LivesIn k j₀ {db} log (sweeps now locked) keyed l =
    sweep-LivesIn k j₀ _ now locked db keyed l
Transaction-LivesIn k j₀ {db} log (cancels {db'} project id now e) keyed l =
    let (i, jobs) = cancel_job-jobs project id now db db' e in
    subst (LivesIn k j₀ (claims_of k log)) (sym jobs) (
      update-LivesIn k j₀ (λ j. j.id == i) (cancel_row now) db.jobs (cancel_row-id now)
        (λ j f l hit. asked l now) (λ j f l off. l) l)
Transaction-LivesIn k j₀ log (starts id log_prefix now) keyed l = l
Transaction-LivesIn k j₀ log (fails id error now) keyed l = l
Transaction-LivesIn k j₀ log (skips id now) keyed l = l
Transaction-LivesIn k j₀ {db} log (commits b now was known after) keyed l =
    subst (LivesIn k j₀ (claims_of k log)) (sym (commit_version-jobs b now db)) l
Transaction-LivesIn k j₀ {db} log (finalizes id outcome now over) keyed l =
    finalize_job-LivesIn k j₀ _ outcome now db id over l

Transaction-ids :
    {reads : List (ℕ × ℕ)} {c : Option ℕ} {db db' : Database}
    → Transaction reads c db db'
    → ids db'.jobs ≡ ids db.jobs
unfolding claim claim_found claim_row heartbeat beat_row start_step fail_step skip_step finalize_job
    finalize_found finish_row
Transaction-ids {db} (claims worker now locked) =
    elim (Option-cases (oldest_queued locked db.jobs)) [
      | inl nobody ↦ rw nobody refl
      | inr (i, e) ↦
          rw e (ids-update_where (λ j. j.id == i.id) (claim_row worker now) (λ j. refl) db.jobs)
    ]
Transaction-ids {db} (beats id now) =
    ids-update_where (λ j. j.id == id && is_running j.status) (beat_row now) (λ j. refl) db.jobs
Transaction-ids {db} (sweeps now locked) = ids-sweep now locked db
Transaction-ids {db} (cancels {db'} project id now e) =
    let (i, jobs) = cancel_job-jobs project id now db db' e in
    ap ids jobs ∙ ids-update_where (λ j. j.id == i) (cancel_row now) (cancel_row-id now) db.jobs
Transaction-ids (starts id log_prefix now) = refl
Transaction-ids (fails id error now) = refl
Transaction-ids (skips id now) = refl
Transaction-ids {db} (commits b now was known after) = ap ids (commit_version-jobs b now db)
Transaction-ids {db} (finalizes id outcome now over) = elim (Option-cases (job_of id db.jobs)) [
  | inl nobody ↦ rw nobody refl
  | inr (i, found) ↦ elim (Bool-cases (is_running i.status)) [
    | inl runs ↦
        rw (found, runs)
          (ids-update_where (λ j. j.id == i.id) (finish_row outcome now) (λ j. refl) db.jobs)
    | inr stopped ↦ rw (found, stopped) refl
  ]
]

Transactions-IsKeyed :
    {begun db : Database} {log : List ℕ} {reads : List (ℕ × ℕ)}
    → Transactions begun log reads db
    → IsKeyed (ids begun.jobs)
    → IsKeyed (ids db.jobs)
Transactions-IsKeyed start keyed = keyed
Transactions-IsKeyed (read t dataset e) keyed = Transactions-IsKeyed t keyed
Transactions-IsKeyed (next t moves) keyed =
    subst IsKeyed (sym (Transaction-ids moves)) (Transactions-IsKeyed t keyed)

-- Whatever the order of the transactions, a job's row has become what the state machine of a job
-- allows, with one claim in it for each time that a worker claimed the job.
pub Transactions-LivesIn :
    {begun db : Database} {log : List ℕ} {reads : List (ℕ × ℕ)}
    → IsKeyed (ids begun.jobs)
    → Transactions begun log reads db
    → (k : ℕ) {j : Job} → job_of k begun.jobs ≡ some j
    → LivesIn k j (claims_of k log) db.jobs
unfolding LivesIn claims_of
Transactions-LivesIn keyed start k {j} e = (j, e, born)
Transactions-LivesIn keyed (read t dataset seen) k e = Transactions-LivesIn keyed t k e
Transactions-LivesIn keyed (next {log} t moves) k {j} e =
    Transaction-LivesIn k j log moves (Transactions-IsKeyed t keyed)
      (Transactions-LivesIn keyed t k e)

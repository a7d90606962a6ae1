-- ===== src/Worker/Queue/Outcomes.antt =====
-- What holds of a job after any transactions.
use mathlib.Core.Path.{subst}
use osaip.Base.{
  ℕ, ◌≤◌, ◌≡◌, ◌≢◌, ◌⊎◌, refl, sym, ap, ◌∙◌, true, false, Option, none, some, List, [], ◌==◌,
  Bool-cases, Option-cases, inl, inr, arith, ==_refl,
}
use osaip.Worker.Queue.{
  JobStatus, Job, Database, job_of, is_queued, is_running, cancel_row, cancel_job, cancel_found,
  in_project,
}
use osaip.Worker.Queue.Rows.{ids, IsKeyed, job_of-update_where}
use osaip.Worker.Queue.Commit.{BuildResult, flipped, commit_version}
use osaip.Worker.Queue.Flips.{commit_version-cases}
use osaip.Worker.Queue.Transactions.{is_terminal, claims_of, Transactions}
use osaip.Worker.Queue.Lives.{LivesIn}
use osaip.Worker.Queue.Lifecycle.{Transactions-LivesIn, cancel_row-id}
use osaip.Worker.Queue.Ends.{
  over-active, Lives-over, Lives-claims_left, claims_left-4, Lives-cancel_requested,
}

-- A job that has ended stays as it is, and is not claimed again, whatever the transactions after.
pub ended_job-stays :
    {begun db : Database} {log : List ℕ} {reads : List (ℕ × ℕ)}
    → IsKeyed (ids begun.jobs)
    → Transactions begun log reads db
    → (k : ℕ) {j : Job} → job_of k begun.jobs ≡ some j
    → is_terminal j.status ≡ true
    → (job_of k db.jobs ≡ some j) × (claims_of k log ≡ 0)
unfolding LivesIn
ended_job-stays keyed t k e over =
    let (now, at, l) = Transactions-LivesIn keyed t k e in
    let (none_claimed, same) = Lives-over l over in (at ∙ ap some same, none_claimed)

-- A job is claimed at most four times, whatever the transactions: once, and three times after
-- the sweeper has put it back.
pub claims-le_4 :
    {begun db : Database} {log : List ℕ} {reads : List (ℕ × ℕ)}
    → IsKeyed (ids begun.jobs)
    → Transactions begun log reads db
    → (k : ℕ) {j : Job} → job_of k begun.jobs ≡ some j
    → claims_of k log ≤ 4
unfolding LivesIn
claims-le_4 keyed t k {j} e =
    let (now, at, l) = Transactions-LivesIn keyed t k e in
    omega (arith, Lives-claims_left l, claims_left-4 j.status j.attempts)

jobs_or_none : Option Database → List Job
jobs_or_none none = []
jobs_or_none (some db) = db.jobs

cancel_row-stops :
    (now : ℕ) (j : Job)
    → ((cancel_row now j).cancel_requested ≡ true) ⊎ (is_terminal (cancel_row now j).status ≡ true)
unfolding cancel_row
cancel_row-stops now j = elim (Bool-cases (is_queued j.status)) [
  | inl waits ↦ inl (rw waits refl)
  | inr other ↦ elim (Bool-cases (is_running j.status)) [
    | inl runs ↦ inl (rw (other, runs) refl)
    | inr off ↦ inr (rw (other, off) (inactive-over j.status other off))
  ]
]
  where
    inactive-over :
        (s : JobStatus) → is_queued s ≡ false → is_running s ≡ false → is_terminal s ≡ true
    inactive-over JobStatus.queued q r = absurd (cc q)
    inactive-over JobStatus.running q r = absurd (cc r)
    inactive-over JobStatus.succeeded q r = refl
    inactive-over JobStatus.failed q r = refl
    inactive-over JobStatus.cancelled q r = refl

-- After a cancellation the job is asked to stop, or it has ended.
cancel_job-row :
    (project id now : ℕ) (db db' : Database)
    → cancel_job project id now db ≡ some db'
    → (j : Job) × (job_of id db'.jobs ≡ some j)
      × ((j.cancel_requested ≡ true) ⊎ (is_terminal j.status ≡ true))
unfolding cancel_job cancel_found in_project jobs_or_none
cancel_job-row project id now db db' e = elim (Option-cases (job_of id db.jobs)) [
  | inl nobody ↦ absurd (cc (rw nobody at e))
  | inr (j, found) ↦ elim (Bool-cases (j.project_id == project)) [
    | inr other ↦ absurd (cc (rw (found, other) at e))
    | inl owned ↦
        let jobs = ap jobs_or_none (sym (rw (found, owned) at e)) in
        (
          cancel_row now j,
          ap (job_of id) jobs
              ∙ job_of-update_where (λ k. k.id == j.id) (cancel_row now) (cancel_row-id now) id
                  db.jobs
              ∙ rw (found, ==_refl j.id) refl,
          cancel_row-stops now j,
        )
  ]
]

-- Once a job is cancelled, no run of it commits a version any more, whatever the transactions after
-- the cancellation: a commit changes nothing.
pub cancelled_job-commits_nothing :
    (project id now : ℕ) (db db' : Database) {db'' : Database} {log : List ℕ} {reads : List (ℕ × ℕ)}
    → cancel_job project id now db ≡ some db'
    → IsKeyed (ids db'.jobs)
    → Transactions db' log reads db''
    → (b : BuildResult) (later : ℕ) → b.job_id ≡ id
    → ((commit_version b later db'').0 ≢ flipped) × ((commit_version b later db'').1 ≡ db'')
unfolding LivesIn
cancelled_job-commits_nothing project id now db db' {db''} e keyed t b later of =
    elim (commit_version-cases b later db'') [
      | inl (c, ran, other) ↦ rw ran (other, refl)
      | inr (may, ran) ↦
          let (j, at, why) = cancel_job-row project id now db db' e in
          let (then_, found, l) = Transactions-LivesIn keyed t id at in
          let mine : may.job ≡ then_ =
            cc (may.job_found, subst (λ i. job_of i db''.jobs ≡ some then_) (sym of) found) in
          absurd (elim why [
            | inl stop ↦ cc (
              may.wanted,
              subst (λ r. r.cancel_requested ≡ true) (sym mine) (Lives-cancel_requested l stop),
            )
            | inr over ↦ cc (
              may.runs,
              (over-active may.job.status (
                  subst (λ r. is_terminal r.status ≡ true) (sym ((Lives-over l over).1) ∙ sym mine)
                    over)).1,
            )
          ])
    ]

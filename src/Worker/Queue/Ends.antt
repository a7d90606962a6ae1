-- ===== src/Worker/Queue/Ends.antt =====
-- What the state machine of a job allows: its end is final, its claims are few, and a request to
-- stop is not taken back.
use mathlib.Core.Path.{subst}
use osaip.Base.{
  ℕ, suc, ◌+◌, ◌-◌, ◌≤◌, ◌≡◌, ◌⊎◌, refl, sym, ◌∙◌, true, false, Bool-cases, inl, inr, arith,
}
use osaip.Worker.Queue.{
  JobStatus, Job, max_attempts, is_queued, is_running, claim_row, beat_row, poison_row, requeue_row,
  cancel_row, finish_row,
}
use osaip.Worker.Queue.Transactions.{is_terminal}
use osaip.Worker.Queue.Lives.{Lives, born, claimed, beaten, requeued, poisoned, asked, ended}

pub over-active :
    (s : JobStatus) → is_terminal s ≡ true → (is_queued s ≡ false) × (is_running s ≡ false)
over-active JobStatus.queued h = absurd (cc h)
over-active JobStatus.running h = absurd (cc h)
over-active JobStatus.succeeded h = (refl, refl)
over-active JobStatus.failed h = (refl, refl)
over-active JobStatus.cancelled h = (refl, refl)

not_over :
    {j₀ j : Job} {n : ℕ}
    → (n ≡ 0) × (j ≡ j₀)
    → is_terminal j₀.status ≡ true
    → (is_queued j.status ≡ true) ⊎ (is_running j.status ≡ true)
    → ⊥
not_over {j₀} {j} (n, e) h active =
    let off = over-active j.status (subst (λ r. is_terminal r.status ≡ true) (sym e) h) in
    elim active [ inl waits ↦ cc (waits, off.0) | inr runs ↦ cc (runs, off.1) ]

cancel_row-over : (now : ℕ) (j : Job) → is_terminal j.status ≡ true → cancel_row now j ≡ j
unfolding cancel_row
cancel_row-over now j h = let off = over-active j.status h in rw (off.0, off.1) refl

-- The end of a life.
pub Lives-over :
    {j₀ j : Job} {n : ℕ} → Lives j₀ n j → is_terminal j₀.status ≡ true → (n ≡ 0) × (j ≡ j₀)
unfolding cancel_row
Lives-over born h = (refl, refl)
Lives-over {j₀} (claimed {j} l waits worker now) h =
    absurd (not_over (Lives-over l h) h (inl waits))
Lives-over {j₀} (beaten {j} l runs now) h = absurd (not_over (Lives-over l h) h (inr runs))
Lives-over {j₀} (requeued {j} l runs few) h = absurd (not_over (Lives-over l h) h (inr runs))
Lives-over {j₀} (poisoned {j} l runs many now) h = absurd (not_over (Lives-over l h) h (inr runs))
Lives-over {j₀} (asked {j} l now) h =
    let (n, e) = Lives-over l h in
    (n, cancel_row-over now j (subst (λ r. is_terminal r.status ≡ true) (sym e) h) ∙ e)
Lives-over {j₀} (ended {j} l runs outcome over now) h =
    absurd (not_over (Lives-over l h) h (inr runs))

-- How often a worker may still claim a job.
pub claims_left : JobStatus → ℕ → ℕ
claims_left JobStatus.queued attempts = suc (max_attempts - attempts)
claims_left JobStatus.running attempts = max_attempts - attempts
claims_left _ attempts = 0

claims_left-queued :
    (s : JobStatus) (a : ℕ) → is_queued s ≡ true → claims_left s a ≡ suc (max_attempts - a)
unfolding claims_left
claims_left-queued JobStatus.queued a h = refl
claims_left-queued JobStatus.running a h = absurd (cc h)
claims_left-queued JobStatus.succeeded a h = absurd (cc h)
claims_left-queued JobStatus.failed a h = absurd (cc h)
claims_left-queued JobStatus.cancelled a h = absurd (cc h)

claims_left-running :
    (s : JobStatus) (a : ℕ) → is_running s ≡ true → claims_left s a ≡ max_attempts - a
unfolding claims_left
claims_left-running JobStatus.queued a h = absurd (cc h)
claims_left-running JobStatus.running a h = refl
claims_left-running JobStatus.succeeded a h = absurd (cc h)
claims_left-running JobStatus.failed a h = absurd (cc h)
claims_left-running JobStatus.cancelled a h = absurd (cc h)

claims_left-over : (s : JobStatus) (a : ℕ) → is_terminal s ≡ true → claims_left s a ≡ 0
unfolding claims_left
claims_left-over JobStatus.queued a h = absurd (cc h)
claims_left-over JobStatus.running a h = absurd (cc h)
claims_left-over JobStatus.succeeded a h = refl
claims_left-over JobStatus.failed a h = refl
claims_left-over JobStatus.cancelled a h = refl

cancel_row-claims_left :
    (now : ℕ) (j : Job)
    → claims_left (cancel_row now j).status (cancel_row now j).attempts
      ≤ claims_left j.status j.attempts
unfolding cancel_row claims_left
cancel_row-claims_left now j = elim (Bool-cases (is_queued j.status)) [
  | inl waits ↦ rw (waits) (omega arith)
  | inr other ↦ elim (Bool-cases (is_running j.status)) [
    | inl runs ↦ rw (other, runs) (omega arith)
    | inr over ↦ rw (other, over) (omega arith)
  ]
]

pub claims_left-4 : (s : JobStatus) (a : ℕ) → claims_left s a ≤ suc max_attempts
unfolding claims_left
claims_left-4 JobStatus.queued a = omega arith
claims_left-4 JobStatus.running a = omega arith
claims_left-4 JobStatus.succeeded a = omega arith
claims_left-4 JobStatus.failed a = omega arith
claims_left-4 JobStatus.cancelled a = omega arith

pub Lives-claims_left :
    {j₀ j : Job} {n : ℕ}
    → Lives j₀ n j
    → n + claims_left j.status j.attempts ≤ claims_left j₀.status j₀.attempts
unfolding claims_left claim_row beat_row requeue_row poison_row finish_row
Lives-claims_left born = omega arith
Lives-claims_left (claimed {j} l waits worker now) =
    omega (arith, claims_left-queued j.status j.attempts waits, Lives-claims_left l)
Lives-claims_left (beaten l runs now) = Lives-claims_left l
Lives-claims_left (requeued {j} l runs few) =
    omega (arith, few, claims_left-running j.status j.attempts runs, Lives-claims_left l)
Lives-claims_left (poisoned {j} l runs many now) = omega (arith, Lives-claims_left l)
Lives-claims_left (asked {j} l now) =
    omega (arith, Lives-claims_left l, cancel_row-claims_left now j)
Lives-claims_left (ended {j} l runs outcome over now) =
    omega (arith, Lives-claims_left l, claims_left-over outcome j.attempts over)

pub Lives-cancel_requested :
    {j₀ j : Job} {n : ℕ} → Lives j₀ n j → j₀.cancel_requested ≡ true → j.cancel_requested ≡ true
unfolding claim_row beat_row requeue_row poison_row finish_row cancel_row
Lives-cancel_requested born h = h
Lives-cancel_requested (claimed l waits worker now) h = Lives-cancel_requested l h
Lives-cancel_requested (beaten l runs now) h = Lives-cancel_requested l h
Lives-cancel_requested (requeued l runs few) h = Lives-cancel_requested l h
Lives-cancel_requested (poisoned l runs many now) h = Lives-cancel_requested l h
Lives-cancel_requested (asked {j} l now) h = elim (Bool-cases (is_queued j.status)) [
  | inl waits ↦ rw waits refl
  | inr other ↦ elim (Bool-cases (is_running j.status)) [
    | inl runs ↦ rw (other, runs) refl
    | inr over ↦ rw (other, over) (Lives-cancel_requested l h)
  ]
]
Lives-cancel_requested (ended l runs outcome over now) h = Lives-cancel_requested l h

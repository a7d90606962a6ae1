-- ===== src/Worker/Queue/Sweeps.antt =====
-- The sweep moves each stale job along the state machine.
use mathlib.Core.Path.{subst}
use osaip.Base.{
  ℕ, suc, ◌≤◌, ◌<◌, ◌≡◌, refl, sym, ap, ◌∙◌, Bool, true, false, some, List, [], ◌∷◌, keep, ltb,
  ◌==◌, All, Bool-cases, inl, inr, arith,
}
use osaip.Worker.Queue.{
  Job, Database, max_attempts, update_where, job_of, is_running, is_stale, poison_row, requeue_row,
  sweep_one, sweep_each, sweep,
}
use osaip.Worker.Queue.Rows.{
  ids, IsKeyed, ids-update_where, job_of-update_where, rows-job_of, keep-IsKeyed,
}
use osaip.Worker.Queue.Lives.{LivesIn, update-LivesIn, same_row, requeued, poisoned}

module _ (k : ℕ) (j₀ : Job) where
  sweep_one-LivesIn :
      (n : ℕ) (now : ℕ) (db : Database) (i : Job)
      → job_of i.id db.jobs ≡ some i
      → is_running i.status ≡ true
      → LivesIn k j₀ n db.jobs
      → LivesIn k j₀ n (sweep_one now db i).jobs
  unfolding sweep_one poison_row requeue_row
  sweep_one-LivesIn n now db i at runs lives =
      elim (Bool-cases (ltb max_attempts (suc i.attempts))) [
        | inl over ↦ rw over (
            update-LivesIn k j₀ (λ j. j.id == i.id) (poison_row now) db.jobs (λ j. refl)
              (λ j e l hit.
                let same = same_row k j₀ db.jobs at e hit in
                poisoned l (ap (λ r. is_running r.status) (sym same) ∙ runs)
                  (subst (λ r. max_attempts ≤ r.attempts) same (ground (arith, over))) now)
              (λ j e l off. l) lives)
        | inr under ↦ rw under (
            update-LivesIn k j₀ (λ j. j.id == i.id) requeue_row db.jobs (λ j. refl)
              (λ j e l hit.
                let same = same_row k j₀ db.jobs at e hit in
                requeued l (ap (λ r. is_running r.status) (sym same) ∙ runs)
                  (subst (λ r. r.attempts < max_attempts) same (ground (arith, under))))
              (λ j e l off. l) lives)
      ]

-- The other stale rows stay for the rounds after.
sweep_one-others :
    (now : ℕ) (db : Database) (i : Job) (rest : List Job)
    → All (λ r. (i.id == r) ≡ false) (ids rest)
    → All (λ s. (job_of s.id db.jobs ≡ some s) × (is_running s.status ≡ true)) rest
    → All
        (λ s. (job_of s.id (sweep_one now db i).jobs ≡ some s) × (is_running s.status ≡ true))
        rest
unfolding sweep_one poison_row requeue_row
sweep_one-others now db i [] other h = tt
sweep_one-others now db i (s ∷ rest) other h = (
  (
    elim (Bool-cases (ltb max_attempts (suc i.attempts))) [
      | inl over ↦ rw over (stays (poison_row now) (λ j. refl))
      | inr under ↦ rw under (stays requeue_row (λ j. refl))
    ],
    h.0.1,
  ),
  sweep_one-others now db i rest (other.1) (h.1),
)
  where
    apart : (s.id == i.id) ≡ false
    apart = ground (arith, other.0)

    stays :
        (f : Job → Job)
        → ((j : Job) → (f j).id ≡ j.id)
        → job_of s.id (update_where (λ (j : Job). j.id == i.id) f db.jobs) ≡ some s
    stays f same =
        job_of-update_where (λ j. j.id == i.id) f same s.id db.jobs ∙ rw (h.0.0, apart) refl

sweep_each-LivesIn :
    (k : ℕ) (j₀ : Job) (n now : ℕ) (db : Database) (stale : List Job)
    → IsKeyed (ids stale)
    → All (λ s. (job_of s.id db.jobs ≡ some s) × (is_running s.status ≡ true)) stale
    → LivesIn k j₀ n db.jobs
    → LivesIn k j₀ n (sweep_each now db stale).jobs
unfolding sweep_each IsKeyed
sweep_each-LivesIn k j₀ n now db [] keyed h lives = lives
sweep_each-LivesIn k j₀ n now db (i ∷ rest) keyed h lives =
    sweep_each-LivesIn k j₀ n now (sweep_one now db i) rest (keyed.1)
      (sweep_one-others now db i rest (keyed.0) (h.1))
      (sweep_one-LivesIn k j₀ n now db i (h.0.0) (h.0.1) lives)

pub sweep-LivesIn :
    (k : ℕ) (j₀ : Job) (n now : ℕ) (locked : ℕ → Bool) (db : Database)
    → IsKeyed (ids db.jobs)
    → LivesIn k j₀ n db.jobs
    → LivesIn k j₀ n (sweep now locked db).jobs
unfolding sweep is_stale
sweep-LivesIn k j₀ n now locked db keyed lives =
    sweep_each-LivesIn k j₀ n now db (keep (is_stale now locked) db.jobs)
      (keep-IsKeyed (is_stale now locked) db.jobs keyed)
      (stale-rows db.jobs (rows-job_of db.jobs keyed)) lives
  where
    stale-rows :
        (js : List Job)
        → All (λ s. job_of s.id db.jobs ≡ some s) js
        → All
            (λ s. (job_of s.id db.jobs ≡ some s) × (is_running s.status ≡ true))
            (keep (is_stale now locked) js)
    stale-rows [] h = tt
    stale-rows (j ∷ js) h = elim (Bool-cases (is_stale now locked j)) [
      | inl late ↦ rw (late, All) ((h.0, ground (arith, late)), stale-rows js (h.1))
      | inr fine ↦ rw fine (stale-rows js (h.1))
    ]

ids-sweep_each :
    (now : ℕ) (db : Database) (stale : List Job) → ids (sweep_each now db stale).jobs ≡ ids db.jobs
unfolding sweep_each sweep_one poison_row requeue_row
ids-sweep_each now db [] = refl
ids-sweep_each now db (i ∷ rest) = ids-sweep_each now (sweep_one now db i) rest ∙ one
  where
    one : ids (sweep_one now db i).jobs ≡ ids db.jobs
    one = elim (Bool-cases (ltb max_attempts (suc i.attempts))) [
      | inl over ↦
          rw over
            (ids-update_where (λ (j : Job). j.id == i.id) (poison_row now) (λ j. refl) db.jobs)
      | inr under ↦
          rw under (ids-update_where (λ (j : Job). j.id == i.id) requeue_row (λ j. refl) db.jobs)
    ]

pub ids-sweep :
    (now : ℕ) (locked : ℕ → Bool) (db : Database) → ids (sweep now locked db).jobs ≡ ids db.jobs
unfolding sweep
ids-sweep now locked db = ids-sweep_each now db (keep (is_stale now locked) db.jobs)

-- ===== src/Worker/Queue/Rows.antt =====
-- How an update changes the row of a job.
use osaip.Base.{
  ℕ, ◌≡◌, refl, sym, ◌∙◌, ap, Bool, false, Option, none, some, List, [], ◌∷◌, keep, ◌==◌,
  if◌then◌else◌, All, Bool-cases, ==_iff, ==_refl, inl, inr,
}
use osaip.Worker.Queue.{Job, update_where, job_of}

abbrev pub ids : List Job → List ℕ
ids [] = []
ids (j ∷ js) = j.id ∷ ids js

-- No two rows have one id.
unfoldable pub IsKeyed : List ℕ → Type 0
IsKeyed [] = Unit
IsKeyed (i ∷ is) = All (λ k. (i == k) ≡ false) is × IsKeyed is

abbrev pub changed : (Job → Bool) → (Job → Job) → Option Job → Option Job
changed test f none = none
changed test f (some j) = some (if test j then f j else j)

module _ (test : Job → Bool) (f : Job → Job) (same : (j : Job) → (f j).id ≡ j.id) where
  job_id-changed : (j : Job) → (if test j then f j else j).id ≡ j.id
  job_id-changed j = elim (Bool-cases (test j)) [
    | inl hit ↦ rw hit (same j)
    | inr miss ↦ rw miss refl
  ]

  pub ids-update_where : (js : List Job) → ids (update_where test f js) ≡ ids js
  ids-update_where [] = refl
  ids-update_where (j ∷ js) = rw (job_id-changed j, ids-update_where js) refl

  pub job_of-update_where :
      (k : ℕ) (js : List Job) → job_of k (update_where test f js) ≡ changed test f (job_of k js)
  job_of-update_where k [] = refl
  job_of-update_where k (j ∷ js) = rw (job_id-changed j) (elim (Bool-cases (j.id == k)) [
    | inl here ↦ rw here refl
    | inr there ↦ rw there (job_of-update_where k js)
  ])

-- The row of an id has that id.
pub id-job_of : (k : ℕ) (js : List Job) {j : Job} → job_of k js ≡ some j → j.id ≡ k
id-job_of k [] {j} e = absurd (cc e)
id-job_of k (i ∷ js) {j} e = elim (Bool-cases (i.id == k)) [
  | inl here ↦
      let same : i ≡ j = cc (rw here at e) in sym (ap (λ r. r.id) same) ∙ (==_iff i.id k).0 here
  | inr there ↦ id-job_of k js (rw there at e)
]

-- Each row is the row of its id.
pub rows-job_of : (js : List Job) → IsKeyed (ids js) → All (λ j. job_of j.id js ≡ some j) js
unfolding IsKeyed
rows-job_of [] keyed = tt
rows-job_of (j ∷ js) keyed =
    (rw (==_refl j.id) refl, behind js (keyed.0) (rows-job_of js (keyed.1)))
  where
    behind :
        (is : List Job)
        → All (λ k. (j.id == k) ≡ false) (ids is)
        → All (λ i. job_of i.id js ≡ some i) is
        → All (λ i. job_of i.id (j ∷ js) ≡ some i) is
    behind [] other h = tt
    behind (i ∷ is) other h = (rw (other.0) (h.0), behind is (other.1) (h.1))

pub All-kept :
    {A : Type 0} (P : A → Type 0) (test : A → Bool) (xs : List A) → All P xs → All P (keep test xs)
All-kept P test [] h = tt
All-kept P test (x ∷ xs) h = elim (Bool-cases (test x)) [
  | inl passes ↦ rw (passes, All) (h.0, All-kept P test xs (h.1))
  | inr fails ↦ rw fails (All-kept P test xs (h.1))
]

pub keep-IsKeyed :
    (test : Job → Bool) (js : List Job) → IsKeyed (ids js) → IsKeyed (ids (keep test js))
unfolding IsKeyed
keep-IsKeyed test [] keyed = tt
keep-IsKeyed test (j ∷ js) keyed = elim (Bool-cases (test j)) [
  | inl passes ↦ rw (passes, ids, IsKeyed) (others js (keyed.0), keep-IsKeyed test js (keyed.1))
  | inr fails ↦ rw fails (keep-IsKeyed test js (keyed.1))
]
  where
    others :
        (is : List Job)
        → All (λ k. (j.id == k) ≡ false) (ids is)
        → All (λ k. (j.id == k) ≡ false) (ids (keep test is))
    others [] h = tt
    others (i ∷ is) h = elim (Bool-cases (test i)) [
      | inl passes ↦ rw (passes, ids, All) (h.0, others is (h.1))
      | inr fails ↦ rw fails (others is (h.1))
    ]

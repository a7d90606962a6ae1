-- ===== src/Worker/Queue/Lives.antt =====
-- The state machine of a job, and the claim and the heartbeat as moves of it.
use mathlib.Core.Path.{subst}
use osaip.Base.{
  ℕ, suc, ◌≤◌, ◌<◌, ◌≡◌, refl, sym, ap, ◌∙◌, String, Bool, true, false, not, ◌&&◌, Option, none,
  some, List, [], ◌∷◌, ltb, ◌==◌, All, Bool-cases, Option-cases, ==_iff, inl, inr, arith,
}
use osaip.Worker.Queue.{
  JobStatus, Job, Database, max_attempts, update_where, job_of, is_queued, is_running, claim_row,
  claim, older, oldest_queued, beat_row, heartbeat, poison_row, requeue_row, cancel_row, finish_row,
  claim_found,
}
use osaip.Worker.Queue.Rows.{ids, IsKeyed, job_of-update_where, id-job_of, rows-job_of}
use osaip.Worker.Queue.Transactions.{is_terminal, logged, claims_of}

-- What can become of a job, with how often it was claimed.
pub data Lives (j₀ : Job) : ℕ → Job → Type 0 where
  born : Lives j₀ 0 j₀
  claimed :
      {n : ℕ} {j : Job}
      → Lives j₀ n j
      → is_queued j.status ≡ true
      → (worker : String) (now : ℕ) → Lives j₀ (suc n) (claim_row worker now j)
  beaten :
      {n : ℕ} {j : Job}
      → Lives j₀ n j
      → is_running j.status ≡ true
      → (now : ℕ) → Lives j₀ n (beat_row now j)
  requeued :
      {n : ℕ} {j : Job}
      → Lives j₀ n j
      → is_running j.status ≡ true
      → j.attempts < max_attempts
      → Lives j₀ n (requeue_row j)
  poisoned :
      {n : ℕ} {j : Job}
      → Lives j₀ n j
      → is_running j.status ≡ true
      → max_attempts ≤ j.attempts
      → (now : ℕ) → Lives j₀ n (poison_row now j)
  asked : {n : ℕ} {j : Job} → Lives j₀ n j → (now : ℕ) → Lives j₀ n (cancel_row now j)
  ended :
      {n : ℕ} {j : Job}
      → Lives j₀ n j
      → is_running j.status ≡ true
      → (outcome : JobStatus) → is_terminal outcome ≡ true
      → (now : ℕ) → Lives j₀ n (finish_row outcome now j)

-- The row of a job, as it may have become of an earlier one.
unfoldable pub LivesIn : ℕ → Job → ℕ → List Job → Type 0
LivesIn k j₀ n js = (j : Job) × (job_of k js ≡ some j) × Lives j₀ n j

-- What holds of all rows, and that it is queued, holds of the oldest one that is.
module _ (P : Job → Type 0) where
  OfRow : Option Job → Type 0
  OfRow none = Unit
  OfRow (some i) = P i × (is_queued i.status ≡ true)

  older-OfRow :
      (j : Job) (rest : Option Job)
      → P j × (is_queued j.status ≡ true)
      → OfRow rest
      → OfRow (some (older j rest))
  unfolding OfRow older
  older-OfRow j none h r = h
  older-OfRow j (some i) h r = elim (Bool-cases (ltb i.created_at j.created_at)) [
    | inl first ↦ rw (first) r
    | inr later ↦ rw (later) h
  ]

  oldest_queued-OfRow :
      (locked : ℕ → Bool) (js : List Job) → All P js → OfRow (oldest_queued locked js)
  unfolding OfRow oldest_queued
  oldest_queued-OfRow locked [] h = tt
  oldest_queued-OfRow locked (j ∷ js) h =
      elim (Bool-cases (is_queued j.status && not (locked j.id))) [
        | inl waits ↦
            rw (waits, OfRow)
              (older-OfRow j (oldest_queued locked js) (h.0, ground (arith, waits))
                (oldest_queued-OfRow locked js (h.1)))
        | inr other ↦ rw other (oldest_queued-OfRow locked js (h.1))
      ]

  oldest_queued-row :
      (locked : ℕ → Bool) (js : List Job) {i : Job}
      → All P js
      → oldest_queued locked js ≡ some i
      → P i × (is_queued i.status ≡ true)
  unfolding OfRow
  oldest_queued-row locked js h e = subst OfRow e (oldest_queued-OfRow locked js h)

module _ (k : ℕ) (j₀ : Job) where
  -- A row that an update of another id leaves, or the row that it changes.
  pub update-LivesIn :
      {n m : ℕ} (test : Job → Bool) (f : Job → Job) (js : List Job)
      → ((j : Job) → (f j).id ≡ j.id)
      → ((j : Job) → job_of k js ≡ some j → Lives j₀ n j → test j ≡ true → Lives j₀ m (f j))
      → ((j : Job) → job_of k js ≡ some j → Lives j₀ n j → test j ≡ false → Lives j₀ m j)
      → LivesIn k j₀ n js
      → LivesIn k j₀ m (update_where test f js)
  unfolding LivesIn
  update-LivesIn test f js same hit miss (j, e, lives) = elim (Bool-cases (test j)) [
    | inl at ↦ (f j, job_of-update_where test f same k js ∙ rw (e, at) refl, hit j e lives at)
    | inr off ↦ (j, job_of-update_where test f same k js ∙ rw (e, off) refl, miss j e lives off)
  ]

  pub same_row :
      (js : List Job) {i j : Job}
      → job_of i.id js ≡ some i
      → job_of k js ≡ some j
      → (j.id == i.id) ≡ true
      → i ≡ j
  same_row js {i} {j} at e hit =
      let here = sym (id-job_of k js e) ∙ (==_iff j.id i.id).0 hit in
      cc (at, subst (λ x. job_of x js ≡ some j) here e)

  pub claim-LivesIn :
      (n : ℕ) (worker : String) (now : ℕ) (locked : ℕ → Bool) (db : Database) (log : List ℕ)
      → IsKeyed (ids db.jobs)
      → n ≡ claims_of k log
      → LivesIn k j₀ n db.jobs
      → LivesIn k j₀
          (claims_of k (logged ((claim worker now locked db).0) log))
          ((claim worker now locked db).1.jobs)
  unfolding claim claim_found claim_row claims_of
  claim-LivesIn n worker now locked db log keyed so_far lives =
      elim (Option-cases (oldest_queued locked db.jobs)) [
        | inl nobody ↦ rw (nobody) (subst (λ m. LivesIn k j₀ m db.jobs) so_far lives)
        | inr (i, e) ↦
            let (at, waits) =
              oldest_queued-row (λ i. job_of i.id db.jobs ≡ some i) locked db.jobs
                (rows-job_of db.jobs keyed) e in
            rw e (
              update-LivesIn (λ j. j.id == i.id) (claim_row worker now) db.jobs (λ j. refl)
                (λ j f l hit.
                  let same = same_row db.jobs at f hit in
                  let mine = ap (λ r. r.id) same ∙ id-job_of k db.jobs f in
                  subst (λ m. Lives j₀ m (claim_row worker now j))
                    (rw ((==_iff i.id k).1 mine) (omega (arith, so_far)))
                    (claimed l (ap (λ r. is_queued r.status) (sym same) ∙ waits) worker now))
                (λ j f l off.
                  subst (λ m. Lives j₀ m j) (ground (arith, so_far, off, id-job_of k db.jobs f)) l)
                lives)
      ]

  pub heartbeat-LivesIn :
      (n : ℕ) (id now : ℕ) (db : Database)
      → LivesIn k j₀ n db.jobs
      → LivesIn k j₀ n (heartbeat id now db).jobs
  unfolding heartbeat beat_row
  heartbeat-LivesIn n id now db lives =
      update-LivesIn (λ j. j.id == id && is_running j.status) (beat_row now) db.jobs (λ j. refl)
        (λ j e l at. beaten l (ground (arith, at)) now) (λ j e l off. l) lives

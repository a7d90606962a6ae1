-- ===== src/Worker/Queue/Succeeded.antt =====
-- What a run that ends its job as succeeded has written.
use osaip.Base.{
  ℕ, suc, ◌≡◌, refl, ◌∙◌, String, Bool, true, false, ◌&&◌, Option, none, some, List, [], ◌∷◌, ◌==◌,
  any_of-append, All, Bool-cases, inl, inr, arith, ==_refl, ◌⊎◌,
}
use osaip.Worker.Queue.{JobStatus, JobStep, Database, DatasetVersion}
use osaip.Worker.Queue.Commit.{
  BuildResult, Committed, flipped, cancelled, superseded, raised, start_step, flip, has_version,
  new_version,
}
use osaip.Worker.Queue.Flips.{commit_version-cases}
use osaip.Worker.Queue.Execute.{
  Build, build_failed, build_done, StepEnd, step_done, step_cancelled, step_superseded, step_failed,
  Worker, State, transact, observe, is_cancel_requested, result_of, after_commit, commit_step,
  end_build, start_build, plan_build, build_target, run_step, is_queued_step, after_step,
  choose_step, run_each,
}

-- No version is lost.
pub Keeps : Database → Database → Type 0
Keeps db db' = (d v : ℕ) → has_version d v db.versions ≡ true → has_version d v db'.versions ≡ true

-- The dataset has a version that it did not have before.
unfoldable pub Adds : ℕ → Database → Database → Type 0
Adds d db db' =
    (v : ℕ) × (has_version d v db.versions ≡ false) × (has_version d v db'.versions ≡ true)

Adds-Keeps : (d : ℕ) (a b c e : Database) → Keeps a b → Adds d b c → Keeps c e → Adds d a e
unfolding Keeps Adds
Adds-Keeps d a b c e before (v, unused, used) after = (
  v,
  elim (Bool-cases (has_version d v a.versions)) [
    | inl was ↦ absurd (cc (before d v was, unused))
    | inr new ↦ new
  ],
  after d v used,
)

flip-Keeps : (b : BuildResult) (now : ℕ) (db : Database) → Keeps db (flip b now db)
unfolding Keeps flip
flip-Keeps b now db d v was =
    any_of-append (λ (r : DatasetVersion). r.dataset_id == d && r.version == v) db.versions
      (new_version b ∷ [])
    ∙ rw was refl

flip-used :
    (b : BuildResult) (now : ℕ) (db : Database)
    → has_version b.target_id b.next_version (flip b now db).versions ≡ true
unfolding flip new_version
flip-used b now db =
    any_of-append
      (λ (r : DatasetVersion). r.dataset_id == b.target_id && r.version == b.next_version)
      db.versions (new_version b ∷ [])
    ∙ ground (arith, ==_refl b.target_id, ==_refl b.next_version)

-- What is said of a step that ends as it should.
Made : Option ℕ → Database → StepEnd → Database → Type 0
Made target db step_done db' = Keeps db db' × ((d : ℕ) × (target ≡ some d) × Adds d db db')
Made target db step_cancelled db' = Unit
Made target db step_superseded db' = Unit
Made target db (step_failed error) db' = Unit

later-Made :
    (target : Option ℕ) (a b : Database) (end : StepEnd) (c : Database)
    → Keeps a b
    → Made target b end c
    → Made target a end c
unfolding Made Keeps
later-Made target a b step_done c before (kept, (d, at, adds)) = (
  (λ d v was. kept d v (before d v was)),
  (d, at, Adds-Keeps d a b c c before adds (λ d v was. was)),
)
later-Made target a b step_cancelled c before made = tt
later-Made target a b step_superseded c before made = tt
later-Made target a b (step_failed error) c before made = tt

-- A queued step was built: its target has a version that it did not have.
unfoldable pub IsBuilt : JobStep → Database → Database → Type 0
IsBuilt step db db' =
    (is_queued_step step.status ≡ false)
    ⊎ ((d : ℕ) × (step.target_dataset_id ≡ some d) × Adds d db db')

wider-IsBuilt :
    (a b c e : Database) (step : JobStep)
    → Keeps a b
    → Keeps c e
    → IsBuilt step b c
    → IsBuilt step a e
unfolding IsBuilt
wider-IsBuilt a b c e step before after (inl other) = inl other
wider-IsBuilt a b c e step before after (inr (d, at, adds)) =
    inr (d, at, Adds-Keeps d a b c e before adds after)

wider-All :
    (a b e : Database) (steps : List JobStep)
    → Keeps a b
    → All (λ step. IsBuilt step b e) steps
    → All (λ step. IsBuilt step a e) steps
unfolding Keeps
wider-All a b e [] before h = tt
wider-All a b e (step ∷ more) before (first, rest) =
    (wider-IsBuilt a b e e step before (λ d v was. was) first, wider-All a b e more before rest)

module _ (w : Worker)
    (kept : (t : ℕ) (db : Database) (d v : ℕ)
      → has_version d v db.versions ≡ true
      → has_version d v (w.others t db).versions ≡ true) where
  commit_step-Made :
      (b : BuildResult) (s : State)
      → (let r = commit_step w b s in Made (some b.target_id) s.1 r.0 r.1.1)
  unfolding commit_step after_commit Made Keeps Adds
  commit_step-Made b (t, db) = elim (commit_version-cases b (w.clock t) (w.others t db)) [
    | inl (c, e, other) ↦ rw e (unflipped c other)
    | inr (may, e) ↦ rw e (
      (λ d v was. flip-Keeps b (w.clock t) (w.others t db) d v (kept t db d v was)),
      (
        b.target_id,
        refl,
        Adds-Keeps b.target_id db (w.others t db) (flip b (w.clock t) (w.others t db))
            (flip b (w.clock t) (w.others t db)) (kept t db)
            (b.next_version, may.unused, flip-used b (w.clock t) (w.others t db)) (λ d v was. was),
      ),
    )
  ]
    where
      unflipped :
          (c : Committed)
          → ¬ (c ≡ flipped)
          → (let r = after_commit w b.step_id c (suc t, w.others t db) in
              Made (some b.target_id) db r.0 r.1.1)
      unflipped flipped other = absurd (other refl)
      unflipped cancelled other = tt
      unflipped superseded other = tt
      unflipped raised other = tt

  observe-Keeps : (s : State) → Keeps s.1 (observe w s).1
  unfolding observe Keeps
  observe-Keeps (t, db) = kept t db

  end_build-Made :
      (job step target version : ℕ) (b : Build) (s : State)
      → (let r = end_build w job step target version b s in Made (some target) s.1 r.0 r.1.1)
  unfolding end_build result_of Made
  end_build-Made job step target version (build_failed error) s =
      elim (Bool-cases (is_cancel_requested job ((observe w s).1))) [
        | inl stops ↦ rw stops tt
        | inr fails ↦ rw fails tt
      ]
  end_build-Made job step target version
        (build_done location schema rows profile hash config inputs ids size) s =
      commit_step-Made _ s

  start_build-Made :
      (job step recipe target version : ℕ) (s : State)
      → (let r = start_build w job step recipe target version s in Made (some target) s.1 r.0 r.1.1)
  unfolding start_build Made
  start_build-Made job step recipe target version s =
      elim (Bool-cases (is_cancel_requested job ((observe w s).1))) [
        | inl stops ↦ rw stops tt
        | inr goes ↦ rw goes (
            later-Made (some target) s.1 (observe w s).1 _ _ (observe-Keeps s) (
              end_build-Made job step target version (w.build recipe target version) (observe w s)))
      ]

  build_target-Made :
      (job step recipe target : ℕ) (version : Option ℕ) (s : State)
      → (let r = build_target w job step recipe target version s in
          Made (some target) s.1 r.0 r.1.1)
  unfolding build_target plan_build Made
  build_target-Made job step recipe target none s = tt
  build_target-Made job step recipe target (some current) s = planned (w.plan recipe target)
    where
      planned :
          (p : Option String)
          → (let r = plan_build w job step recipe target (suc current) p s in
              Made (some target) s.1 r.0 r.1.1)
      planned (some error) = tt
      planned none = start_build-Made job step recipe target (suc current) s

  run_step-Made :
      (job : ℕ) (step : JobStep) (recipe target : Option ℕ) (s : State)
      → (let r = run_step w job step recipe target s in Made target s.1 r.0 r.1.1)
  unfolding run_step transact observe start_step Made Keeps
  run_step-Made job step none target s = tt
  run_step-Made job step (some recipe) none s = tt
  run_step-Made job step (some recipe) (some target) s =
      let started = transact w s (start_step step.id (w.log_prefix step.ordinal)) in
      let seen = observe w started in
      later-Made (some target) s.1 seen.1 _ _ (λ d v was. kept _ _ d v (kept _ _ d v was))
        (build_target-Made job step.id recipe target _ seen)

  Ran : List JobStep → Database → Option JobStatus × State → Type 0
  Ran steps db r = Keeps db r.1.1 × All (λ step. IsBuilt step db r.1.1) steps

  after_step-Ran :
      (step : JobStep) (more : List JobStep) (go_on : State → Option JobStatus × State)
      (db checked : Database) (end : StepEnd) (s : State)
      → Keeps db checked
      → Made step.target_dataset_id checked end s.1
      → ((go_on s).0 ≡ some JobStatus.succeeded → Ran more s.1 (go_on s))
      → (after_step w step.id go_on end s).0 ≡ some JobStatus.succeeded
      → Ran (step ∷ more) db (after_step w step.id go_on end s)
  unfolding after_step Made Ran Keeps IsBuilt
  after_step-Ran step more go_on db checked step_done s before (made, (d, at, adds)) rest e =
      let (after, built) = rest e in
      let till : Keeps db s.1 = λ d v was. made d v (before d v was) in
      (
        (λ d v was. after d v (till d v was)),
        (
          inr (d, at, Adds-Keeps d db checked s.1 (go_on s).1.1 before adds after),
          wider-All db s.1 (go_on s).1.1 more till built,
        ),
      )
  after_step-Ran step more go_on db checked step_cancelled s before made rest e = absurd (cc e)
  after_step-Ran step more go_on db checked step_superseded s before made rest e = absurd (cc e)
  after_step-Ran step more go_on db checked (step_failed error) s before made rest e = absurd (cc e)

  choose_step-Ran :
      (step : JobStep) (more : List JobStep) (db : Database) (queued stops : Bool) (checked : State)
      (passed ran : Option JobStatus × State)
      → is_queued_step step.status ≡ queued
      → (passed.0 ≡ some JobStatus.succeeded → Ran more db passed)
      → (ran.0 ≡ some JobStatus.succeeded → Ran (step ∷ more) db ran)
      → (choose_step queued stops checked passed ran).0 ≡ some JobStatus.succeeded
      → Ran (step ∷ more) db (choose_step queued stops checked passed ran)
  unfolding choose_step Ran IsBuilt
  choose_step-Ran step more db false stops checked passed ran other p r e =
      let (kept', built) = p e in (kept', (inl other, built))
  choose_step-Ran step more db true true checked passed ran queued p r e = absurd (cc e)
  choose_step-Ran step more db true false checked passed ran queued p r e = r e

  run_each-Ran :
      (job : ℕ) (steps : List JobStep) (s : State)
      → (run_each w job steps s).0 ≡ some JobStatus.succeeded
      → Ran steps s.1 (run_each w job steps s)
  unfolding run_each Ran Keeps
  run_each-Ran job [] s e = ((λ d v was. was), tt)
  run_each-Ran job (step ∷ more) s e =
      let checked = observe w s in
      let ran = run_step w job step step.recipe_id step.target_dataset_id checked in
      choose_step-Ran step more s.1 _ _ checked _ _ refl (run_each-Ran job more s)
        (after_step-Ran step more (run_each w job more) s.1 checked.1 ran.0 ran.1 (observe-Keeps s)
          (run_step-Made job step _ _ checked) (run_each-Ran job more ran.1))
        e

  -- Where no version is ever deleted by others, a run whose outcome is that the job succeeded has
  -- built every step that was queued: the target of the step has a version at the end that it did
  -- not have when the run began.
  pub run_each-IsBuilt :
      (job : ℕ) (steps : List JobStep) (s : State)
      → (run_each w job steps s).0 ≡ some JobStatus.succeeded
      → All (λ step. IsBuilt step s.1 (run_each w job steps s).1.1) steps
  unfolding Ran
  run_each-IsBuilt job steps s e = (run_each-Ran job steps s e).1

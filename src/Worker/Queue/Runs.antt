-- ===== src/Worker/Queue/Runs.antt =====
-- The runs of jobs are made of the transactions of the step relation.
mod Tests
use mathlib.Core.Path.{subst}
use osaip.Base.{
  ℕ, suc, ◌≡◌, refl, sym, ap, ◌∙◌, String, Bool, true, false, ◌||◌, ◌&&◌, Option, none, some, List,
  [], ◌∷◌, ◌==◌, any_of, if◌then◌else◌, Bool-cases, Option-cases, inl, inr, arith, ==_refl,
}
use osaip.Worker.Queue.{JobStatus, Job, JobStep, Database, job_of, is_running, finalize_job}
use osaip.Worker.Queue.Commit.{
  BuildResult, Committed, flipped, cancelled, superseded, raised, start_step, fail_step, skip_step,
  commit_version, dataset_version,
}
use osaip.Worker.Queue.Transactions.{
  Transaction, starts, fails, skips, commits, finalizes, has_read, is_terminal, logged,
  Transactions, read, next,
}
use osaip.Worker.Queue.Execute.{
  Build, build_failed, build_done, StepEnd, step_done, step_cancelled, step_superseded, step_failed,
  Worker, State, transact, observe, is_cancel_requested, result_of, after_commit, commit_step,
  end_build, start_build, plan_build, build_target, run_step, after_step, choose_step, run_each,
  end_job, execute_found, execute_job,
}

-- A database that transactions lead to, with the reads needed among those on the way.
pub record Follows (begun : Database) (need : List (ℕ × ℕ)) (db : Database) : Type 0 where
  pub log : List ℕ
  pub reads : List (ℕ × ℕ)
  pub has_needed : (d v : ℕ) → has_read need d v ≡ true → has_read reads d v ≡ true
  pub trace : Transactions begun log reads db

module _ (begun : Database) where
  pub then-Follows :
      {need : List (ℕ × ℕ)} {db db' : Database}
      → ((reads : List (ℕ × ℕ)) → Transaction reads none db db')
      → Follows begun need db
      → Follows begun need db'
  then-Follows moves f = record {
    log = f.log;
    reads = f.reads;
    has_needed = f.has_needed;
    trace = next f.trace (moves f.reads);
  }

  read-Follows :
      {need : List (ℕ × ℕ)} {db : Database} {v : ℕ} (d : ℕ)
      → dataset_version d db.datasets ≡ some v
      → Follows begun need db
      → Follows begun ((d, v) ∷ need) db
  read-Follows {need} {db} {v} d e f = record {
    log = f.log;
    reads = (d, v) ∷ f.reads;
    has_needed = λ d' v' m. elim (Bool-cases (d == d' && v == v')) [
      | inl now ↦ ground (arith, now)
      | inr before ↦ ground (arith, before, m, f.has_needed d' v')
    ];
    trace = read f.trace d e;
  }

  forget-Follows :
      {need : List (ℕ × ℕ)} {db : Database} → Follows begun need db → Follows begun [] db
  forget-Follows f = record {
    log = f.log;
    reads = f.reads;
    has_needed = λ d v m. absurd (cc m);
    trace = f.trace;
  }

  module _ (w : Worker)
      (fair : (t : ℕ) (need : List (ℕ × ℕ)) (db : Database)
        → Follows begun need db
        → Follows begun need (w.others t db)) where
    observe-Follows :
        (need : List (ℕ × ℕ)) (s : State)
        → Follows begun need (s.1)
        → Follows begun need ((observe w s).1)
    unfolding observe
    observe-Follows need (t, db) f = fair t need db f

    transact-Follows :
        (need : List (ℕ × ℕ)) (tx : ℕ → Database → Database) (s : State)
        → ((reads : List (ℕ × ℕ)) (now : ℕ) (db : Database) → Transaction reads none db (tx now db))
        → Follows begun need (s.1)
        → Follows begun need ((transact w s tx).1)
    unfolding transact
    transact-Follows need tx (t, db) moves f =
        then-Follows (λ reads. moves reads (w.clock t) (w.others t db)) (fair t need db f)

    after_commit-Follows :
        (need : List (ℕ × ℕ)) (step : ℕ) (c : Committed) (s : State)
        → Follows begun need (s.1)
        → Follows begun need ((after_commit w step c s).1.1)
    unfolding after_commit
    after_commit-Follows need step flipped s f = f
    after_commit-Follows need step cancelled s f =
        transact-Follows need (skip_step step) s (λ reads now db. skips step now) f
    after_commit-Follows need step superseded s f = f
    after_commit-Follows need step raised s f = f

    commit_step-Follows :
        (b : BuildResult) (current : ℕ) (s : State)
        → b.next_version ≡ suc current
        → Follows begun ((b.target_id, current) ∷ []) (s.1)
        → Follows begun [] ((commit_step w b s).1.1)
    unfolding commit_step
    commit_step-Follows b current (t, db) e f =
        let seen = fair t ((b.target_id, current) ∷ []) db f in
        after_commit-Follows [] b.step_id _ _ (record {
          log = seen.log;
          reads = seen.reads;
          has_needed = λ d v m. absurd (cc m);
          trace = next seen.trace (
              commits b (w.clock t) current
                (seen.has_needed b.target_id current
                  (rw (==_refl b.target_id, ==_refl current) refl))
                e);
        })

    end_build-Follows :
        (job step target current : ℕ) (b : Build) (s : State)
        → Follows begun ((target, current) ∷ []) (s.1)
        → Follows begun [] ((end_build w job step target (suc current) b s).1.1)
    unfolding end_build result_of
    end_build-Follows job step target current (build_failed error) s f =
        elim (Bool-cases (is_cancel_requested job ((observe w s).1))) [
          | inl stops ↦ rw stops (forget-Follows (observe-Follows _ s f))
          | inr fails_ ↦ rw fails_ (forget-Follows (observe-Follows _ s f))
        ]
    end_build-Follows job step target current
          (build_done location schema rows profile hash config inputs ids size) s f =
        commit_step-Follows _ current s refl f

    start_build-Follows :
        (job step recipe target current : ℕ) (s : State)
        → dataset_version target (s.1.datasets) ≡ some current
        → Follows begun [] (s.1)
        → Follows begun [] ((start_build w job step recipe target (suc current) s).1.1)
    unfolding start_build
    start_build-Follows job step recipe target current s e f =
        let checked = observe-Follows ((target, current) ∷ []) s (read-Follows target e f) in
        elim (Bool-cases (is_cancel_requested job ((observe w s).1))) [
          | inl stops ↦ rw stops (forget-Follows checked)
          | inr goes ↦ rw goes (
              end_build-Follows job step target current (w.build recipe target (suc current))
                (observe w s) checked)
        ]

    build_target-Follows :
        (job step recipe target : ℕ) (version : Option ℕ) (s : State)
        → dataset_version target (s.1.datasets) ≡ version
        → Follows begun [] (s.1)
        → Follows begun [] ((build_target w job step recipe target version s).1.1)
    unfolding build_target
    build_target-Follows job step recipe target none s e f = f
    build_target-Follows job step recipe target (some current) s e f =
        planned (w.plan recipe target)
      where
        planned :
            (p : Option String)
            → Follows begun [] ((plan_build w job step recipe target (suc current) p s).1.1)
        planned (some error) = f
        planned none = start_build-Follows job step recipe target current s e f

    run_step-Follows :
        (job : ℕ) (step : JobStep) (recipe target : Option ℕ) (s : State)
        → Follows begun [] (s.1)
        → Follows begun [] ((run_step w job step recipe target s).1.1)
    unfolding run_step
    run_step-Follows job step none target s f = f
    run_step-Follows job step (some recipe) none s f = f
    run_step-Follows job step (some recipe) (some target) s f =
        build_target-Follows job step.id recipe target _ _ refl (
          observe-Follows [] _ (
            transact-Follows [] (start_step step.id (w.log_prefix step.ordinal)) s
              (λ reads now db. starts step.id (w.log_prefix step.ordinal) now) f))

    -- A run ends a job with a status that is an end.
    IsEnd : Option JobStatus → Type 0
    IsEnd none = Unit
    IsEnd (some outcome) = is_terminal outcome ≡ true

    Ended : Option JobStatus × State → Type 0
    Ended r = IsEnd r.0 × Follows begun [] (r.1.1)

    after_step-Ended :
        (step : ℕ) (go_on : State → Option JobStatus × State) (end : StepEnd) (s : State)
        → ((s : State) → Follows begun [] (s.1) → Ended (go_on s))
        → Follows begun [] (s.1)
        → Ended (after_step w step go_on end s)
    unfolding after_step Ended IsEnd
    after_step-Ended step go_on step_done s rest f = rest s f
    after_step-Ended step go_on step_cancelled s rest f = (refl, f)
    after_step-Ended step go_on step_superseded s rest f = (tt, f)
    after_step-Ended step go_on (step_failed error) s rest f = (
      refl,
      transact-Follows [] (fail_step step error) s (λ reads now db. fails step error now) f,
    )

    choose_step-Ended :
        (queued stops : Bool) (checked : State) (passed ran : Option JobStatus × State)
        → Follows begun [] (checked.1)
        → Ended passed
        → Ended ran
        → Ended (choose_step queued stops checked passed ran)
    unfolding choose_step Ended IsEnd
    choose_step-Ended false stops checked passed ran f p r = p
    choose_step-Ended true true checked passed ran f p r = (refl, f)
    choose_step-Ended true false checked passed ran f p r = r

    run_each-Ended :
        (job : ℕ) (steps : List JobStep) (s : State)
        → Follows begun [] (s.1)
        → Ended (run_each w job steps s)
    unfolding run_each Ended IsEnd
    run_each-Ended job [] s f = (refl, f)
    run_each-Ended job (step ∷ more) s f =
        let checked = observe-Follows [] s f in
        choose_step-Ended _ _ (observe w s) _ _ checked (run_each-Ended job more s f) (
          after_step-Ended step.id (run_each w job more) _ _ (run_each-Ended job more)
            (run_step-Follows job step step.recipe_id step.target_dataset_id (observe w s) checked))

    end_job-Follows :
        (job : ℕ) (outcome : Option JobStatus) (s : State)
        → IsEnd outcome
        → Follows begun [] (s.1)
        → Follows begun [] ((end_job w job outcome s).1)
    unfolding end_job IsEnd
    end_job-Follows job none s over f = f
    end_job-Follows job (some outcome) s over f =
        transact-Follows [] (λ now. finalize_job job outcome now) s
          (λ reads now db. finalizes job outcome now over) f

    execute_found-Follows :
        (job : ℕ) (found : Option Job) (s : State)
        → Follows begun [] (s.1)
        → Follows begun [] ((execute_found w job found s).1)
    unfolding execute_found Ended
    execute_found-Follows job none s f = f
    execute_found-Follows job (some j) s f = elim (Bool-cases (is_running j.status)) [
      | inl runs ↦
          let (over, g) = run_each-Ended job _ s f in rw runs (end_job-Follows job _ _ over g)
      | inr off ↦ rw off f
    ]

-- A run of a job, whatever the engine yields, is a sequence of transactions of the step relation among
-- those of the others, where the others keep to it as well.
pub execute_job-Follows :
    (begun : Database) (w : Worker)
    → ((t : ℕ) (need : List (ℕ × ℕ)) (db : Database)
        → Follows begun need db
        → Follows begun need (w.others t db))
    → (job : ℕ) (s : State) → Follows begun [] (s.1)
    → Follows begun [] ((execute_job w job s).1)
unfolding execute_job
execute_job-Follows begun w fair job s f =
    execute_found-Follows begun w fair job _ _ (observe-Follows begun w fair [] s f)

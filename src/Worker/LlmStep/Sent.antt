-- ===== src/Worker/LlmStep/Sent.antt =====
-- How a run of a step ends, and which rows it sends.
use mathlib.Core.List.{append_assoc, append-nil}
use mathlib.Core.Path.{subst}
use osaip.Base.{
  ℕ, zero, suc, ◌+◌, ◌≤◌, ◌<◌, ◌≡◌, refl, sym, ap, ◌∙◌, String, Bool, true, false, not, none, some,
  List, [], ◌∷◌, ◌++◌, length, take, drop, keep, take-append-drop, take-append-take-drop,
  length-drop, get_key, Option-cases, ==_refl, inl, inr, arith, ◌⊎◌,
}
use osaip.Base.Worklist.{member}
use osaip.Base.Worklist.Members.{member-append}
use osaip.Worker.LlmStep.{
  RowResult, MeshAnswer, RowRun, completed, fatal, Progress, StepRun, finished, cancelled, aborted,
  load_rows, add_rows, has_row, indices_from, pending_rows, one_row, Gathered, gathered, raised,
  cons_row, with_row, gather_rows, after_batch, run_batches, run_llm_rows,
}

-- Of the rows from one on, those that are sent: each row is skipped where the checkpoint has it, and
-- is sent otherwise. All the rows are gone through, or the run has stopped before.
pub data Sends (loaded : List (ℕ × RowResult)) (rows : ℕ) : Bool → ℕ → List ℕ → Type 0 where
  through : Sends loaded rows true rows []
  stop : (i : ℕ) → Sends loaded rows false i []
  skip :
      {all : Bool} (i : ℕ) {is : List ℕ} (r : RowResult)
      → get_key i loaded ≡ some r
      → Sends loaded rows all (suc i) is
      → Sends loaded rows all i is
  send :
      {all : Bool} (i : ℕ) {is : List ℕ}
      → i < rows
      → get_key i loaded ≡ none
      → Sends loaded rows all (suc i) is
      → Sends loaded rows all i (i ∷ is)

take-Sends :
    {loaded : List (ℕ × RowResult)} {rows : ℕ} {all : Bool} {i : ℕ} {is : List ℕ} (m : ℕ)
    → Sends loaded rows all i is
    → Sends loaded rows false i (take m is)
take-Sends {rows = rows} zero through = stop rows
take-Sends {rows = rows} (suc m) through = stop rows
take-Sends zero (stop i) = stop i
take-Sends (suc m) (stop i) = stop i
take-Sends m (skip i r old later) = skip i r old (take-Sends m later)
take-Sends zero (send i within new later) = stop i
take-Sends (suc m) (send i within new later) = send i within new (take-Sends m later)

keep-Sends :
    (loaded : List (ℕ × RowResult)) (rows i n : ℕ)
    → i + n ≡ rows
    → Sends loaded rows true i (keep (λ k. not (has_row loaded k)) (indices_from i n))
unfolding indices_from has_row
keep-Sends loaded rows i zero e =
    subst (λ k. Sends loaded rows true k []) (omega (arith, e)) through
keep-Sends loaded rows i (suc n) e = elim (Option-cases (get_key i loaded)) [
  | inl new ↦
      let test : has_row loaded i ≡ false = rw (new, has_row) refl in
      rw test (send i (omega (arith, e)) new (keep-Sends loaded rows (suc i) n (omega (arith, e))))
  | inr (r, old) ↦
      let test : has_row loaded i ≡ true = rw (old, has_row) refl in
      rw test (skip i r old (keep-Sends loaded rows (suc i) n (omega (arith, e))))
]

take-add : (n m : ℕ) (xs : List ℕ) → take n xs ++ take m (drop n xs) ≡ take (n + m) xs
take-add n m xs =
    ap (λ k. take n xs ++ take k (drop n xs)) (omega arith)
    ∙ take-append-take-drop n (n + m) xs (omega arith)

length-drop_suc : (n x : ℕ) (xs : List ℕ) → 1 ≤ n → length (drop n (x ∷ xs)) ≤ length xs
length-drop_suc n x xs h = omega (arith, h, length-drop n (x ∷ xs))

module _ (coerce : String → String) (call : ℕ → MeshAnswer) (is_cancelled : ℕ → Bool) where
  -- The ways in which a run ends, with the rows that it has sent: all rows are gone through, the job's
  -- flag was set, or the answer for a row that was sent ends the step.
  pub data Ends (loaded : List (ℕ × RowResult)) (rows : ℕ) : StepRun → List ℕ → Type 0 where
    ends_finished :
        (done : List (ℕ × RowResult)) {sent : List ℕ}
        → Sends loaded rows true 0 sent
        → Ends loaded rows (finished done) sent
    ends_cancelled :
        (n : ℕ) {sent : List ℕ}
        → is_cancelled n ≡ true
        → Sends loaded rows false 0 sent
        → Ends loaded rows cancelled sent
    ends_aborted :
        (i : ℕ) {detail slug : String} {sent : List ℕ}
        → member i sent ≡ true
        → one_row coerce call i ≡ fatal detail slug
        → Sends loaded rows false 0 sent
        → Ends loaded rows (aborted detail slug) sent

  -- The same of the loop over a list of rows.
  data Stops (is : List ℕ) : StepRun → List ℕ → Type 0 where
    stops_finished : (done : List (ℕ × RowResult)) → Stops is (finished done) is
    stops_cancelled : (n m : ℕ) → is_cancelled n ≡ true → Stops is cancelled (take m is)
    stops_aborted :
        (i m : ℕ) {detail slug : String}
        → member i (take m is) ≡ true
        → one_row coerce call i ≡ fatal detail slug
        → Stops is (aborted detail slug) (take m is)

  batch-Stops :
      (every : ℕ) (is : List ℕ) {run : StepRun} {sent : List ℕ}
      → Stops (drop every is) run sent
      → Stops is run (take every is ++ sent)
  batch-Stops every is (stops_finished done) =
      subst (Stops is (finished done)) (sym (take-append-drop every is)) (stops_finished done)
  batch-Stops every is (stops_cancelled n m set) =
      subst (Stops is cancelled) (sym (take-add every m is)) (stops_cancelled n (every + m) set)
  batch-Stops every is (stops_aborted i m {detail} {slug} listed ended) =
      subst (Stops is (aborted detail slug)) (sym (take-add every m is)) (
        stops_aborted i (every + m)
          (ap (member i) (sym (take-add every m is))
            ∙ (member-append i (take every is) (take m (drop every is)) ∙ ground (arith, listed)))
          ended)

  with_row-raised :
      (run : RowRun) (rest : Gathered) {detail slug : String}
      → with_row run rest ≡ raised detail slug
      → (run ≡ fatal detail slug) ⊎ (rest ≡ raised detail slug)
  unfolding with_row cons_row
  with_row-raised (completed r) (gathered rs) e = absurd (cc e)
  with_row-raised (completed r) (raised d s) e = inr e
  with_row-raised (fatal d s) rest e = inl (cc e)

  gather_rows-raised :
      (is : List ℕ) {detail slug : String}
      → gather_rows coerce call is ≡ raised detail slug
      → (i : ℕ) × (member i is ≡ true) × (one_row coerce call i ≡ fatal detail slug)
  unfolding gather_rows
  gather_rows-raised [] e = absurd (cc e)
  gather_rows-raised (i ∷ is) e = elim (with_row-raised (one_row coerce call i) _ e) [
    | inl ended ↦ (i, rw (==_refl i) refl, ended)
    | inr later ↦
        let (k, listed, ended) = gather_rows-raised is later in (k, ground (arith, listed), ended)
  ]

  -- The rows that a loop sends, after those of before, and how it ends.
  Runs : List ℕ → List ℕ → StepRun × Progress → Type 0
  Runs is called run = (sent : List ℕ) × (run.1.called ≡ called ++ sent) × Stops is run.0 sent

  after_batch-Runs :
      (every n : ℕ) (is : List ℕ) (stops : Bool) (g : Gathered) (before sent : Progress)
      (go_on : List RowResult → StepRun × Progress)
      → is_cancelled n ≡ stops
      → gather_rows coerce call (take every is) ≡ g
      → sent.called ≡ before.called ++ take every is
      → ((rs : List RowResult) → Runs (drop every is) sent.called (go_on rs))
      → Runs is before.called (after_batch stops g before sent go_on)
  unfolding after_batch Runs
  after_batch-Runs every n is true g before sent go_on set batch listed h =
      ([], sym (append-nil before.called), stops_cancelled n 0 set)
  after_batch-Runs every n is false (raised detail slug) before sent go_on set batch listed h =
      let (i, inside, ended) = gather_rows-raised (take every is) batch in
      (take every is, listed, stops_aborted i every inside ended)
  after_batch-Runs every n is false (gathered rs) before sent go_on set batch listed h =
      let (more, later, ends) = h rs in
      (
        take every is ++ more,
        later
            ∙ (ap (λ called. called ++ more) listed
                ∙ append_assoc before.called (take every is) more),
        batch-Stops every is ends,
      )

  module _ (every : ℕ) where
    run_batches-Runs :
        1 ≤ every
        → (fuel n : ℕ) (is : List ℕ) (done : List (ℕ × RowResult)) (progress : Progress)
        → length is ≤ fuel
        → Runs is progress.called
            (run_batches coerce call every is_cancelled fuel n is done progress)
    unfolding run_batches Runs
    run_batches-Runs some_rows fuel n [] done progress h =
        ([], sym (append-nil progress.called), stops_finished done)
    run_batches-Runs some_rows zero n (i ∷ is) done progress h = absurd (omega (arith, h))
    run_batches-Runs some_rows (suc fuel) n (i ∷ is) done progress h =
        after_batch-Runs every n (i ∷ is) (is_cancelled n) _ progress _ _ refl refl refl (λ rs.
          run_batches-Runs some_rows fuel (suc n) (drop every (i ∷ is)) (add_rows rs done) _
            (omega (arith, h, length-drop_suc every i is some_rows)))

  Stops-Ends :
      {loaded : List (ℕ × RowResult)} {rows : ℕ} {is sent : List ℕ} {run : StepRun}
      → Sends loaded rows true 0 is
      → Stops is run sent
      → Ends loaded rows run sent
  Stops-Ends all (stops_finished done) = ends_finished done all
  Stops-Ends all (stops_cancelled n m set) = ends_cancelled n set (take-Sends m all)
  Stops-Ends all (stops_aborted i m listed ended) = ends_aborted i listed ended (take-Sends m all)

  -- From any checkpoint, with batches of one row or more, the run of a step comes to an end. It goes
  -- through the rows in their order and sends each that the checkpoint does not have, once, and none
  -- that the checkpoint has. It goes through all of them when it finishes; it stops before only where
  -- the job's flag was set, or where a row that it sent ends the step.
  pub run_llm_rows-Ends :
      (every rows : ℕ) (progress : Progress)
      → 1 ≤ every
      → (let run = run_llm_rows coerce call every is_cancelled rows progress in
          (sent : List ℕ) × (run.1.called ≡ progress.called ++ sent)
          × Ends (load_rows progress.saved []) rows run.0 sent)
  unfolding run_llm_rows pending_rows Runs
  run_llm_rows-Ends every rows progress some_rows =
      let loaded = load_rows progress.saved [] in
      let pending = keep (λ i. not (has_row loaded i)) (indices_from 0 rows) in
      let (sent, same, ends) =
        run_batches-Runs every some_rows (length pending) 0 pending loaded progress (omega arith) in
      (sent, same, Stops-Ends (keep-Sends loaded rows 0 rows (omega arith)) ends)

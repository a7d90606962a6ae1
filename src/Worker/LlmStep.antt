-- ===== src/Worker/LlmStep.antt =====
-- apps/worker/osaip_worker/llm_step.py: the rows of a step that calls a model, with the checkpoint
-- that a later run of the step goes on from. `call` is what `call_mesh` answers for a row, and
-- `coerce` the text that `_coerce` makes of an answer. The calls of a batch run at once; where more than
-- one row ends the step, the model takes the first of the batch.
pub mod Loop
pub mod Resume
pub mod Sent
mod Tests
use osaip.Base.{
  ℕ, zero, suc, ◌+◌, String, Bool, true, false, not, Option, none, some, List, [], ◌∷◌, ◌++◌,
  length, take, drop, keep, ◌==◌, ltb, if◌then◌else◌, get_key, contains,
}

pub record RowResult : Type 0 where
  pub index : ℕ
  pub output : Option String
  pub error : Option String
  pub cost_micros : ℕ
  pub tokens_in : ℕ
  pub tokens_out : ℕ

pub record StepOutcome : Type 0 where
  pub results : List RowResult
  pub failed_rows : ℕ
  pub resumed_rows : ℕ
  pub cost_micros : ℕ

-- The content with the cost and the tokens, or the slug and the detail of MeshCallFailed.
pub data MeshAnswer : Type 0 where
  answered : String → ℕ → ℕ → ℕ → MeshAnswer
  refused : String → String → MeshAnswer

-- A row's result, or the detail and the slug of StepAborted.
pub data RowRun : Type 0 where
  completed : RowResult → RowRun
  fatal : String → String → RowRun

-- FATAL_SLUGS
unfoldable pub is_fatal : String → Bool
is_fatal slug =
    contains slug ("quota-exceeded" ∷ "residency-blocked" ∷ "not-found" ∷ "unauthenticated" ∷ [])

-- The batch files of the checkpoint, each under the index in its name, and the rows sent so far.
pub record Progress : Type 0 where
  pub saved : List (ℕ × List RowResult)
  pub called : List ℕ

pub data StepRun : Type 0 where
  finished : List (ℕ × RowResult) → StepRun
  cancelled : StepRun
  aborted : String → String → StepRun
  out_of_fuel : StepRun

-- `done[result.index] = result`, for one result after the other.
unfoldable pub add_rows : List RowResult → List (ℕ × RowResult) → List (ℕ × RowResult)
add_rows [] done = done
add_rows (r ∷ rs) done = add_rows rs ((r.index, r) ∷ done)

-- `load` of `make_checkpoint_io`.
unfoldable pub load_rows : List (ℕ × List RowResult) → List (ℕ × RowResult) → List (ℕ × RowResult)
unfolding add_rows
load_rows [] done = done
load_rows ((first, rows) ∷ files) done = load_rows files (add_rows rows done)

lowest : RowResult → List RowResult → ℕ
lowest r [] = r.index
lowest r (s ∷ ss) = let rest = lowest s ss in if ltb rest r.index then rest else r.index

-- `put_bytes`: a file of the same name is replaced.
unfoldable pub put_file : ℕ → List RowResult → List (ℕ × List RowResult) → List (ℕ × List RowResult)
put_file first rows [] = (first, rows) ∷ []
put_file first rows ((k, old) ∷ files) =
    if k == first then (k, rows) ∷ files else (k, old) ∷ put_file first rows files

-- `save` of `make_checkpoint_io`.
unfoldable pub save_rows : List RowResult → List (ℕ × List RowResult) → List (ℕ × List RowResult)
unfolding lowest put_file
save_rows [] saved = saved
save_rows (r ∷ rs) saved = put_file (lowest r rs) (r ∷ rs) saved

unfoldable pub has_row : List (ℕ × RowResult) → ℕ → Bool
has_row done i = elim (get_key i done) [ none ↦ false | some r ↦ true ]

unfoldable pub indices_from : ℕ → ℕ → List ℕ
indices_from i zero = []
indices_from i (suc n) = i ∷ indices_from (suc i) n

-- `pending`
unfoldable pub pending_rows : ℕ → List (ℕ × RowResult) → List ℕ
unfolding indices_from has_row
pending_rows rows done = keep (λ i. not (has_row done i)) (indices_from 0 rows)

-- `[done[index] for index in range(len(rows)) if index in done]`
unfoldable pub collect : List (ℕ × RowResult) → List ℕ → List RowResult
collect done [] = []
collect done (i ∷ is) =
    let rest = collect done is in elim (get_key i done) [ none ↦ rest | some r ↦ r ∷ rest ]

-- `len(done)`
count_keys : List (ℕ × RowResult) → ℕ
unfolding has_row
count_keys [] = 0
count_keys ((i, r) ∷ done) = if has_row done i then count_keys done else suc (count_keys done)

count_failed : List RowResult → ℕ
count_failed [] = 0
count_failed (r ∷ rs) = elim r.error [ none ↦ count_failed rs | some e ↦ suc (count_failed rs) ]

total_cost : List RowResult → ℕ
total_cost [] = 0
total_cost (r ∷ rs) = r.cost_micros + total_cost rs

-- `asyncio.gather`: the results in the order of the batch, or an exception.
pub data Gathered : Type 0 where
  gathered : List RowResult → Gathered
  raised : String → String → Gathered

unfoldable pub cons_row : RowResult → Gathered → Gathered
cons_row r (gathered rs) = gathered (r ∷ rs)
cons_row r (raised detail slug) = raised detail slug

unfoldable pub with_row : RowRun → Gathered → Gathered
unfolding cons_row
with_row (completed r) rest = cons_row r rest
with_row (fatal detail slug) rest = raised detail slug

-- The checks before and after a batch: StepCancelled, StepAborted, or the batches after it.
unfoldable pub after_batch :
    Bool
    → Gathered
    → Progress
    → Progress
    → (List RowResult → StepRun × Progress)
    → StepRun × Progress
after_batch true g before sent go_on = (cancelled, before)
after_batch false (raised detail slug) before sent go_on = (aborted detail slug, sent)
after_batch false (gathered rs) before sent go_on = go_on rs

module _ (coerce : String → String) (call : ℕ → MeshAnswer) where
  unfoldable pub answer_row : ℕ → MeshAnswer → RowRun
  answer_row i (answered content cost tokens_in tokens_out) = completed (record {
    index = i;
    output = some (coerce content);
    error = none;
    cost_micros = cost;
    tokens_in = tokens_in;
    tokens_out = tokens_out;
  })
  answer_row i (refused slug detail) =
      if is_fatal slug
      then fatal detail slug
      else completed (record {
        index = i;
        output = none;
        error = some detail;
        cost_micros = 0;
        tokens_in = 0;
        tokens_out = 0;
      })

  -- `_one_row`
  unfoldable pub one_row : ℕ → RowRun
  unfolding answer_row
  one_row i = answer_row i (call i)

  unfoldable pub gather_rows : List ℕ → Gathered
  unfolding with_row
  gather_rows [] = gathered []
  gather_rows (i ∷ is) = with_row (one_row i) (gather_rows is)

  -- The loop over the batches, with the number of the next one. The fuel is more than its rounds.
  unfoldable pub run_batches :
      ℕ → (ℕ → Bool) → ℕ → ℕ → List ℕ → List (ℕ × RowResult) → Progress → StepRun × Progress
  run_batches every is_cancelled fuel n [] done progress = (finished done, progress)
  run_batches every is_cancelled zero n (i ∷ is) done progress = (out_of_fuel, progress)
  run_batches every is_cancelled (suc fuel) n (i ∷ is) done progress =
      let batch = take every (i ∷ is) in
      let sent = record progress { called = progress.called ++ batch } in
      after_batch (is_cancelled n) (gather_rows batch) progress sent (λ rs.
        run_batches every is_cancelled fuel (suc n) (drop every (i ∷ is)) (add_rows rs done)
          (record sent { saved = save_rows rs progress.saved }))

  -- `run_llm_rows` over a number of rows, up to the results. `is_cancelled` tells what the job's flag
  -- says before each batch.
  unfoldable pub run_llm_rows : ℕ → (ℕ → Bool) → ℕ → Progress → StepRun × Progress
  run_llm_rows every is_cancelled rows progress =
      let done = load_rows progress.saved [] in
      let pending = pending_rows rows done in
      run_batches every is_cancelled (length pending) 0 pending done progress

-- The end of `run_llm_rows`, with the rows that were done at the start and those that are now.
unfoldable pub outcome_of : ℕ → List (ℕ × RowResult) → List (ℕ × RowResult) → StepOutcome
unfolding count_failed total_cost count_keys
outcome_of rows loaded done =
    let results = collect done (indices_from 0 rows) in
    record {
      results = results;
      failed_rows = count_failed results;
      resumed_rows = count_keys loaded;
      cost_micros = total_cost results;
    }

-- ===== src/Worker/LlmStep/Tests.antt =====
-- A step of three rows, in batches of two, where row 0 is in the checkpoint and row 2 ends the step.
use osaip.Base.{ℕ, ◌≡◌, refl, ap, String, Bool, false, none, some, List, [], ◌∷◌, ◌++◌, arith}
use osaip.Worker.LlmStep.{
  RowResult, MeshAnswer, answered, refused, Progress, finished, aborted, load_rows, add_rows,
  save_rows, indices_from, pending_rows, one_row, is_fatal, gather_rows, after_batch, run_batches,
  run_llm_rows, outcome_of,
}
use osaip.Worker.LlmStep.Resume.{AreResults, run_llm_rows-AreResults}
use osaip.Worker.LlmStep.Sent.{Ends, run_llm_rows-Ends}

abbrev said : ℕ → String → RowResult
said i text = record {
  index = i;
  output = some text;
  error = none;
  cost_micros = 7;
  tokens_in = 1;
  tokens_out = 1;
}

abbrev coerce : String → String
coerce text = text

abbrev call : ℕ → MeshAnswer
call i = answered "new" 7 1 1

abbrev over_budget : ℕ → MeshAnswer
over_budget i = refused "quota-exceeded" "no budget"

abbrev never : ℕ → Bool
never n = false

abbrev begun : Progress
begun = record { saved = (0, said 0 "old" ∷ []) ∷ []; called = [] }

abbrev done : List (ℕ × RowResult)
done = (2, said 2 "new") ∷ (1, said 1 "new") ∷ (0, said 0 "old") ∷ []

ran : run_llm_rows coerce call 2 never 3 begun ≡ (
  finished done,
  record {
    saved = (0, said 0 "old" ∷ []) ∷ (1, said 1 "new" ∷ said 2 "new" ∷ []) ∷ [];
    called = 1 ∷ 2 ∷ [];
  },
)
unfolding run_llm_rows load_rows add_rows pending_rows run_batches after_batch gather_rows one_row
    save_rows
ran = refl

no_budget :
    run_llm_rows coerce over_budget 2 never 3 begun
    ≡ (aborted "no budget" "quota-exceeded", record begun { called = 1 ∷ 2 ∷ [] })
unfolding run_llm_rows load_rows add_rows pending_rows run_batches after_batch gather_rows one_row
    is_fatal
no_budget = refl

run_llm_rows-Ends_example :
    let run = run_llm_rows coerce call 2 never 3 begun in
    (sent : List ℕ) × (run.1.called ≡ [] ++ sent)
    × Ends coerce call never (load_rows begun.saved []) 3 run.0 sent
run_llm_rows-Ends_example = run_llm_rows-Ends coerce call never 2 3 begun (omega arith)

ran_done : (run_llm_rows coerce call 2 never 3 begun).0 ≡ finished done
ran_done = ap (λ r. r.0) ran

run_llm_rows-AreResults_example :
    AreResults coerce call
      (load_rows begun.saved [])
      (indices_from 0 3)
      ((outcome_of 3 (load_rows begun.saved []) done).results)
run_llm_rows-AreResults_example = run_llm_rows-AreResults coerce call 2 never 3 begun done ran_done

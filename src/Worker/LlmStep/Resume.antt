-- ===== src/Worker/LlmStep/Resume.antt =====
-- What a run of a step yields from a checkpoint.
use osaip.Base.{
  ℕ, ◌≡◌, ◌⊎◌, refl, ◌∙◌, String, Bool, true, false, not, none, some, List, [], ◌∷◌, length, keep,
  get_key, Option-cases, ==_refl, inl, inr, arith,
}
use osaip.Base.Worklist.{member}
use osaip.Base.Worklist.Members.{member-keep}
use osaip.Worker.LlmStep.{
  RowResult, MeshAnswer, completed, Progress, finished, load_rows, has_row, indices_from,
  pending_rows, collect, one_row, run_llm_rows, outcome_of,
}
use osaip.Worker.LlmStep.Loop.{Fills, run_batches-Fills}

-- The results of the rows of a list: a row that the checkpoint has is taken from it, and another one
-- is what its call yields.
module _ (coerce : String → String) (call : ℕ → MeshAnswer) (loaded : List (ℕ × RowResult)) where
  pub AreResults : List ℕ → List RowResult → Type 0
  AreResults [] [] = Unit
  AreResults [] (r ∷ rs) = ⊥
  AreResults (i ∷ is) [] = ⊥
  AreResults (i ∷ is) (r ∷ rs) =
      ((get_key i loaded ≡ some r)
        ⊎ ((get_key i loaded ≡ none) × (one_row coerce call i ≡ completed r)))
      × AreResults is rs

  collect-AreResults :
      (all : List ℕ) (done : List (ℕ × RowResult))
      → Fills coerce call (keep (λ i. not (has_row loaded i)) all) loaded done
      → (is : List ℕ) → ((i : ℕ) → member i is ≡ true → member i all ≡ true)
      → AreResults is (collect done is)
  unfolding collect AreResults has_row
  collect-AreResults all done f [] within = tt
  collect-AreResults all done f (i ∷ is) within = elim (Option-cases (get_key i loaded)) [
    | inl new ↦
        let listed : member i (keep (λ k. not (has_row loaded k)) all) ≡ true =
          member-keep i (λ k. not (has_row loaded k)) all
          ∙ rw (within i (rw (==_refl i) refl), new, has_row) refl in
        let (r, ran, at) = f.filled i listed in
        rw (at, AreResults) (inr (new, ran), collect-AreResults all done f is later)
    | inr (r, old) ↦
        let unlisted : member i (keep (λ k. not (has_row loaded k)) all) ≡ false =
          member-keep i (λ k. not (has_row loaded k)) all
          ∙ rw (within i (rw (==_refl i) refl), old, has_row) refl in
        rw (f.kept i unlisted ∙ old, AreResults) (inl old, collect-AreResults all done f is later)
  ]
    where
      later : (k : ℕ) → member k is ≡ true → member k all ≡ true
      later k m = within k (ground (arith, m))

-- A run that finishes yields one result for each row in the order of the rows: that of the checkpoint
-- where it has one, and otherwise what the row's call yields.
pub run_llm_rows-AreResults :
    (coerce : String → String) (call : ℕ → MeshAnswer) (every : ℕ) (is_cancelled : ℕ → Bool)
    (rows : ℕ) (progress : Progress) (done : List (ℕ × RowResult))
    → (run_llm_rows coerce call every is_cancelled rows progress).0 ≡ finished done
    → AreResults coerce call
        (load_rows progress.saved [])
        (indices_from 0 rows)
        ((outcome_of rows (load_rows progress.saved []) done).results)
unfolding run_llm_rows pending_rows outcome_of
run_llm_rows-AreResults coerce call every is_cancelled rows progress done e =
    let loaded = load_rows progress.saved [] in
    let pending = keep (λ i. not (has_row loaded i)) (indices_from 0 rows) in
    collect-AreResults coerce call loaded (indices_from 0 rows) done
      (run_batches-Fills coerce call every is_cancelled (length pending) 0 pending loaded progress
        e)
      (indices_from 0 rows) (λ i m. m)

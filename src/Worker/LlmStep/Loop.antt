-- ===== src/Worker/LlmStep/Loop.antt =====
-- The loop over the batches fills in the pending rows, and it sends no other.
use mathlib.Core.Path.{subst}
use osaip.Base.{
  ℕ, zero, suc, ◌≡◌, refl, sym, ap, ◌∙◌, String, Bool, true, false, some, List, [], ◌∷◌, ◌++◌, take,
  drop, any_of-append, take-append-drop, ◌==◌, get_key, Bool-cases, ==_iff, inl, inr, arith,
}
use osaip.Base.Worklist.{member}
use osaip.Worker.LlmStep.{
  RowResult, MeshAnswer, answered, refused, RowRun, completed, fatal, is_fatal, Progress, StepRun,
  finished, add_rows, answer_row, one_row, Gathered, gathered, raised, cons_row, with_row,
  gather_rows, run_batches, after_batch,
}

index_of : RowRun → ℕ
index_of (completed r) = r.index
index_of (fatal detail slug) = 0

-- A loop that finishes has gone on after the batch.
after_batch-finished :
    (stops : Bool) (g : Gathered) (before sent : Progress)
    (go_on : List RowResult → StepRun × Progress) {done : List (ℕ × RowResult)}
    → (after_batch stops g before sent go_on).0 ≡ finished done
    → (rs : List RowResult) × (g ≡ gathered rs) × ((go_on rs).0 ≡ finished done)
unfolding after_batch
after_batch-finished true g before sent go_on e = absurd (cc e)
after_batch-finished false (raised detail slug) before sent go_on e = absurd (cc e)
after_batch-finished false (gathered rs) before sent go_on e = (rs, refl, e)

module _ (coerce : String → String) (call : ℕ → MeshAnswer) where
  -- The rows of a list have been filled in, and the others are as they were.
  pub record Fills (is : List ℕ) (done done' : List (ℕ × RowResult)) : Type 0 where
    pub kept : (i : ℕ) → member i is ≡ false → get_key i done' ≡ get_key i done
    pub filled :
        (i : ℕ)
        → member i is ≡ true
        → (r : RowResult) × (one_row coerce call i ≡ completed r) × (get_key i done' ≡ some r)

  append-Fills :
      (is js : List ℕ) (a b c : List (ℕ × RowResult))
      → Fills is a b
      → Fills js b c
      → Fills (is ++ js) a c
  append-Fills is js a b c f g = record {
    kept = λ i out.
        let split = any_of-append (λ y. y == i) is js in
        g.kept i (ground (arith, out, split)) ∙ f.kept i (ground (arith, out, split));
    filled = λ i in_it. elim (Bool-cases (member i js)) [
      | inl late ↦ g.filled i late
      | inr early ↦
          let (r, ran, at) =
            f.filled i (ground (arith, in_it, early, any_of-append (λ y. y == i) is js)) in
          (r, ran, g.kept i early ∙ at)
    ];
  }

  one_row-index : (i : ℕ) {r : RowResult} → one_row coerce call i ≡ completed r → r.index ≡ i
  unfolding one_row answer_row index_of
  one_row-index i {r} e = answer_row-index (call i) e
    where
      answer_row-index : (a : MeshAnswer) → answer_row coerce call i a ≡ completed r → r.index ≡ i
      answer_row-index (answered content cost tokens_in tokens_out) e = sym (ap index_of e)
      answer_row-index (refused slug detail) e = elim (Bool-cases (is_fatal slug)) [
        | inl ends ↦ absurd (cc (rw ends at e))
        | inr goes ↦ sym (ap index_of (rw goes at e))
      ]

  gather_rows-cons :
      (i : ℕ) (is : List ℕ) (rs : List RowResult)
      → gather_rows coerce call (i ∷ is) ≡ gathered rs
      → (r : RowResult) × (rest : List RowResult) × (one_row coerce call i ≡ completed r)
        × (gather_rows coerce call is ≡ gathered rest)
        × (r ∷ rest ≡ rs)
  unfolding gather_rows with_row cons_row
  gather_rows-cons i is rs e =
      split (one_row coerce call i) refl (gather_rows coerce call is) refl e
    where
      split :
          (a : RowRun)
          → one_row coerce call i ≡ a
          → (g : Gathered) → gather_rows coerce call is ≡ g
          → with_row a g ≡ gathered rs
          → (r : RowResult) × (rest : List RowResult) × (one_row coerce call i ≡ completed r)
            × (gather_rows coerce call is ≡ gathered rest)
            × (r ∷ rest ≡ rs)
      split (completed r) a (gathered rest) b e = (r, rest, a, b, cc e)
      split (completed r) a (raised detail slug) b e = absurd (cc e)
      split (fatal detail slug) a g b e = absurd (cc e)

  nothing-Fills : (done : List (ℕ × RowResult)) → Fills [] done done
  nothing-Fills done = record { kept = λ i out. refl; filled = λ i m. absurd (cc m) }

  one-Fills :
      (i : ℕ) (r : RowResult) (done : List (ℕ × RowResult))
      → one_row coerce call i ≡ completed r
      → Fills (i ∷ []) done ((r.index, r) ∷ done)
  one-Fills i r done e = record {
    kept = λ k out. rw (one_row-index i e) (
        (elim (Bool-cases (i == k)) [
          | inl here ↦ absurd (cc (rw here at out))
          | inr there ↦ rw there refl
        ]));
    filled = λ k m. elim (Bool-cases (i == k)) [
      | inl here ↦ (
        r,
        subst (λ x. one_row coerce call x ≡ completed r) ((==_iff i k).0 here) e,
        rw (one_row-index i e, here) refl,
      )
      | inr there ↦ absurd (cc (rw there at m))
    ];
  }

  gather-Fills :
      (is : List ℕ) (rs : List RowResult) (done : List (ℕ × RowResult))
      → gather_rows coerce call is ≡ gathered rs
      → Fills is done (add_rows rs done)
  unfolding gather_rows add_rows
  gather-Fills [] rs done e =
      let none_given : [] ≡ rs = cc e in
      subst (λ rs. Fills [] done (add_rows rs done)) none_given (nothing-Fills done)
  gather-Fills (i ∷ is) rs done e =
      let (r, rest, ran, ran_rest, same) = gather_rows-cons i is rs e in
      subst (λ rs. Fills (i ∷ is) done (add_rows rs done)) same
        (append-Fills (i ∷ []) is done ((r.index, r) ∷ done) (add_rows rest ((r.index, r) ∷ done))
          (one-Fills i r done ran) (gather-Fills is rest ((r.index, r) ∷ done) ran_rest))

  -- The batches fill in the pending rows, where the loop finishes.
  pub run_batches-Fills :
      (every : ℕ) (is_cancelled : ℕ → Bool) (fuel n : ℕ) (is : List ℕ) (done : List (ℕ × RowResult))
      (progress : Progress) {done' : List (ℕ × RowResult)}
      → (run_batches coerce call every is_cancelled fuel n is done progress).0 ≡ finished done'
      → Fills is done done'
  unfolding run_batches
  run_batches-Fills every is_cancelled fuel n [] done progress e =
      subst (Fills [] done) (cc e) (nothing-Fills done)
  run_batches-Fills every is_cancelled zero n (i ∷ is) done progress e = absurd (cc e)
  run_batches-Fills every is_cancelled (suc fuel) n (i ∷ is) done progress {done'} e =
      let batch = take every (i ∷ is) in
      let rest = drop every (i ∷ is) in
      let (rs, ran, goes) =
        after_batch-finished (is_cancelled n) (gather_rows coerce call batch) progress _ _ e in
      subst (λ xs. Fills xs done done') (take-append-drop every (i ∷ is))
        (append-Fills batch rest done (add_rows rs done) done' (gather-Fills batch rs done ran)
          (run_batches-Fills every is_cancelled fuel (suc n) rest (add_rows rs done) _ goes))

-- ===== src/Guardrails/Detect/Overlap.antt =====
-- What `detect_all` keeps: nothing that overlaps, and nothing lost that does not overlap.
use mathlib.Core.Path.{subst}
use osaip.Base.{
  ℕ, ◌≤◌, ◌<◌, ◌≡◌, ◌⊎◌, inl, inr, true, false, List, [], ◌∷◌, All, Any, All-map_rule, Bool-cases,
  leb, leb→le, le→leb, leb_false→lt, arith, refl,
}
use osaip.Guardrails.Types.{Text, Detection}
use osaip.Guardrails.Detect.{Patterns, before, insert, sort, sweep, found, detect_all}

-- A span that does not run backwards.
abbrev pub IsSpan : Detection → Type 0
IsSpan d = d.start ≤ d.end

-- Each detection ends before every later one starts.
abbrev pub AreApart : List Detection → Type 0
AreApart [] = Unit
AreApart (d ∷ ds) = All (λ e. d.end ≤ e.start) ds × AreApart ds

-- The starts never fall.
abbrev AreAscending : List Detection → Type 0
AreAscending [] = Unit
AreAscending (d ∷ ds) = All (λ e. d.start ≤ e.start) ds × AreAscending ds

-- `k` is `d`, or the place where `d` starts lies inside `k`.
abbrev pub Covers : Detection → Detection → Type 0
Covers d k = (k ≡ d) ⊎ ((k.start ≤ d.start) × (d.start < k.end))

module _ (P : Detection → Type 0) where
  insert-All : (d : Detection) (ds : List Detection) → P d → All P ds → All P (insert d ds)
  unfolding insert
  insert-All d [] p h = (p, tt)
  insert-All d (e ∷ ds) p h = elim (Bool-cases (before d e)) [
    | inl first ↦ rw first (p, h)
    | inr later ↦ rw later (h.0, insert-All d ds p h.1)
  ]

  sort-All : (ds : List Detection) → All P ds → All P (sort ds)
  unfolding sort
  sort-All [] h = tt
  sort-All (d ∷ ds) h = insert-All d (sort ds) h.0 (sort-All ds h.1)

  insert-All_inv : (d : Detection) (ds : List Detection) → All P (insert d ds) → P d × All P ds
  unfolding insert
  insert-All_inv d [] h = h
  insert-All_inv d (e ∷ ds) h = elim (Bool-cases (before d e)) [
    | inl first ↦ rw first at h
    | inr later ↦
        let h' : P e × All P (insert d ds) = rw later at h in
        let (p, rest) = insert-All_inv d ds h'.1 in (p, (h'.0, rest))
  ]

  sort-All_inv : (ds : List Detection) → All P (sort ds) → All P ds
  unfolding sort
  sort-All_inv [] h = tt
  sort-All_inv (d ∷ ds) h =
      let (p, rest) = insert-All_inv d (sort ds) h in (p, sort-All_inv ds rest)

  sweep-All : (cursor : ℕ) (ds : List Detection) → All P ds → All P (sweep cursor ds)
  unfolding sweep
  sweep-All cursor [] h = tt
  sweep-All cursor (d ∷ ds) h = elim (Bool-cases (leb cursor d.start)) [
    | inl kept ↦ rw kept (h.0, sweep-All d.end ds h.1)
    | inr skipped ↦ rw skipped (sweep-All cursor ds h.1)
  ]

before-true : (d e : Detection) → before d e ≡ true → d.start ≤ e.start
unfolding before
before-true d e h = ground arith

before-false : (d e : Detection) → before d e ≡ false → e.start ≤ d.start
unfolding before
before-false d e h = ground arith

insert-AreAscending :
    (d : Detection) (ds : List Detection) → AreAscending ds → AreAscending (insert d ds)
unfolding insert
insert-AreAscending d [] h = (tt, tt)
insert-AreAscending d (e ∷ ds) h = elim (Bool-cases (before d e)) [
  | inl first ↦
      let le = before-true d e first in
      rw first ((le, All-map_rule (λ x le'. omega arith) ds h.0), h)
  | inr later ↦ rw later (
    insert-All (λ x. e.start ≤ x.start) d ds (before-false d e later) h.0,
    insert-AreAscending d ds h.1,
  )
]

sort-AreAscending : (ds : List Detection) → AreAscending (sort ds)
unfolding sort
sort-AreAscending [] = tt
sort-AreAscending (d ∷ ds) = insert-AreAscending d (sort ds) (sort-AreAscending ds)

-- The cursor only moves forward, so what the sweep keeps starts behind it.
sweep-from :
    (cursor : ℕ) (ds : List Detection)
    → All IsSpan ds
    → All (λ e. cursor ≤ e.start) (sweep cursor ds) × AreApart (sweep cursor ds)
unfolding sweep
sweep-from cursor [] h = (tt, tt)
sweep-from cursor (d ∷ ds) h = elim (Bool-cases (leb cursor d.start)) [
  | inl kept ↦
      let le = leb→le cursor d.start kept in
      let (from, apart) = sweep-from d.end ds h.1 in
      rw kept
        ((le, All-map_rule (λ x le'. omega (arith, h.0)) (sweep d.end ds) from), (from, apart))
  | inr skipped ↦ rw skipped (sweep-from cursor ds h.1)
]

sweep-kept :
    (cursor : ℕ) (d : Detection) (ds : List Detection)
    → leb cursor d.start ≡ true
    → d ∷ sweep d.end ds ≡ sweep cursor (d ∷ ds)
unfolding sweep
sweep-kept cursor d ds h = rw h

sweep-skipped :
    (cursor : ℕ) (d : Detection) (ds : List Detection)
    → leb cursor d.start ≡ false
    → sweep cursor ds ≡ sweep cursor (d ∷ ds)
unfolding sweep
sweep-skipped cursor d ds h = rw h

-- With `k` the last detection kept, every later one is covered by `k` or by one that is kept.
sweep-Covers :
    (k : Detection) (ds : List Detection)
    → AreAscending (k ∷ ds)
    → All (λ d. Any (Covers d) (k ∷ sweep k.end ds)) ds
sweep-Covers k [] h = tt
sweep-Covers k (d ∷ ds) h = elim (Bool-cases (leb k.end d.start)) [
  | inl kept ↦
      subst (λ ks. All (λ x. Any (Covers x) (k ∷ ks)) (d ∷ ds)) (sweep-kept k.end d ds kept)
        (inr (inl (inl refl)), All-map_rule (λ x covered. inr covered) ds (sweep-Covers d ds h.1))
  | inr skipped ↦
      let lt = leb_false→lt k.end d.start skipped in
      subst (λ ks. All (λ x. Any (Covers x) (k ∷ ks)) (d ∷ ds)) (sweep-skipped k.end d ds skipped)
        (inl (inr (h.0.0, lt)), sweep-Covers k ds (h.0.1, h.1.1))
]

sweep_from_zero :
    (ds : List Detection) → AreAscending ds → All (λ d. Any (Covers d) (sweep 0 ds)) ds
sweep_from_zero [] h = tt
sweep_from_zero (d ∷ ds) h =
    subst (λ ks. All (λ x. Any (Covers x) ks) (d ∷ ds))
      (sweep-kept 0 d ds (le→leb 0 d.start (omega arith))) (inl (inl refl), sweep-Covers d ds h)

module _ (re : Patterns) (text : Text) where
  -- When no pattern yields a span that runs backwards, the detections that are kept stand in
  -- document order and do not overlap.
  pub detect_all-AreApart : All IsSpan (found re text) → AreApart (detect_all re text)
  unfolding detect_all
  detect_all-AreApart h =
      (sweep-from 0 (sort (found re text)) (sort-All IsSpan (found re text) h)).1

  -- Every detection of every detector is kept, or the place where it starts lies inside one that
  -- is kept.
  pub detect_all-Covers : All (λ d. Any (Covers d) (detect_all re text)) (found re text)
  unfolding detect_all
  detect_all-Covers =
      sort-All_inv (λ d. Any (Covers d) (detect_all re text)) (found re text)
        (sweep_from_zero (sort (found re text)) (sort-AreAscending (found re text)))

  -- What holds of every detection found holds of every one kept: nothing is invented.
  pub detect_all-All : (P : Detection → Type 0) → All P (found re text) → All P (detect_all re text)
  unfolding detect_all
  detect_all-All P h = sweep-All P 0 (sort (found re text)) (sort-All P (found re text) h)

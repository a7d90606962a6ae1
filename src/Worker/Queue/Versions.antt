-- ===== src/Worker/Queue/Versions.antt =====
-- The versions of a dataset: no order of transactions sets one back, leaves one out or writes one twice.
use mathlib.Core.Path.{subst}
use osaip.Base.{
  any_of-append, ℕ, suc, ◌≤◌, ◌≡◌, ◌≢◌, ◌⊎◌, refl, sym, ap, ◌∙◌, true, false, ◌&&◌, ◌||◌, some,
  List, ◌++◌, leb, ◌==◌, if◌then◌else◌, Bool-cases, Option-cases, inl, inr, arith, ==_iff, ==_refl,
}
use mathlib.Core.Option.{some-injective}
use osaip.Worker.Queue.{DatasetVersion, Database}
use osaip.Worker.Queue.Commit.{
  BuildResult, flipped, commit_version, has_version, dataset_version, flip, new_version,
}
use osaip.Worker.Queue.Flips.{MayFlip, commit_version-cases}
use osaip.Worker.Queue.Transactions.{has_read, Transactions, start, read, next}
use osaip.Worker.Queue.Effects.{
  Effect, none_changed, one_flipped, changed_version, dataset_version-flip, Transaction-Effect,
}

-- Each version up to the current one of a dataset has a row.
unfoldable pub AreContiguous : Database → Type 0
AreContiguous db =
    (d c : ℕ)
    → dataset_version d db.datasets ≡ some c
    → (v : ℕ) → 1 ≤ v
    → v ≤ c
    → has_version d v db.versions ≡ true

-- The current version of a dataset is at least the given one.
abbrev pub AtLeast : Database → ℕ → ℕ → Type 0
AtLeast db d v = (c : ℕ) × (dataset_version d db.datasets ≡ some c) × (v ≤ c)

has_version-append :
    (d v : ℕ) (vs ws : List DatasetVersion)
    → has_version d v (vs ++ ws) ≡ (has_version d v vs || has_version d v ws)
has_version-append d v vs ws =
    any_of-append (λ (w : DatasetVersion). w.dataset_id == d && w.version == v) vs ws

module _ (db : Database) (contiguous : AreContiguous db) (b : BuildResult) (now was : ℕ)
    (may : MayFlip b db) (known : AtLeast db b.target_id was)
    (after : b.next_version ≡ suc was) where
  -- The version that a run writes is the one after the current one.
  next_version-suc : b.next_version ≡ suc (known.0)
  unfolding AreContiguous
  next_version-suc = elim (Bool-cases (leb b.next_version (known.0))) [
    | inl behind ↦ absurd (
        cc (
          contiguous b.target_id (known.0) (known.1) b.next_version (omega (arith, after))
              (ground (arith, behind)),
          may.unused,
        ))
    | inr ahead ↦ ground (arith, ahead, after, known.2)
  ]

  flip-version :
      (d : ℕ)
      → dataset_version d (flip b now db).datasets
        ≡ changed_version b.target_id d b.next_version (dataset_version d db.datasets)
  unfolding flip
  flip-version d = dataset_version-flip d b _ db.datasets

  flip-has_version :
      (d v : ℕ)
      → has_version d v (flip b now db).versions
        ≡ (has_version d v db.versions || (b.target_id == d && b.next_version == v))
  unfolding flip new_version
  flip-has_version d v = has_version-append d v db.versions _ ∙ ground arith

  flip-AtLeast : (d v : ℕ) → AtLeast db d v → AtLeast (flip b now db) d v
  unfolding changed_version
  flip-AtLeast d v (c, e, le) = elim (Bool-cases (b.target_id == d)) [
    | inl hit ↦
        let same : known.0 ≡ c = some-injective _ _ (
          sym (known.1)
          ∙ subst (λ t. dataset_version t db.datasets ≡ some c) (sym ((==_iff b.target_id d).0 hit))
              e) in
        (
          b.next_version,
          flip-version d ∙ rw (e, hit) refl,
          omega (arith, next_version-suc, same, le),
        )
    | inr miss ↦ (c, flip-version d ∙ rw (e, miss) refl, le)
  ]

  kept :
      (d v : ℕ)
      → has_version d v db.versions ≡ true
      → has_version d v (flip b now db).versions ≡ true
  kept d v h = flip-has_version d v ∙ rw h refl

  flip-AreContiguous : AreContiguous (flip b now db)
  unfolding AreContiguous changed_version
  flip-AreContiguous d c e v lo hi = elim (Option-cases (dataset_version d db.datasets)) [
    | inl nothing ↦
        absurd (cc (e, flip-version d, ap (changed_version b.target_id d b.next_version) nothing))
    | inr (c', at) ↦
        let now_is : some (if b.target_id == d then b.next_version else c') ≡ some c =
          ap (changed_version b.target_id d b.next_version) (sym at) ∙ sym (flip-version d) ∙ e in
        elim (Bool-cases (b.target_id == d)) [
          | inr miss ↦ kept d v (
              contiguous d c' at v lo
                (subst (λ x. v ≤ x) (sym (some-injective _ _ (rw miss at now_is))) hi))
          | inl hit ↦
              let top : b.next_version ≡ c = some-injective _ _ (rw hit at now_is) in
              elim (Bool-cases (b.next_version == v)) [
                | inl newest ↦ flip-has_version d v ∙ ground (arith, hit, newest)
                | inr older ↦ kept d v (
                    subst (λ t. has_version t v db.versions ≡ true) ((==_iff b.target_id d).0 hit)
                      (contiguous b.target_id (known.0) (known.1) v lo
                        (ground (arith, top, next_version-suc, hi, older))))
              ]
        ]
  ]

-- Each version up to the current one has its row, no version that a run has read is ahead of the
-- current one, and no dataset is behind the version that it began with.
pub record IsSteady (begun : Database) (reads : List (ℕ × ℕ)) (db : Database) : Type 0 where
  pub contiguous : AreContiguous db
  pub not_ahead : (d v : ℕ) → has_read reads d v ≡ true → AtLeast db d v
  pub not_behind : (d v : ℕ) → dataset_version d begun.datasets ≡ some v → AtLeast db d v

Effect-IsSteady :
    (begun : Database) (reads : List (ℕ × ℕ)) (db db' : Database)
    → Effect reads db db'
    → IsSteady begun reads db
    → IsSteady begun reads db'
unfolding AreContiguous
Effect-IsSteady begun reads db db' (none_changed ds vs) s = record {
  contiguous = λ d c e v lo hi.
      ap (has_version d v) vs ∙ s.contiguous d c (ap (dataset_version d) (sym ds) ∙ e) v lo hi;
  not_ahead = λ d v r. let (c, e, le) = s.not_ahead d v r in (c, ap (dataset_version d) ds ∙ e, le);
  not_behind =
      λ d v r. let (c, e, le) = s.not_behind d v r in (c, ap (dataset_version d) ds ∙ e, le);
}
Effect-IsSteady begun reads db db' (one_flipped b now was known after may e) s =
    let at = s.not_ahead b.target_id was known in
    subst (IsSteady begun reads) (sym e) (record {
      contiguous = flip-AreContiguous db s.contiguous b now was may at after;
      not_ahead =
          λ d v r. flip-AtLeast db s.contiguous b now was may at after d v (s.not_ahead d v r);
      not_behind =
          λ d v r. flip-AtLeast db s.contiguous b now was may at after d v (s.not_behind d v r);
    })

-- Whatever the order of the transactions, each version of a dataset up to the current one keeps its
-- row, no version that a run has read is ahead of the current one, and no dataset is set back.
pub Transactions-IsSteady :
    {begun db : Database} {log : List ℕ} {reads : List (ℕ × ℕ)}
    → AreContiguous begun
    → Transactions begun log reads db
    → IsSteady begun reads db
Transactions-IsSteady h start = record {
  contiguous = h;
  not_ahead = λ d v r. absurd (cc r);
  not_behind = λ d v e. (v, e, omega arith);
}
Transactions-IsSteady {db} h (read {reads} {version} t dataset e) =
    let s = Transactions-IsSteady h t in
    record {
      contiguous = s.contiguous;
      not_ahead = λ d v r. elim (Bool-cases (dataset == d && version == v)) [
        | inl now ↦ (
          version,
          ap (λ x. dataset_version x db.datasets) (sym ((==_iff dataset d).0 (ground (arith, now))))
              ∙ e,
          ground (arith, now),
        )
        | inr before ↦ s.not_ahead d v (ground (arith, r, before))
      ];
      not_behind = s.not_behind;
    }
Transactions-IsSteady {begun} {db} h (next {reads} {db = db₁} t moves) =
    Effect-IsSteady begun reads db₁ db (Transaction-Effect moves) (Transactions-IsSteady h t)

-- A version that a run commits after any transactions is the one after the current version, where the
-- run has read the version before it.
pub commit_version-next :
    {begun db : Database} {log : List ℕ} {reads : List (ℕ × ℕ)}
    → AreContiguous begun
    → Transactions begun log reads db
    → (b : BuildResult) (now was current : ℕ) → has_read reads b.target_id was ≡ true
    → b.next_version ≡ suc was
    → dataset_version b.target_id db.datasets ≡ some current
    → ((commit_version b now db).0 ≢ flipped × ((commit_version b now db).1 ≡ db))
      ⊎ ((b.next_version ≡ suc current)
          × (dataset_version b.target_id ((commit_version b now db).1.datasets)
              ≡ some (suc current))
          × (has_version b.target_id b.next_version db.versions ≡ false)
          × (has_version b.target_id b.next_version ((commit_version b now db).1.versions) ≡ true))
unfolding changed_version
commit_version-next {db} h t b now was current known after e =
    let s = Transactions-IsSteady h t in
    let at = s.not_ahead b.target_id was known in
    elim (commit_version-cases b now db) [
      | inl (c, ran, other) ↦ inl (rw ran (other, refl))
      | inr (may, ran) ↦
          let is_next : b.next_version ≡ suc current =
            next_version-suc db s.contiguous b now was may at after
            ∙ ap suc (some-injective _ _ (sym (at.1) ∙ e)) in
          inr (
            rw ran (
              is_next,
              flip-version db s.contiguous b now was may at after b.target_id
                  ∙ rw (e, ==_refl b.target_id, is_next) refl,
              may.unused,
              flip-has_version db s.contiguous b now was may at after b.target_id b.next_version
                  ∙ rw (may.unused, ==_refl b.target_id, ==_refl b.next_version) refl,
            ))
    ]

-- ===== src/Api/Audit/Chain.antt =====
-- What the chain proves of the log.
use text.Mathlib.TextPositions.{eq_refl}
use Prim.Native.String.{◌++◌ as ◌+s◌}
use osaip.Base.{
  ℕ, ◌+◌, ◌≡◌, refl, ap, ◌∙◌, String, true, none, some, List, [], ◌∷◌, ◌++◌, length, ◌=s◌, arith,
  Bool-cases, inl, inr,
}
use osaip.Api.Audit.{
  Formats, Content, AuditLog, payload_of, canonical_row, VerifyResult, genesis_hash, check_details,
  head_hash, row_hash, chained, write_audit, verify_rows, mismatch,
}

-- The function has the same text for the two values only where they are one.
unfoldable pub Distinguishes : {A : Type 0} → (A → String) → A → A → Type 0
Distinguishes f x y = f x ≡ f y → x ≡ y

verified :
    {n m : ℕ}
    → n ≡ m
    → ◌≡◌ {A = VerifyResult}
        (record { ok = true; checked = n; first_bad_seq = none; reason = none })
        (record { ok = true; checked = m; first_bad_seq = none; reason = none })
verified e = ap (λ k. record { ok = true; checked = k; first_bad_seq = none; reason = none }) e

module _ (formats : Formats) where
  -- What a verified row says.
  record IsLinked (prev : String) (checked : ℕ) (row : AuditLog) (rows : List AuditLog)
      : Type 0 where
    linked : (row.prev_hash =s prev) ≡ true
    hashed : (row.row_hash =s row_hash formats prev (canonical_row formats row.content)) ≡ true
    rest : (verify_rows formats row.row_hash (checked + 1) rows).ok ≡ true

  verify_rows-IsLinked :
      (prev : String) (checked : ℕ) (row : AuditLog) (rows : List AuditLog)
      → (verify_rows formats prev checked (row ∷ rows)).ok ≡ true
      → IsLinked prev checked row rows
  unfolding verify_rows mismatch
  verify_rows-IsLinked prev checked row rows ok = elim (Bool-cases (row.prev_hash =s prev)) [
    | inl linked ↦
        elim (Bool-cases
          (row.row_hash =s row_hash formats prev (canonical_row formats row.content))) [
            | inl hashed ↦ record {
              linked = linked;
              hashed = hashed;
              rest = rw (linked, hashed) at ok;
            }
            | inr broken ↦ cc (rw (linked, broken) at ok)
          ]
    | inr broken ↦ cc (rw broken at ok)
  ]

  -- A row that `write_audit` adds is verified where the rows before it are.
  verify_rows-append :
      (prev : String) (checked seq : ℕ) (content : Content) (rows : List AuditLog)
      → (verify_rows formats prev checked rows).ok ≡ true
      → verify_rows formats prev checked
          (rows ++ chained formats (head_hash prev rows) seq content ∷ [])
        ≡ record {
          ok = true;
          checked = checked + (length rows + 1);
          first_bad_seq = none;
          reason = none;
        }
  unfolding verify_rows chained head_hash
  verify_rows-append prev checked seq content [] ok =
      rw (eq_refl prev, eq_refl (row_hash formats prev (canonical_row formats content))) refl
  verify_rows-append prev checked seq content (row ∷ rows) ok =
      let l = verify_rows-IsLinked prev checked row rows ok in
      rw (l.linked, l.hashed, verify_rows-append row.row_hash (checked + 1) seq content rows l.rest)
        (verified (omega arith))

  -- When the log verifies, the log that `write_audit` leaves verifies too, with one row more
  -- checked.
  pub verify_rows-write :
      (seq : ℕ) (content : Content) (rows : List AuditLog) {rows' : List AuditLog}
      → (verify_rows formats genesis_hash 0 rows).ok ≡ true
      → write_audit formats seq content rows ≡ some rows'
      → verify_rows formats genesis_hash 0 rows'
        ≡ record { ok = true; checked = length rows + 1; first_bad_seq = none; reason = none }
  unfolding write_audit
  verify_rows-write seq content rows {rows' = rows'} ok written =
      elim (Bool-cases (check_details content.details)) [
        | inl fine ↦ cc (
          rw fine at written,
          verify_rows-append genesis_hash 0 seq content rows ok
              ∙ verified {m = length rows + 1} (omega arith),
        )
        | inr refused ↦ cc (rw refused at written)
      ]

  abbrev hashed_text : String → AuditLog → String
  hashed_text prev row = prev +s canonical_row formats row.content

  -- At each place where both logs have a row, SHA-256 tells the two texts that are hashed apart, and
  -- `json.dumps` the two values that are written.
  unfoldable pub NoCollision : String → String → List AuditLog → List AuditLog → Type 0
  NoCollision prev prev' [] rows = Unit
  NoCollision prev prev' (row ∷ rows) [] = Unit
  NoCollision prev prev' (row ∷ rows) (row' ∷ rows') =
      Distinguishes formats.sha256 (hashed_text prev row) (hashed_text prev' row')
      × Distinguishes formats.dumps (payload_of formats row.content)
          (payload_of formats row'.content)
      × NoCollision row.row_hash row'.row_hash rows rows'

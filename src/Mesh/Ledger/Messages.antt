-- ===== src/Mesh/Ledger/Messages.antt =====
-- What text the ledger keeps.
use osaip.Base.{
  ℕ, ◌+◌, String, Bool, false, ◌≡◌, refl, ap, List, [], ◌∷◌, map, All, none, ◌=s◌, Bool-cases, inl,
  inr, if◌then◌else◌,
}
use osaip.Mesh.Models.{LlmCallMessage, LlmCall, Session}
use osaip.Mesh.Request.{Message}
use osaip.Mesh.Ledger.{message_rows, raw_copy, rest_of, audited, record_call}

message_rows-raw :
    (id call_id seq : ℕ) (messages raws : List Message)
    → All
        (λ (row : LlmCallMessage). row.content_raw ≡ none)
        (message_rows id call_id seq false messages raws)
unfolding message_rows
message_rows-raw id call_id seq [] raws = tt
message_rows-raw id call_id seq (m ∷ ms) raws =
    (refl, message_rows-raw (id + 1) call_id (seq + 1) ms (rest_of raws))

message_rows-redacted :
    (id call_id seq : ℕ) (keep_raw : Bool) (messages raws : List Message)
    → map
        (λ (row : LlmCallMessage). row.content_redacted)
        (message_rows id call_id seq keep_raw messages raws)
      ≡ map (λ (m : Message). m.content) messages
unfolding message_rows
message_rows-redacted id call_id seq keep_raw [] raws = refl
message_rows-redacted id call_id seq keep_raw (m ∷ ms) raws =
    ap (λ t. m.content ∷ t)
      (message_rows-redacted (id + 1) call_id (seq + 1) keep_raw ms (rest_of raws))

-- Unless the audit mode is `full`, no row keeps a raw text, and the rows keep the redacted messages
-- in order, each with its whole text, or there is no row at all if the mode is `off`.
pub audited-redacted :
    (id call_id : ℕ) (audit_mode : String) (redacted raws : List Message)
    → (audit_mode =s "full") ≡ false
    → All
        (λ (row : LlmCallMessage). row.content_raw ≡ none)
        (audited id call_id audit_mode redacted raws)
      × (map
            (λ (row : LlmCallMessage). row.content_redacted)
            (audited id call_id audit_mode redacted raws)
          ≡ (if audit_mode =s "off" then [] else map (λ (m : Message). m.content) redacted))
unfolding audited
audited-redacted id call_id audit_mode redacted raws not_full =
    elim (Bool-cases (audit_mode =s "off")) [
      | inl off ↦ rw off (tt, refl)
      | inr on ↦
          rw (on, not_full)
            (
              message_rows-raw id call_id 0 redacted raws,
              message_rows-redacted id call_id 0 false redacted raws,
            )
    ]

-- Without the full mode the rows do not depend on the raw messages.
message_rows-raws :
    (id call seq : ℕ) (redacted raws raws' : List Message)
    → message_rows id call seq false redacted raws ≡ message_rows id call seq false redacted raws'
unfolding message_rows raw_copy
message_rows-raws id call seq [] raws raws' = refl
message_rows-raws id call seq (m ∷ ms) raws raws' =
    rw (message_rows-raws (id + 1) call (seq + 1) ms (rest_of raws) (rest_of raws')) refl

pub audited-raws :
    (id call : ℕ) (mode : String) (redacted raws raws' : List Message)
    → (mode =s "full") ≡ false
    → audited id call mode redacted raws ≡ audited id call mode redacted raws'
unfolding audited
audited-raws id call mode redacted raws raws' e =
    rw (e, message_rows-raws id call 0 redacted raws raws') refl

pub record_call-raws :
    (entry : LlmCall) (redacted raws raws' : List Message) (mode : String) (s : Session)
    → (mode =s "full") ≡ false
    → record_call entry redacted raws mode s ≡ record_call entry redacted raws' mode s
unfolding record_call
record_call-raws entry redacted raws raws' mode s e =
    rw (audited-raws (s.next_id + 1) s.next_id mode redacted raws raws' e) refl

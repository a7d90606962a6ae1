-- ===== src/Mesh/Ledger/Tests.antt =====
-- The rows of a redacted message.
use osaip.Base.{◌≡◌, refl, none, List, [], ◌∷◌, All, map}
use osaip.Guardrails.Types.{codes}
use osaip.Mesh.Models.{LlmCallMessage}
use osaip.Mesh.Request.{Message}
use osaip.Mesh.Ledger.{audited}
use osaip.Mesh.Ledger.Messages.{audited-redacted}

abbrev redacted : List Message
redacted = record { role = "user"; content = codes "bsn <BSN>" } ∷ []

abbrev raw : List Message
raw = record { role = "user"; content = codes "bsn 123456782" } ∷ []

audited-redacted_example :
    All (λ (row : LlmCallMessage). row.content_raw ≡ none) (audited 7 6 "redacted" redacted raw)
    × (map (λ (row : LlmCallMessage). row.content_redacted) (audited 7 6 "redacted" redacted raw)
        ≡ codes "bsn <BSN>" ∷ [])
audited-redacted_example = audited-redacted 7 6 "redacted" redacted raw refl

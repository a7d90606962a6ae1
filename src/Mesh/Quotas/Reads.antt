-- ===== src/Mesh/Quotas/Reads.antt =====
-- The two reads of `_window_usage`. Only the writers of holds take the advisory lock of a scope, so that
-- settlements may be committed between the reads.
use osaip.Base.{List, [], ◌∷◌}
use osaip.Mesh.Models.{Db, LlmCall}
use osaip.Mesh.Quotas.{Reservation}
use osaip.Mesh.Quotas.Settle.{settle_call}

-- Calls that are written to the ledger and settled, one after the other.
abbrev pub settle_calls : List (Reservation × LlmCall) → Db → Db
settle_calls [] db = db
settle_calls ((reservation, call) ∷ settled) db =
    settle_calls settled (settle_call reservation call db)

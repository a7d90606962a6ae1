-- ===== src/Guardrails/Sovereignty/Tests.antt =====
-- The gate on a label that is not on the ladder.
use osaip.Base.{◌≡◌, refl, none, some, true, false}
use osaip.Guardrails.Sovereignty.{allowed_for, check_residency, is_allowed}
use osaip.Guardrails.Sovereignty.Gate.{check_residency_unknown, unknown_event}

is_allowed-personal_eu : is_allowed (some "persoonsgegevens") "eu" ≡ true
unfolding is_allowed
is_allowed-personal_eu = refl

check_residency_unknown_example :
    (check_residency (some "geheim") "eu" none ≡ (false, unknown_event (some "geheim") "eu" none))
    × (check_residency none "eu" none ≡ (false, unknown_event none "eu" none))
unfolding allowed_for
check_residency_unknown_example = check_residency_unknown "geheim" "eu" none refl

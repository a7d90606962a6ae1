-- ===== src/Guardrails/Iban/Tests.antt =====
-- The example numbers of the standard.
use osaip.Base.{◌≡◌, refl, true, false}
use osaip.Guardrails.Types.{codes}
use osaip.Guardrails.Iban.{is_valid_iban}

is_valid_iban-dutch : is_valid_iban (codes "NL91 ABNA 0417 1643 00") ≡ true
unfolding is_valid_iban
is_valid_iban-dutch = refl

is_valid_iban-changed : is_valid_iban (codes "NL91 ABNA 0417 1643 01") ≡ false
unfolding is_valid_iban
is_valid_iban-changed = refl

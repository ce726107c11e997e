-- ===== src/Api/Tests.antt =====
-- The theorems on texts of the handlers at small inputs.
use echoear_cloud.Base.{◌≡◌, ◌↔◌, ◌≤◌, true, len}
use echoear_cloud.Api.Identifier.{
  valid_identifier, valid_identifier_iff, EveryRune, IsIdentifierRune,
}

valid_identifier_iff_example :
    (valid_identifier "trace-0_1" 8 128 ≡ true)
    ↔ ((8 ≤ len "trace-0_1") × (len "trace-0_1" ≤ 128) × EveryRune IsIdentifierRune "trace-0_1")
valid_identifier_iff_example = valid_identifier_iff "trace-0_1" 8 128

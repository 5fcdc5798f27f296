-- ===== src/Core/Ids.antt =====
-- The texts of ids, internal/core/id.go. The time in its format, and the random bytes, are arguments.
use kontekst.Prelude.{ℕ, ◌+◌, ◌/◌, ◌%◌, [], ◌∷◌, ◌++◌, Bytes, codes, ltb, if◌then◌else◌}

unfoldable pub hex_digit : ℕ → ℕ
hex_digit d = if ltb d 10 then 48 + d else 87 + d

-- hex.EncodeToString
unfoldable pub encode_hex : Bytes → Bytes
encode_hex [] = []
encode_hex (b ∷ buffer) = hex_digit (b / 16) ∷ hex_digit (b % 16) ∷ encode_hex buffer

unfoldable pub dated_id : (prefix timestamp random : Bytes) → Bytes
dated_id prefix timestamp random = prefix ++ (timestamp ++ (95 ∷ encode_hex random))

unfoldable pub new_run_id : (timestamp random : Bytes) → Bytes
new_run_id timestamp random = dated_id (codes "run_") timestamp random

unfoldable pub new_session_id : (timestamp random : Bytes) → Bytes
new_session_id timestamp random = dated_id (codes "sess_") timestamp random

unfoldable pub new_tool_call_id : (random : Bytes) → Bytes
new_tool_call_id random = codes "call_" ++ encode_hex random

unfoldable pub new_request_id : (timestamp random : Bytes) → Bytes
new_request_id timestamp random = dated_id (codes "req_") timestamp random

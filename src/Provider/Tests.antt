-- ===== src/Provider/Tests.antt =====
-- A short conversation with a tool call, with and without the tool role.
use kontekst.Prelude.Int.{pos}
use kontekst.Prelude.{◌≡◌, refl, true, false, List, [], ◌∷◌, none, some, codes, bytes_eq}
use kontekst.Core.{Role, system, user, assistant, tool, role_eq, no_fields, Message, total_tokens}
use kontekst.Provider.{
  effective_role, should_merge, merge_messages, normalize_from, normalize_messages, is_result,
  asks_tools, validate_roles_from, validate_role_alternation,
}
use kontekst.Provider.Totals.{all_tool_calls, normalize_messages-totals}
use kontekst.Provider.Roles.{IsConsecutive, normalize_messages-validated}
use kontekst.Provider.Answered.{WellFormed, validate_role_alternation-WellFormed}

abbrev says : Role → Message
says role = record {
  role = role;
  content = codes "hi";
  tool_calls = [];
  tool_result = none;
  agent_name = [];
  tokens = pos 2;
}

abbrev asking : Message
asking = record {
  role = assistant;
  content = [];
  tool_calls = record { id = codes "c1"; name = codes "read_file"; arguments = no_fields } ∷ [];
  tool_result = none;
  agent_name = [];
  tokens = pos 5;
}

abbrev result : Message
result = record {
  role = tool;
  content = codes "text";
  tool_calls = [];
  tool_result = some (record {
    call_id = codes "c1";
    name = codes "read_file";
    output = codes "text";
    is_error = false;
  });
  agent_name = [];
  tokens = pos 1;
}

abbrev talk : List Message
talk = says system ∷ says user ∷ says user ∷ asking ∷ result ∷ says user ∷ []

abbrev shape : List Message → List Role
shape [] = []
shape (m ∷ ms) = m.role ∷ shape ms

merged : shape (normalize_messages talk false) ≡ system ∷ user ∷ assistant ∷ tool ∷ []
unfolding normalize_messages normalize_from should_merge effective_role role_eq merge_messages
merged = refl

kept : shape (normalize_messages talk true) ≡ system ∷ user ∷ assistant ∷ tool ∷ user ∷ []
unfolding normalize_messages normalize_from should_merge effective_role role_eq merge_messages
kept = refl

kept_valid : validate_role_alternation (normalize_messages talk true) true ≡ none
unfolding normalize_messages normalize_from should_merge effective_role role_eq merge_messages
    validate_role_alternation validate_roles_from is_result asks_tools bytes_eq
kept_valid = refl

normalize_messages-validated_example :
    ¬ IsConsecutive (validate_role_alternation (normalize_messages talk false) false)
unfolding effective_role role_eq
normalize_messages-validated_example =
    normalize_messages-validated false talk (refl, (refl, (refl, (refl, (refl, (refl, tt))))))

normalize_messages-totals_example :
    (total_tokens (normalize_messages talk false) ≡ total_tokens talk)
    × (all_tool_calls (normalize_messages talk false) ≡ all_tool_calls talk)
normalize_messages-totals_example = normalize_messages-totals talk false

validate_role_alternation-WellFormed_example : WellFormed (normalize_messages talk true)
validate_role_alternation-WellFormed_example =
    validate_role_alternation-WellFormed true (normalize_messages talk true) kept_valid

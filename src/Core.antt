-- ===== src/Core.antt =====
-- The data of internal/core/types.go: roles, messages, tool calls and their results.
pub mod Ids
use kontekst.Prelude.Int.{ℤ, pos, ◌+ℤ◌}
use kontekst.Prelude.{Bool, true, false, List, [], ◌∷◌, Option, none, some, Bytes, bytes_eq}

-- Go's `Role` is a string: the constants, and any other text.
pub data Role : Type 0 where
  system user assistant tool : Role
  other : Bytes → Role

-- `==` on roles; `other` stands for texts that are none of the constants.
unfoldable pub role_eq : Role → Role → Bool
role_eq system system = true
role_eq user user = true
role_eq assistant assistant = true
role_eq tool tool = true
role_eq (other a) (other b) = bytes_eq a b
role_eq a b = false

-- A decoded JSON value, the `any` of `map[string]any`. A number is a decimal mantissa with its exponent.
mutual
  pub data Json : Type 0 where
    null : Json
    boolean : Bool → Json
    number : (mantissa exponent : ℤ) → Json
    text : Bytes → Json
    array : Items → Json
    object : Fields → Json

  pub data Items : Type 0 where
    no_items : Items
    item : Json → Items → Items

  pub data Fields : Type 0 where
    no_fields : Fields
    field : (key : Bytes) → Json → Fields → Fields

pub record ToolCall : Type 0 where
  pub id : Bytes
  pub name : Bytes
  pub arguments : Fields

pub record ToolResult : Type 0 where
  pub call_id : Bytes
  pub name : Bytes
  pub output : Bytes
  pub is_error : Bool

pub record Message : Type 0 where
  pub role : Role
  pub content : Bytes
  pub tool_calls : List ToolCall
  pub tool_result : Option ToolResult
  pub agent_name : Bytes
  pub tokens : ℤ

-- A float64 that a configuration writes out: a mantissa with a decimal exponent.
pub record Decimal : Type 0 where
  pub mantissa : ℤ
  pub exponent : ℤ

pub record SamplingConfig : Type 0 where
  pub temperature : Option Decimal
  pub top_p : Option Decimal
  pub top_k : Option ℤ
  pub repeat_penalty : Option Decimal
  pub max_tokens : Option ℤ

pub record SkillMetadata : Type 0 where
  pub name : Bytes
  pub path : Bytes

-- The empty string, Go's `""`.
abbrev pub is_empty : Bytes → Bool
is_empty [] = true
is_empty (c ∷ cs) = false

abbrev pub is_some {ℓ} : {A : Type ℓ} → Option A → Bool
is_some none = false
is_some (some a) = true

abbrev pub has_any {ℓ} : {A : Type ℓ} → List A → Bool
has_any [] = false
has_any (x ∷ xs) = true

-- The sum of the tokens, the measure of every budget.
unfoldable pub total_tokens : List Message → ℤ
total_tokens [] = pos 0
total_tokens (m ∷ ms) = m.tokens +ℤ total_tokens ms

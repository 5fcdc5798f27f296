-- ===== src/Protocol/Sessions.antt =====
-- The sessions of the server and what it reads of a prompt, internal/protocol/server.go, with the
-- capabilities of internal/protocol/types/capabilities.go.
use kontekst.Prelude.{
  Bool, true, false, not, ◌&&◌, ◌||◌, List, [], ◌∷◌, Option, none, some, Bytes, codes, bytes_eq,
  ◌==◌, if◌then◌else◌,
}
use kontekst.Prelude.Strings.{trim_space, trim_prefix, join_with}
use kontekst.Core.{is_empty}

pub record FileSystemCapability : Type 0 where
  pub read_text_file : Bool
  pub write_text_file : Bool

pub record ClientCapabilities : Type 0 where
  pub fs : Option FileSystemCapability
  pub terminal : Bool

abbrev pub no_capabilities : ClientCapabilities
no_capabilities = record { fs = none; terminal = false }

unfoldable pub has_acp_tools : ClientCapabilities → Bool
has_acp_tools caps =
    if caps.terminal
    then true
    else elim caps.fs [ none ↦ false | some fs ↦ fs.read_text_file || fs.write_text_file ]

pub record ContentBlock : Type 0 where
  pub type_ : Bytes
  pub text : Bytes

unfoldable pub text_parts : List ContentBlock → List Bytes
text_parts [] = []
text_parts (b ∷ blocks) =
    let rest = text_parts blocks in
    if bytes_eq b.type_ (codes "text") && not (is_empty b.text) then b.text ∷ rest else rest

unfoldable pub extract_text : List ContentBlock → Bytes
extract_text blocks = join_with (10 ∷ []) (text_parts blocks)

-- The text up to its first space, and the text behind that space, if it has one.
unfoldable pub cut_space : Bytes → Bytes × Option Bytes
cut_space [] = ([], none)
cut_space (c ∷ s) =
    let (name, args) = cut_space s in if c == 32 then ([], some s) else (c ∷ name, args)

unfoldable pub trimmed_args : Bytes × Option Bytes → Bytes × Bytes
trimmed_args (name, none) = (name, [])
trimmed_args (name, some args) = (name, trim_space args)

unfoldable pub parse_skill_invocation : Bytes → Bytes × Bytes
parse_skill_invocation text = trimmed_args (cut_space (trim_prefix (codes "/") text))

pub record SessionState : Type 0 where
  pub agent_name : Bytes
  pub session_id : Bytes
  pub cwd : Bytes
  pub has_channel : Bool

-- The sync.Map of the sessions; each id stands once.
abbrev pub Sessions : Type 0
Sessions = List (Bytes × SessionState)

unfoldable pub store_session : (sid : Bytes) → SessionState → Sessions → Sessions
store_session sid state [] = (sid, state) ∷ []
store_session sid state ((id, old) ∷ sessions) =
    let rest = store_session sid state sessions in
    if bytes_eq id sid then (sid, state) ∷ sessions else (id, old) ∷ rest

unfoldable pub load_session : (sid : Bytes) → Sessions → Option SessionState
load_session sid [] = none
load_session sid ((id, state) ∷ sessions) =
    let rest = load_session sid sessions in if bytes_eq id sid then some state else rest

pub record Handler : Type 0 where
  pub sessions : Sessions
  pub caps : ClientCapabilities

unfoldable pub new_handler : Handler
new_handler = record { sessions = []; caps = no_capabilities }

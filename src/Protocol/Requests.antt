-- ===== src/Protocol/Requests.antt =====
-- The requests of the server's methods and their results, internal/protocol/types.
use kontekst.Prelude.Int.{ℤ, negsuc}
use kontekst.Prelude.{List, Option, Bytes}
use kontekst.Core.{Fields}
use kontekst.Protocol.Messages.{RpcError}
use kontekst.Protocol.Server.{StopReason}
use kontekst.Protocol.Sessions.{ClientCapabilities, ContentBlock}

abbrev pub err_invalid_params : ℤ
err_invalid_params = negsuc 32601

abbrev pub err_not_found : ℤ
err_not_found = negsuc 32001

pub data Decoded (A : Type 0) : Type 0 where
  decoded : A → Decoded A
  undecodable : (error : Bytes) → Decoded A

pub record NewSessionRequest : Type 0 where
  pub cwd : Bytes
  pub meta : Option Fields

pub record LoadSessionRequest : Type 0 where
  pub session_id : Bytes
  pub cwd : Bytes

pub record PromptRequest : Type 0 where
  pub session_id : Bytes
  pub prompt : List ContentBlock

-- json.Unmarshal of the params into each request; `initialize` is used for params that are not empty.
pub record Decoders : Type 0 where
  pub initialize : Bytes → Decoded ClientCapabilities
  pub new_session : Bytes → Decoded NewSessionRequest
  pub load_session : Bytes → Decoded LoadSessionRequest
  pub prompt : Bytes → Decoded PromptRequest
  pub cancel : Bytes → Decoded Bytes

-- The results of the methods; that of initialize is always the same.
pub data Result : Type 0 where
  initialized authenticated nothing mode_set config_set : Result
  session_created session_loaded : (session_id : Bytes) → Result
  prompted : StopReason → Result

pub data Answer : Type 0 where
  answers : Result → Answer
  refuses : RpcError → Answer
  still_running : Answer

-- ===== src/Protocol/Messages.antt =====
-- The messages of JSON-RPC, internal/protocol/jsonrpc.go, and the error codes of types/protocol.go.
use kontekst.Prelude.Int.{ℤ, pos, negsuc}
use kontekst.Prelude.{ℕ, [], Option, none, some, Bytes, codes}

pub record RpcError : Type 0 where
  pub code : ℤ
  pub message : Bytes

-- jsonrpcMessage. An absent method, parameter list or result is the empty text.
pub record RpcMessage : Type 0 where
  pub jsonrpc : Bytes
  pub id : Option ℤ
  pub method : Bytes
  pub params : Bytes
  pub result : Bytes
  pub error : Option RpcError

pub record RpcResponse : Type 0 where
  pub result : Bytes
  pub error : Option RpcError

abbrev pub version : Bytes
version = codes "2.0"

abbrev pub err_method_not_found : ℤ
err_method_not_found = negsuc 32600

abbrev pub err_internal_error : ℤ
err_internal_error = negsuc 32602

unfoldable pub response_of : RpcMessage → RpcResponse
response_of msg = record { result = msg.result; error = msg.error }

unfoldable pub closed_response : RpcResponse
closed_response = record {
  result = [];
  error = some (record { code = err_internal_error; message = codes "connection closed" });
}

-- What a handler gave: an RPCError, another error, or a value that json.Marshal turns into text or
-- refuses.
pub data Handled : Type 0 where
  rpc_error : RpcError → Handled
  failed : (error : Bytes) → Handled
  marshalled : (data_ : Bytes) → Handled
  unmarshalled : (error : Bytes) → Handled

abbrev pub error_message : Option ℤ → ℤ → Bytes → RpcMessage
error_message id code text = record {
  jsonrpc = version;
  id = id;
  method = [];
  params = [];
  result = [];
  error = some (record { code = code; message = text });
}

-- The message of handleRequest; there is no outcome where the connection has no handler.
unfoldable pub handle_request : Option Handled → RpcMessage → RpcMessage
handle_request none msg = error_message msg.id err_method_not_found (codes "no handler")
handle_request (some (rpc_error e)) msg = error_message msg.id e.code e.message
handle_request (some (failed e)) msg = error_message msg.id err_internal_error e
handle_request (some (unmarshalled e)) msg = error_message msg.id err_internal_error e
handle_request (some (marshalled result)) msg = record {
  jsonrpc = version;
  id = msg.id;
  method = [];
  params = [];
  result = result;
  error = none;
}

unfoldable pub request_message : ℕ → (method params : Bytes) → RpcMessage
request_message n method params = record {
  jsonrpc = version;
  id = some (pos n);
  method = method;
  params = params;
  result = [];
  error = none;
}

unfoldable pub notification_message : (method params : Bytes) → RpcMessage
notification_message method params = record {
  jsonrpc = version;
  id = none;
  method = method;
  params = params;
  result = [];
  error = none;
}

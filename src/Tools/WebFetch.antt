-- ===== src/Tools/WebFetch.antt =====
-- The web_fetch tool, internal/tool/builtin/web_fetch.go. The HTTP client is a parameter.
use kontekst.Prelude.Int.{ℤ, pos, negsuc}
use kontekst.Prelude.{
  ℕ, zero, suc, ◌*◌, ◌%◌, ◌^◌, ◌-◌, ◌+◌, not, ◌&&◌, List, [], ◌∷◌, ◌++◌, Option, none, some, Bytes,
  bytes_eq, codes, length, take, ltb, ◌==◌, if◌then◌else◌,
}
use kontekst.Prelude.Strings.{has_prefix}
use kontekst.Core.{Json, text, object, Fields, no_fields, field, is_empty}
use kontekst.Diff.Text.{decimal}
use kontekst.Paths.{lookup, get_string_arg}
use kontekst.Agent.Types.{Reply, reply, error}
use kontekst.Agent.Registry.{seconds}
use kontekst.Command.Environment.{to_upper}

pub record WebToolsConfig : Type 0 where
  pub timeout_seconds : ℤ
  pub max_response_bytes : ℤ

-- The headers in the order in which they are set. The timeout is a time.Duration.
pub record WebRequest : Type 0 where
  pub method : Bytes
  pub url : Bytes
  pub headers : List (Bytes × Bytes)
  pub timeout : ℤ

-- `body` is what io.ReadAll gives behind a limit of so many bytes.
pub record WebResponse : Type 0 where
  pub status : Bytes
  pub content_type : Bytes
  pub body : (limit : ℕ) → Reply Bytes

-- http.NewRequestWithContext and Do, with at most ten redirects.
pub record HttpClient : Type 0 where
  pub request_error : (method url : Bytes) → Option Bytes
  pub send : WebRequest → Reply WebResponse

-- Where the product is not positive, also behind a wrap-around, the timeout is 30 seconds.
unfoldable pub positive_or_default : ℤ → ℤ
positive_or_default (pos (suc n)) = pos (suc n)
positive_or_default (pos zero) = pos 30000000000
positive_or_default (negsuc n) = pos 30000000000

unfoldable pub web_timeout : ℤ → ℤ
web_timeout (pos n) = positive_or_default (seconds n)
web_timeout (negsuc n) =
    let ns = (2 ^ 64 - suc n * 1000000000 % 2 ^ 64) % 2 ^ 64 in
    if ltb ns (2 ^ 63) then positive_or_default (pos ns) else pos 30000000000

unfoldable pub max_bytes_of : ℤ → ℕ
max_bytes_of (pos (suc n)) = suc n
max_bytes_of (pos zero) = 5 * 1024 * 1024
max_bytes_of (negsuc n) = 5 * 1024 * 1024

-- `maxBytes+1` is an int64; a limit that is negative reads nothing.
unfoldable pub read_limit : ℕ → ℕ
read_limit max_bytes = if max_bytes == 2 ^ 63 - 1 then 0 else max_bytes + 1

-- `GET` where there is no method, or an empty one.
unfoldable pub request_method : Option Bytes → Bytes
request_method none = codes "GET"
request_method (some method) = if is_empty method then codes "GET" else to_upper method

unfoldable pub text_headers : Fields → List (Bytes × Bytes)
text_headers no_fields = []
text_headers (field key (text value) fields) = (key, value) ∷ text_headers fields
text_headers (field key value fields) = text_headers fields

unfoldable pub headers_of : Option Json → List (Bytes × Bytes)
headers_of (some (object fields)) = text_headers fields
headers_of value = []

unfoldable pub shown_response : WebResponse → (max_bytes : ℕ) → Bytes → Bytes
shown_response resp max_bytes read =
    let truncated = ltb max_bytes (length read) in
    let body = if truncated then take max_bytes read else read in
    codes "Status: "
    ++ (resp.status
        ++ (10
            ∷ (codes "Content-Type: "
                ++ (resp.content_type
                    ++ (10
                        ∷ (codes "Content-Length: "
                            ++ (decimal (length body)
                                ++ (10
                                    ∷ ((if truncated
                                          then codes "(Response truncated due to size limit)"
                                            ++ (10 ∷ [])
                                          else [])
                                        ++ (10 ∷ body))))))))))

unfoldable pub read_body : WebResponse → (max_bytes : ℕ) → Reply Bytes → Reply Bytes
read_body resp max_bytes (error e) = error (codes "failed to read response: " ++ e)
read_body resp max_bytes (reply read) = reply (shown_response resp max_bytes read)

unfoldable pub read_response : (max_bytes : ℕ) → Reply WebResponse → Reply Bytes
read_response max_bytes (error e) = error (codes "request failed: " ++ e)
read_response max_bytes (reply resp) = read_body resp max_bytes (resp.body (read_limit max_bytes))

module _ (client : HttpClient) (config : WebToolsConfig) where
  unfoldable pub send_request : (method url : Bytes) → Fields → Option Bytes → Reply Bytes
  send_request method url args (some e) = error (codes "failed to create request: " ++ e)
  send_request method url args none = read_response (max_bytes_of config.max_response_bytes) (
      client.send (record {
        method = method;
        url = url;
        headers =
            (codes "User-Agent", codes "kontekst/1.0") ∷ headers_of (lookup (codes "headers") args);
        timeout = web_timeout config.timeout_seconds;
      }))

  unfoldable pub fetch_url : (method url : Bytes) → Fields → Reply Bytes
  fetch_url method url args =
      if is_empty url
      then error (codes "missing url")
      else if not (has_prefix (codes "http://") url) && not (has_prefix (codes "https://") url)
      then error (codes "url must start with http:// or https://")
      else if not (bytes_eq method (codes "GET")) && not (bytes_eq method (codes "HEAD"))
      then error (codes "only GET and HEAD methods are supported")
      else send_request method url args (client.request_error method url)

  -- Execute of web_fetch.
  unfoldable pub web_fetch : Fields → Reply Bytes
  web_fetch args = elim (get_string_arg (codes "url") args) [
    | none ↦ error (codes "missing url")
    | some url ↦ fetch_url (request_method (get_string_arg (codes "method") args)) url args
  ]

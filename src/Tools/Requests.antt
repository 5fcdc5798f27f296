-- ===== src/Tools/Requests.antt =====
-- The requests that web_fetch of internal/tool/builtin/web_fetch.go makes, and what it shows of the answer.
use mathlib.Core.Bool.{true≢false}
use kontekst.Prelude.Int.{ℤ, pos, negsuc}
use kontekst.Prelude.{
  ℕ, zero, suc, ◌≡◌, ◌⊎◌, inl, inr, refl, ap, ◌∙◌, Bool, true, false, not, ◌&&◌, Option, none, some,
  Bytes, bytes_eq, codes, ltb, ◌^◌, ◌*◌, ◌%◌, ◌-◌, if_ind, if_both, bytes_eq→eq,
}
use kontekst.Prelude.Strings.{has_prefix}
use kontekst.Core.{Fields, is_empty}
use kontekst.Paths.{get_string_arg}
use kontekst.Agent.Types.{Reply, error}
use kontekst.Agent.Registry.{seconds}
use kontekst.Tools.WebFetch.{
  WebToolsConfig, WebRequest, HttpClient, positive_or_default, web_timeout, max_bytes_of,
  read_response, request_method, send_request, fetch_url, web_fetch,
}

-- GET or HEAD of an http or https URL, with a timeout.
pub record IsFetch (request : WebRequest) : Type 0 where
  pub reads : (request.method ≡ codes "GET") ⊎ (request.method ≡ codes "HEAD")
  pub is_web :
      (has_prefix (codes "http://") request.url ≡ true)
      ⊎ (has_prefix (codes "https://") request.url ≡ true)
  pub ends : (n : ℕ) × (request.timeout ≡ pos (suc n))

positive_or_default-positive : (t : ℤ) → (n : ℕ) × (positive_or_default t ≡ pos (suc n))
unfolding positive_or_default
positive_or_default-positive (pos (suc n)) = (n, refl)
positive_or_default-positive (pos zero) = (29999999999, refl)
positive_or_default-positive (negsuc n) = (29999999999, refl)

web_timeout-positive : (t : ℤ) → (n : ℕ) × (web_timeout t ≡ pos (suc n))
unfolding web_timeout
web_timeout-positive (pos n) = positive_or_default-positive (seconds n)
web_timeout-positive (negsuc n) =
    let ns = (2 ^ 64 - suc n * 1000000000 % 2 ^ 64) % 2 ^ 64 in
    if_ind (λ (t : ℤ). (k : ℕ) × (t ≡ pos (suc k))) (ltb ns (2 ^ 63))
      (λ _. positive_or_default-positive (pos ns)) (λ _. (29999999999, refl))

one_of : (a b : Bool) → (not a && not b) ≡ false → (a ≡ true) ⊎ (b ≡ true)
one_of true b h = inl refl
one_of false true h = inr refl
one_of false false h = absurd (true≢false h)

named :
    (method : Bytes)
    → (bytes_eq method (codes "GET") ≡ true) ⊎ (bytes_eq method (codes "HEAD") ≡ true)
    → (method ≡ codes "GET") ⊎ (method ≡ codes "HEAD")
named method (inl get) = inl (bytes_eq→eq method (codes "GET") get)
named method (inr head) = inr (bytes_eq→eq method (codes "HEAD") head)

module _ (a b : HttpClient) (config : WebToolsConfig)
    (same_checks : (method url : Bytes) → a.request_error method url ≡ b.request_error method url)
    (same_answers : (r : WebRequest) → IsFetch r → a.send r ≡ b.send r) (args : Fields) where
  send_request-same :
      (method url : Bytes) (failure : Option Bytes)
      → (method ≡ codes "GET") ⊎ (method ≡ codes "HEAD")
      → (has_prefix (codes "http://") url ≡ true) ⊎ (has_prefix (codes "https://") url ≡ true)
      → send_request a config method url args failure
        ≡ send_request b config method url args failure
  unfolding send_request
  send_request-same method url (some e) reads is_web = refl
  send_request-same method url none reads is_web =
      ap (read_response (max_bytes_of config.max_response_bytes)) (
        same_answers _ (record {
          reads = reads;
          is_web = is_web;
          ends = web_timeout-positive config.timeout_seconds;
        }))

  fetch_url-same :
      (method url : Bytes) → fetch_url a config method url args ≡ fetch_url b config method url args
  unfolding fetch_url
  fetch_url-same method url =
      let is_get = bytes_eq method (codes "GET") in
      let is_head = bytes_eq method (codes "HEAD") in
      let is_http = has_prefix (codes "http://") url in
      let is_https = has_prefix (codes "https://") url in
      if_both (λ (x y : Reply Bytes). x ≡ y) (is_empty url) (λ _. refl)
        (λ _.
          if_both (λ (x y : Reply Bytes). x ≡ y) (not is_http && not is_https) (λ _. refl)
            (λ web.
              if_both (λ (x y : Reply Bytes). x ≡ y) (not is_get && not is_head) (λ _. refl)
                (λ read.
                  send_request-same method url (a.request_error method url)
                    (named method (one_of is_get is_head read)) (one_of is_http is_https web)
                  ∙ ap (send_request b config method url args) (same_checks method url))))

  -- Two HTTP clients that refuse the same URLs and answer alike every GET and HEAD of an http or https URL that has a timeout give the same result of web_fetch: it makes no other request.
  pub web_fetch-IsFetch : web_fetch a config args ≡ web_fetch b config args
  unfolding web_fetch
  web_fetch-IsFetch = found (get_string_arg (codes "url") args)
    where
      found :
          (url : Option Bytes)
          → (elim url [
            | none ↦ error (codes "missing url")
            | some u ↦
                fetch_url a config (request_method (get_string_arg (codes "method") args)) u args
          ])
            ≡ (elim url [
              | none ↦ error (codes "missing url")
              | some u ↦
                  fetch_url b config (request_method (get_string_arg (codes "method") args)) u args
            ])
      found none = refl
      found (some u) = fetch_url-same (request_method (get_string_arg (codes "method") args)) u

-- ===== src/Gateway/Client.antt =====
-- The calls of apps/dashboard/internal/gateway/admin_client.go: what the client makes of the answer of
-- the gateway's HTTP server. JSON decoding, strconv.Atoi and url.PathEscape are parameters.
pub mod Errors
use Prim.Native.String.{[] as no_text, ◌∷◌ as then_char}
use lucairn_enterprise_deplo.Base.{
  ℕ, zero, suc, ◌+◌, ◌-◌, ◌*◌, ◌%◌, ◌^◌, String, Bool, true, false, not, ◌&&◌, ◌||◌, Option, none,
  some, List, [], ◌∷◌, any, leb, ltb, ◌==◌, str_eq, if◌then◌else◌, Result, ok, err,
}
use lucairn_enterprise_deplo.Base.Int.{ℤ, is_positive, pos_part}
use lucairn_enterprise_deplo.Base.Text.{
  ◌++◌, decimal, has_prefix, trim_space, byte_length, cut_bytes,
}
use lucairn_enterprise_deplo.Web.{or_empty}
use lucairn_enterprise_deplo.Gateway.Redact.{redact_sensitive}

-- The typed errors, and `failed` for the errors that are a text.
pub data AdminError : Type 0 where
  token_rejected customer_not_found key_not_found max_keys_reached : AdminError
  -- an error that wraps context.Canceled or context.DeadlineExceeded
  cancelled : AdminError
  rate_limited : (retry_after : ℕ) → AdminError
  failed : String → AdminError

pub record CustomerEntry : Type 0 where
  pub api_key_prefix : String
  pub customer_id : String
  pub tier : String
  pub vertical : String
  pub managed_ai : Bool

pub record KeyEntry : Type 0 where
  pub key_id : String
  pub key_prefix : String
  pub raw_key : String

pub record ListKeysResult : Type 0 where
  pub customer_id : String
  pub tier : String
  pub max_keys : ℤ
  pub keys : List KeyEntry

pub record MintKeyResult : Type 0 where
  pub key_id : String
  pub key_prefix : String
  pub raw_key : String

pub record RevokeKeyResult : Type 0 where
  pub revoked : Bool
  pub key_id : String
  pub key_prefix : String

pub record ErrorResponse : Type 0 where
  pub code : String
  pub retry_after_seconds : ℤ

-- What a request comes to: it cannot be built, fails on the way, its answer cannot be read, or there
-- is a status with a body and perhaps a Retry-After header.
pub data Answer : Type 0 where
  unbuilt : String → Answer
  -- the error of the transport, and whether it is the end of the request's context
  broken : (ended : Bool) → String → Answer
  -- the error of the read, and whether it is the end of the request's context
  unread : (ended : Bool) → String → Answer
  responded : (status : ℕ) → (body : String) → (retry_after : Option String) → Answer

-- The first 200 bytes.
body_excerpt : String → String
body_excerpt body =
    if leb (byte_length body) 200 then body else cut_bytes 200 body ++ "...(truncated)"

redacted : String → String
redacted s = or_empty (redact_sensitive s)

-- time.Duration(seconds) * time.Second, as a 64-bit pattern
seconds_of : ℕ → ℕ
seconds_of n = n * 1000000000 % 2 ^ 64

not_found_code : Option ErrorResponse → AdminError
not_found_code none = customer_not_found
not_found_code (some e) =
    if str_eq e.code "key_not_found" then key_not_found else customer_not_found

has_code : String → Option ErrorResponse → Bool
has_code code none = false
has_code code (some e) = str_eq e.code code

after_header : Option ℤ → ℕ
unfolding seconds_of
after_header none = seconds_of 60
after_header (some n) = if is_positive n then seconds_of (pos_part n) else seconds_of 60

from_header : (String → Option ℤ) → Option String → ℕ
unfolding seconds_of after_header
from_header atoi none = seconds_of 60
from_header atoi (some h) = if str_eq h "" then seconds_of 60 else after_header (atoi h)

-- How long to wait: what the body says, else what the header says, else a minute.
retry_of : (String → Option ℤ) → Option String → Option ErrorResponse → ℕ
unfolding from_header seconds_of
retry_of atoi header none = from_header atoi header
retry_of atoi header (some e) =
    if is_positive e.retry_after_seconds
    then seconds_of (pos_part e.retry_after_seconds)
    else from_header atoi header

module _ (decode_error : String → Option ErrorResponse) (atoi : String → Option ℤ) where
  -- parseError, without its error
  parse_error : String → Option ErrorResponse
  parse_error body = if str_eq body "" then none else decode_error body

  status_of : String → String → ℕ → String → Option String → Result AdminError String
  unfolding parse_error retry_of not_found_code has_code body_excerpt redacted
  status_of method path status body header =
      if status == 200 || status == 201
      then ok body
      else if status == 401
      then err token_rejected
      else if status == 404
      then err (not_found_code (parse_error body))
      else if status == 409
      then (if has_code "max_keys_reached" (parse_error body)
          then err max_keys_reached
          else err (
              failed (
                "gateway admin: "
                ++ method
                ++ " "
                ++ path
                ++ ": 409 "
                ++ redacted (body_excerpt body))))
      else if status == 429
      then err (rate_limited (retry_of atoi header (parse_error body)))
      else err (
          failed (
            "gateway admin: "
            ++ method
            ++ " "
            ++ path
            ++ ": HTTP "
            ++ decimal status
            ++ " "
            ++ redacted (body_excerpt body)))

  -- do; `answer` is what the request for the method and path comes to.
  pub do_request : String → String → Answer → Result AdminError String
  unfolding status_of redacted
  do_request method path (unbuilt e) = err (failed ("gateway admin: build request: " ++ e))
  do_request method path (broken ended e) =
      err (failed ("gateway admin: " ++ method ++ " " ++ path ++ ": " ++ redacted e))
  do_request method path (unread ended e) =
      if ended then err cancelled else err (failed ("gateway admin: read response: " ++ e))
  do_request method path (responded status body header) = status_of method path status body header

-- json.Unmarshal into the results
pub record Decoders : Type 0 where
  pub customers : String → Result String (List CustomerEntry)
  pub keys : String → Result String ListKeysResult
  pub minted : String → Result String MintKeyResult
  pub revoked : String → Result String RevokeKeyResult

module _ {A : Type 0} where
  decoded : String → Result String A → Result AdminError A
  decoded what (ok a) = ok a
  decoded what (err e) = err (failed ("gateway admin: " ++ what ++ " decode: " ++ e))

  with_body : String → (String → Result String A) → Result AdminError String → Result AdminError A
  unfolding decoded
  with_body what decode (ok body) = decoded what (decode body)
  with_body what decode (err e) = err e

checked : Result AdminError MintKeyResult → Result AdminError MintKeyResult
checked (err e) = err e
checked (ok out) =
    if str_eq out.raw_key "" || not (has_prefix "lcr_live_" out.raw_key)
    then err (failed "gateway admin: mint key response missing raw_key")
    else ok out

-- The client: the decoders of the standard library, and what a request with a method, a path and the
-- reveal parameter comes to.
module _ (decode_error : String → Option ErrorResponse) (atoi : String → Option ℤ)
    (decode : Decoders) (path_escape : String → String)
    (send : String → String → Bool → Answer) where
  abbrev pub keys_path : String → String
  keys_path customer_id = "/api/v1/admin/customers/" ++ path_escape customer_id ++ "/keys"

  pub list_customers : Result AdminError (List CustomerEntry)
  unfolding with_body do_request
  list_customers = with_body "list customers" decode.customers (
      do_request decode_error atoi "GET" "/api/v1/admin/customers"
        (send "GET" "/api/v1/admin/customers" false))

  pub list_keys : String → Bool → Result AdminError ListKeysResult
  unfolding with_body do_request
  list_keys customer_id reveal =
      if str_eq customer_id ""
      then err (failed "gateway admin: ListKeys customer_id is required")
      else with_body "list keys" decode.keys (
          do_request decode_error atoi "GET" (keys_path customer_id)
            (send "GET" (keys_path customer_id) reveal))

  pub mint_key : String → Result AdminError MintKeyResult
  unfolding with_body do_request checked
  mint_key customer_id =
      if str_eq customer_id ""
      then err (failed "gateway admin: MintKey customer_id is required")
      else checked (
          with_body "mint key" decode.minted (
            do_request decode_error atoi "POST" (keys_path customer_id)
              (send "POST" (keys_path customer_id) false)))

  pub revoke_key : String → String → Result AdminError RevokeKeyResult
  unfolding with_body do_request
  revoke_key customer_id key_id =
      if str_eq customer_id ""
      then err (failed "gateway admin: RevokeKey customer_id is required")
      else if str_eq key_id ""
      then err (failed "gateway admin: RevokeKey key_id is required")
      else with_body "revoke key" decode.revoked (
          do_request decode_error atoi "DELETE" (keys_path customer_id ++ "/" ++ path_escape key_id)
            (send "DELETE" (keys_path customer_id ++ "/" ++ path_escape key_id) false))

abbrev placeholders : List String
placeholders =
    "change_me" ∷ "changeme" ∷ "replace_me" ∷ "replace_with" ∷ "your-admin-token"
    ∷ "your_admin_token" ∷ "placeholder" ∷ "todo" ∷ []

-- isPlaceholderToken
pub is_placeholder_token : (String → String) → String → Bool
is_placeholder_token to_lower tok =
    let low = to_lower (trim_space tok) in any (λ p. has_prefix p low) placeholders

-- What url.Parse gives.
pub record Url : Type 0 where
  pub scheme : String
  pub host : String

pub record AdminClient : Type 0 where
  pub base_url : Url
  pub admin_token : String

client_for : (String → String) → Url → String → Result String AdminClient
unfolding is_placeholder_token
client_for to_lower u admin_token =
    if not (str_eq u.scheme "http") && not (str_eq u.scheme "https")
    then err "gateway admin: baseURL scheme must be http or https"
    else if str_eq u.host ""
    then err "gateway admin: baseURL has no host"
    else if str_eq admin_token ""
    then err "gateway admin: adminToken is required"
    else if is_placeholder_token to_lower admin_token
    then err "gateway admin: adminToken is a placeholder"
    else ok (record { base_url = u; admin_token = admin_token })

with_url : (String → String) → Result String Url → String → Result String AdminClient
unfolding client_for
with_url to_lower (err e) admin_token = err ("gateway admin: baseURL parse: " ++ e)
with_url to_lower (ok u) admin_token = client_for to_lower u admin_token

-- NewAdminClient. The errors are named without the value that they quote.
pub new_admin_client :
    (String → String) → (String → Result String Url) → String → String → Result String AdminClient
unfolding with_url
new_admin_client to_lower parse base_url admin_token =
    if str_eq (trim_space base_url) ""
    then err "gateway admin: baseURL is required"
    else with_url to_lower (parse (trim_space base_url)) (trim_space admin_token)

-- ===== src/Tests/Keys.antt =====
-- The key handlers at concrete requests.
use mathlib.Core.List.Permᴰ
use mathlib.Core.List.Permᴰ.{Permᴰ, nil, swap}
use lucairn_enterprise_deplo.Base.{
  ℕ, zero, suc, ◌≤◌, String, ◌≡◌, refl, Bool, true, false, Option, none, some, List, [], ◌∷◌,
  length, ok, err,
}
use lucairn_enterprise_deplo.Base.Int.{ℤ, pos}
use lucairn_enterprise_deplo.Base.Text.{trim_space, byte_length}
use lucairn_enterprise_deplo.Base.Dict.{dict_runs}
use lucairn_enterprise_deplo.Auth.{role_admin}
use lucairn_enterprise_deplo.Auth.Session.{Session}
use lucairn_enterprise_deplo.Auth.Csrf.{verify_token}
use lucairn_enterprise_deplo.Web.{Request, redirect, page}
use lucairn_enterprise_deplo.Gateway.Client.{
  key_not_found, CustomerEntry, ListKeysResult, MintKeyResult, ErrorResponse, Answer, broken,
  Decoders, revoke_key,
}
use lucairn_enterprise_deplo.Handlers.Keys.{
  KeyEvent, mint_requested, revoke_requested, minting, revoking, KeysState, Lookup, KeysPage,
  new_page, keys_runs,
}
use lucairn_enterprise_deplo.Handlers.Keys.Admission.{IsAdmitted}
use lucairn_enterprise_deplo.Handlers.Keys.Mint.{Minter, mint}
use lucairn_enterprise_deplo.Handlers.Keys.Mint.Shown.{IsMinted, mint-IsMinted, retold, mint-retold}
use lucairn_enterprise_deplo.Handlers.Keys.Revoke.{
  Revoker, Run, Attempt, called, bulk_revoke, revoke_runs,
}
use lucairn_enterprise_deplo.Handlers.Keys.Revoke.Recorded.{IsRecorded, bulk_revoke-IsRecorded}
use lucairn_enterprise_deplo.Handlers.Keys.Escape.{escape_query_value}
use lucairn_enterprise_deplo.Handlers.Keys.Escape.Decoding.{decode, utf8, decode-escape_query_value}

abbrev session : Session
session = record {
  id = "s-1";
  user = record { email = "a@b"; role = role_admin };
  created_at = 0;
  last_seen = 50;
}

abbrev request : Request
request = record {
  method = "POST";
  path = "/keys/mint";
  request_uri = "/keys/mint";
  session_cookie = some "s-1";
  csrf_cookie = some "t";
  form_parses = true;
  post_form = ("csrf", "t") ∷ ("customer_id", " acme ") ∷ [];
  query = [];
  session = some session;
}

abbrev acme : CustomerEntry
acme = record {
  api_key_prefix = "";
  customer_id = "acme";
  tier = "pro";
  vertical = "law";
  managed_ai = false;
}

abbrev lookup : Lookup
lookup = record { now = 10; recheck = 11; stored = 12; meanwhile = λ c. c; answer = ok (acme ∷ []) }

abbrev empty : KeysState
empty = record { cache = record { cached_at = none; cached_list = [] }; trail = []; changes = [] }

abbrev key : MintKeyResult
key = record { key_id = "k-9"; key_prefix = "lcr_live_9"; raw_key = "lcr_live_99" }

abbrev keys : ListKeysResult
keys = record { customer_id = "acme"; tier = "pro"; max_keys = pos 5; keys = [] }

abbrev minter : Minter
minter = record {
  accepts = λ e. true;
  mint_key = λ c. ok key;
  list_keys = λ c. ok keys;
  before = lookup;
  after = lookup;
  renders = λ p. true;
}

abbrev shown : KeysPage
shown = record (new_page "t" true) {
  customers = acme ∷ [];
  selected_id = "acme";
  keys_result = some keys;
  just_minted = some key;
}

abbrev after_mint : KeysState
after_mint = record {
  cache = record { cached_at = some 12; cached_list = acme ∷ [] };
  trail = mint_requested "a@b" "acme" "k-9" "lcr_live_9" ∷ [];
  changes = minting "acme" ∷ [];
}

mints : mint true minter request empty ≡ (page 200 shown, after_mint)
unfolding mint keys_runs verify_token byte_length trim_space dict_runs
mints = refl

mint-IsMinted_example :
    ((sess : Session) × IsAdmitted request request.session sess)
    × IsMinted minter empty after_mint shown
mint-IsMinted_example = mint-IsMinted true minter request empty after_mint shown mints

mint-retold_example :
    (mint true (retold (λ k. "lcr_live_other") minter) request empty).1
    ≡ (mint true minter request empty).1
mint-retold_example = mint-retold (λ k. "lcr_live_other") true minter request empty

-- The gateway revokes the first key and does not know the second; the request ends before the third.
abbrev attempts : ℕ → Attempt
attempts zero = called (ok (record { revoked = true; key_id = "k-1"; key_prefix = "lcr_live_1" }))
attempts (suc n) = called (err key_not_found)

-- The second worker is done first.
abbrev swapped : List KeyEvent → List KeyEvent
swapped (d ∷ e ∷ es) = e ∷ d ∷ es
swapped es = es

swapped-perm : (l : List KeyEvent) → Permᴰ (swapped l) l
swapped-perm [] = nil
swapped-perm (d ∷ []) = Permᴰ.refl (d ∷ [])
swapped-perm (d ∷ e ∷ es) = swap refl refl

abbrev run : Run
run = record { acquired = 2; attempt = attempts; order = swapped }

abbrev revoker : Revoker
revoker = record { accepts = λ e. true; revoke_key = λ c k. err key_not_found; lookup = lookup }

abbrev three : List String
three = " k-1" ∷ "k-2" ∷ " " ∷ "k-3" ∷ []

abbrev after_bulk : KeysState
after_bulk = record {
  cache = record { cached_at = none; cached_list = [] };
  trail =
      revoke_requested "a@b" "acme" "k-3" "cancelled" true
      ∷ revoke_requested "a@b" "acme" "k-1" "revoked" true
      ∷ revoke_requested "a@b" "acme" "k-2" "already_revoked" true
      ∷ [];
  changes = revoking "acme" "k-2" ∷ revoking "acme" "k-1" ∷ [];
}

revokes :
    bulk_revoke true revoker run three request empty
    ≡ (redirect 303 "/keys?customer_id=acme", after_bulk)
unfolding bulk_revoke keys_runs revoke_runs verify_token byte_length escape_query_value trim_space
    dict_runs
revokes = refl

bulk_revoke-IsRecorded_example :
    (sess : Session) × IsAdmitted request request.session sess
    × (1 ≤ length three)
    × (length three ≤ 100)
    × ((customer_id : String) × IsRecorded sess.user.email customer_id three empty after_bulk)
bulk_revoke-IsRecorded_example =
    bulk_revoke-IsRecorded true revoker run three request empty after_bulk "/keys?customer_id=acme"
      (λ e. refl) swapped-perm revokes

abbrev no_error : String → Option ErrorResponse
no_error body = none

abbrev no_number : String → Option ℤ
no_number text = none

abbrev decoders : Decoders
decoders = record {
  customers = λ body. err "unused";
  keys = λ body. err "unused";
  minted = λ body. err "unused";
  revoked = λ body. err "unused";
}

-- The transport gives up because the request was cancelled.
abbrev gives_up : String → String → Bool → Answer
gives_up method path reveal = broken true "context canceled"

decode-escape_query_value_example : decode (escape_query_value "a&b = ü€") ≡ utf8 "a&b = ü€"
decode-escape_query_value_example = decode-escape_query_value "a&b = ü€"

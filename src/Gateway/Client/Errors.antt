-- ===== src/Gateway/Client/Errors.antt =====
-- When the error of a revocation wraps the end of the request's context.
use lucairn_enterprise_deplo.Base.{
  ℕ, String, ◌≡◌, refl, ◌∙◌, Bool, true, false, not, ◌&&◌, Option, none, some, str_eq, arith,
  Result, ok, err, Bool-cases, inl, inr,
}
use lucairn_enterprise_deplo.Base.Int.{ℤ}
use lucairn_enterprise_deplo.Base.Text.{◌++◌}
use lucairn_enterprise_deplo.Gateway.Client.{
  AdminError, cancelled, ErrorResponse, parse_error, Answer, unbuilt, broken, unread, responded,
  status_of, do_request, not_found_code, decoded, with_body, Decoders, keys_path, revoke_key,
}

abbrev pub is_cancelled : AdminError → Bool
is_cancelled cancelled = true
is_cancelled _ = false

module _ {A : Type 0} where
  abbrev pub ends_cancelled : Result AdminError A → Bool
  ends_cancelled (ok a) = false
  ends_cancelled (err e) = is_cancelled e

-- The gateway has answered, and the context ends while its answer is read.
abbrev pub cut_off : Answer → Bool
cut_off (unbuilt e) = false
cut_off (broken ended e) = false
cut_off (unread ended e) = ended
cut_off (responded status body header) = false

not_found_code_live : (o : Option ErrorResponse) → is_cancelled (not_found_code o) ≡ false
unfolding not_found_code
not_found_code_live none = refl
not_found_code_live (some e) = ground arith

module _ (decode_error : String → Option ErrorResponse) (atoi : String → Option ℤ) where
  status_of_live :
      (method path : String) (status : ℕ) (body : String) (header : Option String)
      → ends_cancelled (status_of decode_error atoi method path status body header) ≡ false
  unfolding status_of
  status_of_live method path status body header =
      ground (arith, not_found_code_live (parse_error decode_error atoi body))

  ends_cancelled-do_request :
      (method path : String) (a : Answer)
      → ends_cancelled (do_request decode_error atoi method path a) ≡ cut_off a
  unfolding do_request
  ends_cancelled-do_request method path (unbuilt e) = refl
  ends_cancelled-do_request method path (broken ended e) = refl
  ends_cancelled-do_request method path (unread true e) = refl
  ends_cancelled-do_request method path (unread false e) = refl
  ends_cancelled-do_request method path (responded status body header) =
      status_of_live method path status body header

module _ {A : Type 0} where
  decoded_live : (what : String) (r : Result String A) → ends_cancelled (decoded what r) ≡ false
  unfolding decoded
  decoded_live what (ok a) = refl
  decoded_live what (err e) = refl

  ends_cancelled-with_body :
      (what : String) (decode : String → Result String A) (r : Result AdminError String)
      → ends_cancelled (with_body what decode r) ≡ ends_cancelled r
  unfolding with_body
  ends_cancelled-with_body what decode (ok body) = decoded_live what (decode body)
  ends_cancelled-with_body what decode (err e) = refl

-- What a revocation's request comes to.
module _ (decode_error : String → Option ErrorResponse) (atoi : String → Option ℤ)
    (decode : Decoders) (path_escape : String → String) (send : String → String → Bool → Answer)
    (customer_id key_id : String) where
  abbrev pub revocation : Answer
  revocation =
      send "DELETE"
        (keys_path decode_error atoi decode path_escape send customer_id
          ++ "/"
          ++ path_escape key_id)
        false

  pub ends_cancelled-revoke_key :
      ends_cancelled (revoke_key decode_error atoi decode path_escape send customer_id key_id)
      ≡ (not (str_eq customer_id "") && not (str_eq key_id "") && cut_off revocation)
  unfolding revoke_key
  ends_cancelled-revoke_key = elim (Bool-cases (str_eq customer_id "")) [
    | inl e ↦ rw e refl
    | inr e ↦ elim (Bool-cases (str_eq key_id "")) [
      | inl e' ↦ rw (e, e') refl
      | inr e' ↦
          rw (e, e')
            (ends_cancelled-with_body "revoke key" decode.revoked (
                do_request decode_error atoi "DELETE"
                  (keys_path decode_error atoi decode path_escape send customer_id
                    ++ "/"
                    ++ path_escape key_id)
                  revocation)
              ∙ ends_cancelled-do_request decode_error atoi "DELETE"
                  (keys_path decode_error atoi decode path_escape send customer_id
                    ++ "/"
                    ++ path_escape key_id)
                  revocation)
    ]
  ]

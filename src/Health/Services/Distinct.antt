-- ===== src/Health/Services/Distinct.antt =====
-- The names of the services that a specification gives.
use lucairn_enterprise_deplo.Base.{
  String, ◌≡◌, refl, ◌⊎◌, Bool, true, false, Option, none, some, List, [], ◌∷◌, any, str_eq, Result,
  ok, err, arith, Bool-cases, inl, inr, eq_iff,
}
use lucairn_enterprise_deplo.Base.Text.{trim_space}
use lucairn_enterprise_deplo.Base.Text.Search.{cut}
use lucairn_enterprise_deplo.Health.Services.{
  Service, tcp_service, parse_service_url, parse_pair, parse_token, then_services, parse_tokens,
  some_services, parse_services_spec,
}

abbrev pub is_named : String → List Service → Bool
is_named n ss = any (λ s. str_eq s.name n) ss

abbrev pub Distinct : List Service → Type 0
Distinct [] = Unit
Distinct (s ∷ ss) = (is_named s.name ss ≡ false) × Distinct ss

abbrev seen_name : String → List String → Bool
seen_name n seen = any (λ m. str_eq m n) seen

parse_service_url-name :
    (name raw : String) (svc : Service) → parse_service_url name raw ≡ ok svc → svc.name ≡ name
unfolding parse_service_url tcp_service
parse_service_url-name name raw svc h = ground arith

no_service : {t : String} {svc : Service} → ¬ (◌≡◌ {A = Result String Service} (err t) (ok svc))
no_service h = cc

parse_token-new :
    (seen : List String) (o : Option (String × String)) (svc : Service)
    → parse_token seen o ≡ ok svc
    → seen_name svc.name seen ≡ false
unfolding parse_token parse_pair
parse_token-new seen none svc h = cc
parse_token-new seen (some (before, after)) svc h = elim (Bool-cases (str_eq after "")) [
  | inl e ↦ absurd (no_service (rw e at h))
  | inr e ↦ elim (Bool-cases (str_eq (trim_space before) "")) [
    | inl e' ↦ absurd (no_service (rw (e, e') at h))
    | inr e' ↦ elim (Bool-cases (seen_name (trim_space before) seen)) [
      | inl e'' ↦ absurd (no_service (rw (e, e', e'') at h))
      | inr e'' ↦
          let same =
            parse_service_url-name (trim_space before) (trim_space after) svc
              (rw (e, e', e'') at h) in
          rw same e''
    ]
  ]
]

Result-cases :
    (r : Result String Service) → ((svc : Service) × (r ≡ ok svc)) ⊎ ((t : String) × (r ≡ err t))
Result-cases (ok svc) = inl (svc, refl)
Result-cases (err t) = inr (t, refl)

truth_apart : ¬ (◌≡◌ {A = Bool} true false)
truth_apart h = cc

no_services :
    {t : String} {ss : List Service} → ¬ (◌≡◌ {A = Result String (List Service)} (err t) (ok ss))
no_services h = cc

then_services-parts :
    (svc : Service) (r : Result String (List Service)) (ss : List Service)
    → then_services svc r ≡ ok ss
    → (rest : List Service) × (r ≡ ok rest) × (ss ≡ svc ∷ rest)
unfolding then_services
then_services-parts svc (ok rest) ss h = (rest, refl, cc)
then_services-parts svc (err e) ss h = absurd (no_services h)

-- No service bears a name that was seen before, or the name of another one.
abbrev IsNew : List String → List Service → Type 0
IsNew seen ss = ((n : String) → seen_name n seen ≡ true → is_named n ss ≡ false) × Distinct ss

added :
    (seen : List String) (svc : Service) (rest : List Service)
    → seen_name svc.name seen ≡ false
    → IsNew (svc.name ∷ seen) rest
    → IsNew seen (svc ∷ rest)
added seen svc rest fresh (others, apart) = (
  λ n h.
      let later : is_named n rest ≡ false = others n (ground (arith, h)) in
      elim (Bool-cases (str_eq svc.name n)) [
        | inl e ↦
            let same = (eq_iff svc.name n).0 e in
            let h' : seen_name n seen ≡ false = rw same at fresh in
            absurd (truth_apart (rw h at h'))
        | inr e ↦ rw (e, later) refl
      ],
  (others svc.name (ground (arith, eq_iff svc.name svc.name)), apart),
)

parse_tokens-IsNew :
    (seen toks : List String) (ss : List Service) → parse_tokens seen toks ≡ ok ss → IsNew seen ss
unfolding parse_tokens
parse_tokens-IsNew seen [] ss h = let e : ss ≡ [] = cc in rw e (λ n k. refl, tt)
parse_tokens-IsNew seen (raw ∷ rest) ss h = elim (Bool-cases (str_eq (trim_space raw) "")) [
  | inl e ↦ parse_tokens-IsNew seen rest ss (rw (parse_tokens, e) at h)
  | inr e ↦ elim (Result-cases (parse_token seen (cut "=" (trim_space raw)))) [
    | inl (svc, e') ↦
        let (more, later, eq) = then_services-parts svc _ ss (rw (parse_tokens, e, e') at h) in
        rw eq (
          added seen svc more (parse_token-new seen (cut "=" (trim_space raw)) svc e')
            (parse_tokens-IsNew (svc.name ∷ seen) rest more later))
    | inr (t, e') ↦ absurd (no_services (rw (parse_tokens, e, e') at h))
  ]
]

some_services-same :
    (r : Result String (List Service)) (ss : List Service) → some_services r ≡ ok ss → r ≡ ok ss
unfolding some_services
some_services-same (ok []) ss h = absurd (no_services h)
some_services-same (ok (s ∷ rest)) ss h = h
some_services-same (err e) ss h = absurd (no_services h)

-- No two services of a specification have one name.
pub parse_services_spec-Distinct :
    (spec : String) (ss : List Service) → parse_services_spec spec ≡ ok ss → Distinct ss
unfolding parse_services_spec
parse_services_spec-Distinct spec ss h = (parse_tokens-IsNew [] _ ss (some_services-same _ ss h)).1

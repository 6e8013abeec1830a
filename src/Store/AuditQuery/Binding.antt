-- ===== src/Store/AuditQuery/Binding.antt =====
-- Placeholders and arguments of the query.
use mathlib.Core.List.{◌++◌ as append}
use lucairn_enterprise_deplo.Base.{
  ℕ, ◌+◌, String, ◌≡◌, refl, sym, ap, ◌∙◌, Option, none, some, List, [], ◌∷◌,
}
use lucairn_enterprise_deplo.Base.Text.{◌++◌, append_assoc, append_empty, decimal}
use lucairn_enterprise_deplo.Store.AuditQuery.{
  AuditFilter, Arg, Builder, clause, instant_arg, texts_arg, request_arg, contains_arg, build,
  build_audit_where,
}

-- A condition of the filter: the text around its placeholder, and its argument.
pub record Condition : Type 0 where
  pub before : String
  pub after : String
  pub arg : Arg

abbrev on : String → String → Option Arg → List Condition → List Condition
on before after none cs = cs
on before after (some arg) cs = record { before = before; after = after; arg = arg } ∷ cs

-- The conditions that the filter sets, in the order of the query.
pub conditions : AuditFilter → List Condition
conditions f = on " AND timestamp >= $" "" (instant_arg f.timestamp_from) (
    on " AND timestamp < $" "" (instant_arg f.timestamp_to) (
      on " AND event_type = ANY($" "::text[])" (texts_arg f.event_types) (
        on " AND source_service = ANY($" "::text[])" (texts_arg f.source_services) (
          on " AND actor = ANY($" "::text[])" (texts_arg f.actors) (
            on " AND request_id = $" "" (request_arg f.request_id) (
              on " AND payload::text LIKE $" " ESCAPE '\\'" (contains_arg f.payload_contains)
                []))))))

-- The conditions as SQL, their placeholders numbered from `i` on, and their arguments.
abbrev pub numbered : ℕ → List Condition → String
numbered i [] = ""
numbered i (c ∷ cs) = c.before ++ decimal i ++ c.after ++ numbered (i + 1) cs

abbrev pub arguments : List Condition → List Arg
arguments [] = []
arguments (c ∷ cs) = c.arg ∷ arguments cs

-- What a builder becomes under further conditions.
extended : Builder → List Condition → String × List Arg
extended b cs = (b.sql ++ numbered b.idx cs, append b.args (arguments cs))

list_assoc : (xs ys zs : List Arg) → append (append xs ys) zs ≡ append xs (append ys zs)
list_assoc [] ys zs = refl
list_assoc (x ∷ xs) ys zs = ap (λ l. x ∷ l) (list_assoc xs ys zs)

extended-clause :
    (before after : String) (o : Option Arg) (b : Builder) (cs : List Condition)
    → extended (clause before after o b) cs ≡ extended b (on before after o cs)
unfolding extended clause
extended-clause before after none b cs = refl
extended-clause before after (some arg) b cs =
    let sql : (b.sql ++ before ++ decimal b.idx ++ after) ++ numbered (b.idx + 1) cs
        ≡ b.sql ++ before ++ decimal b.idx ++ after ++ numbered (b.idx + 1) cs =
      rw (append_assoc, append_assoc, append_assoc) refl in
    rw (sql, list_assoc b.args (arg ∷ []) (arguments cs)) refl

args_nil : (xs : List Arg) → append xs [] ≡ xs
args_nil [] = refl
args_nil (x ∷ xs) = ap (λ ys. x ∷ ys) (args_nil xs)

extended_nil : (b : Builder) → extended b [] ≡ (b.sql, b.args)
unfolding extended
extended_nil b = rw (append_empty b.sql, args_nil b.args) refl

built : (f : AuditFilter) (b : Builder) → extended (build f b) [] ≡ extended b (conditions f)
unfolding build conditions
built f b =
    rw
      (
        extended-clause, extended-clause, extended-clause, extended-clause, extended-clause,
        extended-clause, extended-clause,
      )
      refl

-- The clause of a filter is its conditions, each with the next placeholder, and the arguments are
-- theirs in the same order: placeholder number `start_idx + k` stands for argument `k`, and the text
-- depends on the values only through which conditions are set.
pub build_audit_where-numbered :
    (f : AuditFilter) (start_idx : ℕ)
    → build_audit_where f start_idx ≡ (numbered start_idx (conditions f), arguments (conditions f))
unfolding build_audit_where conditions extended
build_audit_where-numbered f start_idx =
    let b : Builder = record { sql = ""; args = []; idx = start_idx } in
    sym (extended_nil (build f b)) ∙ built f b

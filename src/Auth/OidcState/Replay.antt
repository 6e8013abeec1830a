-- ===== src/Auth/OidcState/Replay.antt =====
-- One-shot use of a flow record, over any sequence of calls.
use lucairn_enterprise_deplo.Base.{
  ℕ, ◌≤◌, ◌+◌, String, ◌≡◌, refl, ◌∙◌, Option, none, some, List, [], ◌∷◌, arith, eq_iff, All,
  str_eq, if◌then◌else◌, Option-cases, inl, inr, leb,
}
use lucairn_enterprise_deplo.Base.Dict
use lucairn_enterprise_deplo.Base.Dict.{kept, lookup-retain, lookup-erase, lookup-insert}
use lucairn_enterprise_deplo.Auth.OidcState.{
  OidcFlowState, MemoryOidcStateStore, Tokens, minted, stored, create, consume, outlasts, collect,
}

pub data Call : Type 0 where
  creates : Tokens → String → Call
  consumes : String → Call
  collects : Call

pub record Event : Type 0 where
  pub now : ℕ
  pub call : Call

abbrev pub step_call : ℕ → Call → MemoryOidcStateStore → MemoryOidcStateStore
step_call now (creates t next_path) s = (create t next_path now s).1
step_call now (consumes state) s = (consume now state s).1
step_call now collects s = collect now s

abbrev pub run : List Event → MemoryOidcStateStore → MemoryOidcStateStore
run [] s = s
run (e ∷ es) s = run es (step_call e.now e.call s)

abbrev entered : String → Option OidcFlowState → Option OidcFlowState → Option OidcFlowState
entered j none o = o
entered j (some rec) o = if str_eq rec.state j then some rec else o

-- The entry under `j` after a call.
abbrev entry_step : ℕ → ℕ → Call → String → Option OidcFlowState → Option OidcFlowState
entry_step ttl now (creates t next_path) j o = entered j (minted t next_path now) o
entry_step ttl now (consumes state) j o = if str_eq state j then none else o
entry_step ttl now collects j o = kept (outlasts now ttl) o

lookup-stored :
    (rec : Option OidcFlowState) (j : String) (s : MemoryOidcStateStore)
    → Dict.lookup j (stored rec s).1.entries ≡ entered j rec (Dict.lookup j s.entries)
unfolding stored
lookup-stored none j s = refl
lookup-stored (some rec) j s = lookup-insert rec.state j rec s.entries

ttl-stored : (rec : Option OidcFlowState) (s : MemoryOidcStateStore) → (stored rec s).1.ttl ≡ s.ttl
unfolding stored
ttl-stored none s = refl
ttl-stored (some rec) s = refl

module _ (now : ℕ) (j : String) (s : MemoryOidcStateStore) where
  lookup-step_call :
      (call : Call)
      → Dict.lookup j (step_call now call s).entries
        ≡ entry_step s.ttl now call j (Dict.lookup j s.entries)
  unfolding create consume collect
  lookup-step_call (creates t next_path) = lookup-stored (minted t next_path now) j s
  lookup-step_call (consumes state) = lookup-erase state j s.entries
  lookup-step_call collects = lookup-retain _ j s.entries

  ttl-step_call : (call : Call) → (step_call now call s).ttl ≡ s.ttl
  unfolding create consume collect
  ttl-step_call (creates t next_path) = ttl-stored (minted t next_path now) s
  ttl-step_call (consumes state) = refl
  ttl-step_call collects = refl

-- A call that stores a record under the state token `j`.
abbrev pub Mints : String → Call → Type 0
Mints j (creates t next_path) = t.state ≡ some j
Mints j _ = ⊥

-- A call that takes the record under `j` out before it is too old, or replaces it.
abbrev pub Touches : String → Call → Type 0
Touches j (creates t next_path) = t.state ≡ some j
Touches j (consumes state) = state ≡ j
Touches j collects = ⊥

state-minted :
    (t : Tokens) (next_path : String) (now : ℕ) (rec : OidcFlowState)
    → minted t next_path now ≡ some rec
    → t.state ≡ some rec.state
unfolding minted
state-minted t next_path now rec e = ground arith

created_at-minted :
    (t : Tokens) (next_path : String) (now : ℕ) (rec : OidcFlowState)
    → minted t next_path now ≡ some rec
    → rec.created_at ≡ now
unfolding minted
created_at-minted t next_path now rec e = ground arith

minted-eq-some :
    (now : ℕ) (t : Tokens) (next_path : String) (rec : OidcFlowState) (s : MemoryOidcStateStore)
    → (stored (minted t next_path now) s).0 ≡ some rec
    → minted t next_path now ≡ some rec
unfolding stored
minted-eq-some now t next_path rec s e = ground arith

entered_other :
    (t : Tokens) (next_path : String) (now : ℕ) (j : String) (o : Option OidcFlowState)
    → ¬ (t.state ≡ some j)
    → entered j (minted t next_path now) o ≡ o
entered_other t next_path now j o h = elim (Option-cases (minted t next_path now)) [
  | inl e ↦ rw e
  | inr (rec, e) ↦ rw e (ground (arith, state-minted t next_path now rec e, eq_iff rec.state j))
]

-- No record under the token is left.
entry_step-none :
    (ttl now : ℕ) (j : String) (call : Call)
    → ¬ Mints j call
    → entry_step ttl now call j none ≡ none
entry_step-none ttl now j (creates t next_path) h = entered_other t next_path now j none h
entry_step-none ttl now j (consumes state) h = ground arith
entry_step-none ttl now j collects h = refl

entry_step-young :
    (ttl now : ℕ) (j : String) (call : Call) (rec : OidcFlowState)
    → ¬ Touches j call
    → now ≤ rec.created_at + ttl
    → entry_step ttl now call j (some rec) ≡ some rec
entry_step-young ttl now j (creates t next_path) rec h w =
    entered_other t next_path now j (some rec) h
entry_step-young ttl now j (consumes state) rec h w = ground (arith, eq_iff state j)
entry_step-young ttl now j collects rec h w = ground arith

run-none :
    (j : String) (es : List Event) (s : MemoryOidcStateStore)
    → All (λ e. ¬ Mints j e.call) es
    → Dict.lookup j s.entries ≡ none
    → Dict.lookup j (run es s).entries ≡ none
run-none j [] s h e = e
run-none j (e ∷ es) s (h, hs) found =
    run-none j es (step_call e.now e.call s) hs
      (rw (lookup-step_call e.now j s e.call, found) (entry_step-none s.ttl e.now j e.call h))

run-young :
    (j : String) (rec : OidcFlowState) (es : List Event) (s : MemoryOidcStateStore)
    → All (λ e. ¬ Touches j e.call) es
    → All (λ e. e.now ≤ rec.created_at + s.ttl) es
    → Dict.lookup j s.entries ≡ some rec
    → (Dict.lookup j (run es s).entries ≡ some rec) × ((run es s).ttl ≡ s.ttl)
run-young j rec [] s h w e = (e, refl)
run-young j rec (e ∷ es) s (h, hs) (w, ws) found =
    let same = ttl-step_call e.now j s e.call in
    let (later, kept_ttl) = run-young j rec es (step_call e.now e.call s) hs (rw same ws) (
      rw (lookup-step_call e.now j s e.call, found)
        (entry_step-young s.ttl e.now j e.call rec h w)) in
    (later, kept_ttl ∙ same)

-- A state token is good for one callback: once it was presented, whatever the answer was, no
-- later call accepts it, unless the random source gives the very token again.
pub consume-run_replayed :
    (first now : ℕ) (state : String) (es : List Event) (s : MemoryOidcStateStore)
    → All (λ e. ¬ Mints state e.call) es
    → (consume now state (run es (consume first state s).1)).0 ≡ none
unfolding consume
consume-run_replayed first now state es s h =
    let erased =
      run-none state es (consume first state s).1 h
        (rw lookup-erase (ground (arith, eq_iff state state))) in
    rw erased

-- The callback gets back exactly the record that `Create` made, with its nonce, verifier and path,
-- if it comes within the time to live and no call in between presents the token or mints it again;
-- if it comes later, it gets nothing, although nothing else happened.
pub consume-run-create :
    (made now : ℕ) (t : Tokens) (next_path : String) (rec : OidcFlowState) (es : List Event)
    (s : MemoryOidcStateStore)
    → (create t next_path made s).0 ≡ some rec
    → All (λ e. ¬ Touches rec.state e.call) es
    → All (λ e. e.now ≤ made + s.ttl) es
    → (consume now rec.state (run es (create t next_path made s).1)).0
      ≡ (if leb now (made + s.ttl) then some rec else none)
unfolding create consume
consume-run-create made now t next_path rec es s e h w =
    let built = minted-eq-some made t next_path rec s e in
    let found : Dict.lookup rec.state (create t next_path made s).1.entries ≡ some rec =
      rw (lookup-stored, built) (ground (arith, eq_iff rec.state rec.state)) in
    let same = ttl-stored (minted t next_path made) s in
    let at = created_at-minted t next_path made rec built in
    let (later, kept_ttl) =
      run-young rec.state rec es (create t next_path made s).1 h (rw (same, at) w) found in
    rw (later, kept_ttl, same) (ground (arith, at))

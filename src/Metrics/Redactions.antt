-- ===== src/Metrics/Redactions.antt =====
-- What the figures of the audit log count.
use lucairn_enterprise_deplo.Base.{
  ℕ, ◌+◌, ◌-◌, String, ◌≡◌, refl, ◌∙◌, Bool, true, false, ◌&&◌, ◌||◌, Option, none, some, List, [],
  ◌∷◌, ltb, str_eq, eq_iff, if◌then◌else◌, arith, Bool-cases, inl, inr,
}
use lucairn_enterprise_deplo.Base.Dict
use lucairn_enterprise_deplo.Base.Dict.{Dict}
use lucairn_enterprise_deplo.Metrics.{
  day, Event, layer_of, AuditTally, tally_layer, tally_event, tally_events, charted, AuditFigures,
  aggregate_audit,
}
use lucairn_enterprise_deplo.Metrics.Volume.{
  times, times-counted, times_new, labelled, labelled-charted, labelled-charted_nil,
}

-- How many of the events pass a test.
abbrev pub events : (Event → Bool) → List Event → ℕ
events p [] = 0
events p (e ∷ es) = (if p e then 1 else 0) + events p es

abbrev pub in_layer : String → Event → Bool
in_layer event_type e = str_eq e.event_type event_type

abbrev pub recent : ℕ → Event → Bool
recent now e = ltb (now - day) e.timestamp

abbrev is_layer : String → Option String → Bool
is_layer l none = false
is_layer l (some k) = str_eq k l

abbrev is_some : Option String → Bool
is_some none = false
is_some (some k) = true

-- A redaction of any layer.
abbrev pub redaction : Event → Bool
redaction e = is_some (layer_of e.event_type)

module _ (now : ℕ) where
  tally_layer-parts :
      (b : Bool) (o : Option String) (t : AuditTally) (l : String)
      → ((tally_layer b o t).last_24h ≡ t.last_24h)
        × ((tally_layer b o t).redactions ≡ (if is_some o then 1 else 0) + t.redactions)
        × ((tally_layer b o t).redactions_last_24h
            ≡ (if b && is_some o then 1 else 0) + t.redactions_last_24h)
        × (times (Dict.lookup l (tally_layer b o t).layers)
            ≡ (if is_layer l o then 1 else 0) + times (Dict.lookup l t.layers))
  unfolding tally_layer
  tally_layer-parts b none t l = (refl, omega arith, ground arith, omega arith)
  tally_layer-parts b (some k) t l = (refl, omega arith, ground arith, times-counted l k t.layers)

  -- The loop has counted the events on top of what it began with.
  tally_events-parts :
      (es : List Event) (t : AuditTally) (l : String)
      → ((tally_events now es t).last_24h ≡ events (recent now) es + t.last_24h)
        × ((tally_events now es t).redactions ≡ events redaction es + t.redactions)
        × ((tally_events now es t).redactions_last_24h
            ≡ events (λ e. recent now e && redaction e) es + t.redactions_last_24h)
        × (times (Dict.lookup l (tally_events now es t).layers)
            ≡ events (λ e. is_layer l (layer_of e.event_type)) es + times (Dict.lookup l t.layers))
  unfolding tally_events tally_event
  tally_events-parts [] t l = (omega arith, omega arith, omega arith, omega arith)
  tally_events-parts (e ∷ es) t l =
      let (a, b, c, d) = tally_events-parts es (tally_event now e t) l in
      let (a', b', c', d') =
        tally_layer-parts (recent now e) (layer_of e.event_type)
          (record t { last_24h = if recent now e then t.last_24h + 1 else t.last_24h }) l in
      (ground (arith, a, a'), omega (arith, b, b'), omega (arith, c, c'), omega (arith, d, d'))

one_layer :
    (v : String)
    → (if is_some (layer_of v) then 1 else 0)
      ≡ (if is_layer "L1" (layer_of v) then 1 else 0)
        + ((if is_layer "L2" (layer_of v) then 1 else 0)
            + (if is_layer "L3" (layer_of v) then 1 else 0))
unfolding layer_of
one_layer v = ground arith

by_layer :
    (es : List Event)
    → events redaction es
      ≡ events (λ e. is_layer "L1" (layer_of e.event_type)) es
        + (events (λ e. is_layer "L2" (layer_of e.event_type)) es
            + events (λ e. is_layer "L3" (layer_of e.event_type)) es)
by_layer [] = omega arith
by_layer (e ∷ es) = omega (arith, one_layer e.event_type, by_layer es)

layer_1 : (v : String) → is_layer "L1" (layer_of v) ≡ str_eq v "sanitizer.l1_redaction"
unfolding layer_of
layer_1 v = ground arith

layer_2 : (v : String) → is_layer "L2" (layer_of v) ≡ str_eq v "sanitizer.l2_redaction"
unfolding layer_of
layer_2 v = elim (Bool-cases (str_eq v "sanitizer.l1_redaction")) [
  | inl e ↦ rw (e, (eq_iff v "sanitizer.l1_redaction").0 e) refl
  | inr e ↦ rw e (ground arith)
]

layer_3 : (v : String) → is_layer "L3" (layer_of v) ≡ str_eq v "sanitizer.l3_redaction"
unfolding layer_of
layer_3 v = elim (Bool-cases (str_eq v "sanitizer.l1_redaction")) [
  | inl e ↦ rw (e, (eq_iff v "sanitizer.l1_redaction").0 e) refl
  | inr e ↦ elim (Bool-cases (str_eq v "sanitizer.l2_redaction")) [
    | inl e' ↦ rw (e, e', (eq_iff v "sanitizer.l2_redaction").0 e') refl
    | inr e' ↦ rw (e, e') (ground arith)
  ]
]

events_same :
    (p q : Event → Bool) → ((e : Event) → p e ≡ q e) → (es : List Event) → events p es ≡ events q es
events_same p q h [] = refl
events_same p q h (e ∷ es) = rw (h e, events_same p q h es) refl

-- A redaction event of one of the three layers.
abbrev pub in_some_layer : Event → Bool
in_some_layer e =
    in_layer "sanitizer.l1_redaction" e
    || in_layer "sanitizer.l2_redaction" e
    || in_layer "sanitizer.l3_redaction" e

recent_redaction :
    (now : ℕ) (e : Event) → (recent now e && redaction e) ≡ (recent now e && in_some_layer e)
unfolding layer_of
recent_redaction now e = ground arith

-- What the figures of the audit log count.
pub record IsTallied (now : ℕ) (es : List Event) (f : AuditFigures) : Type 0 where
  pub last_24h : f.last_24h ≡ events (recent now) es
  pub layer_1 : labelled "L1" f.layers ≡ events (in_layer "sanitizer.l1_redaction") es
  pub layer_2 : labelled "L2" f.layers ≡ events (in_layer "sanitizer.l2_redaction") es
  pub layer_3 : labelled "L3" f.layers ≡ events (in_layer "sanitizer.l3_redaction") es
  pub whole :
      f.redactions ≡ labelled "L1" f.layers + (labelled "L2" f.layers + labelled "L3" f.layers)
  pub redactions_last_24h : f.redactions_last_24h ≡ events (λ e. recent now e && in_some_layer e) es

three :
    (l : String) (m : Dict ℕ)
    → labelled l (charted ("L1" ∷ "L2" ∷ "L3" ∷ []) m)
      ≡ (if str_eq "L1" l then times (Dict.lookup "L1" m) else 0)
        + ((if str_eq "L2" l then times (Dict.lookup "L2" m) else 0)
            + (if str_eq "L3" l then times (Dict.lookup "L3" m) else 0))
three l m =
    let a = labelled-charted l ("L2" ∷ "L3" ∷ []) "L1" m in
    let b = labelled-charted l ("L3" ∷ []) "L2" m in
    let c = labelled-charted l [] "L3" m in omega (arith, a, b, c, labelled-charted_nil l m)

-- Of the events read, the figure of the last 24 hours counts those of that time, the bars of the layers
-- count the redaction events of their layers, the number of redactions is their sum, and the
-- redactions of the last 24 hours are the redaction events of the three layers in that time.
pub aggregate_audit-IsTallied :
    (now : ℕ) (es : List Event) → IsTallied now es (aggregate_audit now es)
unfolding aggregate_audit
aggregate_audit-IsTallied now es =
    let t : AuditTally = record {
      last_24h = 0;
      redactions = 0;
      redactions_last_24h = 0;
      layers = Dict.new;
    } in
    let m = (tally_events now es t).layers in
    let (a, b, c, d1) = tally_events-parts now es t "L1" in
    let (_, _, _, d2) = tally_events-parts now es t "L2" in
    let (_, _, _, d3) = tally_events-parts now es t "L3" in
    let e1 = events_same _ _ (λ (e : Event). layer_1 e.event_type) es in
    let e2 = events_same _ _ (λ (e : Event). layer_2 e.event_type) es in
    let e3 = events_same _ _ (λ (e : Event). layer_3 e.event_type) es in
    record {
      last_24h = a ∙ omega arith;
      layer_1 = omega (arith, three "L1" m, d1, e1, times_new "L1");
      layer_2 = omega (arith, three "L2" m, d2, e2, times_new "L2");
      layer_3 = omega (arith, three "L3" m, d3, e3, times_new "L3");
      whole = omega (
        arith,
        b,
        by_layer es,
        three "L1" m,
        three "L2" m,
        three "L3" m,
        d1,
        d2,
        d3,
        times_new "L1",
        times_new "L2",
        times_new "L3",
      );
      redactions_last_24h = c ∙ omega arith ∙ events_same _ _ (recent_redaction now) es;
    }

-- ===== src/Metrics/Volume.antt =====
-- What the bars of the volume chart and the parts of the verdict chart count.
use lucairn_enterprise_deplo.Base.{
  ℕ, zero, suc, ◌+◌, ◌-◌, ◌*◌, ◌<◌, String, ◌≡◌, refl, ap, ◌∙◌, Bool, false, ◌&&◌, ◌||◌, Option,
  none, some, List, [], ◌∷◌, length, ltb, leb, ◌==◌, str_eq, eq_iff, if◌then◌else◌, arith,
  Option-cases, Bool-cases, inl, inr,
}
use lucairn_enterprise_deplo.Base.Dict
use lucairn_enterprise_deplo.Base.Dict.{Dict, lookup-insert, lookup-nil}
use lucairn_enterprise_deplo.Store.CertQuery.{CertSummary}
use lucairn_enterprise_deplo.Metrics.{
  day, cert_window_days, TimeSeriesPoint, NamedCount, day_index, count_at, bucketed, empty_buckets,
  counted, verdict_name, CertTally, tally_cert, tally_certs, charted, CertFigures, verdict_order,
  aggregate_certs,
}

-- The height of bar `i`.
abbrev pub bar : ℕ → List TimeSeriesPoint → ℕ
bar i [] = 0
bar zero (b ∷ bs) = b.count
bar (suc i) (b ∷ bs) = bar i bs

-- How many of the certificates pass a test.
abbrev pub number : (CertSummary → Bool) → List CertSummary → ℕ
number p [] = 0
number p (c ∷ cs) = (if p c then 1 else 0) + number p cs

-- Bar `i` stands for the instants that are at least `29 - i` and less than `30 - i` days old, and the
-- last one also for those less than a day ahead of the clock.
abbrev pub in_bar : ℕ → ℕ → ℕ → Bool
in_bar now i created =
    (leb (created + (29 - i) * day) now && ltb now (created + (30 - i) * day))
    || (i == 29 && ltb now created && ltb created (now + day))

abbrev is_index : ℕ → Option ℕ → Bool
is_index i none = false
is_index i (some j) = j == i

day_index_lem :
    (now created i : ℕ) → i < 30 → is_index i (day_index now created) ≡ in_bar now i created
unfolding day_index
day_index_lem now created i h = ground arith

bar-count_at :
    (i j : ℕ) (bs : List TimeSeriesPoint)
    → i < length bs
    → bar i (count_at j bs) ≡ (if j == i then 1 else 0) + bar i bs
unfolding count_at
bar-count_at i j [] h = absurd (omega arith)
bar-count_at zero zero (b ∷ bs) h = omega arith
bar-count_at zero (suc j) (b ∷ bs) h = ground arith
bar-count_at (suc i) zero (b ∷ bs) h = ground arith
bar-count_at (suc i) (suc j) (b ∷ bs) h = bar-count_at i j bs (omega arith) ∙ ground arith

length-count_at : (j : ℕ) (bs : List TimeSeriesPoint) → length (count_at j bs) ≡ length bs
unfolding count_at
length-count_at j [] = refl
length-count_at zero (b ∷ bs) = refl
length-count_at (suc j) (b ∷ bs) = ap suc (length-count_at j bs)

bar-bucketed :
    (i : ℕ) (o : Option ℕ) (bs : List TimeSeriesPoint)
    → i < length bs
    → bar i (bucketed o bs) ≡ (if is_index i o then 1 else 0) + bar i bs
unfolding bucketed
bar-bucketed i none bs h = omega arith
bar-bucketed i (some j) bs h = bar-count_at i j bs h

length-bucketed : (o : Option ℕ) (bs : List TimeSeriesPoint) → length (bucketed o bs) ≡ length bs
unfolding bucketed
length-bucketed none bs = refl
length-bucketed (some j) bs = length-count_at j bs

length-empty_buckets : (now i n : ℕ) → length (empty_buckets now i n) ≡ n
unfolding empty_buckets
length-empty_buckets now i zero = refl
length-empty_buckets now i (suc n) = ap suc (length-empty_buckets now (i + 1) n)

bar-empty_buckets : (now i n k : ℕ) → bar k (empty_buckets now i n) ≡ 0
unfolding empty_buckets
bar-empty_buckets now i zero k = refl
bar-empty_buckets now i (suc n) zero = refl
bar-empty_buckets now i (suc n) (suc k) = bar-empty_buckets now (i + 1) n k

-- How often a key was counted.
abbrev pub times : Option ℕ → ℕ
times none = 0
times (some n) = n

pub times-counted :
    (k j : String) (m : Dict ℕ)
    → times (Dict.lookup k (counted j m)) ≡ (if str_eq j k then 1 else 0) + times (Dict.lookup k m)
unfolding counted
times-counted k j m = elim (Option-cases (Dict.lookup j m)) [
  | inl fresh ↦ rw fresh (ground (arith, lookup-insert j k 1 m, eq_iff j k))
  | inr (n, old) ↦ rw old (ground (arith, lookup-insert j k (n + 1) m, eq_iff j k))
]

module _ (now : ℕ) where
  bar-tally_certs :
      (i : ℕ) (cs : List CertSummary) (t : CertTally)
      → i < 30
      → length t.buckets ≡ 30
      → bar i (tally_certs now cs t).buckets
        ≡ number (λ c. in_bar now i c.created_at) cs + bar i t.buckets
  unfolding tally_certs tally_cert
  bar-tally_certs i [] t h size = omega arith
  bar-tally_certs i (c ∷ cs) t h size =
      let o = day_index now c.created_at in
      let rest = bar-tally_certs i cs (tally_cert now c t) h (length-bucketed o t.buckets ∙ size) in
      let here = bar-bucketed i o t.buckets (omega (arith, size)) in
      let e = day_index_lem now c.created_at i h in
      let here' : bar i (bucketed o t.buckets)
          ≡ (if in_bar now i c.created_at then 1 else 0) + bar i t.buckets =
        rw e at here in
      omega (arith, rest, here')

  length-tally_certs :
      (cs : List CertSummary) (t : CertTally)
      → length (tally_certs now cs t).buckets ≡ length t.buckets
  unfolding tally_certs tally_cert
  length-tally_certs [] t = refl
  length-tally_certs (c ∷ cs) t =
      length-tally_certs cs (tally_cert now c t)
      ∙ length-bucketed (day_index now c.created_at) t.buckets

  times-tally_certs :
      (k : String) (cs : List CertSummary) (t : CertTally)
      → times (Dict.lookup k (tally_certs now cs t).verdicts)
        ≡ number (λ c. str_eq (verdict_name c.verdict) k) cs + times (Dict.lookup k t.verdicts)
  unfolding tally_certs tally_cert
  times-tally_certs k [] t = omega arith
  times-tally_certs k (c ∷ cs) t = omega (
    arith,
    times-tally_certs k cs (tally_cert now c t),
    times-counted k (verdict_name c.verdict) t.verdicts,
  )

-- The part of a chart with a label.
abbrev pub labelled : String → List NamedCount → ℕ
labelled l [] = 0
labelled l (e ∷ es) = (if str_eq e.label l then e.count else 0) + labelled l es

pub labelled-charted :
    (l : String) (vs : List String) (v : String) (m : Dict ℕ)
    → labelled l (charted (v ∷ vs) m)
      ≡ (if str_eq v l then times (Dict.lookup v m) else 0) + labelled l (charted vs m)
unfolding charted
labelled-charted l vs v m = elim (Option-cases (Dict.lookup v m)) [
  | inl fresh ↦ rw (fresh, charted) (ground arith)
  | inr (n, old) ↦ rw (old, charted) (ground arith)
]

-- What the figures of the certificates count.
pub record IsCounted (now : ℕ) (cs : List CertSummary) (f : CertFigures) : Type 0 where
  pub bars : length f.buckets ≡ 30
  pub each_bar : (i : ℕ) → i < 30 → bar i f.buckets ≡ number (λ c. in_bar now i c.created_at) cs
  pub partial : labelled "partial" f.verdicts ≡ number (λ c. str_eq c.verdict "partial") cs
  pub failed : labelled "failed" f.verdicts ≡ number (λ c. str_eq c.verdict "failed") cs
  pub no_verdict :
      labelled "no-verdict" f.verdicts
      ≡ number (λ c. str_eq c.verdict "" || str_eq c.verdict "no-verdict") cs
  pub verified : labelled "verified" f.verdicts ≡ 0

number_same :
    (p q : CertSummary → Bool)
    → ((c : CertSummary) → p c ≡ q c)
    → (cs : List CertSummary) → number p cs ≡ number q cs
number_same p q h [] = refl
number_same p q h (c ∷ cs) = rw (h c, number_same p q h cs) refl

named :
    (l v : String)
    → str_eq "no-verdict" l ≡ false
    → str_eq "" l ≡ false
    → str_eq (verdict_name v) l ≡ str_eq v l
unfolding verdict_name
named l v a b = elim (Bool-cases (str_eq v "")) [
  | inl e ↦ rw (e, a, (eq_iff v "").0 e, b) refl
  | inr e ↦ rw e refl
]

unnamed :
    (v : String) → str_eq (verdict_name v) "no-verdict" ≡ (str_eq v "" || str_eq v "no-verdict")
unfolding verdict_name
unnamed v = elim (Bool-cases (str_eq v "")) [ inl e ↦ rw e refl | inr e ↦ rw e refl ]

pub labelled-charted_nil : (l : String) (m : Dict ℕ) → labelled l (charted [] m) ≡ 0
unfolding charted
labelled-charted_nil l m = refl

pub times_new : (k : String) → times (Dict.lookup k Dict.new) ≡ 0
times_new k = ap times (lookup-nil k)

four :
    (l : String) (m : Dict ℕ)
    → labelled l (charted verdict_order m)
      ≡ (if str_eq "passed" l then times (Dict.lookup "passed" m) else 0)
        + ((if str_eq "partial" l then times (Dict.lookup "partial" m) else 0)
            + ((if str_eq "failed" l then times (Dict.lookup "failed" m) else 0)
                + (if str_eq "no-verdict" l then times (Dict.lookup "no-verdict" m) else 0)))
four l m =
    let a = labelled-charted l ("partial" ∷ "failed" ∷ "no-verdict" ∷ []) "passed" m in
    let b = labelled-charted l ("failed" ∷ "no-verdict" ∷ []) "partial" m in
    let c = labelled-charted l ("no-verdict" ∷ []) "failed" m in
    let d = labelled-charted l [] "no-verdict" m in
    omega (arith, a, b, c, d, labelled-charted_nil l m)

-- The chart over the last 30 days has 30 bars, and each is as high as there are certificates of its
-- day, counted back from now in steps of 24 hours. The chart of the verdicts counts the partial, the failed and the
-- missing verdicts, and no certificate with the verdict "verified".
pub aggregate_certs-IsCounted :
    (now : ℕ) (cs : List CertSummary) → IsCounted now cs (aggregate_certs now cs)
unfolding aggregate_certs
aggregate_certs-IsCounted now cs =
    let t : CertTally = record {
      buckets = empty_buckets now 0 cert_window_days;
      verdicts = Dict.new;
      last_24h = 0;
      prev_24h = 0;
    } in
    let m = (tally_certs now cs t).verdicts in
    let size = length-empty_buckets now 0 30 in
    record {
      bars = length-tally_certs now cs t ∙ size;
      each_bar =
          λ i h. bar-tally_certs now i cs t h size ∙ omega (arith, bar-empty_buckets now 0 30 i);
      partial = omega (
        arith,
        four "partial" m,
        times-tally_certs now "partial" cs t,
        times_new "partial",
        number_same _ _ (λ (c : CertSummary). named "partial" c.verdict refl refl) cs,
      );
      failed = omega (
        arith,
        four "failed" m,
        times-tally_certs now "failed" cs t,
        times_new "failed",
        number_same _ _ (λ (c : CertSummary). named "failed" c.verdict refl refl) cs,
      );
      no_verdict = omega (
        arith,
        four "no-verdict" m,
        times-tally_certs now "no-verdict" cs t,
        times_new "no-verdict",
        number_same _ _ (λ (c : CertSummary). unnamed c.verdict) cs,
      );
      verified = omega (arith, four "verified" m);
    }

-- ===== src/Base/Sort/Unique.antt =====
-- Ranging over a map in the order of its keys, and how the map was built.
use mathlib.Core.Path.{◌≡◌, refl, sym, ◌∙◌}
use mathlib.Core.Logic.{inl, inr}
use mathlib.Core.Bool.{true, false}
use mathlib.Core.Option.{none, some, get_or}
use mathlib.Core.List.{List, [], ◌∷◌}
use native.Mathlib.Omega.{arith}
use lucairn_enterprise_deplo.Base.Tests.{if◌then◌else◌, Bool-cases}
use lucairn_enterprise_deplo.Base.Sort.{StrictOrder, look, bump, insert_sorted, sort_by_key}

module _ {ℓ κ} {K : Type ℓ} {V : Type κ} (o : StrictOrder K) where
  -- Every key of the list comes after `k`.
  abbrev Below : K → List (K × V) → Type 0
  Below k [] = Unit
  Below k ((j, v) ∷ m) = (o.lt k j ≡ true) × Below k m

  abbrev Ascending : List (K × V) → Type 0
  Ascending [] = Unit
  Ascending ((k, v) ∷ m) = Below k m × Ascending m

  abbrev pub Distinct : List (K × V) → Type κ
  Distinct [] = Unit
  Distinct ((k, v) ∷ m) = (look o k m ≡ none) × Distinct m

  look-Below : (k : K) (m : List (K × V)) → Below k m → look o k m ≡ none
  unfolding look
  look-Below k [] b = refl
  look-Below k ((j, v) ∷ m) (h, b) = ground (arith, o.eq_iff j k, o.irrefl k, look-Below k m b)

  Below-trans : (j k : K) (m : List (K × V)) → o.lt j k ≡ true → Below k m → Below j m
  Below-trans j k [] h b = tt
  Below-trans j k ((i, v) ∷ m) h (l, b) = (o.trans j k i h l, Below-trans j k m h b)

  nothing_there : (k : K) (v : V) (m : List (K × V)) → ¬ (look o k [] ≡ look o k ((k, v) ∷ m))
  unfolding look
  nothing_there k v m h = cc (rw ((o.eq_iff k k).1 refl) at h)

  lt-of_look :
      (k x : K) (v : V) (m : List (K × V)) → Below k m → look o x m ≡ some v → o.lt k x ≡ true
  unfolding look
  lt-of_look k x v [] b h = cc
  lt-of_look k x v ((j, w) ∷ m) (l, b) h = elim (Bool-cases (o.eq j x)) [
    | inl e ↦ rw ((o.eq_iff j x).0 e) at l
    | inr n ↦ lt-of_look k x v m b (rw n at h)
  ]

  -- A key that heads one of two lists with the same entries comes in the other, or heads it.
  lt-of_head :
      (k j : K) (v w : V) (m n : List (K × V))
      → o.eq k j ≡ false
      → Below j n
      → look o k ((k, v) ∷ m) ≡ look o k ((j, w) ∷ n)
      → o.lt j k ≡ true
  unfolding look
  lt-of_head k j v w m n d c h =
      lt-of_look j k v n c (ground (arith, h, o.eq_iff k k, o.eq_iff j k, o.eq_iff k j))

  head-eq :
      (k j : K) (v w : V) (m n : List (K × V))
      → Below k m
      → Below j n
      → ((x : K) → look o x ((k, v) ∷ m) ≡ look o x ((j, w) ∷ n))
      → k ≡ j
  head-eq k j v w m n b c h = elim (Bool-cases (o.eq k j)) [
    | inl same ↦ (o.eq_iff k j).0 same
    | inr other ↦
        let after = lt-of_head k j v w m n other c (h k) in
        let before =
          lt-of_head j k w v n m (ground (arith, o.eq_iff k j, o.eq_iff j k)) b (sym (h j)) in
        absurd (cc (o.trans j k j after before, o.irrefl j))
  ]

  value-eq :
      (k : K) (v w : V) (m n : List (K × V)) → look o k ((k, v) ∷ m) ≡ look o k ((k, w) ∷ n) → v ≡ w
  unfolding look
  value-eq k v w m n h = ground (arith, o.eq_iff k k)

  tail-eq :
      (k x : K) (v w : V) (m n : List (K × V))
      → Below k m
      → Below k n
      → look o x ((k, v) ∷ m) ≡ look o x ((k, w) ∷ n)
      → look o x m ≡ look o x n
  unfolding look
  tail-eq k x v w m n b c h = elim (Bool-cases (o.eq k x)) [
    | inl same ↦
        let e = (o.eq_iff k x).0 same in rw (← e) (look-Below k m b ∙ sym (look-Below k n c))
    | inr other ↦ rw other at h
  ]

  Ascending-unique :
      (m n : List (K × V)) → Ascending m → Ascending n → ((x : K) → look o x m ≡ look o x n) → m ≡ n
  Ascending-unique [] [] a b h = refl
  Ascending-unique [] ((j, w) ∷ n) a b h = absurd (nothing_there j w n (h j))
  Ascending-unique ((k, v) ∷ m) [] a b h = absurd (nothing_there k v m (sym (h k)))
  Ascending-unique ((k, v) ∷ m) ((j, w) ∷ n) (b, a) (c, a') h =
      let e = head-eq k j v w m n b c h in
      let h' = λ (x : K). rw (← e) at (h x) in
      let c' : Below k n = rw e c in
      let tails = Ascending-unique m n a a' (λ x. tail-eq k x v w m n b c' (h' x)) in
      cc (e, value-eq k v w m n (h' k), tails)

  look-insert_sorted :
      (k x : K) (v : V) (m : List (K × V))
      → look o k m ≡ none
      → look o x (insert_sorted o k v m) ≡ (if o.eq k x then some v else look o x m)
  unfolding look insert_sorted
  look-insert_sorted k x v [] h = refl
  look-insert_sorted k x v ((j, w) ∷ m) h =
      ground (arith, look-insert_sorted k x v m, o.eq_iff j k, o.eq_iff k x, o.eq_iff j x)

  Below-insert_sorted :
      (i k : K) (v : V) (m : List (K × V))
      → o.lt i k ≡ true
      → Below i m
      → Below i (insert_sorted o k v m)
  unfolding insert_sorted
  Below-insert_sorted i k v [] h b = (h, tt)
  Below-insert_sorted i k v ((j, w) ∷ m) h (l, b) = elim (Bool-cases (o.lt k j)) [
    | inl e ↦ rw e (h, (l, b))
    | inr e ↦ rw e (l, Below-insert_sorted i k v m h b)
  ]

  Ascending-insert_sorted :
      (k : K) (v : V) (m : List (K × V))
      → look o k m ≡ none
      → Ascending m
      → Ascending (insert_sorted o k v m)
  unfolding insert_sorted look
  Ascending-insert_sorted k v [] h a = (tt, tt)
  Ascending-insert_sorted k v ((j, w) ∷ m) h (b, a) = elim (Bool-cases (o.lt k j)) [
    | inl e ↦ rw e ((e, Below-trans k j m e b), (b, a))
    | inr e ↦
        let after : o.lt j k ≡ true = ground (arith, o.total k j e, o.eq_iff j k) in
        rw e (Below-insert_sorted j k v m after b, Ascending-insert_sorted k v m (ground arith) a)
  ]

  pub look-sort_by_key :
      (x : K) (m : List (K × V)) → Distinct m → look o x (sort_by_key o m) ≡ look o x m
  unfolding look sort_by_key
  look-sort_by_key x [] d = refl
  look-sort_by_key x ((k, v) ∷ m) (h, d) =
      look-insert_sorted k x v (sort_by_key o m) (look-sort_by_key k m d ∙ h)
      ∙ rw (look-sort_by_key x m d) refl

  Ascending-sort_by_key : (m : List (K × V)) → Distinct m → Ascending (sort_by_key o m)
  unfolding sort_by_key
  Ascending-sort_by_key [] d = tt
  Ascending-sort_by_key ((k, v) ∷ m) (h, d) =
      Ascending-insert_sorted k v (sort_by_key o m) (look-sort_by_key k m d ∙ h)
        (Ascending-sort_by_key m d)

  -- Two maps with the same entries are ranged over alike.
  pub sort_by_key_unique :
      (m n : List (K × V))
      → Distinct m
      → Distinct n
      → ((x : K) → look o x m ≡ look o x n)
      → sort_by_key o m ≡ sort_by_key o n
  sort_by_key_unique m n d e h =
      Ascending-unique (sort_by_key o m) (sort_by_key o n) (Ascending-sort_by_key m d)
        (Ascending-sort_by_key n e)
        (λ x. look-sort_by_key x m d ∙ h x ∙ sym (look-sort_by_key x n e))

  pub look-bump :
      (k x : K) (f : V → V) (zero : V) (m : List (K × V))
      → look o x (bump o k f zero m)
        ≡ (if o.eq k x then some (f (get_or (look o x m) zero)) else look o x m)
  unfolding look bump
  look-bump k x f zero [] = ground arith
  look-bump k x f zero ((j, v) ∷ m) =
      ground (arith, look-bump k x f zero m, o.eq_iff j k, o.eq_iff k x, o.eq_iff j x)

  pub Distinct-bump :
      (k : K) (f : V → V) (zero : V) (m : List (K × V)) → Distinct m → Distinct (bump o k f zero m)
  unfolding look bump
  Distinct-bump k f zero [] d = (refl, tt)
  Distinct-bump k f zero ((j, v) ∷ m) (h, d) = elim (Bool-cases (o.eq j k)) [
    | inl e ↦ rw e (h, d)
    | inr e ↦ rw e (
      look-bump k j f zero m ∙ ground (arith, o.eq_iff j k, o.eq_iff k j),
      Distinct-bump k f zero m d,
    )
  ]

-- ===== src/Base/Text/Search/Cut.antt =====
-- What a cut at the first occurrence gives.
use Prim.Native.Nat.{◌+◌, ◌≤◌}
use Prim.Native.Char.{Char, code}
use Prim.Native.String.{String, [], ◌∷◌}
use mathlib.Core.Path.{◌≡◌, refl, sym, ap, ◌∙◌}
use mathlib.Core.Logic.{inl, inr}
use mathlib.Core.Bool.{Bool, true, false, ◌&&◌}
use mathlib.Core.Option.{Option, none, some}
use native.Mathlib.Omega.{arith}
use text.Mathlib.TextEquality.{Char-path}
use lucairn_enterprise_deplo.Base.Tests.{◌==◌, Bool-cases, ==_iff}
use lucairn_enterprise_deplo.Base.Text.Append.{◌++◌, append_assoc}
use lucairn_enterprise_deplo.Base.Text.Search.{
  size, follows, somewhere, anything, past_prefix, prepend, cut,
}

pub size-append : (s t : String) → size (s ++ t) ≡ size s + size t
size-append [] t = omega arith
size-append (c ∷ s) t = omega (arith, size-append s t)

-- What begins as the text goes on in some way.
pub follows-anything :
    (ok : String → Bool) (m s : String) → follows anything m s ≡ false → follows ok m s ≡ false
follows-anything ok [] s h = cc
follows-anything ok (c ∷ m) [] h = refl
follows-anything ok (c ∷ m) (d ∷ s) h = elim (Bool-cases (code c == code d)) [
  | inl e ↦ rw e (follows-anything ok m s (ground arith))
  | inr e ↦ rw e refl
]

-- Whether a text begins with another shows in as many characters.
pub follows-append :
    (m w t : String) → size m ≤ size w → follows anything m (w ++ t) ≡ follows anything m w
follows-append [] w t h = refl
follows-append (c ∷ m) [] t h = absurd (omega arith)
follows-append (c ∷ m) (d ∷ w) t h =
    ap (λ b. (code c == code d) && b) (follows-append m w t (omega arith))

pub past_prefix_lem : (m s : String) → follows anything m s ≡ true → s ≡ m ++ past_prefix m s
past_prefix_lem [] s h = refl
past_prefix_lem (c ∷ m) [] h = cc
past_prefix_lem (c ∷ m) (d ∷ s) h =
    let e : (code c == code d) ≡ true = ground arith in
    let same : c ≡ d = Char-path c d ((==_iff (code c) (code d)).0 e) in
    let rest : follows anything m s ≡ true = ground arith in
    rw same (ap (λ x. d ∷ x) (past_prefix_lem m s rest))

-- The parts make up the text, and the other text begins at no character of the first part.
pub data Before (m : String) : String → String → String → Type 0 where
  here : {s : String} (after : String) → s ≡ m ++ after → Before m s "" after
  later :
      {s before after : String} (c : Char)
      → follows anything m (c ∷ s) ≡ false
      → Before m s before after
      → Before m (c ∷ s) (c ∷ before) after

prepended :
    (m s : String) (c : Char)
    → follows anything m (c ∷ s) ≡ false
    → (o : Option (String × String)) → ((b a : String) → o ≡ some (b, a) → Before m s b a)
    → (b a : String) → prepend (c ∷ []) o ≡ some (b, a)
    → Before m (c ∷ s) b a
unfolding prepend
prepended m s c n none known b a h = cc
prepended m s c n (some (b', a')) known b a h =
    let eb : b ≡ c ∷ b' = cc in let ea : a ≡ a' = cc in rw (eb, ea) (later c n (known b' a' refl))

pub cut-Before :
    (m s before after : String) → cut m s ≡ some (before, after) → Before m s before after
unfolding cut
cut-Before m [] b a h = cc
cut-Before m (c ∷ s) b a h = elim (Bool-cases (follows anything m (c ∷ s))) [
  | inl e ↦
      let h' : ◌≡◌ {A = Option (String × String)} (some ("", past_prefix m (c ∷ s))) (some (b, a)) =
        rw e at h in
      let eb : b ≡ "" = cc in
      let ea : a ≡ past_prefix m (c ∷ s) = cc in
      rw (eb, ea) (here (past_prefix m (c ∷ s)) (past_prefix_lem m (c ∷ s) e))
  | inr e ↦
      let h' : prepend (c ∷ []) (cut m s) ≡ some (b, a) = rw e at h in
      prepended m s c e (cut m s) (λ b' a' k. cut-Before m s b' a' k) b a h'
]

pub Before-joined : {m s before after : String} → Before m s before after → s ≡ before ++ m ++ after
Before-joined (here after e) = e
Before-joined (later c n b) = ap (λ x. c ∷ x) (Before-joined b)

-- The text after the cut is shorter.
pub Before-shorter :
    {m s before after : String} → Before m s before after → size after + size m ≤ size s
Before-shorter {m = m} (here after e) = rw e (omega (arith, size-append m after))
Before-shorter (later c n b) = omega (arith, Before-shorter b)

-- However the text goes on after the occurrence, the other text begins at no character before it.
pub somewhere-Before :
    {m s before after : String} (ok : String → Bool) (t : String)
    → Before m s before after
    → somewhere (follows ok m) (before ++ m ++ t) ≡ somewhere (follows ok m) (m ++ t)
unfolding somewhere
somewhere-Before ok t (here after e) = refl
somewhere-Before {m} ok t (later {s = s} {before = before} {after = after} c n b) =
    let long : size m ≤ size (c ∷ (before ++ m)) = omega (arith, size-append before m) in
    let there : follows anything m (c ∷ ((before ++ m) ++ after)) ≡ false =
      rw (append_assoc before m after, ← Before-joined b) n in
    let here' : follows anything m (c ∷ ((before ++ m) ++ t)) ≡ false =
      follows-append m (c ∷ (before ++ m)) t long
      ∙ sym (follows-append m (c ∷ (before ++ m)) after long)
      ∙ there in
    let none_here : follows anything m (c ∷ (before ++ m ++ t)) ≡ false =
      rw (← append_assoc before m t) here' in
    rw (follows-anything ok m (c ∷ (before ++ m ++ t)) none_here) (somewhere-Before ok t b)

some_ne : (m s : String) → ¬ (◌≡◌ {A = Option (String × String)} (some ("", past_prefix m s)) none)
some_ne m s h = cc

prepend-none : (c : String) (o : Option (String × String)) → prepend c o ≡ none → o ≡ none
unfolding prepend
prepend-none c none h = refl
prepend-none c (some (b, a)) h = cc

-- A text without a cut has no occurrence.
pub somewhere-cut :
    (m s : String) (ok : String → Bool) → cut m s ≡ none → somewhere (follows ok m) s ≡ false
unfolding cut somewhere
somewhere-cut m [] ok h = refl
somewhere-cut m (c ∷ s) ok h = elim (Bool-cases (follows anything m (c ∷ s))) [
  | inl e ↦ absurd (some_ne m (c ∷ s) (rw e at h))
  | inr e ↦
      rw (follows-anything ok m (c ∷ s) e)
        (somewhere-cut m s ok (prepend-none (c ∷ []) (cut m s) (rw e at h)))
]

-- ===== src/Policy/Reordered.antt =====
-- States that differ by the order of prefixes alone.
use mathlib.Core.Path.{subst}
use mathlib.Core.Option.{some_inj}
use Prim.Native.Char.{code}
use text.Mathlib.TextEquality.{Char-path}
use go_run.Prelude.{
  zero, suc, ◌≡◌, refl, sym, ap, ◌∙◌, inl, inr, String, Bool, true, false, true≢false, none, some,
  List, [], ◌∷◌, All, arith, Bool-cases, sort_by, insert_by,
}
use go_run.Prelude.Result.{ok}
use go_run.Netip.{unset, v4, v6, Prefix, prefix}
use go_run.Netip.Text.{parse_prefix, prefix_text}
use go_run.Netip.Text.RoundTrip.{parse_prefix-prefix_text}
use go_run.Collapse.Coverage.{IsIpv4}
use go_run.Policy.{Policy, DesiredKernelState}
use go_run.Policy.Compile.{compile, desired_state, inbound_managed}
use go_run.Policy.Gateway.{compile-eq}
use go_run.Policy.Semantic.{text_less, prefix_text_less, normalize_state, SemanticEqual}

text_less_asymm : (s t : String) → text_less s t ≡ true → text_less t s ≡ false
unfolding text_less
text_less_asymm String.[] String.[] h = refl
text_less_asymm String.[] (String.◌∷◌ d t) h = refl
text_less_asymm (String.◌∷◌ c s) String.[] h = absurd (true≢false (sym h))
text_less_asymm (String.◌∷◌ c s) (String.◌∷◌ d t) h = ground (arith, text_less_asymm s t)

text_less_trans :
    (s t u : String) → text_less s t ≡ true → text_less t u ≡ true → text_less s u ≡ true
unfolding text_less
text_less_trans s String.[] String.[] h k = absurd (true≢false (sym k))
text_less_trans String.[] String.[] (String.◌∷◌ e u) h k = absurd (true≢false (sym h))
text_less_trans (String.◌∷◌ c s) String.[] (String.◌∷◌ e u) h k = absurd (true≢false (sym h))
text_less_trans s (String.◌∷◌ d t) String.[] h k = absurd (true≢false (sym k))
text_less_trans String.[] (String.◌∷◌ d t) (String.◌∷◌ e u) h k = refl
text_less_trans (String.◌∷◌ c s) (String.◌∷◌ d t) (String.◌∷◌ e u) h k =
    ground (arith, text_less_trans s t u)

-- Texts that neither precede one another are one text.
eq_of_text_less : (s t : String) → text_less s t ≡ false → text_less t s ≡ false → s ≡ t
unfolding text_less
eq_of_text_less String.[] String.[] h k = refl
eq_of_text_less String.[] (String.◌∷◌ d t) h k = absurd (true≢false h)
eq_of_text_less (String.◌∷◌ c s) String.[] h k = absurd (true≢false k)
eq_of_text_less (String.◌∷◌ c s) (String.◌∷◌ d t) h k =
    let same : code c ≡ code d = ground arith in
    let rest : s ≡ t = eq_of_text_less s t (ground arith) (ground arith) in
    ap (λ a. String.◌∷◌ a s) (Char-path c d same) ∙ ap (String.◌∷◌ d) rest

-- The same elements in another order
pub data Reordered {A : Type 0} : List A → List A → Type 0 where
  same : (l : List A) → Reordered l l
  swap : (x y : A) (l : List A) → Reordered (x ∷ y ∷ l) (y ∷ x ∷ l)
  skip : (x : A) (l m : List A) → Reordered l m → Reordered (x ∷ l) (x ∷ m)
  chain : (l m n : List A) → Reordered l m → Reordered m n → Reordered l n

All-Reordered : {A : Type 0} (P : A → Type 0) (l m : List A) → Reordered l m → All P l → All P m
All-Reordered P l m (same _) h = h
All-Reordered P l m (swap x y t) (h, (k, hs)) = (k, (h, hs))
All-Reordered P l m (skip x s t r) (h, hs) = (h, All-Reordered P s t r hs)
All-Reordered P l m (chain _ n _ r r') h = All-Reordered P n m r' (All-Reordered P l n r h)

module _ {A : Type 0} (less : A → A → Bool) (P : A → Type 0)
    (asym : (x y : A) → less x y ≡ true → less y x ≡ false)
    (trans : (x y z : A) → less x y ≡ true → less y z ≡ true → less x z ≡ true)
    (connex : (x y : A) → P x → P y → less x y ≡ false → less y x ≡ false → x ≡ y) where
  insert_by-less :
      (x y : A) (l : List A)
      → less x y ≡ true
      → insert_by less x (insert_by less y l) ≡ insert_by less y (insert_by less x l)
  unfolding insert_by
  insert_by-less x y [] h = rw (h, asym x y h) refl
  insert_by-less x y (z ∷ l) h = elim (Bool-cases (less z x)) [
    | inl a ↦ rw (a, trans z x y a h, insert_by, a) (ap (λ t. z ∷ t) (insert_by-less x y l h))
    | inr a ↦ elim (Bool-cases (less z y)) [
      | inl b ↦ rw (a, b, a, h) refl
      | inr b ↦ rw (a, b, asym x y h, h) refl
    ]
  ]

  insert_by_comm :
      (x y : A) (l : List A)
      → P x
      → P y
      → insert_by less x (insert_by less y l) ≡ insert_by less y (insert_by less x l)
  insert_by_comm x y l p q = elim (Bool-cases (less x y)) [
    | inl a ↦ insert_by-less x y l a
    | inr a ↦ elim (Bool-cases (less y x)) [
      | inl b ↦ sym (insert_by-less y x l b)
      | inr b ↦
          subst (λ v. insert_by less x (insert_by less v l) ≡ insert_by less v (insert_by less x l))
            (connex x y p q a b) refl
    ]
  ]

  sort_by-Reordered : (l m : List A) → Reordered l m → All P l → sort_by less l ≡ sort_by less m
  unfolding sort_by
  sort_by-Reordered l m (same _) h = refl
  sort_by-Reordered l m (swap x y t) (p, (q, h)) = insert_by_comm x y (sort_by less t) p q
  sort_by-Reordered l m (skip x s t r) (p, h) = ap (insert_by less x) (sort_by-Reordered s t r h)
  sort_by-Reordered l m (chain _ n _ r r') h =
      sort_by-Reordered l n r h ∙ sort_by-Reordered n m r' (All-Reordered P l n r h)

read_back : (p : Prefix) → IsIpv4 p → parse_prefix (λ s. none) (prefix_text p) ≡ some p
read_back (prefix (v4 n) (suc b)) (h, k) = parse_prefix-prefix_text (λ s. none) n b k h
read_back (prefix (v4 n) zero) h = absurd h
read_back (prefix unset k) h = absurd h
read_back (prefix (v6 n) k) h = absurd h

prefix_text-inj : (p q : Prefix) → IsIpv4 p → IsIpv4 q → prefix_text p ≡ prefix_text q → p ≡ q
prefix_text-inj p q h k e =
    some_inj.0 (sym (read_back p h) ∙ ap (parse_prefix (λ s. none)) e ∙ read_back q k)

sort_prefixes-Reordered :
    (l m : List Prefix)
    → Reordered l m
    → All IsIpv4 l
    → sort_by prefix_text_less l ≡ sort_by prefix_text_less m
unfolding prefix_text_less
sort_prefixes-Reordered =
    sort_by-Reordered prefix_text_less IsIpv4
      (λ p q. text_less_asymm (prefix_text p) (prefix_text q))
      (λ p q r. text_less_trans (prefix_text p) (prefix_text q) (prefix_text r))
      (λ p q h k a b. prefix_text-inj p q h k (eq_of_text_less (prefix_text p) (prefix_text q) a b))

normal_form :
    (p : Policy) (ds ls : List Prefix)
    → sort_by prefix_text_less p.direct_prefixes ≡ sort_by prefix_text_less ds
    → sort_by prefix_text_less p.lans ≡ sort_by prefix_text_less ls
    → SemanticEqual (desired_state p) (desired_state (record p { direct_prefixes = ds; lans = ls }))
unfolding normalize_state desired_state
normal_form p ds ls d l = elim (Bool-cases (inbound_managed p)) [
  | inl e ↦ rw (e, d, l) refl
  | inr e ↦ rw (e, d, l) refl
]

-- For two policies that differ only by the order of their direct prefixes and of their LANs, all of
-- them valid IPv4 prefixes: if both compile, `SemanticEqual` holds of the states.
pub SemanticEqual-compile :
    (p : Policy) (ds ls : List Prefix) (a b : DesiredKernelState)
    → Reordered p.direct_prefixes ds
    → Reordered p.lans ls
    → All IsIpv4 p.direct_prefixes
    → All IsIpv4 p.lans
    → compile p ≡ ok a
    → compile (record p { direct_prefixes = ds; lans = ls }) ≡ ok b
    → SemanticEqual a b
SemanticEqual-compile p ds ls a b r r' h h' e f =
    rw (compile-eq p e, compile-eq (record p { direct_prefixes = ds; lans = ls }) f)
      (normal_form p ds ls (sort_prefixes-Reordered p.direct_prefixes ds r h)
        (sort_prefixes-Reordered p.lans ls r' h'))

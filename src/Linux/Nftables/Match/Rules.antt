-- ===== src/Linux/Nftables/Match/Rules.antt =====
-- What the listed rule of a kind, and a listed chain, have to be like.
use mathlib.Core.Option.{some_inj}
use go_run.Prelude.{
  ℕ, ◌≡◌, ◌≢◌, ◌↔◌, ◌⊎◌, refl, sym, ap, ◌∙◌, inl, inr, String, Bool, true, true≢false, ◌&&◌, ◌||◌,
  Option, none, some, List, [], ◌∷◌, str_eq, eq_iff, ==_iff, int_eq_iff, Bool-cases, arith,
}
use go_run.Strings.Keys.{has_key}
use go_run.Policy.{NftRuleSpec, NftChainSpec}
use go_run.Linux.Nftables.Live.{LiveChain, LiveRule}
use go_run.Linux.Nftables.Match.{first_rule, mark_is, isolates, is_chain}

-- The rule is the first one of the list that stands in the chain and has the comment.
abbrev pub IsFirst : List LiveRule → String → String → LiveRule → Type 0
IsFirst [] chain comment rule = ⊥
IsFirst (r ∷ rules) chain comment rule =
    (r.chain ≡ chain) × (r.comment ≡ comment) × (r ≡ rule)
    ⊎ (r.chain ≡ chain → r.comment ≡ comment → ⊥) × IsFirst rules chain comment rule

first_rule-IsFirst :
    (rules : List LiveRule) (chain comment : String) (rule : LiveRule)
    → (first_rule rules chain comment ≡ some rule) ↔ IsFirst rules chain comment rule
unfolding first_rule
first_rule-IsFirst [] chain comment rule = (λ e. cc, λ h. absurd h)
first_rule-IsFirst (r ∷ rules) chain comment rule =
    let (to, from) = first_rule-IsFirst rules chain comment rule in
    let here = eq_iff r.chain chain in
    let named = eq_iff r.comment comment in
    let both : r.chain ≡ chain
        → r.comment ≡ comment
        → (str_eq r.chain chain && str_eq r.comment comment) ≡ true =
      λ c d. rw (here.1 c, named.1 d) refl in
    elim (Bool-cases (str_eq r.chain chain && str_eq r.comment comment)) [
      | inl e ↦
          let c = here.0 (ground (arith, e)) in
          let d = named.0 (ground (arith, e)) in
          (
            λ h. inl (c, d, some_inj.0 (rw e at h)),
            λ h. elim h [
              | inl (_, _, same) ↦ rw (e, same) refl
              | inr (other, _) ↦ absurd (other c d)
            ],
          )
      | inr e ↦ (
        λ h. inr (λ c d. true≢false (sym (both c d) ∙ e), to (rw e at h)),
        λ h. elim h [
          | inl (c, d, _) ↦ absurd (true≢false (sym (both c d) ∙ e))
          | inr (_, later) ↦ rw e (from later)
        ],
      )
    ]

-- The first rule that marks sets this mark.
abbrev pub MarksWith : List LiveRule → String → ℕ → Type 0
MarksWith rules chain mark =
    (r : LiveRule) × IsFirst rules chain "mark-non-direct" r × (r.mark ≡ some mark)

-- The first rule that isolates names the interface and the set, as far as they are wanted.
abbrev pub Isolates : List LiveRule → String → NftRuleSpec → Type 0
Isolates rules chain want =
    (r : LiveRule) × IsFirst rules chain "isolate-inbound-from-home" r
    × (want.iif_name ≢ "" → has_key want.iif_name r.iif_names ≡ true)
    × (want.drop_dst_set ≢ "" → has_key want.drop_dst_set r.set_names ≡ true)

abbrev pub HasAttributes : NftChainSpec → LiveChain → Type 0
HasAttributes ch live =
    (live.type ≡ ch.type)
    × (live.hook ≡ ch.hook)
    × (live.priority ≡ ch.priority)
    × (live.policy ≡ ch.policy)

mark_is-some :
    (mark : ℕ) (o : Option LiveRule)
    → (mark_is mark o ≡ true) ↔ ((r : LiveRule) × (o ≡ some r) × (r.mark ≡ some mark))
unfolding mark_is
mark_is-some mark none = (λ e. absurd (true≢false (sym e)), λ (r, e, m). cc)
mark_is-some mark (some r) = of_mark r.mark refl
  where
    of_mark :
        (m : Option ℕ)
        → r.mark ≡ m
        → (mark_is mark (some r) ≡ true)
          ↔ ((s : LiveRule) × (some r ≡ some s) × (s.mark ≡ some mark))
    of_mark none e =
        (λ h. absurd (true≢false (sym h ∙ rw e refl)), λ (s, same, m). cc (some_inj.0 same, e, m))
    of_mark (some n) e = (
      λ h. (r, refl, e ∙ ap some ((==_iff n mark).0 (rw e at h))),
      λ (s, same, m).
          let found : r.mark ≡ some mark = ap (λ t. t.mark) (some_inj.0 same) ∙ m in
          rw found ((==_iff mark mark).1 refl),
    )

pub mark_is-MarksWith :
    (rules : List LiveRule) (chain : String) (mark : ℕ)
    → (mark_is mark (first_rule rules chain "mark-non-direct") ≡ true) ↔ MarksWith rules chain mark
mark_is-MarksWith rules chain mark =
    let (to, from) = mark_is-some mark (first_rule rules chain "mark-non-direct") in
    (
      λ e.
          let (r, first, m) = to e in
          (r, (first_rule-IsFirst rules chain "mark-non-direct" r).0 first, m),
      λ (r, first, m). from (r, (first_rule-IsFirst rules chain "mark-non-direct" r).1 first, m),
    )

named_iff : (name : String) (b : Bool) → ((str_eq name "" || b) ≡ true) ↔ (name ≢ "" → b ≡ true)
named_iff name b = elim (Bool-cases (str_eq name "")) [
  | inl e ↦ (λ h n. absurd (n ((eq_iff name "").0 e)), λ h. rw e refl)
  | inr e ↦
      (λ h n. rw e at h, λ h. rw e (h (λ same. true≢false (sym ((eq_iff name "").1 same) ∙ e))))
]

pub isolates-Isolates :
    (rules : List LiveRule) (chain : String) (want : NftRuleSpec)
    → (isolates want (first_rule rules chain "isolate-inbound-from-home") ≡ true)
      ↔ Isolates rules chain want
unfolding isolates
isolates-Isolates rules chain want =
    of_first (first_rule rules chain "isolate-inbound-from-home") refl
  where
    of_first :
        (o : Option LiveRule)
        → first_rule rules chain "isolate-inbound-from-home" ≡ o
        → (isolates want o ≡ true) ↔ Isolates rules chain want
    of_first none e = (
      λ h. absurd (true≢false (sym h)),
      λ (r, first, _, _).
          cc ((first_rule-IsFirst rules chain "isolate-inbound-from-home" r).1 first, e),
    )
    of_first (some r) e =
        let iif = named_iff want.iif_name (has_key want.iif_name r.iif_names) in
        let set = named_iff want.drop_dst_set (has_key want.drop_dst_set r.set_names) in
        (
          λ h. (
            r,
            (first_rule-IsFirst rules chain "isolate-inbound-from-home" r).0 e,
            iif.0 (ground (arith, h)),
            set.0 (ground (arith, h)),
          ),
          λ (s, first, i, d).
              let found = (first_rule-IsFirst rules chain "isolate-inbound-from-home" s).1 first in
              let same : s ≡ r = some_inj.0 (sym found ∙ e) in
              let a = iif.1 (λ n. ap (λ t. has_key want.iif_name t.iif_names) (sym same) ∙ i n) in
              let b =
                set.1 (λ n. ap (λ t. has_key want.drop_dst_set t.set_names) (sym same) ∙ d n) in
              rw (a, b) refl,
        )

pub is_chain-HasAttributes :
    (ch : NftChainSpec) (live : LiveChain) → (is_chain ch live ≡ true) ↔ HasAttributes ch live
unfolding is_chain
is_chain-HasAttributes ch live =
    let type = eq_iff live.type ch.type in
    let hook = eq_iff live.hook ch.hook in
    let priority = int_eq_iff live.priority ch.priority in
    let policy = eq_iff live.policy ch.policy in
    (
      λ e. (
        type.0 (ground (arith, e)),
        hook.0 (ground (arith, e)),
        priority.0 (ground (arith, e)),
        policy.0 (ground (arith, e)),
      ),
      λ (a, b, c, d). rw (type.1 a, hook.1 b, priority.1 c, policy.1 d) refl,
    )

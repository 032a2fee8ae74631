-- ===== src/Linux/Nftables/Match/Comments.antt =====
-- The destinations and the number of the listed rules that have a comment.
use go_run.Prelude.{
  ◌≡◌, refl, ap, ◌∙◌, inl, inr, String, Bool, not, ◌&&◌, ◌||◌, List, [], ◌∷◌, any, leb, str_eq,
  Bool-cases, arith,
}
use go_run.Strings.Keys.{has_key, insert_key, Unique, insert_key-Unique, has_key-insert_key}
use go_run.Linux.Nftables.Live.{LiveRule}
use go_run.Linux.Nftables.Match.{keys_of, count_comments, insert_keys, daddrs_from}

pub keys_of-Unique : (ss : List String) → Unique (keys_of ss)
unfolding keys_of
keys_of-Unique [] = tt
keys_of-Unique (s ∷ ss) = insert_key-Unique s (keys_of ss) (keys_of-Unique ss)

pub has_key-keys_of : (k : String) (ss : List String) → has_key k (keys_of ss) ≡ has_key k ss
unfolding keys_of
has_key-keys_of k [] = refl
has_key-keys_of k (s ∷ ss) =
    has_key-insert_key k s (keys_of ss) ∙ ap (λ b. str_eq k s || b) (has_key-keys_of k ss)

insert_keys-Unique : (ss keys : List String) → Unique keys → Unique (insert_keys ss keys)
unfolding insert_keys
insert_keys-Unique [] keys u = u
insert_keys-Unique (s ∷ ss) keys u =
    insert_keys-Unique ss (insert_key s keys) (insert_key-Unique s keys u)

has_key-insert_keys :
    (k : String) (ss keys : List String)
    → has_key k (insert_keys ss keys) ≡ (has_key k ss || has_key k keys)
unfolding insert_keys
has_key-insert_keys k [] keys = refl
has_key-insert_keys k (s ∷ ss) keys =
    has_key-insert_keys k ss (insert_key s keys) ∙ rw (has_key-insert_key k s keys) (ground arith)

-- A rule of the chain with the comment
unfoldable pub is_rule : String → String → LiveRule → Bool
is_rule chain comment r = str_eq r.chain chain && str_eq r.comment comment

-- A rule of the chain with the comment that matches the destination `k`
unfoldable pub has_daddr : String → String → String → LiveRule → Bool
unfolding is_rule
has_daddr chain comment k r = is_rule chain comment r && has_key k r.daddrs

module _ (chain comment : String) where
  pub count_comments_iff :
      (rules : List LiveRule)
      → leb 1 (count_comments rules chain comment) ≡ any (is_rule chain comment) rules
  unfolding count_comments is_rule
  count_comments_iff [] = refl
  count_comments_iff (r ∷ rules) = ground (arith, count_comments_iff rules)

  pub daddrs_from-Unique :
      (rules : List LiveRule) (keys : List String)
      → Unique keys
      → Unique (daddrs_from keys rules chain comment)
  unfolding daddrs_from
  daddrs_from-Unique [] keys u = u
  daddrs_from-Unique (r ∷ rules) keys u =
      elim (Bool-cases (not (str_eq r.chain chain) || not (str_eq r.comment comment))) [
        | inl e ↦ rw e (daddrs_from-Unique rules keys u)
        | inr e ↦ rw e (
            daddrs_from-Unique rules (insert_keys r.daddrs keys)
              (insert_keys-Unique r.daddrs keys u))
      ]

  pub has_key-daddrs_from :
      (k : String) (rules : List LiveRule) (keys : List String)
      → has_key k (daddrs_from keys rules chain comment)
        ≡ (has_key k keys || any (has_daddr chain comment k) rules)
  unfolding daddrs_from has_daddr is_rule
  has_key-daddrs_from k [] keys = ground arith
  has_key-daddrs_from k (r ∷ rules) keys = ground (
    arith,
    has_key-daddrs_from k rules keys,
    has_key-daddrs_from k rules (insert_keys r.daddrs keys),
    has_key-insert_keys k r.daddrs keys,
  )

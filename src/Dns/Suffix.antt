-- ===== src/Dns/Suffix.antt =====
-- suffix.go and path.go: which egress a name takes.
use text.Mathlib.TextLemmas.{nil-append, cons-append}
use go_run.Prelude.{
  ◌≡◌, refl, sym, ◌∙◌, ◌↔◌, ◌⊎◌, inl, inr, String, Bool, true, not, List, [], ◌∷◌, str_eq, eq_iff,
  arith, if◌then◌else◌, Bool-cases, true≢false,
}
use go_run.Strings.{◌<>◌, has_prefix, has_suffix, trim_prefix_char, trim_space}
use go_run.Strings.Laws.{has_suffix_iff, has_prefix-dot}

pub data DnsPath : Type 0 where
  direct exit : DnsPath

-- `Path.String`
unfoldable pub path_text : DnsPath → String
path_text direct = "direct"
path_text exit = "exit"

-- Either ".ru" or "ru" may be configured.
with_dot : String → String
with_dot s = if not (has_prefix s ".") then "." <> s else s

matches_suffix : (String → String) → String → String → Bool
unfolding with_dot
matches_suffix canonical n suf =
    let s = with_dot (canonical (trim_space suf)) in
    if str_eq n (trim_prefix_char "." s) then true else has_suffix n s

classify_from : (String → String) → List String → String → DnsPath
unfolding matches_suffix
classify_from canonical [] n = exit
classify_from canonical (suf ∷ sufs) n =
    if matches_suffix canonical n suf then direct else classify_from canonical sufs n

-- `SuffixClassifier.Classify`; `canonical` is `dnsutil.Canonical` of the DNS library
unfoldable pub classify : (String → String) → List String → String → DnsPath
unfolding classify_from
classify canonical sufs name = classify_from canonical sufs (canonical (trim_space name))

-- `DefaultRUClassifier`
abbrev pub default_ru_suffixes : List String
default_ru_suffixes = ".ru" ∷ []

-- The zone that a configured suffix names, without its leading dot.
abbrev pub zone : (String → String) → String → String
zone canonical suf = trim_prefix_char "." (canonical (trim_space suf))

-- The name is the zone or lies below it, at a label boundary.
abbrev pub InZone : String → String → Type 0
InZone n z = (n ≡ z) ⊎ ((labels : String) × (n ≡ labels <> "." <> z))

abbrev pub InSomeZone : (String → String) → List String → String → Type 0
InSomeZone canonical [] n = ⊥
InSomeZone canonical (suf ∷ sufs) n = InZone n (zone canonical suf) ⊎ InSomeZone canonical sufs n

with_dot_zone : (s : String) → with_dot s ≡ "." <> trim_prefix_char "." s
unfolding with_dot
with_dot_zone s = ground (arith, has_prefix-dot s)

trim_with_dot : (z : String) → trim_prefix_char "." ("." <> z) ≡ z
unfolding trim_prefix_char
trim_with_dot z = rw (cons-append "." "" z, nil-append z)

matches_iff :
    (canonical : String → String) (n suf : String)
    → (matches_suffix canonical n suf ≡ true) ↔ InZone n (zone canonical suf)
unfolding matches_suffix
matches_iff canonical n suf =
    let z = zone canonical suf in
    let s = canonical (trim_space suf) in
    let test : matches_suffix canonical n suf
        ≡ (if str_eq n z then true else has_suffix n ("." <> z)) =
      rw (with_dot_zone s, trim_with_dot z) refl in
    rw test (ground (arith, eq_iff n z, has_suffix_iff n ("." <> z)))

classify_from_iff :
    (canonical : String → String) (n : String) (sufs : List String)
    → (classify_from canonical sufs n ≡ direct) ↔ InSomeZone canonical sufs n
unfolding classify_from
classify_from_iff canonical n [] = (λ e. cc, λ h. absurd h)
classify_from_iff canonical n (suf ∷ rest) = elim (Bool-cases (matches_suffix canonical n suf)) [
  | inl e ↦ rw e (λ d. inl ((matches_iff canonical n suf).0 e), λ h. refl)
  | inr e ↦
      let rec = classify_from_iff canonical n rest in
      rw e (
        λ d. inr (rec.0 d),
        λ h. elim h [
          | inl z ↦ absurd (true≢false (sym ((matches_iff canonical n suf).1 z) ∙ e))
          | inr z ↦ rec.1 z
        ],
      )
]

-- A name goes direct exactly when, both made canonical, it is the zone of some configured suffix
-- or lies below one at a label boundary; every other name goes to the exit.
pub classify_iff :
    (canonical : String → String) (sufs : List String) (name : String)
    → (classify canonical sufs name ≡ direct)
      ↔ InSomeZone canonical sufs (canonical (trim_space name))
unfolding classify
classify_iff canonical sufs name = classify_from_iff canonical (canonical (trim_space name)) sufs

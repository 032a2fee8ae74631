-- ===== src/Cli/Calm.antt =====
-- The assembly of a policy does not panic.
use mathlib.Core.Path.{subst}
use go_run.Prelude.{
  ℕ, ◌≡◌, ◌≢◌, refl, inl, inr, String, true≢false, Bool, true, false, Option, none, some, List, [],
  ◌∷◌, str_eq, if◌then◌else◌, Bool-cases,
}
use go_run.Prelude.Result.{Result, ok, err, ◌>>=◌}
use go_run.Strings.{trim_space, split}
use go_run.Netip.{Prefix}
use go_run.Netip.Text.{parse_addr, parse_prefix}
use go_run.Collapse.{collapse_ipv4}
use go_run.Collapse.Coverage.{collapse_ipv4-covers}
use go_run.CidrList.{parse_cidr_list}
use go_run.CidrList.Laws.{AllOk}
use go_run.Country.{parse_max_mind_country_dir}
use go_run.Cli.System.{Machine}
use go_run.Cli.Assemble.{
  CliError, panicked, bad_country, bad_lan, bad_endpoint, no_file, passed_on, found, add_lan,
  parse_lans_from, parse_lans, parse_cidr_file, read_prefixes, read_wg_quick, ApplyArgs, policy_for,
}
use go_run.Cli.Inputs.{read_prefixes-AllOk}

abbrev is_panic : CliError → Bool
is_panic panicked = true
is_panic e = false

abbrev Calm : {A : Type 0} → Result CliError A → Type 0
Calm (ok a) = Unit
Calm (err e) = is_panic e ≡ false

>>=-Calm :
    {A B : Type 0} (x : Result CliError A) (f : A → Result CliError B)
    → Calm x
    → ((a : A) → x ≡ ok a → Calm (f a))
    → Calm (x >>= f)
>>=-Calm (ok a) f h k = k a refl
>>=-Calm (err e) f h k = h

found-Calm : {A : Type 0} (e : CliError) (o : Option A) → is_panic e ≡ false → Calm (found e o)
unfolding found
found-Calm e none h = h
found-Calm e (some a) h = tt

passed_on-Calm :
    {E A : Type 0} (f : E → CliError) (x : Result E A)
    → ((e : E) → is_panic (f e) ≡ false)
    → Calm (passed_on f x)
unfolding passed_on
passed_on-Calm f (err e) h = h e
passed_on-Calm f (ok a) h = tt

module _ (parse6 : String → Option ℕ) where
  parse_lans_from-Calm : (parts : List String) → Calm (parse_lans_from parse6 parts)
  unfolding parse_lans_from
  parse_lans_from-Calm [] = tt
  parse_lans_from-Calm (part ∷ parts) = elim (Bool-cases (str_eq (trim_space part) "")) [
    | inl e ↦ rw e (parse_lans_from-Calm parts)
    | inr e ↦ rw e (
        add_lan-Calm (parse_prefix parse6 (trim_space part)) (parse_lans_from parse6 parts)
          (parse_lans_from-Calm parts))
  ]
    where
      add_lan-Calm :
          (o : Option Prefix) (rest : Result CliError (List Prefix))
          → Calm rest
          → Calm (add_lan o (bad_lan (trim_space part)) rest)
      add_lan-Calm none rest h = refl
      add_lan-Calm (some p) rest h = >>=-Calm rest _ h (λ ps e. tt)

  parse_lans-Calm : (list : String) → Calm (parse_lans parse6 list)
  unfolding parse_lans
  parse_lans-Calm list = elim (Bool-cases (str_eq list "")) [
    | inl e ↦ rw e tt
    | inr e ↦ rw e (parse_lans_from-Calm (split "," list))
  ]

  module _ {W : Type 0} (m : Machine W) (w : W) where
    parse_cidr_file-Calm : (path : String) → Calm (parse_cidr_file parse6 m w path)
    unfolding parse_cidr_file
    parse_cidr_file-Calm path =
        >>=-Calm (found (no_file path) (m.read_file w path)) _ (found-Calm _ _ refl)
          (λ text e. passed_on-Calm _ (parse_cidr_list parse6 text) (λ e. refl))

    read_prefixes-Calm : (path : String) → Calm (read_prefixes parse6 m w path)
    unfolding read_prefixes
    read_prefixes-Calm path =
        >>=-Calm (found (no_file path) (m.stat w path)) _ (found-Calm _ _ refl) of_kind
      where
        of_kind :
            (is_dir : Bool)
            → found (no_file path) (m.stat w path) ≡ ok is_dir
            → Calm (
                if is_dir
                then passed_on bad_country (parse_max_mind_country_dir parse6 (m.dir w path) "RU")
                else parse_cidr_file parse6 m w path)
        of_kind true e = passed_on-Calm _ _ (λ e. refl)
        of_kind false e = parse_cidr_file-Calm path

    read_wg_quick-Calm : (path : String) → Calm (read_wg_quick parse6 m w path)
    unfolding read_wg_quick
    read_wg_quick-Calm path = elim (Bool-cases (str_eq path "")) [
      | inl e ↦ rw e tt
      | inr e ↦ rw e (
          >>=-Calm (found (no_file path) (m.read_file w path)) _ (found-Calm _ _ refl)
            (λ text e. tt))
    ]

    collapsed-Calm :
        (path : String) (raw : List Prefix)
        → read_prefixes parse6 m w path ≡ ok raw
        → Calm (found panicked (collapse_ipv4 raw))
    unfolding found
    collapsed-Calm path raw e =
        let (short, same, cover) =
          collapse_ipv4-covers raw (subst AllOk e (read_prefixes-AllOk parse6 m w path)) in
        rw same tt

    policy_for-Calm : (a : ApplyArgs) → Calm (policy_for parse6 m a w)
    unfolding policy_for
    policy_for-Calm a = elim (Bool-cases (str_eq a.prefixes_path "")) [
      | inl e ↦ rw e refl
      | inr e ↦ elim (Bool-cases (str_eq a.endpoint "")) [
        | inl l ↦ rw (e, l) refl
        | inr l ↦
            rw (e, l)
              (>>=-Calm (found (bad_endpoint a.endpoint) (parse_addr parse6 a.endpoint)) _
                (found-Calm _ _ refl)
                (λ ep _.
                  >>=-Calm (read_prefixes parse6 m w a.prefixes_path) _
                    (read_prefixes-Calm a.prefixes_path)
                    (λ raw e1.
                      >>=-Calm (found panicked (collapse_ipv4 raw)) _
                        (collapsed-Calm a.prefixes_path raw e1)
                        (λ short _.
                          >>=-Calm (parse_lans parse6 a.lan_csv) _ (parse_lans-Calm a.lan_csv)
                            (λ lans _.
                              >>=-Calm (read_wg_quick parse6 m w a.wg_config) _
                                (read_wg_quick-Calm a.wg_config)
                                (λ exit _.
                                  >>=-Calm (read_wg_quick parse6 m w a.wg_clients_config) _
                                    (read_wg_quick-Calm a.wg_clients_config) (λ clients _. tt)))))))
      ]
    ]

    pub policy_for-ne-panicked : (a : ApplyArgs) → policy_for parse6 m a w ≢ err panicked
    policy_for-ne-panicked a h = true≢false (subst Calm h (policy_for-Calm a))

-- ===== src/Cli/Fetched.antt =====
-- What `gotun fetch` writes, and that `gotun apply` reads it.
use mathlib.Core.Path.{subst}
use text.Mathlib.TextLemmas.{nil-append, cons-append, append_assoc, append-nil}
use go_run.Prelude.{ℕ, ◌≡◌, refl, sym, ap, ◌∙◌, String, Option, none, some, List, [], ◌∷◌, length}
use go_run.Prelude.Result.{Result, ok, err, bind-ok}
use go_run.Strings.{◌<>◌}
use go_run.Netip.{Prefix}
use go_run.Netip.Text.{prefix_text}
use go_run.Collapse.{collapse_ipv4}
use go_run.Collapse.Coverage.{covers, collapse_ipv4-covers, collapse_ipv4-IsIpv4}
use go_run.CidrList.{write_cidr_list}
use go_run.CidrList.Laws.{AllOk, parse_cidr_list-write_cidr_list}
use go_run.Country.{Sources, load_country_prefixes_raw}
use go_run.Country.Load.{MmdbInRange, load_country_prefixes_raw-AllOk}
use go_run.Cli.System.{Machine, WritesFiles}
use go_run.Cli.Assemble.{
  CliError, bad_country, panicked, write_failed, found, passed_on, parse_cidr_file,
}
use go_run.Cli.Commands.{
  Report, fetched, then_write, after_write, continue_write, write_lines, write_cidr_file,
  with_collapsed, country_lists, fetch_prefixes,
}
use go_run.Cli.Inputs.{found-eq-ok}

-- What a writing that went on without an error was
continue_write-none :
    {W : Type 0} (rest : W → Option String × W) (x : Option String × W) (w' : W)
    → continue_write rest x ≡ (none, w')
    → (w1 : W) × (x ≡ (none, w1)) × (rest w1 ≡ (none, w'))
unfolding continue_write
continue_write-none rest (none, w1) w' h = (w1, refl, h)
continue_write-none rest (some e, w1) w' h = absurd (is_none-some (ap (λ y. y.0) h))
  where
    is_none-some : ◌≡◌ {A = Option String} (some e) none → ⊥
    is_none-some h = cc

line_then : (s rest : String) → (s <> String.◌∷◌ "\n" "") <> rest ≡ s <> String.◌∷◌ "\n" rest
line_then s rest =
    append_assoc s (String.◌∷◌ "\n" "") rest
    ∙ ap (λ t. s <> t) (cons-append "\n" "" rest ∙ ap (String.◌∷◌ "\n") (nil-append rest))

module _ {W : Type 0} (m : Machine W) (laws : WritesFiles m) (path : String) where
  write_lines-read :
      (ps : List Prefix) (old : String) (w w' : W)
      → write_lines m path ps w ≡ (none, w')
      → m.read_file w path ≡ some old
      → m.read_file w' path ≡ some (old <> write_cidr_list ps)
  unfolding write_lines write_cidr_list
  write_lines-read [] old w w' h e =
      ap (λ y. m.read_file y path) (sym (ap (λ y. y.1) h)) ∙ e ∙ ap some (sym (append-nil old))
  write_lines-read (p ∷ ps) old w w' h e =
      let line = prefix_text p <> String.◌∷◌ "\n" "" in
      let (w1, h1, h2) = continue_write-none (write_lines m path ps) (m.append path line w) w' h in
      write_lines-read ps (old <> line) w1 w' h2 (laws.appended path line old w w1 h1 e)
      ∙ ap some (
          append_assoc old line (write_cidr_list ps)
          ∙ ap (λ t. old <> t) (line_then (prefix_text p) (write_cidr_list ps)))

  write_cidr_file-read :
      (ps : List Prefix) (w w' : W)
      → write_cidr_file m path ps w ≡ (none, w')
      → m.read_file w' path ≡ some (write_cidr_list ps)
  unfolding write_cidr_file
  write_cidr_file-read ps w w' h =
      let (w1, h1, h2) = continue_write-none (write_lines m path ps) (m.create path w) w' h in
      write_lines-read ps "" w1 w' h2 (laws.created path w w1 h1)
      ∙ ap some (nil-append (write_cidr_list ps))

pub passed_on-eq-ok :
    {E A : Type 0} (f : E → CliError) (x : Result E A) {a : A} → passed_on f x ≡ ok a → x ≡ ok a
unfolding passed_on
passed_on-eq-ok f (err e) h = cc
passed_on-eq-ok f (ok a) h = cc

then_write-ok :
    {A W : Type 0} (x : Result CliError A) (write : A → W → Result CliError Report × W) (w : W)
    {report : Report} {w' : W}
    → then_write x write w ≡ (ok report, w')
    → (a : A) × (x ≡ ok a) × (write a w ≡ (ok report, w'))
unfolding then_write
then_write-ok (ok a) write w h = (a, refl, h)
then_write-ok (err e) write w h = absurd (no_value (ap (λ y. y.0) h))
  where
    no_value : {r : Report} → ◌≡◌ {A = Result CliError Report} (err e) (ok r) → ⊥
    no_value h = cc

after_write-ok :
    {W : Type 0} (promised : Report) (x : Option String × W) {report : Report} {w' : W}
    → after_write promised x ≡ (ok report, w')
    → (report ≡ promised) × (x ≡ (none, w'))
unfolding after_write
after_write-ok promised (none, w) h = (cc, cc)
after_write-ok promised (some e, w) h = absurd (no_value (ap (λ y. y.0) h))
  where
    no_value : {r : Report} → ◌≡◌ {A = Result CliError Report} (err (write_failed e)) (ok r) → ⊥
    no_value h = cc

with_collapsed-ok :
    (x : Result CliError (List Prefix)) {lists : List Prefix × List Prefix}
    → with_collapsed x ≡ ok lists
    → (x ≡ ok lists.0) × (collapse_ipv4 lists.0 ≡ some lists.1)
unfolding with_collapsed
with_collapsed-ok x h =
    let (raw, h1, e1) = bind-ok _ x h in
    let (short, h2, e2) = bind-ok _ (found panicked (collapse_ipv4 raw)) h1 in
    (cc, cc (found-eq-ok _ (collapse_ipv4 raw) e2))

module _ (parse6 : String → Option ℕ) (W : Type 0) (m : Machine W) (sources : Sources)
    (license country out mmdb : String) (w w' : W) (report : Report) where
  -- On a machine whose files hold what is written to them, and with an MMDB file whose networks are
  -- in range: if `gotun fetch` reports success, then the networks of the country were read, the file
  -- it wrote is read by `ParseCIDRFile` as a list that covers the same IPv4 addresses as those
  -- networks, and the report counts the networks before and after.
  pub fetch_prefixes-read :
      WritesFiles m
      → MmdbInRange (sources.open_mmdb mmdb)
      → fetch_prefixes m parse6 sources license country out mmdb w ≡ (ok report, w')
      → (raw : List Prefix) × (short : List Prefix) × (load_country_prefixes_raw parse6 sources
            license country mmdb
          ≡ ok raw)
        × (parse_cidr_file parse6 m w' out ≡ ok short)
        × (report ≡ fetched (length raw) (length short) out)
        × ((x : ℕ) → covers short x ≡ covers raw x)
  unfolding fetch_prefixes country_lists parse_cidr_file passed_on found
  fetch_prefixes-read laws range h =
      let (lists, e1, h1) =
        then_write-ok (country_lists parse6 sources license country mmdb) _ w h in
      let (e2, h2) =
        after_write-ok (fetched (length lists.0) (length lists.1) out)
          (write_cidr_file m out lists.1 w) h1 in
      let (e3, e4) = with_collapsed-ok _ e1 in
      let e5 =
        passed_on-eq-ok bad_country (load_country_prefixes_raw parse6 sources license country mmdb)
          e3 in
      let valid =
        subst AllOk e5
          (load_country_prefixes_raw-AllOk parse6 sources license country mmdb range) in
      let (short, same, cover) = collapse_ipv4-covers lists.0 valid in
      let equal : short ≡ lists.1 = cc (same, e4) in
      (
        lists.0,
        lists.1,
        e5,
        rw
            (
              write_cidr_file-read m laws out lists.1 w w' h2,
              parse_cidr_list-write_cidr_list parse6 lists.1
                  (collapse_ipv4-IsIpv4 lists.0 lists.1 valid e4),
            )
            refl,
        e2,
        λ x. ap (λ l. covers l x) (sym equal) ∙ cover x,
      )

-- ===== src/Cli/Commands.antt =====
-- internal/cli/commands.go: the commands over a machine. What a command prints is its result.
use go_run.Prelude.{ℕ, String, Option, none, some, List, [], ◌∷◌, length}
use go_run.Prelude.Result.{Result, ok, err, ◌>>=◌}
use go_run.Strings.{◌<>◌}
use go_run.Netip.{Prefix}
use go_run.Netip.Text.{prefix_text}
use go_run.Collapse.{collapse_ipv4}
use go_run.Country.{Sources, load_country_prefixes_raw, download_country}
use go_run.Amnezia.{Format, Site, parse_format, sites_from}
use go_run.Apply
use go_run.Apply.{ApplyError, Applied, Ways}
use go_run.Cli.System.{Machine}
use go_run.Cli.Assemble.{
  CliError, bad_country, bad_format, write_failed, apply_failed, panicked, passed_on, found,
  ApplyArgs, policy_for,
}

pub data Report : Type 0 where
  fetched : ℕ → ℕ → String → Report
  exported : ℕ → ℕ → String → Format → Report
  applied : ℕ → Report
  silent : Report

abbrev pub Command : Type 0 → Type 0
Command W = W → Result CliError Report × W

-- What is known before a file is written, or the error that ends the command
unfoldable pub then_write : {A W : Type 0} → Result CliError A → (A → Command W) → Command W
then_write (err e) write w = (err e, w)
then_write (ok a) write w = write a w

-- The end of a command that writes a file
unfoldable pub after_write : {W : Type 0} → Report → Option String × W → Result CliError Report × W
after_write report (none, w) = (ok report, w)
after_write report (some e, w) = (err (write_failed e), w)

-- A list as it is read, and collapsed
unfoldable pub with_collapsed :
    Result CliError (List Prefix) → Result CliError (List Prefix × List Prefix)
unfolding found collapse_ipv4
with_collapsed read = do raw ← read; short ← found panicked (collapse_ipv4 raw); ok (raw, short)

-- The networks of a country as they are read, and collapsed
unfoldable pub country_lists :
    (String → Option ℕ)
    → Sources
    → String
    → String
    → String
    → Result CliError (List Prefix × List Prefix)
unfolding with_collapsed passed_on load_country_prefixes_raw
country_lists parse6 sources license country mmdb =
    with_collapsed
      (passed_on bad_country (load_country_prefixes_raw parse6 sources license country mmdb))

unfoldable pub applied_or_failed : ℕ → Option ApplyError → Result CliError Report
applied_or_failed n none = ok (applied n)
applied_or_failed n (some e) = err (apply_failed e)

-- An error ends the writing.
unfoldable pub continue_write :
    {W : Type 0} → (W → Option String × W) → Option String × W → Option String × W
continue_write rest (none, w) = rest w
continue_write rest (some e, w) = (some e, w)

unfoldable pub after_apply : {W : Type 0} → Applied × W → Result CliError Report × W
unfolding applied_or_failed
after_apply (result, w) = (applied_or_failed result.changes result.error, w)

module _ {W : Type 0} (m : Machine W) where
  -- The loop of `WriteCIDRList`
  unfoldable pub write_lines : String → List Prefix → W → Option String × W
  unfolding continue_write prefix_text
  write_lines path [] w = (none, w)
  write_lines path (p ∷ ps) w =
      continue_write (write_lines path ps) (m.append path (prefix_text p <> String.◌∷◌ "\n" "") w)

  -- `WriteCIDRList`
  unfoldable pub write_cidr_file : String → List Prefix → W → Option String × W
  unfolding write_lines
  write_cidr_file path ps w = continue_write (write_lines path ps) (m.create path w)

  module _ (parse6 : String → Option ℕ) (sources : Sources) where
    -- `FetchPrefixes`
    unfoldable pub fetch_prefixes : String → String → String → String → Command W
    unfolding then_write after_write country_lists write_cidr_file
    fetch_prefixes license country out mmdb =
        then_write (country_lists parse6 sources license country mmdb) (λ lists w.
          after_write (fetched (length lists.0) (length lists.1) out)
            (write_cidr_file out lists.1 w))

    -- `FetchMaxMind`
    unfoldable pub fetch_max_mind : String → String → String → Command W
    unfolding fetch_prefixes
    fetch_max_mind license country out = fetch_prefixes license country out ""

    -- `FetchGeoLite2CountryCSV`, which prints nothing
    unfoldable pub fetch_geo_lite2 : String → String → String → Command W
    unfolding then_write after_write passed_on with_collapsed download_country write_cidr_file
    fetch_geo_lite2 license country out =
        then_write
          (with_collapsed (passed_on bad_country (download_country parse6 sources license country)))
          (λ lists w. after_write silent (write_cidr_file out lists.1 w))

    -- `ExportAmnezia`, by the encoding of sites and the writing of the file at a path
    unfoldable pub export_amnezia :
        (List Site → String)
        → (String → String → W → Option String × W)
        → String
        → String
        → String
        → String
        → String
        → Command W
    unfolding then_write after_write found parse_format country_lists sites_from
    export_amnezia marshal_sites write_file license country out mmdb format =
        then_write (found (bad_format format) (parse_format format)) (λ site_format.
          then_write (country_lists parse6 sources license country mmdb) (λ lists w.
            after_write (exported (length lists.0) (length lists.1) out site_format)
              (write_file out (marshal_sites (sites_from site_format 0 lists.1) <> "\n") w)))

  -- `Apply`
  unfoldable pub apply : (String → Option ℕ) → Ways → ApplyArgs → Command W
  unfolding then_write policy_for after_apply Apply.reconcile
  apply parse6 ways a w =
      then_write (policy_for parse6 m a w)
        (λ p w'. after_apply (Apply.reconcile m.runner ways p w')) w

  -- `Clear`
  unfoldable pub clear_owned : Command W
  unfolding Apply.clear
  clear_owned w = (ok silent, Apply.clear m.runner w)

-- ===== src/Apply/Tests.antt =====
-- A host on which no command works.
use go_run.Prelude.{ℕ, suc, none, some, ◌≡◌, refl}
use go_run.Policy.Tests.{sample}
use go_run.Netip.{addr, is_set, is_valid, is6}
use go_run.Strings.{replace_char}
use go_run.Linux.{Runner}
use go_run.Linux.Sysctl.{proc_path}
use go_run.Linux.Recording.{record_run, recording_runner, new_recording}
use go_run.Apply.{stage_failed, Ways, reconcile}
use go_run.Apply.Stages.{Ends, reconcile-Ends}

-- The state of the host is the number of commands that were tried.
abbrev broken : Runner ℕ
broken = record {
  run_with_input =
      λ k name script args. (record { output = ""; error = some "not permitted" }, suc k);
}

abbrev ways : Ways
ways = record { parse_json = λ s. none; order = λ tables. tables }

reconcile-Ends_example : Ends broken ways sample 0 (reconcile broken ways sample 0)
reconcile-Ends_example = reconcile-Ends ℕ broken ways sample 0

-- On the runner of the tests, where the commands of routes fail, the last stage fails.
partial_failure_stops :
    (reconcile recording_runner ways sample (record new_recording { fail_on = "ip route" })).0.error
    ≡ some (
        stage_failed
          "routing: injected failure: ip route replace default dev wg-exit table 100 metric 10")
unfolding reconcile record_run addr is_set is_valid is6 proc_path replace_char
partial_failure_stops = refl

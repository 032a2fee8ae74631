-- ===== src/Dns/Command.antt =====
-- cmd/gotun-dns/main.go: the forwarder that its flags ask for.
pub mod Marked
mod Tests
use go_run.Prelude.{ℕ, ℤ, String, Bool, ◌||◌, Option, none, some, List, if◌then◌else◌}
use go_run.Strings.{trim_space, has_prefix}
use go_run.Strings.Hex.{hex_value, in_uint32}
use go_run.Strings.Numbers.{digits_value}
use go_run.Dns.Forward.{Exchanger, Forwarder}
use go_run.Dns.Suffix.{default_ru_suffixes}
use go_run.Dns.Dial.{DialConfig, Dialer, Upstream, new_forwarder}

-- `parseMark`
unfoldable pub parse_mark : String → Option ℕ
unfolding trim_space has_prefix hex_value in_uint32 digits_value
parse_mark s =
    let text = trim_space s in
    in_uint32
      (if has_prefix text "0x" || has_prefix text "0X" then hex_value text else digits_value text)

module _ {Rest W : Type 0} (client : Dialer → ℤ → Exchanger Rest W)
    (canonical : String → String) where
  unfoldable pub with_mark : Upstream → ℤ → Option ℕ → Option (Forwarder Rest W)
  unfolding new_forwarder
  with_mark up timeout none = none
  with_mark up timeout (some mark) = some (
      new_forwarder client canonical default_ru_suffixes up
        (record { timeout = timeout; mark = mark }))

  -- The forwarder that `main` serves with; `none` where it exits over the mark
  unfoldable pub forwarder_for : Upstream → String → ℤ → Option (Forwarder Rest W)
  unfolding with_mark parse_mark
  forwarder_for up mark_text timeout = with_mark up timeout (parse_mark mark_text)

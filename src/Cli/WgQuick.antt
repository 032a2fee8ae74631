-- ===== src/Cli/WgQuick.antt =====
-- internal/cli/commands.go: `loadWGQuick`, once the file has been read.
use Prim.Native.Char.{code}
use go_run.Prelude.{
  ℕ, ◌^◌, ◌-◌, ℤ, pos, negsuc, String, Bool, true, false, ◌&&◌, ◌||◌, Option, none, some, List, [],
  ◌∷◌, ◌++◌, ltb, leb, ◌==◌, str_eq, if◌then◌else◌,
}
use go_run.Strings.{same_char, has_prefix, trim_space, to_lower, split, cut}
use go_run.Strings.Numbers.{digits_value}
use go_run.Netip.{Addr, Prefix, prefix_from}
use go_run.Netip.Text.{parse_addr, parse_prefix}
use go_run.Policy.{WireGuardConfig}
use go_run.Policy.Compile.{no_prefix}

-- The zero value
abbrev pub empty_config : WireGuardConfig
empty_config = record {
  private_key = "";
  listen_port = pos 0;
  address = no_prefix;
  peer = record { public_key = ""; endpoint = ""; allowed_ips = []; persistent_keepalive = pos 0 };
}

-- The digits that a text starts with
leading_digits : String → String
leading_digits String.[] = ""
leading_digits (String.◌∷◌ c s) =
    let rest = String.◌∷◌ c (leading_digits s) in
    if leb 48 (code c) && leb (code c) 57 then rest else ""

in_int : Bool → Option ℕ → Option ℤ
in_int negative none = none
in_int false (some n) = if ltb n (2 ^ 63) then some (pos n) else none
in_int true (some n) =
    if n == 0 then some (pos 0) else if leb n (2 ^ 63) then some (negsuc (n - 1)) else none

-- `Sscanf` with "%d" on a text without white space at its ends; `none` leaves the variable as it is
unfoldable pub scan_int : String → Option ℤ
unfolding same_char in_int leading_digits digits_value
scan_int String.[] = none
scan_int (String.◌∷◌ c s) =
    if same_char c "-"
    then in_int true (digits_value (leading_digits s))
    else if same_char c "+"
    then in_int false (digits_value (leading_digits s))
    else in_int false (digits_value (leading_digits (String.◌∷◌ c s)))

abbrev or_old {ℓ} : {A : Type ℓ} → Option A → A → A
or_old none old = old
or_old (some new) old = new

first_of : List String → String
first_of [] = ""
first_of (s ∷ ss) = s

-- A prefix, or an address alone with the length 32
address_of : Option Prefix → Option Addr → Prefix → Prefix
unfolding prefix_from
address_of (some p) a old = p
address_of none (some a) old = prefix_from a 33
address_of none none old = old

append_prefix : List Prefix → Option Prefix → List Prefix
append_prefix ps none = ps
append_prefix ps (some p) = ps ++ p ∷ []

module _ (parse6 : String → Option ℕ) where
  -- The prefixes of a list with commas, without those that cannot be read
  read_allowed : List Prefix → List String → List Prefix
  unfolding append_prefix trim_space parse_prefix
  read_allowed ps [] = ps
  read_allowed ps (text ∷ texts) =
      read_allowed (append_prefix ps (parse_prefix parse6 (trim_space text))) texts

  -- A key and its value in a section
  unfoldable pub set_key : String → String → String → WireGuardConfig → WireGuardConfig
  unfolding address_of first_of split trim_space parse_prefix parse_addr scan_int read_allowed
  set_key section k v cfg =
      let peer = cfg.peer in
      let addr = trim_space (first_of (split "," v)) in
      if str_eq section "[interface]" && str_eq k "PrivateKey"
      then record cfg { private_key = v }
      else if str_eq section "[interface]" && str_eq k "Address"
      then record cfg {
        address = address_of (parse_prefix parse6 addr) (parse_addr parse6 addr) cfg.address;
      }
      else if str_eq section "[interface]" && str_eq k "ListenPort"
      then record cfg { listen_port = or_old (scan_int v) cfg.listen_port }
      else if str_eq section "[peer]" && str_eq k "PublicKey"
      then record cfg { peer = record peer { public_key = v } }
      else if str_eq section "[peer]" && str_eq k "Endpoint"
      then record cfg { peer = record peer { endpoint = v } }
      else if str_eq section "[peer]" && str_eq k "AllowedIPs"
      then record cfg {
        peer = record peer { allowed_ips = read_allowed peer.allowed_ips (split "," v) };
      }
      else if str_eq section "[peer]" && str_eq k "PersistentKeepalive"
      then record cfg {
        peer = record peer { persistent_keepalive = or_old (scan_int v) peer.persistent_keepalive };
      }
      else cfg

  set_pair : String → Option (String × String) → WireGuardConfig → WireGuardConfig
  unfolding set_key trim_space
  set_pair section none cfg = cfg
  set_pair section (some (k, v)) cfg = set_key section (trim_space k) (trim_space v) cfg

  -- One round of the loop: the section and the config, after a trimmed line
  unfoldable pub config_line : String → String × WireGuardConfig → String × WireGuardConfig
  unfolding has_prefix to_lower cut set_pair
  config_line line (section, cfg) =
      if str_eq line "" || has_prefix line "#"
      then (section, cfg)
      else if has_prefix line "["
      then (to_lower line, cfg)
      else (section, set_pair section (cut "=" line) cfg)

  unfoldable pub config_lines : List String → String × WireGuardConfig → String × WireGuardConfig
  unfolding config_line trim_space
  config_lines [] state = state
  config_lines (line ∷ lines) state = config_lines lines (config_line (trim_space line) state)

  -- `loadWGQuick`
  unfoldable pub load_wg_quick : String → WireGuardConfig
  unfolding config_lines split
  load_wg_quick text = (config_lines (split "\n" text) ("", empty_config)).1

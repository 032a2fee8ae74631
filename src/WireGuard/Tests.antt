-- ===== src/WireGuard/Tests.antt =====
-- The dump of a tunnel with one peer, and a host that has it.
use go_run.Prelude.{
  ℕ, suc, any, ◌+◌, ◌*◌, ◌^◌, ◌≡◌, ◌↔◌, refl, pos, true, false, none, String, [], ◌∷◌, str_eq,
  if◌then◌else◌,
}
use go_run.Strings.{contains_text, split, trim_space}
use go_run.Netip.{v4, prefix, is_valid}
use go_run.Policy.{WireGuardSpec}
use go_run.Linux.{Runner}
use go_run.WireGuard.{reconcile}
use go_run.WireGuard.Live.{LiveWg, parse_wg_dump, is_wanted}
use go_run.WireGuard.Columns.{Reads}
use go_run.WireGuard.Dump.{IsLiveSpec, is_wanted-parse_wg_dump_iff}
use go_run.WireGuard.Untouched.{WgReads, reconcile_untouched}

abbrev tunnel : WireGuardSpec
tunnel = record {
  interface = "wg-exit";
  private_key = "k";
  listen_port = pos 51820;
  address = prefix (v4 (10 * 2 ^ 24 + 99 * 2 ^ 16 + 1)) 31;
  peer = record {
    public_key = "p";
    endpoint = "10.20.0.2:51820";
    allowed_ips = prefix (v4 0) 1 ∷ [];
    persistent_keepalive = pos 25;
  };
  managed = true;
  up = true;
}

abbrev dump : String
dump = "k\tq\t51820\toff\np\t(none)\t10.20.0.2:51820\t0.0.0.0/0\t0\t0\t0\t25\n"

dump_wanted : is_wanted tunnel (parse_wg_dump dump) ≡ true
unfolding is_wanted parse_wg_dump
dump_wanted = refl

is_wanted-parse_wg_dump_iff_example :
    (is_wanted tunnel (parse_wg_dump dump) ≡ true)
    ↔ ((live : LiveWg) × Reads (split "\n" (trim_space dump)) live × IsLiveSpec tunnel live)
is_wanted-parse_wg_dump_iff_example = is_wanted-parse_wg_dump_iff tunnel dump

-- The state is the number of commands that show nothing.
abbrev up_host : Runner ℕ
up_host = record {
  run_with_input = λ k name script args. (
    record {
      output = if str_eq name "wg" then dump else "wg-exit: <UP> inet 10.99.0.1/30";
      error = none;
    },
    if any (str_eq "show") args then k else suc k,
  );
}

up_host-WgReads : WgReads up_host
up_host-WgReads = record {
  link_keeps = λ iface k. refl;
  dump_keeps = λ iface k. refl;
  address_keeps = λ iface k. refl;
}

nothing_to_do : (reconcile up_host tunnel 7).0 ≡ (0, none)
unfolding reconcile contains_text
nothing_to_do = refl

reconcile_untouched_example : (reconcile up_host tunnel 7).1 ≡ 7
reconcile_untouched_example = reconcile_untouched up_host up_host-WgReads tunnel 7 nothing_to_do

-- Brought down, the tunnel loses its route first.
brought_down : reconcile up_host (record tunnel { up = false }) 7 ≡ ((1, none), 9)
unfolding reconcile contains_text is_valid
brought_down = refl

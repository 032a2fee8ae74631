-- ===== src/Linux/Recording.antt =====
-- `RecordingRunner` of internal/linux/runner.go, which the tests of the reconcilers run on.
use go_run.Prelude.{
  ℕ, ◌+◌, String, Bool, false, not, ◌&&◌, ◌||◌, Option, none, some, List, [], ◌∷◌, ◌++◌, str_eq,
  if◌then◌else◌,
}
use go_run.Strings.{◌<>◌, join, contains_text}
use go_run.Linux.{Reply, Runner}

pub record Recording : Type 0 where
  pub calls : List String
  pub outputs : List (String × String)
  pub errors : List (String × String)
  pub fail_on : String
  pub call_count : ℕ
  pub already_applied : Bool

abbrev pub new_recording : Recording
new_recording = record {
  calls = [];
  outputs = [];
  errors = [];
  fail_on = "";
  call_count = 0;
  already_applied = false;
}

unfoldable pub command_key : String → List String → String
unfolding join
command_key name args = name <> " " <> join " " args

unfoldable pub value_at : String → List (String × String) → Option String
value_at key [] = none
value_at key ((k, v) ∷ rest) =
    let later = value_at key rest in if str_eq k key then some v else later

-- The value under a key, empty where there is none
unfoldable pub text_at : String → List (String × String) → String
text_at key [] = ""
text_at key ((k, v) ∷ rest) = let later = text_at key rest in if str_eq k key then v else later

abbrev pub sample_nft_list : String
sample_nft_list =
    "table inet gotun {\n  set ru_nets {\n    type ipv4_addr\n    flags interval\n    elements = { 10.200.0.0/24 }\n  }\n  chain prerouting {\n    type filter hook prerouting priority -150; policy accept;\n    meta nfproto ipv6 drop comment \"drop-ipv6\"\n    ip daddr 10.10.0.0/24 return comment \"exclude-lan\"\n    ip daddr 10.10.0.2 return comment \"exclude-endpoint\"\n    ip daddr != @ru_nets meta mark set 0x1 comment \"mark-non-direct\"\n  }\n}"

abbrev pub sample_nft_list_json : String
sample_nft_list_json =
    "{\"nftables\":[\n{\"metainfo\":{\"version\":\"1\"}},\n{\"table\":{\"family\":\"inet\",\"name\":\"gotun\"}},\n{\"set\":{\"family\":\"inet\",\"name\":\"ru_nets\",\"table\":\"gotun\",\"type\":\"ipv4_addr\",\"flags\":[\"interval\"],\"elem\":[\"10.200.0.0/24\"]}},\n{\"chain\":{\"family\":\"inet\",\"table\":\"gotun\",\"name\":\"prerouting\",\"type\":\"filter\",\"hook\":\"prerouting\",\"prio\":-150,\"policy\":\"accept\"}},\n{\"rule\":{\"family\":\"inet\",\"table\":\"gotun\",\"chain\":\"prerouting\",\"comment\":\"drop-ipv6\",\"expr\":[]}},\n{\"rule\":{\"family\":\"inet\",\"table\":\"gotun\",\"chain\":\"prerouting\",\"comment\":\"exclude-lan\",\"expr\":[{\"match\":{\"op\":\"==\",\"left\":{\"payload\":{\"protocol\":\"ip\",\"field\":\"daddr\"}},\"right\":{\"prefix\":{\"addr\":\"10.10.0.0\",\"len\":24}}}}]}},\n{\"rule\":{\"family\":\"inet\",\"table\":\"gotun\",\"chain\":\"prerouting\",\"comment\":\"exclude-endpoint\",\"expr\":[{\"match\":{\"op\":\"==\",\"left\":{\"payload\":{\"protocol\":\"ip\",\"field\":\"daddr\"}},\"right\":\"10.10.0.2\"}}]}},\n{\"rule\":{\"family\":\"inet\",\"table\":\"gotun\",\"chain\":\"prerouting\",\"comment\":\"mark-non-direct\",\"expr\":[{\"mangle\":{\"key\":{\"meta\":{\"key\":\"mark\"}},\"value\":1}}]}}\n]}"

nft_sample : List String → Option String
nft_sample (a ∷ b ∷ c ∷ d ∷ rest) =
    if str_eq a "-j" && str_eq b "list" && str_eq c "table"
    then some sample_nft_list_json
    else if str_eq a "list"
    then some sample_nft_list
    else none
nft_sample (a ∷ b ∷ rest) = if str_eq a "list" then some sample_nft_list else none
nft_sample args = none

bash_sample : List String → Option String
unfolding contains_text
bash_sample (a ∷ command ∷ rest) =
    if str_eq a "-c"
      && (contains_text command "cat /proc/sys/net/ipv4/ip_forward"
          || contains_text command "cat /proc/sys/net/ipv6/conf/all/disable_ipv6"
          || contains_text command "cat /proc/sys/net/ipv6/conf/default/disable_ipv6")
    then some "1"
    else none
bash_sample args = none

sysctl_sample : List String → Option String
sysctl_sample (a ∷ key ∷ rest) =
    if str_eq a "-n"
      && (str_eq key "net.ipv4.ip_forward"
          || str_eq key "net.ipv6.conf.all.disable_ipv6"
          || str_eq key "net.ipv6.conf.default.disable_ipv6")
    then some "1"
    else none
sysctl_sample args = none

ip_sample : List String → Option String
ip_sample [] = none
ip_sample (a ∷ rest) =
    if str_eq a "rule"
    then some "100: from all fwmark 0x1 lookup 100"
    else if str_eq a "route"
    then some "blackhole default metric 100"
    else none

-- What a host that a policy was applied to would print
unfoldable pub applied_sample : String → List String → Option String
unfolding nft_sample bash_sample sysctl_sample ip_sample
applied_sample name args =
    if str_eq name "nft"
    then nft_sample args
    else if str_eq name "bash"
    then bash_sample args
    else if str_eq name "sysctl"
    then sysctl_sample args
    else if str_eq name "ip"
    then ip_sample args
    else none

unfoldable pub printed : Option String → Option String → String
printed (some sample) scripted = sample
printed none (some scripted) = scripted
printed none none = ""

unfoldable pub reply_with : Recording → String → Option String → String → List String → Reply
unfolding printed applied_sample value_at text_at
reply_with r key (some e) name args = record { output = text_at key r.outputs; error = some e }
reply_with r key none name args = record {
  output =
      printed (if r.already_applied then applied_sample name args else none)
        (value_at key r.outputs);
  error = none;
}

-- `RunWithInput`
unfoldable pub record_run : Recording → String → String → List String → Reply × Recording
unfolding command_key reply_with value_at contains_text
record_run r name stdin args =
    let plain = str_eq stdin "" in
    let key = if plain then command_key name args else command_key name args <> " <<STDIN>>" in
    let now = record r {
      calls = if plain then r.calls ++ key ∷ [] else r.calls ++ key ∷ ("STDIN:" <> stdin) ∷ [];
      call_count = r.call_count + 1;
    } in
    if not (str_eq r.fail_on "") && contains_text key r.fail_on
    then (record { output = ""; error = some ("injected failure: " <> key) }, now)
    else (reply_with r key (value_at key r.errors) name args, now)

abbrev pub recording_runner : Runner Recording
recording_runner = record { run_with_input = record_run }

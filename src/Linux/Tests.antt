-- ===== src/Linux/Tests.antt =====
-- A host with one kernel parameter, whose /proc is read-only.
use go_run.Prelude.{
  ◌≡◌, ◌≢◌, refl, inl, inr, String, Bool, ◌||◌, none, some, List, [], ◌∷◌, str_eq, eq_iff,
  if◌then◌else◌, Bool-cases,
}
use go_run.Strings.{trim_space, replace_char, ◌<>◌}
use go_run.Policy.{SysctlSpec}
use go_run.Linux.{Reply, Runner, run}
use go_run.Linux.Sysctl.{
  SysctlKernel, read_command, read_again_command, write_command, assignment, bash, proc_path,
}

abbrev forward_key : String
forward_key = "net.ipv4.ip_forward"

data Accepts : String → String → Type 0 where
  accepts_one : Accepts forward_key "1"

abbrev second : List String → String
second (a ∷ b ∷ rest) = b
second args = ""

abbrev reads : String → Bool
unfolding proc_path replace_char
reads command =
    str_eq command (read_command forward_key) || str_eq command (read_again_command forward_key)

-- The state is the text of the parameter.
abbrev host : Runner String
unfolding reads
host = record {
  run_with_input = λ k name input args.
      if str_eq name "sysctl"
      then (record { output = ""; error = none }, "1")
      else if reads (second args)
      then (record { output = k <> "\n"; error = none }, k)
      else (record { output = ""; error = some "read-only" }, k);
}

abbrev value : String → String → String
unfolding trim_space
value k key = if str_eq key forward_key then trim_space (k <> "\n") else ""

value-other : (k k1 other : String) → other ≢ forward_key → value k1 other ≡ value k other
unfolding value
value-other k k1 other ne = elim (Bool-cases (str_eq other forward_key)) [
  | inl e ↦ absurd (ne ((eq_iff other forward_key).0 e))
  | inr e ↦ rw e refl
]

write_value_one :
    (k key v : String)
    → Accepts key v
    → (run host k "bash" (bash (write_command key v))).0.error ≡ none
    → value (run host k "bash" (bash (write_command key v))).1 key ≡ v
unfolding proc_path replace_char trim_space value reads
write_value_one k key v accepts_one h = cc

write_keeps_one :
    (k key v other : String)
    → Accepts key v
    → other ≢ key
    → value (run host k "bash" (bash (write_command key v))).1 other ≡ value k other
unfolding proc_path replace_char reads
write_keeps_one k key v other accepts_one ne = refl

set_value_one :
    (k key v : String)
    → Accepts key v
    → (run host k "sysctl" ("-w" ∷ assignment key v ∷ [])).0.error ≡ none
    → value (run host k "sysctl" ("-w" ∷ assignment key v ∷ [])).1 key ≡ v
unfolding proc_path replace_char trim_space value reads
set_value_one k key v accepts_one h = refl

set_keeps_one :
    (k key v other : String)
    → Accepts key v
    → other ≢ key
    → value (run host k "sysctl" ("-w" ∷ assignment key v ∷ [])).1 other ≡ value k other
unfolding proc_path replace_char reads
set_keeps_one k key v other accepts_one ne = value-other k "1" other ne

-- A command prints the parameter and changes nothing.
abbrev Prints : String → String → Reply × String → Type 0
Prints k key x = (x.0.error ≡ none) × (trim_space x.0.output ≡ value k key) × (x.1 ≡ k)

read_one :
    (k key v : String) → Accepts key v → Prints k key (run host k "bash" (bash (read_command key)))
unfolding proc_path replace_char trim_space value reads
read_one k key v accepts_one = (refl, refl, refl)

read_again_one :
    (k key v : String)
    → Accepts key v
    → Prints k key (run host k "bash" (bash (read_again_command key)))
unfolding proc_path replace_char trim_space value reads
read_again_one k key v accepts_one = (refl, refl, refl)

abbrev kernel : SysctlKernel host
kernel = record {
  Accepts = Accepts;
  value = value;
  read_ok = λ k key v a. (read_one k key v a).0;
  read_value = λ k key v a. (read_one k key v a).1;
  read_keeps = λ k key v a. (read_one k key v a).2;
  read_again_ok = λ k key v a. (read_again_one k key v a).0;
  read_again_value = λ k key v a. (read_again_one k key v a).1;
  read_again_keeps = λ k key v a. (read_again_one k key v a).2;
  write_value = write_value_one;
  write_keeps = write_keeps_one;
  set_value = set_value_one;
  set_keeps = set_keeps_one;
}

abbrev specs : List SysctlSpec
specs = record { key = forward_key; value = "1" } ∷ []

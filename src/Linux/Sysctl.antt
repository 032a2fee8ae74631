-- ===== src/Linux/Sysctl.antt =====
-- internal/linux/sysctl/sysctl.go: kernel parameters, read and written through a shell.
pub mod Spec
pub mod Settles
use go_run.Prelude.{
  ℕ, ◌+◌, ◌≡◌, ◌≢◌, Bool, true, false, ◌&&◌, Option, none, some, String, List, [], ◌∷◌, str_eq,
  if◌then◌else◌,
}
use go_run.Strings.{◌<>◌, trim_space, replace_char}
use go_run.Policy.{SysctlSpec}
use go_run.Linux.{
  Reply, Runner, run, succeeded, error_text, is_none, SpecOutcome, unchanged, changed, failed,
  next_round,
}

unfoldable pub proc_path : String → String
proc_path key = "/proc/sys/" <> replace_char "." "/" key

abbrev pub bash : String → List String
bash command = "-c" ∷ command ∷ []

abbrev pub read_command : String → String
read_command key = "cat " <> proc_path key <> " 2>/dev/null || sysctl -n " <> key

abbrev pub read_again_command : String → String
read_again_command key = "cat " <> proc_path key <> " 2>/dev/null || true"

abbrev pub write_command : String → String → String
write_command key value = "echo " <> value <> " > " <> proc_path key

abbrev pub assignment : String → String → String
assignment key value = key <> "=" <> value

unfoldable pub is_settled : SysctlSpec → Reply → Bool
unfolding is_none
is_settled s reply = succeeded reply && str_eq (trim_space reply.output) s.value

module _ {K : Type 0} where
  -- Both writes failed: the key may have the value all the same.
  unfoldable pub read_again :
      Runner K → SysctlSpec → Option String → Option String → K → SpecOutcome × K
  unfolding is_settled error_text
  read_again r s e e2 k =
      let (out, k1) = run r k "bash" (bash (read_again_command s.key)) in
      if is_settled s out
      then (unchanged, k1)
      else (failed (s.key <> ": " <> error_text e <> " / " <> error_text e2), k1)

  unfoldable pub write_by_sysctl : Runner K → SysctlSpec → Option String → K → SpecOutcome × K
  unfolding read_again is_none
  write_by_sysctl r s e k =
      let (out, k1) = run r k "sysctl" ("-w" ∷ assignment s.key s.value ∷ []) in
      if succeeded out then (changed, k1) else read_again r s e out.error k1

  unfoldable pub write_value : Runner K → SysctlSpec → K → SpecOutcome × K
  unfolding write_by_sysctl is_none
  write_value r s k =
      let (out, k1) = run r k "bash" (bash (write_command s.key s.value)) in
      if succeeded out then (changed, k1) else write_by_sysctl r s out.error k1

  unfoldable pub reconcile_spec : Runner K → SysctlSpec → K → SpecOutcome × K
  unfolding write_value is_settled
  reconcile_spec r s k =
      let (out, k1) = run r k "bash" (bash (read_command s.key)) in
      if is_settled s out then (unchanged, k1) else write_value r s k1

  -- The loop, with the changes counted so far: the changes, the error, and the host
  unfoldable pub reconcile_from : Runner K → ℕ → List SysctlSpec → K → (ℕ × Option String) × K
  unfolding reconcile_spec next_round
  reconcile_from r changes [] k = ((changes, none), k)
  reconcile_from r changes (s ∷ specs) k =
      next_round (λ counted k1. reconcile_from r counted specs k1) changes (reconcile_spec r s k)

  -- `Reconcile`
  unfoldable pub reconcile : Runner K → List SysctlSpec → K → (ℕ × Option String) × K
  unfolding reconcile_from
  reconcile r specs k = reconcile_from r 0 specs k

-- What the program relies on of the kernel's parameters. `Accepts key value`: the key is one of the
-- kernel's, the value can stand in it, and both are plain words for the shell.
pub record SysctlKernel {K : Type 0} (r : Runner K) : Type 1 where
  pub Accepts : String → String → Type 0
  pub value : K → String → String
  pub read_ok :
      (k : K) (key v : String)
      → Accepts key v
      → (run r k "bash" (bash (read_command key))).0.error ≡ none
  pub read_value :
      (k : K) (key v : String)
      → Accepts key v
      → trim_space (run r k "bash" (bash (read_command key))).0.output ≡ value k key
  pub read_keeps :
      (k : K) (key v : String) → Accepts key v → (run r k "bash" (bash (read_command key))).1 ≡ k
  pub read_again_ok :
      (k : K) (key v : String)
      → Accepts key v
      → (run r k "bash" (bash (read_again_command key))).0.error ≡ none
  pub read_again_value :
      (k : K) (key v : String)
      → Accepts key v
      → trim_space (run r k "bash" (bash (read_again_command key))).0.output ≡ value k key
  pub read_again_keeps :
      (k : K) (key v : String)
      → Accepts key v
      → (run r k "bash" (bash (read_again_command key))).1 ≡ k
  pub write_value :
      (k : K) (key v : String)
      → Accepts key v
      → (run r k "bash" (bash (write_command key v))).0.error ≡ none
      → value (run r k "bash" (bash (write_command key v))).1 key ≡ v
  pub write_keeps :
      (k : K) (key v other : String)
      → Accepts key v
      → other ≢ key
      → value (run r k "bash" (bash (write_command key v))).1 other ≡ value k other
  pub set_value :
      (k : K) (key v : String)
      → Accepts key v
      → (run r k "sysctl" ("-w" ∷ assignment key v ∷ [])).0.error ≡ none
      → value (run r k "sysctl" ("-w" ∷ assignment key v ∷ [])).1 key ≡ v
  pub set_keeps :
      (k : K) (key v other : String)
      → Accepts key v
      → other ≢ key
      → value (run r k "sysctl" ("-w" ∷ assignment key v ∷ [])).1 other ≡ value k other

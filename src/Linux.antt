-- ===== src/Linux.antt =====
-- internal/linux/runner.go: commands run on the host. What runs them is an interface; the state of
-- the host is a value that each command replaces.
pub mod Sysctl
pub mod Routing
pub mod Nftables
pub mod Recording
mod Tests
use go_run.Prelude.{ℕ, ◌+◌, ◌≡◌, Bool, true, false, Option, none, some, String, List}

-- What a command prints, and its error
pub record Reply : Type 0 where
  pub output : String
  pub error : Option String

pub record Runner (K : Type 0) : Type 0 where
  pub run_with_input : K → String → String → List String → Reply × K

-- Both runners of the source run a command without input as one with an empty input.
abbrev pub run : {K : Type 0} → Runner K → K → String → List String → Reply × K
run r k name args = r.run_with_input k name "" args

unfoldable pub is_none : Option String → Bool
is_none none = true
is_none (some e) = false

-- `err == nil`
abbrev pub succeeded : Reply → Bool
succeeded reply = is_none reply.error

-- `%v` of an error
unfoldable pub error_text : Option String → String
error_text none = "<nil>"
error_text (some e) = e

-- What one round of a reconciler's loop did
pub data SpecOutcome : Type 0 where
  unchanged changed : SpecOutcome
  failed : String → SpecOutcome

-- The end of one round: the rest runs with the new count of changes, or the error ends the loop.
unfoldable pub next_round :
    {K : Type 0} → (ℕ → K → (ℕ × Option String) × K) → ℕ → SpecOutcome × K → (ℕ × Option String) × K
next_round rest changes (unchanged, k) = rest changes k
next_round rest changes (changed, k) = rest (changes + 1) k
next_round rest changes (failed e, k) = ((changes, some e), k)

-- The round did not fail.
abbrev pub IsFine : SpecOutcome → Type 0
IsFine unchanged = Unit
IsFine changed = Unit
IsFine (failed e) = ⊥

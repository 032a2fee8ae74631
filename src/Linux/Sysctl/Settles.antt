-- ===== src/Linux/Sysctl/Settles.antt =====
-- After a reconciliation without an error the parameters have their values, and a second one
-- changes nothing.
use go_run.Prelude.{ℕ, ◌≢◌, Option, String, List, [], ◌∷◌, All}
use go_run.Policy.{SysctlSpec}
use go_run.Linux.{Runner}
use go_run.Linux.Sysctl.{SysctlKernel}
use go_run.Linux.Sysctl.Spec.{Settled, Accepted}

module _ {K : Type 0} {r : Runner K} (kernel : SysctlKernel r) where
  abbrev pub AllSettled : K → List SysctlSpec → Type 0
  AllSettled k = All (Settled kernel k)

  abbrev pub AllAccepted : List SysctlSpec → Type 0
  AllAccepted = All (Accepted kernel)

  abbrev Rest : Type 0
  Rest = ℕ → K → (ℕ × Option String) × K

  -- No two specs have the same key.
  abbrev pub Distinct : List SysctlSpec → Type 0
  Distinct [] = Unit
  Distinct (s ∷ specs) = All (λ t. s.key ≢ t.key) specs × Distinct specs

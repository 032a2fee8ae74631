-- ===== src/Linux/Sysctl/Spec.antt =====
-- What one spec of a reconciliation leaves behind.
use go_run.Prelude.{
  ◌≡◌, ◌≢◌, ◌↔◌, refl, sym, ◌∙◌, inl, inr, true, Option, none, some, String, [], ◌∷◌, eq_iff,
  Bool-cases, arith, true≢false,
}
use go_run.Strings.{trim_space}
use go_run.Policy.{SysctlSpec}
use go_run.Linux.{IsFine, SpecOutcome, unchanged, Reply, Runner, run, succeeded, is_none}
use go_run.Linux.Sysctl.{
  SysctlKernel, is_settled, read_again, write_by_sysctl, write_value, reconcile_spec, bash,
  read_command, read_again_command, write_command, assignment,
}

succeeded_iff : (e : Option String) → is_none e ≡ true → e ≡ none
unfolding is_none
succeeded_iff none h = refl
succeeded_iff (some x) h = cc

is_settled-of_value :
    (s : SysctlSpec) (out : Reply)
    → out.error ≡ none
    → trim_space out.output ≡ s.value
    → is_settled s out ≡ true
unfolding is_settled is_none
is_settled-of_value s out ok same = rw (ok, same) ((eq_iff s.value s.value).1 refl)

value-of_is_settled :
    (s : SysctlSpec) (out : Reply) → is_settled s out ≡ true → trim_space out.output ≡ s.value
unfolding is_settled
value-of_is_settled s out h = (eq_iff (trim_space out.output) s.value).0 (ground arith)

module _ {K : Type 0} {r : Runner K} (kernel : SysctlKernel r) where
  abbrev pub Settled : K → SysctlSpec → Type 0
  Settled k s = kernel.value k s.key ≡ s.value

  abbrev pub Accepted : SysctlSpec → Type 0
  Accepted s = kernel.Accepts s.key s.value

  abbrev pub Others : SysctlSpec → K → K → Type 0
  Others s k k1 = (other : String) → other ≢ s.key → kernel.value k1 other ≡ kernel.value k other

  -- What one spec leaves: its own key settled unless it failed, and every other key as it was
  abbrev pub Leaves : K → SysctlSpec → SpecOutcome × K → Type 0
  Leaves k s (o, k1) = (IsFine o ↔ Settled k1 s) × Others s k k1

  read_again-Leaves :
      (s : SysctlSpec) (e e2 : Option String) (k : K)
      → Accepted s
      → Leaves k s (read_again r s e e2 k)
  unfolding read_again
  read_again-Leaves s e e2 k a =
      let out = (run r k "bash" (bash (read_again_command s.key))).0 in
      let kept = kernel.read_again_keeps k s.key s.value a in
      elim (Bool-cases (is_settled s out)) [
        | inl h ↦
            rw (h, kept)
              (
                (
                  λ fine.
                      sym (kernel.read_again_value k s.key s.value a) ∙ value-of_is_settled s out h,
                  λ same. tt,
                ),
                λ other ne. refl,
              )
        | inr h ↦
            rw (h, kept)
              (
                (
                  λ fine. absurd fine,
                  λ same. absurd (
                      true≢false (
                        sym (
                          is_settled-of_value s out (kernel.read_again_ok k s.key s.value a)
                            (kernel.read_again_value k s.key s.value a ∙ same))
                        ∙ h)),
                ),
                λ other ne. refl,
              )
      ]

  Leaves-after :
      (s : SysctlSpec) (k k1 : K) (x : SpecOutcome × K)
      → Others s k k1
      → Leaves k1 s x
      → Leaves k s x
  Leaves-after s k k1 (o, k2) kept (settled, keeps) =
      (settled, λ other ne. keeps other ne ∙ kept other ne)

  write_by_sysctl-Leaves :
      (s : SysctlSpec) (e : Option String) (k : K)
      → Accepted s
      → Leaves k s (write_by_sysctl r s e k)
  unfolding write_by_sysctl
  write_by_sysctl-Leaves s e k a =
      let set = run r k "sysctl" ("-w" ∷ assignment s.key s.value ∷ []) in
      let keeps : Others s k set.1 = λ other ne. kernel.set_keeps k s.key s.value other a ne in
      elim (Bool-cases (succeeded set.0)) [
        | inl h ↦ rw h (
          (λ fine. kernel.set_value k s.key s.value a (succeeded_iff set.0.error h), λ same. tt),
          keeps,
        )
        | inr h ↦ rw h (Leaves-after s k set.1 _ keeps (read_again-Leaves s e set.0.error set.1 a))
      ]

  write_value-Leaves : (s : SysctlSpec) (k : K) → Accepted s → Leaves k s (write_value r s k)
  unfolding write_value
  write_value-Leaves s k a =
      let set = run r k "bash" (bash (write_command s.key s.value)) in
      let keeps : Others s k set.1 = λ other ne. kernel.write_keeps k s.key s.value other a ne in
      elim (Bool-cases (succeeded set.0)) [
        | inl h ↦ rw h (
          (λ fine. kernel.write_value k s.key s.value a (succeeded_iff set.0.error h), λ same. tt),
          keeps,
        )
        | inr h ↦
            rw h (Leaves-after s k set.1 _ keeps (write_by_sysctl-Leaves s set.0.error set.1 a))
      ]

  pub reconcile_spec-Leaves :
      (s : SysctlSpec) (k : K) → Accepted s → Leaves k s (reconcile_spec r s k)
  unfolding reconcile_spec
  reconcile_spec-Leaves s k a =
      let out = (run r k "bash" (bash (read_command s.key))).0 in
      let kept = kernel.read_keeps k s.key s.value a in
      elim (Bool-cases (is_settled s out)) [
        | inl h ↦
            rw (h, kept)
              (
                (
                  λ fine. sym (kernel.read_value k s.key s.value a) ∙ value-of_is_settled s out h,
                  λ same. tt,
                ),
                λ other ne. refl,
              )
        | inr h ↦ rw (h, kept) (write_value-Leaves s k a)
      ]

  pub reconcile_spec-again :
      (s : SysctlSpec) (k : K) → Accepted s → Settled k s → reconcile_spec r s k ≡ (unchanged, k)
  unfolding reconcile_spec
  reconcile_spec-again s k a same =
      let out = (run r k "bash" (bash (read_command s.key))).0 in
      let test =
        is_settled-of_value s out (kernel.read_ok k s.key s.value a)
          (kernel.read_value k s.key s.value a ∙ same) in
      rw (test, kernel.read_keeps k s.key s.value a) refl

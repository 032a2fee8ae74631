-- ===== src/Policy/OrderTests.antt =====
-- A policy with two direct prefixes in either order.
use go_run.Prelude.{◌+◌, ◌*◌, ◌^◌, ◌≡◌, refl, [], ◌∷◌, arith}
use go_run.Prelude.Result.{ok}
use go_run.Netip.{Prefix, prefix, v4, addr, is_set, is_valid, is6}
use go_run.Policy.{Policy}
use go_run.Policy.Compile.{compile, desired_state}
use go_run.Policy.Semantic.{SemanticEqual}
use go_run.Policy.Reordered.{same, swap, SemanticEqual-compile}
use go_run.Policy.Tests.{sample}

abbrev one : Prefix
one = prefix (v4 (10 * 2 ^ 24 + 200 * 2 ^ 16)) 25

abbrev two : Prefix
two = prefix (v4 (95 * 2 ^ 24)) 9

abbrev forwards : Policy
forwards = record sample { direct_prefixes = one ∷ two ∷ [] }

abbrev backwards : Policy
backwards = record sample { direct_prefixes = two ∷ one ∷ [] }

compile-forwards : compile forwards ≡ ok (desired_state forwards)
unfolding compile addr is_set is_valid is6
compile-forwards = refl

compile-backwards : compile backwards ≡ ok (desired_state backwards)
unfolding compile addr is_set is_valid is6
compile-backwards = refl

SemanticEqual-compile_example : SemanticEqual (desired_state forwards) (desired_state backwards)
SemanticEqual-compile_example =
    SemanticEqual-compile forwards (two ∷ one ∷ []) forwards.lans (desired_state forwards)
      (desired_state backwards) (swap one two []) (same forwards.lans)
      ((omega arith, omega arith), ((omega arith, omega arith), tt))
      ((omega arith, omega arith), tt) compile-forwards compile-backwards

-- ===== src/Linux/Nftables/Outcomes.antt =====
-- What `Reconcile` of nftables.go comes to.
use mathlib.Core.Path.{subst}
use text.Mathlib.TextLemmas.{nil-append}
use go_run.Prelude.{
  ℕ, ◌≡◌, ◌≢◌, refl, sym, ◌∙◌, inl, inr, String, Bool, true, false, true≢false, ◌&&◌, Option, none,
  some, str_eq, eq_iff, Bool-cases, arith, if◌then◌else◌,
}
use go_run.Strings.{◌<>◌, contains_text}
use go_run.Policy.{NftSpec}
use go_run.Json.{Json}
use go_run.Linux.{Reply, Runner, is_none}
use go_run.Linux.Nftables.{render_full_table}
use go_run.Linux.Nftables.Match.{semantic_match_json}
use go_run.Linux.Nftables.Reconcile.{
  table_exists, table_script, wanted, list_table, apply_script, as_applied,
}

-- A host on which listing a table changes nothing, and a script is applied as a whole or not at all
pub record NftHost {K : Type 0} (r : Runner K) : Type 0 where
  pub listing_keeps : (family table : String) (k : K) → (list_table r family table k).1 ≡ k
  pub atomic :
      (script : String) (k : K)
      → is_none (apply_script r script k).0.error ≡ false
      → (apply_script r script k).1 ≡ k

-- The table was listed: no error, some output, and no message of an error in it.
pub record IsListed (listed : Reply) : Type 0 where
  pub fine : listed.error ≡ none
  pub filled : listed.output ≢ ""
  pub silent : contains_text listed.output "Error" ≡ false

IsListed-of_exists : (listed : Reply) → table_exists listed ≡ true → IsListed listed
unfolding table_exists is_none
IsListed-of_exists listed e = record {
  fine = of_error listed.error (ground (arith, e));
  filled =
      λ same. absurd (true≢false (sym ((eq_iff listed.output "").1 same) ∙ (ground (arith, e))));
  silent = ground (arith, e);
}
  where
    of_error : (o : Option String) → is_none o ≡ true → o ≡ none
    of_error none h = refl
    of_error (some m) h = cc

exists-of_IsListed : (listed : Reply) → IsListed listed → table_exists listed ≡ true
unfolding table_exists is_none
exists-of_IsListed listed h = elim (Bool-cases (str_eq listed.output "")) [
  | inl e ↦ absurd (h.filled ((eq_iff listed.output "").0 e))
  | inr e ↦ rw (h.fine, e, h.silent) refl
]

-- What a reconciliation from `k` on comes to
pub data Outcome {K : Type 0} (r : Runner K) (parse_json : String → Option Json) (spec : NftSpec)
    (k : K) : (ℕ × Option String) × K → Type 0 where
  settled :
      IsListed (list_table r spec.family spec.table k).0
      → semantic_match_json parse_json (list_table r spec.family spec.table k).0.output spec ≡ true
      → Outcome r parse_json spec k ((0, none), k)
  replaced :
      IsListed (list_table r spec.family spec.table k).0
      → semantic_match_json parse_json (list_table r spec.family spec.table k).0.output spec ≡ false
      → (script : String)
      → script
        ≡ ("delete table " <> spec.family <> " " <> spec.table <> "\n") <> render_full_table spec
      → (apply_script r script k).0.error ≡ none
      → Outcome r parse_json spec k ((1, none), (apply_script r script k).1)
  created :
      ¬ IsListed (list_table r spec.family spec.table k).0
      → (script : String) → script ≡ render_full_table spec
      → (apply_script r script k).0.error ≡ none
      → Outcome r parse_json spec k ((1, none), (apply_script r script k).1)
  refused :
      (e : String)
      → wanted parse_json (list_table r spec.family spec.table k).0 spec ≡ false
      → Outcome r parse_json spec k ((0, some ("nft apply table: " <> e)), k)

module _ {K : Type 0} (r : Runner K) (host : NftHost r) (parse_json : String → Option Json)
    (spec : NftSpec) (k : K) where
  abbrev listed : Reply
  listed = (list_table r spec.family spec.table k).0

  -- The table is not as wanted, and the script is sent.
  sent :
      (script : String)
      → wanted parse_json listed spec ≡ false
      → ((apply_script r script k).0.error ≡ none
          → Outcome r parse_json spec k ((1, none), (apply_script r script k).1))
      → (o : Option String) → (apply_script r script k).0.error ≡ o
      → Outcome r parse_json spec k (as_applied o (apply_script r script k).1)
  unfolding is_none
  sent script w fine none e = fine e
  sent script w fine (some e) h =
      subst (λ k'. Outcome r parse_json spec k ((0, some ("nft apply table: " <> e)), k'))
        (sym (host.atomic script k (rw h refl))) (refused e w)

  by_table :
      (exists same : Bool)
      → table_exists listed ≡ exists
      → semantic_match_json parse_json listed.output spec ≡ same
      → Outcome r parse_json spec k (
          if exists && same
          then ((0, none), k)
          else as_applied
              (apply_script r (table_script exists spec) k).0.error
              (apply_script r (table_script exists spec) k).1)
  unfolding table_script wanted
  by_table true true e m = settled (IsListed-of_exists listed e) m
  by_table true false e m =
      sent (table_script true spec) (rw (e, m) refl)
        (replaced (IsListed-of_exists listed e) m (table_script true spec) refl)
        (apply_script r (table_script true spec) k).0.error refl
  by_table false same e m =
      sent (table_script false spec) (rw e refl)
        (created (λ l. absurd (true≢false (sym (exists-of_IsListed listed l) ∙ e)))
          (table_script false spec) (nil-append (render_full_table spec)))
        (apply_script r (table_script false spec) k).0.error refl

-- ===== src/Country/Csv/Covers.antt =====
-- Which addresses the networks of a country cover.
use mathlib.Core.Path.{subst, fun_ext}
use go_run.Prelude.{
  ℕ, zero, suc, ◌≡◌, refl, sym, ap, ◌∙◌, String, Bool, true, false, ◌&&◌, ◌||◌, Option, none, some,
  List, [], ◌∷◌, str_eq, if◌then◌else◌, get_elem?, any, arith,
}
use go_run.Prelude.Result.{Result, ok, err, ◌>>=◌}
use go_run.Strings.{to_upper}
use go_run.Strings.Keys.{has_key, has_key-insert_key}
use go_run.Netip.{unset, v4, v6, Prefix, prefix, contains, addr, is4}
use go_run.Netip.Text.{parse_prefix}
use go_run.Collapse.Coverage.{covers}
use go_run.CidrList.{push}
use go_run.Country.Csv.{
  CountryError, Row, index_of, location_id, add_id, field_at, or_empty, read_locations,
  with_location_columns, load_country_geonames, block_id, block_prefix, read_network, read_blocks,
  with_block_columns, load_blocks_for_geonames,
}

abbrev is_id : String → Option String → Bool
is_id k none = false
is_id k (some d) = str_eq k d

has_key-add_id :
    (k : String) (o : Option String) (ids : List String)
    → has_key k (add_id o ids) ≡ (is_id k o || has_key k ids)
has_key-add_id k none ids = refl
has_key-add_id k (some d) ids = has_key-insert_key k d ids

abbrev has_text : Option String → (String → Bool) → Bool
has_text none test = false
has_text (some s) test = test s

-- The row has the code of the country `iso`, in letters of either case, at `idx_iso`, and `k` at
-- `idx_id`.
unfoldable pub is_location : ℕ → ℕ → String → String → Row → Bool
is_location idx_id idx_iso iso k none = false
is_location idx_id idx_iso iso k (some rec) =
    has_text (get_elem? rec idx_iso) (λ code. str_eq (to_upper code) (to_upper iso))
    && has_text (get_elem? rec idx_id) (λ id. str_eq k id)

is_id-location_id :
    (idx_id idx_iso : ℕ) (iso k : String) (rec : List String)
    → is_id k (location_id idx_id idx_iso (to_upper iso) rec)
      ≡ is_location idx_id idx_iso iso k (some rec)
unfolding location_id is_location
is_id-location_id idx_id idx_iso iso k rec = ground arith

-- The keys that are read, by a predicate on the result
abbrev KeysAre : (String → Bool) → Result CountryError (List String) → Type 0
KeysAre f (err e) = Unit
KeysAre f (ok ids) = (k : String) → has_key k ids ≡ f k

read_locations-KeysAre :
    (idx_id idx_iso : ℕ) (iso : String) (rows : List Row) (ids : List String)
    → KeysAre
        (λ k. has_key k ids || any (is_location idx_id idx_iso iso k) rows)
        (read_locations idx_id idx_iso (to_upper iso) ids rows)
unfolding read_locations
read_locations-KeysAre idx_id idx_iso iso [] ids = λ k. ground arith
read_locations-KeysAre idx_id idx_iso iso (none ∷ rows) ids = tt
read_locations-KeysAre idx_id idx_iso iso (some rec ∷ rows) ids =
    let o = location_id idx_id idx_iso (to_upper iso) rec in
    KeysAre-eq _ _ (read_locations idx_id idx_iso (to_upper iso) (add_id o ids) rows)
      (λ k.
        rw (has_key-add_id k o ids) (ground (arith, is_id-location_id idx_id idx_iso iso k rec)))
      (read_locations-KeysAre idx_id idx_iso iso rows (add_id o ids))
  where
    KeysAre-eq :
        (f g : String → Bool) (x : Result CountryError (List String))
        → ((k : String) → f k ≡ g k)
        → KeysAre f x
        → KeysAre g x
    KeysAre-eq f g (err e) same h = tt
    KeysAre-eq f g (ok ids) same h = λ k. h k ∙ same k

-- The text is a prefix that contains the address `x`.
prefix_contains : ℕ → Option Prefix → Bool
prefix_contains x none = false
prefix_contains x (some p) = contains p (v4 x)

unfoldable pub text_contains : (String → Option ℕ) → ℕ → Option String → Bool
unfolding prefix_contains
text_contains parse6 x none = false
text_contains parse6 x (some text) = prefix_contains x (parse_prefix parse6 text)

module _ (x : ℕ) where
  abbrev pub ListCovers : {E : Type 0} → Bool → Result E (List Prefix) → Type 0
  ListCovers b (err e) = Unit
  ListCovers b (ok ps) = covers ps x ≡ b

  abbrev pub OneCovers : {E : Type 0} → Bool → Result E (Option Prefix) → Type 0
  OneCovers b (err e) = Unit
  OneCovers b (ok none) = b ≡ false
  OneCovers b (ok (some p)) = contains p (v4 x) ≡ b

  pub push-ListCovers :
      {E : Type 0} (a b : Bool) (o : Result E (Option Prefix)) (y : Result E (List Prefix))
      → OneCovers a o
      → ListCovers b y
      → ListCovers (a || b) (o >>= λ p. y >>= λ ps. ok (push p ps))
  push-ListCovers a b (err e) y h k = tt
  push-ListCovers a b (ok p) (err e) h k = tt
  push-ListCovers a b (ok none) (ok ps) h k = rw h k
  push-ListCovers a b (ok (some p)) (ok ps) h k = rw (h, k) refl

  block_prefix-Covers :
      (text : String) (o : Option Prefix) → OneCovers (prefix_contains x o) (block_prefix text o)
  unfolding block_prefix prefix_contains contains addr is4
  block_prefix-Covers text none = tt
  block_prefix-Covers text (some (prefix unset k)) = refl
  block_prefix-Covers text (some (prefix (v4 n) k)) = refl
  block_prefix-Covers text (some (prefix (v6 n) zero)) = refl
  block_prefix-Covers text (some (prefix (v6 n) (suc k))) = refl

  read_network-Covers :
      (parse6 : String → Option ℕ) (wanted : Bool) (text : Option String)
      → OneCovers (wanted && text_contains parse6 x text) (read_network parse6 wanted text)
  unfolding read_network text_contains
  read_network-Covers parse6 true none = refl
  read_network-Covers parse6 false none = refl
  read_network-Covers parse6 false (some text) = refl
  read_network-Covers parse6 true (some text) = block_prefix-Covers text (parse_prefix parse6 text)

  -- The id of the country that a block is located in, or where none is given of the one that it is
  -- registered in
  abbrev country_of : Option ℕ → Option ℕ → List String → String
  country_of idx_geo idx_reg rec =
      let registered : String = elim (field_at idx_reg rec) [ none ↦ "" | some id ↦ id ] in
      elim (field_at idx_geo rec) [
        | none ↦ registered
        | some id ↦ if str_eq id "" then registered else id
      ]

  block_id-eq :
      (idx_geo idx_reg : Option ℕ) (rec : List String)
      → block_id idx_geo idx_reg rec ≡ country_of idx_geo idx_reg rec
  unfolding block_id
  block_id-eq idx_geo idx_reg rec = of_fields (field_at idx_geo rec) (field_at idx_reg rec)
    where
      of_fields :
          (own registered : Option String)
          → (if str_eq (or_empty own) "" then or_empty registered else or_empty own) ≡ elim own [
            | none ↦ elim registered [ none ↦ "" | some id ↦ id ]
            | some id ↦ if str_eq id "" then elim registered [ none ↦ "" | some id ↦ id ] else id
          ]
      of_fields none none = refl
      of_fields none (some id) = refl
      of_fields (some own) none = refl
      of_fields (some own) (some id) = refl

  -- The row is a block of a wanted country, and its network contains the address.
  unfoldable pub row_contains :
      (String → Option ℕ) → ℕ → Option ℕ → Option ℕ → (String → Bool) → Row → Bool
  row_contains parse6 idx_net idx_geo idx_reg wanted none = false
  row_contains parse6 idx_net idx_geo idx_reg wanted (some rec) =
      wanted (country_of idx_geo idx_reg rec) && text_contains parse6 x (get_elem? rec idx_net)

  read_blocks-Covers :
      (parse6 : String → Option ℕ) (idx_net : ℕ) (idx_geo idx_reg : Option ℕ) (ids : List String)
      (rows : List Row)
      → ListCovers
          (any (row_contains parse6 idx_net idx_geo idx_reg (λ k. has_key k ids)) rows)
          (read_blocks parse6 idx_net idx_geo idx_reg ids rows)
  unfolding read_blocks row_contains
  read_blocks-Covers parse6 idx_net idx_geo idx_reg ids [] = refl
  read_blocks-Covers parse6 idx_net idx_geo idx_reg ids (none ∷ rows) = tt
  read_blocks-Covers parse6 idx_net idx_geo idx_reg ids (some rec ∷ rows) =
      rw (← block_id-eq idx_geo idx_reg rec) (
        push-ListCovers _ _ _ _
          (read_network-Covers parse6 (has_key (block_id idx_geo idx_reg rec) ids)
            (get_elem? rec idx_net))
          (read_blocks-Covers parse6 idx_net idx_geo idx_reg ids rows))

-- Where both files have their columns and are read without an error, an IPv4 address is covered
-- exactly if the network of some block row contains it whose country is the one asked for. The
-- country of a block is the one it is located in, or the one it is registered in where its own field
-- is missing or empty; it is the one asked for if some location row has its id, and in letters of
-- either case the code asked for.
pub load_blocks_for_geonames-covers :
    (parse6 : String → Option ℕ) (iso : String) (x idx_id idx_iso idx_net : ℕ)
    (locations blocks : List String) (location_rows block_rows : List Row) (ids : List String)
    (ps : List Prefix)
    → index_of locations "geoname_id" ≡ some idx_id
    → index_of locations "country_iso_code" ≡ some idx_iso
    → index_of blocks "network" ≡ some idx_net
    → load_country_geonames (some locations ∷ location_rows) iso ≡ ok ids
    → load_blocks_for_geonames parse6 (some blocks ∷ block_rows) ids ≡ ok ps
    → covers ps x
      ≡ any
          (row_contains x parse6 idx_net
            (index_of blocks "geoname_id")
            (index_of blocks "registered_country_geoname_id")
            (λ k. any (is_location idx_id idx_iso iso k) location_rows))
          block_rows
unfolding load_country_geonames with_location_columns load_blocks_for_geonames with_block_columns
load_blocks_for_geonames-covers parse6 iso x idx_id idx_iso idx_net locations blocks location_rows
      block_rows ids ps e f g h k =
    let geo = index_of blocks "geoname_id" in
    let reg = index_of blocks "registered_country_geoname_id" in
    let read =
      ap (λ o. with_location_columns o (some idx_iso) (to_upper iso) location_rows) (sym e)
      ∙ ap
          (λ o.
            with_location_columns (index_of locations "geoname_id") o (to_upper iso) location_rows)
          (sym f)
      ∙ h in
    let blocks_read = ap (λ o. with_block_columns parse6 o geo reg ids block_rows) (sym g) ∙ k in
    let keys =
      subst (KeysAre (λ d. has_key d [] || any (is_location idx_id idx_iso iso d) location_rows))
        read (read_locations-KeysAre idx_id idx_iso iso location_rows []) in
    subst
      (ListCovers x (any (row_contains x parse6 idx_net geo reg (λ d. has_key d ids)) block_rows))
      blocks_read (read_blocks-Covers x parse6 idx_net geo reg ids block_rows)
    ∙ ap (λ w. any (row_contains x parse6 idx_net geo reg w) block_rows) (fun_ext keys)

-- ===== src/Linux/Routing/Converges.antt =====
-- A table that was written without an error matches, and is not written again.
use go_run.Prelude.{
  ℤ, pos, int_less, ◌≡◌, ◌++◌, ◌⊎◌, if◌then◌else◌, String, Bool, true, false, ◌||◌, none, List, [],
  ◌∷◌, str_eq,
}
use go_run.Strings.{show_int}
use go_run.Policy.{RouteSpec}
use go_run.Linux.{Runner, run}
use go_run.Linux.Routing.Parse.{route_key}
use go_run.Linux.Routing.Keys.{shown, wanted}

-- The commands of `ip route` as its manual has them: what a table shows, taking all routes out of it,
-- and putting a default route into it, in place of one with the same metric
abbrev pub showing : ℤ → List String
showing table = "route" ∷ "show" ∷ "table" ∷ show_int table ∷ []

abbrev pub flushing : ℤ → List String
flushing table = "route" ∷ "flush" ∷ "table" ∷ show_int table ∷ []

abbrev pub replacing : RouteSpec → List String
replacing rt =
    "route"
      ∷ "replace"
      ∷ (if rt.blackhole then "blackhole" ∷ "default" ∷ [] else "default" ∷ "dev" ∷ rt.device ∷ [])
    ++ ("table" ∷ show_int rt.table ∷ [])
    ++ (if int_less (pos 0) rt.metric then "metric" ∷ show_int rt.metric ∷ [] else [])

-- What the program relies on of `ip route`. `keys k table`: the keys of the routes of a table.
-- `Accepts rt`: its device has a plain name. `Coexists rt key`: replacing the route `rt` leaves a
-- route with this key in its table (it is the same route, or one with another metric).
pub record RouteHost {K : Type 0} (r : Runner K) : Type 1 where
  pub keys : K → ℤ → String → Bool
  pub Accepts : RouteSpec → Type 0
  pub Coexists : RouteSpec → String → Type 0
  pub show_keys :
      (k : K) (table : ℤ) (key : String)
      → shown (run r k "ip" (showing table)).0.output key ≡ keys k table key
  pub show_keeps : (k : K) (table : ℤ) → (run r k "ip" (showing table)).1 ≡ k
  pub flush_keys :
      (k : K) (table : ℤ) (key : String)
      → (run r k "ip" (flushing table)).0.error ≡ none
      → keys (run r k "ip" (flushing table)).1 table key ≡ false
  pub flush_adds_none :
      (k : K) (table : ℤ) (key : String)
      → keys (run r k "ip" (flushing table)).1 table key ≡ true
      → keys k table key ≡ true
  pub replace_keys :
      (k : K) (rt : RouteSpec) (key : String)
      → Accepts rt
      → (run r k "ip" (replacing rt)).0.error ≡ none
      → ((d : String) → keys k rt.table d ≡ true → Coexists rt d)
      → keys (run r k "ip" (replacing rt)).1 rt.table key
        ≡ (str_eq key (route_key rt) || keys k rt.table key)

module _ {K : Type 0} {r : Runner K} (host : RouteHost r) where
  -- The route is of this table, and is kept beside each of the routes `every`.
  abbrev pub Fits : ℤ → List RouteSpec → RouteSpec → Type 0
  Fits table every rt =
      (rt.table ≡ table)
      × host.Accepts rt
      × ((d : String) → wanted every d ≡ true → host.Coexists rt d)

  -- Flushing the table works, or there is nothing in it.
  abbrev pub Flushes : ℤ → K → Type 0
  Flushes table k =
      ((run r k "ip" (flushing table)).0.error ≡ none)
      ⊎ ((key : String) → host.keys k table key ≡ false)

-- ===== src/Unroll/Sites.antt =====
-- fablepass, `SporkUnrollPass::run`: the markers are grouped by their site token, a site's loops are
-- batched only if all of them can be and by one batch, and that batch answers the site's factor queries.
-- What `findMarkedLoops`, `matchLoopProtocol` and the probe say of a marker's loops is given.
pub mod Rewritten
pub mod Factors
use spork_llvm.Base.{
  ℕ, zero, suc, Bool, true, false, not, ◌&&◌, ◌||◌, List, [], ◌∷◌, ◌++◌, Option, none, some, map,
  if◌then◌else◌, ltb, ◌==◌,
}

-- A `Plan`: a loop that `matchLoopProtocol` accepts, its progress slot, and the batch of its probe.
pub record Plan : Type 0 where
  pub progress_ptr : ℕ
  pub batch : ℕ

-- A marker: whether its function has `optnone`, and its loops, if `findMarkedLoops` finds them; a loop is
-- `none` where `matchLoopProtocol` rejects it.
pub record Marker : Type 0 where
  pub opt_none : Bool
  pub loops : Option (List (Option Plan))

-- `Batch` and `Plans`
pub record Progress : Type 0 where
  pub batch : ℕ
  pub plans : List Plan

abbrev pub differs : Option ℕ → ℕ → Bool
differs none p = false
differs (some q) p = not (p == q)

-- `B < 2 || (Batch && B != Batch)`
abbrev pub bad_batch : ℕ → ℕ → Bool
bad_batch batch b = ltb b 2 || (not (batch == 0) && not (b == batch))

-- The loop over `Loops`; `none` is `Ok = false`.
unfoldable pub plan_loops : Option ℕ → Progress → List (Option Plan) → Option Progress
plan_loops marker_ptr done [] = some done
plan_loops marker_ptr done (none ∷ ls) = none
plan_loops marker_ptr done (some p ∷ ls) =
    let rest =
      plan_loops (some p.progress_ptr) (record { batch = p.batch; plans = done.plans ++ (p ∷ []) })
        ls in
    if differs marker_ptr p.progress_ptr || bad_batch done.batch p.batch then none else rest

-- One marker of the loop over `Markers`.
unfoldable pub plan_marker : Progress → Marker → Option Progress
unfolding plan_loops
plan_marker done m =
    if m.opt_none then none else (elim m.loops [ none ↦ none | some ls ↦ plan_loops none done ls ])

unfoldable pub plan_markers : Progress → List Marker → Option Progress
unfolding plan_marker
plan_markers done [] = some done
plan_markers done (m ∷ ms) = elim (plan_marker done m) [ none ↦ none | some d ↦ plan_markers d ms ]

abbrev pub no_plans : Progress
no_plans = record { batch = 0; plans = [] }

-- `Factor`, and the loops that are rewritten.
abbrev pub settle : Option Progress → Progress
settle none = record { batch = 1; plans = [] }
settle (some d) = d

-- `Sites`
abbrev pub Sites : Type 0
Sites = List (ℕ × List Marker)

-- `Sites[Token].push_back(Call)`
unfoldable pub add_marker : ℕ → Marker → Sites → Sites
add_marker token m [] = (token, m ∷ []) ∷ []
add_marker token m ((t, ms) ∷ sites) =
    let rest = add_marker token m sites in
    if token == t then (t, ms ++ (m ∷ [])) ∷ sites else (t, ms) ∷ rest

-- Markers without a token are only erased.
unfoldable pub sites_of : Sites → List (Option ℕ × Marker) → Sites
unfolding add_marker
sites_of sites [] = sites
sites_of sites ((none, m) ∷ ms) = sites_of sites ms
sites_of sites ((some token, m) ∷ ms) = sites_of (add_marker token m sites) ms

-- The site's loops that the pass rewrites, and the factor that it puts into `SiteFactors`.
unfoldable pub site_result : List Marker → Progress
unfolding plan_markers
site_result ms = settle (plan_markers no_plans ms)

-- `SiteFactors.lookup`, which is 0 for a token that is not there.
unfoldable pub lookup_factor : ℕ → List (ℕ × ℕ) → ℕ
lookup_factor token [] = 0
lookup_factor token ((t, f) ∷ fs) =
    let rest = lookup_factor token fs in if token == t then f else rest

-- The markers of a token, none if it is not there.
abbrev pub lookup_site : ℕ → Sites → List Marker
lookup_site token [] = []
lookup_site token ((t, ms) ∷ sites) = if token == t then ms else lookup_site token sites

-- The loops under a token's markers that the pass rewrites.
abbrev pub rewritten : List (Option ℕ × Marker) → ℕ → List Plan
rewritten ms token = (site_result (lookup_site token (sites_of [] ms))).plans

abbrev pub site_factors : Sites → List (ℕ × ℕ)
site_factors sites = map (λ s. (s.0, (site_result s.1).batch)) sites

-- What a query `__spork_get_unroll_factor(site)` is replaced by.
unfoldable pub factor_of : List (Option ℕ × Marker) → Option ℕ → ℕ
unfolding sites_of lookup_factor site_result
factor_of ms none = 1
factor_of ms (some token) =
    let f : ℕ = lookup_factor token (site_factors (sites_of [] ms)) in if f == 0 then 1 else f

-- ===== src/Gem/Driver.antt =====
-- gempass, `transformMarkedLoops`, `replaceFactorCalls` and `run`: by which factor each marked loop is
-- batched, and which factor the handlers of its site are told. Child: the two agree (Agree).
pub mod Agree
use spork_llvm.Base.{
  ℕ, zero, suc, ◌+◌, Bool, true, false, not, ◌&&◌, List, [], ◌∷◌, Option, none, some, if◌then◌else◌,
  ◌==◌,
}

-- `LoopUnrollResult`
pub data UnrollResult : Type 0 where
  unmodified : UnrollResult
  partially_unrolled : UnrollResult
  fully_unrolled : UnrollResult

-- A marker: whether it has a loop with a progress store and no unbounded work, the count that
-- `computeNativeUnrollDecision` gives, and what `cloneCleanupLoop`, `UnrollLoop` and
-- `formBatchedLoopWithCleanup` (on a main loop) say.
pub record GemMarker : Type 0 where
  pub token : Option ℕ
  pub supported : Bool
  pub decision : Option ℕ
  pub cleanup : Bool
  pub unroll : UnrollResult
  pub formed : Bool

abbrev pub has_token : ℕ → GemMarker → Bool
has_token t s = elim s.token [ none ↦ false | some u ↦ u == t ]

-- `MarkerCounts.lookup`
unfoldable pub marker_count : ℕ → List GemMarker → ℕ
marker_count t [] = 0
marker_count t (s ∷ ms) = if has_token t s then suc (marker_count t ms) else marker_count t ms

-- `Factor`, once there is a decision for `count`.
unfoldable pub batched_by : GemMarker → ℕ → ℕ
batched_by s count =
    if s.cleanup
    then (elim s.unroll [
      | unmodified ↦ 1
      | partially_unrolled ↦ if s.formed then count else 1
      | fully_unrolled ↦ 1
    ])
    else 1

-- The factor by which a marker's loop is batched, where `counts` are the marker counts.
unfoldable pub marker_factor : (ℕ → ℕ) → GemMarker → ℕ
unfolding batched_by
marker_factor counts s = elim s.token [
  | none ↦ 1
  | some t ↦
      if counts t == 1 && s.supported
      then (elim s.decision [ none ↦ 1 | some count ↦ batched_by s count ])
      else 1
]

-- `SiteFactors`
abbrev pub FactorMap : Type 0
FactorMap = List (ℕ × ℕ)

unfoldable pub find_factor : ℕ → FactorMap → Option ℕ
find_factor t [] = none
find_factor t ((u, f) ∷ fs) = let rest = find_factor t fs in if u == t then some f else rest

-- `SiteFactors.insert`, and 1 where another factor is there.
unfoldable pub insert_factor : ℕ → ℕ → FactorMap → FactorMap
insert_factor t f [] = (t, f) ∷ []
insert_factor t f ((u, g) ∷ fs) =
    let rest = insert_factor t f fs in
    if u == t then (u, (if g == f then g else 1)) ∷ fs else (u, g) ∷ rest

-- `transformMarkedLoops`, over the markers of all functions in order.
unfoldable pub transform : (ℕ → ℕ) → FactorMap → List GemMarker → FactorMap
unfolding marker_factor insert_factor
transform counts fs [] = fs
transform counts fs (s ∷ ms) =
    transform counts
      (elim s.token [ none ↦ fs | some t ↦ insert_factor t (marker_factor counts s) fs ]) ms

-- `replaceFactorCalls`: what a factor call with this token becomes.
unfoldable pub gem_factor_of : List GemMarker → Option ℕ → ℕ
unfolding transform marker_count find_factor
gem_factor_of ms none = 1
gem_factor_of ms (some t) = elim (find_factor t (transform (λ u. marker_count u ms) [] ms)) [
  | none ↦ 1
  | some f ↦ f
]

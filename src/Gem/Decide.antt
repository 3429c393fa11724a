-- ===== src/Gem/Decide.antt =====
-- gempass, `hasPotentiallyUnboundedWork` and `computeNativeUnrollDecision`: the count by which a loop is
-- unrolled. What LLVM says is in the record `LoopFacts`. Child: what it
-- decides (Bounds).
pub mod Bounds
use spork_llvm.Base.{
  ℕ, ◌%◌, ◌≤◌, ◌≡◌, ◌≢◌, Bool, true, false, not, ◌&&◌, ◌||◌, List, [], ◌∷◌, Option, none, some,
  if◌then◌else◌, ◌==◌, ltb, refl, sym, subst, ◌⊎◌, ◌∙◌, arith, Bool-cases, inl, inr,
}
use spork_llvm.Unroll.Recognise.Accepted.{check-some}
use spork_llvm.Unroll.Recognise.Follows.{some_inj}
use spork_llvm.Unroll.Recognise.{Instr, Kind, call, invoke, check}

-- `CallBase`
abbrev pub is_call : Kind → Bool
is_call (call c) = true
is_call invoke = true
is_call _ = false

abbrev pub empty_list : List ℕ → Bool
empty_list [] = true
empty_list (l ∷ ls) = false

unfoldable pub any_call : List Instr → Bool
any_call [] = false
any_call (i ∷ is) = is_call i.kind || any_call is

-- `hasPotentiallyUnboundedWork`
unfoldable pub has_unbounded_work : (sub_loops : List ℕ) (code : List Instr) → Bool
unfolding any_call
has_unbounded_work sub_loops code = not (empty_list sub_loops) || any_call code

-- What `computeUnrollCount` returns, and leaves in the preferences.
pub record Counted : Type 0 where
  pub count : ℕ
  pub peel_count : ℕ
  pub runtime : Bool

-- The trip counts stand in the order of the exiting blocks, 0 where LLVM knows none.
pub record LoopFacts : Type 0 where
  pub simplify_form : Bool
  pub lcssa_form : Bool
  pub threshold : ℕ
  pub partial : Bool
  pub partial_threshold : ℕ
  pub can_unroll : Bool
  pub inline_candidates : ℕ
  pub trip_counts : List ℕ
  pub latch : Option ℕ
  pub latch_exits : Bool
  pub exiting : Option ℕ
  pub trip_multiple : ℕ → ℕ
  pub allow_remainder : Bool
  pub convergence_allows_runtime : Bool
  pub max_trip_count : ℕ
  pub max_or_zero : Bool
  pub compute_unroll_count :
      (trip max_trip : ℕ) (max_or_zero : Bool) (multiple : ℕ) (allow_remainder : Bool) → Counted

-- `UnrollDecision`, of the preferences what is decided here. Of these the driver uses none: it unrolls
-- with `ULO.Runtime` off, whatever `runtime` says.
pub record Decision : Type 0 where
  pub count : ℕ
  pub allow_remainder : Bool
  pub runtime : Bool

-- The loop over the exiting blocks.
unfoldable pub trip_count : ℕ → List ℕ → ℕ
trip_count n [] = n
trip_count n (tc ∷ tcs) = trip_count (if not (tc == 0) && (n == 0 || ltb tc n) then tc else n) tcs

abbrev pub exit_block : LoopFacts → Option ℕ
exit_block l = elim l.latch [
  | none ↦ l.exiting
  | some b ↦ if l.latch_exits then some b else l.exiting
]

unfoldable pub multiple_of : LoopFacts → ℕ → ℕ
multiple_of l trip =
    if trip == 0 then (elim (exit_block l) [ none ↦ 1 | some b ↦ l.trip_multiple b ]) else trip

abbrev pub clamp : (max_trip count : ℕ) → ℕ
clamp max_trip count = if not (max_trip == 0) && ltb max_trip count then max_trip else count

-- `MaxTripCount`
abbrev pub known_max : LoopFacts → ℕ → ℕ
known_max l trip = if trip == 0 then l.max_trip_count else 0

-- After the call of `computeUnrollCount`.
unfoldable pub settle_count : LoopFacts → (trip max_trip multiple : ℕ) → Counted → Option Decision
settle_count l trip max_trip multiple counted =
    check (counted.peel_count == 0 && not (ltb counted.count 2)) (
      let count : ℕ = clamp max_trip counted.count in
      check (not (ltb count 2)) (
        some (record {
          count = count;
          allow_remainder = l.allow_remainder && l.convergence_allows_runtime;
          runtime =
              counted.runtime
              && l.convergence_allows_runtime
              && trip == 0
              && not (multiple % count == 0);
        })))

unfoldable pub decide_count : LoopFacts → (trip max_trip multiple : ℕ) → Option Decision
unfolding settle_count
decide_count l trip max_trip multiple = settle_count l trip max_trip multiple (
    l.compute_unroll_count trip max_trip (trip == 0 && l.max_or_zero) multiple
      (l.allow_remainder && l.convergence_allows_runtime))

-- `computeNativeUnrollDecision`
unfoldable pub native_unroll_decision : LoopFacts → Option Decision
unfolding trip_count multiple_of decide_count
native_unroll_decision l =
    let trip : ℕ = trip_count 0 l.trip_counts in
    check (l.simplify_form && l.lcssa_form) (
      check (not (l.threshold == 0 && (not l.partial || l.partial_threshold == 0))) (
        check (l.can_unroll && l.inline_candidates == 0)
          (decide_count l trip (known_max l trip) (multiple_of l trip))))

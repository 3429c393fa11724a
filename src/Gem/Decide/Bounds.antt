-- ===== src/Gem/Decide/Bounds.antt =====
-- gempass, `computeNativeUnrollDecision`: what a decision is like.
use spork_llvm.Base.{
  ℕ, ◌%◌, ◌≤◌, ◌≡◌, ◌≢◌, Bool, true, not, ◌&&◌, ◌||◌, List, [], ◌∷◌, some, ap, dec_le,
  if◌then◌else◌, ◌==◌, ltb, refl, sym, subst, ◌⊎◌, ◌∙◌, arith, Bool-cases, inl, inr,
}
use spork_llvm.Unroll.Recognise.Accepted.{check-some}
use spork_llvm.Unroll.Recognise.Follows.{some_inj}
use spork_llvm.Gem.Decide.{
  Counted, LoopFacts, Decision, trip_count, multiple_of, clamp, known_max, settle_count,
  decide_count, native_unroll_decision,
}

-- Every exiting block whose trip count is known has one of at least `n`; 0 is no bound.
abbrev pub IsLeast : ℕ → List ℕ → Type 0
IsLeast n [] = Unit {0}
IsLeast n (tc ∷ tcs) = (tc ≢ 0 → (n ≢ 0) × (n ≤ tc)) × IsLeast n tcs

trip_step : (n tc : ℕ) → ℕ
trip_step n tc = if not (tc == 0) && (n == 0 || ltb tc n) then tc else n

trip_step_cases : (n tc : ℕ) → (trip_step n tc ≡ n) ⊎ (trip_step n tc ≡ tc)
unfolding trip_step
trip_step_cases n tc = elim (Bool-cases (not (tc == 0) && (n == 0 || ltb tc n))) [
  | inl e ↦ inr (rw e refl)
  | inr e ↦ inl (rw e refl)
]

trip_step_zero : (n tc : ℕ) → tc ≡ 0 → trip_step n tc ≡ n
unfolding trip_step
trip_step_zero n tc z = ground (arith, z)

trip_step-bounds :
    (n tc m : ℕ)
    → (trip_step n tc ≢ 0 → (m ≢ 0) × (m ≤ trip_step n tc))
    → (n ≢ 0 → (m ≢ 0) × (m ≤ n)) × (tc ≢ 0 → (m ≢ 0) × (m ≤ tc))
unfolding trip_step
trip_step-bounds n tc m h =
    let (nz, below) = trip_step_bounds n tc in
    (
      λ p. let r = h (nz.0 p) in let b = below.0 p in (r.0, omega (arith, r.1, b)),
      λ p. let r = h (nz.1 p) in let b = below.1 p in (r.0, omega (arith, r.1, b)),
    )
  where
    trip_step_bounds :
        (n tc : ℕ)
        → ((n ≢ 0 → trip_step n tc ≢ 0) × (tc ≢ 0 → trip_step n tc ≢ 0))
          × ((n ≢ 0 → trip_step n tc ≤ n) × (tc ≢ 0 → trip_step n tc ≤ tc))
    trip_step_bounds n tc = (
      (λ p q. ground (arith, p, q), λ p q. ground (arith, p, q)),
      (λ p. ground (arith, p), λ p. ground (arith, p)),
    )

trip_count-step :
    (n tc : ℕ) (tcs : List ℕ) → trip_count n (tc ∷ tcs) ≡ trip_count (trip_step n tc) tcs
unfolding trip_count trip_step
trip_count-step n tc tcs = refl

trip_count_least_lem :
    (n : ℕ) (tcs : List ℕ)
    → (n ≢ 0 → (trip_count n tcs ≢ 0) × (trip_count n tcs ≤ n)) × IsLeast (trip_count n tcs) tcs
unfolding trip_count
trip_count_least_lem n [] = (λ h. (h, omega arith), tt)
trip_count_least_lem n (tc ∷ tcs) =
    let (below, least) = trip_count_least_lem (trip_step n tc) tcs in
    let (first, second) = trip_step-bounds n tc (trip_count (trip_step n tc) tcs) below in
    subst (λ m. (n ≢ 0 → (m ≢ 0) × (m ≤ n)) × IsLeast m (tc ∷ tcs)) (sym (trip_count-step n tc tcs))
      (first, (second, least))

abbrev pub Among : ℕ → List ℕ → Type 0
Among n [] = ⊥
Among n (tc ∷ tcs) = (n ≡ tc) ⊎ Among n tcs

trip_count-Among : (n : ℕ) (tcs : List ℕ) → (trip_count n tcs ≡ n) ⊎ Among (trip_count n tcs) tcs
unfolding trip_count
trip_count-Among n [] = inl refl
trip_count-Among n (tc ∷ tcs) =
    subst (λ m. (m ≡ n) ⊎ Among m (tc ∷ tcs)) (sym (trip_count-step n tc tcs))
      (elim (trip_count-Among (trip_step n tc) tcs) [
        | inl e ↦ elim (trip_step_cases n tc) [ inl p ↦ inl (e ∙ p) | inr p ↦ inr (inl (e ∙ p)) ]
        | inr a ↦ inr (inr a)
      ])

-- The trip count by which the pass decides is the least of those that LLVM knows, and 0 exactly if it
-- knows none.
pub trip_count-IsLeast :
    (tcs : List ℕ)
    → IsLeast (trip_count 0 tcs) tcs × ((trip_count 0 tcs ≡ 0) ⊎ Among (trip_count 0 tcs) tcs)
trip_count-IsLeast tcs = ((trip_count_least_lem 0 tcs).1, trip_count-Among 0 tcs)

runtime_needs :
    (wanted allowed : Bool) (trip rest : ℕ)
    → (wanted && allowed && trip == 0 && not (rest == 0)) ≡ true
    → (trip ≡ 0) × (rest ≢ 0)
runtime_needs wanted allowed trip rest e = (ground arith, λ z. ground (arith, z))

settle_count-bounds :
    (l : LoopFacts) (trip max_trip multiple : ℕ) (c : Counted) (d : Decision)
    → settle_count l trip max_trip multiple c ≡ some d
    → (2 ≤ d.count)
      × (max_trip ≢ 0 → d.count ≤ max_trip)
      × (d.runtime ≡ true → (trip ≡ 0) × (multiple % d.count ≢ 0))
unfolding settle_count
settle_count-bounds l trip max_trip multiple c d e =
    let (a, e₁) = check-some _ _ d e in
    let (b, e₂) = check-some _ _ d e₁ in
    let q = some_inj _ d e₂ in
    rw (sym q) (
      ground arith,
      λ h. ground (arith, h),
      runtime_needs c.runtime l.convergence_allows_runtime trip (multiple % clamp max_trip c.count),
    )

-- LLVM knows the trip count of no exiting block.
abbrev pub NoneKnown : List ℕ → Type 0
NoneKnown [] = Unit {0}
NoneKnown (tc ∷ tcs) = (tc ≡ 0) × NoneKnown tcs

trip_count-NoneKnown : (n : ℕ) (tcs : List ℕ) → NoneKnown tcs → trip_count n tcs ≡ n
unfolding trip_count
trip_count-NoneKnown n [] k = refl
trip_count-NoneKnown n (tc ∷ tcs) k =
    let z = k.0 in
    let same : trip_step n tc ≡ n = trip_step_zero n tc z in
    trip_count-step n tc tcs ∙ ap (λ m. trip_count m tcs) same ∙ trip_count-NoneKnown n tcs k.1

IsLeast-NoneKnown : (tcs : List ℕ) → IsLeast 0 tcs → NoneKnown tcs
IsLeast-NoneKnown [] h = tt
IsLeast-NoneKnown (tc ∷ tcs) h = (
  elim (dec_le tc 0) [
    | yes z ↦ omega (arith, z)
    | no p ↦ absurd ((h.0 (λ z. p (omega (arith, z)))).0 refl)
  ],
  IsLeast-NoneKnown tcs h.1,
)

-- A decision is a count of at least two; it is at most the largest number of iterations, where LLVM
-- knows one and the trip count of no exiting block; and the `Runtime` preference that it carries is set
-- only if no exiting block has a known trip count and the count does not divide the known multiple.
pub native_unroll_decision-bounds :
    (l : LoopFacts) (d : Decision)
    → native_unroll_decision l ≡ some d
    → (2 ≤ d.count)
      × (NoneKnown l.trip_counts → l.max_trip_count ≢ 0 → d.count ≤ l.max_trip_count)
      × (d.runtime ≡ true → NoneKnown l.trip_counts × (multiple_of l 0 % d.count ≢ 0))
unfolding native_unroll_decision decide_count
native_unroll_decision-bounds l d e =
    let (a, e₁) = check-some _ _ d e in
    let (b, e₂) = check-some _ _ d e₁ in
    let (c, e₃) = check-some _ _ d e₂ in
    let trip : ℕ = trip_count 0 l.trip_counts in
    let (two, most, run) =
      settle_count-bounds l trip (known_max l trip) (multiple_of l trip)
        (l.compute_unroll_count trip (known_max l trip) (trip == 0 && l.max_or_zero)
          (multiple_of l trip) (l.allow_remainder && l.convergence_allows_runtime))
        d e₃ in
    (
      two,
      λ k h.
          let z = trip_count-NoneKnown 0 l.trip_counts k in
          let m = most (λ q. h (ground (arith, z, q))) in ground (arith, z, m),
      λ r.
          let (z, n) = run r in
          (
            IsLeast-NoneKnown l.trip_counts
                (subst (λ m. IsLeast m l.trip_counts) z (trip_count-IsLeast l.trip_counts).0),
            subst (λ m. multiple_of l m % d.count ≢ 0) z n,
          ),
    )

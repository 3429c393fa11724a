-- ===== src/Unroll/Probe/Measure/Largest.antt =====
-- fablepass, the batch of a probe is the largest of the least steps of its loops.
use spork_llvm.Base.{
  ℕ, ◌<◌, ◌≤◌, ◌≡◌, ◌⊎◌, inl, inr, not, ◌&&◌, ◌||◌, List, [], ◌∷◌, ◌==◌, ltb, u32_mod, refl, ◌∙◌,
  arith, Bool-cases,
}
use spork_llvm.Unroll.Probe.Measure.{
  ProbePhi, constant_step, lower, least_step, ProbeResult, no_batch, measure_loop, measure_probe,
  probe_result,
}

lower_cases : (least s : ℕ) → (lower least s ≡ least) ⊎ (lower least s ≡ s)
lower_cases least s = elim (Bool-cases (not (s == 0) && ((least == 0) || ltb s least))) [
  | inl t ↦ inr (rw t refl)
  | inr f ↦ inl (rw f refl)
]

-- A bound of the steps that are not 0, itself not 0 if there is one.
abbrev IsBelow : ℕ → List ProbePhi → Type 0
IsBelow m [] = Unit {0}
IsBelow m (phi ∷ phis) =
    (0 < constant_step phi → (0 < m) × (m ≤ constant_step phi)) × IsBelow m phis

abbrev pub HasStep : (s : ℕ) → List ProbePhi → Type 0
HasStep s [] = ⊥
HasStep s (phi ∷ phis) = (s ≡ constant_step phi) ⊎ HasStep s phis

least_step-lowers :
    (phis : List ProbePhi) (least : ℕ)
    → 0 < least
    → (0 < least_step phis least) × (least_step phis least ≤ least)
unfolding least_step
least_step-lowers [] least h = ground arith
least_step-lowers (phi ∷ phis) least h =
    let rest = least_step-lowers phis (lower least (constant_step phi)) (ground arith) in
    ground arith

least_step-IsBelow : (phis : List ProbePhi) (least : ℕ) → IsBelow (least_step phis least) phis
unfolding least_step
least_step-IsBelow [] least = tt
least_step-IsBelow (phi ∷ phis) least = (
  λ h.
      let q = least_step-lowers phis (lower least (constant_step phi)) (ground arith) in
      let q' : lower least (constant_step phi) ≤ constant_step phi = ground arith in
      (q.0, omega (arith, q')),
  least_step-IsBelow phis (lower least (constant_step phi)),
)

least_step-HasStep :
    (phis : List ProbePhi) (least : ℕ)
    → (least_step phis least ≡ least) ⊎ HasStep (least_step phis least) phis
unfolding least_step
least_step-HasStep [] least = inl refl
least_step-HasStep (phi ∷ phis) least =
    elim (least_step-HasStep phis (lower least (constant_step phi))) [
      | inl e ↦ (elim (lower_cases least (constant_step phi)) [
        | inl q ↦ inl (e ∙ q)
        | inr q ↦ inr (inl (e ∙ q))
      ])
      | inr q ↦ inr (inr q)
    ]

abbrev pub AllLeast : (ℕ → Type 0) → List (List ProbePhi × List ℕ) → Type 0
AllLeast P [] = Unit {0}
AllLeast P ((phis, lanes) ∷ loops) = P (least_step phis 0) × AllLeast P loops

abbrev pub AnyLeast : (ℕ → Type 0) → List (List ProbePhi × List ℕ) → Type 0
AnyLeast P [] = ⊥
AnyLeast P ((phis, lanes) ∷ loops) = P (least_step phis 0) ⊎ AnyLeast P loops

-- One loop: the greater of what there is and of its least step.
measure_loop-greater :
    (phis : List ProbePhi) (lanes : List ℕ) (r : ProbeResult)
    → least_step phis 0 < u32_mod
    → (r.largest ≤ (measure_loop phis lanes r).largest)
      × (least_step phis 0 ≤ (measure_loop phis lanes r).largest)
      × (((measure_loop phis lanes r).largest ≡ r.largest)
          ⊎ ((measure_loop phis lanes r).largest ≡ least_step phis 0))
unfolding measure_loop
measure_loop-greater phis lanes r h = elim (Bool-cases (ltb r.largest (least_step phis 0))) [
  | inl t ↦ rw t (ground arith)
  | inr f ↦ rw f (ground arith)
]

measure_probe-grows :
    (loops : List (List ProbePhi × List ℕ)) (r : ProbeResult)
    → AllLeast (λ m. m < u32_mod) loops
    → r.largest ≤ (measure_probe loops r).largest
unfolding measure_probe
measure_probe-grows [] r h = ground arith
measure_probe-grows ((phis, lanes) ∷ loops) r (h, hs) =
    let one = measure_loop-greater phis lanes r h in
    let rest = measure_probe-grows loops (measure_loop phis lanes r) hs in
    omega (arith, one.0, rest)

measure_probe-covers :
    (loops : List (List ProbePhi × List ℕ)) (r : ProbeResult)
    → AllLeast (λ m. m < u32_mod) loops
    → AllLeast (λ m. m ≤ (measure_probe loops r).largest) loops
unfolding measure_probe
measure_probe-covers [] r h = tt
measure_probe-covers ((phis, lanes) ∷ loops) r (h, hs) = (
  let one = measure_loop-greater phis lanes r h in
      let rest = measure_probe-grows loops (measure_loop phis lanes r) hs in
      omega (arith, one.1, rest),
  measure_probe-covers loops (measure_loop phis lanes r) hs,
)

measure_probe-attains :
    (loops : List (List ProbePhi × List ℕ)) (r : ProbeResult)
    → AllLeast (λ m. m < u32_mod) loops
    → ((measure_probe loops r).largest ≡ r.largest)
      ⊎ AnyLeast (λ m. (measure_probe loops r).largest ≡ m) loops
unfolding measure_probe
measure_probe-attains [] r h = inl refl
measure_probe-attains ((phis, lanes) ∷ loops) r (h, hs) =
    elim (measure_probe-attains loops (measure_loop phis lanes r) hs) [
      | inl e ↦ (elim (measure_loop-greater phis lanes r h).2 [
        | inl q ↦ inl (e ∙ q)
        | inr q ↦ inr (inl (e ∙ q))
      ])
      | inr q ↦ inr (inr q)
    ]

-- The batch of a probe: at least 1, at most the cap unless it is 1, the least step of a loop if it is
-- not 1; and no loop has a greater least step, if all these are within the cap.
abbrev pub IsBatch : (cap : ℕ) → List (List ProbePhi × List ℕ) → ℕ → Type 0
IsBatch cap loops m =
    (1 ≤ m)
    × ((m ≡ 1) ⊎ ((m ≤ cap) × AnyLeast (λ s. m ≡ s) loops))
    × (AllLeast (λ s. s ≤ cap) loops → 1 ≤ cap → AllLeast (λ s. s ≤ m) loops)

within_cap :
    {cap m : ℕ} (loops : List (List ProbePhi × List ℕ))
    → AllLeast (λ s. s ≤ cap) loops
    → AnyLeast (λ s. m ≡ s) loops
    → m ≤ cap
within_cap ((phis, lanes) ∷ loops) (h, hs) (inl q) = omega (arith, h, q)
within_cap ((phis, lanes) ∷ loops) (h, hs) (inr q) = within_cap loops hs q
within_cap [] h q = elim q [ ]

-- Let the least steps of the loops of the probe be below 2^32. Then what the probe gives as its batch
-- is at least 1; if it is not 1, it is the least step of one of the loops and within the cap; and if
-- the cap is at least 1 and no loop has a least step beyond it, no least step is greater than the
-- batch.
pub probe_result-IsBatch :
    (cap : ℕ) (loops : List (List ProbePhi × List ℕ))
    → AllLeast (λ m. m < u32_mod) loops
    → IsBatch cap loops (probe_result cap loops).largest
unfolding probe_result
probe_result-IsBatch cap loops h =
    let grows = measure_probe-grows loops no_batch h in
    let covers = measure_probe-covers loops no_batch h in
    let attains = measure_probe-attains loops no_batch h in
    elim (Bool-cases (ltb cap (measure_probe loops no_batch).largest)) [
      | inl t ↦ rw t (
        ground arith,
        inl refl,
        λ hs pos. elim attains [
          | inl e ↦ ground arith
          | inr q ↦ (let w = within_cap loops hs q in ground arith)
        ],
      )
      | inr f ↦
          rw f (
            grows,
            elim attains [ inl e ↦ inl e | inr q ↦ inr (ground arith, q) ],
            λ hs pos. covers,
          )
    ]

-- ===== src/Unroll/Transplant/Match/Formed.antt =====
-- fablepass, the loops of a probe that is transplanted step as its batch says.
use spork_llvm.Base.{
  ℕ, ◌<◌, ◌≤◌, ◌≡◌, ◌⊎◌, inl, inr, List, [], ◌∷◌, some, u32_mod, ap, ◌∙◌, subst, arith,
}
use spork_llvm.Unroll.Recognise.Accepted.{bind-some}
use spork_llvm.Unroll.Recognise.Follows.{some_inj}
use spork_llvm.Unroll.Probe.Measure.{ProbePhi, probe_result}
use spork_llvm.Unroll.Probe.Measure.Largest.{AllLeast, AnyLeast, probe_result-IsBatch}
use spork_llvm.Unroll.Transplant.Match.{
  ProbeLoop, StepLoop, match_step_loop, match_loops, some_steps, match_steps,
}
use spork_llvm.Unroll.Transplant.Match.Steps.{IsStep, match_step_loop-IsStep}

-- What the measure reads off the loops.
abbrev pub measured : List ProbeLoop → List (List ProbePhi × List ℕ)
measured [] = []
measured (s ∷ ss) = (s.phis, s.lanes) ∷ measured ss

abbrev pub AllSteps : (ℕ → Type 0) → List StepLoop → Type 0
AllSteps P [] = Unit {0}
AllSteps P (m ∷ ms) = P m.step × AllSteps P ms

abbrev pub AnyStep : (ℕ → Type 0) → List StepLoop → Type 0
AnyStep P [] = ⊥
AnyStep P (m ∷ ms) = P m.step ⊎ AnyStep P ms

-- The loops and what is matched in each.
abbrev AreSteps : List ProbeLoop → List StepLoop → Type 0
AreSteps [] [] = Unit {0}
AreSteps (s ∷ ss) (m ∷ ms) = IsStep s m × AreSteps ss ms
AreSteps _ _ = ⊥

match_loops-AreSteps :
    (bits fuel : ℕ) (ss : List ProbeLoop) (ms : List StepLoop)
    → match_loops bits fuel ss ≡ some ms
    → AreSteps ss ms
unfolding match_loops
match_loops-AreSteps bits fuel [] [] e = tt
match_loops-AreSteps bits fuel [] (m ∷ ms) e = absurd (let e' = some_inj _ _ e in cc)
match_loops-AreSteps bits fuel (s ∷ ss) ms e =
    let (m, q, e₁) = bind-some (match_step_loop bits fuel s) _ ms e in
    let (rest, q', e₂) = bind-some (match_loops bits fuel ss) _ ms e₁ in
    subst (AreSteps (s ∷ ss)) (some_inj _ _ e₂)
      (match_step_loop-IsStep bits fuel s m q, match_loops-AreSteps bits fuel ss rest q')

steps_within :
    (b : ℕ) (ss : List ProbeLoop) (ms : List StepLoop)
    → AreSteps ss ms
    → AllLeast (λ m. m < u32_mod) (measured ss)
    → AllLeast (λ m. m ≤ b) (measured ss)
    → AllSteps (λ m. (1 ≤ m) × (m ≤ b)) ms
steps_within b [] [] are small h = tt
steps_within b (s ∷ ss) (m ∷ ms) ((pos, e), are) (lt, small) (le, h) =
    ((ground arith, ground arith), steps_within b ss ms are small h)
steps_within b [] (m ∷ ms) are small h = elim are [ ]
steps_within b (s ∷ ss) [] are small h = elim are [ ]

steps_attained :
    (b : ℕ) (ss : List ProbeLoop) (ms : List StepLoop)
    → AreSteps ss ms
    → AllLeast (λ m. m < u32_mod) (measured ss)
    → AnyLeast (λ m. b ≡ m) (measured ss)
    → AnyStep (λ m. b ≡ m) ms
steps_attained b (s ∷ ss) (m ∷ ms) ((pos, e), are) (lt, small) (inl q) = inl (ground arith)
steps_attained b (s ∷ ss) (m ∷ ms) ((pos, e), are) (lt, small) (inr q) =
    inr (steps_attained b ss ms are small q)
steps_attained b [] ms are small q = elim q [ ]
steps_attained b (s ∷ ss) [] are small q = elim are [ ]

abbrev NotNone : List StepLoop → Type 0
NotNone [] = ⊥
NotNone (m ∷ ms) = Unit {0}

some_steps_inj : (found ms : List StepLoop) → some_steps found ≡ some ms → (found ≡ ms) × NotNone ms
some_steps_inj [] ms e = absurd cc
some_steps_inj (m ∷ found) ms e = let q = some_inj _ _ e in (q, subst NotNone q tt)

first_step :
    {b : ℕ} (ms : List StepLoop)
    → NotNone ms
    → b ≡ 1
    → AllSteps (λ m. (1 ≤ m) × (m ≤ b)) ms
    → AnyStep (λ m. b ≡ m) ms
first_step [] n e h = elim n [ ]
first_step (m ∷ ms) n e ((lo, hi), h) = inl (omega (arith, e, lo, hi))

-- Let a probe's loops have least steps below 2^32 and within the cap, the cap be at least 1, and let
-- all its loops be matched. Then each of them does at least one round of the marked loop on a trip
-- and at most as many as the batch of the probe, and one of them does as many.
pub match_steps-batch :
    (bits fuel cap : ℕ) (ss : List ProbeLoop) (ms : List StepLoop)
    → 1 ≤ cap
    → AllLeast (λ m. m < u32_mod) (measured ss)
    → AllLeast (λ m. m ≤ cap) (measured ss)
    → match_steps bits fuel ss ≡ some ms
    → AllSteps (λ m. (1 ≤ m) × (m ≤ (probe_result cap (measured ss)).largest)) ms
      × AnyStep (λ m. (probe_result cap (measured ss)).largest ≡ m) ms
unfolding match_steps
match_steps-batch bits fuel cap ss ms pos small le e =
    let (found, q, e₁) = bind-some (match_loops bits fuel ss) _ ms e in
    let (is, some_one) = some_steps_inj found ms e₁ in
    let are = match_loops-AreSteps bits fuel ss ms (q ∙ ap some is) in
    let (one, attained, covers) = probe_result-IsBatch cap (measured ss) small in
    let within = steps_within _ ss ms are small (covers le pos) in
    (
      within,
      elim attained [
        | inl r ↦ first_step ms some_one r within
        | inr (_, r) ↦ steps_attained _ ss ms are small r
      ],
    )

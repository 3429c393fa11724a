-- ===== src/Unroll/Transplant/Match/Steps.antt =====
-- fablepass, the loops of a probe that is transplanted step as its batch says.
use spork_llvm.Base.{
  ℕ, zero, suc, ◌%◌, ◌<◌, ◌≡◌, ◌⊎◌, inl, inr, true, false, List, [], ◌∷◌, ◌==◌, Option, none, some,
  u32_mod, refl, sym, ap, ◌∙◌, arith,
}
use spork_llvm.Unroll.Recognise.{same}
use spork_llvm.Unroll.Recognise.Accepted.{check-some, bind-some, and-right, not-true}
use spork_llvm.Unroll.Recognise.Follows.{some_inj}
use spork_llvm.Unroll.Probe.Measure.{
  ProbePhi, Recurrence, opaque, varying, by_steps, constant_step, lower, least_step,
}
use spork_llvm.Unroll.Transplant.Match.{
  ProbeLoop, ExitCompare, StepLoop, passed_over, refused, steps_by, judge_phi, scan_inductions,
  limit_of, match_exit, match_found, match_compared, match_step_loop,
}

-- What the search does with a header PHI, and the step that the measure reads off it.
abbrev Judgement : ProbePhi → Type 0
Judgement phi =
    ((judge_phi phi ≡ passed_over) × (constant_step phi ≡ 0))
    ⊎ ((judge_phi phi ≡ refused)
        ⊎ ((judge_phi phi ≡ steps_by (constant_step phi)) × (0 < constant_step phi)))

judgement :
    (b : Option ℕ) (r : Recurrence) (x y : ℕ)
    → Judgement (record { bits = b; recurrence = r; from_latch = x; from_preheader = y })
unfolding judge_phi
judgement none r x y = inl (refl, refl)
judgement (some w) opaque x y = inl (refl, refl)
judgement (some w) varying x y = inr (inl refl)
judgement (some w) (by_steps true size) x y = inr (inl refl)
judgement (some w) (by_steps false zero) x y = inr (inl refl)
judgement (some w) (by_steps false (suc size)) x y =
    let q : (suc size == 0) ≡ false = ground arith in inr (inr (rw q refl, omega arith))

judge_phi_cases : (phi : ProbePhi) → Judgement phi
judge_phi_cases phi = judgement phi.bits phi.recurrence phi.from_latch phi.from_preheader

-- Once the induction is found, no other header PHI has a step.
scan_rest :
    (phis : List ProbePhi) (f : ProbePhi × ℕ) (r : Option (ProbePhi × ℕ)) (least : ℕ)
    → scan_inductions phis (some f) ≡ some r
    → (r ≡ some f) × (least_step phis least ≡ least)
unfolding scan_inductions least_step
scan_rest [] f r least e = (sym (some_inj _ _ e), refl)
scan_rest (phi ∷ phis) f r least e = elim (judge_phi_cases phi) [
  | inl (q, z) ↦ let (a, b) = scan_rest phis f r least (rw (q, scan_inductions) at e) in (a, rw z b)
  | inr (inl q) ↦ absurd (let e' = rw (q, scan_inductions) at e in cc)
  | inr (inr (q, _)) ↦ absurd (let e' = rw (q, scan_inductions) at e in cc)
]

-- The induction that is found has the least step of the loop.
scan_first :
    (phis : List ProbePhi) (f : ProbePhi × ℕ)
    → scan_inductions phis none ≡ some (some f)
    → (0 < f.1) × (least_step phis 0 ≡ f.1)
unfolding scan_inductions least_step
scan_first [] f e = absurd (let e' = some_inj _ _ e in cc)
scan_first (phi ∷ phis) f e = elim (judge_phi_cases phi) [
  | inl (q, z) ↦ rw z (scan_first phis f (rw (q, scan_inductions) at e))
  | inr (inl q) ↦ absurd (let e' = rw (q, scan_inductions) at e in cc)
  | inr (inr (q, pos)) ↦
      let e' = rw (q, scan_inductions) at e in
      let (a, b) = scan_rest phis (phi, constant_step phi) (some f) (constant_step phi) e' in
      let same_step : constant_step phi ≡ f.1 = ap (λ x. x.1) (some_inj _ _ (sym a)) in
      let low : lower 0 (constant_step phi) ≡ constant_step phi = ground arith in
      (omega (arith, pos, same_step), ap (λ x. least_step phis x) low ∙ b ∙ same_step)
]

-- What is matched in one loop.
abbrev pub IsStep : ProbeLoop → StepLoop → Type 0
IsStep s m = (0 < m.step) × (m.step ≡ least_step s.phis 0 % u32_mod)

match_exit-step :
    (fuel : ℕ) (s : ProbeLoop) (c : ExitCompare) (f : ProbePhi × ℕ) (m : StepLoop)
    → match_exit fuel s c f ≡ some m
    → m.step ≡ f.1 % u32_mod
unfolding match_exit
match_exit-step fuel s c f m e =
    let (limit, _, e₁) = bind-some (limit_of s c f.0.from_latch) _ m e in
    let (_, e₂) = check-some _ _ m e₁ in sym (ap (λ x. x.step) (some_inj _ _ e₂))

match_found-IsStep :
    (bits fuel : ℕ) (s : ProbeLoop) (c : ExitCompare) (f : ProbePhi × ℕ) (m : StepLoop)
    → scan_inductions s.phis none ≡ some (some f)
    → match_found bits fuel s c f ≡ some m
    → IsStep s m
unfolding match_found
match_found-IsStep bits fuel s c f m scan e =
    let (guard, e₁) = check-some _ _ m e in
    let step = match_exit-step fuel s c f m e₁ in
    let least = (scan_first s.phis f scan).1 in
    let nz = not-true (f.1 % u32_mod == 0) (and-right (same f.0.bits (some bits)) _ guard) in
    (ground arith, step ∙ ap (λ x. x % u32_mod) (sym least))

match_compared-IsStep :
    (bits fuel : ℕ) (s : ProbeLoop) (c : ExitCompare) (m : StepLoop)
    → match_compared bits fuel s c ≡ some m
    → IsStep s m
unfolding match_compared
match_compared-IsStep bits fuel s c m e =
    let (_, e₁) = check-some _ _ m e in
    let (found, scan, e₂) = bind-some (scan_inductions s.phis none) _ m e₁ in
    let (f, is, e₃) = bind-some found _ m e₂ in
    match_found-IsStep bits fuel s c f m (scan ∙ ap some is) e₃

pub match_step_loop-IsStep :
    (bits fuel : ℕ) (s : ProbeLoop) (m : StepLoop)
    → match_step_loop bits fuel s ≡ some m
    → IsStep s m
unfolding match_step_loop
match_step_loop-IsStep bits fuel s m e =
    let (_, e₁) = check-some _ _ m e in
    let (c, _, e₂) = bind-some s.compare_of_latch _ m e₁ in match_compared-IsStep bits fuel s c m e₂

-- ===== src/Unroll/Transplant/Skipped.antt =====
-- fablepass, `rewriteStepLoop`: what a PHI of the exit gets where a step loop is passed over.
use spork_llvm.Base.{
  ℕ, ◌≡◌, ◌↔◌, ◌⊎◌, inl, inr, true, false, List, [], ◌∷◌, if◌then◌else◌, ◌==◌, refl, sym, ◌∙◌,
  subst, arith, Bool-cases,
}
use spork_llvm.Unroll.Probe.Measure.{ProbePhi}
use spork_llvm.Unroll.Transplant.Match.{ProbeLoop, from_header}

-- The loop over the header PHIs, from the value to give if none has this latch value.
unfoldable pub entry_value : (v : ℕ) → List ProbePhi → (from_ph : ℕ) → ℕ
entry_value v [] from_ph = from_ph
entry_value v (phi ∷ phis) from_ph =
    entry_value v phis (if phi.from_latch == v then phi.from_preheader else from_ph)

-- `FromPH`, for the latch value of a PHI of the exit.
unfoldable pub skip_value : ProbeLoop → ProbePhi → (v : ℕ) → ℕ
unfolding entry_value
skip_value s iv v =
    if v == iv.from_latch
    then iv.from_preheader
    else if s.defined_in_loop v
    then entry_value v s.phis v
    else v

-- The value is what each header PHI with this latch value has before the first trip.
abbrev pub AtEntry : (v value : ℕ) → List ProbePhi → Type 0
AtEntry v value [] = Unit {0}
AtEntry v value (phi ∷ phis) =
    ((phi.from_latch ≡ v) → value ≡ phi.from_preheader) × AtEntry v value phis

-- Some header PHI with this latch value has that value before the first trip.
abbrev pub SomeEntry : (v value : ℕ) → List ProbePhi → Type 0
SomeEntry v value [] = ⊥
SomeEntry v value (phi ∷ phis) =
    ((phi.from_latch ≡ v) × (value ≡ phi.from_preheader)) ⊎ SomeEntry v value phis

-- All header PHIs with this latch value have one value before the first trip.
abbrev pub OneEntry : (v : ℕ) → List ProbePhi → Type 0
OneEntry v phis = (x : ℕ) → SomeEntry v x phis → AtEntry v x phis

entry_cases :
    (v : ℕ) (phis : List ProbePhi) (from_ph : ℕ)
    → SomeEntry v (entry_value v phis from_ph) phis
      ⊎ ((entry_value v phis from_ph ≡ from_ph) × (from_header v phis ≡ false))
unfolding entry_value
entry_cases v [] from_ph = inr (refl, refl)
entry_cases v (phi ∷ phis) from_ph =
    elim (entry_cases v phis (if phi.from_latch == v then phi.from_preheader else from_ph)) [
      | inl h ↦ inl (inr h)
      | inr (e, none_other) ↦ (elim (Bool-cases (phi.from_latch == v)) [
        | inl q ↦ inl (inl ((ground arith), e ∙ rw q refl))
        | inr q ↦ inr (e ∙ rw q refl, rw q none_other)
      ])
    ]

from_header-SomeEntry :
    (v : ℕ) (phis : List ProbePhi) (from_ph : ℕ)
    → from_header v phis ≡ true
    → SomeEntry v (entry_value v phis from_ph) phis
from_header-SomeEntry v phis from_ph h = elim (entry_cases v phis from_ph) [
  | inl e ↦ e
  | inr (_, no_header) ↦ absurd cc
]

AtEntry-some : (v x y : ℕ) (phis : List ProbePhi) → AtEntry v x phis → SomeEntry v y phis → y ≡ x
AtEntry-some v x y [] at some_one = elim some_one [ ]
AtEntry-some v x y (phi ∷ phis) (at, rest) (inl (e, q)) = q ∙ sym (at e)
AtEntry-some v x y (phi ∷ phis) (at, rest) (inr some_one) = AtEntry-some v x y phis rest some_one

skip_value-inside :
    (s : ProbeLoop) (iv : ProbePhi) (v : ℕ)
    → s.defined_in_loop v ≡ true
    → (v == iv.from_latch) ≡ false
    → skip_value s iv v ≡ entry_value v s.phis v
unfolding skip_value
skip_value-inside s iv v inside ne = rw (ne, inside) refl

-- Let an exit PHI have a latch input `v` that is defined in the loop, is not the next induction and
-- is the latch value of a header PHI. Where the loop is passed over, it gets the value that such a
-- header PHI has before the first trip; and that is the value of all of these exactly when they
-- agree.
pub skip_value-AtEntry :
    (s : ProbeLoop) (iv : ProbePhi) (v : ℕ)
    → s.defined_in_loop v ≡ true
    → (v == iv.from_latch) ≡ false
    → from_header v s.phis ≡ true
    → SomeEntry v (skip_value s iv v) s.phis
      × (AtEntry v (skip_value s iv v) s.phis ↔ OneEntry v s.phis)
skip_value-AtEntry s iv v inside ne found =
    let same_value = skip_value-inside s iv v inside ne in
    let is : SomeEntry v (skip_value s iv v) s.phis =
      subst (λ x. SomeEntry v x s.phis) (sym same_value) (from_header-SomeEntry v s.phis v found) in
    (
      is,
      (
        λ at x y.
            subst (λ z. AtEntry v z s.phis) (sym (AtEntry-some v (skip_value s iv v) x s.phis at y))
              at,
        λ one. one (skip_value s iv v) is,
      ),
    )

-- ===== src/Unroll/Transplant/Match.antt =====
-- fablepass, `matchStepLoop` and the start of `transplantProbe`: which loops LLVM may have left in
-- the probe for it to be transplanted. Children: the step of such a loop (Steps), and of all of them
-- (Formed).
pub mod Steps
pub mod Formed
use spork_llvm.Base.{
  ℕ, zero, suc, ◌%◌, Bool, true, false, not, ◌&&◌, ◌||◌, List, [], ◌∷◌, if◌then◌else◌, ◌==◌, Option,
  none, some, u32_mod,
}
use spork_llvm.Unroll.Recognise.{check, bind, same, present, no_more}
use spork_llvm.Unroll.Probe.Measure.{ProbePhi, Recurrence, opaque, varying, by_steps}
use spork_llvm.Unroll.Transplant.Sink.{Use, plan_sink}

-- The compare of the exit: whether it has one use, and its operands.
pub record ExitCompare : Type 0 where
  pub one_use : Bool
  pub left : ℕ
  pub right : ℕ

-- A loop of the probe as `matchStepLoop` asks for it, blocks and values by number. `uses_of` are the
-- uses of a value with `Skip` the compare and `Exit` the exit; `stripped` is `stripIntegerCasts`.
pub record ProbeLoop : Type 0 where
  pub sub_loops : List ℕ
  pub simplify_form : Bool
  pub header : ℕ
  pub preheader : Option ℕ
  pub latch : Option ℕ
  pub exit : Option ℕ
  pub exiting : Option ℕ
  pub preheader_branch : Bool  -- unconditional
  pub latch_successors : Option (ℕ × ℕ)
  pub compare_of_latch : Option ExitCompare
  pub phis : List ProbePhi
  pub lanes : List ℕ
  pub stripped : ℕ → ℕ
  pub defined_in_loop : ℕ → Bool
  pub constant : ℕ → Bool
  pub uses_of : ℕ → List Use
  pub exit_phis : List (Option ℕ)  -- the latch inputs

-- The part of `StepLoop` that is found here.
pub record StepLoop : Type 0 where
  pub iv : ProbePhi
  pub limit : ℕ
  pub step : ℕ

-- The latch goes to the header and to the exit, in one order or the other.
abbrev pub header_or_exit : ℕ → Option ℕ → Option (ℕ × ℕ) → Bool
header_or_exit header exit none = false
header_or_exit header exit (some (s₀, s₁)) =
    if s₀ == header then same (some s₁) exit else (same (some s₀) exit && s₁ == header)

unfoldable pub step_shape : ProbeLoop → Bool
step_shape s =
    no_more s.sub_loops
    && s.simplify_form
    && present s.preheader
    && present s.latch
    && present s.exit
    && same s.exiting s.latch
    && s.preheader_branch
    && header_or_exit s.header s.exit s.latch_successors

-- What a header PHI is for the search of the induction.
pub data Counting : Type 0 where
  passed_over : Counting
  refused : Counting
  steps_by : ℕ → Counting

unfoldable pub judge_phi : ProbePhi → Counting
judge_phi phi = elim phi.bits [
  | none ↦ passed_over
  | some w ↦ (elim phi.recurrence [
    | opaque ↦ passed_over
    | varying ↦ refused
    | by_steps sign size ↦ if sign || (size == 0) then refused else steps_by size
  ])
]

-- The loop over the header PHIs, from the induction found so far, with the size of its step.
unfoldable pub scan_inductions :
    List ProbePhi → Option (ProbePhi × ℕ) → Option (Option (ProbePhi × ℕ))
unfolding judge_phi
scan_inductions [] found = some found
scan_inductions (phi ∷ phis) found = elim (judge_phi phi) [
  | passed_over ↦ scan_inductions phis found
  | refused ↦ none
  | steps_by size ↦ (elim found [ none ↦ scan_inductions phis (some (phi, size)) | some f ↦ none ])
]

-- The operand of the compare that is not the next induction; the right one is tried last and wins.
unfoldable pub limit_of : ProbeLoop → ExitCompare → (iv_next : ℕ) → Option ℕ
limit_of s c iv_next =
    if s.stripped c.right == iv_next
    then some c.left
    else if s.stripped c.left == iv_next
    then some c.right
    else none

abbrev pub from_header : ℕ → List ProbePhi → Bool
from_header v [] = false
from_header v (phi ∷ phis) = (phi.from_latch == v) || from_header v phis

unfoldable pub exit_values : ProbeLoop → (iv_next : ℕ) → List (Option ℕ) → Bool
exit_values s iv_next [] = true
exit_values s iv_next (none ∷ vs) = false
exit_values s iv_next (some v ∷ vs) =
    (not (s.defined_in_loop v) || (v == iv_next) || from_header v s.phis)
    && exit_values s iv_next vs

-- The checks from the exit compare on, for an induction with its step.
unfoldable pub match_exit : (fuel : ℕ) → ProbeLoop → ExitCompare → (ProbePhi × ℕ) → Option StepLoop
unfolding limit_of exit_values
match_exit fuel s c (phi, size) = bind (limit_of s c phi.from_latch) (λ limit.
    check
      (not (s.defined_in_loop limit)
        && not (s.constant limit)
        && present (plan_sink s.uses_of fuel (s.uses_of limit))
        && exit_values s phi.from_latch s.exit_phis)
      (some (record { iv = phi; limit = limit; step = size % u32_mod })))

-- The search of the induction and what follows it.
unfoldable pub match_found :
    (index_bits fuel : ℕ) → ProbeLoop → ExitCompare → (ProbePhi × ℕ) → Option StepLoop
unfolding match_exit
match_found index_bits fuel s c f =
    check (same f.0.bits (some index_bits) && not (f.1 % u32_mod == 0)) (match_exit fuel s c f)

unfoldable pub match_compared : (index_bits fuel : ℕ) → ProbeLoop → ExitCompare → Option StepLoop
unfolding scan_inductions match_found
match_compared index_bits fuel s c =
    check c.one_use
      (bind (scan_inductions s.phis none) (λ found. bind found (match_found index_bits fuel s c)))

unfoldable pub match_step_loop : (index_bits fuel : ℕ) → ProbeLoop → Option StepLoop
unfolding step_shape match_compared
match_step_loop index_bits fuel s =
    check (step_shape s) (bind s.compare_of_latch (match_compared index_bits fuel s))

-- The loop of `transplantProbe` over all loops of the probe; there must be one.
unfoldable pub match_loops : (index_bits fuel : ℕ) → List ProbeLoop → Option (List StepLoop)
unfolding match_step_loop
match_loops index_bits fuel [] = some []
match_loops index_bits fuel (s ∷ ss) =
    bind (match_step_loop index_bits fuel s)
      (λ m. bind (match_loops index_bits fuel ss) (λ ms. some (m ∷ ms)))

abbrev pub some_steps : List StepLoop → Option (List StepLoop)
some_steps [] = none
some_steps ms = some ms

unfoldable pub match_steps : (index_bits fuel : ℕ) → List ProbeLoop → Option (List StepLoop)
unfolding match_loops
match_steps index_bits fuel ss = bind (match_loops index_bits fuel ss) some_steps

-- ===== src/Checks/OnStepLoops.antt =====
-- The limit of a loop with its users, a probe with two loops, an exit PHI, and a chain of uses of the
-- snapshot.
use spork_llvm.Base.{
  ℕ, zero, suc, ◌<◌, ◌≤◌, List, [], ◌∷◌, some, none, ◌≡◌, ◌↔◌, Bool, true, false, refl, arith,
  if◌then◌else◌, ◌==◌, u32_mod, inl, inr, Bool-cases,
}
use spork_llvm.Unroll.Recognise.{check, bind}
use spork_llvm.Unroll.Marked.{is_in}
use spork_llvm.Unroll.Marked.Fuel.{Below}
use spork_llvm.Unroll.Probe.Measure.{ProbePhi, by_steps, opaque, least_step, probe_result}
use spork_llvm.Unroll.Probe.Measure.Largest.{AllLeast}
use spork_llvm.Unroll.Transplant.Sink.{Use, pure, not_instruction, effect, plan_sink}
use spork_llvm.Unroll.Transplant.Sink.Visits.{Numbers}
use spork_llvm.Unroll.Transplant.Sink.Planned.{Verdict, plan_sink-Verdict}
use spork_llvm.Unroll.Transplant.Match.{ProbeLoop, StepLoop, match_steps}
use spork_llvm.Unroll.Transplant.Match.Formed.{measured, AllSteps, AnyStep, match_steps-batch}
use spork_llvm.Unroll.Transplant.Snapshot.{snapshot_free}
use spork_llvm.Unroll.Transplant.Snapshot.Decided.{Depends, snapshot_free-Depends}
use spork_llvm.Unroll.Transplant.Skipped.{
  skip_value, AtEntry, SomeEntry, OneEntry, skip_value-AtEntry,
}

-- The limit is used by the pure instruction 0, which the pure instruction 1 uses; the use of 1 lies
-- behind the exit.
abbrev limit_uses : List Use
limit_uses =
    record { skipped = true; past_exit = false; user = not_instruction }
    ∷ record { skipped = false; past_exit = false; user = pure 0 }
    ∷ []

abbrev uses_behind : ℕ → List Use
uses_behind zero = record { skipped = false; past_exit = false; user = pure 1 } ∷ []
uses_behind (suc zero) = record { skipped = false; past_exit = true; user = effect } ∷ []
uses_behind (suc (suc n)) = []

behind_numbered : (v : ℕ) → Numbers (suc v) 2 (uses_behind v)
behind_numbered zero = (λ w e. (ground arith, ground arith), tt)
behind_numbered (suc zero) = (λ w e. absurd cc, tt)
behind_numbered (suc (suc n)) = tt

plan_sink-Verdict_example : Verdict uses_behind limit_uses (plan_sink uses_behind 2 limit_uses)
plan_sink-Verdict_example =
    plan_sink-Verdict uses_behind 2 2 limit_uses behind_numbered
      (λ w e. absurd cc, (λ w e. (ground arith, ground arith), tt)) (omega arith)

abbrev stepping_phi : ℕ → ProbePhi
stepping_phi k = record {
  bits = some 32;
  recurrence = by_steps false k;
  from_latch = 3;
  from_preheader = 4;
}

abbrev probe_of : ℕ → ProbeLoop
probe_of k = record {
  sub_loops = [];
  simplify_form = true;
  header = 1;
  preheader = some 0;
  latch = some 1;
  exit = some 2;
  exiting = some 1;
  preheader_branch = true;
  latch_successors = some (1, 2);
  compare_of_latch = some (record { one_use = true; left = 3; right = 9 });
  phis =
      stepping_phi k
      ∷ record { bits = none; recurrence = opaque; from_latch = 6; from_preheader = 5 }
      ∷ [];
  lanes = k ∷ [];
  stripped = λ v. v;
  defined_in_loop = λ v. if v == 3 then true else v == 6;
  constant = λ v. false;
  uses_of = λ v. [];
  exit_phis = some 3 ∷ some 6 ∷ [];
}

abbrev found_of : ℕ → StepLoop
found_of k = record { iv = stepping_phi k; limit = 9; step = k }

abbrev both_found : List StepLoop
both_found = found_of 8 ∷ found_of 1 ∷ []

abbrev two_probes : List ProbeLoop
two_probes = probe_of 8 ∷ probe_of 1 ∷ []

matched_steps : match_steps 32 1 two_probes ≡ some both_found
unfolding match_steps bind check plan_sink
matched_steps = refl

small_steps : AllLeast (λ m. m < u32_mod) (measured two_probes)
unfolding least_step
small_steps = (omega arith, (omega arith, tt))

capped_steps : AllLeast (λ m. m ≤ 64) (measured two_probes)
unfolding least_step
capped_steps = (omega arith, (omega arith, tt))

match_steps-batch_example :
    AllSteps (λ m. (1 ≤ m) × (m ≤ (probe_result 64 (measured two_probes)).largest)) both_found
    × AnyStep (λ m. (probe_result 64 (measured two_probes)).largest ≡ m) both_found
match_steps-batch_example =
    match_steps-batch 32 1 64 two_probes both_found (omega arith) small_steps capped_steps
      matched_steps

abbrev iv_phi : ProbePhi
iv_phi = stepping_phi 8

skip_value-AtEntry_example :
    SomeEntry 6 (skip_value (probe_of 8) iv_phi 6) (probe_of 8).phis
    × (AtEntry 6 (skip_value (probe_of 8) iv_phi 6) (probe_of 8).phis
        ↔ OneEntry 6 (probe_of 8).phis)
skip_value-AtEntry_example = skip_value-AtEntry (probe_of 8) iv_phi 6 refl refl refl

-- The bound 5 is used by the instruction 0, and that by the instruction 1.
abbrev bound_users : ℕ → List ℕ
bound_users n = if n == 5 then 0 ∷ [] else if n == 0 then 1 ∷ [] else []

few_users : (v : ℕ) → Below 2 (bound_users v)
few_users v = elim (Bool-cases (v == 5)) [
  | inl e ↦ rw e (omega arith, tt)
  | inr e ↦ elim (Bool-cases (v == 0)) [
    | inl d ↦ rw (e, d) (omega arith, tt)
    | inr d ↦ rw (e, d) tt
  ]
]

snapshot_free-Depends_example :
    (b : Bool) × (snapshot_free bound_users 4 5 (3 ∷ 4 ∷ []) ≡ some b)
    × ((b ≡ true) ↔ ((x : ℕ) → is_in x (3 ∷ 4 ∷ []) ≡ true → ¬ Depends bound_users 5 x))
snapshot_free-Depends_example =
    snapshot_free-Depends bound_users 2 4 5 (3 ∷ 4 ∷ []) few_users (omega arith)

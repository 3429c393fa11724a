-- ===== src/Checks/OnTransplant.antt =====
-- Two loops with the steps 4 and 1 in the place of a marked one.
use spork_llvm.Base.{ℕ, ◌-◌, ◌<◌, List, [], ◌∷◌, ◌++◌, ◌≡◌, ◌⊎◌, false, refl, arith}
use spork_llvm.Parfor.{rounds}
use spork_llvm.Parfor.Ends.{indices}
use spork_llvm.Parfor.Loop.{Reach}
use spork_llvm.Unroll.{ult}
use spork_llvm.Unroll.Guard.{batch_guard-exact}
use spork_llvm.Unroll.Transplant.{
  Stepping, header, exit, StepLoops, StepReach, called, moved, snap, take_loop, first_step,
}
use spork_llvm.Unroll.Transplant.Within.{as_written, transplant-within}
use spork_llvm.Unroll.Transplant.Ends.{step_measure, transplant-terminates}
use spork_llvm.Checks.OnParfor.{add}

abbrev two_steps : List ℕ
two_steps = 4 ∷ 1 ∷ []

abbrev run_rounds : ℕ → ℕ → ℕ → ℕ
run_rounds k i a = rounds add k i a

abbrev in_loop : Stepping ℕ
in_loop = record {
  place = header 4 (1 ∷ []);
  i = 0;
  a = 0;
  snapshot = 6;
  sig_safe_i = 0;
  loop_end = 6;
  promoted = false;
  left = record { i = 0; j = 0 };
  right = record { i = 0; j = 0 };
}

first_trip : StepReach run_rounds two_steps 4 7 8 0 6 0 in_loop
first_trip = moved (moved (moved called snap) take_loop) (
    first_step (
      (batch_guard-exact ult 4 0 6 (omega arith) (omega arith) (omega arith) (omega arith)).1
        (omega arith)))

transplant-within_example : Reach add 4 7 8 0 6 0 (as_written in_loop)
transplant-within_example =
    transplant-within add run_rounds two_steps 4 7 8 0 6 0 (omega arith) (omega arith) (omega arith)
      (omega arith) (omega arith, omega arith, refl) (λ k i a lo hi fit. refl) first_trip

transplant-terminates_example :
    ((t : Stepping ℕ)
      → StepLoops run_rounds two_steps 4 7 8 6 in_loop in_loop.place t
      → step_measure two_steps 6 t < step_measure two_steps 6 in_loop)
    × ((in_loop.place ≡ exit)
        ⊎ ((t : Stepping ℕ) × StepLoops run_rounds two_steps 4 7 8 6 in_loop in_loop.place t))
    × (in_loop.place ≡ exit
        → (in_loop.a ≡ rounds add (in_loop.i - 0) 0 0)
          × (indices 0 in_loop.i
                ++ indices in_loop.left.i in_loop.left.j
                ++ indices in_loop.right.i in_loop.right.j
              ≡ indices 0 6))
transplant-terminates_example =
    transplant-terminates add run_rounds two_steps 4 7 8 0 6 0 (omega arith) (omega arith)
      (omega arith) (omega arith) (omega arith, omega arith, refl) (λ k i a lo hi fit. refl)
      first_trip

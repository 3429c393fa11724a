-- ===== src/Checks/OnParfor.antt =====
-- `parfor_` adds the indices 0, 1 and 2 to 5: a promotion leaves 1 and 2 to one job each.
use spork_llvm.Base.{ℕ, ◌+◌, ◌<◌, ◌∷◌, [], true, false, ◌≡◌, ◌⊎◌, inl, refl, arith, u32_mod, add32}
use spork_llvm.Parfor.{Monoid, IsMonoid, seqfor, rounds, prom, midpoint}
use spork_llvm.Parfor.Loop.{
  Loop, exited, test, Step, enter, leave, run, store, interrupt, Reach, here, next, start,
}
use spork_llvm.Parfor.Ends.{measure, loop-terminates}
use spork_llvm.Parfor.Runs.{Exec, exec, join}
use spork_llvm.Parfor.Correct.{IsReduction, parfor-seqfor}
use spork_llvm.Parfor.Total.{Finishes, parfor-total}
use spork_llvm.Parfor.Reversed.{reversed-runs}
use spork_llvm.Parfor.Loop.{publish}
use spork_llvm.Parfor.Dispatch.{Segment, body_of, segments, RunsAt, narrow-seqfor, wide-overlaps}

abbrev pub plus : Monoid ℕ
plus = record { identity = 0; op = ◌+◌ }

pub plus-IsMonoid : IsMonoid plus
plus-IsMonoid = record {
  left_id = λ a. omega arith;
  right_id = λ a. omega arith;
  assoc = λ a b c. omega arith;
}

abbrev pub add : ℕ → ℕ → ℕ
add k a = a + k

add-IsReduction : IsReduction plus add
add-IsReduction = λ k a b. omega arith

-- The loop has run round 0 when the promotion falls.
abbrev cut : Loop ℕ
cut = record {
  pc = exited;
  i = 1;
  a = 5;
  sig_safe_i = 1;
  loop_end = 1;
  promoted = true;
  left = record { i = 1; j = 2 };
  right = record { i = 2; j = 3 };
}

first_round : Reach add 1 7 8 0 3 5 record {
  pc = test;
  i = 0;
  a = 5;
  sig_safe_i = 0;
  loop_end = 1;
  promoted = true;
  left = record { i = 1; j = 2 };
  right = record { i = 2; j = 3 };
}
unfolding prom midpoint
first_round = next here (interrupt test refl)

cut_state : Reach add 1 7 8 0 3 5 cut
unfolding rounds
cut_state =
    next
      (next (next (next first_round (enter 1 (omega arith) (omega arith) (omega arith))) (run 1))
        store)
      (leave (omega arith))

abbrev one : ℕ → Loop ℕ
one i = record {
  pc = exited;
  i = add32 i 1;
  a = 0 + i;
  sig_safe_i = add32 i 1;
  loop_end = i + 1;
  promoted = false;
  left = record { i = 0; j = 0 };
  right = record { i = 0; j = 0 };
}

one_run : (i : ℕ) → i + 1 < u32_mod → Exec plus add 1 i (i + 1) 0 (0 + i)
unfolding join rounds
one_run i h =
    exec {i = i} {j = i + 1} {a = 0} 7 8 (one i) 0 0
      (next
        (next (next (next here (enter 1 (omega arith) (omega arith) (omega arith))) (run 1)) store)
        (leave (omega arith)))
      refl (λ lt. absurd (omega arith)) (λ lt. absurd (omega arith))

whole_run : Exec plus add 1 0 3 5 8
unfolding join
whole_run =
    exec 7 8 cut 1 2 cut_state refl (λ _. one_run 1 (omega arith)) (λ _. one_run 2 (omega arith))

parfor-seqfor_example : 8 ≡ 5 + seqfor plus add 0 3
parfor-seqfor_example =
    parfor-seqfor plus plus-IsMonoid add add-IsReduction 1 (omega arith) (omega arith) {i = 0}
      {j = 3} {a = 5} {b = 8} (omega arith) (omega arith) whole_run

parfor-total_example :
    Finishes plus add 1 7 8 (omega arith) (omega arith) 0 3
    × ((a : ℕ) (s : Loop ℕ)
        → Reach add 1 7 8 0 3 a s
        → s.pc ≡ exited
        → (la : ℕ) × (ra : ℕ) × Exec plus add 1 0 3 a (join plus s la ra))
parfor-total_example =
    parfor-total plus add 1 7 8 (omega arith) (omega arith) 0 3 (omega arith) (omega arith)

loop-terminates_example :
    ((t : Loop ℕ)
      → Step add 1 7 8 3 (start 0 3 5) test t
      → measure {A = ℕ} 3 t < measure {A = ℕ} 3 (start 0 3 5))
    × ((test ≡ exited) ⊎ ((t : Loop ℕ) × Step add 1 7 8 3 (start 0 3 5) test t))
loop-terminates_example =
    loop-terminates add 1 7 8 0 3 5 (omega arith) (omega arith) (omega arith) (omega arith) here

narrow-seqfor_example :
    (s : Segment) × (segments 5 8 ≡ s ∷ [])
    × ((a b : ℕ) → Exec plus (body_of add s) 1 s.first s.last a b → b ≡ a + seqfor plus add 5 8)
narrow-seqfor_example =
    narrow-seqfor plus plus-IsMonoid add 1 5 8 add-IsReduction (omega arith) (omega arith)
      (omega arith) (omega arith) (inl (omega arith))

wide-overlaps_example :
    (b : ℕ) × (c : ℕ) × (index : ℕ) × (b < c)
    × RunsAt 5 0x200000005 b index
    × RunsAt 5 0x200000005 c index
wide-overlaps_example = wide-overlaps 5 0x200000005 (omega arith) (omega arith) (omega arith)

reversed-runs_example :
    (seqfor plus add 5 3 ≡ 0)
    × ((s : Loop ℕ) × Reach add 1 7 8 5 3 2 s × (s.pc ≡ publish) × (s.a ≡ 7))
reversed-runs_example =
    reversed-runs plus add 1 7 8 5 3 (omega arith) 2 (omega arith) (omega arith) (omega arith)

-- ===== src/Checks/OnUnroll.antt =====
-- Guards at the limits, a widened value, a batch of two rounds, and a site with two markers.
use spork_llvm.Base.{
  ◌-◌, ◌++◌, ℕ, ◌+◌, ◌≤◌, ◌<◌, List, [], ◌∷◌, Option, some, ◌≡◌, ◌↔◌, ◌⊎◌, true, false, refl, arith,
  u32_mod,
}
use spork_llvm.Parfor.Loop.{Reach}
use spork_llvm.Unroll.{
  i32, i64, int, zext, ValueType, Value, instruction, cast, CastStep, ult, slt, key, capture,
  replay, strip_integer_casts, batch_guard,
}
use spork_llvm.Unroll.Guard.{plain, truncated, batch_guard-exact, batch_guard-overshoots}
use spork_llvm.Unroll.Casts.{replay-capture}
use spork_llvm.Unroll.Batched.{
  BatchStep, exit, Batched, batch_latch, inner_loop, BatchReach, entered, then_, fits, run_batch,
}
use spork_llvm.Unroll.Batched.Protocol.{as_loop}
use spork_llvm.Unroll.Batched.Ends.{batch_measure, batched-terminates}
use spork_llvm.Parfor.{rounds}
use spork_llvm.Parfor.Ends.{indices}
use spork_llvm.Unroll.Sites.{Marker, factor_of, rewritten}
use spork_llvm.Unroll.Sites.Rewritten.{site_plans}
use spork_llvm.Unroll.Sites.Factors.{SiteBatched, factor_of-SiteBatched}
use spork_llvm.Checks.OnParfor.{add}

batch_guard-exact_example :
    (batch_guard (plain slt) 4 0xFFFFFFFE 2 ≡ true) ↔ (key slt i32 0xFFFFFFFE + 4 ≤ key slt i32 2)
batch_guard-exact_example =
    batch_guard-exact slt 4 0xFFFFFFFE 2 (omega arith) (omega arith) (omega arith) (omega arith)

batch_guard-overshoots_example :
    (base : ℕ) × (bound : ℕ) × (base < u32_mod)
    × (bound < u32_mod)
    × (base + 1 ≡ bound)
    × (batch_guard truncated 8 base bound ≡ true)
batch_guard-overshoots_example = batch_guard-overshoots 8 (omega arith) (omega arith)

abbrev extended : Value
extended = cast zext (int i32) (int i64) (instruction 7 (int i32))

abbrev extension : List CastStep
extension = record { op = zext; dest = i64 } ∷ []

captured : capture extended 7 [] ≡ some extension
unfolding capture
captured = refl

replay-capture_example :
    (t : ValueType) × (strip_integer_casts extended ≡ instruction 7 t)
    × (replay extension (instruction 7 t) ≡ extended)
replay-capture_example = replay-capture extended 7 extension (refl, tt) captured

abbrev after_batch : Batched ℕ
after_batch = record {
  block = batch_latch;
  i = (inner_loop add 2 2 0 0 5).0;
  a = (inner_loop add 2 2 0 0 5).1;
  sig_safe_i = 0;
  loop_end = 5;
  promoted = false;
  left = record { i = 0; j = 0 };
  right = record { i = 0; j = 0 };
}

first_batch : BatchReach add 2 7 8 0 5 5 after_batch
first_batch =
    then_
      (then_ entered (
        fits (
          (batch_guard-exact ult 2 0 5 (omega arith) (omega arith) (omega arith) (omega arith)).1
            (omega arith))))
      run_batch

batched-terminates_example :
    Reach add 2 7 8 0 5 5 (as_loop 2 after_batch)
    × ((t : Batched ℕ)
        → BatchStep add 2 7 8 5 after_batch after_batch.block t
        → batch_measure 5 t < batch_measure 5 after_batch)
    × ((after_batch.block ≡ exit)
        ⊎ ((t : Batched ℕ) × BatchStep add 2 7 8 5 after_batch after_batch.block t))
    × (after_batch.block ≡ exit
        → (after_batch.a ≡ rounds add (after_batch.i - 0) 0 5)
          × (indices 0 after_batch.i
                ++ indices after_batch.left.i after_batch.left.j
                ++ indices after_batch.right.i after_batch.right.j
              ≡ indices 0 5))
batched-terminates_example =
    batched-terminates add 2 7 8 0 5 5 (omega arith) (omega arith) (omega arith) (omega arith)
      first_batch

abbrev one_loop : ℕ → Marker
one_loop b = record {
  opt_none = false;
  loops = some (some (record { progress_ptr = 3; batch = b }) ∷ []);
}

abbrev two_sites : List (Option ℕ × Marker)
two_sites =
    (some 1, one_loop 16) ∷ (some 2, one_loop 8) ∷ (some 1, one_loop 16) ∷ (some 2, one_loop 4) ∷ []

factor_of-SiteBatched_example :
    ((rewritten two_sites 1 ≡ []) × (factor_of two_sites (some 1) ≡ 1))
    ⊎ (SiteBatched 1 (factor_of two_sites (some 1)) two_sites
        × (rewritten two_sites 1 ≡ site_plans 1 two_sites))
factor_of-SiteBatched_example = factor_of-SiteBatched two_sites 1

two_factors : (factor_of two_sites (some 1) ≡ 16) × (factor_of two_sites (some 2) ≡ 1)
unfolding factor_of
two_factors = (refl, refl)

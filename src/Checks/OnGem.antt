-- ===== src/Checks/OnGem.antt =====
-- Two markers of one site and one of another, a loop that LLVM would unroll eight times, and the
-- batched loop over four indices.
use spork_llvm.Base.{
  ℕ, ◌+◌, ◌*◌, ◌-◌, ◌%◌, ◌≡◌, ◌≢◌, ◌≤◌, List, [], ◌∷◌, some, true, false, refl, arith, u32_mod,
}
use spork_llvm.Parfor.{rounds}
use spork_llvm.Parfor.Loop.{Reach}
use spork_llvm.Unroll.Batched.{BatchReach}
use spork_llvm.Unroll.Batched.Protocol.{as_loop}
use spork_llvm.Unroll.Recognise.{check}
use spork_llvm.Gem.Guard.{gem_guard}
use spork_llvm.Gem.Driver.{
  GemMarker, partially_unrolled, marker_count, gem_factor_of, transform, marker_factor,
  insert_factor, find_factor, batched_by,
}
use spork_llvm.Gem.Decide.{
  LoopFacts, Decision, trip_count, multiple_of, decide_count, settle_count, native_unroll_decision,
}
use spork_llvm.Gem.Decide.Bounds.{NoneKnown, native_unroll_decision-bounds}
use spork_llvm.Gem.Batched.{clones, exit, GemLoop, enter_gem, enter_batch, GemReach, begun, stepped}
use spork_llvm.Gem.Batched.Refines.{as_batched, gem-within}
use spork_llvm.Gem.Batched.Run.{Arrives}
use spork_llvm.Gem.Batched.Ends.{run_gem-Arrives}

abbrev by_eight : GemMarker
by_eight = record {
  token = some 5;
  supported = true;
  decision = some 8;
  cleanup = true;
  unroll = partially_unrolled;
  formed = true;
}

abbrev markers : List GemMarker
markers = by_eight ∷ record by_eight { token = some 6 } ∷ record by_eight { token = some 6 } ∷ []

factors : (gem_factor_of markers (some 5) ≡ 8) × (gem_factor_of markers (some 6) ≡ 1)
unfolding gem_factor_of transform marker_factor insert_factor find_factor marker_count batched_by
factors = (refl, refl)

abbrev pub eight_times : LoopFacts
eight_times = record {
  simplify_form = true;
  lcssa_form = true;
  threshold = 300;
  partial = true;
  partial_threshold = 150;
  can_unroll = true;
  inline_candidates = 0;
  trip_counts = 0 ∷ [];
  latch = some 1;
  latch_exits = true;
  exiting = some 1;
  trip_multiple = λ b. 1;
  allow_remainder = true;
  convergence_allows_runtime = true;
  max_trip_count = 6;
  max_or_zero = false;
  compute_unroll_count =
      λ trip most zero multiple rest. record { count = 8; peel_count = 0; runtime = true };
}

abbrev six_times : Decision
six_times = record { count = 6; allow_remainder = true; runtime = true }

decided : native_unroll_decision eight_times ≡ some six_times
unfolding native_unroll_decision trip_count multiple_of decide_count settle_count check
decided = refl

native_unroll_decision-bounds_example :
    (2 ≤ six_times.count)
    × (NoneKnown eight_times.trip_counts → ◌≢◌ {A = ℕ} 6 0 → six_times.count ≤ 6)
    × (six_times.runtime ≡ true
        → NoneKnown eight_times.trip_counts × (multiple_of eight_times 0 % 6 ≢ 0))
native_unroll_decision-bounds_example = native_unroll_decision-bounds eight_times six_times decided

abbrev sum_body : ℕ → ℕ → ℕ
sum_body i a = (a + i) % u32_mod

abbrev in_clones : GemLoop ℕ
in_clones = record (enter_gem 0 4 0) { block = clones }

entered_clones : GemReach sum_body 2 10 11 0 4 0 in_clones
unfolding gem_guard
entered_clones = stepped begun (enter_batch refl)

gem-within_example :
    BatchReach sum_body 2 10 11 0 4 0 (as_batched in_clones)
    × Reach sum_body 2 10 11 0 4 0 (as_loop 2 (as_batched in_clones))
gem-within_example =
    gem-within sum_body 2 10 11 0 4 0 (omega arith) (omega arith) (omega arith) (omega arith)
      (omega arith) entered_clones

run_gem-Arrives_example :
    (t : GemLoop ℕ) × (t ≡ record (enter_gem 0 4 0) {
      block = exit;
      i = 4;
      a = rounds sum_body (4 - 0) 0 0;
      sig_safe_i = 4;
    })
    × Arrives sum_body 2 (2 + 3 * (4 - 0)) (enter_gem 0 4 0) t
    × GemReach sum_body 2 10 11 0 4 0 t
run_gem-Arrives_example =
    run_gem-Arrives sum_body 2 10 11 0 4 0 (omega arith) (omega arith) (omega arith) (omega arith)

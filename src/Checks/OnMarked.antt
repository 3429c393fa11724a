-- ===== src/Checks/OnMarked.antt =====
-- A marker in block 0, a bridge 1, and a loop with the header 2 behind it.
use spork_llvm.Base.{
  ℕ, ◌+◌, ◌≤◌, Option, arith, Bool-cases, inl, inr, List, [], ◌∷◌, none, some, ◌≡◌, ◌≢◌, refl, true,
  false, if◌then◌else◌, ◌==◌,
}
use spork_llvm.Unroll.Recognise.{check, bind}
use spork_llvm.Unroll.Marked.{
  Blocks, find_marked_loops, walk_blocks, visit_all, visit_one, visit_bridge, visit_loop,
}
use spork_llvm.Unroll.Marked.Fuel.{Below, find_marked_loops-enough}
use spork_llvm.Unroll.Marked.Denoted.{AllDenoted, find_marked_loops-Denoted}

abbrev bridged_loop : Blocks
bridged_loop = record {
  successors = λ n. if n == 0 then 1 ∷ [] else if n == 1 then 2 ∷ 3 ∷ [] else [];
  loop_for = λ n. if n == 2 then some 5 else none;
  header = λ l. 2;
  parent_loop = λ l. none;
  loop_preheader = λ l. some 1;
  contains = λ l k. false;
  barrier = λ n. if n == 3 then true else false;
}

abbrev the_loop : List ℕ
the_loop = 5 ∷ []

found : find_marked_loops 9 bridged_loop 0 ≡ some (some the_loop)
unfolding find_marked_loops walk_blocks visit_all visit_one visit_bridge visit_loop check bind
found = refl

find_marked_loops-Denoted_example : AllDenoted bridged_loop 0 the_loop × (the_loop ≢ [])
find_marked_loops-Denoted_example = find_marked_loops-Denoted bridged_loop 0 9 the_loop found

few_blocks : (s : ℕ) → Below 4 (bridged_loop.successors s)
few_blocks s = elim (Bool-cases (s == 0)) [
  | inl e ↦ rw e (omega arith)
  | inr e ↦ elim (Bool-cases (s == 1)) [
    | inl d ↦ rw (e, d) (omega arith, (omega arith, tt))
    | inr d ↦ rw (e, d) tt
  ]
]

find_marked_loops-enough_example :
    (r : Option (List ℕ)) × ((fuel : ℕ)
      → 4 + 2 ≤ fuel
      → find_marked_loops fuel bridged_loop 0 ≡ some r)
find_marked_loops-enough_example = find_marked_loops-enough bridged_loop 0 4 few_blocks

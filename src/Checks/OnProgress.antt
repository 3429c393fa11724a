-- ===== src/Checks/OnProgress.antt =====
-- gempass on the loop of `parfor_` at `int`: one block, numbered 1, with a call-free body.
use spork_llvm.Base.{
  ℕ, ◌+◌, Bool-cases, inl, inr, ap, sym, ◌∙◌, ◌≡◌, ◌≤◌, List, [], ◌∷◌, map, none, some, true, false,
  refl, arith, ◌==◌, if◌then◌else◌,
}
use spork_llvm.Unroll.{i32, int, instruction, slt, strip_integer_casts}
use spork_llvm.Unroll.Recognise.{
  Load, Store, load, store, plain, Instr, check, bind, volatile_stores,
}
use spork_llvm.Unroll.Recognise.Match.{bound_root, unread}
use spork_llvm.Unroll.Recognise.Follows.{some_inj}
use spork_llvm.Gem.Decide.{
  has_unbounded_work, any_call, native_unroll_decision, trip_count, multiple_of, decide_count,
  settle_count,
}
use spork_llvm.Gem.Driver.{
  partially_unrolled, marker_count, gem_factor_of, transform, marker_factor, insert_factor,
  find_factor, batched_by,
}
use spork_llvm.Gem.Marker.{Bridges, find_marked_loop, consider, cross, consider_all}
use spork_llvm.Gem.Progress.{
  Pointer, alloca, pointer_cast, loaded, resolve_alloca, Node, load_node, instr_node, leaf, value,
  constant, GemCompare, GemShape, GemProgress, visit_node, collect_next, collect,
  collect_dependent_loads, volatile_loads, find_exit_test, find_slots, find_store, find_progress_of,
  find_progress_store, match_exit_condition, unit_stride, clone_cleanup_loop,
}
use spork_llvm.Gem.Progress.Slot.{PointerMemory, address}
use spork_llvm.Gem.Progress.Built.{Replays, find_progress_store-Replays}
use spork_llvm.Gem.Progress.Collect.{LoadsOf, collect_dependent_loads-LoadsOf}
use spork_llvm.Gem.Form.{
  Clone, MainLoop, in_chain, checked_clones, final_values, has_phi, can_form, GemSite, gem_marker,
}
use spork_llvm.Gem.Form.Passed.{AllPassed, gem_factor_of-AllPassed}
use spork_llvm.Checks.OnGem.{eight_times}

abbrev end_load : Load
end_load = record { id = 2; volatile = true; atomic = false; integer = true; ptr = 20 }

abbrev index_store : Store
index_store = record {
  id = 3;
  volatile = true;
  atomic = false;
  value = instruction 1 (int i32);
  ptr = 30;
}

-- The next index 1 is the PHI 0 plus one, the bound is the load 2, and the compare is 4.
abbrev dependences : List Node
dependences =
    instr_node (1 ∷ 5 ∷ [])
    ∷ instr_node (0 ∷ 5 ∷ [])
    ∷ load_node end_load
    ∷ leaf
    ∷ instr_node (1 ∷ 2 ∷ [])
    ∷ leaf
    ∷ []

abbrev exit_compare : GemCompare
exit_compare = record {
  id = 4;
  one_use = true;
  predicate = some slt;
  lhs = instruction 1 (int i32);
  rhs = instruction 2 (int i32);
}

abbrev loop_code : List Instr
loop_code =
    record { kind = plain; may_throw = false }
    ∷ record { kind = store index_store; may_throw = false }
    ∷ record { kind = load end_load; may_throw = false }
    ∷ []

-- The bound is reached by a pointer that stands in the slot 20 itself.
abbrev by_pointer : ℕ → Pointer
by_pointer n = if n == 20 then loaded (alloca 20) else pointer_cast (alloca n)

abbrev index_loop : GemShape
index_loop = record {
  latch = some 1;
  induction = some 0;
  next = some (instruction 1 (int i32));
  latch_code = loop_code;
  compare = some exit_compare;
  nodes = dependences;
  pointer = by_pointer;
  slot_loads = λ n. record { in_loop = false; dominates_marker = true } ∷ [];
  one_use = λ v. true;
  load_of = λ n. if n == 2 then some end_load else none;
  block_count = 1;
  header = 1;
  preheader = some 0;
  exit = some 2;
  exit_phis = [];
  preheader_branch = true;
  increment = some (value (instruction 0 (int i32)), constant 1);
}

abbrev the_progress : GemProgress
the_progress = record {
  progress = index_store;
  slot = 30;
  bound_slot = 20;
  bound_load = end_load;
  phi = 0;
  next = instruction 1 (int i32);
  predicate = slt;
  lhs = instruction 1 (int i32);
  rhs = instruction 2 (int i32);
}

progress_found : find_progress_store index_loop ≡ some the_progress
unfolding find_progress_store find_progress_of check bind find_store volatile_stores
    strip_integer_casts find_exit_test collect_dependent_loads collect collect_next visit_node
    volatile_loads find_slots resolve_alloca unread
progress_found = refl

condition_matched : match_exit_condition index_loop (some exit_compare) 20 slt ≡ some end_load
unfolding match_exit_condition check bind bound_root resolve_alloca
condition_matched = refl

-- The slot 20 holds the address 900.
abbrev some_pointers : PointerMemory
some_pointers = record {
  frame = λ n. 100 + n;
  cell = λ a. if a == 120 then 900 else a;
  displacement = λ p. 8;
  elsewhere = λ n. n;
}

-- The guard reads the slot, and the loop another cell.
read_elsewhere : address some_pointers (by_pointer 20) ≡ 900
read_elsewhere = refl

own_number : (n : ℕ) (l : Load) → index_loop.load_of n ≡ some l → l.id ≡ n
own_number n l e = elim (Bool-cases (n == 2)) [
  | inl q ↦
      let e' = rw q at e in
      let z : end_load ≡ l = some_inj end_load l e' in ap (λ x. x.id) (sym z) ∙ ground arith
  | inr q ↦ let e' = rw q at e in absurd cc
]

find_progress_store-Replays_example :
    Replays the_progress.lhs 1 × Replays the_progress.rhs the_progress.bound_load.id
find_progress_store-Replays_example =
    find_progress_store-Replays index_loop the_progress 1 (int i32) progress_found refl
      condition_matched own_number

collect_dependent_loads-LoadsOf_example :
    (loads : List Load) × (collect_dependent_loads dependences 4 ≡ some loads)
    × LoadsOf dependences 4 loads
collect_dependent_loads-LoadsOf_example = collect_dependent_loads-LoadsOf dependences 4

-- The marker stands in block 0, which branches to the loop's preheader 7 and behind the loop.
abbrev one_loop : Bridges
one_loop = record {
  blocks = record {
    successors = λ n. if n == 0 then 7 ∷ 2 ∷ [] else [];
    loop_for = λ n. if n == 1 then some 1 else none;
    header = λ l. 1;
    parent_loop = λ l. none;
    loop_preheader = λ l. some 7;
    contains = λ l k. false;
    barrier = λ n. false;
  };
  bridge = λ n. if n == 7 then some 1 else none;
}

loop_found : find_marked_loop one_loop 0 ≡ some 1
unfolding find_marked_loop consider_all consider cross bind
loop_found = refl

abbrev behind_marker : List ℕ
behind_marker = 7 ∷ 2 ∷ []

abbrev clone : ℕ → Clone
clone n = record {
  id = n;
  branch = some exit_compare;
  first_in_loop = true;
  second_in_loop = false;
}

abbrev six_clones : MainLoop
six_clones = record {
  preheader = some 7;
  stores = clone 0 ∷ clone 1 ∷ clone 2 ∷ clone 3 ∷ clone 4 ∷ clone 5 ∷ [];
  comes_before = λ a b. (a + 1) == b;
  phis = (0, some 1) ∷ [];
}

abbrev the_site : GemSite
the_site = record {
  token = some 5;
  marker_block = 0;
  bridges = one_loop;
  shape = λ l. index_loop;
  sub_loops = λ l. [];
  code = λ l. loop_code;
  facts = λ l. eight_times;
  unroll = λ l count. partially_unrolled;
  main_loop = λ l count. six_clones;
}

abbrev one_site : List GemSite
one_site = the_site ∷ []

told_six : 2 ≤ gem_factor_of (map gem_marker one_site) (some 5)
unfolding gem_factor_of transform marker_factor insert_factor find_factor marker_count batched_by
    gem_marker find_marked_loop consider_all consider cross find_progress_store find_progress_of
    check bind find_store volatile_stores strip_integer_casts find_exit_test collect_dependent_loads
    collect collect_next visit_node volatile_loads find_slots resolve_alloca unread
    native_unroll_decision trip_count multiple_of decide_count settle_count has_unbounded_work
    any_call clone_cleanup_loop unit_stride can_form in_chain checked_clones final_values has_phi
    match_exit_condition bound_root
told_six = omega arith

gem_factor_of-AllPassed_example :
    AllPassed
      (map gem_marker one_site)
      5
      (gem_factor_of (map gem_marker one_site) (some 5))
      one_site
gem_factor_of-AllPassed_example = gem_factor_of-AllPassed one_site 5 told_six

-- ===== src/Checks/OnRecognise.antt =====
-- The loop of `parfor_` at `int`, as LLVM hands it to the pass: one block with a call-free body.
use spork_llvm.Base.{true, false, List, [], ◌∷◌, none, some, ◌≡◌, refl, sym, if◌then◌else◌, ◌==◌}
use spork_llvm.Unroll.{i32, int, Value, instruction, slt, strip_integer_casts, capture}
use spork_llvm.Unroll.Recognise.{
  Load, Store, load, store, plain, call, assume_like, Instr, LoopShape, Matched, Compare, check,
  bind, match_shape, match_induction, match_phis, match_progress, volatile_stores, is_walk_barrier,
  is_harmless_call,
}
use spork_llvm.Unroll.Casts.{IsTyped}
use spork_llvm.Unroll.Recognise.Match.{
  match_loop_protocol, match_bound, match_exit_test, match_slots, match_body, match_exit_phis,
  bound_root, find_load, unread, is_latch_val,
}
use spork_llvm.Unroll.Recognise.Follows.{some_inj, Follows, match_loop_protocol-Follows}

abbrev next_index : Value
next_index = instruction 1 (int i32)

abbrev bound_load : Load
bound_load = record { id = 2; volatile = true; atomic = false; integer = true; ptr = 20 }

abbrev progress_store : Store
progress_store = record { id = 3; volatile = true; atomic = false; value = next_index; ptr = 30 }

abbrev block_code : List Instr
block_code =
    record {
      kind = load (record { id = 9; volatile = false; atomic = false; integer = true; ptr = 40 });
      may_throw = false;
    }
    ∷ record { kind = plain; may_throw = false }
    ∷ record { kind = store progress_store; may_throw = false }
    ∷ record { kind = load bound_load; may_throw = false }
    ∷ []

abbrev sum_loop : LoopShape
sum_loop = record {
  simplify_form = true;
  lcssa_form = true;
  sub_loops = [];
  header = 1;
  preheader = some 0;
  latch = some 1;
  exit = some 2;
  exiting = some 1;
  preheader_branch = true;
  latch_successors = some (1, 2);
  induction =
      some (record { integer = true; step = some 1; next = next_index; next_in_loop = true });
  phis = record { init = some 50; latch_val = some 1 } ∷ [];
  latch_code = block_code;
  code = block_code;
  compare = some (record {
    one_use = true;
    predicate = some slt;
    lhs = next_index;
    rhs = instruction 2 (int i32);
  });
  one_use = λ v. true;
  defined_in_loop = λ n. if n == 1 then true else false;
  resolved_alloca = λ n. some n;
  slot_loads = λ n. record { in_loop = false; dominates_marker = true } ∷ [];
  exit_phis = some 1 ∷ [];
}

abbrev sum_match : Matched
sum_match = record {
  next = 1;
  progress = progress_store;
  progress_casts = [];
  predicate = slt;
  next_casts = [];
  bound = bound_load;
  bound_casts = [];
}

accepted : match_loop_protocol sum_loop ≡ some sum_match
unfolding match_loop_protocol check bind match_shape match_induction match_phis match_progress
    volatile_stores strip_integer_casts capture match_exit_test match_bound bound_root find_load
    match_slots unread match_body match_exit_phis is_latch_val
accepted = refl

-- A second volatile store in the latch.
rejected :
    match_loop_protocol (record sum_loop {
      latch_code = record { kind = store progress_store; may_throw = false } ∷ block_code;
    })
    ≡ none
unfolding match_loop_protocol check bind match_shape match_induction match_phis match_progress
    volatile_stores
rejected = refl

barriers :
    (is_walk_barrier (record { kind = call assume_like; may_throw = false } ∷ []) ≡ false)
    × (is_walk_barrier block_code ≡ true)
unfolding is_walk_barrier is_harmless_call
barriers = (refl, refl)

typed : (c : Compare) → sum_loop.compare ≡ some c → IsTyped c.lhs × IsTyped c.rhs
typed c e = let q = some_inj _ c e in rw (sym q) (tt, tt)

match_loop_protocol-Follows_example : Follows sum_loop sum_match
match_loop_protocol-Follows_example =
    match_loop_protocol-Follows sum_loop sum_match accepted tt typed

-- ===== src/Gem/Batched/Refines.antt =====
-- gempass, the batched loop: it does what fablepass's does.
use spork_llvm.Base.{
  ℕ, zero, suc, ◌+◌, ◌<◌, ◌≤◌, true, false, ◌≡◌, refl, sym, ◌∙◌, arith, u32_mod, add32, ltb, lt→ltb,
  le→ltb, ◌^◌,
}
use spork_llvm.Parfor.Loop.{Reach}
use spork_llvm.Unroll.{ult, batch_guard}
use spork_llvm.Unroll.Guard.{plain}
use spork_llvm.Unroll.Batched.{
  Block, batch_header, inner, batch_latch, Batched, BatchReach, inner_loop, fits, clean_up,
  run_batch, store_batch, one_left, none_left, run_one, store_one, again, stop, interrupt_batch,
  entered, then_,
}
use spork_llvm.Unroll.Batched.Protocol.{as_loop, batched-within}
use spork_llvm.Gem.Guard.{gem_guard, gem_guard-batch_guard}
use spork_llvm.Gem.Batched.{
  GemBlock, entry, clones, final_store, final_test, cleanup_preheader, cleanup_header,
  cleanup_store, cleanup_test, exit, GemLoop, run_clones, GemStep, enter_batch, skip_batch, run_all,
  store_last, next_batch, last_batch, some_left, all_done, run_scalar, store_scalar, go_on,
  leave_loop, promote_at, GemReach, begun, stepped,
}

-- The block of the other loop: its header is the entry and the final test of this one.
abbrev pub block_of : GemBlock → Block
block_of entry = batch_header
block_of clones = inner
block_of final_store = batch_latch
block_of final_test = batch_header
block_of cleanup_preheader = Block.cleanup_preheader
block_of cleanup_header = Block.cleanup_header
block_of cleanup_store = Block.cleanup_store
block_of cleanup_test = Block.cleanup_test
block_of exit = Block.exit

abbrev pub as_batched : {A : Type 0} → GemLoop A → Batched A
as_batched s = record {
  block = block_of s.block;
  i = s.i;
  a = s.a;
  sig_safe_i = s.sig_safe_i;
  loop_end = s.loop_end;
  promoted = s.promoted;
  left = s.left;
  right = s.right;
}

inner_loop-clones :
    {A : Type 0} (body : ℕ → A → A) (k fuel counter i : ℕ) (a : A)
    → counter + suc fuel ≡ k
    → inner_loop body k (suc fuel) counter i a ≡ run_clones body (suc fuel) i a
unfolding inner_loop run_clones
inner_loop-clones body k zero counter i a h =
    let e : ltb (counter + 1) k ≡ false = le→ltb _ _ (omega arith) in rw (e, inner_loop) refl
inner_loop-clones body k (suc fuel) counter i a h =
    let e : ltb (counter + 1) k ≡ true = lt→ltb _ _ (omega arith) in
    more e ∙ inner_loop-clones body k fuel (counter + 1) (add32 i 1) (body i a) (omega arith)
  where
    more :
        ltb (counter + 1) k ≡ true
        → inner_loop body k (suc (suc fuel)) counter i a
          ≡ inner_loop body k (suc fuel) (counter + 1) (add32 i 1) (body i a)
    more e = rw (e, inner_loop) refl

-- The straight line of the clones computes what the inner loop of the other pass does.
pub run_clones-inner_loop :
    {A : Type 0} (body : ℕ → A → A) (k i : ℕ) (a : A)
    → 1 ≤ k
    → run_clones body k i a ≡ inner_loop body k k 0 i a
run_clones-inner_loop body zero i a h = absurd (omega arith)
run_clones-inner_loop body (suc k) i a h =
    sym (inner_loop-clones body (suc k) k 0 i a (omega arith))

clones-fits :
    {A : Type 0} (body : ℕ → A → A) (k i : ℕ) (a : A)
    → i < u32_mod
    → (run_clones body k i a).0 < u32_mod
unfolding run_clones
clones-fits body zero i a h = h
clones-fits body (suc k) i a h = clones-fits body k (add32 i 1) (body i a) (omega arith)

module _ {A : Type 0} (body : ℕ → A → A) (k l r i j : ℕ) (a : A) (k1 : 1 ≤ k)
    (hi : i < u32_mod) where
  -- The state of the other loop is reached, and the index fits its type.
  abbrev Same : GemLoop A → Type 0
  Same s = BatchReach body k l r i j a (as_batched s) × (s.i < u32_mod)

  guard_alike :
      (s : GemLoop A) (n : ℕ)
      → Same s
      → gem_guard (plain ult) n s.i s.loop_end ≡ batch_guard (plain ult) n s.i s.loop_end
  guard_alike s n w = gem_guard-batch_guard (plain ult) n s.i s.loop_end w.1

  same :
      (s : GemLoop A) {b : GemBlock} {t : GemLoop A}
      → s.block ≡ b
      → Same s
      → GemStep body k l r j s b t
      → Same t
  same s q w (enter_batch e) = (then_ w.0 (rw q (fits (sym (guard_alike s k w) ∙ e))), w.1)
  same s q w (skip_batch e) = (then_ w.0 (rw q (clean_up (sym (guard_alike s k w) ∙ e))), w.1)
  same s q w run_all = (
    rw (run_clones-inner_loop body k s.i s.a k1) (then_ w.0 (rw q run_batch)),
    clones-fits body k s.i s.a w.1,
  )
  same s q w store_last = (then_ w.0 (rw q store_batch), w.1)
  same s q w (next_batch e) = (then_ w.0 (rw q (fits (sym (guard_alike s k w) ∙ e))), w.1)
  same s q w (last_batch e) = (then_ w.0 (rw q (clean_up (sym (guard_alike s k w) ∙ e))), w.1)
  same s q w (some_left e) = (then_ w.0 (rw q (one_left (sym (guard_alike s 1 w) ∙ e))), w.1)
  same s q w (all_done e) = (then_ w.0 (rw q (none_left (sym (guard_alike s 1 w) ∙ e))), w.1)
  same s q w run_scalar = (then_ w.0 (rw q run_one), omega arith)
  same s q w store_scalar = (then_ w.0 (rw q store_one), w.1)
  same s q w (go_on e) = (then_ w.0 (rw q (again e)), w.1)
  same s q w (leave_loop e) = (then_ w.0 (rw q (stop e)), w.1)
  same s q w (promote_at b n) = (then_ w.0 (rw q (interrupt_batch (block_of b) n)), w.1)

  reached : {s : GemLoop A} → GemReach body k l r i j a s → Same s
  reached begun = (entered, hi)
  reached (stepped {s} rch st) = same s refl (reached rch) st

  -- Whatever the loop of the one pass does, with promotions at any point, that of the other pass
  -- does too, with the same variables, and so does the loop of `parfor_` as written. The count is
  -- from 1 to 2^31, and the range from `i` to `j` is in order and below 2^32.
  pub gem-within :
      k ≤ 2 ^ 31
      → j < u32_mod
      → i ≤ j
      → {s : GemLoop A} → GemReach body k l r i j a s
      → BatchReach body k l r i j a (as_batched s)
        × Reach body k l r i j a (as_loop k (as_batched s))
  gem-within kb hj ij {s} rch =
      let w = (reached rch).0 in (w, batched-within body k l r i j a k1 kb hj ij w)

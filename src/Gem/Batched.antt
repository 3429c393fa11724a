-- ===== src/Gem/Batched.antt =====
-- gempass, `formBatchedLoopWithCleanup`: the loop that LLVM has unrolled, with the checks between the
-- clones removed and the original loop behind it, a block at a time (32-bit unsigned index, no casts).
-- Children: it does what the other pass's loop does (Refines), its run with no
-- promotion (Run), and that it ends (Ends).
pub mod Refines
pub mod Run
pub mod Ends
use spork_llvm.Base.{ℕ, zero, suc, Bool, true, false, ◌≡◌, add32}
use spork_llvm.Parfor.{Range, empty, Promotion, prom}
use spork_llvm.Unroll.{ult, icmp, i32}
use spork_llvm.Unroll.Guard.{plain}
use spork_llvm.Gem.Guard.{gem_guard}

-- The blocks, each up to its access to a volatile variable. `clones` is the chain of the clones and
-- `final_store` the only progress store that is left of theirs; `final_test` is the guard at the end of
-- the final latch. The blocks of the cleanup are a copy of the original loop.
pub data GemBlock : Type 0 where
  entry : GemBlock
  clones : GemBlock
  final_store : GemBlock
  final_test : GemBlock
  cleanup_preheader : GemBlock
  cleanup_header : GemBlock
  cleanup_store : GemBlock
  cleanup_test : GemBlock
  exit : GemBlock

-- The variables of the loop, and the block that comes next; `i` and `a` stand for the PHIs.
pub record GemLoop (A : Type 0) : Type 0 where
  pub block : GemBlock
  pub i : ℕ
  pub a : A
  pub sig_safe_i : ℕ
  pub loop_end : ℕ
  pub promoted : Bool
  pub left : Range
  pub right : Range

module _ {A : Type 0} where
  abbrev pub enter_gem : ℕ → ℕ → A → GemLoop A
  enter_gem i j a = record {
    block = entry;
    i = i;
    a = a;
    sig_safe_i = i;
    loop_end = j;
    promoted = false;
    left = empty;
    right = empty;
  }

  abbrev pub promote_gem : ℕ → ℕ → ℕ → ℕ → GemLoop A → GemLoop A
  promote_gem factor l r j s =
      let p : Promotion = prom factor l r j s.sig_safe_i s.loop_end in
      record s { promoted = true; loop_end = p.loop_end; left = p.left; right = p.right }

-- The clones one after the other, with no test between them.
unfoldable pub run_clones : {A : Type 0} → (ℕ → A → A) → (count i : ℕ) → A → ℕ × A
run_clones body zero i a = (i, a)
run_clones body (suc count) i a = run_clones body count (add32 i 1) (body i a)

module _ {A : Type 0} (body : ℕ → A → A) where
  pub data GemStep (k l r j : ℕ) (s : GemLoop A) : GemBlock → GemLoop A → Type 0 where
    enter_batch :
        gem_guard (plain ult) k s.i s.loop_end ≡ true
        → GemStep k l r j s entry (record s { block = clones })
    skip_batch :
        gem_guard (plain ult) k s.i s.loop_end ≡ false
        → GemStep k l r j s entry (record s { block = cleanup_preheader })
    run_all : GemStep k l r j s clones (record s {
      block = final_store;
      i = (run_clones body k s.i s.a).0;
      a = (run_clones body k s.i s.a).1;
    })
    store_last : GemStep k l r j s final_store (record s { block = final_test; sig_safe_i = s.i })
    next_batch :
        gem_guard (plain ult) k s.i s.loop_end ≡ true
        → GemStep k l r j s final_test (record s { block = clones })
    last_batch :
        gem_guard (plain ult) k s.i s.loop_end ≡ false
        → GemStep k l r j s final_test (record s { block = cleanup_preheader })
    some_left :
        gem_guard (plain ult) 1 s.i s.loop_end ≡ true
        → GemStep k l r j s cleanup_preheader (record s { block = cleanup_header })
    all_done :
        gem_guard (plain ult) 1 s.i s.loop_end ≡ false
        → GemStep k l r j s cleanup_preheader (record s { block = exit })
    run_scalar :
        GemStep k l r j s cleanup_header
          (record s { block = cleanup_store; i = add32 s.i 1; a = body s.i s.a })
    store_scalar :
        GemStep k l r j s cleanup_store (record s { block = cleanup_test; sig_safe_i = s.i })
    go_on :
        icmp ult i32 s.i s.loop_end ≡ true
        → GemStep k l r j s cleanup_test (record s { block = cleanup_header })
    leave_loop :
        icmp ult i32 s.i s.loop_end ≡ false
        → GemStep k l r j s cleanup_test (record s { block = exit })
    promote_at :
        (b : GemBlock)
        → s.promoted ≡ false
        → GemStep k l r j s b (record (promote_gem k l r j s) { block = b })

  pub data GemReach (k l r i j : ℕ) (a : A) : GemLoop A → Type 0 where
    begun : GemReach k l r i j a (enter_gem i j a)
    stepped :
        {s t : GemLoop A}
        → GemReach k l r i j a s
        → GemStep k l r j s s.block t
        → GemReach k l r i j a t

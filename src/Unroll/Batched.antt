-- ===== src/Unroll/Batched.antt =====
-- fablepass, `formBatchedLoop`: the loop that the pass puts in the place of the marked loop of `parfor_`
-- (32-bit unsigned index, no casts), a block at a time. Children: it stays within
-- the protocol (Protocol), and it ends (Ends).
pub mod Protocol
pub mod Ends
use spork_llvm.Base.{ℕ, zero, suc, ◌+◌, Bool, true, false, ◌≡◌, add32, ltb}
use spork_llvm.Parfor.{Range, empty, Promotion, prom}
use spork_llvm.Parfor.Loop.{Pc, test, running, publish, exited, Loop}
use spork_llvm.Unroll.{batch_guard, ult, icmp, i32}
use spork_llvm.Unroll.Guard.{plain}

-- The blocks, each up to its access to a volatile variable. `cleanup_header` to `cleanup_test` are
-- the copy of the original loop, which is rotated: its latch stores the progress, loads the bound and
-- tests it.
pub data Block : Type 0 where
  batch_header : Block
  inner : Block
  batch_latch : Block
  cleanup_preheader : Block
  cleanup_header : Block
  cleanup_store : Block
  cleanup_test : Block
  exit : Block

-- The variables of the loop, and the block that comes next; `i` and `a` stand for the PHIs.
pub record Batched (A : Type 0) : Type 0 where
  pub block : Block
  pub i : ℕ
  pub a : A
  pub sig_safe_i : ℕ
  pub loop_end : ℕ
  pub promoted : Bool
  pub left : Range
  pub right : Range

module _ {A : Type 0} where
  abbrev pub enter_loop : ℕ → ℕ → A → Batched A
  enter_loop i j a = record {
    block = batch_header;
    i = i;
    a = a;
    sig_safe_i = i;
    loop_end = j;
    promoted = false;
    left = empty;
    right = empty;
  }

  abbrev pub promote_batched : ℕ → ℕ → ℕ → ℕ → Batched A → Batched A
  promote_batched factor l r j s =
      let p : Promotion = prom factor l r j s.sig_safe_i s.loop_end in
      record s { promoted = true; loop_end = p.loop_end; left = p.left; right = p.right }

-- The inner loop, which has no volatile access: it is rotated, and its counter runs up to `k`. The
-- fuel is `k`.
unfoldable pub inner_loop : {A : Type 0} → (ℕ → A → A) → (k fuel counter i : ℕ) → A → ℕ × A
inner_loop body k zero counter i a = (i, a)
inner_loop body k (suc fuel) counter i a =
    let rest = inner_loop body k fuel (counter + 1) (add32 i 1) (body i a) in
    elim (ltb (counter + 1) k) [ true ↦ rest | false ↦ (add32 i 1, body i a) ]

module _ {A : Type 0} (body : ℕ → A → A) where
  pub data BatchStep (k l r j : ℕ) (s : Batched A) : Block → Batched A → Type 0 where
    fits :
        batch_guard (plain ult) k s.i s.loop_end ≡ true
        → BatchStep k l r j s batch_header (record s { block = inner })
    clean_up :
        batch_guard (plain ult) k s.i s.loop_end ≡ false
        → BatchStep k l r j s batch_header (record s { block = cleanup_preheader })
    run_batch : BatchStep k l r j s inner (record s {
      block = batch_latch;
      i = (inner_loop body k k 0 s.i s.a).0;
      a = (inner_loop body k k 0 s.i s.a).1;
    })
    store_batch :
        BatchStep k l r j s batch_latch (record s { block = batch_header; sig_safe_i = s.i })
    one_left :
        batch_guard (plain ult) 1 s.i s.loop_end ≡ true
        → BatchStep k l r j s cleanup_preheader (record s { block = cleanup_header })
    none_left :
        batch_guard (plain ult) 1 s.i s.loop_end ≡ false
        → BatchStep k l r j s cleanup_preheader (record s { block = exit })
    run_one :
        BatchStep k l r j s cleanup_header
          (record s { block = cleanup_store; i = add32 s.i 1; a = body s.i s.a })
    store_one :
        BatchStep k l r j s cleanup_store (record s { block = cleanup_test; sig_safe_i = s.i })
    again :
        icmp ult i32 s.i s.loop_end ≡ true
        → BatchStep k l r j s cleanup_test (record s { block = cleanup_header })
    stop :
        icmp ult i32 s.i s.loop_end ≡ false
        → BatchStep k l r j s cleanup_test (record s { block = exit })
    interrupt_batch :
        (b : Block)
        → s.promoted ≡ false
        → BatchStep k l r j s b (record (promote_batched k l r j s) { block = b })

  pub data BatchReach (k l r i j : ℕ) (a : A) : Batched A → Type 0 where
    entered : BatchReach k l r i j a (enter_loop i j a)
    then_ :
        {s t : Batched A}
        → BatchReach k l r i j a s
        → BatchStep k l r j s s.block t
        → BatchReach k l r i j a t

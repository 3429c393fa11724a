-- ===== src/Unroll/Batched/Protocol.antt =====
-- The batched loop does nothing that the protocol of the loop does not allow.
use spork_llvm.Base.{
  ℕ, zero, suc, ◌+◌, ◌<◌, ◌≤◌, true, false, ◌≡◌, refl, ap, ◌∙◌, arith, u32_mod, add32, ltb, lt→ltb,
  le→ltb, subst, dec_le, ◌^◌,
}
use spork_llvm.Parfor.{rounds}
use spork_llvm.Parfor.Loop.{
  Pc, test, running, publish, exited, Loop, enter, leave, run, store, interrupt, Reach, here, next,
}
use spork_llvm.Parfor.Invariant.{Inv, PcInv}
use spork_llvm.Parfor.Ends.{Reach-Inv}
use spork_llvm.Unroll.{batch_guard, ult}
use spork_llvm.Unroll.Guard.{plain, batch_guard-exact}
use spork_llvm.Unroll.Batched.{
  Block, batch_header, inner, batch_latch, cleanup_preheader, cleanup_header, cleanup_store,
  cleanup_test, exit, Batched, inner_loop, BatchStep, fits, clean_up, run_batch, store_batch,
  one_left, none_left, run_one, store_one, again, stop, interrupt_batch, BatchReach, entered, then_,
}

-- Where the loop as written would be.
abbrev pub pc_of : ℕ → Block → Pc
pc_of k batch_header = test
pc_of k inner = running k
pc_of k batch_latch = publish
pc_of k cleanup_preheader = test
pc_of k cleanup_header = running 1
pc_of k cleanup_store = publish
pc_of k cleanup_test = test
pc_of k exit = exited

abbrev pub as_loop : {A : Type 0} → ℕ → Batched A → Loop A
as_loop k s = record {
  pc = pc_of k s.block;
  i = s.i;
  a = s.a;
  sig_safe_i = s.sig_safe_i;
  loop_end = s.loop_end;
  promoted = s.promoted;
  left = s.left;
  right = s.right;
}

inner_loop-more :
    {A : Type 0} (body : ℕ → A → A) (k fuel counter i : ℕ) (a : A)
    → ltb (counter + 1) k ≡ true
    → inner_loop body k (suc fuel) counter i a
      ≡ inner_loop body k fuel (counter + 1) (add32 i 1) (body i a)
unfolding inner_loop
inner_loop-more body k fuel counter i a e = rw (e, inner_loop) refl

-- The inner loop runs as many rounds as its counter has left.
inner_loop-rounds :
    {A : Type 0} (body : ℕ → A → A) (k fuel counter i : ℕ) (a : A)
    → counter + suc fuel ≡ k
    → i + suc fuel < u32_mod
    → inner_loop body k (suc fuel) counter i a ≡ (add32 i (suc fuel), rounds body (suc fuel) i a)
unfolding inner_loop rounds
inner_loop-rounds body k zero counter i a h fit =
    let e : ltb (counter + 1) k ≡ false = le→ltb _ _ (omega arith) in rw (e, inner_loop) refl
inner_loop-rounds body k (suc fuel) counter i a h fit =
    let e : ltb (counter + 1) k ≡ true = lt→ltb _ _ (omega arith) in
    let s : add32 i 1 ≡ i + 1 = omega arith in
    let t : add32 (i + 1) (suc fuel) ≡ add32 i (suc (suc fuel)) = omega arith in
    inner_loop-more body k (suc fuel) counter i a e
    ∙ ap (λ z. inner_loop body k (suc fuel) (counter + 1) z (body i a)) s
    ∙ inner_loop-rounds body k fuel (counter + 1) (i + 1) (body i a) (omega arith) (omega arith)
    ∙ ap (λ z. (z, rounds body (suc fuel) (i + 1) (body i a))) t

module _ {A : Type 0} (body : ℕ → A → A) (k l r i j : ℕ) (a : A) (k1 : 1 ≤ k) (kb : k ≤ 2 ^ 31)
    (hj : j < u32_mod) (ij : i ≤ j) where
  abbrev Within : Batched A → Type 0
  Within s = Reach body k l r i j a (as_loop k s)

  facts : (s : Batched A) → Within s → Inv body k i j a (as_loop k s)
  facts s w = Reach-Inv body k l r i j a k1 (omega arith) hj ij w

  ready :
      (s : Batched A) (n : ℕ)
      → Within s
      → 1 ≤ n
      → n ≤ k
      → batch_guard (plain ult) n s.i s.loop_end ≡ true
      → s.i + n ≤ s.loop_end
  ready s n w n1 nk e =
      let v = facts s w in
      (batch_guard-exact ult n s.i s.loop_end n1 (omega arith) (omega (arith, v.upper, v.top))
          (omega (arith, v.top))).0
        e

  finished :
      (s : Batched A)
      → Within s
      → batch_guard (plain ult) 1 s.i s.loop_end ≡ false
      → s.loop_end ≤ s.i
  finished s w e = elim (dec_le s.loop_end s.i) [
    | yes h ↦ h
    | no h ↦
        let v = facts s w in
        let e' : batch_guard (plain ult) 1 s.i s.loop_end ≡ true =
          (batch_guard-exact ult 1 s.i s.loop_end (omega arith) (omega arith)
              (omega (arith, v.upper, v.top)) (omega (arith, v.top))).1
            (omega arith) in
        absurd cc
  ]

  pub batch_run :
      (s : Batched A)
      → Within s
      → s.block ≡ inner
      → inner_loop body k k 0 s.i s.a ≡ (add32 s.i k, rounds body k s.i s.a)
  batch_run s w e =
      let v = facts s w in
      let p : PcInv k s.i s.sig_safe_i s.loop_end (running k) = rw e at v.pc in
      batch_rounds k k1 s.i s.a (omega (arith, p.3, v.top))
    where
      batch_rounds :
          (n : ℕ)
          → 1 ≤ n
          → (i : ℕ) (a : A) → i + n < u32_mod
          → inner_loop body n n 0 i a ≡ (add32 i n, rounds body n i a)
      batch_rounds zero h i a fit = absurd (omega arith)
      batch_rounds (suc n) h i a fit = inner_loop-rounds body (suc n) n 0 i a (omega arith) fit

  ran_one :
      (s : Batched A)
      → s.block ≡ cleanup_header
      → Within s
      → Within (record s { block = cleanup_store; i = add32 s.i 1; a = body s.i s.a })
  unfolding rounds
  ran_one s q w = next w (rw q (run 1))

  stays :
      (s : Batched A) {b : Block} {t : Batched A}
      → s.block ≡ b
      → Within s
      → BatchStep body k l r j s b t
      → Within t
  stays s q w (fits e) = next w (rw q (enter k k1 (omega arith) (ready s k w k1 (omega arith) e)))
  stays s q w (clean_up e) =
      subst (λ p. Reach body k l r i j a (record (as_loop k s) { pc = p })) (ap (pc_of k) q) w
  stays s q w run_batch = rw (batch_run s w q) (next w (rw q (run k)))
  stays s q w store_batch = next w (rw q store)
  stays s q w (one_left e) =
      next w (rw q (enter 1 (omega arith) k1 (ready s 1 w (omega arith) k1 e)))
  stays s q w (none_left e) = next w (rw q (leave (finished s w e)))
  stays s q w run_one = ran_one s q w
  stays s q w store_one = next w (rw q store)
  stays s q w (again e) = next w (rw q (enter 1 (omega arith) k1 (ground arith)))
  stays s q w (stop e) = next w (rw q (leave (ground arith)))
  stays s q w (interrupt_batch b n) = next w (rw q (interrupt (pc_of k b) n))

  -- Whatever the batched loop does, with promotions at any point, the loop of `parfor_` does in steps
  -- of at most `k` rounds: every state that the one reaches is a state that the other reaches.
  pub batched-within :
      {s : Batched A} → BatchReach body k l r i j a s → Reach body k l r i j a (as_loop k s)
  batched-within entered = here
  batched-within (then_ {s} rch st) = stays s refl (batched-within rch) st

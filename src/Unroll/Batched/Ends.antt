-- ===== src/Unroll/Batched/Ends.antt =====
-- fablepass, the batched loop: it ends, with every index done or left to a job.
use spork_llvm.Base.{
  ℕ, ◌+◌, ◌-◌, ◌*◌, ◌<◌, ◌≤◌, ◌≡◌, ◌⊎◌, inl, inr, ◌++◌, refl, ap, subst, arith, u32_mod, add32-eq,
  ◌^◌, Bool-cases,
}
use spork_llvm.Parfor.{rounds}
use spork_llvm.Parfor.Loop.{running, Reach}
use spork_llvm.Parfor.Invariant.{PcInv}
use spork_llvm.Parfor.Ends.{Reach-Inv, loop-covers, unpromoted, indices}
use spork_llvm.Unroll.{batch_guard, ult, icmp, i32}
use spork_llvm.Unroll.Guard.{plain}
use spork_llvm.Unroll.Batched.{
  Block, batch_header, inner, batch_latch, cleanup_preheader, cleanup_header, cleanup_store,
  cleanup_test, exit, Batched, BatchStep, fits, clean_up, run_batch, store_batch, one_left,
  none_left, run_one, store_one, again, stop, interrupt_batch, BatchReach,
}
use spork_llvm.Unroll.Batched.Protocol.{pc_of, as_loop, batch_run, batched-within}

-- How far a block is from the exit, with the index left where it is.
abbrev pub block_rank : Block → ℕ
block_rank batch_header = 5
block_rank inner = 4
block_rank batch_latch = 6
block_rank cleanup_preheader = 4
block_rank cleanup_header = 3
block_rank cleanup_store = 5
block_rank cleanup_test = 4
block_rank exit = 0

abbrev pub batch_measure : {A : Type 0} → ℕ → Batched A → ℕ
batch_measure j s = 3 * (j - s.i) + block_rank s.block + unpromoted s.promoted

module _ {A : Type 0} (body : ℕ → A → A) (k l r i j : ℕ) (a : A) (k1 : 1 ≤ k) (kb : k ≤ 2 ^ 31)
    (hj : j < u32_mod) (ij : i ≤ j) where
  within : {s : Batched A} → BatchReach body k l r i j a s → Reach body k l r i j a (as_loop k s)
  within = batched-within body k l r i j a k1 kb hj ij

  -- The rounds that a block runs fit.
  fitting :
      (s : Batched A) (n : ℕ)
      → pc_of k s.block ≡ running n
      → BatchReach body k l r i j a s
      → (1 ≤ n) × (s.i + n ≤ j)
  fitting s n q rch =
      let v = Reach-Inv body k l r i j a k1 (omega arith) hj ij (within rch) in
      let c : PcInv k s.i s.sig_safe_i s.loop_end (running n) =
        subst (PcInv k s.i s.sig_safe_i s.loop_end) q v.pc in
      (c.1, omega (arith, c.3, v.top))

  batch_falls :
      (s : Batched A) {b : Block} {t : Batched A}
      → s.block ≡ b
      → BatchReach body k l r i j a s
      → BatchStep body k l r j s b t
      → batch_measure j t < batch_measure j s
  batch_falls s q w (fits e) = rw q (omega arith)
  batch_falls s q w (clean_up e) = rw q (omega arith)
  batch_falls s q w run_batch =
      let b = fitting s k (ap (pc_of k) q) w in
      let e = batch_run body k l r i j a k1 kb hj ij s (within w) q in
      rw (q, e, add32-eq s.i k (omega (arith, b.1))) (omega (arith, b.0, b.1))
  batch_falls s q w store_batch = rw q (omega arith)
  batch_falls s q w (one_left e) = rw q (omega arith)
  batch_falls s q w (none_left e) = rw q (omega arith)
  batch_falls s q w run_one =
      let b = fitting s 1 (ap (pc_of k) q) w in
      rw (q, add32-eq s.i 1 (omega (arith, b.1))) (omega (arith, b.0, b.1))
  batch_falls s q w store_one = rw q (omega arith)
  batch_falls s q w (again e) = rw q (omega arith)
  batch_falls s q w (stop e) = rw q (omega arith)
  batch_falls s q w (interrupt_batch b n) = rw (q, n) (omega arith)

  batch_exists :
      (s : Batched A) (b : Block) → (b ≡ exit) ⊎ ((t : Batched A) × BatchStep body k l r j s b t)
  batch_exists s batch_header = elim (Bool-cases (batch_guard (plain ult) k s.i s.loop_end)) [
    | inl e ↦ inr (_, fits e)
    | inr e ↦ inr (_, clean_up e)
  ]
  batch_exists s inner = inr (_, run_batch)
  batch_exists s batch_latch = inr (_, store_batch)
  batch_exists s cleanup_preheader = elim (Bool-cases (batch_guard (plain ult) 1 s.i s.loop_end)) [
    | inl e ↦ inr (_, one_left e)
    | inr e ↦ inr (_, none_left e)
  ]
  batch_exists s cleanup_header = inr (_, run_one)
  batch_exists s cleanup_store = inr (_, store_one)
  batch_exists s cleanup_test = elim (Bool-cases (icmp ult i32 s.i s.loop_end)) [
    | inl e ↦ inr (_, again e)
    | inr e ↦ inr (_, stop e)
  ]
  batch_exists s exit = inl refl

  -- Whatever the batched loop does, with promotions at any point, the loop of `parfor_` does in steps of
  -- at most `k` rounds: every state that the one reaches is a state that the other reaches. Each of its
  -- steps, a promotion included, makes a measure smaller, and before the exit there is a step; at the
  -- exit the accumulator holds the rounds up to the index, and the indices done, those of the left job
  -- and those of the right job are together those from `i` up to `j`, each once and in order. The batch
  -- has from 1 to 2^31 iterations, and the range is in order and below 2^32.
  pub batched-terminates :
      {s : Batched A}
      → BatchReach body k l r i j a s
      → Reach body k l r i j a (as_loop k s)
        × ((t : Batched A)
            → BatchStep body k l r j s s.block t
            → batch_measure j t < batch_measure j s)
        × ((s.block ≡ exit) ⊎ ((t : Batched A) × BatchStep body k l r j s s.block t))
        × (s.block ≡ exit
            → (s.a ≡ rounds body (s.i - i) i a)
              × (indices i s.i ++ indices s.left.i s.left.j ++ indices s.right.i s.right.j
                  ≡ indices i j))
  batched-terminates {s} rch = (
    within rch,
    λ t st. batch_falls s refl rch st,
    batch_exists s s.block,
    λ e. loop-covers body k l r i j a k1 (omega arith) hj ij (within rch) (ap (pc_of k) e),
  )

-- ===== src/Unroll/Transplant/Ends.antt =====
-- fablepass, the transplanted loops: they end, with every index done or left to a job.
use spork_llvm.Base.{
  ℕ, ◌+◌, ◌-◌, ◌*◌, ◌<◌, ◌≤◌, ◌≡◌, ◌⊎◌, inl, inr, List, [], ◌∷◌, ◌++◌, length, refl, ap, subst,
  arith, u32_mod, add32-eq, ◌^◌, Bool-cases,
}
use spork_llvm.Parfor.{rounds}
use spork_llvm.Parfor.Loop.{running}
use spork_llvm.Parfor.Invariant.{PcInv}
use spork_llvm.Parfor.Ends.{Reach-Inv, loop-covers, unpromoted, indices}
use spork_llvm.Unroll.{batch_guard, ult}
use spork_llvm.Unroll.Guard.{plain}
use spork_llvm.Unroll.Transplant.{
  Place, call, choose, preheader, header, publish_step, latch, exit, Stepping, StepLoops, snap,
  take_loop, pass_over, at_end, no_loops, first_step, no_step, step_body, store_step, next_step,
  last_step, promote_step, StepReach,
}
use spork_llvm.Unroll.Transplant.Within.{StepsTo, pc_at, transplant-within}

-- How far a place is from the exit, with the index left where it is.
abbrev pub place_rank : List ℕ → Place → ℕ
place_rank steps call = 4 * length steps + 4
place_rank steps (choose ks) = 4 * length ks + 3
place_rank steps (preheader k ks) = 4 * length ks + 5
place_rank steps (header k ks) = 4 * length ks + 4
place_rank steps (publish_step k ks) = 4 * length ks + 6
place_rank steps (latch k ks) = 4 * length ks + 5
place_rank steps exit = 0

abbrev pub step_measure : {A : Type 0} → List ℕ → ℕ → Stepping A → ℕ
step_measure steps j s = 3 * (j - s.i) + place_rank steps s.place + unpromoted s.promoted

module _ {A : Type 0} (body : ℕ → A → A) (run_step : ℕ → ℕ → A → A) (steps : List ℕ)
    (factor l r i j : ℕ) (a : A) (f1 : 1 ≤ factor) (fb : factor ≤ 2 ^ 31) (hj : j < u32_mod)
    (ij : i ≤ j) (to : StepsTo factor steps)
    (runs : (k i : ℕ) (a : A)
      → 1 ≤ k
      → k ≤ factor
      → i + k ≤ j
      → run_step k i a ≡ rounds body k i a) where
  -- The step that a body takes fits.
  stepping :
      (s : Stepping A) (k : ℕ) (ks : List ℕ)
      → s.place ≡ header k ks
      → StepReach run_step steps factor l r i j a s
      → (1 ≤ k) × (s.i + k ≤ j)
  stepping s k ks q rch =
      let v =
        Reach-Inv body factor l r i j a f1 (omega arith) hj ij
          (transplant-within body run_step steps factor l r i j a f1 fb hj ij to runs rch) in
      let c : PcInv factor s.i s.sig_safe_i s.loop_end (running k) =
        subst (PcInv factor s.i s.sig_safe_i s.loop_end) (ap pc_at q) v.pc in
      (c.1, omega (arith, c.3, v.top))

  step_falls :
      (s : Stepping A) {p : Place} {t : Stepping A}
      → s.place ≡ p
      → StepReach run_step steps factor l r i j a s
      → StepLoops run_step steps factor l r j s p t
      → step_measure steps j t < step_measure steps j s
  step_falls s q w snap = rw q (omega arith)
  step_falls s q w (take_loop {k} {ks}) = rw q (omega arith)
  step_falls s q w (pass_over {k} {m} {ks}) = rw q (omega arith)
  step_falls s q w (at_end {k} {ks} e) = rw q (omega arith)
  step_falls s q w no_loops = rw q (omega arith)
  step_falls s q w (first_step {k} {ks} e) = rw q (omega arith)
  step_falls s q w (no_step {k} {ks} e) = rw q (omega arith)
  step_falls s q w (step_body {k} {ks}) =
      let b = stepping s k ks q w in
      rw (q, add32-eq s.i k (omega (arith, b.1))) (omega (arith, b.0, b.1))
  step_falls s q w (store_step {k} {ks}) = rw q (omega arith)
  step_falls s q w (next_step {k} {ks} e) = rw q (omega arith)
  step_falls s q w (last_step {k} {ks} e) = rw q (omega arith)
  step_falls s q w (promote_step p n) = rw (q, n) (omega arith)

  step_exists :
      (s : Stepping A) (p : Place)
      → (p ≡ exit) ⊎ ((t : Stepping A) × StepLoops run_step steps factor l r j s p t)
  step_exists s call = inr (_, snap)
  step_exists s (choose []) = inr (_, no_loops)
  step_exists s (choose (k ∷ ks)) = inr (_, take_loop)
  step_exists s (preheader k ks) = elim (Bool-cases (batch_guard (plain ult) k s.i s.loop_end)) [
    | inl e ↦ inr (_, first_step e)
    | inr e ↦ inr (_, no_step e)
  ]
  step_exists s (header k ks) = inr (_, step_body)
  step_exists s (publish_step k ks) = inr (_, store_step)
  step_exists s (latch k ks) = elim (Bool-cases (batch_guard (plain ult) k s.i s.loop_end)) [
    | inl e ↦ inr (_, next_step e)
    | inr e ↦ inr (_, last_step e)
  ]
  step_exists s exit = inl refl

  -- Every step of the transplanted loops, a promotion included, makes a measure smaller, and before
  -- the exit there is a step; at the exit the accumulator holds the rounds up to the index, and the
  -- indices done, those of the left job and those of the right job are together those from `i` up to
  -- `j`, each once and in order. The steps are from 1 to the factor and the last is 1, the body of a
  -- loop computes the rounds of its step, the factor is from 1 to 2^31, and the range is in order and
  -- below 2^32.
  pub transplant-terminates :
      {s : Stepping A}
      → StepReach run_step steps factor l r i j a s
      → ((t : Stepping A)
          → StepLoops run_step steps factor l r j s s.place t
          → step_measure steps j t < step_measure steps j s)
        × ((s.place ≡ exit)
            ⊎ ((t : Stepping A) × StepLoops run_step steps factor l r j s s.place t))
        × (s.place ≡ exit
            → (s.a ≡ rounds body (s.i - i) i a)
              × (indices i s.i ++ indices s.left.i s.left.j ++ indices s.right.i s.right.j
                  ≡ indices i j))
  transplant-terminates {s} rch = (
    λ t st. step_falls s refl rch st,
    step_exists s s.place,
    λ e.
        loop-covers body factor l r i j a f1 (omega arith) hj ij
          (transplant-within body run_step steps factor l r i j a f1 fb hj ij to runs rch)
          (ap pc_at e),
  )

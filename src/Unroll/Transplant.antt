-- ===== src/Unroll/Transplant.antt =====
-- fablepass, `transplantProbe` and `rewriteStepLoop`: the loops that LLVM's vectorizer has made of
-- the probe, one behind the other, in the place of the marked loop (32-bit unsigned index, no casts).
-- Children: they stay within the protocol (Within), and they end (Ends); the plan for the uses behind
-- an exit (Sink), the loops that may be transplanted (Match), the check for the snapshot (Snapshot),
-- and the exit values of a loop that is passed over (Skipped).
pub mod Within
pub mod Ends
pub mod Sink
pub mod Match
pub mod Snapshot
pub mod Skipped
use spork_llvm.Base.{ℕ, ◌≤◌, Bool, true, false, ◌≡◌, List, [], ◌∷◌, add32}
use spork_llvm.Parfor.{Range, empty, Promotion, prom}
use spork_llvm.Unroll.{batch_guard, ult}
use spork_llvm.Unroll.Guard.{plain}

-- A step loop with its step, and the steps of the loops behind it. `choose` is the code that LLVM has
-- put in front of the loops that are left: it may pass over a loop that is not the last, or end where
-- the index is the end that the snapshot gives.
pub data Place : Type 0 where
  call : Place
  choose : List ℕ → Place
  preheader : ℕ → List ℕ → Place
  header : ℕ → List ℕ → Place
  publish_step : ℕ → List ℕ → Place
  latch : ℕ → List ℕ → Place
  exit : Place

-- The variables of the loop, the snapshot of the bound that the call takes, and the place.
pub record Stepping (A : Type 0) : Type 0 where
  pub place : Place
  pub i : ℕ
  pub a : A
  pub snapshot : ℕ
  pub sig_safe_i : ℕ
  pub loop_end : ℕ
  pub promoted : Bool
  pub left : Range
  pub right : Range

module _ {A : Type 0} where
  abbrev pub enter_call : ℕ → ℕ → A → Stepping A
  enter_call i j a = record {
    place = call;
    i = i;
    a = a;
    snapshot = 0;
    sig_safe_i = i;
    loop_end = j;
    promoted = false;
    left = empty;
    right = empty;
  }

  abbrev pub promote_stepping : ℕ → ℕ → ℕ → ℕ → Stepping A → Stepping A
  promote_stepping factor l r j s =
      let p : Promotion = prom factor l r j s.sig_safe_i s.loop_end in
      record s { promoted = true; loop_end = p.loop_end; left = p.left; right = p.right }

-- `run_step k i a` is what the body of a loop with the step `k` computes.
module _ {A : Type 0} (run_step : ℕ → ℕ → A → A) (steps : List ℕ) where
  pub data StepLoops (factor l r j : ℕ) (s : Stepping A) : Place → Stepping A → Type 0 where
    snap : StepLoops factor l r j s call (record s { place = choose steps; snapshot = s.loop_end })
    take_loop :
        {k : ℕ} {ks : List ℕ}
        → StepLoops factor l r j s (choose (k ∷ ks)) (record s { place = preheader k ks })
    pass_over :
        {k m : ℕ} {ks : List ℕ}
        → StepLoops factor l r j s (choose (k ∷ m ∷ ks)) (record s { place = choose (m ∷ ks) })
    at_end :
        {k : ℕ} {ks : List ℕ}
        → s.i ≡ s.snapshot
        → StepLoops factor l r j s (choose (k ∷ ks)) (record s { place = exit })
    no_loops : StepLoops factor l r j s (choose []) (record s { place = exit })
    first_step :
        {k : ℕ} {ks : List ℕ}
        → batch_guard (plain ult) k s.i s.loop_end ≡ true
        → StepLoops factor l r j s (preheader k ks) (record s { place = header k ks })
    no_step :
        {k : ℕ} {ks : List ℕ}
        → batch_guard (plain ult) k s.i s.loop_end ≡ false
        → StepLoops factor l r j s (preheader k ks) (record s { place = choose ks })
    step_body :
        {k : ℕ} {ks : List ℕ}
        → StepLoops factor l r j s
            (header k ks)
            (record s { place = publish_step k ks; i = add32 s.i k; a = run_step k s.i s.a })
    store_step :
        {k : ℕ} {ks : List ℕ}
        → StepLoops factor l r j s
            (publish_step k ks)
            (record s { place = latch k ks; sig_safe_i = s.i })
    next_step :
        {k : ℕ} {ks : List ℕ}
        → batch_guard (plain ult) k s.i s.loop_end ≡ true
        → StepLoops factor l r j s (latch k ks) (record s { place = header k ks })
    last_step :
        {k : ℕ} {ks : List ℕ}
        → batch_guard (plain ult) k s.i s.loop_end ≡ false
        → StepLoops factor l r j s (latch k ks) (record s { place = choose ks })
    promote_step :
        (p : Place)
        → s.promoted ≡ false
        → StepLoops factor l r j s p (record (promote_stepping factor l r j s) { place = p })

  pub data StepReach (factor l r i j : ℕ) (a : A) : Stepping A → Type 0 where
    called : StepReach factor l r i j a (enter_call i j a)
    moved :
        {s t : Stepping A}
        → StepReach factor l r i j a s
        → StepLoops factor l r j s s.place t
        → StepReach factor l r i j a t

-- ===== src/Unroll/Transplant/Within.antt =====
-- fablepass, the transplanted loops: they do nothing that the protocol of the loop does not allow.
use spork_llvm.Base.{
  ℕ, ◌+◌, ◌<◌, ◌≤◌, ◌≡◌, true, false, List, [], ◌∷◌, refl, sym, ap, ◌∙◌, subst, arith, u32_mod,
  add32, ◌^◌, dec_le,
}
use spork_llvm.Parfor.{rounds}
use spork_llvm.Parfor.Loop.{
  Pc, test, running, publish, exited, Loop, Step, promote_loop, enter, leave, run, store, interrupt,
  Reach, here, next,
}
use spork_llvm.Parfor.Invariant.{Inv, PcInv}
use spork_llvm.Parfor.Ends.{Reach-Inv}
use spork_llvm.Unroll.{batch_guard, ult}
use spork_llvm.Unroll.Guard.{plain, batch_guard-exact}
use spork_llvm.Unroll.Transplant.{
  Place, call, choose, preheader, header, publish_step, latch, exit, Stepping, StepLoops, snap,
  take_loop, pass_over, at_end, no_loops, first_step, no_step, step_body, store_step, next_step,
  last_step, promote_step, StepReach, called, moved,
}

-- Where the loop as written would be.
abbrev pub pc_at : Place → Pc
pc_at call = test
pc_at (choose ks) = test
pc_at (preheader k ks) = test
pc_at (header k ks) = running k
pc_at (publish_step k ks) = publish
pc_at (latch k ks) = test
pc_at exit = exited

abbrev pub as_written : {A : Type 0} → Stepping A → Loop A
as_written s = record {
  pc = pc_at s.place;
  i = s.i;
  a = s.a;
  sig_safe_i = s.sig_safe_i;
  loop_end = s.loop_end;
  promoted = s.promoted;
  left = s.left;
  right = s.right;
}

-- Every step is from 1 to the factor, and the last is 1: a scalar loop stands behind the others.
abbrev pub StepsTo : ℕ → List ℕ → Type 0
StepsTo factor [] = ⊥
StepsTo factor (k ∷ []) = k ≡ 1
StepsTo factor (k ∷ m ∷ ks) = (1 ≤ k) × (k ≤ factor) × StepsTo factor (m ∷ ks)

-- In front of no more loops the range is done.
abbrev Settled : (factor i e : ℕ) → List ℕ → Type 0
Settled factor i e [] = e ≤ i
Settled factor i e (k ∷ ks) = StepsTo factor (k ∷ ks)

abbrev At : (factor i e snapshot : ℕ) → Place → Type 0
At factor i e n call = Unit {0}
At factor i e n (choose ks) = (e ≤ n) × Settled factor i e ks
At factor i e n (preheader k ks) = (e ≤ n) × StepsTo factor (k ∷ ks)
At factor i e n (header k ks) = (e ≤ n) × StepsTo factor (k ∷ ks)
At factor i e n (publish_step k ks) = (e ≤ n) × StepsTo factor (k ∷ ks)
At factor i e n (latch k ks) = (e ≤ n) × StepsTo factor (k ∷ ks)
At factor i e n exit = Unit {0}

Settled-mono :
    (factor i e e' : ℕ) (ks : List ℕ) → e' ≤ e → Settled factor i e ks → Settled factor i e' ks
Settled-mono factor i e e' [] h s = omega arith
Settled-mono factor i e e' (k ∷ ks) h s = s

At-mono : (factor i e e' n : ℕ) (p : Place) → e' ≤ e → At factor i e n p → At factor i e' n p
At-mono factor i e e' n call h s = tt
At-mono factor i e e' n (choose ks) h (b, s) = (omega arith, Settled-mono factor i e e' ks h s)
At-mono factor i e e' n (preheader k ks) h (b, s) = (omega arith, s)
At-mono factor i e e' n (header k ks) h (b, s) = (omega arith, s)
At-mono factor i e e' n (publish_step k ks) h (b, s) = (omega arith, s)
At-mono factor i e e' n (latch k ks) h (b, s) = (omega arith, s)
At-mono factor i e e' n exit h s = tt

step_bounds :
    (factor k : ℕ) (ks : List ℕ) → 1 ≤ factor → StepsTo factor (k ∷ ks) → (1 ≤ k) × (k ≤ factor)
step_bounds factor k [] f s = (omega arith, omega arith)
step_bounds factor k (m ∷ ks) f s = (s.0, s.1)

StepsTo-Settled : (factor i e : ℕ) (ks : List ℕ) → StepsTo factor ks → Settled factor i e ks
StepsTo-Settled factor i e [] s = absurd s
StepsTo-Settled factor i e (k ∷ ks) s = s

settled :
    (factor i e k : ℕ) (ks : List ℕ)
    → (k ≡ 1 → e ≤ i)
    → StepsTo factor (k ∷ ks)
    → Settled factor i e ks
settled factor i e k [] h s = h s
settled factor i e k (m ∷ ks) h s = s.2

module _ {A : Type 0} (body : ℕ → A → A) (run_step : ℕ → ℕ → A → A) (steps : List ℕ)
    (factor l r i j : ℕ) (a : A) (f1 : 1 ≤ factor) (fb : factor ≤ 2 ^ 31) (hj : j < u32_mod)
    (ij : i ≤ j) (to : StepsTo factor steps)
    (runs : (k i : ℕ) (a : A)
      → 1 ≤ k
      → k ≤ factor
      → i + k ≤ j
      → run_step k i a ≡ rounds body k i a) where
  record Allowed (s : Stepping A) : Type 0 where
    reach : Reach body factor l r i j a (as_written s)
    at : At factor s.i s.loop_end s.snapshot s.place

  facts : (s : Stepping A) → Allowed s → Inv body factor i j a (as_written s)
  facts s w = Reach-Inv body factor l r i j a f1 (omega arith) hj ij w.reach

  fitting :
      (s : Stepping A) (k : ℕ)
      → Allowed s
      → 1 ≤ k
      → k ≤ factor
      → batch_guard (plain ult) k s.i s.loop_end ≡ true
      → s.i + k ≤ s.loop_end
  fitting s k w k1 kf e =
      let v = facts s w in
      (batch_guard-exact ult k s.i s.loop_end k1 (omega arith) (omega (arith, v.upper, v.top))
          (omega (arith, v.top))).0
        e

  finished :
      (s : Stepping A) (k : ℕ)
      → Allowed s
      → batch_guard (plain ult) k s.i s.loop_end ≡ false
      → k ≡ 1
      → s.loop_end ≤ s.i
  finished s k w e one = elim (dec_le s.loop_end s.i) [
    | yes h ↦ h
    | no h ↦
        let v = facts s w in
        let e' : batch_guard (plain ult) k s.i s.loop_end ≡ true =
          (batch_guard-exact ult k s.i s.loop_end (omega arith) (omega arith)
              (omega (arith, v.upper, v.top)) (omega (arith, v.top))).1
            (omega arith) in
        absurd cc
  ]

  -- The step of the loop as written, at the place where it is.
  as_step :
      (s : Stepping A) {p : Place} {t : Loop A}
      → s.place ≡ p
      → Allowed s
      → Step body factor l r j (as_written s) (pc_at p) t
      → Reach body factor l r i j a t
  as_step s {p} {t} q w st =
      next w.reach (subst (λ c. Step body factor l r j (as_written s) c t) (sym (ap pc_at q)) st)

  same_pc :
      (s : Stepping A) {p : Place}
      → s.place ≡ p
      → Allowed s
      → Reach body factor l r i j a (record (as_written s) { pc = pc_at p })
  same_pc s q w =
      subst (λ p. Reach body factor l r i j a (record (as_written s) { pc = p })) (ap pc_at q)
        w.reach

  at_place :
      (s : Stepping A) {p : Place} → s.place ≡ p → Allowed s → At factor s.i s.loop_end s.snapshot p
  at_place s q w = subst (At factor s.i s.loop_end s.snapshot) q w.at

  -- A batch begins, or a loop is left.
  begins :
      (s : Stepping A) (k : ℕ) (ks : List ℕ) (p : Place)
      → s.place ≡ p
      → pc_at p ≡ test
      → (s.loop_end ≤ s.snapshot) × StepsTo factor (k ∷ ks)
      → Allowed s
      → batch_guard (plain ult) k s.i s.loop_end ≡ true
      → Allowed (record s { place = header k ks })
  begins s k ks p q z g w e =
      let b = step_bounds factor k ks f1 g.1 in
      record {
        reach = next w.reach (
            subst
              (λ c.
                Step body factor l r j (as_written s) c (record (as_written s) { pc = running k }))
              (sym (ap pc_at q ∙ z)) (enter k b.0 b.1 (fitting s k w b.0 b.1 e)));
        at = g;
      }

  is_left :
      (s : Stepping A) (k : ℕ) (ks : List ℕ) (p : Place)
      → s.place ≡ p
      → pc_at p ≡ test
      → (s.loop_end ≤ s.snapshot) × StepsTo factor (k ∷ ks)
      → Allowed s
      → batch_guard (plain ult) k s.i s.loop_end ≡ false
      → Allowed (record s { place = choose ks })
  is_left s k ks p q z g w e = record {
    reach =
        subst (λ c. Reach body factor l r i j a (record (as_written s) { pc = c })) z
          (same_pc s q w);
    at = (g.0, settled factor s.i s.loop_end k ks (finished s k w e) g.1);
  }

  lowered :
      (s : Stepping A)
      → Allowed s
      → s.promoted ≡ false
      → (promote_loop factor l r j (as_written s)).loop_end ≤ s.loop_end
  lowered s w n =
      let v =
        (Reach-Inv body factor l r i j a f1 (omega arith) hj ij
          (next w.reach (interrupt (pc_at s.place) n))).top in
      let u = ((facts s w).fresh n).0 in omega (arith, u, v)

  stays :
      (s : Stepping A) {p : Place} {t : Stepping A}
      → s.place ≡ p
      → Allowed s
      → StepLoops run_step steps factor l r j s p t
      → Allowed t
  stays s q w snap = record {
    reach = same_pc s q w;
    at = (omega arith, StepsTo-Settled factor s.i s.loop_end steps to);
  }
  stays s q w (take_loop {k} {ks}) = record { reach = same_pc s q w; at = at_place s q w }
  stays s q w (pass_over {k} {m} {ks}) =
      let g = at_place s q w in record { reach = same_pc s q w; at = (g.0, g.1.2) }
  stays s q w (at_end {k} {ks} e) =
      let g = at_place s q w in
      record { reach = as_step s q w (leave (omega (arith, e, g.0))); at = tt }
  stays s q w no_loops =
      let g = at_place s q w in record { reach = as_step s q w (leave g.1); at = tt }
  stays s q w (first_step {k} {ks} e) = begins s k ks (preheader k ks) q refl (at_place s q w) w e
  stays s q w (no_step {k} {ks} e) = is_left s k ks (preheader k ks) q refl (at_place s q w) w e
  stays s q w (step_body {k} {ks}) =
      let g = at_place s q w in
      let b = step_bounds factor k ks f1 g.1 in
      let v = facts s w in
      let c : PcInv factor s.i s.sig_safe_i s.loop_end (running k) =
        subst (PcInv factor s.i s.sig_safe_i s.loop_end) (ap pc_at q) v.pc in
      record {
        reach =
            subst
              (λ z.
                Reach body factor l r i j a
                  (record (as_written s) { pc = publish; i = add32 s.i k; a = z }))
              (sym (runs k s.i s.a b.0 b.1 (omega (arith, c.3, v.top)))) (as_step s q w (run k));
        at = g;
      }
  stays s q w (store_step {k} {ks}) = record { reach = as_step s q w store; at = at_place s q w }
  stays s q w (next_step {k} {ks} e) = begins s k ks (latch k ks) q refl (at_place s q w) w e
  stays s q w (last_step {k} {ks} e) = is_left s k ks (latch k ks) q refl (at_place s q w) w e
  stays s q w (promote_step p n) = record {
    reach = as_step s q w (interrupt (pc_at p) n);
    at = At-mono factor s.i s.loop_end _ s.snapshot p (lowered s w n) (at_place s q w);
  }

  StepReach-Allowed : {s : Stepping A} → StepReach run_step steps factor l r i j a s → Allowed s
  StepReach-Allowed called = record { reach = here; at = tt }
  StepReach-Allowed (moved {s} rch st) = stays s refl (StepReach-Allowed rch) st

  -- Whatever the transplanted loops do, with promotions at any point, the loop of `parfor_` does in
  -- steps of at most the factor: every state that they reach is a state that the loop reaches. The
  -- steps are from 1 to the factor and the last is 1, the body of a loop computes the rounds of its
  -- step, the factor is from 1 to 2^31, and the range is in order and below 2^32.
  pub transplant-within :
      {s : Stepping A}
      → StepReach run_step steps factor l r i j a s
      → Reach body factor l r i j a (as_written s)
  transplant-within rch = (StepReach-Allowed rch).reach

-- ===== src/Parfor/Ends.antt =====
-- How the loop of `parfor_` ends: what it has done, what it leaves to the jobs, and that it ends.
use spork_llvm.Base.{
  ℕ, zero, suc, ◌+◌, ◌-◌, ◌*◌, ◌<◌, ◌≤◌, Bool, true, false, List, [], ◌∷◌, ◌++◌, ◌≡◌, ◌⊎◌, inl, inr,
  refl, ap, ◌∙◌, arith, u32_mod, add32-eq, dec_le, append-nil,
}
use spork_llvm.Parfor.{Range, rounds}
use spork_llvm.Parfor.Loop.{
  Pc, test, running, publish, exited, Loop, start, Step, enter, leave, run, store, interrupt, Reach,
  here, next,
}
use spork_llvm.Parfor.Invariant.{Inv, Split, Whole, PcInv, Step-Inv}
use native.Mathlib.Nat.{zero-add, add-zero, suc-add}

abbrev pub upto : ℕ → ℕ → List ℕ
upto zero i = []
upto (suc n) i = i ∷ upto n (i + 1)

-- The indices from `i` up to `j`, in order; none if `j ≤ i`.
abbrev pub indices : ℕ → ℕ → List ℕ
indices i j = upto (j - i) i

upto-add : (m n i : ℕ) → upto m i ++ upto n (i + m) ≡ upto (m + n) i
upto-add zero n i = rw (zero-add, add-zero)
upto-add (suc m) n i =
    rw suc-add
      (ap (◌∷◌ i) (ap (λ k. upto m (i + 1) ++ upto n k) (omega arith) ∙ upto-add m n (i + 1)))

indices-append : (i k j : ℕ) → i ≤ k → k ≤ j → indices i k ++ indices k j ≡ indices i j
indices-append i k j h h' =
    ap (λ z. upto (k - i) i ++ upto (j - k) z) (omega arith)
    ∙ upto-add (k - i) (j - k) i
    ∙ ap (λ n. upto n i) (omega arith)

abbrev pub rank : Pc → ℕ
rank test = 2
rank (running n) = 1
rank publish = 3
rank exited = 0

abbrev pub unpromoted : Bool → ℕ
unpromoted true = 0
unpromoted false = 1

abbrev pub measure : {A : Type 0} → ℕ → Loop A → ℕ
measure j s = 3 * (j - s.i) + rank s.pc + unpromoted s.promoted

module _ {A : Type 0} (body : ℕ → A → A) (factor l r i j : ℕ) (a : A) (f1 : 1 ≤ factor)
    (f : factor < u32_mod) (hj : j < u32_mod) (ij : i ≤ j) where
  start-Inv : Inv body factor i j a (start i j a)
  unfolding rounds
  start-Inv = record {
    lower = omega arith;
    stored = omega arith;
    upper = ij;
    top = omega arith;
    pc = refl;
    acc = let z : i - i ≡ 0 = omega arith in rw z;
    fresh = λ _. (refl, refl, refl);
    ranges = inl (refl, refl, refl);
  }

  pub Reach-Inv : {s : Loop A} → Reach body factor l r i j a s → Inv body factor i j a s
  Reach-Inv here = start-Inv
  Reach-Inv (next {s} rch st) = Step-Inv body factor l r i j a f1 f hj s refl (Reach-Inv rch) st

  -- What is left of the indices when the loop has got to its end `e`.
  covers :
      (e : ℕ) (left right : Range)
      → i ≤ e
      → Whole j e left right ⊎ Split i j e left right
      → indices i e ++ indices left.i left.j ++ indices right.i right.j ≡ indices i j
  covers e left right h (inl w) = rw (w.0, w.1, w.2, append-nil, append-nil)
  covers e left right h (inr s) = rw s.right_j (elim s.left_of [
    | inl (q, at_e) ↦ rw (q, append-nil, at_e) (indices-append i e j h (omega (arith, s.cut)))
    | inr (q, q', lt) ↦
        rw (q, q', indices-append i e right.i h (omega arith))
          (indices-append i right.i j (omega arith) (omega (arith, s.nonempty)))
  ])

  pub loop-covers :
      {s : Loop A}
      → Reach body factor l r i j a s
      → s.pc ≡ exited
      → (s.a ≡ rounds body (s.i - i) i a)
        × (indices i s.i ++ indices s.left.i s.left.j ++ indices s.right.i s.right.j ≡ indices i j)
  loop-covers {s} rch e =
      let v = Reach-Inv rch in
      let q : PcInv factor s.i s.sig_safe_i s.loop_end exited = rw e at v.pc in
      let end : s.loop_end ≡ s.i = omega (arith, v.upper) in
      (v.acc, covers s.i s.left s.right v.lower (rw end at v.ranges))

  falls :
      (s : Loop A) {p : Pc} {t : Loop A}
      → s.pc ≡ p
      → Inv body factor i j a s
      → Step body factor l r j s p t
      → measure j t < measure j s
  falls s q v (enter n n1 nf fits) = rw q (omega arith)
  falls s q v (leave h) = rw q (omega arith)
  falls s q v (run n) =
      let w : PcInv factor s.i s.sig_safe_i s.loop_end (running n) = rw q at v.pc in
      rw (q, add32-eq s.i n (omega (arith, v.top))) (omega (arith, v.top))
  falls s q v store = rw q (omega arith)
  falls s q v (interrupt p n) = rw (q, n) (omega arith)

  goes_on : (s : Loop A) (p : Pc) → (p ≡ exited) ⊎ ((t : Loop A) × Step body factor l r j s p t)
  goes_on s test = elim (dec_le s.loop_end s.i) [
    | yes h ↦ inr (_, leave h)
    | no h ↦ inr (_, enter 1 (omega arith) f1 (omega arith))
  ]
  goes_on s (running n) = inr (_, run n)
  goes_on s publish = inr (_, store)
  goes_on s exited = inl refl

  -- Every step, a promotion included, makes the measure smaller, and a loop that has not ended has a
  -- step.
  pub loop-terminates :
      {s : Loop A}
      → Reach body factor l r i j a s
      → ((t : Loop A) → Step body factor l r j s s.pc t → measure j t < measure j s)
        × ((s.pc ≡ exited) ⊎ ((t : Loop A) × Step body factor l r j s s.pc t))
  loop-terminates {s} rch = (λ t st. falls s refl (Reach-Inv rch) st, goes_on s s.pc)

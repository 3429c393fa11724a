-- ===== src/Parfor/Invariant.antt =====
-- What holds of the loop of `parfor_` at every step, wherever the promotion falls.
use native.Mathlib.Nat.{zero-add, add-zero, suc-add}
use spork_llvm.Base.{
  ℕ, zero, suc, ◌+◌, ◌-◌, ◌/◌, ◌<◌, ◌≤◌, true, false, ◌≡◌, ◌⊎◌, inl, inr, refl, arith, add32, sub32,
  u32_mod, leb, dec_le, le→leb, lt→leb, add32-eq, ap, ◌∙◌, sym, Bool-cases,
}
use spork_llvm.Parfor.{Range, empty, prom, midpoint, rounds}
use spork_llvm.Parfor.Loop.{
  Pc, test, running, publish, exited, Loop, promote_loop, Step, enter, leave, run, store, interrupt,
}

pub rounds-add {ℓ} :
    {A : Type ℓ} (body : ℕ → A → A) (m n i : ℕ) (a : A)
    → rounds body (m + n) i a ≡ rounds body n (i + m) (rounds body m i a)
unfolding rounds
rounds-add body zero n i a = rw (zero-add, add-zero)
rounds-add body (suc m) n i a =
    rw (suc-add, rounds-add body m n (i + 1) (body i a))
      (ap (λ k. rounds body n k (rounds body m (i + 1) (body i a))) (omega arith))

-- How far the loop has got since its last store.
abbrev pub PcInv : (factor i sig_safe_i loop_end : ℕ) → Pc → Type 0
PcInv factor i p e test = i ≡ p
PcInv factor i p e (running n) = (i ≡ p) × (1 ≤ n) × (n ≤ factor) × (i + n ≤ e)
PcInv factor i p e publish = (p ≤ i) × (i ≤ p + factor)
PcInv factor i p e exited = (i ≡ p) × (e ≤ i)

-- The two ways in which a promotion leaves the bounds of the loop and of the jobs.
pub record Split (i j e : ℕ) (left right : Range) : Type 0 where
  pub moved : i < e
  pub cut : e < j
  pub right_j : right.j ≡ j
  pub after_e : e ≤ right.i
  pub nonempty : right.i < j
  pub left_of :
      ((left ≡ empty) × (right.i ≡ e)) ⊎ ((left.i ≡ e) × (left.j ≡ right.i) × (e < right.i))

abbrev pub Whole : ℕ → ℕ → Range → Range → Type 0
Whole j e left right = (e ≡ j) × (left ≡ empty) × (right ≡ empty)

pub record Inv {A : Type 0} (body : ℕ → A → A) (factor i j : ℕ) (a : A) (s : Loop A) : Type 0 where
  pub lower : i ≤ s.i
  pub stored : i ≤ s.sig_safe_i
  pub upper : s.i ≤ s.loop_end
  pub top : s.loop_end ≤ j
  pub pc : PcInv factor s.i s.sig_safe_i s.loop_end s.pc
  pub acc : s.a ≡ rounds body (s.i - i) i a
  pub fresh : s.promoted ≡ false → Whole j s.loop_end s.left s.right
  pub ranges : Whole j s.loop_end s.left s.right ⊎ Split i j s.loop_end s.left s.right

pub midpoint-eq : (i j : ℕ) → i ≤ j → j < u32_mod → midpoint i j ≡ i + (j - i) / 2
unfolding midpoint
midpoint-eq i j h k = omega arith

-- What the promotion lambda returns, read without wrapping.
module _ (factor l r i j p : ℕ) (hj : j < u32_mod) (ip : i ≤ p) (pj : p ≤ j) (f1 : 1 ≤ factor)
    (f : factor < u32_mod) where
  pub prom-Whole :
      j ≤ p + factor
      → Whole j
          (prom factor l r j p j).loop_end
          (prom factor l r j p j).left
          (prom factor l r j p j).right
  unfolding prom
  prom-Whole h = rw (le→leb (sub32 j p) factor (omega arith)) (refl, refl, refl)

  pub prom_cut :
      p + factor < j
      → ((prom factor l r j p j).loop_end ≡ p + factor)
        × Split i j (p + factor) (prom factor l r j p j).left (prom factor l r j p j).right
  unfolding prom
  prom_cut h =
      rw
        (
          lt→leb (sub32 j p) factor (omega arith),
          add32-eq p factor (omega arith),
          midpoint-eq (p + factor) j (omega arith) hj,
        )
        (elim (Bool-cases (leb (p + factor + (j - (p + factor)) / 2) (p + factor))) [
          | inl e ↦ rw e (
            refl,
            record {
              moved = omega arith;
              cut = h;
              right_j = refl;
              after_e = omega arith;
              nonempty = omega arith;
              left_of = inl (refl, ground arith);
            },
          )
          | inr e ↦ rw e (
            refl,
            record {
              moved = omega arith;
              cut = h;
              right_j = refl;
              after_e = omega arith;
              nonempty = omega arith;
              left_of = inr (refl, refl, ground arith);
            },
          )
        ])

-- A new end of the loop, which the promotion lambda may have chosen.
bounded :
    (factor i p e j e' : ℕ) (pc : Pc)
    → PcInv factor i p e pc
    → i ≤ e
    → e ≡ j
    → (e' ≡ j) ⊎ ((e' ≡ p + factor) × (e' < j))
    → PcInv factor i p e' pc × (i ≤ e') × (e' ≤ j)
bounded factor i p e j e' test v u q h = ground arith
bounded factor i p e j e' (running n) v u q h = ground arith
bounded factor i p e j e' publish v u q h = ground arith
bounded factor i p e j e' exited v u q h = ground arith

progress-le : (factor i p e : ℕ) (pc : Pc) → PcInv factor i p e pc → p ≤ i
progress-le factor i p e test v = omega arith
progress-le factor i p e (running n) v = omega arith
progress-le factor i p e publish v = omega arith
progress-le factor i p e exited v = omega arith

module _ {A : Type 0} (body : ℕ → A → A) (factor l r i j : ℕ) (a : A) (f1 : 1 ≤ factor)
    (f : factor < u32_mod) (hj : j < u32_mod) where
  -- A state with a new end of the loop and new ranges of the jobs.
  abbrev cut_at : Loop A → ℕ → Range → Range → Loop A
  cut_at s e left right = record s { promoted = true; loop_end = e; left = left; right = right }

  cut_at-Inv :
      (s : Loop A) (p : Pc) (e : ℕ) (left right : Range)
      → s.pc ≡ p
      → s.loop_end ≡ j
      → (e ≡ j) ⊎ ((e ≡ s.sig_safe_i + factor) × (e < j))
      → Whole j e left right ⊎ Split i j e left right
      → Inv body factor i j a s
      → Inv body factor i j a (record (cut_at s e left right) { pc = p })
  cut_at-Inv s p e left right q w h ranges v =
      let b = bounded factor s.i s.sig_safe_i s.loop_end j e p (rw q at v.pc) v.upper w h in
      record {
        lower = v.lower;
        stored = v.stored;
        upper = b.1;
        top = b.2;
        pc = b.0;
        acc = v.acc;
        fresh = λ n. cc;
        ranges = ranges;
      }

  -- The promotion lambda, wherever it falls.
  interrupt-Inv :
      (s : Loop A) (p : Pc)
      → s.pc ≡ p
      → s.promoted ≡ false
      → Inv body factor i j a s
      → Inv body factor i j a (record (promote_loop factor l r j s) { pc = p })
  interrupt-Inv s p q n v = elim (dec_le j (s.sig_safe_i + factor)) [
    | yes h ↦
        let k = prom-Whole factor l r i j s.sig_safe_i hj v.stored le f1 f h in
        rw w (cut_at-Inv s p _ _ _ q w (inl k.0) (inl k) v)
    | no h ↦
        let k = prom_cut factor l r i j s.sig_safe_i hj v.stored le f1 f (omega arith) in
        rw w (cut_at-Inv s p _ _ _ q w (inr (k.0, rw k.0 (omega arith))) (inr (rw k.0 k.1)) v)
  ]
    where
      w : s.loop_end ≡ j
      w = (v.fresh n).0

      le : s.sig_safe_i ≤ j
      le = omega (arith, progress-le factor s.i s.sig_safe_i s.loop_end s.pc v.pc, v.upper, v.top)

  run-rounds :
      (n k : ℕ) → i ≤ k → rounds body n k (rounds body (k - i) i a) ≡ rounds body (k + n - i) i a
  run-rounds n k h = sym (
      ap (λ z. rounds body z i a) (omega arith)
      ∙ rounds-add body (k - i) n i a
      ∙ ap (λ z. rounds body n z (rounds body (k - i) i a)) (omega arith))

  pub Step-Inv :
      (s : Loop A) {p : Pc} {t : Loop A}
      → s.pc ≡ p
      → Inv body factor i j a s
      → Step body factor l r j s p t
      → Inv body factor i j a t
  Step-Inv s e v (enter n n1 nf fits) =
      let q : PcInv factor s.i s.sig_safe_i s.loop_end test = rw e at v.pc in
      record {
        lower = v.lower;
        stored = v.stored;
        upper = v.upper;
        top = v.top;
        pc = (q, n1, nf, fits);
        acc = v.acc;
        fresh = v.fresh;
        ranges = v.ranges;
      }
  Step-Inv s e v (leave h) =
      let q : PcInv factor s.i s.sig_safe_i s.loop_end test = rw e at v.pc in
      record {
        lower = v.lower;
        stored = v.stored;
        upper = v.upper;
        top = v.top;
        pc = (q, h);
        acc = v.acc;
        fresh = v.fresh;
        ranges = v.ranges;
      }
  Step-Inv s e v (run n) =
      let q : PcInv factor s.i s.sig_safe_i s.loop_end (running n) = rw e at v.pc in
      let no_wrap : add32 s.i n ≡ s.i + n = add32-eq s.i n (omega (arith, v.top)) in
      record {
        lower = rw no_wrap (omega (arith, v.lower));
        stored = v.stored;
        upper = rw no_wrap q.3;
        top = v.top;
        pc = rw no_wrap (omega arith, omega arith);
        acc = rw (no_wrap, v.acc) (run-rounds n s.i v.lower);
        fresh = v.fresh;
        ranges = v.ranges;
      }
  Step-Inv s e v store = record {
    lower = v.lower;
    stored = v.lower;
    upper = v.upper;
    top = v.top;
    pc = refl;
    acc = v.acc;
    fresh = v.fresh;
    ranges = v.ranges;
  }
  Step-Inv s e v (interrupt p q) = interrupt-Inv s p e q v

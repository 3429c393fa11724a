-- ===== src/Parfor/Correct.antt =====
-- `parfor_` computes what the sequential loop computes, wherever promotions fall.
use spork_llvm.Base.{
  ℕ, zero, suc, ◌+◌, ◌-◌, ◌<◌, ◌≤◌, true, false, ◌≡◌, inl, inr, refl, sym, ap, ◌∙◌, arith, u32_mod,
  ltb, lt→ltb, Bool-cases,
}
use spork_llvm.Parfor.{Monoid, IsMonoid, rounds, seqfor}
use spork_llvm.Parfor.Loop.{exited, Loop}
use spork_llvm.Parfor.Invariant.{Inv, Split, PcInv, rounds-add}
use spork_llvm.Parfor.Ends.{Reach-Inv}
use spork_llvm.Parfor.Runs.{join, Exec, exec}

-- The body adds to the accumulator from the right: what it does to `a ⊕ b` it does to `b`.
abbrev pub IsReduction : {A : Type 0} → Monoid A → (ℕ → A → A) → Type 0
IsReduction {A} m body = (k : ℕ) (a b : A) → body k (m.op a b) ≡ m.op a (body k b)

module _ {A : Type 0} (m : Monoid A) (laws : IsMonoid m) (body : ℕ → A → A)
    (red : IsReduction m body) where
  rounds-op : (n i : ℕ) (a b : A) → rounds body n i (m.op a b) ≡ m.op a (rounds body n i b)
  unfolding rounds
  rounds-op zero i a b = refl
  rounds-op (suc n) i a b =
      ap (rounds body n (i + 1)) (red i a b) ∙ rounds-op n (i + 1) a (body i b)

  -- A range is run on its own, and joined.
  rounds-seqfor : (i j : ℕ) (a : A) → m.op a (seqfor m body i j) ≡ rounds body (j - i) i a
  unfolding seqfor
  rounds-seqfor i j a =
      sym (rounds-op (j - i) i a m.identity) ∙ ap (rounds body (j - i) i) (laws.right_id a)

  rounds-split :
      (i k j : ℕ) (a : A)
      → i ≤ k
      → k ≤ j
      → rounds body (j - k) k (rounds body (k - i) i a) ≡ rounds body (j - i) i a
  rounds-split i k j a h h' = sym (
      ap (λ n. rounds body n i a) (omega arith)
      ∙ rounds-add body (k - i) (j - k) i a
      ∙ ap (λ z. rounds body (j - k) z (rounds body (k - i) i a)) (omega arith))

  -- Two joins in a row.
  join-op :
      (i k j : ℕ) (a la : A)
      → i ≤ k
      → k ≤ j
      → la ≡ seqfor m body k j
      → m.op (rounds body (k - i) i a) la ≡ rounds body (j - i) i a
  join-op i k j a la h h' q =
      rw q (rounds-seqfor k j (rounds body (k - i) i a) ∙ rounds-split i k j a h h')

  module _ (factor : ℕ) (f1 : 1 ≤ factor) (f : factor < u32_mod) where
    cut-rounds :
        (i j : ℕ) (a : A) (s : Loop A) (la ra : A)
        → Inv body factor i j a s
        → s.loop_end ≡ s.i
        → Split i j s.loop_end s.left s.right
        → s.promoted ≡ true
        → (s.left.i < s.left.j → s.left.j ≤ j → la ≡ seqfor m body s.left.i s.left.j)
        → (s.right.i < s.right.j → s.right.j ≤ j → ra ≡ seqfor m body s.right.i s.right.j)
        → join m s la ra ≡ rounds body (j - i) i a
    unfolding join
    cut-rounds i j a s la ra v end w p le re =
        let jr : ltb s.right.i s.right.j ≡ true =
          lt→ltb _ _ (omega (arith, w.right_j, w.nonempty)) in
        let r : ra ≡ seqfor m body s.right.i j =
          re (omega (arith, w.right_j, w.nonempty)) (omega (arith, w.right_j))
          ∙ ap (seqfor m body s.right.i) w.right_j in
        elim w.left_of [
          | inl (q, at_e) ↦
              let jl : ltb s.left.i s.left.j ≡ false = rw q in
              rw (p, jr, jl, v.acc)
                (join-op i s.i j a ra v.lower (omega (arith, v.upper, v.top))
                  (r ∙ ap (λ z. seqfor m body z j) (at_e ∙ end)))
          | inr (q, q', lt) ↦
              let jl : ltb s.left.i s.left.j ≡ true = lt→ltb _ _ (omega arith) in
              let l : la ≡ seqfor m body s.i s.right.i =
                le (omega arith) (omega (arith, w.nonempty))
                ∙ ap (λ z. seqfor m body z s.left.j) (q ∙ end)
                ∙ ap (seqfor m body s.i) q' in
              rw (p, jr, jl, v.acc, join-op i s.i s.right.i a la v.lower (omega arith) l)
                (join-op i s.right.i j a ra (omega (arith, v.lower)) (omega (arith, w.nonempty)) r)
        ]

    join-rounds :
        (i j : ℕ) (a : A) (s : Loop A) (la ra : A)
        → Inv body factor i j a s
        → s.loop_end ≡ s.i
        → (s.left.i < s.left.j → s.left.j ≤ j → la ≡ seqfor m body s.left.i s.left.j)
        → (s.right.i < s.right.j → s.right.j ≤ j → ra ≡ seqfor m body s.right.i s.right.j)
        → join m s la ra ≡ rounds body (j - i) i a
    unfolding join
    join-rounds i j a s la ra v end le re = elim v.ranges [
      | inl w ↦
          let q : s.i ≡ j = sym end ∙ w.0 in
          let acc : s.a ≡ rounds body (j - i) i a = rw q at v.acc in ground (arith, w.1, w.2)
      | inr w ↦ elim (Bool-cases s.promoted) [
        | inl p ↦ cut-rounds i j a s la ra v end w p le re
        | inr p ↦ absurd (omega (arith, w.cut, (v.fresh p).0))
      ]
    ]

    parfor-rounds :
        {i j : ℕ} {a b : A}
        → j < u32_mod
        → i ≤ j
        → Exec m body factor i j a b
        → b ≡ rounds body (j - i) i a
    unfolding seqfor
    parfor-rounds {i} {j} {a} hj ij (exec l r s la ra rch e le re) =
        let v = Reach-Inv body factor l r i j a f1 f hj ij rch in
        let q : PcInv factor s.i s.sig_safe_i s.loop_end exited = rw e at v.pc in
        join-rounds i j a s la ra v (omega (arith, v.upper))
          (λ lt top. parfor-rounds (omega arith) (omega arith) (le lt))
          (λ lt top. parfor-rounds (omega arith) (omega arith) (re lt))

    -- A run of `parfor_` on `[i, j)` from the accumulator `a` ends with `a ⊕ seqfor(i, j)`, whichever
    -- iterations its promotion and those of its jobs fall on, and whatever the unroll factor is. The
    -- body must reduce with the operation of the monoid.
    pub parfor-seqfor :
        {i j : ℕ} {a b : A}
        → j < u32_mod
        → i ≤ j
        → Exec m body factor i j a b
        → b ≡ m.op a (seqfor m body i j)
    parfor-seqfor {i} {j} {a} hj ij x = parfor-rounds hj ij x ∙ sym (rounds-seqfor i j a)

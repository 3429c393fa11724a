-- ===== src/Gem/Batched/Ends.antt =====
-- gempass, the batched loop with no promotion: it gets to its exit, with all the rounds done.
use spork_llvm.Base.{
  ℕ, zero, suc, ◌+◌, ◌-◌, ◌*◌, ◌^◌, ◌<◌, ◌≤◌, ◌≡◌, Bool, true, false, refl, sym, ap, ◌∙◌, subst,
  arith, u32_mod, add32-eq, if◌then◌else◌, dec_le, inl, inr, ◌⊎◌,
}
use spork_llvm.Parfor.{rounds}
use spork_llvm.Parfor.Invariant.{rounds-add}
use spork_llvm.Unroll.{ult}
use spork_llvm.Unroll.Guard.{plain}
use spork_llvm.Gem.Guard.{gem_guard}
use spork_llvm.Gem.Batched.{
  GemBlock, entry, clones, final_store, final_test, cleanup_preheader, cleanup_header,
  cleanup_store, cleanup_test, exit, GemLoop, enter_gem, run_clones, GemStep, enter_batch,
  skip_batch, run_all, store_last, next_batch, last_batch, some_left, all_done, run_scalar,
  store_scalar, go_on, leave_loop, GemReach, begun, stepped,
}
use spork_llvm.Gem.Batched.Run.{
  gem_block, run_gem, Arrives, step, later, at, over, ready, refused, preheader,
}

module _ {A : Type 0} (body : ℕ → A → A) (k : ℕ) where
  pub run_clones-rounds :
      (n i : ℕ) (a : A) → i + n < u32_mod → run_clones body n i a ≡ (i + n, rounds body n i a)
  unfolding run_clones rounds
  run_clones-rounds zero i a h = ap (λ z. (z, a)) (omega arith)
  run_clones-rounds (suc n) i a h =
      ap (λ z. run_clones body n z (body i a)) (add32-eq i 1 (omega arith))
      ∙ run_clones-rounds n (i + 1) (body i a) (omega arith)
      ∙ ap (λ z. (z, rounds body n (i + 1) (body i a))) (omega arith)

  -- The blocks that test whether a batch fits.
  abbrev Tests : GemBlock → Type 0
  Tests b = (b ≡ entry) ⊎ (b ≡ final_test)

  guard_block :
      (s : GemLoop A) (b : GemBlock) (i : ℕ) (a : A)
      → Tests b
      → gem_block body k (at body k s b i a i) b ≡ (
          if gem_guard (plain ult) k i s.loop_end
          then at body k s clones i a i
          else at body k s cleanup_preheader i a i)
  unfolding gem_block
  guard_block s b i a (inl e) = rw e refl
  guard_block s b i a (inr e) = rw e refl

  one_batch :
      (s : GemLoop A) (b : GemBlock) (i : ℕ) (a : A) (n : ℕ) (t : GemLoop A)
      → Tests b
      → 1 ≤ k
      → k ≤ 2 ^ 31
      → i + k ≤ s.loop_end
      → s.loop_end < u32_mod
      → Arrives body k n (at body k s final_test (i + k) (rounds body k i a) (i + k)) t
      → Arrives body k (suc (suc (suc n))) (at body k s b i a i) t
  unfolding gem_block
  one_batch s b i a n t w k1 kb h top arr =
      let e : gem_guard (plain ult) k i s.loop_end ≡ true =
        ready body k k i s.loop_end k1 kb top h in
      let r = run_clones-rounds k i a (omega (arith, h, top)) in
      step body k (suc (suc n)) (at body k s b i a i) (at body k s clones i a i) t
        (guard_block s b i a w ∙ rw e refl)
        (step body k (suc n) (at body k s clones i a i)
          (at body k s final_store (i + k) (rounds body k i a) i) t
          (ap (λ z. at body k s final_store z.0 z.1 i) r)
          (step body k n (at body k s final_store (i + k) (rounds body k i a) i)
            (at body k s final_test (i + k) (rounds body k i a) (i + k)) t refl arr))

  cleaned :
      (s : GemLoop A) (b : GemBlock) (m i : ℕ) (a : A)
      → Tests b
      → 1 ≤ k
      → k ≤ 2 ^ 31
      → m < k
      → i + m ≡ s.loop_end
      → s.loop_end < u32_mod
      → Arrives body k (2 + 3 * m) (at body k s b i a i) (over body k s m i a)
  cleaned s b m i a w k1 kb lt h top =
      let e : gem_guard (plain ult) k i s.loop_end ≡ false =
        refused body k k i s.loop_end k1 kb (omega (arith, h, top)) top (omega (arith, h, lt)) in
      later body k (suc (1 + 3 * m)) (2 + 3 * m) _ _ (omega arith) (
        step body k (1 + 3 * m) (at body k s b i a i) (at body k s cleanup_preheader i a i)
          (over body k s m i a) (guard_block s b i a w ∙ rw e refl)
          (preheader body k s m i a h top))

  batches :
      (bound : ℕ) (s : GemLoop A) (b : GemBlock) (m i : ℕ) (a : A)
      → Tests b
      → 1 ≤ k
      → k ≤ 2 ^ 31
      → m ≤ bound
      → i + m ≡ s.loop_end
      → s.loop_end < u32_mod
      → Arrives body k (2 + 3 * m) (at body k s b i a i) (over body k s m i a)
  batches zero s b m i a w k1 kb le h top = cleaned s b m i a w k1 kb (omega arith) h top
  batches (suc bound) s b m i a w k1 kb le h top = elim (dec_le k m) [
    | no p ↦ cleaned s b m i a w k1 kb (omega arith) h top
    | yes p ↦ later body k (suc (suc (suc (2 + 3 * (m - k))))) (2 + 3 * m) _ _ (omega (arith, p)) (
        subst
          (λ x.
            Arrives body k (suc (suc (suc (2 + 3 * (m - k))))) (at body k s b i a i)
              (at body k s exit s.loop_end x s.loop_end))
          (sym (rounds-add body k (m - k) i a) ∙ ap (λ n. rounds body n i a) (omega (arith, p)))
          (one_batch s b i a (2 + 3 * (m - k)) (over body k s (m - k) (i + k) (rounds body k i a)) w
            k1 kb (omega (arith, p, h)) top
            (batches bound s final_test (m - k) (i + k) (rounds body k i a) (inr refl) k1 kb
              (omega (arith, p)) (omega (arith, p, h)) top)))
  ]

  arrives :
      (i j : ℕ) (a : A)
      → 1 ≤ k
      → k ≤ 2 ^ 31
      → i ≤ j
      → j < u32_mod
      → Arrives body k
          (2 + 3 * (j - i))
          (enter_gem i j a)
          (over body k (enter_gem i j a) (j - i) i a)
  arrives i j a k1 kb ij hj =
      batches (j - i) (enter_gem i j a) entry (j - i) i a (inl refl) k1 kb (omega arith)
        (omega arith) hj

  module _ (l r i j : ℕ) (a : A) where
    branch :
        (s x y : GemLoop A) (t : Bool) (b : GemBlock)
        → (t ≡ true → GemStep body k l r j s b x)
        → (t ≡ false → GemStep body k l r j s b y)
        → GemStep body k l r j s b (if t then x else y)
    branch s x y true b f g = f refl
    branch s x y false b f g = g refl

    -- A block is a step body k of the loop, and the exit none.
    gem_block-GemStep :
        (s : GemLoop A) (b : GemBlock)
        → (gem_block body k s b ≡ s) ⊎ GemStep body k l r j s b (gem_block body k s b)
    unfolding gem_block
    gem_block-GemStep s entry = inr (branch s _ _ _ entry enter_batch skip_batch)
    gem_block-GemStep s clones = inr run_all
    gem_block-GemStep s final_store = inr store_last
    gem_block-GemStep s final_test = inr (branch s _ _ _ final_test next_batch last_batch)
    gem_block-GemStep s cleanup_preheader =
        inr (branch s _ _ _ cleanup_preheader some_left all_done)
    gem_block-GemStep s cleanup_header = inr run_scalar
    gem_block-GemStep s cleanup_store = inr store_scalar
    gem_block-GemStep s cleanup_test = inr (branch s _ _ _ cleanup_test go_on leave_loop)
    gem_block-GemStep s exit = inl refl

    run_gem-GemReach :
        (fuel : ℕ) (s : GemLoop A)
        → GemReach body k l r i j a s
        → GemReach body k l r i j a (run_gem body k fuel s)
    unfolding run_gem
    run_gem-GemReach zero s h = h
    run_gem-GemReach (suc fuel) s h =
        run_gem-GemReach fuel (gem_block body k s s.block) (elim (gem_block-GemStep s s.block) [
          | inl e ↦ subst (GemReach body k l r i j a) (sym e) h
          | inr st ↦ stepped h st
        ])

    -- With no promotion the batched loop ends: from its entry the run gets to the exit after at body k most
    -- `2 + 3 * (j - i)` blocks and stays there, with every round from `i` to `j` done in order and `j`
    -- published; and this state is one that the loop's steps reach. The count is from 1 to 2^31, and
    -- the range is in order and below 2^32.
    pub run_gem-Arrives :
        1 ≤ k
        → k ≤ 2 ^ 31
        → i ≤ j
        → j < u32_mod
        → (t : GemLoop A) × (t ≡ record (enter_gem i j a) {
          block = exit;
          i = j;
          a = rounds body (j - i) i a;
          sig_safe_i = j;
        })
          × Arrives body k (2 + 3 * (j - i)) (enter_gem i j a) t
          × GemReach body k l r i j a t
    run_gem-Arrives k1 kb ij hj =
        let arr = arrives i j a k1 kb ij hj in
        let t = over body k (enter_gem i j a) (j - i) i a in
        (
          t,
          refl,
          arr,
          subst (GemReach body k l r i j a) (arr (2 + 3 * (j - i)) (omega arith))
              (run_gem-GemReach (2 + 3 * (j - i)) (enter_gem i j a) begun),
        )

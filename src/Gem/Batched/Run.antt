-- ===== src/Gem/Batched/Run.antt =====
-- gempass, the batched loop with no promotion as a function, and its cleanup.
use spork_llvm.Base.{
  ℕ, zero, suc, ◌+◌, ◌*◌, ◌^◌, ◌<◌, ◌≤◌, ◌≡◌, true, false, refl, sym, ap, ◌∙◌, arith, u32_mod,
  add32, add32-eq, if◌then◌else◌, ltb, lt→ltb, le→ltb, Bool-cases, inl, inr,
}
use spork_llvm.Parfor.{rounds}
use spork_llvm.Unroll.{ult, i32, icmp}
use spork_llvm.Unroll.Guard.{plain, batch_guard-exact}
use spork_llvm.Gem.Guard.{gem_guard, gem_guard-batch_guard}
use spork_llvm.Gem.Batched.{
  GemBlock, entry, clones, final_store, final_test, cleanup_preheader, cleanup_header,
  cleanup_store, cleanup_test, exit, GemLoop, run_clones,
}

-- What a block does.
unfoldable pub gem_block : {A : Type 0} → (ℕ → A → A) → ℕ → GemLoop A → GemBlock → GemLoop A
unfolding gem_guard run_clones
gem_block body k s entry =
    if gem_guard (plain ult) k s.i s.loop_end
    then record s { block = clones }
    else record s { block = cleanup_preheader }
gem_block body k s clones = record s {
  block = final_store;
  i = (run_clones body k s.i s.a).0;
  a = (run_clones body k s.i s.a).1;
}
gem_block body k s final_store = record s { block = final_test; sig_safe_i = s.i }
gem_block body k s final_test =
    if gem_guard (plain ult) k s.i s.loop_end
    then record s { block = clones }
    else record s { block = cleanup_preheader }
gem_block body k s cleanup_preheader =
    if gem_guard (plain ult) 1 s.i s.loop_end
    then record s { block = cleanup_header }
    else record s { block = exit }
gem_block body k s cleanup_header = record s {
  block = cleanup_store;
  i = add32 s.i 1;
  a = body s.i s.a;
}
gem_block body k s cleanup_store = record s { block = cleanup_test; sig_safe_i = s.i }
gem_block body k s cleanup_test =
    if icmp ult i32 s.i s.loop_end
    then record s { block = cleanup_header }
    else record s { block = exit }
gem_block body k s exit = s

-- The run with no promotion, of so many blocks at most.
unfoldable pub run_gem : {A : Type 0} → (ℕ → A → A) → ℕ → (fuel : ℕ) → GemLoop A → GemLoop A
unfolding gem_block
run_gem body k zero s = s
run_gem body k (suc fuel) s = run_gem body k fuel (gem_block body k s s.block)

module _ {A : Type 0} (body : ℕ → A → A) (k : ℕ) where
  -- From `s` the run gets to `t` and stays there, after `n` blocks at the latest.
  abbrev pub Arrives : ℕ → GemLoop A → GemLoop A → Type 0
  Arrives n s t = (fuel : ℕ) → n ≤ fuel → run_gem body k fuel s ≡ t

  pub step :
      (n : ℕ) (s u t : GemLoop A)
      → gem_block body k s s.block ≡ u
      → Arrives n u t
      → Arrives (suc n) s t
  unfolding run_gem
  step n s u t e h zero le = absurd (omega arith)
  step n s u t e h (suc fuel) le = ap (run_gem body k fuel) e ∙ h fuel (omega arith)

  pub later : (m n : ℕ) (s t : GemLoop A) → m ≤ n → Arrives m s t → Arrives n s t
  later m n s t le h fuel f = h fuel (omega arith)

  pub stays_at : (t : GemLoop A) → t.block ≡ exit → Arrives 0 t t
  unfolding run_gem gem_block
  stays_at t e zero le = refl
  stays_at t e (suc fuel) le =
      ap (λ b. run_gem body k fuel (gem_block body k t b)) e ∙ stays_at t e fuel (omega arith)

  -- The loop `s` at another block.
  abbrev pub at : GemLoop A → GemBlock → ℕ → A → ℕ → GemLoop A
  at s b i a sig = record s { block = b; i = i; a = a; sig_safe_i = sig }

  -- The loop `s` at its exit, after so many rounds from `i` on.
  abbrev pub over : GemLoop A → ℕ → ℕ → A → GemLoop A
  over s n i a = at s exit s.loop_end (rounds body n i a) s.loop_end

  scalar :
      (s : GemLoop A) (i : ℕ) (a : A) (sig n : ℕ) (t : GemLoop A)
      → i < s.loop_end
      → s.loop_end < u32_mod
      → Arrives n (at s cleanup_test (i + 1) (body i a) (i + 1)) t
      → Arrives (2 + n) (at s cleanup_header i a sig) t
  unfolding gem_block
  scalar s i a sig n t h top arr = later (suc (suc n)) (2 + n) _ _ (omega arith) (
      step (suc n) (at s cleanup_header i a sig) (at s cleanup_store (i + 1) (body i a) sig) t
        (ap (λ z. at s cleanup_store z (body i a) sig) (add32-eq i 1 (omega (arith, h, top))))
        (step n (at s cleanup_store (i + 1) (body i a) sig)
          (at s cleanup_test (i + 1) (body i a) (i + 1)) t refl arr))

  cleanup :
      (s : GemLoop A) (n i : ℕ) (a : A) (sig : ℕ)
      → i + suc n ≡ s.loop_end
      → s.loop_end < u32_mod
      → Arrives (3 * suc n) (at s cleanup_header i a sig) (over s (suc n) i a)
  unfolding gem_block rounds
  cleanup s zero i a sig h top = later (2 + suc 0) (3 * 1) _ _ (omega arith) (
      scalar s i a sig 1 (over s 1 i a) (omega (arith, h)) top (
        step 0 (at s cleanup_test (i + 1) (body i a) (i + 1)) (over s 1 i a) (over s 1 i a)
          (let e : ltb (i + 1) s.loop_end ≡ false = le→ltb _ _ (omega (arith, h)) in
            rw e (ap (λ z. at s exit z (body i a) z) (omega (arith, h))))
          (stays_at (over s 1 i a) refl)))
  cleanup s (suc n) i a sig h top =
      later (2 + suc (3 * suc n)) (3 * suc (suc n)) _ _ (omega arith) (
        scalar s i a sig (suc (3 * suc n)) (over s (suc (suc n)) i a) (omega (arith, h)) top (
          step (3 * suc n) (at s cleanup_test (i + 1) (body i a) (i + 1))
            (at s cleanup_header (i + 1) (body i a) (i + 1)) (over s (suc (suc n)) i a)
            (let e : ltb (i + 1) s.loop_end ≡ true = lt→ltb _ _ (omega (arith, h)) in rw e refl)
            (cleanup s n (i + 1) (body i a) (i + 1) (omega (arith, h)) top)))

  pub ready :
      (n i e : ℕ)
      → 1 ≤ n
      → n ≤ 2 ^ 31
      → e < u32_mod
      → i + n ≤ e
      → gem_guard (plain ult) n i e ≡ true
  ready n i e n1 nb top h =
      gem_guard-batch_guard (plain ult) n i e (omega arith)
      ∙ (batch_guard-exact ult n i e n1 nb (omega arith) top).1 h

  pub refused :
      (n i e : ℕ)
      → 1 ≤ n
      → n ≤ 2 ^ 31
      → i < u32_mod
      → e < u32_mod
      → e < i + n
      → gem_guard (plain ult) n i e ≡ false
  refused n i e n1 nb hi top h = elim (Bool-cases (gem_guard (plain ult) n i e)) [
    | inr q ↦ q
    | inl q ↦
        let f =
          (batch_guard-exact ult n i e n1 nb hi top).0
            (sym (gem_guard-batch_guard (plain ult) n i e hi) ∙ q) in
        absurd (omega (arith, f, h))
  ]

  pub preheader :
      (s : GemLoop A) (n i : ℕ) (a : A)
      → i + n ≡ s.loop_end
      → s.loop_end < u32_mod
      → Arrives (1 + 3 * n) (at s cleanup_preheader i a i) (over s n i a)
  unfolding gem_block rounds
  preheader s zero i a h top = later 1 (1 + 3 * 0) _ _ (omega arith) (
      step 0 (at s cleanup_preheader i a i) (over s 0 i a) (over s 0 i a)
        (let e : gem_guard (plain ult) 1 i s.loop_end ≡ false =
            refused 1 i s.loop_end (omega arith) (omega arith) (omega (arith, h)) top
              (omega (arith, h)) in
          rw e (ap (λ z. at s exit z a z) (omega (arith, h))))
        (stays_at (over s 0 i a) refl))
  preheader s (suc n) i a h top = later (suc (3 * suc n)) (1 + 3 * suc n) _ _ (omega arith) (
      step (3 * suc n) (at s cleanup_preheader i a i) (at s cleanup_header i a i)
        (over s (suc n) i a)
        (let e : gem_guard (plain ult) 1 i s.loop_end ≡ true =
            ready 1 i s.loop_end (omega arith) (omega arith) top (omega (arith, h)) in
          rw e refl)
        (cleanup s n i a i h top))

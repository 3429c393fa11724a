-- ===== src/Parfor/Reversed.antt =====
-- `parfor_` at `uint32_t` on a range whose end lies before its beginning.
use spork_llvm.Base.{
  ℕ, ◌+◌, ◌-◌, ◌<◌, ◌≤◌, ◌≡◌, refl, arith, u32_mod, add32, sub32, leb, lt→leb, false,
}
use spork_llvm.Parfor.{Monoid, prom, rounds, seqfor}
use spork_llvm.Parfor.Loop.{
  Loop, test, publish, start, promote_loop, enter, run, interrupt, Reach, here, next,
}

-- The difference wraps, so the handler takes the range for a long one and moves its end past `i`.
prom_end :
    (factor l r i j : ℕ)
    → j < i
    → i + factor < u32_mod
    → factor < j + u32_mod - i
    → (prom factor l r j i j).loop_end ≡ i + factor
unfolding prom
prom_end factor l r i j h fit short =
    let long : leb (sub32 j i) factor ≡ false = lt→leb (sub32 j i) factor (omega arith) in
    let e : add32 i factor ≡ i + factor = omega arith in ground (arith, long, e)

module _ {A : Type 0} (m : Monoid A) (body : ℕ → A → A) (factor l r i j : ℕ) (f1 : 1 ≤ factor) where
  -- With a promotion at its beginning, which tokens bring about, the loop runs the body at `i`, where
  -- `seqfor` runs no body at all. The factor is at most the difference modulo 2^32.
  pub reversed-runs :
      (a : A)
      → j < i
      → i + factor < u32_mod
      → factor < j + u32_mod - i
      → (seqfor m body i j ≡ m.identity)
        × ((s : Loop A) × Reach body factor l r i j a s × (s.pc ≡ publish) × (s.a ≡ body i a))
  unfolding seqfor rounds
  reversed-runs a h fit short = (
    let z : j - i ≡ 0 = omega arith in rw z refl,
    (
      _,
      next (next (next here (interrupt test refl)) (enter 1 (omega arith) f1 fits)) (run 1),
      refl,
      refl,
    ),
  )
    where
      fits : i + 1 ≤ (promote_loop factor l r j (start i j a)).loop_end
      fits = omega (arith, prom_end factor l r i j h fit short)

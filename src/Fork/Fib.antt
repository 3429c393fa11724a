-- ===== src/Fork/Fib.antt =====
-- fib.hpp: `fibE` under any schedule, and `fibSeq`, at 32 bits.
use spork_llvm.Base.{
  ℕ, zero, suc, ◌+◌, ◌%◌, ◌≡◌, List, [], ◌∷◌, refl, ap₂, ◌∙◌, arith, u32_mod, add32,
}
use spork_llvm.Fork.{Outcome, unpromoted, unstolen, stolen, spork}

unfoldable pub fib_seq : ℕ → ℕ
fib_seq zero = 0
fib_seq (suc zero) = 1
fib_seq (suc (suc n)) = add32 (fib_seq (suc n)) (fib_seq n)

-- Which call of the tree of calls: the way to it from the root, the last turn first.
pub data Turn : Type 0 where
  body : Turn
  job : Turn

-- `fibE`: what becomes of the spork of each call is up to the schedule. Without a promotion the call
-- itself evaluates `fibE(n - 2)`; otherwise `jp.r` is read after `jp.sync(false)`, where `run` has
-- stored it, in this thread or in a thief's.
unfoldable pub fib_e : (List Turn → Outcome) → List Turn → ℕ → ℕ
unfolding spork
fib_e schedule at zero = 0
fib_e schedule at (suc zero) = 1
fib_e schedule at (suc (suc n)) =
    let l = fib_e schedule (body ∷ at) (suc n) in
    let r = fib_e schedule (job ∷ at) n in
    spork (schedule at) l r (λ l. add32 l r) add32 (λ l. add32 l r)

-- The Fibonacci numbers, without a bound, two at a time.
abbrev pub fibs : ℕ → ℕ × ℕ
fibs zero = (0, 1)
fibs (suc n) = let (a, b) = fibs n in (b, a + b)

spork_sum :
    (o : Outcome) (l r : ℕ) → spork o l r (λ l. add32 l r) add32 (λ l. add32 l r) ≡ add32 l r
unfolding spork
spork_sum unpromoted l r = refl
spork_sum unstolen l r = refl
spork_sum stolen l r = refl

fib_e-fib_seq :
    (schedule : List Turn → Outcome) (at : List Turn) (n : ℕ) → fib_e schedule at n ≡ fib_seq n
unfolding fib_e fib_seq
fib_e-fib_seq schedule at zero = refl
fib_e-fib_seq schedule at (suc zero) = refl
fib_e-fib_seq schedule at (suc (suc n)) =
    spork_sum (schedule at) (fib_e schedule (body ∷ at) (suc n)) (fib_e schedule (job ∷ at) n)
    ∙ ap₂ add32 (fib_e-fib_seq schedule (body ∷ at) (suc n)) (fib_e-fib_seq schedule (job ∷ at) n)

fib_seq_base : (fib_seq 0 ≡ 0) × (fib_seq 1 ≡ 1)
unfolding fib_seq
fib_seq_base = (refl, refl)

fib_seq_next : (n : ℕ) → fib_seq (suc (suc n)) ≡ add32 (fib_seq (suc n)) (fib_seq n)
unfolding fib_seq
fib_seq_next n = refl

fib_seq-fibs :
    (n : ℕ) → (fib_seq n ≡ (fibs n).0 % u32_mod) × (fib_seq (suc n) ≡ (fibs n).1 % u32_mod)
fib_seq-fibs zero = fib_seq_base
fib_seq-fibs (suc n) =
    let (p, q) = fib_seq-fibs n in (q, fib_seq_next n ∙ ap₂ add32 q p ∙ omega arith)

-- Whatever is promoted and stolen, `fibE` computes the Fibonacci number modulo 2^32, and so does
-- `fibSeq`.
pub fib_e-fibs :
    (schedule : List Turn → Outcome) (n : ℕ)
    → (fib_e schedule [] n ≡ (fibs n).0 % u32_mod) × (fib_seq n ≡ (fibs n).0 % u32_mod)
fib_e-fibs schedule n = (fib_e-fib_seq schedule [] n ∙ (fib_seq-fibs n).0, (fib_seq-fibs n).0)

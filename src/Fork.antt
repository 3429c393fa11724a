-- ===== src/Fork.antt =====
-- spork.hpp and par.hpp: the four ways on from a spork, and programs made of `par`. Children: what a
-- program without races computes (Races), and fib.hpp (Fib).
pub mod Races
pub mod Fib
use spork_llvm.Base.{List, [], ◌∷◌, ◌++◌}

-- What becomes of a spork: its slot is closed without a promotion, or its job is taken back from the
-- own deque by the join, or a thief has taken it.
pub data Outcome : Type 0 where
  unpromoted : Outcome
  unstolen : Outcome
  stolen : Outcome

-- `spork(body, spwn, unpr, prom, unst)`, on the results of the body and of the job.
unfoldable pub spork :
    {BR SR RR : Type 0} → Outcome → BR → SR → (BR → RR) → (BR → SR → RR) → (BR → RR) → RR
spork unpromoted br sr unpr prom unst = unpr br
spork unstolen br sr unpr prom unst = unst br
spork stolen br sr unpr prom unst = prom br sr

-- A program: single accesses to the state, one program after another, and `par(lamL, lamR)`.
pub data Prog (St : Type 0) : Type 0 where
  act : (St → St) → Prog St
  andthen : Prog St → Prog St → Prog St
  par : Prog St → Prog St → Prog St

module _ {St : Type 0} where
  -- The steps of two threads in some order that keeps each thread's own.
  pub data Interleaved : List (St → St) → List (St → St) → List (St → St) → Type 0 where
    done : Interleaved [] [] []
    left :
        {f : St → St} {xs ys zs : List (St → St)}
        → Interleaved xs ys zs
        → Interleaved (f ∷ xs) ys (f ∷ zs)
    right :
        {f : St → St} {xs ys zs : List (St → St)}
        → Interleaved xs ys zs
        → Interleaved xs (f ∷ ys) (f ∷ zs)

  -- The accesses that a run makes, in order. `par` runs `lamR` itself, as the callback of `sync` or
  -- without a promotion; or a thief runs it from some point on, while `lamL` and the join go on.
  pub data Trace : Prog St → List (St → St) → Type 0 where
    acts : (f : St → St) → Trace (act f) (f ∷ [])
    then_ :
        {p q : Prog St} {xs ys : List (St → St)}
        → Trace p xs
        → Trace q ys
        → Trace (andthen p q) (xs ++ ys)
    here :
        {p q : Prog St} {xs ys : List (St → St)}
        → Trace p xs
        → Trace q ys
        → Trace (par p q) (xs ++ ys)
    thief :
        {p q : Prog St} {xs ys zs : List (St → St)}
        → Trace p xs
        → Trace q ys
        → Interleaved xs ys zs
        → Trace (par p q) zs

  unfoldable pub run : List (St → St) → St → St
  run [] s = s
  run (f ∷ fs) s = run fs (f s)

  -- Every `par` as `parSeq(lamL, lamR)`.
  unfoldable pub par_seq : Prog St → St → St
  par_seq (act f) s = f s
  par_seq (andthen p q) s = par_seq q (par_seq p s)
  par_seq (par p q) s = par_seq q (par_seq p s)

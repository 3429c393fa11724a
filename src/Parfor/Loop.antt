-- ===== src/Parfor/Loop.antt =====
-- The loop of `parfor_` one access to its volatile variables at a time. The promotion lambda may run
-- between any two steps, and at most once. A step runs up to `factor` rounds between two stores of
-- the progress, as the compiled loop does (README of fablepass): one, if no pass has batched it.
use spork_llvm.Base.{ℕ, ◌+◌, ◌≤◌, Bool, true, false, ◌≡◌, add32}
use spork_llvm.Parfor.{Range, empty, Promotion, prom, rounds}

pub data Pc : Type 0 where
  test : Pc  -- before the load of `loop_end`
  running : ℕ → Pc  -- the load allowed a step of so many rounds
  publish : Pc  -- before the store of `sig_safe_i`
  exited : Pc

pub record Loop (A : Type 0) : Type 0 where
  pub pc : Pc
  pub i : ℕ
  pub a : A
  pub sig_safe_i : ℕ
  pub loop_end : ℕ
  pub promoted : Bool
  pub left : Range
  pub right : Range

module _ {A : Type 0} where
  -- The jobs' bounds are not initialised; they are read only after a promotion.
  abbrev pub start : ℕ → ℕ → A → Loop A
  start i j a = record {
    pc = test;
    i = i;
    a = a;
    sig_safe_i = i;
    loop_end = j;
    promoted = false;
    left = empty;
    right = empty;
  }

  abbrev pub promote_loop : ℕ → ℕ → ℕ → ℕ → Loop A → Loop A
  promote_loop factor l r j s =
      let p : Promotion = prom factor l r j s.sig_safe_i s.loop_end in
      record s { promoted = true; loop_end = p.loop_end; left = p.left; right = p.right }

module _ {A : Type 0} (body : ℕ → A → A) where
  pub data Step (factor l r j : ℕ) (s : Loop A) : Pc → Loop A → Type 0 where
    enter :
        (n : ℕ)
        → 1 ≤ n
        → n ≤ factor
        → s.i + n ≤ s.loop_end
        → Step factor l r j s test (record s { pc = running n })
    leave : s.loop_end ≤ s.i → Step factor l r j s test (record s { pc = exited })
    run :
        (n : ℕ)
        → Step factor l r j s
            (running n)
            (record s { pc = publish; i = add32 s.i n; a = rounds body n s.i s.a })
    store : Step factor l r j s publish (record s { pc = test; sig_safe_i = s.i })
    interrupt :
        (p : Pc)
        → s.promoted ≡ false
        → Step factor l r j s p (record (promote_loop factor l r j s) { pc = p })

  pub data Reach (factor l r i j : ℕ) (a : A) : Loop A → Type 0 where
    here : Reach factor l r i j a (start i j a)
    next :
        {s t : Loop A}
        → Reach factor l r i j a s
        → Step factor l r j s s.pc t
        → Reach factor l r i j a t

-- ===== src/Parfor/Runs.antt =====
-- Whole runs of `parfor_`: the loop, then the joins of the jobs that a promotion made, each job a
-- run of `parfor_` on its range from the identity (`SpwnJob::run`). Which thread runs a job does not
-- matter to its result: jobs share no state but the body's own.
use spork_llvm.Base.{ℕ, ◌<◌, ◌≡◌, if◌then◌else◌, ltb}
use spork_llvm.Parfor.{Monoid}
use spork_llvm.Parfor.Loop.{exited, Loop, Reach}

-- The code behind the loop, with the results of the jobs.
unfoldable pub join : {A : Type 0} → Monoid A → Loop A → A → A → A
join m s la ra =
    if s.promoted
    then (let a₁ = if ltb s.left.i s.left.j then m.op s.a la else s.a in
        if ltb s.right.i s.right.j then m.op a₁ ra else a₁)
    else s.a

-- `Exec i j a b`: `parfor_(i, j, a, body, binop)` may end with `b` in `a`.
pub data Exec {A : Type 0} (m : Monoid A) (body : ℕ → A → A) (factor : ℕ)
    : ℕ → ℕ → A → A → Type 0 where
  exec :
      {i j : ℕ} {a : A} (l r : ℕ) (s : Loop A) (la ra : A)
      → Reach body factor l r i j a s
      → s.pc ≡ exited
      → (s.left.i < s.left.j → Exec m body factor s.left.i s.left.j m.identity la)
      → (s.right.i < s.right.j → Exec m body factor s.right.i s.right.j m.identity ra)
      → Exec m body factor i j a (join m s la ra)

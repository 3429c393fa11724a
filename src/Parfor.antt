-- ===== src/Parfor.antt =====
-- parfor.hpp: `seqfor`, and the interruptible loop of `parfor_` with its promotion handler, at
-- `idx = uint32_t`. Children: one loop under interrupts (Loop, Invariant, Ends), whole runs with the
-- jobs that a promotion makes (Runs, Correct), and the choice of the index type (Dispatch).
pub mod Loop
pub mod Invariant
pub mod Ends
pub mod Runs
pub mod Correct
pub mod Total
pub mod Dispatch
pub mod Reversed
use spork_llvm.Base.{
  ℕ, zero, suc, ◌+◌, ◌-◌, ◌/◌, ◌<◌, Bool, true, false, List, [], ◌∷◌, ◌≡◌, if◌then◌else◌, add32,
  sub32, ltb, leb,
}
use spork_llvm.Worker.{Request, half_up, all}

-- A `BinOp`: a `parlay::monoid`.
pub record Monoid (A : Type 0) : Type 0 where
  pub identity : A
  pub op : A → A → A

pub record IsMonoid {A : Type 0} (m : Monoid A) : Type 0 where
  pub left_id : (a : A) → m.op m.identity a ≡ a
  pub right_id : (a : A) → m.op a m.identity ≡ a
  pub assoc : (a b c : A) → m.op (m.op a b) c ≡ m.op a (m.op b c)

-- `n` rounds of `body(i, a); i++`. A body maps an index and the accumulator to the new accumulator.
unfoldable pub rounds {ℓ} : {A : Type ℓ} → (ℕ → A → A) → ℕ → ℕ → A → A
rounds body zero i a = a
rounds body (suc n) i a = rounds body n (i + 1) (body i a)

-- `seqfor(i, j, body, binop)`
unfoldable pub seqfor : {A : Type 0} → Monoid A → (ℕ → A → A) → ℕ → ℕ → A
unfolding rounds
seqfor m body i j = rounds body (j - i) i m.identity

unfoldable pub midpoint : ℕ → ℕ → ℕ
midpoint i j = add32 i (sub32 j i / 2)

-- The bounds `i` and `j` of a `SpwnJob`.
pub record Range : Type 0 where
  pub i : ℕ
  pub j : ℕ

abbrev pub empty : Range
empty = record { i = 0; j = 0 }

-- What a promotion decides: the new end of the loop, the ranges of the two jobs, and which of the
-- jobs it enqueues with how many tokens, where `l` and `r` name the jobs.
pub record Promotion : Type 0 where
  pub loop_end : ℕ
  pub left : Range
  pub right : Range
  pub requests : List Request

-- The promotion lambda of `parfor_`; `inc_i` is what `__spork_get_unroll_factor` returns.
unfoldable pub prom : (inc_i l r j sig_safe_i loop_end : ℕ) → Promotion
unfolding midpoint
prom inc_i l r j sig_safe_i loop_end =
    if leb (sub32 loop_end sig_safe_i) inc_i
    then record { loop_end = loop_end; left = empty; right = empty; requests = [] }
    else (let prom_i : ℕ = add32 sig_safe_i inc_i in
        let mid : ℕ = midpoint prom_i loop_end in
        let right : Range = record { i = mid; j = j } in
        let enqueue_r : Request = record { job = r; part = half_up } in
        let enqueue_l : Request = record { job = l; part = all } in
        if leb mid prom_i
        then record { loop_end = prom_i; left = empty; right = right; requests = enqueue_r ∷ [] }
        else record {
          loop_end = prom_i;
          left = record { i = prom_i; j = mid };
          right = right;
          requests = enqueue_r ∷ enqueue_l ∷ [];
        })

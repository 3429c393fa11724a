-- ===== src/Queens.antt =====
-- nqueens.cpp: `safe` and `countSol`, at 32-bit unsigned columns and rows. Child: what they count.
pub mod Count
use spork_llvm.Base.{
  ℕ, zero, suc, ◌+◌, Bool, true, false, ◌||◌, List, [], ◌∷◌, if◌then◌else◌, ◌==◌, leb, add32, sub32,
}
use spork_llvm.Parfor.{Monoid, seqfor}

-- `Queens`, without the pointer to the rest of the list.
pub record Queen : Type 0 where
  pub x : ℕ
  pub y : ℕ

unfoldable pub safe : ℕ → ℕ → List Queen → Bool
safe i j [] = true
safe i j (q ∷ qs) =
    if i == q.x || j == q.y || sub32 i j == sub32 q.x q.y || add32 i j == add32 q.x q.y
    then false
    else safe i j qs

-- `parlay::plus<uint>`
abbrev pub plus_uint : Monoid ℕ
plus_uint = record { identity = 0; op = add32 }

-- The lambda of `countSol`, where `count` is the call for the next column.
abbrev pub count_body : (List Queen → ℕ) → ℕ → List Queen → ℕ → ℕ → ℕ
count_body count i q j sols =
    let more : ℕ = count (record { x = i; y = j } ∷ q) in
    if safe i j q then add32 sols more else sols

-- `countSol(i, n, q)`, with the fuel `n - i`. The parallel loop is the sequential one, as `parfor-seqfor`
-- has it.
unfoldable pub count_sol : ℕ → ℕ → ℕ → List Queen → ℕ
count_sol zero i n q = 1
count_sol (suc fuel) i n q =
    if leb n i then 1 else seqfor plus_uint (count_body (count_sol fuel (i + 1) n) i q) 0 n

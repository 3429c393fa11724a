-- ===== src/Queens/Count.antt =====
-- `safe` is exact on boards of at most 2^31 columns and rows, and `countSol` counts the ways to go on.
use spork_llvm.Base.{
  ℕ, zero, suc, ◌+◌, ◌-◌, ◌%◌, ◌^◌, ◌<◌, ◌≤◌, ◌≡◌, Bool, true, false, ◌||◌, List, [], ◌∷◌, ◌++◌,
  refl, sym, ap, ap₂, ◌∙◌, arith, u32_mod, add32, sub32, ◌==◌, if◌then◌else◌, length, length-append,
  Bool-cases, lt→leb, inl, inr,
}
use spork_llvm.Parfor.{rounds, seqfor}
use spork_llvm.Queens.{Queen, safe, plus_uint, count_body, count_sol}

-- A line through the square goes through the queen: its column, its row, or a diagonal, on whole
-- numbers, where `i - j` is `x - y` if `i + y` is `x + j`.
abbrev pub in_line : ℕ → ℕ → Queen → Bool
in_line i j q = i == q.x || j == q.y || i + q.y == q.x + j || i + j == q.x + q.y

abbrev pub all_clear : ℕ → ℕ → List Queen → Bool
all_clear i j [] = true
all_clear i j (q ∷ qs) = if in_line i j q then false else all_clear i j qs

abbrev pub OnBoard : List Queen → Type 0
OnBoard [] = Unit {0}
OnBoard (q ∷ qs) = (q.x < 2 ^ 31) × (q.y < 2 ^ 31) × OnBoard qs

attacks : ℕ → ℕ → Queen → Bool
attacks i j q = i == q.x || j == q.y || sub32 i j == sub32 q.x q.y || add32 i j == add32 q.x q.y

attacks-in_line :
    (i j x y : ℕ)
    → i < 2 ^ 31
    → j < 2 ^ 31
    → x < 2 ^ 31
    → y < 2 ^ 31
    → attacks i j (record { x = x; y = y }) ≡ in_line i j (record { x = x; y = y })
unfolding attacks
attacks-in_line i j x y hi hj hx hy = ground arith

-- For a square and a board with columns and rows below 2^31 the wrapping tests of `safe` are exact.
safe-all_clear :
    (i j : ℕ) (qs : List Queen)
    → i < 2 ^ 31
    → j < 2 ^ 31
    → OnBoard qs
    → safe i j qs ≡ all_clear i j qs
unfolding safe attacks
safe-all_clear i j [] hi hj on = refl
safe-all_clear i j (q ∷ qs) hi hj on =
    ap₂ (λ b c. if b then false else c) (attacks-in_line i j q.x q.y hi hj on.0 on.1)
      (safe-all_clear i j qs hi hj on.2)

abbrev each_row : (ℕ → List (List Queen)) → ℕ → ℕ → List (List Queen)
each_row next zero j = []
each_row next (suc m) j = next j ++ each_row next m (j + 1)

-- The boards that `k` more columns, from column `i`, may end with, tried row by row.
abbrev pub boards : ℕ → ℕ → ℕ → List Queen → List (List Queen)
boards zero i n q = q ∷ []
boards (suc k) i n q =
    each_row (λ j. if all_clear i j q then boards k (i + 1) n (record { x = i; y = j } ∷ q) else [])
      n 0

-- The loop over the rows, where `count` counts what `next` lists.
row_count :
    (count : List Queen → ℕ) (next : ℕ → List (List Queen)) (i n : ℕ) (q : List Queen)
    → ((j a : ℕ) → j < n → count_body count i q j (a % u32_mod) ≡ (a + length (next j)) % u32_mod)
    → (m j a : ℕ) → j + m ≤ n
    → rounds (count_body count i q) m j (a % u32_mod) ≡ (a + length (each_row next m j)) % u32_mod
unfolding rounds
row_count count next i n q h zero j a fits = ap (λ z. z % u32_mod) (omega arith)
row_count count next i n q h (suc m) j a fits =
    ap (rounds (count_body count i q) m (j + 1)) (h j a (omega arith))
    ∙ row_count count next i n q h m (j + 1) (a + length (next j)) (omega arith)
    ∙ ap (λ z. z % u32_mod) (omega (arith, length-append (next j) (each_row next m (j + 1))))

one_row :
    (count : List Queen → ℕ) (next : List Queen → List (List Queen)) (i : ℕ) (q : List Queen)
    → i < 2 ^ 31
    → OnBoard q
    → ((q' : List Queen) → OnBoard q' → count q' ≡ length (next q') % u32_mod)
    → (j a : ℕ) → j < 2 ^ 31
    → count_body count i q j (a % u32_mod)
      ≡ (a + length (if all_clear i j q then next (record { x = i; y = j } ∷ q) else [])) % u32_mod
one_row count next i q hi on h j a hj =
    rw (sym (safe-all_clear i j q hi hj on)) (elim (Bool-cases (safe i j q)) [
      | inl e ↦ rw (e, h (record { x = i; y = j } ∷ q) (hi, hj, on)) (omega arith)
      | inr e ↦ rw e (ap (λ z. z % u32_mod) (omega arith))
    ])

seqfor-rounds :
    (body : ℕ → ℕ → ℕ) (n : ℕ) → seqfor plus_uint body 0 n ≡ rounds body n 0 (0 % u32_mod)
unfolding seqfor
seqfor-rounds body n = let z : n - 0 ≡ n = omega arith in rw z

-- `countSol` counts, modulo 2^32, the boards of at most 2^31 columns and rows that can be completed
-- from the queens given: each further column gets a queen with which no earlier one shares a row, a
-- column or a diagonal, on whole numbers. The queens given lie on columns and rows below 2^31, and the
-- fuel is the number of columns left.
pub count_sol-boards :
    (k i n : ℕ) (q : List Queen)
    → i + k ≡ n
    → n ≤ 2 ^ 31
    → OnBoard q
    → count_sol k i n q ≡ length (boards k i n q) % u32_mod
unfolding count_sol
count_sol-boards zero i n q h small on = refl
count_sol-boards (suc k) i n q h small on = rw (lt→leb n i (omega arith)) (
    seqfor-rounds (count_body (count_sol k (i + 1) n) i q) n
    ∙ row_count (count_sol k (i + 1) n) _ i n q
        (λ j a hj.
          one_row (count_sol k (i + 1) n) (boards k (i + 1) n) i q (omega arith) on
            (λ q' on'. count_sol-boards k (i + 1) n q' (omega arith) small on') j a (omega arith))
        n 0 0 (omega arith)
    ∙ ap (λ z. z % u32_mod) (omega arith))

-- ===== src/Unroll/Probe.antt =====
-- fablepass, `buildProbe`: the sequential copy of the loop that LLVM is asked about, and its result
-- (Measure). Children: the copy does what the loop does (Alike), what goes in and comes out (Passed), and
-- the batch (Measure).
pub mod Alike
pub mod Measure
pub mod Passed
use spork_llvm.Base.{ℕ, zero, suc, ◌+◌, ◌-◌, ◌%◌, Bool, true, false, Option, none, some}
use spork_llvm.Unroll.{Width, modulus, Protocol, icmp, run_casts, last_width}

-- The type in which the exit test is made.
abbrev pub test_width : Protocol → Width
test_width p = last_width p.base_type p.next_casts

-- `spork.n`: the bound minus the start, both cast, at the width of the test.
unfoldable pub probe_count : Protocol → (start bound : ℕ) → ℕ
probe_count p start bound =
    (run_casts p.bound_type p.bound_casts bound
      + modulus (test_width p)
      - run_casts p.base_type p.next_casts start)
    % modulus (test_width p)

abbrev pub next_at : Protocol → ℕ → ℕ → ℕ
next_at p a b = (a + b) % modulus p.base_type

-- The loop of the probe, from `spork.idx` on: what it returns are the next induction and the accumulator.
-- `none` is the end of the fuel.
unfoldable pub probe_loop :
    {A : Type 0} → Protocol → (ℕ → A → A) → (start n fuel idx : ℕ) → A → Option (ℕ × A)
probe_loop p body start n zero idx a = none
probe_loop p body start n (suc fuel) idx a =
    let i : ℕ = next_at p start idx in
    let rest = probe_loop p body start n fuel (next_at p idx 1) (body i a) in
    elim (icmp p.predicate (test_width p) (run_casts p.base_type p.next_casts (next_at p idx 1))
      n) [ true ↦ rest | false ↦ some (next_at p i 1, body i a) ]

unfoldable pub run_probe :
    {A : Type 0} → Protocol → (ℕ → A → A) → (start bound fuel : ℕ) → A → Option (ℕ × A)
unfolding probe_loop probe_count
run_probe p body start bound fuel a = probe_loop p body start (probe_count p start bound) fuel 0 a

-- The loop as written, rotated, with a bound that nobody changes.
unfoldable pub written_loop :
    {A : Type 0} → Protocol → (ℕ → A → A) → (bound fuel i : ℕ) → A → Option (ℕ × A)
written_loop p body bound zero i a = none
written_loop p body bound (suc fuel) i a =
    let rest = written_loop p body bound fuel (next_at p i 1) (body i a) in
    elim (icmp p.predicate (test_width p) (run_casts p.base_type p.next_casts (next_at p i 1))
      (run_casts p.bound_type p.bound_casts bound)) [
        | true ↦ rest
        | false ↦ some (next_at p i 1, body i a)
      ]

-- ===== src/Checks/OnScan.antt =====
-- A scan of twenty-six ones: the promotion cuts it behind five cells, and the upsweep is stolen.
use spork_llvm.Base.{
  ℕ, zero, suc, ◌≤◌, ◌≡◌, true, false, List, [], ◌∷◌, refl, arith, length, last_or, inl,
}
use spork_llvm.Scan.{
  Schedule, unpromoted, stolen, scan, loop_to, cut_loop, scan_prom, third1, third2, each_chunk,
  num_chunks, chunk, sum_cells, chunk_sums,
}
use spork_llvm.Scan.Sums.{scan_seq}
use spork_llvm.Scan.Correct.{scan-scan_seq}
use spork_llvm.Checks.OnParfor.{plus, plus-IsMonoid}

abbrev ones : ℕ → List ℕ
ones zero = []
ones (suc n) = 1 ∷ ones n

abbrev three : ℕ → ℕ
three n = 3

three_pos : (n : ℕ) → 1 ≤ n → 1 ≤ three n
three_pos n h = omega arith

abbrev up_stolen : Schedule
up_stolen = stolen 0 true unpromoted unpromoted (λ k. unpromoted) true unpromoted

-- Freed memory that holds nothing of what it held.
abbrev gone : List ℕ → List ℕ
gone sums = []

-- The right branch is not stolen, so that the sums are freed when it reads them.
abbrev late_read : Schedule
late_read = stolen 0 true unpromoted unpromoted (λ k. unpromoted) false unpromoted

late_scan :
    (length (scan plus three gone late_read 100 (ones 26)) ≡ 26)
    × (last_or 0 (scan plus three gone late_read 100 (ones 26)) ≡ 117)
    × (last_or 0 (scan_seq plus 100 (ones 26)) ≡ 126)
unfolding scan loop_to cut_loop scan_prom third1 third2 each_chunk num_chunks chunk sum_cells
    chunk_sums
late_scan = (refl, refl, refl)

stolen_scan : scan plus three gone up_stolen 100 (ones 26) ≡ scan_seq plus 100 (ones 26)
unfolding scan loop_to cut_loop scan_prom third1 third2 each_chunk num_chunks chunk sum_cells
    chunk_sums
stolen_scan = refl

is_cut : (cut_loop plus 0 true 100 (ones 26)).finished ≡ false
unfolding cut_loop
is_cut = refl

-- Near the end of `uint32_t` the index of the promotion wraps, and the loop is cut behind itself.
wraps : (scan_prom 0xFFFFFFFB 0xFFFFFFFF 0xFFFFFFFF).loop_end ≡ 0
unfolding scan_prom third1 third2
wraps = refl

scan-scan_seq_example : scan plus three gone up_stolen 100 (ones 26) ≡ scan_seq plus 100 (ones 26)
scan-scan_seq_example =
    scan-scan_seq plus plus-IsMonoid three three_pos gone up_stolen 100 (ones 26)
      (tt, tt, (λ k. tt), inl refl, tt) (omega arith)

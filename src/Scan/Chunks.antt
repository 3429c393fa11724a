-- ===== src/Scan/Chunks.antt =====
-- Upsweep and downsweep: the chunks make up the array, and the partial sums are its sums.
use native.Mathlib.Nat.{
  div-mul-le_self, lt-div-mul-add, div-le_self, add-mul, one-mul, zero-mul, mul-le-mul_right,
}
use spork_llvm.Base.{
  ℕ, zero, suc, ◌+◌, ◌-◌, ◌*◌, ◌/◌, ◌%◌, ◌<◌, ◌≤◌, ◌≡◌, inl, inr, false, List, [], ◌∷◌, ◌++◌, ◌==◌,
  refl, sym, ap, ◌∙◌, arith, length, take, drop, ltb, add32, sub32, u32_mod, Bool-cases, subst,
}
use spork_llvm.Parfor.{Monoid, IsMonoid}
use spork_llvm.Scan.{each_chunk, num_chunks, chunk, sum_cells, chunk_sums, cell, prefix_of}
use spork_llvm.Scan.Sums.{
  scan_seq, take_zero, drop_zero, take-add, drop-drop, take_all, length-drop, scan_seq-append,
  sum_cells-append, sum_cells-from, take-append_drop,
}

-- The number of chunks is the least that covers `n` cells.
pub num_chunks-covers :
    (n cs : ℕ)
    → 1 ≤ n
    → n < u32_mod
    → 1 ≤ cs
    → (num_chunks n cs ≡ 1 + (n - 1) / cs) × ((n - 1) / cs * cs < n) × (n ≤ num_chunks n cs * cs)
unfolding num_chunks
num_chunks-covers n cs h hn hc =
    let s : sub32 n 1 ≡ n - 1 = omega arith in
    let d : (n - 1) / cs ≤ n - 1 = div-le_self (n - 1) cs in
    let e : add32 1 ((n - 1) / cs) ≡ 1 + (n - 1) / cs = omega arith in
    let p : (1 + (n - 1) / cs) * cs ≡ 1 * cs + (n - 1) / cs * cs = add-mul 1 ((n - 1) / cs) cs in
    let q : 1 * cs ≡ cs = one-mul cs in
    (
      ap (λ k. add32 1 (k / cs)) s ∙ e,
      omega (arith, div-mul-le_self (n - 1) cs),
      rw (s, e) (omega (arith, p, q, lt-div-mul-add {a = n - 1} {b = cs} (omega arith))),
    )

-- In a section over the array, so many chunks of `cs` cells each but the last.
module _ {A : Type 0} (m : Monoid A) (laws : IsMonoid m) (xs : List A) (cs : ℕ)
    (hn : length xs < u32_mod) where
  -- The cells from chunk `c` on.
  abbrev from : ℕ → List A
  from c = drop (c * cs) xs

  abbrev upto : ℕ → List A
  upto c = take (c * cs) xs

  chunk-eq : (c : ℕ) → c * cs < length xs → chunk (length xs) cs c xs ≡ take cs (from c)
  unfolding chunk
  chunk-eq c h =
      let s : c * cs % u32_mod ≡ c * cs = omega arith in
      let d : sub32 (length xs) (c * cs) ≡ length xs - c * cs = omega arith in
      let len : length (from c) ≡ length xs - c * cs = length-drop (c * cs) xs in
      elim (Bool-cases (ltb (length xs - c * cs) cs)) [
        | inl b ↦
            rw (s, d, b)
              (take_all (length xs - c * cs) (from c) (omega (arith, len))
                ∙ sym (take_all cs (from c) (ground (arith, len))))
        | inr b ↦ rw (s, d, b) refl
      ]

  next_from : (c : ℕ) → drop cs (from c) ≡ from (c + 1)
  next_from c =
      let z : (c + 1) * cs ≡ c * cs + 1 * cs = add-mul c 1 cs in
      let o : 1 * cs ≡ cs = one-mul cs in
      drop-drop cs (c * cs) xs ∙ ap (λ k. drop k xs) (omega (arith, z, o))

  next_upto : (c : ℕ) → upto c ++ take cs (from c) ≡ upto (c + 1)
  next_upto c =
      let z : (c + 1) * cs ≡ c * cs + 1 * cs = add-mul c 1 cs in
      let o : 1 * cs ≡ cs = one-mul cs in
      take-add (c * cs) cs xs ∙ ap (λ k. take k xs) (omega (arith, z, o))

  upto_zero : upto 0 ≡ []
  upto_zero = ap (λ k. take k xs) (zero-mul cs) ∙ take_zero xs

  from_zero : from 0 ≡ xs
  from_zero = ap (λ k. drop k xs) (zero-mul cs) ∙ drop_zero xs

  -- A sum goes over to the next chunk.
  next_sum :
      (a : A) (c : ℕ)
      → sum_cells m (sum_cells m a (upto c)) (take cs (from c)) ≡ sum_cells m a (upto (c + 1))
  next_sum a c =
      sym (sum_cells-append m a (upto c) (take cs (from c))) ∙ ap (sum_cells m a) (next_upto c)

  abbrev InRange : ℕ → ℕ → Type 0
  InRange c k = (j : ℕ) → j < k → (c + j) * cs < length xs

  range_head : (c k : ℕ) → InRange c (suc k) → c * cs < length xs
  range_head c k r =
      let z : c + 0 ≡ c = omega arith in subst (λ i. i * cs < length xs) z (r 0 (omega arith))

  range_tail : (c k : ℕ) → InRange c (suc k) → InRange (c + 1) k
  range_tail c k r j h =
      let z : c + suc j ≡ c + 1 + j = omega arith in
      subst (λ i. i * cs < length xs) z (r (suc j) (omega arith))

  abbrev chunk_sum : ℕ → List A
  chunk_sum c = sum_cells m m.identity (chunk (length xs) cs c xs) ∷ []

  head_sum :
      (c : ℕ)
      → c * cs < length xs
      → m.op (sum_cells m m.identity (upto c)) (sum_cells m m.identity (chunk (length xs) cs c xs))
        ≡ sum_cells m m.identity (upto (c + 1))
  head_sum c h =
      ap (λ ys. m.op (sum_cells m m.identity (upto c)) (sum_cells m m.identity ys)) (chunk-eq c h)
      ∙ sum_cells-from m laws (sum_cells m m.identity (upto c)) (take cs (from c))
      ∙ next_sum m.identity c

  -- Scanning the partial sums gives the sums up to the end of each chunk.
  partial_sums :
      (k c j : ℕ)
      → InRange c k
      → j < k
      → cell m (scan_seq m (sum_cells m m.identity (upto c)) (each_chunk chunk_sum k c)) j
        ≡ sum_cells m m.identity (upto (c + j + 1))
  unfolding each_chunk
  partial_sums zero c j r h = absurd (omega arith)
  partial_sums (suc k) c zero r h =
      let q : c + 1 ≡ c + 0 + 1 = omega arith in
      head_sum c (range_head c k r) ∙ ap (λ i. sum_cells m m.identity (upto i)) q
  partial_sums (suc k) c (suc j) r h =
      let q : c + 1 + j + 1 ≡ c + suc j + 1 = omega arith in
      ap (λ a. cell m (scan_seq m a (each_chunk chunk_sum k (c + 1))) j)
        (head_sum c (range_head c k r))
      ∙ partial_sums k (c + 1) j (range_tail c k r) (omega arith)
      ∙ ap (λ i. sum_cells m m.identity (upto i)) q

  module _ (h1 : 1 ≤ length xs) (hc : 1 ≤ cs) where
    abbrev pub count : ℕ
    count = num_chunks (length xs) cs

    in_range : InRange 0 count
    in_range j h =
        let (e, low, high) = num_chunks-covers (length xs) cs h1 hn hc in
        let mono : j * cs ≤ (length xs - 1) / cs * cs = mul-le-mul_right cs (omega (arith, e)) in
        let z : 0 + j ≡ j = omega arith in
        subst (λ i. i * cs < length xs) (sym z) (omega (arith, mono, low))

    pub sums-upto :
        (j : ℕ)
        → j < count
        → cell m (scan_seq m m.identity (chunk_sums m cs xs)) j
          ≡ sum_cells m m.identity (upto (j + 1))
    unfolding chunk_sums sum_cells
    sums-upto j h =
        let z : 0 + j + 1 ≡ j + 1 = omega arith in
        let first : sum_cells m m.identity (upto 0) ≡ m.identity =
          ap (sum_cells m m.identity) upto_zero in
        ap (λ a. cell m (scan_seq m a (each_chunk chunk_sum count 0)) j) (sym first)
        ∙ partial_sums count 0 j in_range h
        ∙ ap (λ i. sum_cells m m.identity (upto i)) z

    -- The last partial sum is the sum of all cells.
    pub last_sum :
        cell m (scan_seq m m.identity (chunk_sums m cs xs)) (sub32 (length xs) 1 / cs)
        ≡ sum_cells m m.identity xs
    last_sum =
        let (e, low, high) = num_chunks-covers (length xs) cs h1 hn hc in
        let s : sub32 (length xs) 1 ≡ length xs - 1 = omega arith in
        let z : (length xs - 1) / cs + 1 ≡ count = omega (arith, e) in
        ap (λ k. cell m (scan_seq m m.identity (chunk_sums m cs xs)) (k / cs)) s
        ∙ sums-upto ((length xs - 1) / cs) (omega (arith, e))
        ∙ ap (λ i. sum_cells m m.identity (upto i)) z
        ∙ ap (sum_cells m m.identity) (take_all (count * cs) xs high)

    -- A chunk is scanned from the sum of all that is before it.
    pub prefix_of-upto :
        (before : A) (c : ℕ)
        → c < count
        → prefix_of m before (scan_seq m m.identity (chunk_sums m cs xs)) c
          ≡ sum_cells m before (upto c)
    unfolding sum_cells
    prefix_of-upto before zero h = sym (ap (sum_cells m before) upto_zero)
    prefix_of-upto before (suc c) h =
        let (e, _, _) = num_chunks-covers (length xs) cs h1 hn hc in
        let d : (length xs - 1) / cs ≤ length xs - 1 = div-le_self (length xs - 1) cs in
        let s : sub32 (suc c) 1 ≡ c = omega (arith, e, d) in
        let z : c + 1 ≡ suc c = omega arith in
        let no : (suc c == 0) ≡ false = ground arith in
        rw no (
          ap (λ k. m.op before (cell m (scan_seq m m.identity (chunk_sums m cs xs)) k)) s
          ∙ ap (m.op before) (sums-upto c (omega arith))
          ∙ sum_cells-from m laws before (upto (c + 1))
          ∙ ap (λ i. sum_cells m before (upto i)) z)

    downsweep_from :
        (before : A) (k c : ℕ)
        → c + k ≡ count
        → each_chunk (λ j. scan_seq m (sum_cells m before (upto j)) (chunk (length xs) cs j xs)) k c
          ≡ scan_seq m (sum_cells m before (upto c)) (from c)
    unfolding each_chunk
    downsweep_from before zero c h =
        let (e, low, high) = num_chunks-covers (length xs) cs h1 hn hc in
        let z : c ≡ count = omega arith in
        let n : length (from c) ≡ 0 = rw z (omega (arith, length-drop (count * cs) xs)) in
        sym (
          ap (scan_seq m (sum_cells m before (upto c)))
            (sym (take_all 0 (from c) (omega (arith, n))) ∙ take_zero (from c)))
    downsweep_from before (suc k) c h =
        let here : c * cs < length xs =
          subst (λ i. i * cs < length xs) (let z : 0 + c ≡ c = omega arith in z)
            (in_range' c (omega arith)) in
        ap
          (λ ys.
            scan_seq m (sum_cells m before (upto c)) ys
            ++ each_chunk
                (λ j. scan_seq m (sum_cells m before (upto j)) (chunk (length xs) cs j xs)) k
                (c + 1))
          (chunk-eq c here)
        ∙ ap (◌++◌ (scan_seq m (sum_cells m before (upto c)) (take cs (from c)))) (
            downsweep_from before k (c + 1) (omega arith)
            ∙ ap (λ a. scan_seq m a (from (c + 1))) (sym (next_sum before c))
            ∙ ap (scan_seq m (sum_cells m (sum_cells m before (upto c)) (take cs (from c))))
                (sym (next_from c)))
        ∙ sym
            (scan_seq-append m (sum_cells m before (upto c)) (take cs (from c)) (drop cs (from c)))
        ∙ ap (scan_seq m (sum_cells m before (upto c))) (take-append_drop cs (from c))
      where
        in_range' : (j : ℕ) → j < count → (0 + j) * cs < length xs
        in_range' = in_range

    -- Scanning each chunk from its prefix scans the array.
    pub downsweep-scan_seq :
        (before : A)
        → each_chunk
            (λ j. scan_seq m (sum_cells m before (upto j)) (chunk (length xs) cs j xs))
            count
            0
          ≡ scan_seq m before xs
    unfolding sum_cells
    downsweep-scan_seq before =
        downsweep_from before count 0 (omega arith)
        ∙ ap (λ ys. scan_seq m (sum_cells m before ys) (from 0)) upto_zero
        ∙ ap (scan_seq m before) from_zero

-- ===== src/Scan/Sums.antt =====
-- The sequential inclusive scan of a list, and how it goes over appended lists.
use spork_llvm.Base.{
  ℕ, zero, suc, ◌+◌, ◌-◌, ◌≤◌, ◌≡◌, List, [], ◌∷◌, ◌++◌, refl, sym, ap, ◌∙◌, arith, length, take,
  drop, last_or,
}
use spork_llvm.Parfor.{Monoid, IsMonoid}
use spork_llvm.Scan.{sum_cells}

module _ {A : Type 0} where
  pub take-append_drop : (n : ℕ) (xs : List A) → take n xs ++ drop n xs ≡ xs
  take-append_drop n [] = refl
  take-append_drop zero (x ∷ xs) = refl
  take-append_drop (suc n) (x ∷ xs) = ap (◌∷◌ x) (take-append_drop n xs)

  pub length-take : (n : ℕ) (xs : List A) → n ≤ length xs → length (take n xs) ≡ n
  length-take zero [] h = refl
  length-take (suc n) [] h = absurd (omega arith)
  length-take zero (x ∷ xs) h = refl
  length-take (suc n) (x ∷ xs) h = ap suc (length-take n xs (omega arith))

  pub length-drop : (n : ℕ) (xs : List A) → length (drop n xs) ≡ length xs - n
  length-drop zero [] = refl
  length-drop (suc n) [] = omega arith
  length-drop zero (x ∷ xs) = omega arith
  length-drop (suc n) (x ∷ xs) = length-drop n xs ∙ omega arith

  pub drop_zero : (xs : List A) → drop 0 xs ≡ xs
  drop_zero [] = refl
  drop_zero (x ∷ xs) = refl

  pub take_zero : (xs : List A) → take 0 xs ≡ []
  take_zero [] = refl
  take_zero (x ∷ xs) = refl

  pub drop-drop : (m n : ℕ) (xs : List A) → drop m (drop n xs) ≡ drop (n + m) xs
  drop-drop m n [] = refl
  drop-drop m zero (x ∷ xs) = ap (λ k. drop k (x ∷ xs)) (omega arith)
  drop-drop m (suc n) (x ∷ xs) =
      drop-drop m n xs
      ∙ ap (λ k. drop k (x ∷ xs)) (let q : suc (n + m) ≡ suc n + m = omega arith in q)

  pub take_all : (n : ℕ) (xs : List A) → length xs ≤ n → take n xs ≡ xs
  take_all n [] h = refl
  take_all zero (x ∷ xs) h = absurd (omega arith)
  take_all (suc n) (x ∷ xs) h = ap (◌∷◌ x) (take_all n xs (omega arith))

  -- The first `i` and the next `k` cells.
  pub take-add : (i k : ℕ) (xs : List A) → take i xs ++ take k (drop i xs) ≡ take (i + k) xs
  take-add i k [] = refl
  take-add zero k (x ∷ xs) = ap (λ n. take n (x ∷ xs)) (omega arith)
  take-add (suc i) k (x ∷ xs) =
      ap (◌∷◌ x) (take-add i k xs)
      ∙ ap (λ n. take n (x ∷ xs)) (let q : suc (i + k) ≡ suc i + k = omega arith in q)

  pub last_or-append : (d : A) (xs ys : List A) → last_or d (xs ++ ys) ≡ last_or (last_or d xs) ys
  last_or-append d [] ys = refl
  last_or-append d (x ∷ xs) ys = last_or-append x xs ys

module _ {A : Type 0} (m : Monoid A) where
  -- Each cell becomes the sum of `a` and the cells up to it.
  abbrev pub scan_seq : A → List A → List A
  scan_seq a [] = []
  scan_seq a (x ∷ xs) = m.op a x ∷ scan_seq (m.op a x) xs

  pub sum_cells-append :
      (a : A) (xs ys : List A) → sum_cells m a (xs ++ ys) ≡ sum_cells m (sum_cells m a xs) ys
  unfolding sum_cells
  sum_cells-append a [] ys = refl
  sum_cells-append a (x ∷ xs) ys = sum_cells-append (m.op a x) xs ys

  pub scan_seq-append :
      (a : A) (xs ys : List A)
      → scan_seq a (xs ++ ys) ≡ scan_seq a xs ++ scan_seq (sum_cells m a xs) ys
  unfolding sum_cells
  scan_seq-append a [] ys = refl
  scan_seq-append a (x ∷ xs) ys = ap (◌∷◌ (m.op a x)) (scan_seq-append (m.op a x) xs ys)

  -- The last cell of a scan is the sum.
  pub last_or-scan_seq : (a : A) (xs : List A) → last_or a (scan_seq a xs) ≡ sum_cells m a xs
  unfolding sum_cells
  last_or-scan_seq a [] = refl
  last_or-scan_seq a (x ∷ xs) = last_or-scan_seq (m.op a x) xs

  pub last_or-scan_seq_any :
      (d a : A) (xs : List A) → 1 ≤ length xs → last_or d (scan_seq a xs) ≡ sum_cells m a xs
  unfolding sum_cells
  last_or-scan_seq_any d a [] h = absurd (omega arith)
  last_or-scan_seq_any d a (x ∷ xs) h = last_or-scan_seq (m.op a x) xs

  pub length-scan_seq : (a : A) (xs : List A) → length (scan_seq a xs) ≡ length xs
  length-scan_seq a [] = refl
  length-scan_seq a (x ∷ xs) = ap suc (length-scan_seq (m.op a x) xs)

  module _ (laws : IsMonoid m) where
    pub sum_cells-op :
        (a b : A) (xs : List A) → sum_cells m (m.op a b) xs ≡ m.op a (sum_cells m b xs)
    unfolding sum_cells
    sum_cells-op a b [] = refl
    sum_cells-op a b (x ∷ xs) =
        ap (λ c. sum_cells m c xs) (laws.assoc a b x) ∙ sum_cells-op a (m.op b x) xs

    pub sum_cells-from :
        (a : A) (xs : List A) → m.op a (sum_cells m m.identity xs) ≡ sum_cells m a xs
    sum_cells-from a xs =
        sym (sum_cells-op a m.identity xs) ∙ ap (λ c. sum_cells m c xs) (laws.right_id a)

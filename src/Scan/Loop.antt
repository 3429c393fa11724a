-- ===== src/Scan/Loop.antt =====
-- The loop of a scan with a promotion: it writes the first cells, and says what is left.
use spork_llvm.Base.{
  ℕ, suc, ◌+◌, ◌-◌, ◌<◌, ◌≤◌, ◌≡◌, ◌⊎◌, inl, inr, Bool, true, false, ◌&&◌, List, [], ◌∷◌, ◌++◌,
  if◌then◌else◌, ◌==◌, refl, sym, ap, ◌∙◌, arith, length, take, drop, ltb, add32, sub32, u32_mod,
  Bool-cases, append_assoc, append-nil,
}
use spork_llvm.Parfor.{Monoid}
use spork_llvm.Scan.{
  ScanLoop, ScanPromotion, Cut, third1, third2, scan_prom, loop_to, go_on, cut_loop, sum_cells,
}
use spork_llvm.Scan.Sums.{
  scan_seq, take_zero, drop_zero, take-add, drop-drop, take_all, length-drop, scan_seq-append,
  sum_cells-append,
}

module _ {A : Type 0} (m : Monoid A) where
  -- `k` rounds from a state.
  abbrev pub after : ℕ → ℕ → A → List A → List A → ScanLoop A
  after k i a done xs = record {
    i = i + k;
    a = sum_cells m a (take k xs);
    done = done ++ scan_seq m a (take k xs);
    rest = drop k xs;
  }

  abbrev Ran : ℕ → ℕ → A → List A → List A → Type 0
  Ran e i a done xs =
      (k : ℕ) × (k ≤ length xs)
      × (loop_to m e i a done xs ≡ after k i a done xs)
      × ((i + k ≤ e) ⊎ (k ≡ 0))
      × ((e ≤ i + k) ⊎ (k ≡ length xs))

  none_run :
      (i : ℕ) (a : A) (done xs : List A)
      → record { i = i; a = a; done = done; rest = xs } ≡ after 0 i a done xs
  unfolding sum_cells
  none_run i a done xs =
      let z : i ≡ i + 0 = omega arith in
      rw (take_zero xs, drop_zero xs, append-nil)
        (ap (λ n. record { i = n; a = a; done = done; rest = xs }) z)

  after_next :
      (k i : ℕ) (a x : A) (done xs : List A)
      → after k (i + 1) (m.op a x) (done ++ (m.op a x ∷ [])) xs ≡ after (suc k) i a done (x ∷ xs)
  unfolding sum_cells
  after_next k i a x done xs =
      let z : i + 1 + k ≡ i + suc k = omega arith in rw (z, append_assoc) refl

  loop_to-Ran : (e i : ℕ) (a : A) (done xs : List A) → i + length xs < u32_mod → Ran e i a done xs
  unfolding loop_to
  loop_to-Ran e i a done [] h = (0, omega arith, none_run i a done [], inr refl, inr refl)
  loop_to-Ran e i a done (x ∷ xs) h = elim (Bool-cases (ltb i e)) [
    | inl b ↦
        let (k, fits, eq, low, high) =
          loop_to-Ran e (i + 1) (m.op a x) (done ++ (m.op a x ∷ [])) xs (omega arith) in
        let next : add32 i 1 ≡ i + 1 = omega arith in
        (
          suc k,
          omega arith,
          rw (b, next) (eq ∙ after_next k i a x done xs),
          ground arith,
          ground arith,
        )
    | inr b ↦ (0, omega arith, rw b (none_run i a done (x ∷ xs)), inr refl, ground arith)
  ]

  -- Some rounds, and some more.
  after-after :
      (k l : ℕ) (a : A) (xs : List A)
      → after l k (sum_cells m a (take k xs)) (scan_seq m a (take k xs)) (drop k xs)
        ≡ after (k + l) 0 a [] xs
  after-after k l a xs =
      let z : k + l ≡ 0 + (k + l) = omega arith in
      let sums : sum_cells m (sum_cells m a (take k xs)) (take l (drop k xs))
          ≡ sum_cells m a (take (k + l) xs) =
        sym (sum_cells-append m a (take k xs) (take l (drop k xs)))
        ∙ ap (sum_cells m a) (take-add k l xs) in
      let cells : scan_seq m a (take k xs)
            ++ scan_seq m (sum_cells m a (take k xs)) (take l (drop k xs))
          ≡ scan_seq m a (take (k + l) xs) =
        sym (scan_seq-append m a (take k xs) (take l (drop k xs)))
        ∙ ap (scan_seq m a) (take-add k l xs) in
      rw (sums, cells, drop-drop l k xs)
        (ap
          (λ n. record {
            i = n;
            a = sum_cells m a (take (k + l) xs);
            done = scan_seq m a (take (k + l) xs);
            rest = drop (k + l) xs;
          })
          z)

  -- The state of the loop once it has written `k` cells.
  abbrev pub reached : ℕ → A → List A → ScanLoop A
  reached k a xs = record {
    i = k;
    a = sum_cells m a (take k xs);
    done = scan_seq m a (take k xs);
    rest = drop k xs;
  }

  abbrev Goes : ℕ → ℕ → A → List A → Type 0
  Goes e k a xs =
      (n : ℕ) × (k ≤ n)
      × (n ≤ length xs)
      × (go_on m e (reached k a xs) ≡ reached n a xs)
      × ((n ≤ e) ⊎ (n ≡ k))
      × ((e ≤ n) ⊎ (n ≡ length xs))

  goes : (e k : ℕ) (a : A) (xs : List A) → length xs < u32_mod → k ≤ length xs → Goes e k a xs
  goes e k a xs h hk =
      let len : length (drop k xs) ≡ length xs - k = length-drop k xs in
      let (l, fits, eq, low, high) =
        loop_to-Ran e k (sum_cells m a (take k xs)) (scan_seq m a (take k xs)) (drop k xs)
          (omega (arith, len)) in
      let z : 0 + (k + l) ≡ k + l = omega arith in
      (
        k + l,
        omega arith,
        omega (arith, len),
        eq ∙ after-after k l a xs ∙ ap (λ n. record (reached (k + l) a xs) { i = n }) z,
        ground arith,
        elim high [ inl p ↦ inl p | inr p ↦ inr (omega (arith, len)) ],
      )

  pub starts :
      (e : ℕ) (a : A) (xs : List A)
      → length xs < u32_mod
      → (n : ℕ) × (n ≤ length xs)
        × (loop_to m e 0 a [] xs ≡ reached n a xs)
        × ((e ≤ n) ⊎ (n ≡ length xs))
  unfolding sum_cells
  starts e a xs h =
      let (n, _, fits, eq, low, high) = goes e 0 a xs h (omega arith) in
      let first : record { i = 0; a = a; done = []; rest = xs } ≡ reached 0 a xs =
        rw (take_zero xs, drop_zero xs) refl in
      (n, fits, ap (go_on m e) first ∙ eq, high)

-- What the handler decides when `p` cells have been published.
abbrev Thirds : ℕ → ℕ → Type 0
Thirds i n = (i < third1 i n) × (third1 i n < third2 i n) × (third2 i n < n)

abbrev PromCases : ℕ → ℕ → Type 0
PromCases p n =
    ((scan_prom p n n).loop_end ≡ n)
    ⊎ (((scan_prom p n n).loop_end ≡ p + 5)
        × Thirds (p + 5) n
        × ((scan_prom p n n).up_start ≡ third1 (p + 5) n)
        × ((scan_prom p n n).up_n ≡ third2 (p + 5) n - third1 (p + 5) n))

prom_cases : (p n : ℕ) → p ≤ n → n + 5 < u32_mod → PromCases p n
unfolding scan_prom
prom_cases p n h fit =
    let s : add32 p 5 ≡ p + 5 = omega arith in
    elim (Bool-cases (
      ltb (p + 5) (third1 (p + 5) n)
      && ltb (third1 (p + 5) n) (third2 (p + 5) n)
      && ltb (third2 (p + 5) n) n)) [
        | inl b ↦
            let t : Thirds (p + 5) n = ground arith in
            let d : sub32 (third2 (p + 5) n) (third1 (p + 5) n)
                ≡ third2 (p + 5) n - third1 (p + 5) n =
              omega (arith, t.1, t.2) in
            inr (rw (s, b) refl, t, rw (s, b) refl, rw (s, b) d)
        | inr b ↦ inl (rw (s, b) refl)
      ]

-- The loop has written all cells; or those up to `i`, and the rest is cut at `t1` and `t2`.
pub record Split {A : Type 0} (m : Monoid A) (a : A) (xs : List A) (c : Cut A) : Type 0 where
  pub i : ℕ
  pub t1 : ℕ
  pub t2 : ℕ
  pub bounds : (1 ≤ i) × (i < t1) × (t1 < t2) × (t2 < length xs)
  pub unfinished : c.finished ≡ false
  pub written : c.done ≡ scan_seq m a (take i xs)
  pub before_t1 : c.first_cells ≡ take (t1 - i) (drop i xs)
  pub behind_t1 : c.rest_cells ≡ drop t1 xs
  pub size : c.t21 ≡ t2 - t1
  pub given : c.up_cells ≡ take (t2 - t1) (drop t1 xs)

module _ {A : Type 0} (m : Monoid A) where
  abbrev pub Finished : A → List A → Cut A → Type 0
  Finished a xs c = (c.finished ≡ true) × (c.done ≡ scan_seq m a xs)

  -- The two parts of the loop, with the promotion between them.
  abbrev first_part : ℕ → Bool → A → List A → ScanLoop A
  first_part at late a xs =
      let s₀ : ScanLoop A = loop_to m at 0 a [] xs in if late then go_on m (add32 s₀.i 1) s₀ else s₀

  first_part-reached :
      (at : ℕ) (late : Bool) (a : A) (xs : List A)
      → length xs + 5 < u32_mod
      → (p : ℕ) × (n : ℕ) × (p ≤ n)
        × (n ≤ p + 1)
        × (n ≤ length xs)
        × ((loop_to m at 0 a [] xs).i ≡ p)
        × (first_part at late a xs ≡ reached m n a xs)
  first_part-reached at true a xs h =
      let (p, fits, eq, _) = starts m at a xs (omega arith) in
      let (n, le, fits', eq', low, _) = goes m (p + 1) p a xs (omega arith) fits in
      let z : add32 p 1 ≡ p + 1 = omega arith in
      (p, n, le, ground arith, fits', ap (λ s. s.i) eq, rw (eq, z) eq')
  first_part-reached at false a xs h =
      let (p, fits, eq, _) = starts m at a xs (omega arith) in
      (p, p, omega arith, omega arith, fits, ap (λ s. s.i) eq, eq)

  -- On to an end within the array that has not been passed yet.
  reaches :
      (e n : ℕ) (a : A) (xs : List A)
      → length xs < u32_mod
      → n ≤ e
      → e ≤ length xs
      → go_on m e (reached m n a xs) ≡ reached m e a xs
  reaches e n a xs h ne en =
      let (k, nk, kl, eq, low, high) = goes m e n a xs h (omega arith) in
      let z : k ≡ e = ground arith in eq ∙ ap (λ j. reached m j a xs) z

  -- What is computed behind the loop, from its state and the promotion.
  cut_of : List A → ScanPromotion → ScanLoop A → Cut A
  cut_of xs p s =
      let n : ℕ = length xs in
      let t1 : ℕ = third1 s.i n in
      let t2 : ℕ = third2 s.i n in
      record {
        finished = s.i == n;
        done = s.done;
        first_cells = take (sub32 t1 s.i) s.rest;
        rest_cells = drop (sub32 t1 s.i) s.rest;
        t21 = sub32 t2 t1;
        up_cells = take p.up_n (drop p.up_start xs);
      }

  cut_loop-cut_of :
      (at : ℕ) (late : Bool) (a : A) (xs : List A)
      → cut_loop m at late a xs ≡ (
          let p : ScanPromotion = scan_prom (loop_to m at 0 a [] xs).i (length xs) (length xs) in
          cut_of xs p (go_on m p.loop_end (first_part at late a xs)))
  unfolding cut_loop cut_of
  cut_loop-cut_of at late a xs = refl

  whole-Finished :
      (a : A) (xs : List A) (p : ScanPromotion)
      → Finished a xs (cut_of xs p (reached m (length xs) a xs))
  unfolding cut_of
  whole-Finished a xs p =
      let e : (length xs == length xs) ≡ true = ground arith in
      (e, ap (scan_seq m a) (take_all (length xs) xs (omega arith)))

  cut-Split :
      (i : ℕ) (a : A) (xs : List A) (p : ScanPromotion)
      → 1 ≤ i
      → Thirds i (length xs)
      → p.up_start ≡ third1 i (length xs)
      → p.up_n ≡ third2 i (length xs) - third1 i (length xs)
      → length xs < u32_mod
      → Split m a xs (cut_of xs p (reached m i a xs))
  unfolding cut_of
  cut-Split i a xs p i1 t us un h =
      let d : sub32 (third1 i (length xs)) i ≡ third1 i (length xs) - i =
        omega (arith, t.0, t.1, t.2) in
      let z : i + (third1 i (length xs) - i) ≡ third1 i (length xs) = omega (arith, t.0) in
      record {
        i = i;
        t1 = third1 i (length xs);
        t2 = third2 i (length xs);
        bounds = (i1, t.0, t.1, t.2);
        unfinished = ground (arith, t.0, t.1, t.2);
        written = refl;
        before_t1 = ap (λ k. take k (drop i xs)) d;
        behind_t1 =
            ap (λ k. drop k (drop i xs)) d
            ∙ drop-drop (third1 i (length xs) - i) i xs
            ∙ ap (λ k. drop k xs) z;
        size = omega (arith, t.0, t.1, t.2);
        given = rw (us, un) refl;
      }

  -- A promotion leaves a loop that writes the whole array, or one that is cut into parts with work for
  -- each, where `up` is given the part between `t1` and `t2`.
  pub cut_loop-Split :
      (at : ℕ) (late : Bool) (a : A) (xs : List A)
      → length xs + 5 < u32_mod
      → Finished a xs (cut_loop m at late a xs) ⊎ Split m a xs (cut_loop m at late a xs)
  cut_loop-Split at late a xs h =
      let (p, n, pn, np, nl, pi, eq) = first_part-reached at late a xs h in
      let q : cut_loop m at late a xs ≡ cut_at p n =
        cut_loop-cut_of at late a xs
        ∙ ap
            (λ s.
              cut_of xs (decided (loop_to m at 0 a [] xs).i)
                (go_on m (decided (loop_to m at 0 a [] xs).i).loop_end s))
            eq
        ∙ ap (λ k. cut_of xs (decided k) (go_on m (decided k).loop_end (reached m n a xs))) pi in
      rw q (elim (prom_cases p (length xs) (omega arith) h) [
        | inl e ↦
            rw (ends (length xs) p n e (reaches (length xs) n a xs (omega arith) nl (omega arith)))
              (inl (whole-Finished a xs (decided p)))
        | inr (e, t, us, un) ↦
            rw
              (ends (p + 5) p n e
                (reaches (p + 5) n a xs (omega arith) (omega arith) (omega (arith, t.0, t.1, t.2))))
              (inr (cut-Split (p + 5) a xs (decided p) (omega arith) t us un (omega arith)))
      ])
    where
      decided : ℕ → ScanPromotion
      decided k = scan_prom k (length xs) (length xs)

      cut_at : ℕ → ℕ → Cut A
      cut_at k n = cut_of xs (decided k) (go_on m (decided k).loop_end (reached m n a xs))

      ends :
          (e p n : ℕ)
          → (decided p).loop_end ≡ e
          → go_on m e (reached m n a xs) ≡ reached m e a xs
          → go_on m (decided p).loop_end (reached m n a xs) ≡ reached m e a xs
      ends e p n q r = ap (λ k. go_on m k (reached m n a xs)) q ∙ r

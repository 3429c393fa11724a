-- ===== src/Scan/Correct.antt =====
-- A scan is the sequential scan, wherever its promotion and those of its parts fall.
use native.Mathlib.Nat.{div-le_self}
use spork_llvm.Base.{
  ℕ, zero, suc, ◌+◌, ◌-◌, ◌*◌, ◌/◌, ◌<◌, ◌≤◌, ◌≡◌, ◌⊎◌, inl, inr, Bool, true, false, List, [], ◌∷◌,
  ◌++◌, if◌then◌else◌, refl, sym, ap, ap₂, ◌∙◌, arith, length, take, drop, last_or, sub32, u32_mod,
  subst,
}
use spork_llvm.Parfor.{Monoid, IsMonoid}
use spork_llvm.Scan.{
  Schedule, unpromoted, unstolen, stolen, Cut, cut_loop, each_chunk, num_chunks, chunk, sum_cells,
  chunk_sums, cell, prefix_of, scan,
}
use spork_llvm.Scan.Sums.{
  scan_seq, take_all, take-append_drop, length-take, length-drop, drop-drop, scan_seq-append,
  last_or-scan_seq, last_or-scan_seq_any, sum_cells-from,
}
use spork_llvm.Scan.Loop.{Split, starts, cut_loop-Split}
use spork_llvm.Scan.Chunks.{num_chunks-covers, prefix_of-upto, last_sum, downsweep-scan_seq}

length-take_le : {A : Type 0} (n : ℕ) (xs : List A) → length (take n xs) ≤ length xs
length-take_le n [] = omega arith
length-take_le zero (x ∷ xs) = omega arith
length-take_le (suc n) (x ∷ xs) = omega (arith, length-take_le n xs)

length-chunk : {A : Type 0} (n cs c : ℕ) (xs : List A) → length (chunk n cs c xs) ≤ length xs
unfolding chunk
length-chunk n cs c xs = omega (arith, length-take_le _ (drop _ xs), length-drop _ xs)

each_chunk-ext :
    {B : Type 0} (f g : ℕ → List B) (k c : ℕ)
    → ((j : ℕ) → j < c + k → f j ≡ g j)
    → each_chunk f k c ≡ each_chunk g k c
unfolding each_chunk
each_chunk-ext f g zero c h = refl
each_chunk-ext f g (suc k) c h =
    ap₂ ◌++◌ (h c (omega arith)) (each_chunk-ext f g k (c + 1) (λ j q. h j (omega arith)))

length-each_chunk : {B : Type 0} (f : ℕ → B) (k c : ℕ) → length (each_chunk (λ j. f j ∷ []) k c) ≡ k
unfolding each_chunk
length-each_chunk f zero c = refl
length-each_chunk f (suc k) c = ap suc (length-each_chunk f k (c + 1))

-- The right branch reads the sums before they are freed, or finds them all the same.
abbrev pub ReadInTime : {A : Type 0} → (List A → List A) → Bool → Type 0
ReadInTime {A} freed reads_first = (reads_first ≡ true) ⊎ ((sums : List A) → freed sums ≡ sums)

abbrev pub AllInTime : {A : Type 0} → (List A → List A) → Schedule → Type 0
AllInTime freed unpromoted = Unit {0}
AllInTime freed (unstolen at late first rest) = AllInTime freed first × AllInTime freed rest
AllInTime freed (stolen at late first partials chunks reads_first tail) =
    AllInTime freed first
    × AllInTime freed partials
    × ((k : ℕ) → AllInTime freed (chunks k))
    × ReadInTime freed reads_first
    × AllInTime freed tail

module _ {A : Type 0} (m : Monoid A) (laws : IsMonoid m) where
  -- A scan in two parts.
  glue :
      (k : ℕ) (a : A) (xs : List A)
      → scan_seq m a (take k xs) ++ scan_seq m (sum_cells m a (take k xs)) (drop k xs)
        ≡ scan_seq m a xs
  glue k a xs =
      sym (scan_seq-append m a (take k xs) (drop k xs)) ∙ ap (scan_seq m a) (take-append_drop k xs)

  length-chunk_sums :
      (cs : ℕ) (xs : List A)
      → 1 ≤ length xs
      → length xs < u32_mod
      → 1 ≤ cs
      → length (chunk_sums m cs xs) ≤ length xs
  unfolding chunk_sums
  length-chunk_sums cs xs h hn hc =
      let (e, _, _) = num_chunks-covers (length xs) cs h hn hc in
      omega (
        arith,
        e,
        div-le_self (length xs - 1) cs,
        length-each_chunk (λ c. sum_cells m m.identity (chunk (length xs) cs c xs))
            (num_chunks (length xs) cs) 0,
      )

  module _ (chunksize : ℕ → ℕ) (root : (n : ℕ) → 1 ≤ n → 1 ≤ chunksize n) where
    unpromoted-scan_seq :
        (freed : List A → List A) (a : A) (xs : List A)
        → length xs + 5 < u32_mod
        → scan m chunksize freed unpromoted a xs ≡ scan_seq m a xs
    unfolding scan
    unpromoted-scan_seq freed a xs h =
        let (n, fits, eq, high) = starts m (length xs) a xs (omega arith) in
        let z : n ≡ length xs = ground arith in
        ap (λ s. s.done) eq ∙ ap (scan_seq m a) (take_all n xs (omega arith))

    -- The middle part, if every call in it scans.
    middle-scan_seq :
        (before : A) (mid sums : List A) (part : ℕ → A → List A → List A)
        → 1 ≤ length mid
        → length mid < u32_mod
        → sums ≡ scan_seq m m.identity (chunk_sums m (chunksize (length mid)) mid)
        → ((k : ℕ) (b : A) (ys : List A) → length ys ≤ length mid → part k b ys ≡ scan_seq m b ys)
        → (each_chunk
              (λ k.
                part k
                  (prefix_of m before sums k)
                  (chunk (length mid) (chunksize (length mid)) k mid))
              (num_chunks (length mid) (chunksize (length mid)))
              0
            ≡ scan_seq m before mid)
          × (cell m sums (sub32 (length mid) 1 / chunksize (length mid))
              ≡ sum_cells m m.identity mid)
    middle-scan_seq before mid sums part h hn s scans =
        let cs : ℕ = chunksize (length mid) in
        let hc : 1 ≤ cs = root (length mid) h in
        rw s (
          each_chunk-ext
                (λ k.
                  part k (prefix_of m before (scan_seq m m.identity (chunk_sums m cs mid)) k)
                    (chunk (length mid) cs k mid))
                (λ k.
                  scan_seq m (sum_cells m before (take (k * cs) mid)) (chunk (length mid) cs k mid))
                (num_chunks (length mid) cs) 0
                (λ k q.
                  scans k _ (chunk (length mid) cs k mid) (length-chunk (length mid) cs k mid)
                  ∙ ap (λ b. scan_seq m b (chunk (length mid) cs k mid))
                      (prefix_of-upto m laws mid cs hn h hc before k (omega arith)))
              ∙ downsweep-scan_seq m laws mid cs hn h hc before,
          last_sum m laws mid cs hn h hc,
        )

    -- The same for a number of cells that is the length of the middle part.
    middle_at :
        (before : A) (mid sums : List A) (part : ℕ → A → List A → List A) (t : ℕ)
        → length mid ≡ t
        → 1 ≤ length mid
        → length mid < u32_mod
        → sums ≡ scan_seq m m.identity (chunk_sums m (chunksize (length mid)) mid)
        → ((k : ℕ) (b : A) (ys : List A) → length ys ≤ length mid → part k b ys ≡ scan_seq m b ys)
        → (each_chunk
              (λ k. part k (prefix_of m before sums k) (chunk t (chunksize t) k mid))
              (num_chunks t (chunksize t))
              0
            ≡ scan_seq m before mid)
          × (cell m sums (sub32 t 1 / chunksize t) ≡ sum_cells m m.identity mid)
    middle_at before mid sums part t q h hn s scans =
        subst
          (λ n.
            (each_chunk (λ k. part k (prefix_of m before sums k) (chunk n (chunksize n) k mid))
                (num_chunks n (chunksize n)) 0
              ≡ scan_seq m before mid)
            × (cell m sums (sub32 n 1 / chunksize n) ≡ sum_cells m m.identity mid))
          q (middle-scan_seq before mid sums part h hn s scans)

    -- The cells of the loop, of the first part, and of the others.
    join_parts :
        (a : A) (xs : List A) (c : Cut A) (part others : List A)
        → Split m a xs c
        → part ≡ scan_seq m (last_or m.identity c.done) c.first_cells
        → others ≡ scan_seq m (last_or (last_or m.identity c.done) part) c.rest_cells
        → c.done ++ (part ++ others) ≡ scan_seq m a xs
    join_parts a xs c part others s p o =
        let (i1, it, tt', tn) = s.bounds in
        let len : length (take s.i xs) ≡ s.i = length-take s.i xs (omega arith) in
        let done : last_or m.identity c.done ≡ sum_cells m a (take s.i xs) =
          ap (last_or m.identity) s.written
          ∙ last_or-scan_seq_any m m.identity a (take s.i xs) (omega (arith, len)) in
        let part_eq : part
            ≡ scan_seq m (sum_cells m a (take s.i xs)) (take (s.t1 - s.i) (drop s.i xs)) =
          p ∙ ap₂ (scan_seq m) done s.before_t1 in
        let before : last_or (last_or m.identity c.done) part
            ≡ sum_cells m (sum_cells m a (take s.i xs)) (take (s.t1 - s.i) (drop s.i xs)) =
          ap₂ last_or done part_eq
          ∙ last_or-scan_seq m (sum_cells m a (take s.i xs)) (take (s.t1 - s.i) (drop s.i xs)) in
        let z : s.t1 ≡ s.i + (s.t1 - s.i) = omega arith in
        let rest : c.rest_cells ≡ drop (s.t1 - s.i) (drop s.i xs) =
          s.behind_t1 ∙ ap (λ k. drop k xs) z ∙ sym (drop-drop (s.t1 - s.i) s.i xs) in
        ap₂ ◌++◌ s.written (
          ap₂ ◌++◌ part_eq (o ∙ ap₂ (scan_seq m) before rest)
          ∙ glue (s.t1 - s.i) (sum_cells m a (take s.i xs)) (drop s.i xs))
        ∙ glue s.i a xs

    -- The parts are no longer than the array.
    Split-lengths :
        (a : A) (xs : List A) (c : Cut A)
        → Split m a xs c
        → (length c.first_cells ≤ length xs)
          × (length c.rest_cells ≤ length xs)
          × (length (take c.t21 c.rest_cells) ≡ c.t21)
          × (1 ≤ c.t21)
          × (c.t21 ≤ length xs)
          × (c.up_cells ≡ take c.t21 c.rest_cells)
    Split-lengths a xs c s =
        let (i1, it, tt', tn) = s.bounds in
        let f : length c.first_cells ≤ length xs = omega (
          arith,
          ap length s.before_t1,
          length-take_le (s.t1 - s.i) (drop s.i xs),
          length-drop s.i xs,
        ) in
        let r : length c.rest_cells ≡ length xs - s.t1 =
          ap length s.behind_t1 ∙ length-drop s.t1 xs in
        (
          f,
          omega (arith, r),
          length-take c.t21 c.rest_cells (omega (arith, r, s.size)),
          omega (arith, s.size),
          omega (arith, s.size),
          s.given ∙ ap₂ take (sym s.size) (sym s.behind_t1),
        )

    -- The middle and the last part.
    others-scan_seq :
        (before : A) (t : ℕ) (rest middle last_part : List A) (sum12 : A)
        → middle ≡ scan_seq m before (take t rest)
        → sum12 ≡ sum_cells m m.identity (take t rest)
        → last_part ≡ scan_seq m (m.op before sum12) (drop t rest)
        → middle ++ last_part ≡ scan_seq m before rest
    others-scan_seq before t rest middle last_part sum12 p q r =
        let z : m.op before sum12 ≡ sum_cells m before (take t rest) =
          ap (m.op before) q ∙ sum_cells-from m laws before (take t rest) in
        ap₂ ◌++◌ p (r ∙ ap (λ b. scan_seq m b (drop t rest)) z) ∙ glue t before rest

    -- Either way the loop may end.
    ends :
        (at : ℕ) (late : Bool) (a : A) (xs part others : List A)
        → length xs + 5 < u32_mod
        → (Split m a xs (cut_loop m at late a xs)
            → (part
                ≡ scan_seq m
                    (last_or m.identity (cut_loop m at late a xs).done)
                    (cut_loop m at late a xs).first_cells)
              × (others
                  ≡ scan_seq m
                      (last_or (last_or m.identity (cut_loop m at late a xs).done) part)
                      (cut_loop m at late a xs).rest_cells))
        → (if (cut_loop m at late a xs).finished
            then (cut_loop m at late a xs).done
            else (cut_loop m at late a xs).done ++ (part ++ others))
          ≡ scan_seq m a xs
    ends at late a xs part others h parts = elim (cut_loop-Split m at late a xs h) [
      | inl f ↦
          ap
            (λ b.
              if b
              then (cut_loop m at late a xs).done
              else (cut_loop m at late a xs).done ++ (part ++ others))
            f.0
          ∙ f.1
      | inr s ↦
          ap
            (λ b.
              if b
              then (cut_loop m at late a xs).done
              else (cut_loop m at late a xs).done ++ (part ++ others))
            s.unfinished
          ∙ join_parts a xs (cut_loop m at late a xs) part others s (parts s).0 (parts s).1
    ]

    read_sums :
        (freed : List A → List A) (reads_first : Bool) (sums : List A)
        → ReadInTime freed reads_first
        → (if reads_first then sums else freed sums) ≡ sums
    read_sums freed reads_first sums (inl e) = rw e refl
    read_sums freed true sums (inr h) = refl
    read_sums freed false sums (inr h) = h sums

    -- `scan` leaves in each cell the sum of `a` and the cells up to it, on arrays of fewer than
    -- 2^32 - 5 cells, wherever its promotion and those of its parts fall, which of the jobs are
    -- stolen, and whether they find memory; chunks have at least one cell. Wherever a job was stolen,
    -- the sum of the middle part must be read before the left branch frees the sums, or freed memory
    -- must still hold what it held.
    pub scan-scan_seq :
        (freed : List A → List A) (schedule : Schedule) (a : A) (xs : List A)
        → AllInTime freed schedule
        → length xs + 5 < u32_mod
        → scan m chunksize freed schedule a xs ≡ scan_seq m a xs
    unfolding scan
    scan-scan_seq freed unpromoted a xs safe h = unpromoted-scan_seq freed a xs h
    scan-scan_seq freed (unstolen at late first rest) a xs safe h = ends at late a xs _ _ h (λ s.
        let (f, r, _, _, _, _) = Split-lengths a xs (cut_loop m at late a xs) s in
        (
          scan-scan_seq freed first _ (cut_loop m at late a xs).first_cells safe.0 (omega arith),
          scan-scan_seq freed rest _ (cut_loop m at late a xs).rest_cells safe.1 (omega arith),
        ))
    scan-scan_seq freed (stolen at late first partials chunks reads_first tail) a xs safe h =
        ends at late a xs _ _ h (λ s.
          let c : Cut A = cut_loop m at late a xs in
          let (f, r, len, t1, tn, up) = Split-lengths a xs c s in
          let mid : List A = take c.t21 c.rest_cells in
          let sums_le : length (chunk_sums m (chunksize (length mid)) mid) ≤ length mid =
            length-chunk_sums (chunksize (length mid)) mid (omega arith) (omega arith)
              (root (length mid) (omega arith)) in
          let sums : scan m chunksize freed partials m.identity
                (chunk_sums m (chunksize (length c.up_cells)) c.up_cells)
              ≡ scan_seq m m.identity (chunk_sums m (chunksize (length mid)) mid) =
            ap
              (λ ys.
                scan m chunksize freed partials m.identity
                  (chunk_sums m (chunksize (length ys)) ys))
              up
            ∙ scan-scan_seq freed partials m.identity (chunk_sums m (chunksize (length mid)) mid)
                safe.1 (omega arith) in
          let read =
            ap (λ ys. cell m ys (sub32 c.t21 1 / chunksize c.t21))
              (read_sums freed reads_first _ safe.3) in
          let before : A =
            last_or (last_or m.identity c.done)
              (scan m chunksize freed first (last_or m.identity c.done) c.first_cells) in
          let done =
            middle_at before mid
              (scan m chunksize freed partials m.identity
                (chunk_sums m (chunksize (length c.up_cells)) c.up_cells))
              (λ k b ys. scan m chunksize freed (chunks k) b ys) c.t21 len (omega arith)
              (omega arith) sums
              (λ k b ys q. scan-scan_seq freed (chunks k) b ys (safe.2 k) (omega arith)) in
          (
            scan-scan_seq freed first _ c.first_cells safe.0 (omega arith),
            others-scan_seq before c.t21 c.rest_cells _ _ _ done.0 (read ∙ done.1) (
                scan-scan_seq freed tail _ (drop c.t21 c.rest_cells) safe.4
                  (omega (arith, length-drop c.t21 c.rest_cells))),
          ))

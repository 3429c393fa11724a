-- ===== src/Scan.antt =====
-- scan.hpp at `idx = uint32_t`: the inclusive scan of an array in place. Children: lists and sums
-- (Sums), the loop and its cut (Loop), the two sweeps over the chunks (Chunks), and the whole (Correct).
pub mod Sums
pub mod Loop
pub mod Chunks
pub mod Correct
use spork_llvm.Base.{
  ℕ, zero, suc, ◌+◌, ◌*◌, ◌/◌, ◌%◌, Bool, true, false, ◌&&◌, List, [], ◌∷◌, ◌++◌, if◌then◌else◌,
  ◌==◌, ltb, add32, sub32, u32_mod, length, take, drop, last_or,
}
use spork_llvm.Parfor.{Monoid}

unfoldable pub third1 : ℕ → ℕ → ℕ
third1 i j = add32 i (sub32 j i / 5)

unfoldable pub third2 : ℕ → ℕ → ℕ
third2 i j = sub32 j (2 * (sub32 j i / 5) % u32_mod)

-- What the promotion lambda decides: the new end of the loop, and the range of the upsweep if it
-- enqueues `up`.
pub record ScanPromotion : Type 0 where
  pub loop_end : ℕ
  pub up_start : ℕ
  pub up_n : ℕ

unfoldable pub scan_prom : (sig_safe_i n loop_end : ℕ) → ScanPromotion
unfolding third1 third2
scan_prom sig_safe_i n loop_end =
    let prom_i : ℕ = add32 sig_safe_i 5 in
    let t1 : ℕ = third1 prom_i n in
    let t2 : ℕ = third2 prom_i n in
    if ltb prom_i t1 && ltb t1 t2 && ltb t2 n
    then record { loop_end = prom_i; up_start = t1; up_n = sub32 t2 t1 }
    else record { loop_end = loop_end; up_start = 0; up_n = 0 }

-- Where the promotion of a scan falls: before the given iteration, or (`late`) behind it but before
-- its progress is stored; and whether `up` is stolen and finds memory. Then `reads_first` says whether
-- the right branch of `par`, if a thief has it, reads `partials` before the left one frees it; a branch
-- that is not stolen never does. The calls that follow have schedules of their own.
pub data Schedule : Type 0 where
  unpromoted : Schedule
  unstolen : (at : ℕ) (late : Bool) (first rest : Schedule) → Schedule
  stolen :
      (at : ℕ) (late : Bool) (first partials : Schedule) (chunks : ℕ → Schedule)
      (reads_first : Bool) (tail : Schedule)
      → Schedule

-- The index, the accumulator, the cells written and the cells to come.
pub record ScanLoop (A : Type 0) : Type 0 where
  pub i : ℕ
  pub a : A
  pub done : List A
  pub rest : List A

-- What is left to do behind the loop: nothing if it is `finished`; else the cells up to `t1`, those
-- behind it, how many of these lie before `t2`, and what `up` was given.
pub record Cut (A : Type 0) : Type 0 where
  pub finished : Bool
  pub done : List A
  pub first_cells : List A
  pub rest_cells : List A
  pub t21 : ℕ
  pub up_cells : List A

-- `for` over chunks, where each gives some values.
unfoldable pub each_chunk : {B : Type 0} → (ℕ → List B) → ℕ → ℕ → List B
each_chunk f zero c = []
each_chunk f (suc k) c = f c ++ each_chunk f k (c + 1)

unfoldable pub num_chunks : (n chunksize : ℕ) → ℕ
num_chunks n chunksize = add32 1 (sub32 n 1 / chunksize)

-- The cells of a chunk: `end` is `n` where a whole chunk does not fit.
unfoldable pub chunk : {A : Type 0} → (n chunksize c : ℕ) → List A → List A
chunk n chunksize c xs =
    let start : ℕ = c * chunksize % u32_mod in
    let size : ℕ = if ltb (sub32 n start) chunksize then sub32 n start else chunksize in
    take size (drop start xs)

module _ {A : Type 0} (m : Monoid A) where
  -- The loop of the body up to `loop_end`, which is never behind the array's end.
  unfoldable pub loop_to : ℕ → ℕ → A → List A → List A → ScanLoop A
  loop_to loop_end i a done [] = record { i = i; a = a; done = done; rest = [] }
  loop_to loop_end i a done (x ∷ xs) =
      let goes_on = loop_to loop_end (add32 i 1) (m.op a x) (done ++ (m.op a x ∷ [])) xs in
      if ltb i loop_end then goes_on else record { i = i; a = a; done = done; rest = x ∷ xs }

  abbrev pub go_on : ℕ → ScanLoop A → ScanLoop A
  go_on loop_end s = loop_to loop_end s.i s.a s.done s.rest

  -- The loop with a promotion: up to it, and on to the end that it sets.
  unfoldable pub cut_loop : ℕ → Bool → A → List A → Cut A
  unfolding loop_to scan_prom
  cut_loop at late a xs =
      let n : ℕ = length xs in
      let s₀ : ScanLoop A = loop_to at 0 a [] xs in
      let s₁ : ScanLoop A = if late then go_on (add32 s₀.i 1) s₀ else s₀ in
      let p : ScanPromotion = scan_prom s₀.i n n in
      let s : ScanLoop A = go_on p.loop_end s₁ in
      let t1 : ℕ = third1 s.i n in
      let t2 : ℕ = third2 s.i n in
      record {
        finished = s.i == n;
        done = s.done;
        first_cells = take (sub32 t1 s.i) s.rest;
        rest_cells = drop (sub32 t1 s.i) s.rest;
        t21 = sub32 t2 t1;
        up_cells = take p.up_n (drop p.up_start xs);
      }

  unfoldable pub sum_cells : A → List A → A
  sum_cells a [] = a
  sum_cells a (x ∷ xs) = sum_cells (m.op a x) xs

  -- The partial sums of `scan_upsweep`, before they are scanned.
  unfoldable pub chunk_sums : ℕ → List A → List A
  unfolding each_chunk num_chunks chunk sum_cells
  chunk_sums chunksize xs =
      each_chunk (λ c. sum_cells m.identity (chunk (length xs) chunksize c xs) ∷ [])
        (num_chunks (length xs) chunksize) 0

  -- `partials[k]`; behind their end it is not defined.
  abbrev pub cell : List A → ℕ → A
  cell [] k = m.identity
  cell (x ∷ xs) zero = x
  cell (x ∷ xs) (suc k) = cell xs k

  -- The `pfx` of `scan_downsweep`, where `before` is `arr[-1]`.
  abbrev pub prefix_of : A → List A → ℕ → A
  prefix_of before partials c = if c == 0 then before else m.op before (cell partials (sub32 c 1))

  -- `scan(a, arr, n, binop)`, with `chunksize` for `scan_chunksize`, and `freed` for what is read of an
  -- array that `scan_downsweep` has given to `p_free`: the cells that it leaves.
  unfoldable pub scan : (ℕ → ℕ) → (List A → List A) → Schedule → A → List A → List A
  unfolding loop_to cut_loop each_chunk chunk chunk_sums num_chunks
  scan chunksize freed unpromoted a xs = (loop_to (length xs) 0 a [] xs).done
  scan chunksize freed (unstolen at late first rest) a xs =
      let c : Cut A = cut_loop at late a xs in
      let part = scan chunksize freed first (last_or m.identity c.done) c.first_cells in
      let others =
        scan chunksize freed rest (last_or (last_or m.identity c.done) part) c.rest_cells in
      if c.finished then c.done else c.done ++ (part ++ others)
  scan chunksize freed (stolen at late first partials chunks reads_first tail) a xs =
      let c : Cut A = cut_loop at late a xs in
      let part = scan chunksize freed first (last_or m.identity c.done) c.first_cells in
      let before = last_or (last_or m.identity c.done) part in
      let size = chunksize c.t21 in
      let sums =
        scan chunksize freed partials m.identity
          (chunk_sums (chunksize (length c.up_cells)) c.up_cells) in
      let mid = take c.t21 c.rest_cells in
      let middle =
        each_chunk
          (λ k. scan chunksize freed (chunks k) (prefix_of before sums k) (chunk c.t21 size k mid))
          (num_chunks c.t21 size) 0 in
      let sums' = if reads_first then sums else freed sums in
      let sum12 = cell sums' (sub32 c.t21 1 / size) in
      let others = scan chunksize freed tail (m.op before sum12) (drop c.t21 c.rest_cells) in
      if c.finished then c.done else c.done ++ (part ++ (middle ++ others))

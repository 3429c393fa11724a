-- ===== src/Parfor/Total.antt =====
-- Every run of `parfor_` comes to an end: the loop does, and the jobs' ranges get smaller.
use native.Mathlib.Nat.{le_refl}
use spork_llvm.Base.{ℕ, zero, suc, ◌+◌, ◌-◌, ◌<◌, ◌≤◌, ◌≡◌, ◌++◌, inl, inr, arith, u32_mod, dec_lt}
use spork_llvm.Parfor.{Monoid, Range, rounds}
use spork_llvm.Parfor.Loop.{exited, Loop, start, Reach, here, next}
use spork_llvm.Parfor.Invariant.{Inv}
use spork_llvm.Parfor.Ends.{Reach-Inv, loop-terminates, measure, loop-covers, indices}
use spork_llvm.Parfor.Runs.{join, Exec, exec}

module _ {A : Type 0} (m : Monoid A) (body : ℕ → A → A) (factor l r : ℕ) (f1 : 1 ≤ factor)
    (f : factor < u32_mod) where
  abbrev Exits : ℕ → ℕ → A → Type 0
  Exits i j a = (t : Loop A) × Reach body factor l r i j a t × (t.pc ≡ exited)

  exits :
      (i j : ℕ) (a : A)
      → j < u32_mod
      → i ≤ j
      → (n : ℕ) (s : Loop A) → measure j s < n
      → Reach body factor l r i j a s
      → Exits i j a
  exits i j a hj ij zero s h rch = absurd (omega arith)
  exits i j a hj ij (suc n) s h rch =
      let ends = loop-terminates body factor l r i j a f1 f hj ij rch in
      elim ends.1 [
        | inl e ↦ (s, rch, e)
        | inr (t, st) ↦ exits i j a hj ij n t (omega (arith, ends.0 t st)) (next rch st)
      ]

  -- The result of a job on a range, if the range is not empty.
  abbrev Result : Range → Type 0
  Result range = (b : A) × (range.i < range.j → Exec m body factor range.i range.j m.identity b)

  abbrev Smaller : ℕ → ℕ → Type 0
  Smaller i j =
      (i' j' : ℕ)
      → i' ≤ j'
      → j' ≤ j
      → j' - i' < j - i
      → (b : A) × Exec m body factor i' j' m.identity b

  left_fits :
      (i j : ℕ) (a : A)
      → j < u32_mod
      → i ≤ j
      → (s : Loop A) → Reach body factor l r i j a s
      → s.left.i < s.left.j
      → (s.left.j ≤ j) × (s.left.j - s.left.i < j - i)
  left_fits i j a hj ij s rch lt =
      let v : Inv body factor i j a s = Reach-Inv body factor l r i j a f1 f hj ij rch in
      elim v.ranges [
        | inl w ↦ absurd (ground (arith, w.1))
        | inr w ↦ elim w.left_of [
          | inl q ↦ absurd (ground (arith, q.0))
          | inr q ↦ omega (arith, w.moved, w.nonempty)
        ]
      ]

  right_fits :
      (i j : ℕ) (a : A)
      → j < u32_mod
      → i ≤ j
      → (s : Loop A) → Reach body factor l r i j a s
      → s.right.i < s.right.j
      → (s.right.j ≤ j) × (s.right.j - s.right.i < j - i)
  right_fits i j a hj ij s rch lt =
      let v : Inv body factor i j a s = Reach-Inv body factor l r i j a f1 f hj ij rch in
      elim v.ranges [
        | inl w ↦ absurd (ground (arith, w.2))
        | inr w ↦ omega (arith, w.moved, w.right_j, w.after_e)
      ]

  finish :
      (i j : ℕ) (a : A)
      → j < u32_mod
      → i ≤ j
      → Smaller i j
      → (s : Loop A) → Reach body factor l r i j a s
      → s.pc ≡ exited
      → (la : A) × (ra : A) × Exec m body factor i j a (join m s la ra)
  finish i j a hj ij small s rch e =
      let (la, le) = result s.left (left_fits i j a hj ij s rch) in
      let (ra, re) = result s.right (right_fits i j a hj ij s rch) in
      (la, ra, exec l r s la ra rch e le re)
    where
      result :
          (range : Range)
          → (range.i < range.j → (range.j ≤ j) × (range.j - range.i < j - i))
          → Result range
      result range fits = elim (dec_lt range.i range.j) [
        | yes lt ↦
            let (b, x) = small range.i range.j (omega arith) (fits lt).0 (fits lt).1 in (b, λ _. x)
        | no n ↦ (m.identity, λ lt. absurd (n lt))
      ]

  total :
      (n i j : ℕ) (a : A) → j < u32_mod → i ≤ j → j - i < n → (b : A) × Exec m body factor i j a b
  total zero i j a hj ij h = absurd (omega arith)
  total (suc n) i j a hj ij h =
      let (t, rch, e) = exits i j a hj ij _ (start i j a) (le_refl _) here in
      let (la, ra, x) =
        finish i j a hj ij
          (λ i' j' le top lt. total n i' j' m.identity (omega arith) le (omega arith)) t rch e in
      (join m t la ra, x)

  -- However a run of the loop on the range ends, whatever its promotion, its accumulator holds the
  -- rounds up to its index, the indices done and those of the two jobs are together those of the range,
  -- each once and in order, and all of this holds of the runs of its jobs again.
  pub data Finishes : ℕ → ℕ → Type 0 where
    finishes :
        {i j : ℕ}
        → ((a : A) (s : Loop A)
            → Reach body factor l r i j a s
            → s.pc ≡ exited
            → (s.a ≡ rounds body (s.i - i) i a)
              × (indices i s.i ++ indices s.left.i s.left.j ++ indices s.right.i s.right.j
                  ≡ indices i j))
        → ((a : A) (s : Loop A)
            → Reach body factor l r i j a s
            → s.pc ≡ exited
            → s.left.i < s.left.j
            → Finishes s.left.i s.left.j)
        → ((a : A) (s : Loop A)
            → Reach body factor l r i j a s
            → s.pc ≡ exited
            → s.right.i < s.right.j
            → Finishes s.right.i s.right.j)
        → Finishes i j

  all_finish : (n i j : ℕ) → j < u32_mod → i ≤ j → j - i < n → Finishes i j
  all_finish zero i j hj ij h = absurd (omega arith)
  all_finish (suc n) i j hj ij h =
      finishes (λ a s rch e. loop-covers body factor l r i j a f1 f hj ij rch e)
        (λ a s rch e lt.
          let b = left_fits i j a hj ij s rch lt in
          all_finish n s.left.i s.left.j (omega (arith, b.0)) (omega arith) (omega (arith, b.1)))
        (λ a s rch e lt.
          let b = right_fits i j a hj ij s rch lt in
          all_finish n s.right.i s.right.j (omega (arith, b.0)) (omega arith) (omega (arith, b.1)))

  -- Whatever promotions fall into a run and into the runs of its jobs, the tree of the jobs is finite,
  -- and in each of its runs the accumulator holds the rounds up to the index, and the indices done and
  -- those of the jobs are together those of the range, each once and in order; and however the loop of
  -- a run ends, its jobs have results, and the run has the result of joining them. The range is in
  -- order and below 2^32, and the factor from 1 up below 2^32.
  pub parfor-total :
      (i j : ℕ)
      → j < u32_mod
      → i ≤ j
      → Finishes i j
        × ((a : A) (s : Loop A)
            → Reach body factor l r i j a s
            → s.pc ≡ exited
            → (la : A) × (ra : A) × Exec m body factor i j a (join m s la ra))
  parfor-total i j hj ij = (
    all_finish (j - i + 1) i j hj ij (omega arith),
    λ a s rch e.
        finish i j a hj ij
          (λ i' j' le top lt. total (j' - i' + 1) i' j' m.identity (omega arith) le (omega arith)) s
          rch e,
  )

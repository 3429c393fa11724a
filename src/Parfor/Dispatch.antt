-- ===== src/Parfor/Dispatch.antt =====
-- parfor.hpp, `parfor` at `idx = size_t` (64 bits), where `sig_atomic_t` has 32: which ranges of
-- `uint32_t` it hands to `parfor_`, and what their runs compute.
use spork_llvm.Base.{
  ℕ, zero, suc, ◌+◌, ◌-◌, ◌*◌, ◌/◌, ◌%◌, ◌^◌, ◌<◌, ◌≤◌, true, false, List, [], ◌∷◌, map, ◌≡◌, ◌⊎◌,
  inl, inr, refl, ap, ap₂, ◌∙◌, arith, u32_mod, if◌then◌else◌, leb, ◌==◌, lt→leb, dec_lt,
  Bool-cases,
}
use spork_llvm.Parfor.{Monoid, IsMonoid, rounds, seqfor}
use spork_llvm.Parfor.Ends.{indices}
use spork_llvm.Parfor.Runs.{Exec}
use spork_llvm.Parfor.Correct.{IsReduction, parfor-seqfor}

abbrev pub u64_mod : ℕ
u64_mod = 2 ^ 64

-- `parfor_((uint32_t) first, last, a, body)`, with a body that calls the caller's at `base + k`.
pub record Segment : Type 0 where
  pub base : ℕ
  pub first : ℕ
  pub last : ℕ

-- The body that `parfor_` is given.
abbrev pub body_of : {A : Type 0} → (ℕ → A → A) → Segment → ℕ → A → A
body_of body s k a = body ((s.base + k) % u64_mod) a

unfoldable pub num_blocks : ℕ → ℕ → ℕ
num_blocks i j = 1 + (j - i - 1) / 2 ^ 30

-- The lambda `fn`, on one block.
unfoldable pub block_segment : ℕ → ℕ → ℕ → Segment
block_segment i j block =
    let offset : ℕ = block * 2 ^ 30 % u64_mod in
    let block_end : ℕ =
      (if block == 1 + (j - i - 1) / 2 ^ 30
        then (block + 1) * 2 ^ 30 % u64_mod
        else (j + u64_mod - i + u64_mod - offset) % u64_mod)
      % u32_mod in
    record { base = (i + offset) % u64_mod; first = 0; last = block_end }

-- `parfor(i, j, a, body, binop)`; the blocks are those of the call `parfor(0, num_blocks, a, fn)`.
unfoldable pub segments : ℕ → ℕ → List Segment
unfolding num_blocks block_segment
segments i j =
    if leb j i
    then []
    else if leb j 0xFFFFFFFF
    then record { base = 0; first = i; last = j } ∷ []
    else if leb (j - i) 0xFFFFFFFF
    then record { base = i; first = 0; last = j - i } ∷ []
    else map (block_segment i j) (indices 0 (num_blocks i j))

rounds-body_of :
    {A : Type 0} (body : ℕ → A → A) (s : Segment) (n k : ℕ) (a : A)
    → s.base + k + n ≤ u64_mod
    → rounds (body_of body s) n k a ≡ rounds body n (s.base + k) a
unfolding rounds
rounds-body_of body s zero k a h = refl
rounds-body_of body s (suc n) k a h =
    let e : (s.base + k) % u64_mod ≡ s.base + k = omega arith in
    let e' : s.base + (k + 1) ≡ s.base + k + 1 = omega arith in
    ap (λ z. rounds (body_of body s) n (k + 1) (body z a)) e
    ∙ rounds-body_of body s n (k + 1) (body (s.base + k) a) (omega arith)
    ∙ ap (λ z. rounds body n z (body (s.base + k) a)) e'

-- A segment that stands for the range from `i` up to `j`.
abbrev StandsFor : Segment → ℕ → ℕ → Type 0
StandsFor s i j =
    (s.base + s.first ≡ i) × (s.base + s.last ≡ j) × (s.first ≤ s.last) × (s.last < u32_mod)

narrow_segment :
    (i j : ℕ)
    → i < j
    → (j ≤ 0xFFFFFFFF) ⊎ (j - i ≤ 0xFFFFFFFF)
    → (s : Segment) × (segments i j ≡ s ∷ []) × StandsFor s i j
unfolding segments
narrow_segment i j lt h = elim (Bool-cases (leb j 0xFFFFFFFF)) [
  | inl e ↦ (
    record { base = 0; first = i; last = j },
    rw (lt→leb j i lt, e) refl,
    (omega arith, omega arith, omega arith, ground arith),
  )
  | inr e ↦
      let small : leb (j - i) 0xFFFFFFFF ≡ true = ground arith in
      (
        record { base = i; first = 0; last = j - i },
        rw (lt→leb j i lt, e, small) refl,
        (omega arith, omega arith, omega arith, ground arith),
      )
]

segment-seqfor :
    {A : Type 0} (m : Monoid A) (body : ℕ → A → A) (s : Segment) (i j : ℕ)
    → j < u64_mod
    → StandsFor s i j
    → seqfor m (body_of body s) s.first s.last ≡ seqfor m body i j
unfolding seqfor
segment-seqfor m body s i j hj (ei, ej, le, top) =
    let n : s.last - s.first ≡ j - i = omega arith in
    rounds-body_of body s (s.last - s.first) s.first m.identity (omega arith)
    ∙ ap₂ (λ k z. rounds body k z m.identity) n ei

-- Where a range that is not empty has at most 2^32 - 1 indices, or an end of at most that, `parfor`
-- makes one call of `parfor_`; and however that runs, whatever its promotions and those of its jobs, it
-- ends with what `seqfor` computes on the caller's range, from the accumulator on. The body must reduce
-- with the operation of the monoid, and the factor is from 1 up below 2^32.
pub narrow-seqfor :
    {A : Type 0} (m : Monoid A) (laws : IsMonoid m) (body : ℕ → A → A) (factor i j : ℕ)
    → IsReduction m body
    → 1 ≤ factor
    → factor < u32_mod
    → i < j
    → j < u64_mod
    → (j ≤ 0xFFFFFFFF) ⊎ (j - i ≤ 0xFFFFFFFF)
    → (s : Segment) × (segments i j ≡ s ∷ [])
      × ((a b : A)
          → Exec m (body_of body s) factor s.first s.last a b
          → b ≡ m.op a (seqfor m body i j))
narrow-seqfor m laws body factor i j red f1 f lt hj h =
    let (s, e, for) = narrow_segment i j lt h in
    (
      s,
      e,
      λ a b x.
          parfor-seqfor m laws (body_of body s) (λ k b c. red ((s.base + k) % u64_mod) b c) factor
            f1 f for.3 for.2 x
          ∙ ap (m.op a) (segment-seqfor m body s i j hj for),
    )

-- Away from the last block's test, which no block passes, and without wrapping.
block_segment-eq :
    (i j block : ℕ)
    → i < j
    → j < u64_mod
    → block < num_blocks i j
    → block_segment i j block
      ≡ record { base = i + block * 2 ^ 30; first = 0; last = (j - i - block * 2 ^ 30) % u32_mod }
unfolding block_segment num_blocks
block_segment-eq i j block ij hj h =
    let fits : block * 2 ^ 30 < j - i = omega arith in
    let no : (block == 1 + (j - i - 1) / 2 ^ 30) ≡ false = ground arith in
    let offset : block * 2 ^ 30 % u64_mod ≡ block * 2 ^ 30 = omega arith in
    let sum : (i + block * 2 ^ 30) % u64_mod ≡ i + block * 2 ^ 30 = omega arith in
    let rest : (j + u64_mod - i + u64_mod - block * 2 ^ 30) % u64_mod ≡ j - i - block * 2 ^ 30 =
      omega arith in
    rw (no, offset, sum, rest)

-- The block that `block` denotes runs the caller's body at `index`.
pub RunsAt : ℕ → ℕ → ℕ → ℕ → Type 0
RunsAt i j block index =
    (block < num_blocks i j)
    × ((block_segment i j block).base ≤ index)
    × (index < (block_segment i j block).base + (block_segment i j block).last)

runs_at :
    (i j block index : ℕ)
    → i < j
    → j < u64_mod
    → block < num_blocks i j
    → i + block * 2 ^ 30 ≤ index
    → index < i + block * 2 ^ 30 + (j - i - block * 2 ^ 30) % u32_mod
    → RunsAt i j block index
unfolding RunsAt
runs_at i j block index ij hj h lo hi =
    (h, rw (block_segment-eq i j block ij hj h) lo, rw (block_segment-eq i j block ij hj h) hi)

enough_blocks : (i j block : ℕ) → 0xFFFFFFFF < j - i → block ≤ 3 → block < num_blocks i j
unfolding num_blocks
enough_blocks i j block h k = omega arith

-- A range with more indices than that is cut into blocks that overlap: some index is run twice.
pub wide-overlaps :
    (i j : ℕ)
    → i < j
    → j < u64_mod
    → 0xFFFFFFFF < j - i
    → (b : ℕ) × (c : ℕ) × (index : ℕ) × (b < c) × RunsAt i j b index × RunsAt i j c index
wide-overlaps i j ij hj wide = elim (dec_lt (2 ^ 30) ((j - i) % u32_mod)) [
  | yes lt ↦ (
    0,
    1,
    i + 2 ^ 30,
    omega arith,
    runs_at i j 0 _ ij hj (enough_blocks i j 0 wide (omega arith)) (omega arith) (omega arith),
    runs_at i j 1 _ ij hj (enough_blocks i j 1 wide (omega arith)) (omega arith) (omega arith),
  )
  | no le ↦ elim (dec_lt ((j - i) % u32_mod) (2 ^ 30)) [
    | yes lt ↦ (
      1,
      2,
      i + 2 * 2 ^ 30,
      omega arith,
      runs_at i j 1 _ ij hj (enough_blocks i j 1 wide (omega arith)) (omega arith) (omega arith),
      runs_at i j 2 _ ij hj (enough_blocks i j 2 wide (omega arith)) (omega arith) (omega arith),
    )
    | no ge ↦ (
      2,
      3,
      i + 3 * 2 ^ 30,
      omega arith,
      runs_at i j 2 _ ij hj (enough_blocks i j 2 wide (omega arith)) (omega arith) (omega arith),
      runs_at i j 3 _ ij hj (enough_blocks i j 3 wide (omega arith)) (omega arith) (omega arith),
    )
  ]
]

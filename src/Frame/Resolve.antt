-- ===== src/Frame/Resolve.antt =====
-- What resolving and numbering yield.
use spork_llvm.Base.{
  ℕ, zero, suc, ◌+◌, ◌*◌, ◌≡◌, true, List, [], ◌∷◌, ◌++◌, none, some, ◌==◌, refl, ap, arith, length,
  Bool-cases, Option-cases, inl, inr,
}
use spork_llvm.Frame.{
  Index, constant, variable, Pointer, alloca, bit_cast, addr_space_cast, gep, opaque, gep_all_zero,
  resolve_to, Instruction, call, other, SporkLoopInfo, record_args, record_call, try_record,
  populate,
}

-- Where things are at run time: the allocas, other pointers, the variables, and by how much an index
-- at a position of a GEP moves the address.
pub record Memory : Type 0 where
  pub frame : ℕ → ℕ
  pub elsewhere : ℕ → ℕ
  pub value : ℕ → ℕ
  pub stride : ℕ → ℕ

abbrev pub displacement : Memory → ℕ → List Index → ℕ
displacement m pos [] = 0
displacement m pos (constant n ∷ is) = n * m.stride pos + displacement m (pos + 1) is
displacement m pos (variable n ∷ is) = m.value n * m.stride pos + displacement m (pos + 1) is

abbrev pub address : Memory → Pointer → ℕ
address m (alloca a) = m.frame a
address m (bit_cast p) = address m p
address m (addr_space_cast p) = address m p
address m (gep p is) = address m p + displacement m 0 is
address m (opaque n) = m.elsewhere n

all_zero-displacement :
    (m : Memory) (pos : ℕ) (is : List Index) → gep_all_zero is ≡ true → displacement m pos is ≡ 0
unfolding gep_all_zero
all_zero-displacement m pos [] e = refl
all_zero-displacement m pos (constant zero ∷ is) e =
    let ih = all_zero-displacement m (pos + 1) is e in rw ih (omega arith)
all_zero-displacement m pos (constant (suc n) ∷ is) e = absurd (ground arith)
all_zero-displacement m pos (variable n ∷ is) e = absurd cc

-- A pointer that resolves to an alloca has the alloca's address, whatever the addresses, the variables
-- and the layout of the types are.
pub resolve_to-address :
    (m : Memory) (p : Pointer) (a : ℕ) → resolve_to p ≡ some a → address m p ≡ m.frame a
unfolding resolve_to
resolve_to-address m (alloca b) a e = let q : b ≡ a = cc in ap m.frame q
resolve_to-address m (bit_cast p) a e = resolve_to-address m p a e
resolve_to-address m (addr_space_cast p) a e = resolve_to-address m p a e
resolve_to-address m (gep p is) a e = elim (Bool-cases (gep_all_zero is)) [
  | inl z ↦
      let e' = rw z at e in
      omega (arith, resolve_to-address m p a e', all_zero-displacement m 0 is z)
  | inr z ↦ let e' = rw z at e in absurd cc
]
resolve_to-address m (opaque n) a e = absurd cc

-- The sites are numbered from `n`, in order.
abbrev pub Numbered : ℕ → List SporkLoopInfo → Type 0
Numbered n [] = Unit {0}
Numbered n (s ∷ ss) = (s.id ≡ n) × Numbered (n + 1) ss

Numbered-append :
    (n : ℕ) (ss : List SporkLoopInfo) (s : SporkLoopInfo)
    → Numbered n ss
    → s.id ≡ n + length ss
    → Numbered n (ss ++ (s ∷ []))
Numbered-append n [] s a e = (omega (arith, e), tt)
Numbered-append n (x ∷ ss) s a e = (a.0, Numbered-append (n + 1) ss s a.1 (omega (arith, e)))

args-Numbered :
    (p q : Pointer) (ss : List SporkLoopInfo) → Numbered 0 ss → Numbered 0 (record_args p q ss)
unfolding record_args
args-Numbered p q ss a = elim (Option-cases (resolve_to p)) [
  | inl e ↦ rw (e, record_args) a
  | inr (x, e) ↦ elim (Option-cases (resolve_to q)) [
    | inl f ↦ rw (e, f, record_args) a
    | inr (y, f) ↦ rw (e, f, record_args) (Numbered-append 0 ss _ a (omega arith))
  ]
]

call-Numbered :
    (ps : List Pointer) (ss : List SporkLoopInfo) → Numbered 0 ss → Numbered 0 (record_call ps ss)
call-Numbered [] ss a = a
call-Numbered (p ∷ []) ss a = a
call-Numbered (p ∷ q ∷ []) ss a = args-Numbered p q ss a
call-Numbered (p ∷ q ∷ r ∷ ps) ss a = a

record-Numbered :
    (name : ℕ) (i : Instruction) (ss : List SporkLoopInfo)
    → Numbered 0 ss
    → Numbered 0 (try_record name i ss)
unfolding try_record
record-Numbered name (call none args) ss a = a
record-Numbered name (call (some f) args) ss a = elim (Bool-cases (f == name)) [
  | inl e ↦ rw e (call-Numbered args ss a)
  | inr e ↦ rw e a
]
record-Numbered name other ss a = a

-- `populateSporkInfo` numbers the sites that it records by their places, from 0 up, whatever calls it
-- skips.
pub populate-Numbered :
    (name : ℕ) (is : List Instruction) (ss : List SporkLoopInfo)
    → Numbered 0 ss
    → Numbered 0 (populate name is ss)
unfolding populate
populate-Numbered name [] ss a = a
populate-Numbered name (i ∷ is) ss a =
    populate-Numbered name is (try_record name i ss) (record-Numbered name i ss a)

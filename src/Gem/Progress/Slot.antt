-- ===== src/Gem/Progress/Slot.antt =====
-- gempass, `resolveAlloca`: the slot of a pointer, and the variable that the pointer leads to.
use spork_llvm.Base.{ℕ, zero, suc, ◌+◌, ◌≡◌, ◌≢◌, subst, true, false, some, refl, ap, ◌∙◌, arith}
use spork_llvm.Unroll.{Value, strip_integer_casts}
use spork_llvm.Unroll.Recognise.{present}
use spork_llvm.Unroll.Recognise.Accepted.{check-some, bind-some}
use spork_llvm.Unroll.Recognise.Follows.{some_inj}
use spork_llvm.Gem.Progress.{
  Pointer, alloca, pointer_cast, gep, loaded, other, resolve_alloca, GemShape, GemProgress,
  number_of, find_progress_of, find_progress_store, find_slots, find_store, find_exit_test,
  GemCompare,
}

-- Where the slots of the frame lie, what pointers stand in memory, and the pointers that
-- `resolveAlloca` does not look through.
pub record PointerMemory : Type 0 where
  pub frame : ℕ → ℕ
  pub cell : ℕ → ℕ
  pub displacement : Pointer → ℕ
  pub elsewhere : ℕ → ℕ

abbrev pub address : PointerMemory → Pointer → ℕ
address m (alloca n) = m.frame n
address m (pointer_cast p) = address m p
address m (gep true p) = address m p
address m (gep false p) = address m p + m.displacement p
address m (loaded p) = m.cell (address m p)
address m (other n) = m.elsewhere n

-- How many loads there are on the way.
abbrev pub dereferences : Pointer → ℕ
dereferences (alloca n) = 0
dereferences (pointer_cast p) = dereferences p
dereferences (gep all_zero p) = dereferences p
dereferences (loaded p) = suc (dereferences p)
dereferences (other n) = 0

abbrev pub dereference : PointerMemory → (times a : ℕ) → ℕ
dereference m zero a = a
dereference m (suc times) a = m.cell (dereference m times a)

pub resolve_alloca-address :
    (m : PointerMemory) (p : Pointer) (slot : ℕ)
    → resolve_alloca p ≡ some slot
    → address m p ≡ dereference m (dereferences p) (m.frame slot)
unfolding resolve_alloca
resolve_alloca-address m (alloca n) slot e = ap m.frame (some_inj n slot e)
resolve_alloca-address m (pointer_cast p) slot e = resolve_alloca-address m p slot e
resolve_alloca-address m (gep true p) slot e = resolve_alloca-address m p slot e
resolve_alloca-address m (gep false p) slot e = absurd cc
resolve_alloca-address m (loaded p) slot e = ap m.cell (resolve_alloca-address m p slot e)
resolve_alloca-address m (other n) slot e = absurd cc

abbrev pub Slots : GemShape → GemProgress → Type 0
Slots s p =
    (resolve_alloca (s.pointer p.progress.ptr) ≡ some p.slot)
    × (resolve_alloca (s.pointer p.bound_load.ptr) ≡ some p.bound_slot)
    × (p.bound_slot ≢ p.slot)

abbrev Tested : GemShape → GemProgress → Type 0
Tested s p =
    (c : GemCompare) × (next : ℕ) × (s.compare ≡ some c)
    × (number_of (strip_integer_casts p.next) ≡ some next)
    × (find_exit_test s c next ≡ some (p.predicate, p.bound_load))
    × (c.lhs ≡ p.lhs)
    × (c.rhs ≡ p.rhs)

find_slots-apart :
    (s : GemShape) (progress_ptr bound_ptr : ℕ) (slots : ℕ × ℕ)
    → find_slots s progress_ptr bound_ptr ≡ some slots
    → (resolve_alloca (s.pointer progress_ptr) ≡ some slots.0)
      × (resolve_alloca (s.pointer bound_ptr) ≡ some slots.1)
      × (slots.1 ≢ slots.0)
unfolding find_slots
find_slots-apart s progress_ptr bound_ptr slots e =
    let (slot, a, e₁) = bind-some (resolve_alloca (s.pointer progress_ptr)) _ slots e in
    let (b, e₂) = check-some _ _ slots e₁ in
    let (bound_slot, c, e₃) = bind-some (resolve_alloca (s.pointer bound_ptr)) _ slots e₂ in
    let (d, e₄) = check-some _ _ slots e₃ in
    let q = some_inj _ slots e₄ in
    subst
      (λ (z : ℕ × ℕ).
        (resolve_alloca (s.pointer progress_ptr) ≡ some z.0)
        × (resolve_alloca (s.pointer bound_ptr) ≡ some z.1)
        × (z.1 ≢ z.0))
      q (a, c, λ z. ground (arith, z))

find_progress_of-fields :
    (s : GemShape) (phi : ℕ) (v : Value) (next : ℕ) (p : GemProgress)
    → number_of (strip_integer_casts v) ≡ some next
    → find_progress_of s phi v next ≡ some p
    → Slots s p × Tested s p
unfolding find_progress_of
find_progress_of-fields s phi v next p n e =
    let (st, a, e₁) = bind-some (find_store s next) _ p e in
    let (c, b, e₂) = bind-some s.compare _ p e₁ in
    let (t, d, e₃) = bind-some (find_exit_test s c next) _ p e₂ in
    let (slots, f, e₄) = bind-some (find_slots s st.ptr t.1.ptr) _ p e₃ in
    let q = some_inj _ p e₄ in
    subst (λ z. Slots s z × Tested s z) q
      (find_slots-apart s st.ptr t.1.ptr slots f, (c, next, b, n, d, refl, refl))

pub find_progress_store-fields :
    (s : GemShape) (p : GemProgress) → find_progress_store s ≡ some p → Slots s p × Tested s p
unfolding find_progress_store
find_progress_store-fields s p e =
    let (a, e₁) = check-some (present s.latch) _ p e in
    let (phi, b, e₂) = bind-some s.induction _ p e₁ in
    let (v, c, e₃) = bind-some s.next _ p e₂ in
    let (next, n, e₄) = bind-some (number_of (strip_integer_casts v)) _ p e₃ in
    find_progress_of-fields s phi v next p n e₄

-- The pointer by which the loop loads its bound leads to the slot that the guards read, dereferenced
-- as many times as there are loads on the way, and at none it is that slot; the slot is not that of
-- the progress.
pub find_progress_store-bound :
    (m : PointerMemory) (s : GemShape) (p : GemProgress)
    → find_progress_store s ≡ some p
    → (address m (s.pointer p.bound_load.ptr)
        ≡ dereference m (dereferences (s.pointer p.bound_load.ptr)) (m.frame p.bound_slot))
      × (dereferences (s.pointer p.bound_load.ptr) ≡ 0
          → address m (s.pointer p.bound_load.ptr) ≡ m.frame p.bound_slot)
      × (p.bound_slot ≢ p.slot)
find_progress_store-bound m s p e =
    let f = (find_progress_store-fields s p e).0 in
    let a = resolve_alloca-address m (s.pointer p.bound_load.ptr) p.bound_slot f.1 in
    (a, λ z. a ∙ ap (λ n. dereference m n (m.frame p.bound_slot)) z, f.2)

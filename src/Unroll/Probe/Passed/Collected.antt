-- ===== src/Unroll/Probe/Passed/Collected.antt =====
-- fablepass, the inputs and the live-outs of the probe are all that it needs.
use spork_llvm.Base.{
  ℕ, suc, ◌+◌, ◌≡◌, ◌⊎◌, inl, inr, true, false, List, [], ◌∷◌, ◌++◌, some, get_elem?, refl, sym, ap,
  ◌∙◌, subst, arith, Bool-cases, Option-cases, ==_iff,
}
use spork_llvm.Unroll.Probe.Passed.{
  Operand, inside, outside, parameter, literal, same_operand, place_of, insert_unless, insert,
  collect_inputs, collect_live_outs,
}

pub same_operand-eq : (x o : Operand) → same_operand x o ≡ true → x ≡ o
same_operand-eq (inside m) (inside n) e = ap inside ((==_iff m n).0 e)
same_operand-eq (outside m) (outside n) e = ap outside ((==_iff m n).0 e)
same_operand-eq (parameter m) (parameter n) e = ap parameter ((==_iff m n).0 e)
same_operand-eq (literal m) (literal n) e = ap literal ((==_iff m n).0 e)
same_operand-eq (inside m) (outside n) e = absurd cc
same_operand-eq (inside m) (parameter n) e = absurd cc
same_operand-eq (inside m) (literal n) e = absurd cc
same_operand-eq (outside m) (inside n) e = absurd cc
same_operand-eq (outside m) (parameter n) e = absurd cc
same_operand-eq (outside m) (literal n) e = absurd cc
same_operand-eq (parameter m) (inside n) e = absurd cc
same_operand-eq (parameter m) (outside n) e = absurd cc
same_operand-eq (parameter m) (literal n) e = absurd cc
same_operand-eq (literal m) (inside n) e = absurd cc
same_operand-eq (literal m) (outside n) e = absurd cc
same_operand-eq (literal m) (parameter n) e = absurd cc

pub same_operand_self : (o : Operand) → same_operand o o ≡ true
same_operand_self (inside n) = ground arith
same_operand_self (outside n) = ground arith
same_operand_self (parameter n) = ground arith
same_operand_self (literal n) = ground arith

abbrev pub HasOperand : Operand → List Operand → Type 0
HasOperand o [] = ⊥
HasOperand o (x ∷ xs) = (x ≡ o) ⊎ HasOperand o xs

-- The place of an operand that is in a list is one where the list has it.
pub place_of-HasOperand :
    (o : Operand) (xs : List Operand) (index : ℕ)
    → HasOperand o xs
    → (j : ℕ) × (place_of o xs index ≡ some (index + j)) × (get_elem? xs j ≡ some o)
place_of-HasOperand o [] index h = elim h [ ]
place_of-HasOperand o (x ∷ xs) index h = elim (Bool-cases (same_operand x o)) [
  | inl t ↦
      let z : index ≡ index + 0 = omega arith in
      (0, rw t (ap some z), ap some (same_operand-eq x o t))
  | inr f ↦ (elim h [
    | inl e ↦ absurd (
        let s = same_operand_self x in
        let f' = subst (λ y. same_operand x y ≡ false) (sym e) f in cc)
    | inr h' ↦
        let (j, p, g) = place_of-HasOperand o xs (suc index) h' in
        let z : suc index + j ≡ index + suc j = omega arith in (suc j, rw f (p ∙ ap some z), g)
  ])
]

HasOperand-last : (o : Operand) (xs : List Operand) → HasOperand o (xs ++ (o ∷ []))
HasOperand-last o [] = inl refl
HasOperand-last o (x ∷ xs) = inr (HasOperand-last o xs)

HasOperand-append : (o : Operand) (xs ys : List Operand) → HasOperand o xs → HasOperand o (xs ++ ys)
HasOperand-append o [] ys h = elim h [ ]
HasOperand-append o (x ∷ xs) ys (inl e) = inl e
HasOperand-append o (x ∷ xs) ys (inr h) = inr (HasOperand-append o xs ys h)

pub place_of-some :
    (o : Operand) (xs : List Operand) (index k : ℕ) → place_of o xs index ≡ some k → HasOperand o xs
place_of-some o [] index k e = absurd cc
place_of-some o (x ∷ xs) index k e = elim (Bool-cases (same_operand x o)) [
  | inl t ↦ inl (same_operand-eq x o t)
  | inr f ↦ inr (place_of-some o xs (suc index) k (rw f at e))
]

insert-HasOperand : (o : Operand) (xs : List Operand) → HasOperand o (insert o xs)
insert-HasOperand o xs = elim (Option-cases (place_of o xs 0)) [
  | inl e ↦ subst (λ q. HasOperand o (insert_unless q o xs)) (sym e) (HasOperand-last o xs)
  | inr (k, e) ↦ subst (λ q. HasOperand o (insert_unless q o xs)) (sym e) (place_of-some o xs 0 k e)
]

insert-keeps : (o p : Operand) (xs : List Operand) → HasOperand p xs → HasOperand p (insert o xs)
insert-keeps o p xs h = elim (Option-cases (place_of o xs 0)) [
  | inl e ↦
      subst (λ q. HasOperand p (insert_unless q o xs)) (sym e) (HasOperand-append p xs (o ∷ []) h)
  | inr (k, e) ↦ subst (λ q. HasOperand p (insert_unless q o xs)) (sym e) h
]

inputs_keep :
    (os inputs : List Operand) (p : Operand)
    → HasOperand p inputs
    → HasOperand p (collect_inputs os inputs)
unfolding collect_inputs
inputs_keep [] inputs p h = h
inputs_keep (inside n ∷ os) inputs p h = inputs_keep os inputs p h
inputs_keep (outside n ∷ os) inputs p h = inputs_keep os _ p (insert-keeps (outside n) p inputs h)
inputs_keep (parameter n ∷ os) inputs p h =
    inputs_keep os _ p (insert-keeps (parameter n) p inputs h)
inputs_keep (literal n ∷ os) inputs p h = inputs_keep os inputs p h

-- What the probe must be given.
abbrev pub IsInput : Operand → Type 0
IsInput (outside n) = Unit {0}
IsInput (parameter n) = Unit {0}
IsInput _ = ⊥

pub inputs_collect :
    (os inputs : List Operand) (p : Operand)
    → HasOperand p os
    → IsInput p
    → HasOperand p (collect_inputs os inputs)
unfolding collect_inputs
inputs_collect [] inputs p h i = elim h [ ]
inputs_collect (inside n ∷ os) inputs p (inl e) i = absurd (subst IsInput (sym e) i)
inputs_collect (literal n ∷ os) inputs p (inl e) i = absurd (subst IsInput (sym e) i)
inputs_collect (outside n ∷ os) inputs p (inl e) i =
    inputs_keep os _ p (
      subst (λ q. HasOperand q (insert (outside n) inputs)) e
        (insert-HasOperand (outside n) inputs))
inputs_collect (parameter n ∷ os) inputs p (inl e) i = inputs_keep os _ p (
    subst (λ q. HasOperand q (insert (parameter n) inputs)) e
      (insert-HasOperand (parameter n) inputs))
inputs_collect (inside n ∷ os) inputs p (inr h) i = inputs_collect os inputs p h i
inputs_collect (outside n ∷ os) inputs p (inr h) i = inputs_collect os _ p h i
inputs_collect (parameter n ∷ os) inputs p (inr h) i = inputs_collect os _ p h i
inputs_collect (literal n ∷ os) inputs p (inr h) i = inputs_collect os inputs p h i

live_outs_keep :
    (os live_outs : List Operand) (p : Operand)
    → HasOperand p live_outs
    → HasOperand p (collect_live_outs os live_outs)
unfolding collect_live_outs
live_outs_keep [] live_outs p h = h
live_outs_keep (inside n ∷ os) live_outs p h =
    live_outs_keep os _ p (insert-keeps (inside n) p live_outs h)
live_outs_keep (outside n ∷ os) live_outs p h = live_outs_keep os live_outs p h
live_outs_keep (parameter n ∷ os) live_outs p h = live_outs_keep os live_outs p h
live_outs_keep (literal n ∷ os) live_outs p h = live_outs_keep os live_outs p h

pub live_outs_collect :
    (os live_outs : List Operand) (n : ℕ)
    → HasOperand (inside n) os
    → HasOperand (inside n) (collect_live_outs os live_outs)
unfolding collect_live_outs
live_outs_collect [] live_outs n h = elim h [ ]
live_outs_collect (inside m ∷ os) live_outs n (inl e) = live_outs_keep os _ (inside n) (
    subst (λ q. HasOperand q (insert (inside m) live_outs)) e
      (insert-HasOperand (inside m) live_outs))
live_outs_collect (inside m ∷ os) live_outs n (inr h) = live_outs_collect os _ n h
live_outs_collect (outside m ∷ os) live_outs n (inl e) = absurd cc
live_outs_collect (outside m ∷ os) live_outs n (inr h) = live_outs_collect os live_outs n h
live_outs_collect (parameter m ∷ os) live_outs n (inl e) = absurd cc
live_outs_collect (parameter m ∷ os) live_outs n (inr h) = live_outs_collect os live_outs n h
live_outs_collect (literal m ∷ os) live_outs n (inl e) = absurd cc
live_outs_collect (literal m ∷ os) live_outs n (inr h) = live_outs_collect os live_outs n h

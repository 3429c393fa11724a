-- ===== src/Unroll/Probe/Passed/Arrive.antt =====
-- fablepass, the probe is called with the values that its clones use, and the exit gets the values of the
-- loop.
use spork_llvm.Base.{
  ℕ, zero, suc, ◌+◌, ◌≡◌, ◌⊎◌, inl, inr, false, List, [], ◌∷◌, Option, none, some, get_elem?, refl,
  sym, ap, ◌∙◌, subst, arith, Bool-cases, Option-cases,
}
use spork_llvm.Unroll.Recognise.Follows.{some_inj}
use spork_llvm.Unroll.Probe.Passed.{
  Operand, inside, outside, parameter, literal, same_operand, place_of, collect_inputs,
  collect_live_outs, Cloned, clone, probe_parameter, unmapped, mapped, remap, Received, whole, part,
  old_input, received, receive,
}
use spork_llvm.Unroll.Probe.Passed.Collected.{
  same_operand-eq, same_operand_self, HasOperand, place_of-HasOperand, place_of-some,
  inputs_collect, live_outs_collect,
}

module _ {A : Type 0} (value : Operand → A) where
  abbrev pub values : List Operand → List A
  values [] = []
  values (x ∷ xs) = value x ∷ values xs

  -- What an operand of the clone is in a call with these arguments. The probe knows no parameter and no
  -- instruction of the function around the loop.
  abbrev pub read : List A → Cloned → Option A
  read args (clone n) = some (value (inside n))
  read args (probe_parameter i) = get_elem? args i
  read args (unmapped (literal n)) = some (value (literal n))
  read args (unmapped _) = none

  -- What an exit PHI takes from the results. The instructions of the loop are gone.
  abbrev pub take_result : List A → Received → Option A
  take_result results whole = get_elem? results 0
  take_result results (part i) = get_elem? results i
  take_result results (old_input (inside n)) = none
  take_result results (old_input o) = some (value o)

  values-at :
      (o : Operand) (xs : List Operand) (j : ℕ)
      → get_elem? xs j ≡ some o
      → get_elem? (values xs) j ≡ some (value o)
  values-at o [] j e = absurd cc
  values-at o (x ∷ xs) zero e = ap some (ap value (some_inj _ _ e))
  values-at o (x ∷ xs) (suc j) e = values-at o xs j e

  -- Wherever the operand is found, its value is there.
  found_value :
      (o : Operand) (xs : List Operand)
      → HasOperand o xs
      → (k : ℕ) × (place_of o xs 0 ≡ some k) × (get_elem? (values xs) k ≡ some (value o))
  found_value o xs h =
      let (j, p, g) = place_of-HasOperand o xs 0 h in
      let z : j ≡ 0 + j = omega arith in
      (0 + j, p, ap (get_elem? (values xs)) (sym z) ∙ values-at o xs j g)

  mapped-value :
      (inputs : List Operand) (o : Operand)
      → HasOperand o inputs
      → read (values inputs) (mapped (place_of o inputs 0) o) ≡ some (value o)
  mapped-value inputs o h =
      let (k, p, g) = found_value o inputs h in
      subst (λ q. read (values inputs) (mapped q o) ≡ some (value o)) (sym p) g

  remap-value :
      (operands : List Operand) (o : Operand)
      → HasOperand o operands
      → read (values (collect_inputs operands [])) (remap (collect_inputs operands []) o)
        ≡ some (value o)
  unfolding remap
  remap-value operands (inside n) h = refl
  remap-value operands (outside n) h =
      mapped-value (collect_inputs operands []) (outside n)
        (inputs_collect operands [] (outside n) h tt)
  remap-value operands (parameter n) h =
      mapped-value (collect_inputs operands []) (parameter n)
        (inputs_collect operands [] (parameter n) h tt)
  remap-value operands (literal n) h =
      elim (Option-cases (place_of (literal n) (collect_inputs operands []) 0)) [
        | inl e ↦
            subst
              (λ q.
                read (values (collect_inputs operands [])) (mapped q (literal n))
                ≡ some (value (literal n)))
              (sym e) refl
        | inr (k, e) ↦
            mapped-value (collect_inputs operands []) (literal n)
              (place_of-some (literal n) (collect_inputs operands []) 0 k e)
      ]

  received-live :
      (live_outs : List Operand) (o : Operand)
      → HasOperand o live_outs
      → take_result (values live_outs) (received (place_of o live_outs 0) o) ≡ some (value o)
  received-live live_outs o h =
      let (k, p, g) = found_value o live_outs h in
      subst (λ q. take_result (values live_outs) (received q o) ≡ some (value o)) (sym p) g

  -- An operand that is among the live-outs, or that is no instruction of the loop.
  received-value :
      (live_outs : List Operand) (o : Operand)
      → HasOperand o live_outs ⊎ (take_result (values live_outs) (old_input o) ≡ some (value o))
      → take_result (values live_outs) (received (place_of o live_outs 0) o) ≡ some (value o)
  received-value live_outs o (inl h) = received-live live_outs o h
  received-value live_outs o (inr old) = elim (Option-cases (place_of o live_outs 0)) [
    | inl e ↦
        subst (λ q. take_result (values live_outs) (received q o) ≡ some (value o)) (sym e) old
    | inr (k, e) ↦ received-live live_outs o (place_of-some o live_outs 0 k e)
  ]

  receive-value :
      (live_outs : List Operand) (o : Operand)
      → HasOperand o live_outs ⊎ (take_result (values live_outs) (old_input o) ≡ some (value o))
      → take_result (values live_outs) (receive live_outs o) ≡ some (value o)
  unfolding receive
  receive-value [] o h = received-value [] o h
  receive-value (x ∷ y ∷ xs) o h = received-value (x ∷ y ∷ xs) o h
  receive-value (x ∷ []) o h = elim (Bool-cases (same_operand x o)) [
    | inl t ↦ rw t (ap some (ap value (same_operand-eq x o t)))
    | inr f ↦ rw f (elim h [
      | inl (inl e) ↦ absurd (
          let s = same_operand_self x in
          let f' = subst (λ y. same_operand x y ≡ false) (sym e) f in cc)
      | inl (inr n) ↦ elim n [ ]
      | inr old ↦ old
    ])
  ]

  live_out-or :
      (exits : List Operand) (o : Operand)
      → HasOperand o exits
      → HasOperand o (collect_live_outs exits [])
        ⊎ (take_result (values (collect_live_outs exits [])) (old_input o) ≡ some (value o))
  live_out-or exits (inside n) h = inl (live_outs_collect exits [] n h)
  live_out-or exits (outside n) h = inr refl
  live_out-or exits (parameter n) h = inr refl
  live_out-or exits (literal n) h = inr refl

  -- Let `operands` be the operands of the loop's instructions and `exits` the latch inputs of the PHIs
  -- of its exit. In a call of the probe with the values of its inputs each operand of a clone has the
  -- value that the operand had in the loop; and if the call returns the values of the live-outs, each
  -- exit PHI gets the value of its latch input.
  pub call-value :
      (operands exits : List Operand)
      → ((o : Operand)
          → HasOperand o operands
          → read (values (collect_inputs operands [])) (remap (collect_inputs operands []) o)
            ≡ some (value o))
        × ((o : Operand)
            → HasOperand o exits
            → take_result
                (values (collect_live_outs exits []))
                (receive (collect_live_outs exits []) o)
              ≡ some (value o))
  call-value operands exits = (
    remap-value operands,
    λ o h. receive-value (collect_live_outs exits []) o (live_out-or exits o h),
  )

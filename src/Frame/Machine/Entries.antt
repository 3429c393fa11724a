-- ===== src/Frame/Machine/Entries.antt =====
-- RtsSporkPass, the entry of an annotated alloca holds its offset in the frame.
use spork_llvm.Base.{
  ℕ, zero, suc, ◌+◌, ◌<◌, ◌≡◌, ◌⊎◌, inl, inr, true, false, ◌&&◌, List, [], ◌∷◌, Option, none, some,
  ◌==◌, length, get_elem?, refl, ap, ◌∙◌, arith, Bool-cases, ==_iff,
}
use spork_llvm.Unroll.Recognise.Follows.{some_inj}
use spork_llvm.Frame.{SlotEntry, Table, patch}
use spork_llvm.Frame.Patch.{HasWidth, entry, new_offset, last_offset, ArgsFit, patch-last_offset}
use spork_llvm.Frame.Machine.{
  IrInstr, collect_slots, frame_index, frame_offset, apply_slots, run_machine,
}

-- The frame has exactly this object for the alloca.
abbrev pub IsObject : List (Option ℕ) → (index alloca : ℕ) → Type 0
IsObject objects i x =
    (get_elem? objects i ≡ some (some x)) × ((k : ℕ) → get_elem? objects k ≡ some (some x) → k ≡ i)

frame_index-none :
    (objects : List (Option ℕ)) (index x : ℕ) (found : Option ℕ)
    → ((k : ℕ) → ¬ (get_elem? objects k ≡ some (some x)))
    → frame_index objects index x found ≡ found
unfolding frame_index
frame_index-none [] index x found no_object = refl
frame_index-none (none ∷ objects) index x found no_object =
    frame_index-none objects (suc index) x found (λ k. no_object (suc k))
frame_index-none (some y ∷ objects) index x found no_object =
    let q : (y == x) ≡ false = elim (Bool-cases (y == x)) [
      | inl t ↦ absurd (no_object 0 (ap (λ z. some (some z)) ((==_iff y x).0 t)))
      | inr f ↦ f
    ] in
    rw q (frame_index-none objects (suc index) x found (λ k. no_object (suc k)))

frame_index-IsObject :
    (objects : List (Option ℕ)) (index i x : ℕ) (found : Option ℕ)
    → IsObject objects i x
    → frame_index objects index x found ≡ some (index + i)
unfolding frame_index
frame_index-IsObject [] index i x found (e, one) = absurd cc
frame_index-IsObject (none ∷ objects) index zero x found (e, one) =
    absurd (let e' = some_inj _ _ e in cc)
frame_index-IsObject (none ∷ objects) index (suc i) x found (e, one) =
    frame_index-IsObject objects (suc index) i x found
      (e, λ k h. (let q = one (suc k) h in omega arith))
    ∙ ap some (omega arith)
frame_index-IsObject (some y ∷ objects) index zero x found (e, one) =
    let q : (y == x) ≡ true = (let p : y ≡ x = some_inj _ _ (some_inj _ _ e) in ground arith) in
    let r : index ≡ index + 0 = omega arith in
    rw q (
      frame_index-none objects (suc index) x (some index)
        (λ k h. (let p = one (suc k) h in absurd (omega arith)))
      ∙ ap some r)
frame_index-IsObject (some y ∷ objects) index (suc i) x found (e, one) =
    frame_index-IsObject objects (suc index) i x _
      (e, λ k h. (let q = one (suc k) h in omega arith))
    ∙ ap some (omega arith)

-- A slot with this site, argument and alloca is among the slots.
abbrev pub HasSlot : List SlotEntry → (site arg alloca : ℕ) → Type 0
HasSlot [] s a x = ⊥
HasSlot (se ∷ ses) s a x = ((se.site ≡ s) × (se.arg ≡ a) × (se.alloca ≡ x)) ⊎ HasSlot ses s a x

-- The slots that name this entry are of this alloca.
abbrev pub OnlyAlloca : List SlotEntry → (site arg alloca : ℕ) → Type 0
OnlyAlloca [] s a x = Unit {0}
OnlyAlloca (se ∷ ses) s a x = (se.site ≡ s → se.arg ≡ a → se.alloca ≡ x) × OnlyAlloca ses s a x

new_offset_cases :
    (offset : ℕ → Option ℕ) (se : SlotEntry) (s a x o : ℕ)
    → (se.site ≡ s → se.arg ≡ a → se.alloca ≡ x)
    → offset x ≡ some o
    → (new_offset offset se s a ≡ some o)
      ⊎ ((new_offset offset se s a ≡ none) × ¬ ((se.site ≡ s) × (se.arg ≡ a) × (se.alloca ≡ x)))
new_offset_cases offset se s a x o only e = elim (Bool-cases (se.site == s && se.arg == a)) [
  | inl c ↦ let q : se.alloca ≡ x = only (ground arith) (ground arith) in inl (rw (c, q) e)
  | inr c ↦ inr (rw c refl, λ (p, p', _). ground arith)
]

last_offset-kept :
    (offset : ℕ → Option ℕ) (ses : List SlotEntry) (s a x o : ℕ)
    → OnlyAlloca ses s a x
    → offset x ≡ some o
    → last_offset offset ses s a (some o) ≡ some o
last_offset-kept offset [] s a x o only e = refl
last_offset-kept offset (se ∷ ses) s a x o (first, only) e =
    elim (new_offset_cases offset se s a x o first e) [
      | inl q ↦ rw q (last_offset-kept offset ses s a x o only e)
      | inr (q, _) ↦ rw q (last_offset-kept offset ses s a x o only e)
    ]

last_offset-HasSlot :
    (offset : ℕ → Option ℕ) (ses : List SlotEntry) (s a x o : ℕ) (old : Option ℕ)
    → OnlyAlloca ses s a x
    → HasSlot ses s a x
    → offset x ≡ some o
    → last_offset offset ses s a old ≡ some o
last_offset-HasSlot offset [] s a x o old only has e = elim has [ ]
last_offset-HasSlot offset (se ∷ ses) s a x o old (first, only) has e =
    elim (new_offset_cases offset se s a x o first e) [
      | inl q ↦ rw q (last_offset-kept offset ses s a x o only e)
      | inr (q, not_it) ↦ rw q (elim has [
        | inl it ↦ elim (not_it it) [ ]
        | inr has' ↦ last_offset-HasSlot offset ses s a x o old only has' e
      ])
    ]

apply_slots-patch :
    (n : ℕ) (offset : ℕ → Option ℕ) (ses : List SlotEntry) (t t' : Table)
    → patch n offset t ses ≡ some t'
    → apply_slots n offset (some t) ses ≡ some (some t')
unfolding apply_slots patch
apply_slots-patch n offset [] t t' e = ap some e
apply_slots-patch n offset (se ∷ ses) t t' e = rw (e, apply_slots) refl

frame_offset-IsObject :
    (reference : ℕ → ℕ) (objects : List (Option ℕ)) (i x : ℕ)
    → IsObject objects i x
    → frame_offset reference objects x ≡ some (reference i)
unfolding frame_offset
frame_offset-IsObject reference objects i x is =
    rw (frame_index-IsObject objects 0 i x none is, frame_offset)
      (ap (λ k. some (reference k)) (omega arith))

-- Let the rows of the table have a place for each argument and the slots name arguments only. Then the
-- pass ends with a table; and where an alloca is annotated with an entry of the table, no other alloca
-- is, and the frame has one object for it, the entry then holds the offset of that object.
pub run_machine-offset :
    (n : ℕ) (reference : ℕ → ℕ) (objects : List (Option ℕ)) (code : List IrInstr) (t : Table)
    → HasWidth n t
    → ArgsFit n (collect_slots code)
    → (t' : Table) × (run_machine n reference objects code (some t) ≡ some (some t'))
      × ((s a x i : ℕ)
          → s < length t
          → HasSlot (collect_slots code) s a x
          → OnlyAlloca (collect_slots code) s a x
          → IsObject objects i x
          → entry t' s a ≡ some (reference i))
unfolding run_machine
run_machine-offset n reference objects code t w fit =
    let (t', e, _, _, holds) =
      patch-last_offset n (frame_offset reference objects) t (collect_slots code) w fit in
    (
      t',
      apply_slots-patch n (frame_offset reference objects) (collect_slots code) t t' e,
      λ s a x i h has only is.
          holds s a h
          ∙ last_offset-HasSlot (frame_offset reference objects) (collect_slots code) s a x
              (reference i) (entry t s a) only has (frame_offset-IsObject reference objects i x is),
    )

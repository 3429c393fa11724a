-- ===== src/Frame/Patch.antt =====
-- What the patched table holds.
use spork_llvm.Base.{
  ℕ, zero, suc, ◌<◌, ◌≡◌, ◌≢◌, true, false, ◌&&◌, List, [], ◌∷◌, Option, none, some, if◌then◌else◌,
  ◌==◌, ==_iff, ltb, leb, refl, sym, ap, ◌∙◌, arith, length, get_elem?, set, Bool-cases,
  Option-cases, inl, inr,
}
use spork_llvm.Frame.{SlotEntry, Table, row_or, row_of, patch_slot, patch}

-- Every row has a place for each argument.
abbrev pub HasWidth : ℕ → Table → Type 0
HasWidth n [] = Unit {0}
HasWidth n (r ∷ t) = (length r ≡ n) × HasWidth n t

abbrev pub entry : Table → ℕ → ℕ → Option ℕ
entry t s a = get_elem? (row_of t s) a

length-set : {A : Type 0} (xs : List A) (i : ℕ) (v : A) → length (set xs i v) ≡ length xs
length-set [] i v = refl
length-set (x ∷ xs) zero v = refl
length-set (x ∷ xs) (suc i) v = ap suc (length-set xs i v)

get_elem?-set_same :
    {A : Type 0} (xs : List A) (i : ℕ) (v : A) → i < length xs → get_elem? (set xs i v) i ≡ some v
get_elem?-set_same [] i v h = absurd (omega arith)
get_elem?-set_same (x ∷ xs) zero v h = refl
get_elem?-set_same (x ∷ xs) (suc i) v h = get_elem?-set_same xs i v (omega arith)

get_elem?-set_other :
    {A : Type 0} (xs : List A) (i j : ℕ) (v : A) → i ≢ j → get_elem? (set xs i v) j ≡ get_elem? xs j
get_elem?-set_other [] i j v h = refl
get_elem?-set_other (x ∷ xs) zero zero v h = absurd (h refl)
get_elem?-set_other (x ∷ xs) zero (suc j) v h = refl
get_elem?-set_other (x ∷ xs) (suc i) zero v h = refl
get_elem?-set_other (x ∷ xs) (suc i) (suc j) v h = get_elem?-set_other xs i j v (λ q. h (ap suc q))

row-HasWidth : (n : ℕ) (t : Table) (s : ℕ) → HasWidth n t → s < length t → length (row_of t s) ≡ n
row-HasWidth n [] s w h = absurd (omega arith)
row-HasWidth n (r ∷ t) zero w h = w.0
row-HasWidth n (r ∷ t) (suc s) w h = row-HasWidth n t s w.1 (omega arith)

set-HasWidth :
    (n : ℕ) (t : Table) (s : ℕ) (r : List ℕ) → HasWidth n t → length r ≡ n → HasWidth n (set t s r)
set-HasWidth n [] s r w e = w
set-HasWidth n (x ∷ t) zero r w e = (e, w.1)
set-HasWidth n (x ∷ t) (suc s) r w e = (w.0, set-HasWidth n t s r w.1 e)

-- The slot names this entry, and the frame has its alloca.
abbrev pub new_offset : (ℕ → Option ℕ) → SlotEntry → ℕ → ℕ → Option ℕ
new_offset offset se s a = if se.site == s && se.arg == a then offset se.alloca else none

abbrev pub update : Option ℕ → Option ℕ → Option ℕ
update none old = old
update (some o) old = some o

-- The offset of the last of the slots that names the entry and that the frame has, else the old one.
abbrev pub last_offset : (ℕ → Option ℕ) → List SlotEntry → ℕ → ℕ → Option ℕ → Option ℕ
last_offset offset [] s a old = old
last_offset offset (se ∷ ses) s a old =
    last_offset offset ses s a (update (new_offset offset se s a) old)

abbrev pub ArgsFit : ℕ → List SlotEntry → Type 0
ArgsFit n [] = Unit {0}
ArgsFit n (se ∷ ses) = (se.arg < n) × ArgsFit n ses

abbrev Patched : ℕ → (ℕ → Option ℕ) → Table → SlotEntry → Type 0
Patched n offset t se =
    (t' : Table) × (patch_slot n offset t se ≡ some t')
    × HasWidth n t'
    × (length t' ≡ length t)
    × ((s a : ℕ) → s < length t → entry t' s a ≡ update (new_offset offset se s a) (entry t s a))

row_of-set_same : (t : Table) (s : ℕ) (r : List ℕ) → s < length t → row_of (set t s r) s ≡ r
row_of-set_same t s r h = ap row_or (get_elem?-set_same t s r h)

row_of-set_other : (t : Table) (i s : ℕ) (r : List ℕ) → i ≢ s → row_of (set t i r) s ≡ row_of t s
row_of-set_other t i s r h = ap row_or (get_elem?-set_other t i s r h)

entry-set :
    (n : ℕ) (t : Table) (site arg o s a : ℕ)
    → HasWidth n t
    → site < length t
    → arg < n
    → entry (set t site (set (row_of t site) arg o)) s a
      ≡ (if site == s && arg == a then some o else entry t s a)
entry-set n t site arg o s a w h ha = elim (Bool-cases (site == s)) [
  | inl e ↦
      let q : site ≡ s = (==_iff site s).0 e in
      let row : row_of (set t site (set (row_of t site) arg o)) s ≡ set (row_of t site) arg o =
        ap (row_of (set t site (set (row_of t site) arg o))) (sym q)
        ∙ row_of-set_same t site (set (row_of t site) arg o) h in
      elim (Bool-cases (arg == a)) [
        | inl f ↦
            let p : arg ≡ a = (==_iff arg a).0 f in
            let fits : arg < length (row_of t site) = omega (arith, row-HasWidth n t site w h) in
            rw (e, f)
              (ap (λ r. get_elem? r a) row
                ∙ ap (get_elem? (set (row_of t site) arg o)) (sym p)
                ∙ get_elem?-set_same (row_of t site) arg o fits)
        | inr f ↦
            let p : arg ≢ a = λ z. ground arith in
            rw (e, f)
              (ap (λ r. get_elem? r a) row
                ∙ get_elem?-set_other (row_of t site) arg a o p
                ∙ ap (λ k. entry t k a) q)
      ]
  | inr e ↦
      let q : site ≢ s = λ z. ground arith in
      rw e (ap (λ r. get_elem? r a) (row_of-set_other t site s (set (row_of t site) arg o) q))
]

patch_slot-Patched :
    (n : ℕ) (offset : ℕ → Option ℕ) (t : Table) (se : SlotEntry)
    → HasWidth n t
    → se.arg < n
    → Patched n offset t se
unfolding patch_slot
patch_slot-Patched n offset t se w ha = elim (Bool-cases (leb (length t) se.site)) [
  | inl b ↦
      (t, rw b refl, w, refl, λ s a h. let no : (se.site == s) ≡ false = ground arith in rw no refl)
  | inr b ↦ elim (Option-cases (offset se.alloca)) [
    | inl q ↦ (t, rw (b, q) refl, w, refl, λ s a h. keep s a q)
    | inr (o, q) ↦
        let fits : ltb se.arg n ≡ true = ground arith in
        let here : se.site < length t = ground arith in
        (
          set t se.site (set (row_of t se.site) se.arg o),
          rw (b, q, fits) refl,
          set-HasWidth n t se.site _ w
              (length-set (row_of t se.site) se.arg o ∙ row-HasWidth n t se.site w here),
          length-set t se.site _,
          λ s a h. entry-set n t se.site se.arg o s a w here ha ∙ write s a o q,
        )
  ]
]
  where
    keep :
        (s a : ℕ)
        → offset se.alloca ≡ none
        → entry t s a ≡ update (new_offset offset se s a) (entry t s a)
    keep s a q = elim (Bool-cases (se.site == s && se.arg == a)) [
      | inl c ↦ rw (c, q) refl
      | inr c ↦ rw c refl
    ]

    write :
        (s a o : ℕ)
        → offset se.alloca ≡ some o
        → (if se.site == s && se.arg == a then some o else entry t s a)
          ≡ update (new_offset offset se s a) (entry t s a)
    write s a o q = elim (Bool-cases (se.site == s && se.arg == a)) [
      | inl c ↦ rw (c, q) refl
      | inr c ↦ rw c refl
    ]

-- Patching a table whose rows have a place for each argument, by slots that name arguments only, never
-- writes out of bounds. It keeps the number and the size of the rows, and each entry of the table
-- holds the offset of the last slot that names it and has a place in the frame; without such a
-- slot it holds what it did.
pub patch-last_offset :
    (n : ℕ) (offset : ℕ → Option ℕ) (t : Table) (ses : List SlotEntry)
    → HasWidth n t
    → ArgsFit n ses
    → (t' : Table) × (patch n offset t ses ≡ some t')
      × HasWidth n t'
      × (length t' ≡ length t)
      × ((s a : ℕ) → s < length t → entry t' s a ≡ last_offset offset ses s a (entry t s a))
unfolding patch
patch-last_offset n offset t [] w f = (t, refl, w, refl, λ s a h. refl)
patch-last_offset n offset t (se ∷ ses) w f =
    let (t₁, e, w₁, len, holds) = patch_slot-Patched n offset t se w f.0 in
    let (t₂, e₂, w₂, len₂, holds₂) = patch-last_offset n offset t₁ ses w₁ f.1 in
    (
      t₂,
      rw (e, patch) e₂,
      w₂,
      len₂ ∙ len,
      λ s a h. holds₂ s a (omega (arith, len)) ∙ ap (last_offset offset ses s a) (holds s a h),
    )

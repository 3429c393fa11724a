-- ===== src/Unroll/Transplant/Snapshot/Rounds.antt =====
-- fablepass, one round of the work list of the snapshot: what becomes of the set and the list.
use spork_llvm.Base.{
  ℕ, ◌+◌, ◌<◌, ◌≤◌, ◌≡◌, ◌⊎◌, inl, inr, true, false, List, [], ◌∷◌, length, ◌==◌, refl, sym, subst,
  arith, Bool-cases,
}
use spork_llvm.Unroll.Marked.{is_in}
use spork_llvm.Unroll.Marked.Fuel.{unvisited, unvisited_visit, Below}
use spork_llvm.Unroll.Transplant.Snapshot.{Tainting, taint_user, taint_users}

abbrev pub In : ℕ → List ℕ → Type 0
In x xs = is_in x xs ≡ true

-- From one set and list to the next, where the users `us` have been noted.
pub record Noted (n : ℕ) (us : List ℕ) (t t' : Tainting) : Type 0 where
  pub grows : (x : ℕ) → In x t.snapshot → In x t'.snapshot
  pub keeps : (x : ℕ) → In x t.pending → In x t'.pending
  pub all_in : (x : ℕ) → In x us → In x t'.snapshot
  pub fresh : (x : ℕ) → In x t'.snapshot → In x t.snapshot ⊎ (In x us × In x t'.pending)
  pub awaited : (x : ℕ) → In x t'.pending → In x t.pending ⊎ In x us
  pub measure :
      unvisited n t'.snapshot + length t'.pending ≤ unvisited n t.snapshot + length t.pending

Noted-nothing : (n : ℕ) (t : Tainting) → Noted n [] t t
Noted-nothing n t = record {
  grows = λ x h. h;
  keeps = λ x h. h;
  all_in = λ x h. absurd cc;
  fresh = λ x h. inl h;
  awaited = λ x h. inl h;
  measure = omega arith;
}

pub noted_first : (u x : ℕ) (us : List ℕ) → In x (u ∷ us) → (x ≡ u) ⊎ In x us
noted_first u x us h = elim (Bool-cases (x == u)) [
  | inl q ↦ inl (ground arith)
  | inr q ↦ inr (rw q at h)
]

pub noted_rest : (u x : ℕ) (us : List ℕ) → In x us → In x (u ∷ us)
noted_rest u x us h = elim (Bool-cases (x == u)) [ inl q ↦ rw q refl | inr q ↦ rw q h ]

pub noted_self : (u : ℕ) (us : List ℕ) → In u (u ∷ us)
noted_self u us = let q : (u == u) ≡ true = ground arith in rw q refl

pub only_one : (u x : ℕ) → In x (u ∷ []) → x ≡ u
only_one u x h = elim (noted_first u x [] h) [ inl q ↦ q | inr q ↦ absurd cc ]

one_of : (u x : ℕ) (us : List ℕ) → In x (u ∷ []) → In x (u ∷ us)
one_of u x us h = subst (λ y. In y (u ∷ us)) (sym (only_one u x h)) (noted_self u us)

known : (n u : ℕ) (t : Tainting) → In u t.snapshot → Noted n (u ∷ []) t t
known n u t q = record {
  grows = λ x h. h;
  keeps = λ x h. h;
  all_in = λ x h. subst (λ y. In y t.snapshot) (sym (only_one u x h)) q;
  fresh = λ x h. inl h;
  awaited = λ x h. inl h;
  measure = omega arith;
}

added :
    (n u : ℕ) (t : Tainting)
    → u < n
    → is_in u t.snapshot ≡ false
    → Noted n (u ∷ []) t (record { snapshot = u ∷ t.snapshot; pending = u ∷ t.pending })
added n u t lt q = record {
  grows = λ x h. noted_rest u x t.snapshot h;
  keeps = λ x h. noted_rest u x t.pending h;
  all_in =
      λ x h. subst (λ y. In y (u ∷ t.snapshot)) (sym (only_one u x h)) (noted_self u t.snapshot);
  fresh = λ x h. elim (noted_first u x t.snapshot h) [
    | inl e ↦ inr (
        subst (λ y. In y (u ∷ []) × In y (u ∷ t.pending)) (sym e)
          (noted_self u [], noted_self u t.pending))
    | inr h' ↦ inl h'
  ];
  awaited = λ x h. elim (noted_first u x t.pending h) [
    | inl e ↦ inr (subst (λ y. In y (u ∷ [])) (sym e) (noted_self u []))
    | inr h' ↦ inl h'
  ];
  measure = let m = unvisited_visit n u t.snapshot lt q in omega (arith, m);
}

taint_user-Noted : (n u : ℕ) (t : Tainting) → u < n → Noted n (u ∷ []) t (taint_user u t)
taint_user-Noted n u t lt = elim (Bool-cases (is_in u t.snapshot)) [
  | inl q ↦ rw q (known n u t q)
  | inr q ↦ rw q (added n u t lt q)
]

Noted-both :
    {n u : ℕ} {us : List ℕ} {t t₁ t₂ : Tainting}
    → Noted n (u ∷ []) t t₁
    → Noted n us t₁ t₂
    → Noted n (u ∷ us) t t₂
Noted-both {u = u} {us = us} a b = record {
  grows = λ x h. b.grows x (a.grows x h);
  keeps = λ x h. b.keeps x (a.keeps x h);
  all_in = λ x h. elim (noted_first u x us h) [
    | inl e ↦ b.grows x (a.all_in x (subst (λ y. In y (u ∷ [])) (sym e) (noted_self u [])))
    | inr h' ↦ b.all_in x h'
  ];
  fresh = λ x h. elim (b.fresh x h) [
    | inl h' ↦ (elim (a.fresh x h') [
      | inl h'' ↦ inl h''
      | inr (o, w) ↦ inr (one_of u x us o, b.keeps x w)
    ])
    | inr (o, w) ↦ inr (noted_rest u x us o, w)
  ];
  awaited = λ x h. elim (b.awaited x h) [
    | inl h' ↦ (elim (a.awaited x h') [ inl h'' ↦ inl h'' | inr o ↦ inr (one_of u x us o) ])
    | inr o ↦ inr (noted_rest u x us o)
  ];
  measure = omega (arith, a.measure, b.measure);
}

pub taint_users-Noted :
    (n : ℕ) (us : List ℕ) (t : Tainting) → Below n us → Noted n us t (taint_users us t)
unfolding taint_users
taint_users-Noted n [] t below = Noted-nothing n t
taint_users-Noted n (u ∷ us) t (lt, below) =
    Noted-both (taint_user-Noted n u t lt) (taint_users-Noted n us (taint_user u t) below)

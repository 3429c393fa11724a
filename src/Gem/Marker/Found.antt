-- ===== src/Gem/Marker/Found.antt =====
-- gempass, `findMarkedLoop`: the loop that it returns, and no other.
use spork_llvm.Base.{
  ℕ, ◌≡◌, ◌≢◌, true, List, [], ◌∷◌, Option, none, some, ◌==◌, refl, sym, ap, ◌∙◌, arith, Bool-cases,
  Option-cases, inl, inr, ◌⊎◌, ==_iff, subst,
}
use spork_llvm.Unroll.Recognise.{same}
use spork_llvm.Unroll.Recognise.Accepted.{bind-some}
use spork_llvm.Unroll.Recognise.Follows.{some_inj}
use spork_llvm.Gem.Marker.{
  Bridges, enters, found_also, consider, is_header, cross, consider_all, find_marked_loop, Enters,
  Denotes, NoOther,
}

consider-cases :
    (b : Bridges) (p h : ℕ) (f g : Option ℕ)
    → consider b p h f ≡ some g
    → ((g ≡ f) × ((l : ℕ) → Enters b p h l → f ≡ some l))
      ⊎ ((l : ℕ) × (g ≡ some l) × (f ≡ none) × Enters b p h l)
unfolding consider
consider-cases b p h f g e = elim (Option-cases (b.blocks.loop_for h)) [
  | inl q ↦
      let e' = rw (q, consider) at e in
      inl (sym (some_inj f g e'), λ l w. let z = sym q ∙ w.0 in absurd cc)
  | inr (l, q) ↦
      let e' = rw (q, consider) at e in
      elim (Bool-cases (enters b p h l)) [
        | inl n ↦ let e'' : found_also f l ≡ some g = rw n at e' in found f l q n e''
        | inr n ↦
            let e'' = rw n at e' in
            inl (
              sym (some_inj f g e''),
              λ k w.
                  let z : l ≡ k = some_inj l k (sym q ∙ w.0) in
                  let y = ap (λ x. enters b p h x) z ∙ w.1 in absurd cc,
            )
      ]
]
  where
    found :
        (f : Option ℕ) (l : ℕ)
        → b.blocks.loop_for h ≡ some l
        → enters b p h l ≡ true
        → found_also f l ≡ some g
        → ((g ≡ f) × ((k : ℕ) → Enters b p h k → f ≡ some k))
          ⊎ ((k : ℕ) × (g ≡ some k) × (f ≡ none) × Enters b p h k)
    found none l q n e = inr (l, sym (some_inj (some l) g e), refl, (q, n))
    found (some k) l q n e = elim (Bool-cases (k == l)) [
      | inl y ↦
          let e' = rw y at e in
          let z : k ≡ l = ground arith in
          inl (
            sym (some_inj (some l) g e') ∙ ap some (sym z),
            λ u w. ap some (z ∙ some_inj l u (sym q ∙ w.0)),
          )
      | inr y ↦ let e' = rw y at e in absurd cc
    ]

is_header-some :
    (b : Bridges) (f : Option ℕ) (s : ℕ)
    → is_header b f s ≡ true
    → (k : ℕ) × (f ≡ some k) × (b.blocks.header k ≡ s)
is_header-some b none s e = absurd cc
is_header-some b (some k) s e = (k, refl, (==_iff (b.blocks.header k) s).0 e)

cross-cases :
    (b : Bridges) (s : ℕ) (f g : Option ℕ)
    → cross b s f ≡ some g
    → ((g ≡ f)
        × ((t l : ℕ)
            → ((k : ℕ) → f ≡ some k → b.blocks.header k ≢ s)
            → b.bridge s ≡ some t
            → Enters b s t l
            → f ≡ some l))
      ⊎ ((l : ℕ) × (t : ℕ) × (g ≡ some l) × (f ≡ none) × (b.bridge s ≡ some t) × Enters b s t l)
unfolding cross
cross-cases b s f g e = elim (Bool-cases (is_header b f s)) [
  | inl q ↦
      let e' = rw q at e in
      let (k, fk, hk) = is_header-some b f s q in
      inl (sym (some_inj f g e'), λ t l no p w. absurd (no k fk hk))
  | inr q ↦
      let e' = rw q at e in
      elim (Option-cases (b.bridge s)) [
        | inl n ↦
            let e'' = rw n at e' in
            inl (sym (some_inj f g e''), λ t l no p w. let z = sym n ∙ p in absurd cc)
        | inr (t, n) ↦
            let e'' = rw n at e' in
            elim (consider-cases b s t f g e'') [
              | inl (same, all) ↦ inl (
                same,
                λ u l no p w.
                    let z : t ≡ u = some_inj t u (sym n ∙ p) in
                    all l (subst (λ x. Enters b s x l) (sym z) w),
              )
              | inr (l, gl, fn, w) ↦ inr (l, t, gl, fn, n, w)
            ]
      ]
]

-- What a walk over the successors finds, from `f` on.
abbrev Considered : Bridges → ℕ → List ℕ → (f g : Option ℕ) → Type 0
Considered b marker ss f g =
    (l : ℕ)
    → ((f ≡ some l → g ≡ some l)
        × (g ≡ some l → ((f ≡ some l) ⊎ Denotes b marker l ss) × NoOther b marker l ss))

consider-facts :
    (b : Bridges) (p h : ℕ) (f g : Option ℕ)
    → consider b p h f ≡ some g
    → (l : ℕ)
    → (f ≡ some l → g ≡ some l)
      × (g ≡ some l → (f ≡ some l) ⊎ Enters b p h l)
      × (Enters b p h l → g ≡ some l)
consider-facts b p h f g e l = elim (consider-cases b p h f g e) [
  | inl (same, all) ↦ (λ q. same ∙ q, λ q. inl (sym same ∙ q), λ w. same ∙ all l w)
  | inr (u, gu, fn, w) ↦ (
    λ q. let z = sym fn ∙ q in absurd cc,
    λ q. inr (subst (λ x. Enters b p h x) (some_inj u l (sym gu ∙ q)) w),
    λ v. gu ∙ ap some (some_inj u l (sym w.0 ∙ v.0)),
  )
]

cross-facts :
    (b : Bridges) (s : ℕ) (f g : Option ℕ)
    → cross b s f ≡ some g
    → (l : ℕ)
    → (f ≡ some l → g ≡ some l)
      × (g ≡ some l → (f ≡ some l) ⊎ ((t : ℕ) × (b.bridge s ≡ some t) × Enters b s t l))
      × ((t : ℕ)
          → ((k : ℕ) → f ≡ some k → b.blocks.header k ≢ s)
          → b.bridge s ≡ some t
          → Enters b s t l
          → g ≡ some l)
cross-facts b s f g e l = elim (cross-cases b s f g e) [
  | inl (same, all) ↦ (λ q. same ∙ q, λ q. inl (sym same ∙ q), λ t no p w. same ∙ all t l no p w)
  | inr (u, t, gu, fn, br, w) ↦ (
    λ q. let z = sym fn ∙ q in absurd cc,
    λ q. inr (t, br, subst (λ x. Enters b s t x) (some_inj u l (sym gu ∙ q)) w),
    λ r no p v.
        gu
        ∙ ap some (some_inj u l (sym w.0 ∙ ap b.blocks.loop_for (some_inj t r (sym br ∙ p)) ∙ v.0)),
  )
]

one_successor :
    (b : Bridges) (marker s : ℕ) (ss : List ℕ) (f g h k : Option ℕ)
    → consider b marker s f ≡ some g
    → cross b s g ≡ some h
    → Considered b marker ss h k
    → Considered b marker (s ∷ ss) f k
one_successor b marker s ss f g h k c x rest l =
    let (keep, back, same) = consider-facts b marker s f g c l in
    let (keep', back', same') = cross-facts b s g h x l in
    let (on, facts) = rest l in
    (
      λ q. on (keep' (keep q)),
      λ q. (
        elim (facts q).0 [
          | inl a ↦ elim (back' a) [
            | inl d ↦ elim (back d) [ inl m ↦ inl m | inr w ↦ inr (inl (inl w)) ]
            | inr w ↦ inr (inl (inr w))
          ]
          | inr d ↦ inr (inr d)
        ],
        (
          λ u w. one q u ((cross-facts b s g h x u).0 ((consider-facts b marker s f g c u).2 w)),
          λ t u no p w. one q u (
              (cross-facts b s g h x u).2 t
                (λ v gv hv.
                  no (ap b.blocks.header (sym (one q v ((cross-facts b s g h x v).0 gv))) ∙ hv))
                p w),
          (facts q).1,
        ),
      ),
    )
  where
    one : k ≡ some l → (u : ℕ) → h ≡ some u → u ≡ l
    one q u hu = some_inj u l (sym ((rest u).0 hu) ∙ q)

consider_all-Considered :
    (b : Bridges) (marker : ℕ) (ss : List ℕ) (f g : Option ℕ)
    → consider_all b marker ss f ≡ some g
    → Considered b marker ss f g
unfolding consider_all
consider_all-Considered b marker [] f g e l =
    let q = some_inj f g e in (λ p. sym q ∙ p, λ p. (inl (q ∙ p), tt))
consider_all-Considered b marker (s ∷ ss) f k e l =
    let (g, c, e₁) = bind-some (consider b marker s f) _ k e in
    let (h, x, e₂) = bind-some (cross b s g) _ k e₁ in
    one_successor b marker s ss f g h k c x (consider_all-Considered b marker ss h k e₂) l

-- A loop that `findMarkedLoop` returns is entered from the marker's block or over one bridge behind it,
-- by its header and from its preheader; and no other loop is, unless the bridge is the header of the
-- loop that is returned.
pub find_marked_loop-Denotes :
    (b : Bridges) (marker l : ℕ)
    → find_marked_loop b marker ≡ some l
    → Denotes b marker l (b.blocks.successors marker)
      × NoOther b marker l (b.blocks.successors marker)
unfolding find_marked_loop
find_marked_loop-Denotes b marker l e =
    elim (Option-cases (consider_all b marker (b.blocks.successors marker) none)) [
      | inl q ↦ let e' = rw (q, find_marked_loop) at e in absurd cc
      | inr (g, q) ↦
          let e' = rw (q, find_marked_loop) at e in
          let r = (consider_all-Considered b marker (b.blocks.successors marker) none g q l).1 e' in
          (elim r.0 [ inl n ↦ absurd (cc) | inr d ↦ d ], r.1)
    ]

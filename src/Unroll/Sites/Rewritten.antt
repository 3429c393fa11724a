-- ===== src/Unroll/Sites/Rewritten.antt =====
-- The loops of a site that fablepass rewrites are those under its markers, in the order of the markers.
use spork_llvm.Base.{
  ℕ, ◌≡◌, ◌||◌, List, [], ◌∷◌, ◌++◌, true, false, Option, none, some, if◌then◌else◌, ◌==◌, refl,
  sym, ap, ◌∙◌, arith, Bool-cases, Option-cases, inl, inr, append_assoc, append-nil,
}
use spork_llvm.Unroll.Sites.{
  Plan, Marker, Progress, differs, bad_batch, plan_loops, plan_marker, plan_markers, Sites,
  add_marker, sites_of, lookup_site,
}

-- The loops that `matchLoopProtocol` accepts.
abbrev accepted : List (Option Plan) → List Plan
accepted [] = []
accepted (none ∷ ls) = accepted ls
accepted (some p ∷ ls) = p ∷ accepted ls

abbrev found_plans : Option (List (Option Plan)) → List Plan
found_plans none = []
found_plans (some ls) = accepted ls

abbrev pub group_plans : List Marker → List Plan
group_plans [] = []
group_plans (m ∷ ms) = found_plans m.loops ++ group_plans ms

-- The accepted loops under all markers with the token.
abbrev pub site_plans : ℕ → List (Option ℕ × Marker) → List Plan
site_plans token [] = []
site_plans token ((none, m) ∷ ms) = site_plans token ms
site_plans token ((some t, m) ∷ ms) =
    let rest = site_plans token ms in if token == t then found_plans m.loops ++ rest else rest

loops-plans :
    (ls : List (Option Plan)) (ptr : Option ℕ) (done d : Progress)
    → plan_loops ptr done ls ≡ some d
    → d.plans ≡ done.plans ++ accepted ls
unfolding plan_loops
loops-plans [] ptr done d e =
    let q : done ≡ d = cc in ap (λ x. x.plans) (sym q) ∙ sym (append-nil done.plans)
loops-plans (none ∷ ls) ptr done d e = absurd cc
loops-plans (some p ∷ ls) ptr done d e =
    elim (Bool-cases (differs ptr p.progress_ptr || bad_batch done.batch p.batch)) [
      | inl b ↦ let e' = rw b at e in absurd cc
      | inr b ↦
          let e' = rw b at e in
          loops-plans ls (some p.progress_ptr) _ d e'
          ∙ append_assoc done.plans (p ∷ []) (accepted ls)
    ]

marker-plans :
    (m : Marker) (done d : Progress)
    → plan_marker done m ≡ some d
    → d.plans ≡ done.plans ++ found_plans m.loops
unfolding plan_marker
marker-plans m done d e = elim (Bool-cases m.opt_none) [
  | inl o ↦ let e' = rw o at e in absurd cc
  | inr o ↦ elim (Option-cases m.loops) [
    | inl q ↦ let e' = rw (o, q) at e in absurd cc
    | inr (ls, q) ↦ let e' = rw (o, q) at e in rw q (loops-plans ls none done d e')
  ]
]

pub markers-plans :
    (ms : List Marker) (done d : Progress)
    → plan_markers done ms ≡ some d
    → d.plans ≡ done.plans ++ group_plans ms
unfolding plan_markers
markers-plans [] done d e =
    let q : done ≡ d = cc in ap (λ x. x.plans) (sym q) ∙ sym (append-nil done.plans)
markers-plans (m ∷ ms) done d e = elim (Option-cases (plan_marker done m)) [
  | inl q ↦ let e' = rw (q, plan_markers) at e in absurd cc
  | inr (d₁, q) ↦
      let e' = rw (q, plan_markers) at e in
      markers-plans ms d₁ d e'
      ∙ ap (λ ps. ps ++ group_plans ms) (marker-plans m done d₁ q)
      ∙ append_assoc done.plans (found_plans m.loops) (group_plans ms)
]

group_plans-append :
    (ms ns : List Marker) → group_plans (ms ++ ns) ≡ group_plans ms ++ group_plans ns
group_plans-append [] ns = refl
group_plans-append (m ∷ ms) ns =
    ap (λ ps. found_plans m.loops ++ ps) (group_plans-append ms ns)
    ∙ sym (append_assoc (found_plans m.loops) (group_plans ms) (group_plans ns))

-- What one more marker adds to the plans of a token.
abbrev added : ℕ → ℕ → Marker → List Plan
added token t m = if token == t then found_plans m.loops else []

add_marker-plans :
    (token t : ℕ) (m : Marker) (sites : Sites)
    → group_plans (lookup_site token (add_marker t m sites))
      ≡ group_plans (lookup_site token sites) ++ added token t m
unfolding add_marker
add_marker-plans token t m [] = elim (Bool-cases (token == t)) [
  | inl e ↦ rw e (append-nil (found_plans m.loops))
  | inr e ↦ rw e refl
]
add_marker-plans token t m ((u, ms) ∷ sites) = elim (Bool-cases (t == u)) [
  | inl tu ↦ elim (Bool-cases (token == u)) [
    | inl e ↦
        let e' : (token == t) ≡ true = ground arith in
        rw (tu, e, e')
          (group_plans-append ms (m ∷ [])
            ∙ ap (λ ps. group_plans ms ++ ps) (append-nil (found_plans m.loops)))
    | inr e ↦
        let e' : (token == t) ≡ false = ground arith in
        rw (tu, e, e') (sym (append-nil (group_plans (lookup_site token sites))))
  ]
  | inr tu ↦ elim (Bool-cases (token == u)) [
    | inl e ↦
        let e' : (token == t) ≡ false = ground arith in
        rw (tu, e, e') (sym (append-nil (group_plans ms)))
    | inr e ↦ rw (tu, e) (add_marker-plans token t m sites)
  ]
]

pub sites_of-plans :
    (token : ℕ) (ms : List (Option ℕ × Marker)) (sites : Sites)
    → group_plans (lookup_site token (sites_of sites ms))
      ≡ group_plans (lookup_site token sites) ++ site_plans token ms
unfolding sites_of
sites_of-plans token [] sites = sym (append-nil (group_plans (lookup_site token sites)))
sites_of-plans token ((none, m) ∷ ms) sites = sites_of-plans token ms sites
sites_of-plans token ((some t, m) ∷ ms) sites =
    sites_of-plans token ms (add_marker t m sites)
    ∙ ap (λ ps. ps ++ site_plans token ms) (add_marker-plans token t m sites)
    ∙ append_assoc (group_plans (lookup_site token sites)) (added token t m) (site_plans token ms)
    ∙ ap (λ ps. group_plans (lookup_site token sites) ++ ps) (added_first token t m)
  where
    added_first :
        (token t : ℕ) (m : Marker)
        → added token t m ++ site_plans token ms ≡ site_plans token ((some t, m) ∷ ms)
    added_first token t m = elim (Bool-cases (token == t)) [ inl e ↦ rw e refl | inr e ↦ rw e refl ]

-- ===== src/Unroll/Sites/Factors.antt =====
-- The factor of a site is the batch of each of its loops, which are all rewritten, or it is 1.
use spork_llvm.Base.{
  ℕ, ◌≤◌, ◌≡◌, false, ◌||◌, List, [], ◌∷◌, ◌++◌, Option, none, some, if◌then◌else◌, ◌==◌, refl, sym,
  ap, ◌∙◌, arith, Bool-cases, Option-cases, inl, inr, ◌⊎◌,
}
use spork_llvm.Unroll.Sites.Rewritten.{group_plans, site_plans, markers-plans, sites_of-plans}
use spork_llvm.Unroll.Sites.{
  Plan, Marker, Progress, differs, bad_batch, plan_loops, plan_marker, plan_markers, no_plans,
  Sites, add_marker, sites_of, site_result, lookup_factor, site_factors, factor_of, lookup_site,
  rewritten,
}

-- No loop is planned yet, or all by one batch of two or more.
abbrev Sound : ℕ → Type 0
Sound b = (b ≡ 0) ⊎ (2 ≤ b)

-- Every loop has been accepted, with the batch `b`.
abbrev pub BatchedBy : ℕ → List (Option Plan) → Type 0
BatchedBy b [] = Unit {0}
BatchedBy b (none ∷ ls) = ⊥
BatchedBy b (some p ∷ ls) = (p.batch ≡ b) × (2 ≤ b) × BatchedBy b ls

loops-BatchedBy :
    (ls : List (Option Plan)) (ptr : Option ℕ) (done d : Progress)
    → Sound done.batch
    → plan_loops ptr done ls ≡ some d
    → BatchedBy d.batch ls × Sound d.batch × (2 ≤ done.batch → d.batch ≡ done.batch)
unfolding plan_loops
loops-BatchedBy [] ptr done d s e = let q : done ≡ d = cc in rw (sym q) (tt, s, λ _. refl)
loops-BatchedBy (none ∷ ls) ptr done d s e = absurd cc
loops-BatchedBy (some p ∷ ls) ptr done d s e =
    elim (Bool-cases (differs ptr p.progress_ptr || bad_batch done.batch p.batch)) [
      | inl b ↦ let e' = rw b at e in absurd cc
      | inr b ↦
          let e' = rw b at e in
          let two : 2 ≤ p.batch = ground arith in
          let ih = loops-BatchedBy ls (some p.progress_ptr) _ d (inr two) e' in
          ((sym (ih.2 two), rw (ih.2 two) two, ih.0), ih.1, λ h. ih.2 two ∙ ground arith)
    ]

-- A later batch is the same, if there is one.
BatchedBy-later :
    (ls : List (Option Plan)) (b b' : ℕ) → (2 ≤ b → b' ≡ b) → BatchedBy b ls → BatchedBy b' ls
BatchedBy-later [] b b' h a = tt
BatchedBy-later (none ∷ ls) b b' h a = a
BatchedBy-later (some p ∷ ls) b b' h a =
    (a.0 ∙ sym (h a.1), rw (h a.1) a.1, BatchedBy-later ls b b' h a.2)

-- Every loop of the marker has been found, accepted and planned with the batch `b`.
abbrev pub MarkerBatched : ℕ → Marker → Type 0
MarkerBatched b m =
    (m.opt_none ≡ false) × ((ls : List (Option Plan)) × (m.loops ≡ some ls) × BatchedBy b ls)

marker-MarkerBatched :
    (m : Marker) (done d : Progress)
    → Sound done.batch
    → plan_marker done m ≡ some d
    → MarkerBatched d.batch m × Sound d.batch × (2 ≤ done.batch → d.batch ≡ done.batch)
unfolding plan_marker
marker-MarkerBatched m done d s e = elim (Bool-cases m.opt_none) [
  | inl o ↦ let e' = rw o at e in absurd cc
  | inr o ↦ elim (Option-cases m.loops) [
    | inl q ↦ let e' = rw (o, q) at e in absurd cc
    | inr (ls, q) ↦
        let e' = rw (o, q) at e in
        let r = loops-BatchedBy ls none done d s e' in ((o, (ls, q, r.0)), r.1, r.2)
  ]
]

abbrev pub AllBatched : ℕ → List Marker → Type 0
AllBatched b [] = Unit {0}
AllBatched b (m ∷ ms) = MarkerBatched b m × AllBatched b ms

markers-AllBatched :
    (ms : List Marker) (done d : Progress)
    → Sound done.batch
    → plan_markers done ms ≡ some d
    → AllBatched d.batch ms × (2 ≤ done.batch → d.batch ≡ done.batch)
unfolding plan_markers
markers-AllBatched [] done d s e = let q : done ≡ d = cc in (tt, λ _. ap (λ x. x.batch) (sym q))
markers-AllBatched (m ∷ ms) done d s e = elim (Option-cases (plan_marker done m)) [
  | inl q ↦ let e' = rw (q, plan_markers) at e in absurd cc
  | inr (d₁, q) ↦
      let e' = rw (q, plan_markers) at e in
      let r = marker-MarkerBatched m done d₁ s q in
      let ih = markers-AllBatched ms d₁ d r.1 e' in
      let (o, found) = r.0 in
      let (ls, lq, by) = found in
      (
        ((o, (ls, lq, BatchedBy-later ls d₁.batch d.batch ih.1 by)), ih.0),
        λ h. ih.1 (let z = r.2 h in rw z h) ∙ r.2 h,
      )
]

lookup_factor-site :
    (token : ℕ) (sites : Sites)
    → lookup_factor token (site_factors sites) ≡ (site_result (lookup_site token sites)).batch
unfolding lookup_factor site_result plan_markers
lookup_factor-site token [] = refl
lookup_factor-site token ((t, ms) ∷ sites) = elim (Bool-cases (token == t)) [
  | inl e ↦ rw e refl
  | inr e ↦ rw e (lookup_factor-site token sites)
]

AllBatched-append :
    (b : ℕ) (ms : List Marker) (m : Marker)
    → AllBatched b (ms ++ (m ∷ []))
    → MarkerBatched b m × AllBatched b ms
AllBatched-append b [] m a = (a.0, tt)
AllBatched-append b (n ∷ ms) m a = let r = AllBatched-append b ms m a.1 in (r.0, (a.0, r.1))

AllBatched-add :
    (b token t : ℕ) (m : Marker) (sites : Sites)
    → AllBatched b (lookup_site token (add_marker t m sites))
    → (t ≡ token → MarkerBatched b m) × AllBatched b (lookup_site token sites)
unfolding add_marker
AllBatched-add b token t m [] a = elim (Bool-cases (token == t)) [
  | inl e ↦ let a' = rw e at a in (λ _. a'.0, tt)
  | inr e ↦ (λ q. absurd (ground (arith, q)), tt)
]
AllBatched-add b token t m ((u, ms) ∷ sites) a = elim (Bool-cases (t == u)) [
  | inl tu ↦ elim (Bool-cases (token == u)) [
    | inl e ↦
        let a' = rw (tu, e) at a in let r = AllBatched-append b ms m a' in (λ _. r.0, rw e r.1)
    | inr e ↦ let a' = rw (tu, e) at a in (λ q. absurd (ground (arith, q)), rw e a')
  ]
  | inr tu ↦ elim (Bool-cases (token == u)) [
    | inl e ↦ let a' = rw (tu, e) at a in (λ q. absurd (ground (arith, q)), rw e a')
    | inr e ↦
        let a' = rw (tu, e) at a in let r = AllBatched-add b token t m sites a' in (r.0, rw e r.1)
  ]
]

-- `b` is the batch of every marker with the token.
abbrev pub SiteBatched : ℕ → ℕ → List (Option ℕ × Marker) → Type 0
SiteBatched token b [] = Unit {0}
SiteBatched token b ((none, m) ∷ ms) = SiteBatched token b ms
SiteBatched token b ((some t, m) ∷ ms) = (t ≡ token → MarkerBatched b m) × SiteBatched token b ms

AllBatched-sites :
    (b token : ℕ) (ms : List (Option ℕ × Marker)) (sites : Sites)
    → AllBatched b (lookup_site token (sites_of sites ms))
    → SiteBatched token b ms × AllBatched b (lookup_site token sites)
unfolding sites_of
AllBatched-sites b token [] sites a = (tt, a)
AllBatched-sites b token ((none, m) ∷ ms) sites a = AllBatched-sites b token ms sites a
AllBatched-sites b token ((some t, m) ∷ ms) sites a =
    let ih = AllBatched-sites b token ms (add_marker t m sites) a in
    let r = AllBatched-add b token t m sites ih.1 in ((r.0, ih.0), r.1)

AllBatched-later :
    (ms : List Marker) (b b' : ℕ) → (2 ≤ b → b' ≡ b) → AllBatched b ms → AllBatched b' ms
AllBatched-later [] b b' h a = tt
AllBatched-later (m ∷ ms) b b' h a =
    let (o, found) = a.0 in
    let (ls, q, by) = found in
    ((o, (ls, q, BatchedBy-later ls b b' h by)), AllBatched-later ms b b' h a.1)

nonzero : ℕ → ℕ
nonzero f = if f == 0 then 1 else f

factor_of-site :
    (ms : List (Option ℕ × Marker)) (token : ℕ)
    → factor_of ms (some token) ≡ nonzero (site_result (lookup_site token (sites_of [] ms))).batch
unfolding factor_of nonzero
factor_of-site ms token = rw (lookup_factor-site token (sites_of [] ms)) refl

result_cases :
    (group : List Marker)
    → ((site_result group).plans ≡ [] × (nonzero (site_result group).batch ≡ 1))
      ⊎ (AllBatched (nonzero (site_result group).batch) group
          × ((site_result group).plans ≡ group_plans group))
unfolding site_result nonzero
result_cases group = elim (Option-cases (plan_markers no_plans group)) [
  | inl q ↦ inl (rw q (refl, refl))
  | inr (d, q) ↦
      let r = (markers-AllBatched group no_plans d (inl refl) q).0 in
      inr (
        rw q (AllBatched-later group d.batch _ (λ two. ground arith) r),
        rw q (markers-plans group no_plans d q),
      )
]

-- The factor that the handlers of a site are told is the batch of every loop under every marker of the
-- site, each of which has been found and accepted, and the loops that are rewritten are all of these,
-- in the order of the markers; or the factor is 1, and none is rewritten.
pub factor_of-SiteBatched :
    (ms : List (Option ℕ × Marker)) (token : ℕ)
    → ((rewritten ms token ≡ []) × (factor_of ms (some token) ≡ 1))
      ⊎ (SiteBatched token (factor_of ms (some token)) ms
          × (rewritten ms token ≡ site_plans token ms))
factor_of-SiteBatched ms token =
    rw (factor_of-site ms token) (elim (result_cases (lookup_site token (sites_of [] ms))) [
      | inl r ↦ inl r
      | inr (a, p) ↦ inr ((AllBatched-sites _ token ms [] a).0, p ∙ sites_of-plans token ms [])
    ])

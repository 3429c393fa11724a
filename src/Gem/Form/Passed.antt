-- ===== src/Gem/Form/Passed.antt =====
-- gempass: a site whose handlers are told a factor of two or more has passed every check.
use spork_llvm.Base.{
  ℕ, ◌≤◌, ◌≡◌, Bool, true, false, ◌&&◌, List, [], ◌∷◌, map, Option, none, some, if◌then◌else◌, ◌==◌,
  refl, sym, ap, ◌∙◌, arith, Option-cases, inl, inr, ◌⊎◌, subst, ==_iff,
}
use spork_llvm.Unroll.Recognise.Accepted.{not-true}
use spork_llvm.Gem.Marker.{find_marked_loop}
use spork_llvm.Gem.Progress.{GemProgress, find_progress_store, clone_cleanup_loop}
use spork_llvm.Gem.Decide.{Decision, has_unbounded_work, native_unroll_decision}
use spork_llvm.Gem.Driver.{
  UnrollResult, unmodified, partially_unrolled, fully_unrolled, GemMarker, marker_factor,
  batched_by, gem_factor_of, marker_count,
}
use spork_llvm.Gem.Driver.Agree.{AllBy, gem_factor_of-AllBy}
use spork_llvm.Gem.Form.{
  can_form, GemSite, count_of, unroll_of, formed_of, candidate, unsupported, gem_marker,
}

-- What a marker has that is batched.
abbrev Fields :
    ℕ
    → (supported : Bool) (decision : Option ℕ) (cleanup : Bool) (unroll : UnrollResult)
      (formed : Bool)
    → Type 0
Fields f supported decision cleanup unroll formed =
    (supported ≡ true)
    × (decision ≡ some f)
    × (cleanup ≡ true)
    × (unroll ≡ partially_unrolled)
    × (formed ≡ true)

-- `marker_factor` by its fields.
by_fields : Bool → Bool → Option ℕ → Bool → UnrollResult → Bool → ℕ
by_fields once supported decision cleanup unroll formed =
    if once && supported
    then (elim decision [
      | none ↦ 1
      | some count ↦
          if cleanup
          then (elim unroll [
            | unmodified ↦ 1
            | partially_unrolled ↦ if formed then count else 1
            | fully_unrolled ↦ 1
          ])
          else 1
    ])
    else 1

by_fields-Fields :
    (once supported : Bool) (decision : Option ℕ) (cleanup : Bool) (unroll : UnrollResult)
    (formed : Bool)
    → 2 ≤ by_fields once supported decision cleanup unroll formed
    → (once ≡ true)
      × Fields
          (by_fields once supported decision cleanup unroll formed)
          supported
          decision
          cleanup
          unroll
          formed
unfolding by_fields
by_fields-Fields true true (some count) true partially_unrolled true h =
    (refl, (refl, refl, refl, refl, refl))
by_fields-Fields true true (some count) true partially_unrolled false h = absurd (omega arith)
by_fields-Fields true true (some count) true unmodified formed h = absurd (omega arith)
by_fields-Fields true true (some count) true fully_unrolled formed h = absurd (omega arith)
by_fields-Fields true true (some count) false unroll formed h = absurd (omega arith)
by_fields-Fields true true none cleanup unroll formed h = absurd (omega arith)
by_fields-Fields true false decision cleanup unroll formed h = absurd (omega arith)
by_fields-Fields false supported decision cleanup unroll formed h = absurd (omega arith)

marker_factor-by_fields :
    (counts : ℕ → ℕ) (m : GemMarker) (t : ℕ)
    → m.token ≡ some t
    → marker_factor counts m
      ≡ by_fields (counts t == 1) m.supported m.decision m.cleanup m.unroll m.formed
unfolding marker_factor batched_by by_fields
marker_factor-by_fields counts m t q = ap factor_at q
  where
    factor_at : Option ℕ → ℕ
    factor_at none = 1
    factor_at (some u) =
        by_fields (counts u == 1) m.supported m.decision m.cleanup m.unroll m.formed

-- A site whose marker is batched by `f` has passed every check of the pass: the marker denotes a loop
-- with a progress store and no unbounded work, LLVM's count is `f`, the loop can be cloned for the
-- cleanup, and the unrolled loop has `f` clones, each with the condition that is looked for.
abbrev pub Passed : ℕ → GemSite → Type 0
Passed f s =
    (l : ℕ) × (find_marked_loop s.bridges s.marker_block ≡ some l)
    × ((p : GemProgress) × (find_progress_store (s.shape l) ≡ some p)
        × (has_unbounded_work (s.sub_loops l) (s.code l) ≡ false)
        × (clone_cleanup_loop (s.shape l) p.phi ≡ true)
        × ((d : Decision) × (native_unroll_decision (s.facts l) ≡ some d) × (d.count ≡ f))
        × (s.unroll l f ≡ partially_unrolled)
        × (can_form (s.shape l) p (s.main_loop l f) f ≡ true))

count_of-some :
    (o : Option Decision) (f : ℕ)
    → count_of o ≡ some f
    → (d : Decision) × (o ≡ some d) × (d.count ≡ f)
count_of-some none f e = absurd cc
count_of-some (some d) f e = (d, refl, cc)

candidate-Passed :
    (s : GemSite) (l : ℕ) (p : GemProgress) (f : ℕ)
    → find_marked_loop s.bridges s.marker_block ≡ some l
    → find_progress_store (s.shape l) ≡ some p
    → (let m = candidate s l p in Fields f m.supported m.decision m.cleanup m.unroll m.formed)
    → Passed f s
candidate-Passed s l p f a b (sup, dec, cl, un, fo) = (
  l,
  a,
  (
    p,
    b,
    not-true (has_unbounded_work (s.sub_loops l) (s.code l)) sup,
    cl,
    count_of-some (native_unroll_decision (s.facts l)) f dec,
    sym (ap (unroll_of s l) dec) ∙ un,
    sym (ap (formed_of s l p) dec) ∙ fo,
  ),
)

gem_marker-cases :
    (s : GemSite)
    → (gem_marker s ≡ unsupported s.token)
      ⊎ ((l : ℕ) × (p : GemProgress) × (find_marked_loop s.bridges s.marker_block ≡ some l)
          × (find_progress_store (s.shape l) ≡ some p)
          × (gem_marker s ≡ candidate s l p))
unfolding gem_marker
gem_marker-cases s = elim (Option-cases (find_marked_loop s.bridges s.marker_block)) [
  | inl q ↦ inl (rw (q, gem_marker) refl)
  | inr (l, q) ↦ elim (Option-cases (find_progress_store (s.shape l))) [
    | inl r ↦ inl (rw (q, r, gem_marker) refl)
    | inr (p, r) ↦ inr (l, p, q, r, rw (q, r, gem_marker) refl)
  ]
]

gem_marker-token : (s : GemSite) → (gem_marker s).token ≡ s.token
gem_marker-token s = elim (gem_marker-cases s) [
  | inl e ↦ ap (λ m. m.token) e
  | inr (l, p, a, b, e) ↦ ap (λ m. m.token) e
]

factor-Passed :
    (counts : ℕ → ℕ) (s : GemSite) (t f : ℕ)
    → s.token ≡ some t
    → marker_factor counts (gem_marker s) ≡ f
    → 2 ≤ f
    → (counts t ≡ 1) × Passed f s
factor-Passed counts s t f q e h = elim (gem_marker-cases s) [
  | inl u ↦
      let v = ap (marker_factor counts) u in
      let (once, fields) = all (unsupported s.token) q (sym v ∙ e) in
      let z : false ≡ true = fields.0 in absurd cc
  | inr (l, p, a, b, u) ↦
      let v = ap (marker_factor counts) u in
      let (once, fields) = all (candidate s l p) q (sym v ∙ e) in
      (once, candidate-Passed s l p f a b fields)
]
  where
    all :
        (m : GemMarker)
        → m.token ≡ some t
        → marker_factor counts m ≡ f
        → (counts t ≡ 1) × Fields f m.supported m.decision m.cleanup m.unroll m.formed
    all m q e =
        let g = sym (marker_factor-by_fields counts m t q) ∙ e in
        let r =
          by_fields-Fields (counts t == 1) m.supported m.decision m.cleanup m.unroll m.formed
            (subst (λ n. 2 ≤ n) (sym g) h) in
        (
          (==_iff (counts t) 1).0 r.0,
          subst (λ n. Fields n m.supported m.decision m.cleanup m.unroll m.formed) g r.1,
        )

abbrev pub AllPassed : (markers : List GemMarker) (t f : ℕ) → List GemSite → Type 0
AllPassed ms t f [] = Unit {0}
AllPassed ms t f (s ∷ ss) =
    (s.token ≡ some t → (marker_count t ms ≡ 1) × Passed f s) × AllPassed ms t f ss

all-Passed :
    (ms : List GemMarker) (t f : ℕ) (ss : List GemSite)
    → AllBy (λ u. marker_count u ms) t f (map gem_marker ss)
    → 2 ≤ f
    → AllPassed ms t f ss
all-Passed ms t f [] a h = tt
all-Passed ms t f (s ∷ ss) a h = (
  λ q. factor-Passed (λ u. marker_count u ms) s t f q (a.0 (gem_marker-token s ∙ q)) h,
  all-Passed ms t f ss a.1 h,
)

-- If the handlers of a token are told a factor of two or more, a marker with that token is the only
-- one; it denotes a loop with a progress store and no unbounded work, the factor is LLVM's count, the
-- loop can be cloned for the cleanup, LLVM has unrolled it partially, and the unrolled loop has passed
-- the validation with as many clones.
pub gem_factor_of-AllPassed :
    (sites : List GemSite) (t : ℕ)
    → 2 ≤ gem_factor_of (map gem_marker sites) (some t)
    → AllPassed (map gem_marker sites) t (gem_factor_of (map gem_marker sites) (some t)) sites
gem_factor_of-AllPassed sites t h =
    all-Passed (map gem_marker sites) t (gem_factor_of (map gem_marker sites) (some t)) sites
      (gem_factor_of-AllBy (map gem_marker sites) t) h

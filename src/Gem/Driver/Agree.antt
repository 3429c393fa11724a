-- ===== src/Gem/Driver/Agree.antt =====
-- gempass: the factor of a site is that of its loops.
use spork_llvm.Base.{
  ℕ, suc, ◌≡◌, ◌≢◌, Bool, true, false, ◌&&◌, List, [], ◌∷◌, Option, none, some, if◌then◌else◌, ◌==◌,
  refl, sym, ap, ◌∙◌, arith, Bool-cases, inl, inr, ◌⊎◌, ◌≤◌, subst, dec_le,
}
use spork_llvm.Gem.Driver.{
  batched_by, GemMarker, has_token, marker_count, marker_factor, FactorMap, find_factor,
  insert_factor, transform, gem_factor_of,
}

-- What is found after an insertion.
abbrev joined : ℕ → Option ℕ → ℕ
joined g none = g
joined g (some f) = if f == g then f else 1

find_factor-insert_factor :
    (t u g : ℕ) (fs : FactorMap)
    → find_factor t (insert_factor u g fs)
      ≡ (if u == t then some (joined g (find_factor t fs)) else find_factor t fs)
unfolding find_factor insert_factor
find_factor-insert_factor t u g [] = elim (Bool-cases (u == t)) [
  | inl e ↦ rw e refl
  | inr e ↦ rw e refl
]
find_factor-insert_factor t u g ((v, f) ∷ fs) =
    let ih = find_factor-insert_factor t u g fs in ground (arith, ih)

-- Every marker with the token is batched by `f`.
abbrev pub AllBy : (ℕ → ℕ) → ℕ → ℕ → List GemMarker → Type 0
AllBy counts t f [] = Unit {0}
AllBy counts t f (s ∷ ms) = (s.token ≡ some t → marker_factor counts s ≡ f) × AllBy counts t f ms

-- The insertion for one marker.
insert_own : Option ℕ → ℕ → FactorMap → FactorMap
insert_own none g fs = fs
insert_own (some u) g fs = insert_factor u g fs

insert_own-keeps :
    (token : Option ℕ) (g t f : ℕ) (fs : FactorMap)
    → (token ≡ some t → g ≡ f)
    → find_factor t fs ≡ some f
    → find_factor t (insert_own token g fs) ≡ some f
unfolding insert_own
insert_own-keeps none g t f fs h e = e
insert_own-keeps (some u) g t f fs h e =
    rw (find_factor-insert_factor t u g fs, e)
      (elim (Bool-cases (u == t)) [
        | inl b ↦ let gf = h (ap some (ground arith)) in ground (arith, gf)
        | inr b ↦ rw b refl
      ])

insert_own-adds :
    (t f : ℕ) (fs : FactorMap)
    → (find_factor t fs ≡ none) ⊎ (find_factor t fs ≡ some f)
    → find_factor t (insert_own (some t) f fs) ≡ some f
unfolding insert_own
insert_own-adds t f fs c =
    rw (find_factor-insert_factor t t f fs)
      (elim c [ inl e ↦ rw e (ground arith) | inr e ↦ rw e (ground arith) ])

-- A map without the token, or with this factor.
abbrev Ready : ℕ → ℕ → FactorMap → Type 0
Ready t f fs = (find_factor t fs ≡ none) ⊎ (find_factor t fs ≡ some f)

insert_own-Ready :
    (token : Option ℕ) (g t f : ℕ) (fs : FactorMap)
    → (token ≡ some t → g ≡ f)
    → Ready t f fs
    → Ready t f (insert_own token g fs)
unfolding insert_own
insert_own-Ready none g t f fs h r = r
insert_own-Ready (some u) g t f fs h (inr e) = inr (insert_own-keeps (some u) g t f fs h e)
insert_own-Ready (some u) g t f fs h (inl e) =
    rw (find_factor-insert_factor t u g fs, e)
      (elim (Bool-cases (u == t)) [
        | inl b ↦ let gf = h (ap some (ground arith)) in inr (ground (arith, gf))
        | inr b ↦ inl (rw b refl)
      ])

transform-insert_own :
    (counts : ℕ → ℕ) (fs : FactorMap) (s : GemMarker) (ms : List GemMarker)
    → transform counts fs (s ∷ ms)
      ≡ transform counts (insert_own s.token (marker_factor counts s) fs) ms
unfolding transform insert_own
transform-insert_own counts fs s ms =
    ap (λ z. transform counts z ms) (insertion s.token (marker_factor counts s))
  where
    insertion :
        (token : Option ℕ) (g : ℕ)
        → (elim token [ none ↦ fs | some t ↦ insert_factor t g fs ]) ≡ insert_own token g fs
    insertion none g = refl
    insertion (some u) g = refl

transform-keeps :
    (counts : ℕ → ℕ) (t f : ℕ) (ms : List GemMarker) (fs : FactorMap)
    → AllBy counts t f ms
    → find_factor t fs ≡ some f
    → find_factor t (transform counts fs ms) ≡ some f
unfolding transform
transform-keeps counts t f [] fs h e = e
transform-keeps counts t f (s ∷ ms) fs h e =
    ap (find_factor t) (transform-insert_own counts fs s ms)
    ∙ transform-keeps counts t f ms (insert_own s.token (marker_factor counts s) fs) h.1
        (insert_own-keeps s.token (marker_factor counts s) t f fs h.0 e)

-- A marker has the token, or is not counted.
marker-cases :
    (t : ℕ) (s : GemMarker) (ms : List GemMarker)
    → ((s.token ≡ some t) × (marker_count t (s ∷ ms) ≡ suc (marker_count t ms)))
      ⊎ ((s.token ≢ some t) × (marker_count t (s ∷ ms) ≡ marker_count t ms))
unfolding marker_count
marker-cases t s ms = elim (token_cases s.token) [
  | inl q ↦ inl (q.0, let h : has_token t s ≡ true = q.1 in rw h refl)
  | inr q ↦ inr (q.0, let h : has_token t s ≡ false = q.1 in rw h refl)
]
  where
    matches : Option ℕ → Bool
    matches o = elim o [ none ↦ false | some u ↦ u == t ]

    token_cases :
        (o : Option ℕ) → ((o ≡ some t) × (matches o ≡ true)) ⊎ ((o ≢ some t) × (matches o ≡ false))
    token_cases none = inr (λ e. cc, refl)
    token_cases (some u) = elim (Bool-cases (u == t)) [
      | inl e ↦ inl (ap some (ground arith), e)
      | inr e ↦ inr (λ p. ground (arith, p), e)
    ]

transform-adds :
    (counts : ℕ → ℕ) (t f : ℕ) (ms : List GemMarker) (fs : FactorMap)
    → AllBy counts t f ms
    → 1 ≤ marker_count t ms
    → Ready t f fs
    → find_factor t (transform counts fs ms) ≡ some f
unfolding marker_count
transform-adds counts t f [] fs h n r = absurd (omega arith)
transform-adds counts t f (m ∷ ms) fs h n r =
    ap (find_factor t) (transform-insert_own counts fs m ms) ∙ elim (marker-cases t m ms) [
      | inl c ↦ transform-keeps counts t f ms (insert_own m.token (marker_factor counts m) fs) h.1 (
          subst (λ o. find_factor t (insert_own o (marker_factor counts m) fs) ≡ some f) (sym c.0)
            (subst (λ k. find_factor t (insert_own (some t) k fs) ≡ some f) (sym (h.0 c.0))
              (insert_own-adds t f fs r)))
      | inr c ↦
          transform-adds counts t f ms (insert_own m.token (marker_factor counts m) fs) h.1
            (subst (λ k. 1 ≤ k) c.1 n)
            (insert_own-Ready m.token (marker_factor counts m) t f fs h.0 r)
    ]

none-AllBy :
    (counts : ℕ → ℕ) (t f : ℕ) (ms : List GemMarker) → marker_count t ms ≡ 0 → AllBy counts t f ms
none-AllBy counts t f [] z = tt
none-AllBy counts t f (s ∷ ms) z = elim (marker-cases t s ms) [
  | inl c ↦ absurd (let e = c.1 in omega (arith, e, z))
  | inr c ↦ (λ q. absurd (c.0 q), none-AllBy counts t f ms (sym c.1 ∙ z))
]

one-AllBy :
    (counts : ℕ → ℕ) (t : ℕ) (ms : List GemMarker)
    → marker_count t ms ≡ 1
    → (f : ℕ) × AllBy counts t f ms
one-AllBy counts t [] o = (0, tt)
one-AllBy counts t (s ∷ ms) o = elim (marker-cases t s ms) [
  | inl c ↦ (
    marker_factor counts s,
    (λ q. refl, none-AllBy counts t _ ms (let e = c.1 in omega (arith, e, o))),
  )
  | inr c ↦ let (f, h) = one-AllBy counts t ms (sym c.1 ∙ o) in (f, (λ q. absurd (c.0 q), h))
]

-- With a token that several markers share no loop is batched.
shared-marker_factor :
    (counts : ℕ → ℕ) (t : ℕ) (token : Option ℕ) (supported : Bool) (decision : Option ℕ)
    (by : ℕ → ℕ)
    → (counts t == 1) ≡ false
    → token ≡ some t
    → ◌≡◌ {A = ℕ}
        (elim token [
          | none ↦ 1
          | some u ↦
              if counts u == 1 && supported
              then (elim decision [ none ↦ 1 | some count ↦ by count ])
              else 1
        ])
        1
shared-marker_factor counts t none supported decision by z q = refl
shared-marker_factor counts t (some u) supported decision by z q =
    let ut : u ≡ t = ground (arith, q) in rw (ut, z) refl

shared-AllBy :
    (counts : ℕ → ℕ) (t : ℕ) (ms : List GemMarker) → (counts t == 1) ≡ false → AllBy counts t 1 ms
unfolding marker_factor
shared-AllBy counts t [] z = tt
shared-AllBy counts t (s ∷ ms) z = (
  shared-marker_factor counts t s.token s.supported s.decision (batched_by s) z,
  shared-AllBy counts t ms z,
)

agreed :
    (counts : ℕ → ℕ) (ms : List GemMarker) (t f : ℕ)
    → AllBy counts t f ms
    → AllBy counts t (elim (find_factor t (transform counts [] ms)) [ none ↦ 1 | some g ↦ g ]) ms
unfolding find_factor
agreed counts ms t f h = elim (dec_le 1 (marker_count t ms)) [
  | yes n ↦ rw (transform-adds counts t f ms [] h n (inl refl)) h
  | no n ↦ none-AllBy counts t _ ms (omega arith)
]

-- The factor that the handlers of a site are told is the one by which each loop with this token is
-- batched, 1 where it is not.
pub gem_factor_of-AllBy :
    (ms : List GemMarker) (t : ℕ) → AllBy (λ u. marker_count u ms) t (gem_factor_of ms (some t)) ms
unfolding gem_factor_of
gem_factor_of-AllBy ms t = elim (Bool-cases (marker_count t ms == 1)) [
  | inl o ↦
      let r = one-AllBy (λ u. marker_count u ms) t ms (ground arith) in
      agreed (λ u. marker_count u ms) ms t r.0 r.1
  | inr z ↦ agreed (λ u. marker_count u ms) ms t 1 (shared-AllBy (λ u. marker_count u ms) t ms z)
]

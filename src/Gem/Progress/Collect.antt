-- ===== src/Gem/Progress/Collect.antt =====
-- gempass, `collectDependentLoads`: the loads that a value depends on. Child: a measure of the work left
-- (Weight).
pub mod Weight
use spork_llvm.Base.{
  ℕ, zero, suc, ◌+◌, ◌≤◌, ◌≡◌, true, false, ◌||◌, List, [], ◌∷◌, ◌++◌, Option, none, some, refl,
  sym, ap, ◌∙◌, arith, ◌==◌, Bool-cases, inl, inr, ◌⊎◌, get_elem?, length, length-append,
  if◌then◌else◌, subst, append-nil,
}
use spork_llvm.Unroll.Recognise.{Load}
use spork_llvm.Unroll.Recognise.Follows.{some_inj}
use spork_llvm.Gem.Progress.{
  Node, load_node, instr_node, leaf, is_visited, Collecting, visit_node, collect_next, collect,
  node_size, graph_size, collect_dependent_loads,
}
use spork_llvm.Gem.Progress.Collect.Weight.{weight, weight_mono, weight-visit, weight-nil}

abbrev pub Has : {A : Type 0} → A → List A → Type 0
Has x [] = ⊥
Has x (y ∷ ys) = (x ≡ y) ⊎ Has x ys

Has-append : {A : Type 0} (x : A) (xs ys : List A) → Has x (xs ++ ys) → Has x xs ⊎ Has x ys
Has-append x [] ys h = inr h
Has-append x (z ∷ xs) ys (inl e) = inl (inl e)
Has-append x (z ∷ xs) ys (inr h) = elim (Has-append x xs ys h) [
  | inl a ↦ inl (inr a)
  | inr b ↦ inr b
]

Has-left : {A : Type 0} (x : A) (xs ys : List A) → Has x xs → Has x (xs ++ ys)
Has-left x (z ∷ xs) ys (inl e) = inl e
Has-left x (z ∷ xs) ys (inr h) = inr (Has-left x xs ys h)
Has-left x [] ys h = absurd h

Has-right : {A : Type 0} (x : A) (xs ys : List A) → Has x ys → Has x (xs ++ ys)
Has-right x [] ys h = h
Has-right x (z ∷ xs) ys h = inr (Has-right x xs ys h)

-- A value depends on itself, and on the operands of what it depends on, loads apart.
pub data DependsOn (g : List Node) (root : ℕ) : ℕ → Type 0 where
  itself : DependsOn g root root
  operand :
      {u v : ℕ} {ops : List ℕ}
      → DependsOn g root u
      → get_elem? g u ≡ some (instr_node ops)
      → Has v ops
      → DependsOn g root v

abbrev Done : List ℕ → List ℕ → ℕ → Type 0
Done work visited v = (is_visited v visited ≡ true) ⊎ Has v work

record Invariant (g : List Node) (root : ℕ) (work visited : List ℕ) (loads : List Load)
    : Type 0 where
  rooted : Done work visited root
  closed :
      (u v : ℕ) (ops : List ℕ)
      → is_visited u visited ≡ true
      → get_elem? g u ≡ some (instr_node ops)
      → Has v ops
      → Done work visited v
  kept :
      (u : ℕ) (l : Load)
      → is_visited u visited ≡ true
      → get_elem? g u ≡ some (load_node l)
      → Has l loads
  reached : (v : ℕ) → Has v work → DependsOn g root v
  found :
      (l : Load) → Has l loads → (u : ℕ) × DependsOn g root u × (get_elem? g u ≡ some (load_node l))

visited-cases :
    (v u : ℕ) (visited : List ℕ)
    → is_visited u (v ∷ visited) ≡ true
    → (v ≡ u) ⊎ (is_visited u visited ≡ true)
visited-cases v u visited e = elim (Bool-cases (v == u)) [
  | inl q ↦ inl (ground arith)
  | inr q ↦ let e' = rw q at e in inr e'
]

visited_self : (v u : ℕ) (visited : List ℕ) → u ≡ v → is_visited u (v ∷ visited) ≡ true
visited_self v u visited e = let q : (v == u) ≡ true = ground (arith, e) in rw q refl

visited-later :
    (v u : ℕ) (visited : List ℕ) → is_visited u visited ≡ true → is_visited u (v ∷ visited) ≡ true
visited-later v u visited e = elim (Bool-cases (v == u)) [
  | inl q ↦ rw q refl
  | inr q ↦ rw (q, e) refl
]

module _ (g : List Node) (root : ℕ) where
  skipped :
      (v : ℕ) (work visited : List ℕ) (loads : List Load)
      → is_visited v visited ≡ true
      → Invariant g root (v ∷ work) visited loads
      → Invariant g root work visited loads
  skipped v work visited loads e i = record {
    rooted = still root i.rooted;
    closed = λ u w ops a b h. still w (i.closed u w ops a b h);
    kept = i.kept;
    reached = λ w h. i.reached w (inr h);
    found = i.found;
  }
    where
      still : (w : ℕ) → Done (v ∷ work) visited w → Done work visited w
      still w (inl d) = inl d
      still w (inr (inl q)) = inl (ap (λ z. is_visited z visited) q ∙ e)
      still w (inr (inr h)) = inr h

  visited_one :
      (v : ℕ) (ops work visited : List ℕ) (loads more : List Load)
      → Invariant g root (v ∷ work) visited loads
      → ((os : List ℕ) → get_elem? g v ≡ some (instr_node os) → os ≡ ops)
      → ((l : Load) → get_elem? g v ≡ some (load_node l) → Has l more)
      → ((w : ℕ) → Has w ops → DependsOn g root w)
      → ((l : Load) → Has l more → get_elem? g v ≡ some (load_node l))
      → Invariant g root (ops ++ work) (v ∷ visited) (loads ++ more)
  visited_one v ops work visited loads more i os ls deps new = record {
    rooted = still root i.rooted;
    closed = λ u w us a b h. elim (visited-cases v u visited a) [
      | inl q ↦ inr (Has-left w ops work (subst (Has w) (os us (ap (get_elem? g) q ∙ b)) h))
      | inr d ↦ still w (i.closed u w us d b h)
    ];
    kept = λ u l a b. elim (visited-cases v u visited a) [
      | inl q ↦ Has-right l loads more (ls l (ap (get_elem? g) q ∙ b))
      | inr d ↦ Has-left l loads more (i.kept u l d b)
    ];
    reached =
        λ w h. elim (Has-append w ops work h) [ inl a ↦ deps w a | inr b ↦ i.reached w (inr b) ];
    found = λ l h. elim (Has-append l loads more h) [
      | inl a ↦ i.found l a
      | inr b ↦ (v, i.reached v (inl refl), new l b)
    ];
  }
    where
      still : (w : ℕ) → Done (v ∷ work) visited w → Done (ops ++ work) (v ∷ visited) w
      still w (inl d) = inl (visited-later v w visited d)
      still w (inr (inl q)) = inl (visited_self v w visited q)
      still w (inr (inr h)) = inr (Has-right w ops work h)

abbrev collecting : List ℕ → List ℕ → List Load → Collecting
collecting work visited loads = record { work = work; visited = visited; loads = loads }

module _ (g : List Node) (root : ℕ) where
  -- The invariant, and that so much fuel is enough.
  abbrev Ready : ℕ → Collecting → Type 0
  Ready fuel c =
      Invariant g root c.work c.visited c.loads × (weight g 0 c.visited + length c.work ≤ fuel)

  visit-Ready :
      (fuel v : ℕ) (o : Option Node) (work visited : List ℕ) (loads : List Load)
      → get_elem? g v ≡ o
      → is_visited v visited ≡ false
      → Ready (suc fuel) (collecting (v ∷ work) visited loads)
      → Ready fuel (visit_node v o (collecting work visited loads))
  unfolding visit_node
  visit-Ready fuel v none work visited loads q f (i, le) = (
    subst (Invariant g root work (v ∷ visited)) (append-nil loads) (
        visited_one g root v [] work visited loads [] i (λ os e. absurd cc) (λ l e. absurd cc)
          (λ w h. absurd h) (λ l h. absurd h)),
    let m = weight_mono g 0 v visited in omega (arith, le, m),
  )
  visit-Ready fuel v (some leaf) work visited loads q f (i, le) = (
    subst (Invariant g root work (v ∷ visited)) (append-nil loads) (
        visited_one g root v [] work visited loads [] i (λ os e. absurd cc) (λ l e. absurd cc)
          (λ w h. absurd h) (λ l h. absurd h)),
    let m = weight_mono g 0 v visited in omega (arith, le, m),
  )
  visit-Ready fuel v (some (load_node l)) work visited loads q f (i, le) = (
    visited_one g root v [] work visited loads (l ∷ []) i (λ os e. absurd cc)
        (λ k e. inl (let z = sym e ∙ q in cc)) (λ w h. absurd h)
        (λ k h. elim h [ inl e ↦ q ∙ ap (λ x. some (load_node x)) (sym e) | inr n ↦ absurd n ]),
    let m = weight_mono g 0 v visited in omega (arith, le, m),
  )
  visit-Ready fuel v (some (instr_node ops)) work visited loads q f (i, le) = (
    subst (Invariant g root (ops ++ work) (v ∷ visited)) (append-nil loads) (
        visited_one g root v ops work visited loads [] i (λ os e. let z = sym e ∙ q in cc)
          (λ l e. absurd cc) (λ w h. operand (i.reached v (inl refl)) q h) (λ l h. absurd h)),
    let m = weight-visit g 0 v v (instr_node ops) visited (omega arith) q f in
        let n = length-append {0} ops work in omega (arith, le, m, n),
  )

  next-Ready :
      (fuel v : ℕ) (work visited : List ℕ) (loads : List Load)
      → Ready (suc fuel) (collecting (v ∷ work) visited loads)
      → Ready fuel (collect_next g v (collecting work visited loads))
  unfolding collect_next
  next-Ready fuel v work visited loads (i, le) = elim (Bool-cases (is_visited v visited)) [
    | inl e ↦ rw e (skipped g root v work visited loads e i, omega (arith, le))
    | inr e ↦ rw e (visit-Ready fuel v (get_elem? g v) work visited loads refl e (i, le))
  ]

  -- The loads that `root` depends on, and no others.
  abbrev pub LoadsOf : List Load → Type 0
  LoadsOf loads =
      ((u : ℕ) (l : Load) → DependsOn g root u → get_elem? g u ≡ some (load_node l) → Has l loads)
      × ((l : Load)
          → Has l loads
          → (u : ℕ) × DependsOn g root u × (get_elem? g u ≡ some (load_node l)))

  all_visited :
      (visited : List ℕ) (loads : List Load)
      → Invariant g root [] visited loads
      → (u : ℕ) → DependsOn g root u
      → is_visited u visited ≡ true
  all_visited visited loads i u itself = done root i.rooted
    where
      done : (v : ℕ) → Done [] visited v → is_visited v visited ≡ true
      done v (inl e) = e
      done v (inr h) = absurd h
  all_visited visited loads i w (operand {u} {v} {ops} d e h) =
      elim (i.closed u w ops (all_visited visited loads i u d) e h) [ inl a ↦ a | inr b ↦ absurd b ]

  collect-LoadsOf :
      (fuel : ℕ) (work visited : List ℕ) (loads : List Load)
      → Ready fuel (collecting work visited loads)
      → (ls : List Load) × (collect g fuel (collecting work visited loads) ≡ some ls) × LoadsOf ls
  unfolding collect
  collect-LoadsOf zero [] visited loads (i, le) =
      (loads, refl, (λ u l d e. i.kept u l (all_visited visited loads i u d) e, i.found))
  collect-LoadsOf (suc fuel) [] visited loads (i, le) =
      (loads, refl, (λ u l d e. i.kept u l (all_visited visited loads i u d) e, i.found))
  collect-LoadsOf zero (v ∷ work) visited loads (i, le) = absurd (omega (arith, le))
  collect-LoadsOf (suc fuel) (v ∷ work) visited loads r =
      let c = collect_next g v (collecting work visited loads) in
      collect-LoadsOf fuel c.work c.visited c.loads (next-Ready fuel v work visited loads r)

-- `collectDependentLoads` ends, whatever cycles the operands make, with one step for each value and
-- each operand; and it finds the loads that the value depends on, and no others.
pub collect_dependent_loads-LoadsOf :
    (g : List Node) (root : ℕ)
    → (loads : List Load) × (collect_dependent_loads g root ≡ some loads) × LoadsOf g root loads
unfolding collect_dependent_loads
collect_dependent_loads-LoadsOf g root =
    collect-LoadsOf g root (1 + graph_size g) (root ∷ []) [] [] (
      record {
        rooted = inr (inl refl);
        closed = λ u v ops a b h. absurd cc;
        kept = λ u l a b. absurd cc;
        reached =
            λ v h. elim h [ inl e ↦ subst (DependsOn g root) (sym e) itself | inr n ↦ absurd n ];
        found = λ l h. absurd h;
      },
      let w = weight-nil g 0 in omega (arith, w),
    )

-- ===== src/Unroll/Marked/Denoted.antt =====
-- How the loops that `findMarkedLoops` finds lie to the marker.
use spork_llvm.Base.{
  ℕ, zero, suc, ◌+◌, ◌≤◌, ◌≡◌, ◌≢◌, Bool, true, false, ◌||◌, List, [], ◌∷◌, ◌++◌, Option, none,
  some, ltb, refl, sym, Bool-cases, inl, inr, ltb→le, ==_iff,
}
use spork_llvm.Unroll.Recognise.{same}
use spork_llvm.Unroll.Recognise.Accepted.{check-some, bind-some, and-left, and-right}
use spork_llvm.Unroll.Marked.{
  Blocks, Walk, max_marker_walk_depth, is_in, leaves, visit_loop, visit_bridge, visit_one,
  visit_all, walk_blocks, walk_on, nonempty, find_marked_loops,
}

pub data In {A : Type 0} (x : A) : List A → Type 0 where
  first : {xs : List A} → In x (x ∷ xs)
  later : {y : A} {xs : List A} → In x xs → In x (y ∷ xs)

or-right : (a c : Bool) → (a || c) ≡ false → c ≡ false
or-right true c e = absurd cc
or-right false c e = e

module _ (b : Blocks) (start : ℕ) where
  -- The block is so many bridges away from the marker's block: blocks of its loop, no barriers.
  pub data Bridged : ℕ → ℕ → Type 0 where
    at_marker : Bridged start 0
    bridge :
        {bb s depth : ℕ}
        → Bridged bb depth
        → In s (b.successors bb)
        → same (b.loop_for s) (b.loop_for start) ≡ true
        → b.barrier s ≡ false
        → depth + 1 ≤ max_marker_walk_depth
        → Bridged s (depth + 1)

  -- The loop is entered by its preheader from such a block, and lies directly in the marker's loop.
  pub record Denoted (l : ℕ) : Type 0 where
    pub block : ℕ
    pub depth : ℕ
    pub bridged : Bridged block depth
    pub entered : In (b.header l) (b.successors block)
    pub preheader : same (b.loop_preheader l) (some block) ≡ true
    pub inside : same (b.parent_loop l) (b.loop_for start) ≡ true

  abbrev pub AllDenoted : List ℕ → Type 0
  AllDenoted [] = Unit {0}
  AllDenoted (l ∷ ls) = Denoted l × AllDenoted ls

  abbrev AllBridged : List (ℕ × ℕ) → Type 0
  AllBridged [] = Unit {0}
  AllBridged ((bb, depth) ∷ ws) = Bridged bb depth × AllBridged ws

  abbrev Good : Walk → Type 0
  Good w = AllBridged w.work × AllDenoted w.loops

  AllDenoted-append :
      (ls : List ℕ) (l : ℕ) → AllDenoted ls → Denoted l → AllDenoted (ls ++ (l ∷ []))
  AllDenoted-append [] l a d = (d, tt)
  AllDenoted-append (x ∷ ls) l a d = (a.0, AllDenoted-append ls l a.1 d)

  some-eq : {A : Type 0} (x y : A) → some x ≡ some y → x ≡ y
  some-eq x y e = cc

  loop-Good :
      (bb depth s : ℕ) (o : Option ℕ) (w w' : Walk)
      → Bridged bb depth
      → In s (b.successors bb)
      → Good w
      → visit_loop b (b.loop_for start) bb s o w ≡ some w'
      → Good w'
  unfolding visit_loop
  loop-Good bb depth s none w w' br i g e = let q = some-eq w w' e in rw (sym q) g
  loop-Good bb depth s (some l) w w' br i g e = elim (Bool-cases (leaves b (b.loop_for start) l)) [
    | inl c ↦ let e' = rw c at e in let q = some-eq w w' e' in rw (sym q) g
    | inr c ↦
        let e' = rw c at e in
        let (ok, e₂) = check-some _ _ w' e' in
        elim (Bool-cases (is_in l w.loops)) [
          | inl d ↦ let e₃ = rw d at e₂ in let q = some-eq w w' e₃ in rw (sym q) g
          | inr d ↦
              let e₃ = rw d at e₂ in
              let q = some-eq _ w' e₃ in
              let at_header : b.header l ≡ s =
                (==_iff (b.header l) s).0 (and-left _ _ (and-left _ _ ok)) in
              let entered : In (b.header l) (b.successors bb) = rw at_header i in
              rw (sym q) (
                g.0,
                AllDenoted-append w.loops l g.1 (record {
                  block = bb;
                  depth = depth;
                  bridged = br;
                  entered = entered;
                  preheader = and-right _ _ ok;
                  inside = and-right _ _ (and-left _ _ ok);
                }),
              )
        ]
  ]

  bridge-Good :
      (bb depth s : ℕ) (w w' : Walk)
      → Bridged bb depth
      → In s (b.successors bb)
      → same (b.loop_for s) (b.loop_for start) ≡ true
      → Good w
      → visit_bridge b depth s w ≡ some w'
      → Good w'
  unfolding visit_bridge
  bridge-Good bb depth s w w' br i inside g e =
      elim (Bool-cases (is_in s w.visited || b.barrier s)) [
        | inl c ↦ let e' = rw c at e in let q = some-eq _ w' e' in rw (sym q) g
        | inr c ↦ elim (Bool-cases (ltb max_marker_walk_depth (depth + 1))) [
          | inl d ↦ let e' = rw (c, d) at e in absurd cc
          | inr d ↦
              let e' = rw (c, d) at e in
              let q = some-eq _ w' e' in
              rw (sym q) (
                (
                  bridge br i inside (or-right (is_in s w.visited) (b.barrier s) c) (ltb→le _ _ d),
                  g.0,
                ),
                g.1,
              )
        ]
      ]

  all-Good :
      (bb depth : ℕ) (ss : List ℕ) (w w' : Walk)
      → Bridged bb depth
      → ((s : ℕ) → In s ss → In s (b.successors bb))
      → Good w
      → visit_all b (b.loop_for start) bb depth ss w ≡ some w'
      → Good w'
  unfolding visit_all visit_one
  all-Good bb depth [] w w' br sub g e = let q = some-eq w w' e in rw (sym q) g
  all-Good bb depth (s ∷ ss) w w' br sub g e =
      let (w₁, e₁, e₂) = bind-some (visit_one b (b.loop_for start) bb depth s w) _ w' e in
      all-Good bb depth ss w₁ w' br (λ x i. sub x (later i)) (one w₁ e₁) e₂
    where
      one : (w₁ : Walk) → visit_one b (b.loop_for start) bb depth s w ≡ some w₁ → Good w₁
      one w₁ e₁ = elim (Bool-cases (same (b.loop_for s) (b.loop_for start))) [
        | inl c ↦ bridge-Good bb depth s w w₁ br (sub s first) c g (rw (c, visit_one) at e₁)
        | inr c ↦
            loop-Good bb depth s (b.loop_for s) w w₁ br (sub s first) g (rw (c, visit_one) at e₁)
      ]

  nonempty-AllDenoted :
      (found ls : List ℕ) → AllDenoted found → nonempty found ≡ some ls → AllDenoted ls × (ls ≢ [])
  nonempty-AllDenoted [] ls g q = absurd cc
  nonempty-AllDenoted (l ∷ found) ls g q =
      let z = some-eq (l ∷ found) ls q in rw (sym z) (g, λ h. absurd cc)

  walk_on-some :
      (o : Option Walk) (walk : Walk → Option (Option (List ℕ))) (ls : List ℕ)
      → walk_on o walk ≡ some (some ls)
      → (w : Walk) × (o ≡ some w) × (walk w ≡ some (some ls))
  walk_on-some none walk ls e =
      let z : none ≡ some ls = some-eq {A = Option (List ℕ)} none (some ls) e in absurd cc
  walk_on-some (some w) walk ls e = (w, refl, e)

  walk-Good :
      (fuel : ℕ) (work : List (ℕ × ℕ)) (w : Walk) (ls : List ℕ)
      → AllBridged work
      → AllDenoted w.loops
      → walk_blocks fuel b (b.loop_for start) work w ≡ some (some ls)
      → AllDenoted ls × (ls ≢ [])
  unfolding walk_blocks
  walk-Good zero work w ls a d e = absurd cc
  walk-Good (suc fuel) [] w ls a d e =
      nonempty-AllDenoted w.loops ls d (some-eq (nonempty w.loops) (some ls) e)
  walk-Good (suc fuel) ((bb, depth) ∷ work) w ls a d e =
      let (w', e₁, e₂) =
        walk_on-some
          (visit_all b (b.loop_for start) bb depth (b.successors bb) (record w { work = work })) _
          ls e in
      let g =
        all-Good bb depth (b.successors bb) (record w { work = work }) w' a.0 (λ s i. i) (a.1, d)
          e₁ in
      walk-Good fuel w'.work w' ls g.0 g.1 e₂

  -- Each loop that `findMarkedLoops` returns lies directly in the marker's loop and is entered by its
  -- preheader, which is the marker's block or one of at most eight blocks on from it, none of them a
  -- barrier; and it returns at least one loop, if it returns any.
  pub find_marked_loops-Denoted :
      (fuel : ℕ) (ls : List ℕ)
      → find_marked_loops fuel b start ≡ some (some ls)
      → AllDenoted ls × (ls ≢ [])
  unfolding find_marked_loops
  find_marked_loops-Denoted fuel ls e =
      walk-Good fuel ((start, 0) ∷ []) (record { visited = start ∷ []; work = []; loops = [] }) ls
        (at_marker, tt) tt e

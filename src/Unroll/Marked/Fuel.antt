-- ===== src/Unroll/Marked/Fuel.antt =====
-- fablepass, `findMarkedLoops`: how much fuel its work list needs.
use spork_llvm.Base.{
  ℕ, zero, suc, ◌+◌, ◌<◌, ◌≤◌, ◌≡◌, Bool, true, false, ◌||◌, List, [], ◌∷◌, length, Option, none,
  some, if◌then◌else◌, ◌==◌, refl, ap, ◌∙◌, arith, subst, Bool-cases, Option-cases, inl, inr, ltb,
}
use spork_llvm.Unroll.Recognise.{same}
use spork_llvm.Unroll.Recognise.Accepted.{check-some, bind-some}
use spork_llvm.Unroll.Recognise.Follows.{some_inj}
use spork_llvm.Unroll.Marked.{
  nonempty, Blocks, Walk, is_in, leaves, max_marker_walk_depth, visit_loop, visit_bridge, visit_one,
  visit_all, walk_blocks, find_marked_loops,
}

-- The blocks below `n` that are not visited.
pub unvisited : ℕ → List ℕ → ℕ
unvisited zero visited = 0
unvisited (suc n) visited = (if is_in n visited then 0 else 1) + unvisited n visited

pub unvisited-le : (n : ℕ) (visited : List ℕ) → unvisited n visited ≤ n
unfolding unvisited
unvisited-le zero visited = omega arith
unvisited-le (suc n) visited = let ih = unvisited-le n visited in ground (arith, ih)

unvisited_mono : (n s : ℕ) (visited : List ℕ) → unvisited n (s ∷ visited) ≤ unvisited n visited
unfolding unvisited
unvisited_mono zero s visited = omega arith
unvisited_mono (suc n) s visited =
    let ih = unvisited_mono n s visited in
    elim (Bool-cases (n == s)) [
      | inl q ↦ rw q (elim (Bool-cases (is_in n visited)) [
        | inl e ↦ rw e (omega (arith, ih))
        | inr e ↦ rw e (omega (arith, ih))
      ])
      | inr q ↦ rw q (omega (arith, ih))
    ]

pub unvisited_visit :
    (n s : ℕ) (visited : List ℕ)
    → s < n
    → is_in s visited ≡ false
    → unvisited n (s ∷ visited) + 1 ≤ unvisited n visited
unfolding unvisited
unvisited_visit zero s visited h e = absurd (omega arith)
unvisited_visit (suc n) s visited h e = elim (Bool-cases (n == s)) [
  | inl q ↦
      let ih = unvisited_mono n s visited in
      let z : n ≡ s = ground arith in
      let e' : is_in n visited ≡ false = ap (λ x. is_in x visited) z ∙ e in
      rw (q, e') (omega (arith, ih))
  | inr q ↦ let ih = unvisited_visit n s visited (ground arith) e in rw q (omega (arith, ih))
]

abbrev pub Below : ℕ → List ℕ → Type 0
Below n [] = Unit {0}
Below n (s ∷ ss) = (s < n) × Below n ss

-- What is left to walk.
left_over : ℕ → Walk → ℕ
left_over n w = unvisited n w.visited + length w.work

bridge-left_over :
    (b : Blocks) (n depth s : ℕ) (w w' : Walk)
    → s < n
    → visit_bridge b depth s w ≡ some w'
    → left_over n w' ≤ left_over n w
unfolding visit_bridge left_over
bridge-left_over b n depth s w w' h e = elim (Bool-cases (is_in s w.visited || b.barrier s)) [
  | inl q ↦
      let e' = rw (q, visit_bridge) at e in
      let m = unvisited_mono n s w.visited in
      subst (λ x. unvisited n x.visited + length x.work ≤ unvisited n w.visited + length w.work)
        (some_inj _ w' e') (omega (arith, m))
  | inr q ↦
      let e' = rw (q, visit_bridge) at e in
      elim (Bool-cases (ltb max_marker_walk_depth (depth + 1))) [
        | inl d ↦ let e'' = rw d at e' in absurd cc
        | inr d ↦
            let e'' = rw d at e' in
            let m = unvisited_visit n s w.visited h (or_left (is_in s w.visited) (b.barrier s) q) in
            subst
              (λ x. unvisited n x.visited + length x.work ≤ unvisited n w.visited + length w.work)
              (some_inj _ w' e'') (omega (arith, m))
      ]
]
  where
    or_left : (x y : Bool) → (x || y) ≡ false → x ≡ false
    or_left true y p = absurd cc
    or_left false y p = refl

loop-left_over :
    (b : Blocks) (enclosing : Option ℕ) (n bb s : ℕ) (l : Option ℕ) (w w' : Walk)
    → visit_loop b enclosing bb s l w ≡ some w'
    → left_over n w' ≤ left_over n w
unfolding visit_loop left_over
loop-left_over b enclosing n bb s none w w' e =
    subst (λ x. unvisited n x.visited + length x.work ≤ unvisited n w.visited + length w.work)
      (some_inj w w' e) (omega arith)
loop-left_over b enclosing n bb s (some l) w w' e = elim (Bool-cases (leaves b enclosing l)) [
  | inl q ↦
      let e' = rw (q, visit_loop) at e in
      subst (λ x. unvisited n x.visited + length x.work ≤ unvisited n w.visited + length w.work)
        (some_inj w w' e') (omega arith)
  | inr q ↦
      let e' = rw (q, visit_loop) at e in
      let (c, e'') = check-some _ _ w' e' in
      subst (λ x. unvisited n x.visited + length x.work ≤ unvisited n w.visited + length w.work)
        (some_inj _ w' e'')
        (elim (Bool-cases (is_in l w.loops)) [
          | inl i ↦ rw i (omega arith)
          | inr i ↦ rw i (omega arith)
        ])
]

one-left_over :
    (b : Blocks) (enclosing : Option ℕ) (n bb depth s : ℕ) (w w' : Walk)
    → s < n
    → visit_one b enclosing bb depth s w ≡ some w'
    → left_over n w' ≤ left_over n w
unfolding visit_one
one-left_over b enclosing n bb depth s w w' h e =
    elim (Bool-cases (same (b.loop_for s) enclosing)) [
      | inl q ↦ let e' = rw (q, visit_one) at e in bridge-left_over b n depth s w w' h e'
      | inr q ↦
          let e' = rw (q, visit_one) at e in
          loop-left_over b enclosing n bb s (b.loop_for s) w w' e'
    ]

all-left_over :
    (b : Blocks) (enclosing : Option ℕ) (n bb depth : ℕ) (ss : List ℕ) (w w' : Walk)
    → Below n ss
    → visit_all b enclosing bb depth ss w ≡ some w'
    → left_over n w' ≤ left_over n w
unfolding visit_all
all-left_over b enclosing n bb depth [] w w' h e =
    subst (λ x. left_over n x ≤ left_over n w) (some_inj w w' e) (omega arith)
all-left_over b enclosing n bb depth (s ∷ ss) w w' h e =
    let (w₁, q, e₁) = bind-some (visit_one b enclosing bb depth s w) _ w' e in
    let first = one-left_over b enclosing n bb depth s w w₁ h.0 q in
    let rest = all-left_over b enclosing n bb depth ss w₁ w' h.1 e₁ in omega (arith, first, rest)

module _ (b : Blocks) (enclosing : Option ℕ) (n : ℕ)
    (finite : (s : ℕ) → Below n (b.successors s)) where
  walk_blocks-enough :
      (fuel : ℕ) (work : List (ℕ × ℕ)) (w : Walk)
      → unvisited n w.visited + length work + 1 ≤ fuel
      → (r : Option (List ℕ)) × ((more : ℕ)
          → fuel ≤ more
          → walk_blocks more b enclosing work w ≡ some r)
  unfolding walk_blocks left_over
  walk_blocks-enough zero work w h = absurd (omega arith)
  walk_blocks-enough (suc fuel) [] w h = (nonempty w.loops, ends)
    where
      ends :
          (more : ℕ) → suc fuel ≤ more → walk_blocks more b enclosing [] w ≡ some (nonempty w.loops)
      ends zero le = absurd (omega arith)
      ends (suc more) le = refl
  walk_blocks-enough (suc fuel) ((bb, depth) ∷ work) w h =
      elim (Option-cases
        (visit_all b enclosing bb depth (b.successors bb) (record w { work = work }))) [
          | inl q ↦ (none, refused q)
          | inr (w', q) ↦
              let m =
                all-left_over b enclosing n bb depth (b.successors bb) (record w { work = work }) w'
                  (finite bb) q in
              let (r, e) = walk_blocks-enough fuel w'.work w' (omega (arith, h, m)) in
              (r, walked w' q r e)
        ]
    where
      refused :
          visit_all b enclosing bb depth (b.successors bb) (record w { work = work }) ≡ none
          → (more : ℕ) → suc fuel ≤ more
          → walk_blocks more b enclosing ((bb, depth) ∷ work) w ≡ some none
      refused q zero le = absurd (omega arith)
      refused q (suc more) le = rw q refl

      walked :
          (w' : Walk)
          → visit_all b enclosing bb depth (b.successors bb) (record w { work = work }) ≡ some w'
          → (r : Option (List ℕ))
          → ((more : ℕ) → fuel ≤ more → walk_blocks more b enclosing w'.work w' ≡ some r)
          → (more : ℕ) → suc fuel ≤ more
          → walk_blocks more b enclosing ((bb, depth) ∷ work) w ≡ some r
      walked w' q r e zero le = absurd (omega arith)
      walked w' q r e (suc more) le = rw q (e more (omega arith))

-- On a function whose successors are numbered below `n` the walk of `findMarkedLoops` ends, with some
-- loops or by `return false`: every fuel of at least `n + 2` gives that one result.
pub find_marked_loops-enough :
    (b : Blocks) (start n : ℕ)
    → ((s : ℕ) → Below n (b.successors s))
    → (r : Option (List ℕ)) × ((fuel : ℕ) → n + 2 ≤ fuel → find_marked_loops fuel b start ≡ some r)
unfolding find_marked_loops
find_marked_loops-enough b start n finite =
    let le = unvisited-le n (start ∷ []) in
    walk_blocks-enough b (b.loop_for start) n finite (n + 2) ((start, 0) ∷ [])
      (record { visited = start ∷ []; work = []; loops = [] }) (omega (arith, le))

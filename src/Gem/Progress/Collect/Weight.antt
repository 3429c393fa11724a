-- ===== src/Gem/Progress/Collect/Weight.antt =====
-- gempass, `collectDependentLoads`: how much there is still to visit.
use spork_llvm.Base.{
  ℕ, zero, suc, ◌+◌, ◌≤◌, ◌≡◌, true, false, ◌||◌, List, [], ◌∷◌, some, refl, ap, ◌∙◌, arith, ◌==◌,
  Bool-cases, inl, inr, get_elem?, if◌then◌else◌, subst,
}
use spork_llvm.Unroll.Recognise.Follows.{some_inj}
use spork_llvm.Gem.Progress.{Node, is_visited, node_size, graph_size}

-- What is still to come: the values from the `k`th on that are not visited, with their operands.
pub weight : List Node → ℕ → List ℕ → ℕ
weight [] k visited = 0
weight (n ∷ g) k visited =
    (if is_visited k visited then 0 else node_size n) + weight g (k + 1) visited

pub weight_mono :
    (g : List Node) (k v : ℕ) (visited : List ℕ) → weight g k (v ∷ visited) ≤ weight g k visited
unfolding weight
weight_mono [] k v visited = omega arith
weight_mono (n ∷ g) k v visited =
    let ih = weight_mono g (k + 1) v visited in
    elim (Bool-cases (v == k)) [
      | inl q ↦ rw q (elim (Bool-cases (is_visited k visited)) [
        | inl e ↦ rw e (omega (arith, ih))
        | inr e ↦ rw e (omega (arith, ih))
      ])
      | inr q ↦ rw q (omega (arith, ih))
    ]

pub weight-visit :
    (g : List Node) (k i v : ℕ) (n : Node) (visited : List ℕ)
    → k + i ≡ v
    → get_elem? g i ≡ some n
    → is_visited v visited ≡ false
    → weight g k (v ∷ visited) + node_size n ≤ weight g k visited
unfolding weight
weight-visit [] k i v n visited h e f = absurd cc
weight-visit (m ∷ g) k zero v n visited h e f =
    let mn : m ≡ n = some_inj m n e in
    let kv : k ≡ v = omega (arith, h) in
    let q : (v == k) ≡ true = ground (arith, kv) in
    let z : is_visited k visited ≡ false = ap (λ x. is_visited x visited) kv ∙ f in
    let ih = weight_mono g (k + 1) v visited in
    subst
      (λ x.
        (if v == k || is_visited k visited then 0 else node_size m)
          + weight g (k + 1) (v ∷ visited)
          + node_size x
        ≤ (if is_visited k visited then 0 else node_size m) + weight g (k + 1) visited)
      mn (rw (q, z) (omega (arith, ih)))
weight-visit (m ∷ g) k (suc i) v n visited h e f =
    let q : (v == k) ≡ false = ground (arith, h) in
    let ih = weight-visit g (k + 1) i v n visited (omega (arith, h)) e f in rw q (omega (arith, ih))

pub weight-nil : (g : List Node) (k : ℕ) → weight g k [] ≡ graph_size g
unfolding weight
weight-nil [] k = refl
weight-nil (n ∷ g) k = let ih = weight-nil g (k + 1) in omega (arith, ih)

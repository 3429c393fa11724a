-- ===== src/Fork/Races.antt =====
-- A program whose `par` branches do not interfere computes what `parSeq` does.
use spork_llvm.Base.{List, [], ◌∷◌, ◌++◌, ◌≡◌, refl, ap, ◌∙◌}
use spork_llvm.Fork.{
  Prog, act, andthen, par, Interleaved, done, left, right, Trace, acts, then_, here, thief, run,
  par_seq,
}

module _ {St : Type 0} where
  abbrev pub Commute : (St → St) → (St → St) → Type 0
  Commute f g = (s : St) → f (g s) ≡ g (f s)

  -- `R` holds of every single access of a program.
  abbrev pub Each : ((St → St) → Type 0) → Prog St → Type 0
  Each R (act f) = R f
  Each R (andthen p q) = Each R p × Each R q
  Each R (par p q) = Each R p × Each R q

  -- No access of one branch of a `par` interferes with an access of the other.
  abbrev pub RaceFree : Prog St → Type 0
  RaceFree (act f) = Unit {0}
  RaceFree (andthen p q) = RaceFree p × RaceFree q
  RaceFree (par p q) = RaceFree p × RaceFree q × Each (λ f. Each (Commute f) q) p

  abbrev EachIn : ((St → St) → Type 0) → List (St → St) → Type 0
  EachIn R [] = Unit {0}
  EachIn R (f ∷ fs) = R f × EachIn R fs

  EachIn-append :
      (R : (St → St) → Type 0) (xs ys : List (St → St))
      → EachIn R xs
      → EachIn R ys
      → EachIn R (xs ++ ys)
  EachIn-append R [] ys a b = b
  EachIn-append R (f ∷ xs) ys a b = (a.0, EachIn-append R xs ys a.1 b)

  EachIn-Interleaved :
      (R : (St → St) → Type 0) {xs ys zs : List (St → St)}
      → Interleaved xs ys zs
      → EachIn R xs
      → EachIn R ys
      → EachIn R zs
  EachIn-Interleaved R done a b = tt
  EachIn-Interleaved R (left i) a b = (a.0, EachIn-Interleaved R i a.1 b)
  EachIn-Interleaved R (right i) a b = (b.0, EachIn-Interleaved R i a b.1)

  Trace-Each :
      (R : (St → St) → Type 0) {p : Prog St} {xs : List (St → St)}
      → Trace p xs
      → Each R p
      → EachIn R xs
  Trace-Each R (acts f) a = (a, tt)
  Trace-Each R (then_ {xs} {ys} t u) a =
      EachIn-append R xs ys (Trace-Each R t a.0) (Trace-Each R u a.1)
  Trace-Each R (here {xs} {ys} t u) a =
      EachIn-append R xs ys (Trace-Each R t a.0) (Trace-Each R u a.1)
  Trace-Each R (thief t u i) a = EachIn-Interleaved R i (Trace-Each R t a.0) (Trace-Each R u a.1)

  run-append : (xs ys : List (St → St)) (s : St) → run (xs ++ ys) s ≡ run ys (run xs s)
  unfolding run
  run-append [] ys s = refl
  run-append (f ∷ xs) ys s = run-append xs ys (f s)

  -- A step moves past a thread that it does not interfere with.
  run-past :
      (f : St → St) (xs : List (St → St)) (s : St)
      → EachIn (λ g. Commute g f) xs
      → run xs (f s) ≡ f (run xs s)
  unfolding run
  run-past f [] s a = refl
  run-past f (g ∷ xs) s a = ap (run xs) (a.0 s) ∙ run-past f xs (g s) a.1

  EachIn-map :
      {R R' : (St → St) → Type 0} (xs : List (St → St))
      → ((f : St → St) → R f → R' f)
      → EachIn R xs
      → EachIn R' xs
  EachIn-map [] h a = tt
  EachIn-map (f ∷ xs) h a = (h f a.0, EachIn-map xs h a.1)

  run-Interleaved :
      {xs ys zs : List (St → St)} (s : St)
      → Interleaved xs ys zs
      → EachIn (λ f. EachIn (Commute f) ys) xs
      → run zs s ≡ run ys (run xs s)
  unfolding run
  run-Interleaved s done a = refl
  run-Interleaved s (left {f} i) a = run-Interleaved (f s) i a.1
  run-Interleaved s (right {f} {xs} {ys} i) a =
      run-Interleaved (f s) i (EachIn-map xs (λ g h. h.1) a)
      ∙ ap (run ys) (run-past f xs s (EachIn-map xs (λ g h. h.0) a))

  Each-map :
      {R R' : (St → St) → Type 0} (p : Prog St)
      → ((f : St → St) → R f → R' f)
      → Each R p
      → Each R' p
  Each-map (act f) h a = h f a
  Each-map (andthen p q) h a = (Each-map p h a.0, Each-map q h a.1)
  Each-map (par p q) h a = (Each-map p h a.0, Each-map q h a.1)

  -- Every run of a program without races, whatever is promoted and whatever is stolen at which
  -- moment, leaves the state that the program leaves with `parSeq` for `par`.
  pub par-par_seq :
      {p : Prog St} {ts : List (St → St)} (s : St)
      → RaceFree p
      → Trace p ts
      → run ts s ≡ par_seq p s
  unfolding run par_seq
  par-par_seq s free (acts f) = refl
  par-par_seq s free (then_ {q} {xs} {ys} t u) =
      run-append xs ys s ∙ par-par_seq (run xs s) free.1 u ∙ ap (par_seq q) (par-par_seq s free.0 t)
  par-par_seq s free (here {q} {xs} {ys} t u) =
      run-append xs ys s ∙ par-par_seq (run xs s) free.1 u ∙ ap (par_seq q) (par-par_seq s free.0 t)
  par-par_seq s free (thief {p} {q} {xs} {ys} t u i) =
      run-Interleaved s i (Trace-Each _ t (Each-map p (λ f h. Trace-Each (Commute f) u h) free.2))
      ∙ par-par_seq (run xs s) free.1 u
      ∙ ap (par_seq q) (par-par_seq s free.0 t)

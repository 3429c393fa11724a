-- ===== src/Slots/Chain.antt =====
-- The list of slots that the pointers of a spork deque represent, outermost slot first.
use spork_llvm.Base.{
  ℕ, Bool, Option, none, some, List, [], ◌∷◌, ◌≡◌, ◌≢◌, ◌++◌, refl, arith, ℕ_discrete, sym, ◌∙◌,
}
use spork_llvm.Slots.{SporkSlot, Memory, Thread, front, write}

pub record Entry : Type 0 where
  pub address : ℕ
  pub promoted : Bool
  pub promfn : ℕ

abbrev pub next_of : Memory → ℕ → Option ℕ
next_of m a = elim (m a) [ none ↦ none | some s ↦ s.next ]

-- No entry lies at address `a`.
abbrev pub Apart : ℕ → List Entry → Type 0
Apart a [] = Unit {0}
Apart a (x ∷ xs) = (a ≢ x.address) × Apart a xs

-- The slot at the entry's address holds what the entry says; `p` is the slot before it.
pub record Holds (m : Memory) (p : ℕ) (x : Entry) : Type 0 where
  pub next : Option ℕ
  pub is_slot :
      m x.address
      ≡ some (record { promoted = x.promoted; promfn = x.promfn; prev = some p; next = next })

-- From the slot at `a`, pointers to `next` lead through the slots `xs` to the slot at `b`.
abbrev pub Linked : Memory → ℕ → List Entry → ℕ → Type 0
Linked m a [] b = a ≡ b
Linked m a (x ∷ xs) b =
    (next_of m a ≡ some x.address) × Holds m a x × Apart a (x ∷ xs) × Linked m x.address xs b

-- The deque of a thread, with a live sentinel.
pub record IsDeque {E : Type 0} (t : Thread E) (xs : List Entry) : Type 0 where
  pub last : ℕ
  pub is_back : t.back ≡ some last
  pub sentinel : SporkSlot
  pub is_sentinel : t.slots front ≡ some sentinel
  pub linked : Linked t.slots front xs last

pub write_self : (m : Memory) (a : ℕ) (s : SporkSlot) → write m a s a ≡ some s
unfolding write
write_self m a s = ground arith

pub write-ne : (m : Memory) (a c : ℕ) (s : SporkSlot) → a ≢ c → write m a s c ≡ m c
unfolding write
write-ne m a c s n = ground arith

-- A write away from the slots leaves them linked.
pub frame :
    (m : Memory) (c : ℕ) (s : SporkSlot) (a b : ℕ) (xs : List Entry)
    → c ≢ a
    → Apart c xs
    → Linked m a xs b
    → Linked (write m c s) a xs b
frame m c s a b [] n f l = l
frame m c s a b (x ∷ xs) n f l = (
  rw (write-ne m c a s n, next_of) l.0,
  record { next = l.1.next; is_slot = write-ne m c x.address s f.0 ∙ l.1.is_slot },
  l.2,
  frame m c s x.address b xs f.0 f.1 l.3,
)

-- So does a write to the first slot that keeps its `next`.
pub frame_start :
    (m : Memory) (s : SporkSlot) (a b : ℕ) (xs : List Entry)
    → next_of m a ≡ s.next
    → Linked m a xs b
    → Linked (write m a s) a xs b
frame_start m s a b [] e l = l
frame_start m s a b (x ∷ xs) e l = (
  rw (write_self m a s, next_of) (sym e ∙ l.0),
  record { next = l.1.next; is_slot = write-ne m a x.address s l.2.0 ∙ l.1.is_slot },
  l.2,
  frame m a s x.address b xs l.2.0 l.2.1 l.3,
)

pub last-ne :
    (m : Memory) (c a b : ℕ) (x : Entry) (xs : List Entry)
    → Apart c (x ∷ xs)
    → Linked m a (x ∷ xs) b
    → c ≢ b
last-ne m c a b x [] n l = rw (← l.3) n.0
last-ne m c a b x (y ∷ ys) n l = last-ne m c x.address b y ys n.1 l.3

-- And a write to the last slot that keeps all but its `next`.
pub frame_last :
    (m : Memory) (a b : ℕ) (xs : List Entry) (s : SporkSlot) (next : Option ℕ)
    → m b ≡ some s
    → Linked m a xs b
    → Linked (write m b (record s { next = next })) a xs b
frame_last m a b [] s next e l = l
frame_last m a b (x ∷ xs) s next e l = (
  rw (write-ne m b a _ (λ q. last-ne m a a b x xs l.2 l (sym q)), next_of) l.0,
  elim (ℕ_discrete b x.address) [
    | yes q ↦ record { next = next; is_slot = is_last q }
    | no n ↦ record { next = l.1.next; is_slot = write-ne m b x.address _ n ∙ l.1.is_slot }
  ],
  l.2,
  frame_last m x.address b xs s next e l.3,
)
  where
    is_last :
        b ≡ x.address
        → write m b (record s { next = next }) x.address
          ≡ some (record { promoted = x.promoted; promfn = x.promfn; prev = some a; next = next })
    is_last q = rw (← q, write_self) (ground (arith, l.1.is_slot))

Apart-snoc :
    (a : ℕ) (xs : List Entry) (x : Entry) → Apart a xs → a ≢ x.address → Apart a (xs ++ x ∷ [])
Apart-snoc a [] x n q = (q, tt)
Apart-snoc a (y ∷ ys) x n q = (n.0, Apart-snoc a ys x n.1 q)

Apart-init : (a : ℕ) (xs : List Entry) (x : Entry) → Apart a (xs ++ x ∷ []) → Apart a xs
Apart-init a [] x n = tt
Apart-init a (y ∷ ys) x n = (n.0, Apart-init a ys x n.1)

-- One more slot behind the last.
pub Linked-snoc :
    (m : Memory) (a b : ℕ) (xs : List Entry) (x : Entry)
    → x.address ≢ a
    → Apart x.address xs
    → Linked m a xs b
    → next_of m b ≡ some x.address
    → Holds m b x
    → Linked m a (xs ++ x ∷ []) x.address
Linked-snoc m a b [] x n ap l e h = (rw l e, rw l h, (λ q. n (sym q), tt), refl)
Linked-snoc m a b (y ∷ ys) x n ap l e h = (
  l.0,
  l.1,
  Apart-snoc a (y ∷ ys) x l.2 (λ q. n (sym q)),
  Linked-snoc m y.address b ys x ap.0 ap.1 l.3 e h,
)

pub end-ne :
    (m : Memory) (c a b : ℕ) (xs : List Entry) → c ≢ a → Apart c xs → Linked m a xs b → c ≢ b
end-ne m c a b [] n f l = rw (← l) n
end-ne m c a b (x ∷ xs) n f l = end-ne m c x.address b xs f.0 f.1 l.3

Apart-last : (a : ℕ) (xs : List Entry) (x : Entry) → Apart a (xs ++ x ∷ []) → a ≢ x.address
Apart-last a [] x n = n.0
Apart-last a (y ∷ ys) x n = Apart-last a ys x n.1

-- The last slot taken off.
pub record Init (m : Memory) (a b : ℕ) (xs : List Entry) (x : Entry) : Type 0 where
  pub before : ℕ
  pub linked : Linked m a xs before
  pub next : next_of m before ≡ some x.address
  pub holds : Holds m before x
  pub is_last : x.address ≡ b
  pub ne_start : x.address ≢ a
  pub apart : Apart x.address xs

pub Linked-but_last :
    (m : Memory) (a b : ℕ) (xs : List Entry) (x : Entry)
    → Linked m a (xs ++ x ∷ []) b
    → Init m a b xs x
Linked-but_last m a b [] x l = record {
  before = a;
  linked = refl;
  next = l.0;
  holds = l.1;
  is_last = l.3;
  ne_start = λ q. l.2.0 (sym q);
  apart = tt;
}
Linked-but_last m a b (y ∷ ys) x l =
    let r = Linked-but_last m y.address b ys x l.3 in
    record {
      before = r.before;
      linked = (l.0, l.1, Apart-init a (y ∷ ys) x l.2, r.linked);
      next = r.next;
      holds = r.holds;
      is_last = r.is_last;
      ne_start = λ q. Apart-last a (y ∷ ys) x l.2 (sym q);
      apart = (r.ne_start, r.apart);
    }

-- The slot at the back is live.
pub live_last :
    (m : Memory) (a b : ℕ) (xs : List Entry) (s : SporkSlot)
    → m a ≡ some s
    → Linked m a xs b
    → (z : SporkSlot) × (m b ≡ some z)
live_last m a b [] s e l = (s, rw (← l) e)
live_last m a b (x ∷ xs) s e l =
    live_last m x.address b xs
      (record { promoted = x.promoted; promfn = x.promfn; prev = some a; next = l.1.next })
      l.1.is_slot l.3

-- A write keeps live slots live.
pub live_write :
    (m : Memory) (b c : ℕ) (s z : SporkSlot)
    → m c ≡ some z
    → (y : SporkSlot) × (write m b s c ≡ some y)
live_write m b c s z e = elim (ℕ_discrete b c) [
  | yes q ↦ (s, rw (← q) (write_self m b s))
  | no n ↦ (z, write-ne m b c s n ∙ e)
]

-- ===== src/Slots/Walk.antt =====
-- `promote_front` on the represented list: it promotes the outermost slots that are not promoted
-- yet, one token each, until the tokens or the slots run out.
use spork_llvm.Base.{
  ℕ, suc, true, false, Option, some, List, [], ◌∷◌, ◌≡◌, ◌≢◌, refl, sym, ◌∙◌, arith, ◌==◌, sub32,
  if◌then◌else◌, length, Bool-cases, inl, inr,
}
use spork_llvm.Slots.{
  SporkSlot, Thread, Run, ok, front, write, run_promfn, promote, visit_slot, walk, promote_front,
}
use spork_llvm.Slots.Chain.{
  Entry, Apart, Holds, Linked, IsDeque, next_of, last-ne, write_self, write-ne, frame_start,
}

module _ {E : Type 0} (call : ℕ → ℕ × E → ℕ × E) where
  -- The list and the tokens and the rest of the thread after the walk.
  abbrev pub Walked : Type 0
  Walked = List Entry × (ℕ × E)

  abbrev pub visit : Entry → ℕ × E → ℕ × E
  visit x e = if x.promoted then e else call x.promfn (sub32 e.0 1, e.1)

  abbrev pub mark : Entry → Walked → Walked
  mark x r = (record x { promoted = true } ∷ r.0, r.1)

  unfoldable pub promote_list : List Entry → ℕ × E → Walked
  promote_list [] e = ([], e)
  promote_list (x ∷ xs) e =
      let rest = mark x (promote_list xs (visit x e)) in if e.0 == 0 then (x ∷ xs, e) else rest

  -- What the visit of the slot at `x` leaves behind; `a` is the slot before it.
  record Visited (t : Thread E) (a b : ℕ) (x : Entry) (xs : List Entry) : Type 0 where
    out : Thread E
    ran : visit_slot call (some x.address) t ≡ ok out
    head : next_of out.slots a ≡ some x.address
    holds : Holds out.slots a (record x { promoted = true })
    linked : Linked out.slots x.address xs b
    env : (out.tokens, out.rest) ≡ visit x (t.tokens, t.rest)
    outside : (c : ℕ) → c ≢ x.address → out.slots c ≡ t.slots c
    same_back : out.back ≡ t.back
    same_disabled : out.disabled ≡ t.disabled

  visit_slot-Visited :
      (t : Thread E) (a b : ℕ) (x : Entry) (xs : List Entry)
      → Linked t.slots a (x ∷ xs) b
      → Visited t a b x xs
  unfolding visit_slot promote
  visit_slot-Visited t a b x xs l = elim (Bool-cases x.promoted) [
    | inl old ↦ record {
      out = t;
      ran = ground (arith, l.1.is_slot);
      head = l.0;
      holds = record { next = l.1.next; is_slot = rw (← old) l.1.is_slot };
      linked = l.3;
      env = rw old;
      outside = λ c n. refl;
      same_back = refl;
      same_disabled = refl;
    }
    | inr fresh ↦
        let s : SporkSlot = record {
          promoted = true;
          promfn = x.promfn;
          prev = some a;
          next = l.1.next;
        } in
        let t₁ : Thread E = record t {
          tokens = sub32 t.tokens 1;
          slots = write t.slots x.address s;
        } in
        record {
          out = run_promfn call x.promfn t₁;
          ran = ground (arith, l.1.is_slot);
          head = rw (write-ne t.slots x.address a s (λ e. l.2.0 (sym e)), next_of) l.0;
          holds = record { next = l.1.next; is_slot = write_self t.slots x.address s };
          linked = frame_start t.slots s x.address b xs (ground (arith, l.1.is_slot)) l.3;
          env = rw fresh;
          outside = λ c n. write-ne t.slots x.address c s (λ e. n (sym e));
          same_back = refl;
          same_disabled = refl;
        }
  ]

  record Result (t : Thread E) (a b : ℕ) (xs : List Entry) (r : Run (Thread E)) : Type 0 where
    out : Thread E
    ran : r ≡ ok out
    linked : Linked out.slots a (promote_list xs (t.tokens, t.rest)).0 b
    env : (out.tokens, out.rest) ≡ (promote_list xs (t.tokens, t.rest)).1
    outside : (c : ℕ) → Apart c xs → out.slots c ≡ t.slots c
    same_back : out.back ≡ t.back
    same_disabled : out.disabled ≡ t.disabled

  promote_list-none :
      (x : Entry) (xs : List Entry) (e : ℕ × E)
      → (e.0 == 0) ≡ true
      → promote_list (x ∷ xs) e ≡ (x ∷ xs, e)
  unfolding promote_list
  promote_list-none x xs e h = rw h

  promote_list-more :
      (x : Entry) (xs : List Entry) (e : ℕ × E)
      → (e.0 == 0) ≡ false
      → promote_list (x ∷ xs) e ≡ mark x (promote_list xs (visit x e))
  unfolding promote_list
  promote_list-more x xs e h = rw h

  Apart-promote_list :
      (a : ℕ) (xs : List Entry) (e : ℕ × E) → Apart a xs → Apart a (promote_list xs e).0
  unfolding promote_list
  Apart-promote_list a [] e n = n
  Apart-promote_list a (x ∷ xs) e n = elim (Bool-cases (e.0 == 0)) [
    | inl h ↦ rw h n
    | inr h ↦ rw h (n.0, Apart-promote_list a xs (visit x e) n.1)
  ]

  walk-none :
      (fuel : ℕ) (slot : Option ℕ) (t : Thread E)
      → (t.tokens == 0) ≡ true
      → walk call (suc fuel) slot t ≡ ok t
  unfolding walk
  walk-none fuel slot t h = ground arith

  walk-last :
      (fuel : ℕ) (x : Entry) (p : ℕ) (t t₁ : Thread E)
      → (t.tokens == 0) ≡ false
      → visit_slot call (some x.address) t ≡ ok t₁
      → Holds t₁.slots p x
      → t₁.back ≡ some x.address
      → walk call (suc fuel) (some x.address) t ≡ ok t₁
  unfolding walk
  walk-last fuel x p t t₁ h v holds e = ground (arith, holds.is_slot)

  walk-next :
      (fuel : ℕ) (x : Entry) (p b : ℕ) (t t₁ : Thread E) (holds : Holds t₁.slots p x)
      → (t.tokens == 0) ≡ false
      → visit_slot call (some x.address) t ≡ ok t₁
      → t₁.back ≡ some b
      → x.address ≢ b
      → walk call (suc fuel) (some x.address) t ≡ walk call fuel holds.next t₁
  unfolding walk
  walk-next fuel x p b t t₁ holds h v e n = ground (arith, holds.is_slot)

  stopped :
      (xs : List Entry) (x : Entry) (t : Thread E) (a b : ℕ)
      → (t.tokens == 0) ≡ true
      → Linked t.slots a (x ∷ xs) b
      → Result t a b (x ∷ xs) (walk call (length (x ∷ xs)) (some x.address) t)
  stopped xs x t a b out l = record {
    out = t;
    ran = walk-none _ _ t out;
    linked = rw (promote_list-none x xs (t.tokens, t.rest) out) l;
    env = rw (promote_list-none x xs (t.tokens, t.rest) out);
    outside = λ c n. refl;
    same_back = refl;
    same_disabled = refl;
  }

  -- The slot at the back: the walk stops behind it.
  at_back :
      (x : Entry) (t : Thread E) (a b : ℕ)
      → (t.tokens == 0) ≡ false
      → t.back ≡ some b
      → Linked t.slots a (x ∷ []) b
      → Result t a b (x ∷ []) (walk call 1 (some x.address) t)
  unfolding promote_list
  at_back x t a b more e l =
      let v = visit_slot-Visited t a b x [] l in
      let p = promote_list-more x [] (t.tokens, t.rest) more in
      record {
        out = v.out;
        ran =
            walk-last 0 (record x { promoted = true }) a t v.out more v.ran v.holds
              (rw l.3 (v.same_back ∙ e));
        linked = rw (p, promote_list) (v.head, v.holds, l.2, v.linked);
        env = rw (p, promote_list) v.env;
        outside = λ c n. v.outside c n.0;
        same_back = v.same_back;
        same_disabled = v.same_disabled;
      }

  -- A slot before the back: the walk goes on.
  before_back :
      (y : Entry) (ys : List Entry) (x : Entry) (t : Thread E) (a b : ℕ)
      → (t.tokens == 0) ≡ false
      → t.back ≡ some b
      → Linked t.slots a (x ∷ y ∷ ys) b
      → (v : Visited t a b x (y ∷ ys))
      → Result v.out x.address b (y ∷ ys) (walk call (length (y ∷ ys)) (some y.address) v.out)
      → Result t a b (x ∷ y ∷ ys) (walk call (length (x ∷ y ∷ ys)) (some x.address) t)
  before_back y ys x t a b more e l v r =
      let p = promote_list-more x (y ∷ ys) (t.tokens, t.rest) more in
      let some_next : v.holds.next ≡ some y.address = ground (arith, v.holds.is_slot, v.linked.0) in
      record {
        out = r.out;
        ran =
            walk-next (length (y ∷ ys)) (record x { promoted = true }) a b t v.out v.holds more
              v.ran (v.same_back ∙ e)
              (last-ne v.out.slots x.address x.address b y ys v.linked.2 v.linked)
            ∙ rw (some_next, r.ran);
        linked =
            rw (p, ← v.env)
              (
                rw (r.outside a l.2.1, next_of) v.head,
                record {
                  next = v.holds.next;
                  is_slot = r.outside x.address v.linked.2 ∙ v.holds.is_slot;
                },
                (l.2.0, Apart-promote_list a (y ∷ ys) (v.out.tokens, v.out.rest) l.2.1),
                r.linked,
              );
        env = rw (p, ← v.env) r.env;
        outside = λ c n. r.outside c n.1 ∙ v.outside c n.0;
        same_back = r.same_back ∙ v.same_back;
        same_disabled = r.same_disabled ∙ v.same_disabled;
      }

  walk-Result :
      (xs : List Entry) (x : Entry) (t : Thread E) (a b : ℕ)
      → t.back ≡ some b
      → Linked t.slots a (x ∷ xs) b
      → Result t a b (x ∷ xs) (walk call (length (x ∷ xs)) (some x.address) t)
  walk-Result [] x t a b e l = elim (Bool-cases (t.tokens == 0)) [
    | inl out ↦ stopped [] x t a b out l
    | inr more ↦ at_back x t a b more e l
  ]
  walk-Result (y ∷ ys) x t a b e l = elim (Bool-cases (t.tokens == 0)) [
    | inl out ↦ stopped (y ∷ ys) x t a b out l
    | inr more ↦
        let v = visit_slot-Visited t a b x (y ∷ ys) l in
        before_back y ys x t a b more e l v
          (walk-Result ys y v.out x.address b (v.same_back ∙ e) v.linked)
  ]

  -- What `promote_front` does to the thread, told of the list.
  pub record Promotes (t : Thread E) (xs : List Entry) (r : Run (Thread E)) : Type 0 where
    pub out : Thread E
    pub ran : r ≡ ok out
    pub deque : IsDeque out (promote_list xs (t.tokens, t.rest)).0
    pub env : (out.tokens, out.rest) ≡ (promote_list xs (t.tokens, t.rest)).1
    pub same_disabled : out.disabled ≡ t.disabled

  front-step :
      (x : Entry) (xs : List Entry) (t : Thread E) (d : IsDeque t (x ∷ xs)) (u : Thread E)
      → walk call (length (x ∷ xs)) (some x.address) t ≡ ok u
      → promote_front call (length (x ∷ xs)) t ≡ ok u
  unfolding promote_front
  front-step x xs t d u e =
      let ne : front ≢ d.last = last-ne t.slots front front d.last x xs d.linked.2 d.linked in
      let next : d.sentinel.next ≡ some x.address = ground (arith, d.is_sentinel, d.linked.0) in
      ground (arith, d.is_back, d.is_sentinel)

  -- With as much fuel as there are slots the walk ends, follows no dangling pointer, and leaves
  -- the slots, the tokens and the rest of the thread as `promote_list` says.
  pub promote_front-Promotes :
      (xs : List Entry) (t : Thread E)
      → IsDeque t xs
      → Promotes t xs (promote_front call (length xs) t)
  unfolding promote_front promote_list
  promote_front-Promotes [] t d = record {
    out = t;
    ran = ground (arith, d.is_back);
    deque = d;
    env = refl;
    same_disabled = refl;
  }
  promote_front-Promotes (x ∷ xs) t d =
      let r = walk-Result xs x t front d.last d.is_back d.linked in
      record {
        out = r.out;
        ran = front-step x xs t d r.out r.ran;
        deque = record {
          last = d.last;
          is_back = r.same_back ∙ d.is_back;
          sentinel = d.sentinel;
          is_sentinel = r.outside front d.linked.2 ∙ d.is_sentinel;
          linked = r.linked;
        };
        env = r.env;
        same_disabled = r.same_disabled;
      }

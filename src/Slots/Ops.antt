-- ===== src/Slots/Ops.antt =====
-- The constructor of a slot, `close`, `eager_promote` and `heartbeat_handler`, told of the list
-- that the deque represents.
use spork_llvm.Base.{
  ℕ, Bool, true, false, not, ◌&&◌, ◌||◌, none, some, ◌<◌, ◌-◌, ◌^◌, List, [], ◌∷◌, ◌++◌, ◌≡◌, ◌≢◌,
  refl, sym, ap, add32, ◌∙◌, arith, ◌==◌, sub32, if◌then◌else◌, length, Bool-cases, inl, inr,
}
use spork_llvm.Slots.{
  SporkSlot, Memory, Thread, ok, front, write, reset, push_slot, close, eager_promote,
  heartbeat_handler, refill, promote_front, max_heartbeat_tokens,
}
use spork_llvm.Slots.Chain.{
  Entry, Apart, IsDeque, next_of, frame, frame_last, write_self, write-ne, Linked-snoc,
  Linked-but_last, end-ne, live_last, live_write,
}
use spork_llvm.Slots.Walk.{promote_list, promote_front-Promotes}

abbrev pub fresh_entry : ℕ → ℕ → Entry
fresh_entry a fn = record { address = a; promoted = false; promfn = fn }

module _ {E : Type 0} where
  pub reset-IsDeque : (t : Thread E) (s : SporkSlot) → t.slots front ≡ some s → IsDeque (reset t) []
  unfolding reset
  reset-IsDeque t s e = record {
    last = front;
    is_back = refl;
    sentinel = s;
    is_sentinel = e;
    linked = refl;
  }

  -- Two states that differ in the slots and the back of the deque only.
  pub record SameRest (t u : Thread E) : Type 0 where
    pub tokens : u.tokens ≡ t.tokens
    pub disabled : u.disabled ≡ t.disabled
    pub num : u.num_heartbeats ≡ t.num_heartbeats
    pub missed : u.missed_heartbeats ≡ t.missed_heartbeats
    pub rest : u.rest ≡ t.rest

  pub record Pushes (t : Thread E) (xs : List Entry) (a fn : ℕ) : Type 0 where
    pub out : Thread E
    pub ran : push_slot a fn t ≡ ok out
    pub deque : IsDeque out (xs ++ fresh_entry a fn ∷ [])
    pub same : SameRest t out

  -- A slot that is built at an address of its own becomes the last of the deque, not promoted.
  pub push_slot-Pushes :
      (t : Thread E) (xs : List Entry) (a fn : ℕ)
      → IsDeque t xs
      → a ≢ front
      → Apart a xs
      → Pushes t xs a fn
  unfolding push_slot
  push_slot-Pushes t xs a fn d n ap =
      let new : SporkSlot = record { promoted = false; promfn = fn; prev = t.back; next = none } in
      let m : Memory = write t.slots a new in
      let ne : a ≢ d.last = end-ne t.slots a front d.last xs n ap d.linked in
      let (z, live) = live_last t.slots front d.last xs d.sentinel d.is_sentinel d.linked in
      let lives : m d.last ≡ some z = write-ne t.slots a d.last new ne ∙ live in
      let back : SporkSlot = record z { next = some a } in
      let m' : Memory = write m d.last back in
      let at_front : m front ≡ some d.sentinel = write-ne t.slots a front new n ∙ d.is_sentinel in
      let kept = live_write m d.last front back d.sentinel at_front in
      record {
        out = record t { slots = m'; back = some a };
        ran = ground (arith, d.is_back, lives);
        deque = record {
          last = a;
          is_back = refl;
          sentinel = kept.0;
          is_sentinel = kept.1;
          linked =
              Linked-snoc m' front d.last xs (fresh_entry a fn) n ap
                (frame_last m front d.last xs z (some a) lives
                  (frame t.slots a new front d.last xs n ap d.linked))
                (rw (write_self m d.last back, next_of))
                (record {
                  next = none;
                  is_slot =
                      write-ne m d.last a back (λ q. ne (sym q))
                      ∙ write_self t.slots a new
                      ∙ rw d.is_back;
                });
        };
        same = record { tokens = refl; disabled = refl; num = refl; missed = refl; rest = refl };
      }

  pub record Closes (t : Thread E) (xs : List Entry) (x : Entry) : Type 0 where
    pub out : Thread E
    pub ran : close x.address t ≡ ok (out, x.promoted)
    pub deque : IsDeque out xs
    pub same : SameRest t out

  -- `close` on the last slot takes it off and tells whether it was promoted.
  pub close-Closes :
      (t : Thread E) (xs : List Entry) (x : Entry) → IsDeque t (xs ++ x ∷ []) → Closes t xs x
  unfolding close
  close-Closes t xs x d =
      let i = Linked-but_last t.slots front d.last xs x d.linked in
      record {
        out = record t { back = some i.before };
        ran = ground (arith, i.holds.is_slot);
        deque = record {
          last = i.before;
          is_back = refl;
          sentinel = d.sentinel;
          is_sentinel = d.is_sentinel;
          linked = i.linked;
        };
        same = record { tokens = refl; disabled = refl; num = refl; missed = refl; rest = refl };
      }

refill-eq : (n : ℕ) → n < 2 ^ 32 - 30 → refill n ≡ max_heartbeat_tokens
unfolding refill
refill-eq n h = ground arith

or_true : (b : Bool) {c : Bool} → c ≡ true → (b || c) ≡ true
or_true b e = ground arith

-- Promotion of the last slot, if it is not promoted and there are tokens.
module _ {E : Type 0} (call : ℕ → ℕ × E → ℕ × E) where
  abbrev pub eager_fires : Entry → Thread E → Bool
  eager_fires x t = not (t.tokens == 0) && not x.promoted

  abbrev pub eager_env : ℕ → Entry → Thread E → ℕ × E
  eager_env fn x t =
      if eager_fires x t then call fn (sub32 t.tokens 1, t.rest) else (t.tokens, t.rest)

  pub record Promoted (t : Thread E) (xs : List Entry) (x : Entry) (fn : ℕ) : Type 0 where
    pub out : Thread E
    pub ran : eager_promote call x.address fn t ≡ ok out
    pub deque : IsDeque out (xs ++ record x { promoted = x.promoted || eager_fires x t } ∷ [])
    pub env : (out.tokens, out.rest) ≡ eager_env fn x t
    pub same_disabled : out.disabled ≡ t.disabled

  same :
      (x : Entry) (t : Thread E)
      → eager_fires x t ≡ false
      → (x.promoted || eager_fires x t) ≡ x.promoted
  same x t e = ground arith

  quiet :
      (t : Thread E) (xs : List Entry) (x : Entry) (fn : ℕ)
      → IsDeque t (xs ++ x ∷ [])
      → eager_fires x t ≡ false
      → Promoted t xs x fn
  unfolding eager_promote
  quiet t xs x fn d e =
      let i = Linked-but_last t.slots front d.last xs x d.linked in
      record {
        out = t;
        ran = ground (arith, i.holds.is_slot);
        deque = rw (same x t e) d;
        env = rw e;
        same_disabled = refl;
      }

  fires :
      (t : Thread E) (xs : List Entry) (x : Entry) (fn : ℕ)
      → IsDeque t (xs ++ x ∷ [])
      → eager_fires x t ≡ true
      → Promoted t xs x fn
  unfolding eager_promote
  fires t xs x fn d e =
      let i = Linked-but_last t.slots front d.last xs x d.linked in
      let s : SporkSlot = record {
        promoted = true;
        promfn = x.promfn;
        prev = some i.before;
        next = i.holds.next;
      } in
      let m : Memory = write t.slots x.address s in
      let x' : Entry = record x { promoted = true } in
      let env : ℕ × E = call fn (sub32 t.tokens 1, t.rest) in
      let ne : x.address ≢ i.before =
        end-ne t.slots x.address front i.before xs i.ne_start i.apart i.linked in
      record {
        out = record t { tokens = env.0; slots = m; rest = env.1 };
        ran = ground (arith, i.holds.is_slot);
        deque = rw (or_true x.promoted e) (record {
          last = x.address;
          is_back = d.is_back ∙ ap some (sym i.is_last);
          sentinel = d.sentinel;
          is_sentinel = write-ne t.slots x.address front s i.ne_start ∙ d.is_sentinel;
          linked =
              Linked-snoc m front i.before xs x' i.ne_start i.apart
                (frame t.slots x.address s front i.before xs i.ne_start i.apart i.linked)
                (rw (write-ne t.slots x.address i.before s ne, next_of) i.next)
                (record { next = i.holds.next; is_slot = write_self t.slots x.address s });
        });
        env = rw e;
        same_disabled = refl;
      }

  -- `eager_promote` on the last slot promotes it exactly if there are tokens and no heartbeat has
  -- promoted it before; in the end heartbeats are enabled as they were.
  pub eager_promote-Promoted :
      (t : Thread E) (xs : List Entry) (x : Entry) (fn : ℕ)
      → IsDeque t (xs ++ x ∷ [])
      → Promoted t xs x fn
  eager_promote-Promoted t xs x fn d = elim (Bool-cases (eager_fires x t)) [
    | inl e ↦ fires t xs x fn d e
    | inr e ↦ quiet t xs x fn d e
  ]

  abbrev beaten : Thread E → Thread E
  beaten t = record t { num_heartbeats = add32 t.num_heartbeats 1; tokens = max_heartbeat_tokens }

  beaten-IsDeque : (t : Thread E) (xs : List Entry) → IsDeque t xs → IsDeque (beaten t) xs
  beaten-IsDeque t xs d = record {
    last = d.last;
    is_back = d.is_back;
    sentinel = d.sentinel;
    is_sentinel = d.is_sentinel;
    linked = d.linked;
  }

  enabled :
      (fuel : ℕ) (t : Thread E)
      → t.disabled ≡ false
      → refill t.tokens ≡ max_heartbeat_tokens
      → heartbeat_handler call fuel t ≡ promote_front call fuel (beaten t)
  unfolding heartbeat_handler
  enabled fuel t e r = ground arith

  pub record Beats (t : Thread E) (xs : List Entry) : Type 0 where
    pub out : Thread E
    pub ran : heartbeat_handler call (length xs) t ≡ ok out
    pub deque : IsDeque out (promote_list call xs (max_heartbeat_tokens, t.rest)).0
    pub env : (out.tokens, out.rest) ≡ (promote_list call xs (max_heartbeat_tokens, t.rest)).1

  -- A heartbeat that is not disabled leaves the thread with the tokens of one beat, less those that
  -- the promotions took, whatever it had before.
  pub heartbeat_handler-Beats :
      (t : Thread E) (xs : List Entry)
      → IsDeque t xs
      → t.disabled ≡ false
      → t.tokens < 2 ^ 32 - 30
      → Beats t xs
  unfolding heartbeat_handler
  heartbeat_handler-Beats t xs d e lt =
      let p = promote_front-Promotes call xs (beaten t) (beaten-IsDeque t xs d) in
      record {
        out = p.out;
        ran = enabled (length xs) t e (refill-eq t.tokens lt) ∙ p.ran;
        deque = p.deque;
        env = p.env;
      }

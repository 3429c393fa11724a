-- ===== src/Slots.antt =====
-- scheduler.hpp: the spork deque, a list of slots on the stack of one thread that is linked by
-- pointers to `next` fields, with the operations of `SporkSlot`. Children: the list that the
-- pointers represent, and what each operation does to it.
pub mod Chain
pub mod Ops
pub mod Walk
use spork_llvm.Base.{
  ℕ, zero, suc, Bool, true, false, not, ◌&&◌, Option, none, some, if◌then◌else◌, ◌==◌, add32, sub32,
  ◌*◌, ltb,
}

-- A pointer to the `next` field of a slot is given by the address of the slot.
pub record SporkSlot : Type 0 where
  pub promoted : Bool
  pub promfn : ℕ
  pub prev : Option ℕ
  pub next : Option ℕ

-- The address of the sentinel `spork_deque_front`.
abbrev pub front : ℕ
front = 0

-- `fault` is a read or a write through a null or dangling pointer.
pub data Run {ℓ} (A : Type ℓ) : Type ℓ where
  ok : A → Run A
  fault : Run A
  out_of_fuel : Run A

infixl 5 ◌>>=◌
abbrev pub ◌>>=◌ {ℓ κ} : {A : Type ℓ} {B : Type κ} → Run A → (A → Run B) → Run B
ok a >>= f = f a
fault >>= f = fault
out_of_fuel >>= f = out_of_fuel

abbrev pub Memory : Type 0
Memory = ℕ → Option SporkSlot

unfoldable pub write : Memory → ℕ → SporkSlot → Memory
write m a s c = if a == c then some s else m c

-- What the deque and the promotion callbacks use of a thread. The rest of the thread's state,
-- which only callbacks touch, is `rest`.
pub record Thread (E : Type 0) : Type 0 where
  pub tokens : ℕ  -- heartbeat_tokens
  pub disabled : Bool  -- disable_heartbeats
  pub back : Option ℕ  -- spork_deque_back
  pub slots : Memory
  pub num_heartbeats : ℕ  -- this worker's cell of each array of statistics
  pub missed_heartbeats : ℕ
  pub rest : E

abbrev pub tokens_per_heartbeat : ℕ
tokens_per_heartbeat = 30

abbrev pub max_heartbeat_tokens : ℕ
max_heartbeat_tokens = tokens_per_heartbeat * 1

-- `heartbeat_tokens += TOKENS_PER_HEARTBEAT`, and the cap.
unfoldable pub refill : ℕ → ℕ
refill tokens =
    let more : ℕ = add32 tokens tokens_per_heartbeat in
    if ltb max_heartbeat_tokens more then max_heartbeat_tokens else more

-- Do two pointers name the same `next` field?
abbrev pub same_slot : Option ℕ → Option ℕ → Bool
same_slot (some a) (some b) = a == b
same_slot none none = true
same_slot _ _ = false

module _ {E : Type 0} where
  abbrev pub load : Option ℕ → Thread E → Run SporkSlot
  load none t = fault
  load (some a) t = elim (t.slots a) [ none ↦ fault | some s ↦ ok s ]

  abbrev pub store : Option ℕ → SporkSlot → Thread E → Run (Thread E)
  store none s t = fault
  store (some a) s t = ok (record t { slots = write t.slots a s })

  -- `reset`: the deque is empty, and its back is the sentinel.
  unfoldable pub reset : Thread E → Thread E
  reset t = record t { back = some front }

  abbrev commit : ℕ → Thread E → Run (Thread E)
  commit a t = ok (record t { back = some a })

  -- The constructor, for a slot that is built at address `a`: `prev = spork_deque_back`,
  -- `*prev = this`, and at last `spork_deque_back = &next`.
  unfoldable pub push_slot : ℕ → ℕ → Thread E → Run (Thread E)
  push_slot a fn t = do
    t₁ ← store (some a) (record { promoted = false; promfn = fn; prev = t.back; next = none }) t
    p ← load t₁.back t₁
    t₂ ← store t₁.back (record p { next = some a }) t₁
    commit a t₂

  -- `close`, on the slot at address `a`: the new state, and whether the slot was promoted.
  unfoldable pub close : ℕ → Thread E → Run (Thread E × Bool)
  close a t = do s ← load (some a) t; ok (record t { back = s.prev }, s.promoted)

-- The promotion callbacks: what one does to the tokens and the rest of the thread. By its type it
-- changes no slot and not the back of the deque, and it does not throw.
module _ {E : Type 0} (call : ℕ → ℕ × E → ℕ × E) where
  abbrev pub run_promfn : ℕ → Thread E → Thread E
  run_promfn fn t =
      let after : ℕ × E = call fn (t.tokens, t.rest) in
      record t { tokens = after.0; rest = after.1 }

  -- `promote`, on the slot that the pointer shows.
  unfoldable pub promote : Option ℕ → Thread E → Run (Thread E)
  promote slot t = do
    s ← load slot t
    t₁ ← store slot (record s { promoted = true }) (record t { tokens = sub32 t.tokens 1 })
    ok (run_promfn s.promfn t₁)

  -- `if (!slot->promoted) slot->promote()`
  unfoldable pub visit_slot : Option ℕ → Thread E → Run (Thread E)
  visit_slot slot t = do s ← load slot t; if s.promoted then ok t else promote slot t

  -- The loop of `promote_front`, from the slot that the pointer shows.
  unfoldable pub walk : ℕ → Option ℕ → Thread E → Run (Thread E)
  unfolding visit_slot promote
  walk zero slot t = out_of_fuel
  walk (suc fuel) slot t = elim (t.tokens == 0) [
    | true ↦ ok t
    | false ↦ do
      t₁ ← visit_slot slot t
      s₁ ← load slot t₁
      elim (same_slot slot t₁.back) [ true ↦ ok t₁ | false ↦ walk fuel s₁.next t₁ ]
  ]

  -- `promote_front`.
  unfoldable pub promote_front : ℕ → Thread E → Run (Thread E)
  unfolding walk
  promote_front fuel t =
      if same_slot (some front) t.back then ok t else do s ← load (some front) t; walk fuel s.next t

  abbrev eager_run : ℕ → ℕ → SporkSlot → Thread E → Run (Thread E)
  eager_run a fn s t = do
    t₁ ← store (some a) (record s { promoted = true }) (record t { tokens = sub32 t.tokens 1 })
    ok (run_promfn fn t₁)

  abbrev eager_body : ℕ → ℕ → Thread E → Run (Thread E)
  eager_body a fn t = do
    s ← load (some a) t
    if not (t.tokens == 0) && not s.promoted then eager_run a fn s t else ok t

  -- `eager_promote`, on the slot at address `a` with the callback `fn`.
  unfoldable pub eager_promote : ℕ → ℕ → Thread E → Run (Thread E)
  eager_promote a fn t = do
    t₁ ← eager_body a fn (record t { disabled = true })
    ok (record t₁ { disabled = t.disabled })

  -- `heartbeat_handler`; it restores `errno`, which is not part of the model.
  unfoldable pub heartbeat_handler : ℕ → Thread E → Run (Thread E)
  heartbeat_handler fuel t =
      if not t.disabled
      then promote_front fuel
          (record t { num_heartbeats = add32 t.num_heartbeats 1; tokens = refill t.tokens })
      else ok (record t { missed_heartbeats = add32 t.missed_heartbeats 1 })

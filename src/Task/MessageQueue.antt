-- ===== src/Task/MessageQueue.antt =====
-- kernel/task/message_queue.{hpp,cpp}: the bounded ring of a task's messages. `ring` is `none` when
-- its storage could not be allocated. The allocator is a parameter of the constructor: the zeroed
-- storage that `alloc` returned, if any.
pub mod Fifo
use uchos.Prelude.{
  ℕ, ◌+◌, ◌-◌, ◌%◌, Bool, true, false, Option, none, some, List, get_elem?, set, ltb, ◌==◌, ◌≡◌,
  arith, if◌then◌else◌,
}

abbrev pub capacity : ℕ
capacity = 64

pub record MessageQueue {ℓ} (A : Type ℓ) : Type ℓ where
  pub ring : Option (List A)
  pub head : ℕ
  pub count : ℕ

module _ {ℓ} {A : Type ℓ} where
  -- The constructor.
  pub init : Option (List A) → MessageQueue A
  init storage = record { ring = storage; head = 0; count = 0 }

  pub size : MessageQueue A → ℕ
  size q = q.count

  store : MessageQueue A → List A → A → MessageQueue A
  store q r m = record q {
    ring = some (set r ((q.head + q.count) % capacity) m);
    count = q.count + 1;
  }

  pub push : MessageQueue A → A → MessageQueue A × Bool
  unfolding store
  push q m = elim q.ring [
    | none ↦ (q, false)
    | some r ↦ if ltb q.count capacity then (store q r m, true) else (q, false)
  ]

  -- `ring_[head_]`; `none` would be a read outside the storage.
  front : MessageQueue A → Option A
  front q = elim q.ring [ none ↦ none | some r ↦ get_elem? r q.head ]

  -- The option is what goes through `out`.
  pub pop : MessageQueue A → MessageQueue A × Option A × Bool
  unfolding front
  pop q =
      if q.count == 0
      then (q, none, false)
      else (record q { head = (q.head + 1) % capacity; count = q.count - 1 }, front q, true)

  -- `pop` fails on the empty queue only.
  pub pop-empty : (q : MessageQueue A) → (pop q).2 ≡ false → q.count ≡ 0
  unfolding pop
  pop-empty q h = ground arith

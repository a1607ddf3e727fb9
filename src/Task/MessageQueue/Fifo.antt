-- ===== src/Task/MessageQueue/Fifo.antt =====
-- The ring is a bounded first-in-first-out queue.
use uchos.Prelude.{
  ℕ, zero, suc, ◌+◌, ◌-◌, ◌%◌, ◌≤◌, ◌<◌, ◌≡◌, ◌≢◌, refl, sym, ap, ap₂, ◌∙◌, Bool, true, false,
  Option, none, some, List, [], ◌∷◌, ◌++◌, map, length, length-append, get_elem?, set, length-set,
  get_elem?-set_self, get_elem?-set_ne, arith, ltb, lt→ltb, le→ltb, ==_false, dec_lt, if◌then◌else◌,
}
use mathlib.Core.List.{map-append}
use uchos.Task.MessageQueue.{MessageQueue, capacity, init, push, pop, store, front}

-- The specification: a list, oldest first.
pub data Op {ℓ} (A : Type ℓ) : Type ℓ where
  put : A → Op A
  get : Op A

module _ {ℓ} {A : Type ℓ} where
  abbrev pub fifo_push : List A → A → List A × Bool
  fifo_push xs m = if ltb (length xs) capacity then (xs ++ m ∷ [], true) else (xs, false)

  abbrev pub fifo_pop : List A → List A × Option A × Bool
  fifo_pop [] = ([], none, false)
  fifo_pop (x ∷ xs) = (xs, some x, true)

  pub fifo_run : List A → List (Op A) → List (Option A × Bool)
  fifo_run xs [] = []
  fifo_run xs (put m ∷ ops) = (none, (fifo_push xs m).1) ∷ fifo_run (fifo_push xs m).0 ops
  fifo_run xs (get ∷ ops) = ((fifo_pop xs).1, (fifo_pop xs).2) ∷ fifo_run (fifo_pop xs).0 ops

module _ {ℓ} {A : Type ℓ} where
  -- The `n` slots of the ring from index `h` on, going round at the capacity.
  abbrev cells : List A → ℕ → ℕ → List (Option A)
  cells r h zero = []
  cells r h (suc n) = get_elem? r (h % capacity) ∷ cells r (h + 1) n

  -- The ring is allocated, and its messages are those of the list, oldest first.
  pub record Holds (q : MessageQueue A) (xs : List A) : Type ℓ where
    pub slots : List A
    pub allocated : q.ring ≡ some slots
    pub long : length slots ≡ capacity
    pub head_in : q.head < capacity
    pub bounded : length xs ≤ capacity
    pub counted : q.count ≡ length xs
    pub items : cells slots q.head q.count ≡ map some xs

  -- A write to a slot that is none of them.
  cells-set_ne :
      (r : List A) (h n i : ℕ) (m : A)
      → ((j : ℕ) → h ≤ j → j < h + n → j % capacity ≢ i)
      → cells (set r i m) h n ≡ cells r h n
  cells-set_ne r h zero i m ne = refl
  cells-set_ne r h (suc n) i m ne =
      ap₂ ◌∷◌ (get_elem?-set_ne r m (λ e. ne h (omega arith) (omega arith) (sym e)))
        (cells-set_ne r (h + 1) n i m (λ j lo hi. ne j (omega arith) (omega arith)))

  cells-snoc :
      (r : List A) (h n : ℕ)
      → cells r h (suc n) ≡ cells r h n ++ get_elem? r ((h + n) % capacity) ∷ []
  cells-snoc r h zero = let e : h + 0 ≡ h = omega arith in rw e refl
  cells-snoc r h (suc n) =
      let e : h + suc n ≡ h + 1 + n = omega arith in
      rw e (ap (◌∷◌ (get_elem? r (h % capacity))) (cells-snoc r (h + 1) n))

  -- Writing behind the last message appends it.
  cells-set :
      (r : List A) (h n : ℕ) (m : A)
      → length r ≡ capacity
      → n < capacity
      → cells (set r ((h + n) % capacity) m) h (suc n) ≡ cells r h n ++ some m ∷ []
  cells-set r h n m len lt =
      cells-snoc (set r ((h + n) % capacity) m) h n
      ∙ ap₂ (λ xs x. xs ++ x ∷ [])
          (cells-set_ne r h n ((h + n) % capacity) m (λ j lo hi. omega arith))
          (get_elem?-set_self r ((h + n) % capacity) m (omega arith))

  -- The window is read round the ring.
  cells-mod : (r : List A) (h n : ℕ) → cells r (h % capacity) n ≡ cells r h n
  cells-mod r h zero = refl
  cells-mod r h (suc n) =
      ap₂ ◌∷◌ (let e : h % capacity % capacity ≡ h % capacity = omega arith in rw e refl) (
        sym (cells-mod r (h % capacity + 1) n)
        ∙ (let e : (h % capacity + 1) % capacity ≡ (h + 1) % capacity = omega arith in rw e refl)
        ∙ cells-mod r (h + 1) n)

  push_room :
      (q : MessageQueue A) (r : List A) (m : A)
      → q.ring ≡ some r
      → q.count < capacity
      → push q m ≡ (store q r m, true)
  unfolding push
  push_room q r m e lt = rw (e, push) (rw (lt→ltb q.count capacity lt) refl)

  push_full :
      (q : MessageQueue A) (r : List A) (m : A)
      → q.ring ≡ some r
      → capacity ≤ q.count
      → push q m ≡ (q, false)
  unfolding push
  push_full q r m e le = ground arith

  push_items :
      (q : MessageQueue A) (xs : List A) (m : A) (h : Holds q xs)
      → q.count < capacity
      → cells (set h.slots ((q.head + q.count) % capacity) m) q.head (q.count + 1)
        ≡ map some (xs ++ m ∷ [])
  push_items q xs m h lt =
      let e : q.count + 1 ≡ suc q.count = omega arith in
      rw e (
        cells-set h.slots q.head q.count m h.long lt
        ∙ ap (λ ys. ys ++ some m ∷ []) h.items
        ∙ sym (map-append some xs (m ∷ [])))

  -- `push` gives the answer of the bounded FIFO, and leaves the ring holding its list.
  pub push_refines :
      (q : MessageQueue A) (xs : List A) (m : A)
      → Holds q xs
      → ((push q m).1 ≡ (fifo_push xs m).1) × Holds (push q m).0 (fifo_push xs m).0
  unfolding store
  push_refines q xs m h = elim (dec_lt q.count capacity) [
    | yes room ↦
        rw
          (
            push_room q h.slots m h.allocated room,
            lt→ltb (length xs) capacity (omega (arith, h.counted)),
          )
          (
            refl,
            record {
              slots = set h.slots ((q.head + q.count) % capacity) m;
              allocated = refl;
              long = length-set h.slots ((q.head + q.count) % capacity) m ∙ h.long;
              head_in = h.head_in;
              bounded = omega (arith, length-append xs (m ∷ []), h.counted);
              counted = omega (arith, length-append xs (m ∷ []), h.counted);
              items = push_items q xs m h room;
            },
          )
    | no full ↦
        rw
          (
            push_full q h.slots m h.allocated (omega arith),
            le→ltb (length xs) capacity (omega (arith, h.counted)),
          )
          (refl, h)
  ]

  pop-none : (q : MessageQueue A) → q.count ≡ 0 → pop q ≡ (q, none, false)
  unfolding pop
  pop-none q e = ground arith

  pop-some :
      (q : MessageQueue A) (r : List A)
      → q.ring ≡ some r
      → q.count ≢ 0
      → pop q ≡ (
        record q { head = (q.head + 1) % capacity; count = q.count - 1 },
        get_elem? r q.head,
        true,
      )
  unfolding pop front
  pop-some q r e ne = rw (==_false q.count 0 ne) (rw (e, front) refl)

  -- `pop` gives the answer of the FIFO, and leaves the ring holding the rest.
  pub pop_refines :
      (q : MessageQueue A) (xs : List A)
      → Holds q xs
      → ((pop q).1 ≡ (fifo_pop xs).1)
        × ((pop q).2 ≡ (fifo_pop xs).2)
        × Holds (pop q).0 (fifo_pop xs).0
  pop_refines q [] h = rw (pop-none q h.counted) (refl, refl, h)
  pop_refines q (x ∷ xs) h = rw (pop-some q h.slots h.allocated (omega (arith, h.counted))) (
    (let e : q.head ≡ q.head % capacity = omega (arith, h.head_in) in
        ap (get_elem? h.slots) e ∙ first),
    refl,
    record {
      slots = h.slots;
      allocated = h.allocated;
      long = h.long;
      head_in = omega arith;
      bounded = omega (arith, h.bounded);
      counted = omega (arith, h.counted);
      items =
          cells-mod h.slots (q.head + 1) (q.count - 1)
          ∙ (let e : q.count - 1 ≡ length xs = omega (arith, h.counted) in rw e rest);
    },
  )
    where
      both :
          get_elem? h.slots (q.head % capacity) ∷ cells h.slots (q.head + 1) (length xs)
          ≡ some x ∷ map some xs
      both = ap (cells h.slots q.head) (sym h.counted) ∙ h.items

      first : get_elem? h.slots (q.head % capacity) ≡ some x
      first = cc both

      rest : cells h.slots (q.head + 1) (length xs) ≡ map some xs
      rest = cc both

  -- The calls on a ring, with what each returns.
  pub run : MessageQueue A → List (Op A) → List (Option A × Bool)
  run q [] = []
  run q (put m ∷ ops) = (none, (push q m).1) ∷ run (push q m).0 ops
  run q (get ∷ ops) = ((pop q).1, (pop q).2) ∷ run (pop q).0 ops

  -- No sequence of calls tells a ring that holds a list of messages from the bounded FIFO with
  -- that list.
  pub run_refines :
      (ops : List (Op A)) (q : MessageQueue A) (xs : List A)
      → Holds q xs
      → run q ops ≡ fifo_run xs ops
  unfolding run fifo_run
  run_refines [] q xs h = refl
  run_refines (put m ∷ ops) q xs h =
      let (answer, held) = push_refines q xs m h in
      ap₂ ◌∷◌ (ap (λ b. (none, b)) answer) (run_refines ops (push q m).0 _ held)
  run_refines (get ∷ ops) q xs h =
      let (out, answer, held) = pop_refines q xs h in
      ap₂ ◌∷◌ (ap₂ (λ o b. (o, b)) out answer) (run_refines ops (pop q).0 _ held)

  -- Zeroed storage makes an empty queue.
  pub init-Holds : (storage : List A) → length storage ≡ capacity → Holds (init (some storage)) []
  unfolding init
  init-Holds storage len = record {
    slots = storage;
    allocated = refl;
    long = len;
    head_in = omega arith;
    bounded = omega arith;
    counted = refl;
    items = refl;
  }

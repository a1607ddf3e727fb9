-- ===== src/Task/Children/Fifo.antt =====
-- The exit records of a task are a bounded FIFO: an exit is appended behind the others, and
-- `sys_wait` takes the oldest.
use uchos.Prelude.{
  ℕ, zero, suc, ◌+◌, ◌-◌, ◌<◌, ◌≤◌, ◌≡◌, ◌≢◌, refl, ap, subst, ◌∙◌, true, false, ◌&&◌, some, List,
  [], ◌∷◌, ◌++◌, length, length-append, length-set, take, set, get_or, ltb, leb, lt→ltb,
  if◌then◌else◌, arith, Bool-cases, inl, inr,
}
use native.Mathlib.Numerals.{unary_clauses}
use uchos.Common.{ℤ, pos}
use uchos.Task.WaitReason.{WaitReason, is_child}
use uchos.Task.State.{
  Task, TaskState, running, ready, waiting, exited, is_waiting, ChildExitRecord, Kernel, task_at,
  put, max_child_exit_records,
}
use uchos.Task.Scheduler.{schedule_task, record_child_exit}
use uchos.Task.Children.{shift_down, wait_round}
use uchos.Task.System.Slots.{task_at-put_self, task_at-lt}
use uchos.Task.System.Invariant.{Inv, task-ok, schedule_task-put}
use uchos.Task.System.Exit.{task_at-enqueue}

-- The records of the task are these, oldest first.
pub record Parked (t : Task) (rs : List ChildExitRecord) : Type 0 where
  pub long : length t.exit_records ≡ max_child_exit_records
  pub bounded : length rs ≤ max_child_exit_records
  pub counted : t.num_exit_records ≡ length rs
  pub items : take t.num_exit_records t.exit_records ≡ rs

shift_down-cons :
    (x : ChildExitRecord) (xs : List ChildExitRecord) (rounds i : ℕ)
    → shift_down (x ∷ xs) rounds (suc (suc i)) ≡ x ∷ shift_down xs rounds (suc i)
unfolding shift_down
shift_down-cons x xs zero i = refl
shift_down-cons x xs (suc rounds) i = simp unary_clauses (
    shift_down-cons x (set xs i (get_or xs (suc i) (record { pid = pos 0; status = pos 0 }))) rounds
      (suc i))

-- Shifting down drops the first record.
take-shift_down :
    (x : ChildExitRecord) (xs : List ChildExitRecord) (n : ℕ)
    → n ≤ length xs
    → take n (shift_down (x ∷ xs) n 1) ≡ take n xs
unfolding shift_down
take-shift_down x xs zero h = refl
take-shift_down x [] (suc n) h = absurd (omega (arith, h))
take-shift_down x (y ∷ ys) (suc n) h =
    ap (take (suc n)) (shift_down-cons y (y ∷ ys) n 0)
    ∙ ap (λ zs. y ∷ zs) (take-shift_down y ys n (omega (arith, h)))

length-shift_down :
    (rounds : ℕ) (xs : List ChildExitRecord) (i : ℕ) → length (shift_down xs rounds i) ≡ length xs
unfolding shift_down
length-shift_down zero xs i = refl
length-shift_down (suc rounds) xs i =
    length-shift_down rounds (set xs (i - 1) (get_or xs i (record { pid = pos 0; status = pos 0 })))
      (i + 1)
    ∙ length-set xs (i - 1) _

take-set_snoc :
    (xs : List ChildExitRecord) (n : ℕ) (x : ChildExitRecord)
    → n < length xs
    → take (suc n) (set xs n x) ≡ take n xs ++ x ∷ []
take-set_snoc [] n x h = absurd (omega (arith, h))
take-set_snoc (y ∷ ys) zero x h = refl
take-set_snoc (y ∷ ys) (suc n) x h = ap (λ zs. y ∷ zs) (take-set_snoc ys n x (omega (arith, h)))

-- The records left when the oldest is taken.
dequeue-Parked :
    (t : Task) (r : ChildExitRecord) (rs : List ChildExitRecord)
    → Parked t (r ∷ rs)
    → (get_or t.exit_records 0 (record { pid = pos 0; status = pos 0 }) ≡ r)
      × (length (shift_down t.exit_records (t.num_exit_records - 1) 1) ≡ max_child_exit_records)
      × (take (t.num_exit_records - 1) (shift_down t.exit_records (t.num_exit_records - 1) 1) ≡ rs)
dequeue-Parked t r rs p =
    from t.exit_records p.long (subst (λ n. take n t.exit_records ≡ r ∷ rs) p.counted p.items)
  where
    from :
        (xs : List ChildExitRecord)
        → length xs ≡ max_child_exit_records
        → take (length (r ∷ rs)) xs ≡ r ∷ rs
        → (get_or xs 0 (record { pid = pos 0; status = pos 0 }) ≡ r)
          × (length (shift_down xs (t.num_exit_records - 1) 1) ≡ max_child_exit_records)
          × (take (t.num_exit_records - 1) (shift_down xs (t.num_exit_records - 1) 1) ≡ rs)
    from [] long items = absurd (cc)
    from (x ∷ xs) long items =
        let first : x ≡ r = cc items in
        let others : take (length rs) xs ≡ rs = cc items in
        let room : length rs ≤ length xs = omega (arith, long, p.bounded) in
        let left : t.num_exit_records - 1 ≡ length rs = omega (arith, p.counted) in
        rw left (
          first,
          length-shift_down (length rs) (x ∷ xs) 1 ∙ long,
          take-shift_down x xs (length rs) room ∙ others,
        )

-- `sys_wait` of a task whose parked exits are `r` and then `rs` gives `r` and leaves `rs`, and the
-- task is running.
pub wait_round_refines :
    (k : Kernel) (t : Task) (r : ChildExitRecord) (rs : List ChildExitRecord)
    → task_at k k.current ≡ some t
    → Parked t (r ∷ rs)
    → (t' : Task) × (wait_round k ≡ some (put k k.current t', some r))
      × Parked t' rs
      × (t'.state ≡ running)
unfolding wait_round
wait_round_refines k t r rs there p =
    let (oldest, long, items) = dequeue-Parked t r rs p in
    let some_left : ltb 0 t.num_exit_records ≡ true = lt→ltb 0 _ (omega (arith, p.counted)) in
    (
      record t {
        exit_records = shift_down t.exit_records (t.num_exit_records - 1) 1;
        num_exit_records = t.num_exit_records - 1;
        state = running;
        wait_reason = WaitReason.none;
      },
      rw (there, some_left, oldest, wait_round) refl,
      record {
        long = long;
        bounded = omega (arith, p.bounded);
        counted = omega (arith, p.counted);
        items = items;
      },
      refl,
    )

append-Parked :
    (t : Task) (rs : List ChildExitRecord) (r : ChildExitRecord)
    → Parked t rs
    → length rs < max_child_exit_records
    → (st : TaskState)
    → Parked
        (record t {
          exit_records = set t.exit_records t.num_exit_records r;
          num_exit_records = t.num_exit_records + 1;
          state = st;
        })
        (rs ++ r ∷ [])
append-Parked t rs r p room st = record {
  long = length-set t.exit_records t.num_exit_records r ∙ p.long;
  bounded = omega (arith, length-append rs (r ∷ []));
  counted = omega (arith, p.counted, length-append rs (r ∷ []));
  items =
      let next : t.num_exit_records + 1 ≡ suc t.num_exit_records = omega arith in
      rw next (
        take-set_snoc t.exit_records t.num_exit_records r (omega (arith, p.long, p.counted))
        ∙ ap (λ xs. xs ++ r ∷ []) p.items);
}

-- What the parent in slot `d` holds after the exit has been told, and that a wait for a child ends.
abbrev pub Told : Kernel → ℕ → Task → List ChildExitRecord → Type 0
Told k d t rs =
    (t' : Task) × (task_at k d ≡ some t')
    × Parked t' rs
    × (t.state ≡ waiting → t.wait_reason ≡ WaitReason.child → t'.state ≢ waiting)

clash :
    (s : TaskState) (r : WaitReason)
    → (is_waiting s && is_child r) ≡ false
    → s ≡ waiting
    → r ≡ WaitReason.child
    → ⊥
clash running r h w c = cc w
clash ready r h w c = cc w
clash exited r h w c = cc w
clash waiting WaitReason.child h w c = cc h
clash waiting WaitReason.none h w c = cc c
clash waiting WaitReason.receive h w c = cc c
clash waiting WaitReason.notify h w c = cc c
clash waiting WaitReason.reply h w c = cc c

module _ (k : Kernel) (d : ℕ) (t : Task) (v : Inv k) (there : task_at k d ≡ some t) where
  append-Told :
      (t' : Task) (rs : List ChildExitRecord)
      → ((st : TaskState) → Parked (record t' { state = st }) rs)
      → Told
          (if is_waiting t.state && is_child t.wait_reason
            then schedule_task (put k d t') t.id
            else put k d t')
          d
          t
          rs
  append-Told t' rs p = elim (Bool-cases (is_waiting t.state && is_child t.wait_reason)) [
    | inl asleep ↦ (
      record t' { state = ready },
      rw (asleep, (task-ok k d t v there).named, schedule_task-put k d t v there t')
          (task_at-enqueue (put k d (record t' { state = ready })) d d
            ∙ task_at-put_self k d _ (task_at-lt k d there)),
      p ready,
      λ w r e. cc e,
    )
    | inr other ↦ (
      t',
      rw other (task_at-put_self k d t' (task_at-lt k d there)),
      p t'.state,
      λ w r. absurd (clash t.state t.wait_reason other w r),
    )
  ]

-- An exit told to the task in slot `d` goes behind those that are parked there, or is dropped when
-- eight are; with room, a parent that waits for a child stops waiting.
pub record_child_exit_refines :
    (k : Kernel) (d : ℕ) (t : Task) (rs : List ChildExitRecord) (child status : ℤ)
    → Inv k
    → task_at k d ≡ some t
    → Parked t rs
    → (length rs ≡ max_child_exit_records → record_child_exit k d child status ≡ k)
      × (length rs < max_child_exit_records
          → Told
              (record_child_exit k d child status)
              d
              t
              (rs ++ record { pid = child; status = status } ∷ []))
unfolding record_child_exit
record_child_exit_refines k d t rs child status v there p = (
  λ full. rw (there, record_child_exit) (ground (arith, p.counted, full)),
  λ room.
      let open_slot : leb max_child_exit_records t.num_exit_records ≡ false =
        ground (arith, p.counted, room) in
      rw (there, record_child_exit)
        (rw open_slot (
          append-Told k d t v there _ _
            (append-Parked t rs (record { pid = child; status = status }) p room))),
)

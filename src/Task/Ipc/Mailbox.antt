-- ===== src/Task/Ipc/Mailbox.antt =====
-- A message sent to a task goes behind those in its ring.
use uchos.Prelude.{
  ℕ, ◌<◌, ◌≡◌, refl, ap, subst, ◌∙◌, Bool, true, false, ◌&&◌, some, List, [], ◌∷◌, ◌++◌, length,
  bit_and, lt→ltb, if◌then◌else◌, arith,
}
use uchos.Common.{ℤ, pos, Message, ok, err_queue_full}
use uchos.Task.MessageQueue.{MessageQueue, push, capacity}
use uchos.Task.MessageQueue.Fifo.{Holds, fifo_push, push_refines}
use uchos.Task.WaitReason.{is_receive_style}
use uchos.Task.State.{Task, ready, is_waiting, Kernel, task_at, put}
use uchos.Task.Scheduler.{schedule_task}
use uchos.Task.Ipc.{send_message, deliver, deliver_request}
use uchos.Task.System.Slots.{task_at-put_self, task_at-lt}
use uchos.Task.System.Invariant.{Inv, slot_of-there, schedule_task-put}
use uchos.Task.System.Exit.{task_at-enqueue}

-- The send succeeded: the task in slot `d` holds these messages, and does not wait for one.
pub record Sent (d : ℕ) (t : Task) (xs : List Message) (r : Kernel × ℤ) : Type 0 where
  pub result : r.1 ≡ ok
  pub task : Task
  pub there : task_at r.0 d ≡ some task
  pub held : Holds task.messages xs
  pub woken : is_waiting t.state && is_receive_style t.wait_reason ≡ true → task.state ≡ ready

module _ (k : Kernel) (d : ℕ) (t : Task) (v : Inv k) (there : task_at k d ≡ some t) where
  ends-Sent :
      (q : MessageQueue Message) (xs : List Message) (b : Bool)
      → Holds q xs
      → is_waiting t.state && is_receive_style t.wait_reason ≡ b
      → Sent d t xs (
          if b
          then (schedule_task (put k d (record t { messages = q })) (pos d), ok)
          else (put k d (record t { messages = q }), ok))
  ends-Sent q xs true h w = record {
    result = refl;
    task = record t { messages = q; state = ready };
    there =
        ap (λ x. task_at x d) (schedule_task-put k d t v there (record t { messages = q }))
        ∙ task_at-enqueue (put k d (record t { messages = q; state = ready })) d d
        ∙ task_at-put_self k d _ (task_at-lt k d there);
    held = h;
    woken = λ e. refl;
  }
  ends-Sent q xs false h w = record {
    result = refl;
    task = record t { messages = q };
    there = task_at-put_self k d _ (task_at-lt k d there);
    held = h;
    woken = λ e. cc (w, e);
  }

  request-Sent :
      (xs : List Message) (m : Message)
      → Holds t.messages xs
      → length xs < capacity
      → Sent d t (xs ++ m ∷ []) (deliver_request k d t m)
  unfolding deliver_request
  request-Sent xs m h room =
      let r = push_refines t.messages xs m h in
      let fits : fifo_push xs m ≡ (xs ++ m ∷ [], true) =
        rw (lt→ltb (length xs) capacity room) refl in
      let pushed : (push t.messages m).1 ≡ true = r.0 ∙ ap (λ p. p.1) fits in
      rw (pushed, deliver_request)
        (ends-Sent (push t.messages m).0 (xs ++ m ∷ []) _
          (subst (λ p. Holds (push t.messages m).0 p.0) fits r.1) refl)

  send_message-deliver :
      (m : Message)
      → bit_and m.flags 1 ≡ 0
      → send_message k (pos d) m ≡ some (deliver_request k d t m)
  unfolding send_message deliver
  send_message-deliver m plain =
      rw (slot_of-there k d t v there) (rw (there, deliver) (rw plain refl))

  -- In a well-formed kernel, a request to a task that holds the messages `xs` is refused when they
  -- are 64, with the kernel as it was; else it goes behind them, the result is `OK`, and a task that
  -- waits in a receive or a bare sleep is made ready.
  pub send_message_refines :
      (xs : List Message) (m : Message)
      → bit_and m.flags 1 ≡ 0
      → Holds t.messages xs
      → (length xs ≡ capacity → send_message k (pos d) m ≡ some (k, err_queue_full))
        × (length xs < capacity
            → (r : Kernel × ℤ) × (send_message k (pos d) m ≡ some r) × Sent d t (xs ++ m ∷ []) r)
  unfolding deliver_request
  send_message_refines xs m plain h = (
    λ full.
        let r = push_refines t.messages xs m h in
        let refused : (push t.messages m).1 ≡ false = ground (arith, r.0, full) in
        send_message-deliver m plain ∙ rw (refused, deliver_request) refl,
    λ room. (deliver_request k d t m, send_message-deliver m plain, request-Sent xs m h room),
  )

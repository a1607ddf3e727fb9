-- ===== src/Task/System/Rounds.antt =====
-- The current task's own sections keep the invariant: calls, replies and the rounds of its waits.
use uchos.Prelude.{
  ℕ, ◌≡◌, ◌≢◌, ◌⊎◌, refl, sym, subst, ◌∙◌, true, none, some, bit_and, ltb, ◌==◌, ◌!=◌, arith,
  Bool-cases, Option-cases, inl, inr,
}
use uchos.Common.{ℤ, ◌==ℤ◌, invalid_id, Message, is_err}
use uchos.Task.MessageQueue.{pop-empty}
use uchos.Task.WaitReason.{WaitReason}
use uchos.Task.State.{Task, running, waiting, Kernel, task_at, slot_of}
use uchos.Task.Scheduler.{sleep_current}
use uchos.Task.Ipc.{
  deliver_reply, deliver_request, deliver, send_message, send_call, end_call, call_begin,
  call_round, reply, open_call, fresh_correlation, stamped, receive_round, wait_notification_round,
  try_receive, pop_notification, pop_message,
}
use uchos.Task.Children.{wait_round}
use uchos.Task.System.Slots.{task_at-put_self, task_at-lt}
use uchos.Task.System.Invariant.{Quiet, TaskOk, Inv, After, After-if, Afterwards, task-ok, put-Inv}
use uchos.Task.System.Delivery.{send_message-Inv}

-- What a failed result leaves: the kernel as it was.
abbrev pub Unchanged : Kernel → Kernel × ℤ → Type 0
Unchanged k r = is_err r.1 ≡ true → r.0 ≡ k

deliver_reply-Unchanged :
    (k : Kernel) (d : ℕ) (t : Task) (m : Message) → Unchanged k (deliver_reply k d t m)
unfolding deliver_reply
deliver_reply-Unchanged k d t m h = ground arith

deliver_request-Unchanged :
    (k : Kernel) (d : ℕ) (t : Task) (m : Message) → Unchanged k (deliver_request k d t m)
unfolding deliver_request
deliver_request-Unchanged k d t m h = ground arith

deliver-Unchanged : (k : Kernel) (d : ℕ) (m : Message) → Unchanged k (deliver k d m)
unfolding deliver
deliver-Unchanged k d m = elim (Option-cases (task_at k d)) [
  | inl gone ↦ rw (gone, deliver) (λ e. refl)
  | inr (t, there) ↦
      rw (there, deliver)
        (elim (Bool-cases (bit_and m.flags 1 != 0)) [
          | inl reply ↦ rw reply (deliver_reply-Unchanged k d t m)
          | inr request ↦ rw request (deliver_request-Unchanged k d t m)
        ])
]

-- A send that fails leaves the kernel as it was.
pub send_message-Unchanged :
    (k : Kernel) (dst : ℤ) (m : Message) (k' : Kernel) (e : ℤ)
    → send_message k dst m ≡ some (k', e)
    → is_err e ≡ true
    → k' ≡ k
unfolding send_message
send_message-Unchanged k dst m k' e h failed = elim (Bool-cases (dst ==ℤ invalid_id)) [
  | inl invalid ↦ ground arith
  | inr valid ↦ elim (Option-cases (slot_of dst)) [
    | inl out ↦ ground arith
    | inr (d, at) ↦ ground (arith, deliver-Unchanged k d m)
  ]
]

module _ (k : Kernel) (t : Task) (v : Inv k) (there : task_at k k.current ≡ some t) where
  good : TaskOk k.run_queue k.current t
  good = task-ok k k.current t v there

  -- The current task, written back running or waiting.
  running-ok :
      (t' : Task)
      → t.state ≡ running
      → t'.id ≡ t.id
      → t'.state ≡ running
      → (t'.reply_pending ≡ true
          → t'.call_correlation ≢ 0
          → t'.reply_slot.correlation ≡ t'.call_correlation)
      → TaskOk k.run_queue k.current t'
  running-ok t' was same-id now answered = record {
    named = same-id ∙ good.named;
    calm = λ e. absurd (cc);
    queued = λ e. absurd (cc);
    unqueued = λ e. good.unqueued was;
    alive = λ e. cc;
    answered = answered;
  }

  waiting-ok :
      (t' : Task)
      → t'.id ≡ t.id
      → t'.state ≡ waiting
      → Quiet t'.wait_reason t'
      → (t'.reply_pending ≡ true
          → t'.call_correlation ≢ 0
          → t'.reply_slot.correlation ≡ t'.call_correlation)
      → TaskOk k.run_queue k.current t'
  waiting-ok t' same-id now quiet answered = record {
    named = same-id ∙ good.named;
    calm = λ e. quiet;
    queued = λ e. absurd (cc);
    unqueued = λ e. absurd (cc);
    alive = λ e. cc;
    answered = answered;
  }

  pub call_round-Inv : t.state ≡ running → After Inv (call_round k)
  unfolding call_round
  call_round-Inv was =
      rw (there, call_round)
        (After-if Inv t.reply_pending _ _
          (λ e. put-Inv k k.current t v there _ (running-ok _ was refl refl (λ e. absurd (cc))))
          (λ silent.
            put-Inv k k.current t v there
              (record t { wait_reason = WaitReason.reply; state = waiting })
              (waiting-ok _ refl refl silent good.answered)))

  pub sleep_current-Inv : Afterwards Inv (sleep_current k)
  unfolding sleep_current
  sleep_current-Inv =
      rw (there, sleep_current)
        (put-Inv k k.current t v there _ (waiting-ok _ refl refl tt good.answered))

  pub wait_round-Inv : t.state ≡ running → After Inv (wait_round k)
  unfolding wait_round
  wait_round-Inv was =
      rw (there, wait_round)
        (After-if Inv (ltb 0 t.num_exit_records) _ _
          (λ e. put-Inv k k.current t v there _ (running-ok _ was refl refl good.answered))
          (λ empty.
            put-Inv k k.current t v there
              (record t { wait_reason = WaitReason.child; state = waiting })
              (waiting-ok _ refl refl (ground arith) good.answered)))

  pub wait_notification_round-Inv :
      (mask : ℕ) → t.state ≡ running → After Inv (wait_notification_round k mask)
  unfolding wait_notification_round
  wait_notification_round-Inv mask was =
      rw (there, wait_notification_round)
        (After-if Inv (bit_and t.pending_notifications mask != 0) _ _
          (λ e. put-Inv k k.current t v there _ (running-ok _ was refl was good.answered))
          (λ silent.
            put-Inv k k.current t v there
              (record t {
                wait_reason = WaitReason.notify;
                wait_notify_mask = mask;
                state = waiting;
              })
              (waiting-ok _ refl refl (ground arith) good.answered)))

  -- What a receive takes leaves the rest of the task alone; it takes nothing only if there is nothing.
  try_receive-none : try_receive t ≡ none → (t.pending_notifications ≡ 0) × (t.messages.count ≡ 0)
  unfolding try_receive pop_notification pop_message
  try_receive-none h = ground (arith, pop-empty t.messages)

  abbrev Taken : Task × Message → Type 0
  Taken r =
      (r.0.id ≡ t.id)
      × (r.0.reply_pending ≡ t.reply_pending)
      × (r.0.reply_slot ≡ t.reply_slot)
      × (r.0.call_correlation ≡ t.call_correlation)

  try_receive-some : (r : Task × Message) → try_receive t ≡ some r → Taken r
  unfolding try_receive pop_notification pop_message
  try_receive-some r h = ground arith

  pub receive_round-Inv : t.state ≡ running → After Inv (receive_round k)
  unfolding receive_round
  receive_round-Inv was =
      rw (there, receive_round)
        (elim (Option-cases (try_receive t)) [
          | inl nothing ↦ rw nothing (
              put-Inv k k.current t v there
                (record t { wait_reason = WaitReason.receive; state = waiting })
                (waiting-ok _ refl refl (try_receive-none nothing) good.answered))
          | inr (r, something) ↦ rw something (
              put-Inv k k.current t v there
                (record r.0 { state = running; wait_reason = WaitReason.none })
                (running-ok _ was (try_receive-some r something).0 refl
                  (λ e. ground (arith, try_receive-some r something, good.answered))))
        ])

  pub reply-Inv : (req resp : Message) → After Inv (reply k req resp)
  unfolding reply
  reply-Inv req resp =
      After-if Inv (req.correlation == 0) _ _ (λ e. v)
        (λ e. rw there (send_message-Inv k v req.sender _))

  -- Opening a call, and ending it.
  pub open_call-Inv : t.state ≡ running → Inv (open_call k t)
  unfolding open_call
  open_call-Inv was = put-Inv k k.current t v there _ (running-ok _ was refl was (λ e. absurd (cc)))

  pub end_call-Inv : t.state ≡ running → Afterwards Inv (end_call k)
  unfolding end_call
  end_call-Inv was =
      rw (there, end_call)
        (put-Inv k k.current t v there (record t { call_correlation = 0 })
          (running-ok _ was refl was (λ e ne. absurd (ne refl))))

module _ (k : Kernel) (t : Task) (v : Inv k) (there : task_at k k.current ≡ some t) where
  -- The call's own section, once its task is written back: a failed send changes nothing.
  send_call-Inv : (dst : ℤ) (m : Message) → t.state ≡ running → After Inv (send_call k dst m)
  unfolding send_call
  send_call-Inv dst m was = elim (Option-cases (send_message k dst m)) [
    | inl out ↦ rw (out, send_call) tt
    | inr (r, sent) ↦
        rw (sent, send_call)
          (After-if Inv (is_err r.1) _ _
            (λ failed.
              subst (λ x. After Inv (elim (end_call x) [ none ↦ none | some k' ↦ some (k', r.1) ]))
                (sym (send_message-Unchanged k dst m r.0 r.1 sent failed))
                (ended r.1 (Option-cases (end_call k))))
            (λ done. subst (After Inv) sent (send_message-Inv k v dst m)))
  ]
    where
      ended :
          (e : ℤ)
          → (end_call k ≡ none) ⊎ ((k' : Kernel) × (end_call k ≡ some k'))
          → After Inv (elim (end_call k) [ none ↦ none | some k' ↦ some (k', e) ])
      ended e (inl out) = rw out tt
      ended e (inr (k', at)) = rw at (subst (Afterwards Inv) at (end_call-Inv k t v there was))

-- Starting a call keeps the invariant.
pub call_begin-Inv :
    (k : Kernel) (t : Task)
    → Inv k
    → task_at k k.current ≡ some t
    → t.state ≡ running
    → (dst : ℤ) (m : Message) → After Inv (call_begin k dst m)
unfolding call_begin open_call
call_begin-Inv k t v there was dst m =
    rw (there, call_begin)
      (After-if Inv (dst ==ℤ t.id) _ _ (λ e. v)
        (λ e.
          send_call-Inv (open_call k t) _ (open_call-Inv k t v there was)
            (task_at-put_self k k.current _ (task_at-lt k k.current there)) dst
            (stamped t (fresh_correlation t.next_correlation) m) was))

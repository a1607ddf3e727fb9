-- ===== src/Task/System/Delivery.antt =====
-- Sending keeps the invariant: messages, replies, calls and doorbells.
use uchos.Prelude.{
  ℕ, ◌≡◌, ◌≢◌, refl, sym, ap₂, ◌∙◌, Bool, true, false, ◌&&◌, ◌||◌, some, bit_and, bit_or, ◌==◌,
  ◌!=◌, if◌then◌else◌, arith, Bool-cases, Option-cases, inl, inr,
}
use uchos.Prelude.Bits.{bit_and-bit_or, bit_and_comm}
use uchos.Common.{ℤ, pos, ◌==ℤ◌, invalid_id, Message, ok}
use uchos.Task.MessageQueue.{push}
use uchos.Task.WaitReason.{WaitReason, is_reply, is_notify, is_receive_style}
use uchos.Task.State.{
  Task, waiting, is_waiting, NotifyType, notify_bit, Kernel, task_at, put, slot_of,
}
use uchos.Task.Scheduler.{schedule_task}
use uchos.Task.Ipc.{deliver_reply, deliver_request, deliver, send_message, ring_doorbell, notify}
use uchos.Task.System.Invariant.{Quiet, TaskOk, Inv, Woken, After, task-ok, put-Inv, wake-Inv}

module _ (k : Kernel) (d : ℕ) (t : Task) (v : Inv k) (there : task_at k d ≡ some t) where
  -- A task that differs in nothing that the invariant reads but what it may wait for.
  pub kept-ok :
      (t' : Task)
      → t'.id ≡ t.id
      → t'.state ≡ t.state
      → (t.state ≡ waiting → Quiet t'.wait_reason t')
      → (t'.reply_pending ≡ true
          → t'.call_correlation ≢ 0
          → t'.reply_slot.correlation ≡ t'.call_correlation)
      → TaskOk k.run_queue d t'
  kept-ok t' same-id same-state calm answered =
      let good = task-ok k d t v there in
      record {
        named = same-id ∙ good.named;
        calm = λ e. calm (sym same-state ∙ e);
        queued = λ e. good.queued (sym same-state ∙ e);
        unqueued = λ e. good.unqueued (sym same-state ∙ e);
        alive = λ e. good.alive (sym same-state ∙ e);
        answered = answered;
      }

  -- The two ways in which a delivery ends.
  wake_or_put-Inv :
      (b : Bool) (t' : Task) (e : ℤ)
      → Woken d t'
      → (b ≡ false → TaskOk k.run_queue d t')
      → Inv
          (if◌then◌else◌ {A = Kernel × ℤ} b
            (schedule_task (put k d t') (pos d), e)
            (put k d t', e)).0
  wake_or_put-Inv true t' e w good = wake-Inv k d t v there t' w
  wake_or_put-Inv false t' e w good = put-Inv k d t v there t' (good refl)

  -- A reply can only end a wait for a reply.
  reply-calm :
      (r : WaitReason) (m : Message)
      → is_reply r ≡ false
      → Quiet r t
      → Quiet r (record t { reply_slot = m; reply_pending = true })
  reply-calm WaitReason.none m h q = tt
  reply-calm WaitReason.receive m h q = q
  reply-calm WaitReason.notify m h q = q
  reply-calm WaitReason.reply m h q = cc h
  reply-calm WaitReason.child m h q = q

  -- A queued message can only end a wait in a receive.
  request-calm :
      (r : WaitReason) (m : Message)
      → is_receive_style r ≡ false
      → Quiet r t
      → Quiet r (record t { messages = (push t.messages m).0 })
  request-calm WaitReason.none m h q = tt
  request-calm WaitReason.receive m h q = cc h
  request-calm WaitReason.notify m h q = q
  request-calm WaitReason.reply m h q = q
  request-calm WaitReason.child m h q = q

  deliver_reply-Inv : (m : Message) → Inv (deliver_reply k d t m).0
  unfolding deliver_reply
  deliver_reply-Inv m =
      elim (Bool-cases
        (t.call_correlation == 0 || t.call_correlation != m.correlation || t.reply_pending)) [
          | inl stale ↦ rw stale v
          | inr fresh ↦
              let match : m.correlation ≡ t.call_correlation = ground arith in
              rw fresh (
                wake_or_put-Inv (is_waiting t.state && is_reply t.wait_reason)
                  (record t { reply_slot = m; reply_pending = true }) ok
                  (record { named = (task-ok k d t v there).named; answered = λ e ne. match })
                  (λ other.
                    kept-ok _ refl refl
                      (λ w.
                        reply-calm t.wait_reason m (ground arith) ((task-ok k d t v there).calm w))
                      (λ e ne. match)))
        ]

  deliver_request-Inv : (m : Message) → Inv (deliver_request k d t m).0
  unfolding deliver_request
  deliver_request-Inv m = elim (Bool-cases (push t.messages m).1) [
    | inr full ↦ rw full v
    | inl pushed ↦ rw pushed (
        wake_or_put-Inv (is_waiting t.state && is_receive_style t.wait_reason)
          (record t { messages = (push t.messages m).0 }) ok
          (record {
            named = (task-ok k d t v there).named;
            answered = (task-ok k d t v there).answered;
          })
          (λ other.
            kept-ok _ refl refl
              (λ w. request-calm t.wait_reason m (ground arith) ((task-ok k d t v there).calm w))
              (task-ok k d t v there).answered))
  ]

  -- A doorbell outside the mask leaves the masked bits alone.
  bell-calm :
      (r : WaitReason) (b : ℕ)
      → is_notify r ≡ true
      → bit_and t.wait_notify_mask b ≡ 0
      → Quiet r t
      → Quiet r (record t { pending_notifications = bit_or t.pending_notifications b })
  bell-calm WaitReason.none b h out q = cc
  bell-calm WaitReason.receive b h out q = cc h
  bell-calm WaitReason.notify b h out q =
      bit_and-bit_or t.pending_notifications b t.wait_notify_mask
      ∙ ap₂ bit_or q (bit_and_comm b t.wait_notify_mask ∙ out)
  bell-calm WaitReason.reply b h out q = cc
  bell-calm WaitReason.child b h out q = cc

  ring_doorbell-Inv : (type : NotifyType) → Inv (ring_doorbell k d t type)
  unfolding ring_doorbell
  ring_doorbell-Inv type =
      let good = task-ok k d t v there in
      let t' = record t {
        pending_notifications = bit_or t.pending_notifications (notify_bit type);
      } in
      elim (Bool-cases (is_waiting t.state)) [
        | inr awake ↦ rw awake (
            put-Inv k d t v there t'
              (kept-ok t' refl refl (λ w. absurd (ground arith)) good.answered))
        | inl asleep ↦
            rw asleep
              (elim (Bool-cases
                (is_notify t.wait_reason && (bit_and t.wait_notify_mask (notify_bit type) == 0))) [
                  | inl masked ↦ rw masked (
                      put-Inv k d t v there t' (
                        kept-ok t' refl refl
                          (λ w.
                            bell-calm t.wait_reason (notify_bit type) (ground arith) (ground arith)
                              (good.calm w))
                          good.answered))
                  | inr heard ↦ rw heard (
                      wake-Inv k d t v there t'
                        (record { named = good.named; answered = good.answered }))
                ])
      ]

module _ (k : Kernel) (v : Inv k) where
  deliver-Inv : (d : ℕ) (m : Message) → Inv (deliver k d m).0
  unfolding deliver
  deliver-Inv d m = elim (Option-cases (task_at k d)) [
    | inl gone ↦ rw (gone, deliver) v
    | inr (t, there) ↦
        rw (there, deliver)
          (elim (Bool-cases (bit_and m.flags 1 != 0)) [
            | inl reply ↦ rw reply (deliver_reply-Inv k d t v there m)
            | inr request ↦ rw request (deliver_request-Inv k d t v there m)
          ])
  ]

  -- Sending a message keeps the invariant.
  pub send_message-Inv : (dst : ℤ) (m : Message) → After Inv (send_message k dst m)
  unfolding send_message
  send_message-Inv dst m = elim (Bool-cases (dst ==ℤ invalid_id)) [
    | inl invalid ↦ rw invalid v
    | inr valid ↦ rw valid (elim (Option-cases (slot_of dst)) [
      | inl out ↦ rw out tt
      | inr (d, at) ↦ rw at (deliver-Inv d m)
    ])
  ]

  -- Ringing a doorbell keeps the invariant.
  pub notify-Inv : (dst : ℤ) (type : NotifyType) → Inv (notify k dst type)
  unfolding notify
  notify-Inv dst type = elim (Option-cases (slot_of dst)) [
    | inl out ↦ rw (out, notify) v
    | inr (d, at) ↦
        rw (at, notify)
          (elim (Option-cases (task_at k d)) [
            | inl gone ↦ rw gone v
            | inr (t, there) ↦ rw there (ring_doorbell-Inv k d t v there type)
          ])
  ]

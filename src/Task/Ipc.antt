-- ===== src/Task/Ipc.antt =====
-- kernel/task/ipc.cpp: messages, replies and doorbells.
-- Each function is one section of the source that runs with interrupts off; a blocking loop is given
-- by its rounds, and what other tasks and interrupts do between two rounds is left to the system
-- (Task/System). A result `none` stands for a read through a null pointer or outside `tasks`.
pub mod Mailbox
pub mod Doorbell
use uchos.Prelude.{
  ℕ, ◌+◌, ◌-◌, ◌%◌, ◌^◌, Bool, true, false, ◌&&◌, ◌||◌, Option, none, some, List, [], ◌∷◌, get_or,
  bit_and, bit_or, ◌==◌, ◌!=◌, if◌then◌else◌,
}
use uchos.Prelude.Bits.{count_trailing_zeros}
use uchos.Common.{
  ℤ, pos, ◌==ℤ◌, is_err, ok, err_invalid_arg, err_invalid_task, err_queue_full, invalid_id,
  interrupt_id, Message, MsgType, msg_flag_reply,
}
use uchos.Task.MessageQueue.{push, pop}
use uchos.Task.WaitReason.{WaitReason, is_notify, is_reply, is_receive_style}
use uchos.Task.State.{
  Task, running, waiting, is_waiting, NotifyType, notify_bit, Kernel, task_at, put, slot_of,
}
use uchos.Task.Scheduler.{blank, schedule_task}

-- `NOTIFY_MESSAGE_TYPES`, by bit.
abbrev pub notify_message_types : List MsgType
notify_message_types =
    MsgType.notify_xhci ∷ MsgType.notify_virtio_blk ∷ MsgType.notify_virtio_net_rx
    ∷ MsgType.notify_virtio_net_tx ∷ MsgType.notify_timer_timeout ∷ []

-- The message of a doorbell bit. `notify` sets the bits of `NotifyType` only; for another bit the source
-- would read behind the table, and the type is not meant to say anything.
abbrev pub synthesized : ℕ → Message
synthesized bit = record blank {
  type = get_or notify_message_types bit MsgType.notify_xhci;
  sender = interrupt_id;
}

-- The task afterwards and the message, or `none` for `false`.
unfoldable pub pop_notification : Task → Option (Task × Message)
pop_notification t =
    if t.pending_notifications == 0
    then none
    else some (
      record t {
        pending_notifications = bit_and t.pending_notifications (t.pending_notifications - 1);
      },
      synthesized (count_trailing_zeros 32 t.pending_notifications),
    )

-- `t->messages.pop(out)`. A slot outside the ring, which is never read, would leave `out` blank.
unfoldable pub pop_message : Task → Option (Task × Message)
pop_message t =
    let (q, out, popped) = pop t.messages in
    if popped
    then some (record t { messages = q }, elim out [ some m ↦ m | none ↦ blank ])
    else none

-- `try_receive`, on the task behind the pointer.
unfoldable pub try_receive : Task → Option (Task × Message)
unfolding pop_message
try_receive t = elim (pop_notification t) [ some r ↦ some r | none ↦ pop_message t ]

-- A reply, into the reply slot of the task in slot `d`.
unfoldable pub deliver_reply : Kernel → ℕ → Task → Message → Kernel × ℤ
deliver_reply k d t m =
    if t.call_correlation == 0 || t.call_correlation != m.correlation || t.reply_pending
    then (k, err_invalid_arg)
    else let k' = put k d (record t { reply_slot = m; reply_pending = true }) in
      if is_waiting t.state && is_reply t.wait_reason
      then (schedule_task k' (pos d), ok)
      else (k', ok)

-- Anything else, into its ring.
unfoldable pub deliver_request : Kernel → ℕ → Task → Message → Kernel × ℤ
deliver_request k d t m =
    let (q, pushed) = push t.messages m in
    if pushed
    then (let k' = put k d (record t { messages = q }) in
        if is_waiting t.state && is_receive_style t.wait_reason
        then (schedule_task k' (pos d), ok)
        else (k', ok))
    else (k, err_queue_full)

unfoldable pub deliver : Kernel → ℕ → Message → Kernel × ℤ
unfolding deliver_reply deliver_request
deliver k d m = elim (task_at k d) [
  | none ↦ (k, err_invalid_task)
  | some t ↦
      if bit_and m.flags msg_flag_reply != 0 then deliver_reply k d t m else deliver_request k d t m
]

-- The kernel afterwards and the error code. Of the ids outside `tasks` only -1 is refused: any other
-- is read outside the array. The source looks the destination up before it turns interrupts off; here
-- the lookup belongs to the section that follows.
unfoldable pub send_message : Kernel → ℤ → Message → Option (Kernel × ℤ)
unfolding deliver
send_message k dst m =
    if dst ==ℤ invalid_id
    then some (k, err_invalid_arg)
    else elim (slot_of dst) [ none ↦ none | some d ↦ some (deliver k d m) ]

-- The next correlation id: 0 is skipped when the counter wraps.
unfoldable pub fresh_correlation : ℕ → ℕ
fresh_correlation c = let next = (c + 1) % 2 ^ 32 in if next == 0 then (next + 1) % 2 ^ 32 else next

-- The request as `call` sends it: the sender is forced and the reply flag is cleared.
abbrev pub stamped : Task → ℕ → Message → Message
stamped t c m = record m {
  sender = t.id;
  correlation = c;
  flags = bit_and m.flags 0xFFFF_FFFE;
  result = ok;
}

-- After a failed send no call is outstanding.
unfoldable pub end_call : Kernel → Option Kernel
end_call k = elim (task_at k k.current) [
  | none ↦ none
  | some t ↦ some (put k k.current (record t { call_correlation = 0 }))
]

unfoldable pub send_call : Kernel → ℤ → Message → Option (Kernel × ℤ)
unfolding end_call
send_call k dst m = elim (send_message k dst m) [
  | none ↦ none
  | some (k', err) ↦
      if is_err err
      then elim (end_call k') [ none ↦ none | some k'' ↦ some (k'', err) ]
      else some (k', ok)
]

-- The section of `call` that marks the call as outstanding.
unfoldable pub open_call : Kernel → Task → Kernel
open_call k t =
    let c = fresh_correlation t.next_correlation in
    put k k.current (record t { next_correlation = c; call_correlation = c; reply_pending = false })

-- `call` up to its loop; on `ok` the rounds of `call_round` follow.
unfoldable pub call_begin : Kernel → ℤ → Message → Option (Kernel × ℤ)
unfolding open_call send_call
call_begin k dst m = elim (task_at k k.current) [
  | none ↦ none
  | some t ↦
      if dst ==ℤ t.id
      then some (k, err_invalid_arg)
      else send_call (open_call k t) dst (stamped t (fresh_correlation t.next_correlation) m)
]

-- One round of the loop of `call`: the reply, or the task is set waiting for it.
unfoldable pub call_round : Kernel → Option (Kernel × Option Message)
call_round k = elim (task_at k k.current) [
  | none ↦ none
  | some t ↦
      if t.reply_pending
      then some (
        put k k.current (record t {
          reply_pending = false;
          call_correlation = 0;
          state = running;
          wait_reason = WaitReason.none;
        }),
        some t.reply_slot,
      )
      else some
          (put k k.current (record t { wait_reason = WaitReason.reply; state = waiting }), none)
]

unfoldable pub reply : Kernel → Message → Message → Option (Kernel × ℤ)
reply k req resp = if req.correlation == 0 then some (k, ok) else elim (task_at k k.current) [
  | none ↦ none
  | some t ↦ send_message k req.sender (record resp {
    sender = t.id;
    correlation = req.correlation;
    flags = bit_or resp.flags msg_flag_reply;
  })
]

-- The doorbell rung at the task in slot `d`.
unfoldable pub ring_doorbell : Kernel → ℕ → Task → NotifyType → Kernel
ring_doorbell k d t type =
    let k' =
      put k d
        (record t { pending_notifications = bit_or t.pending_notifications (notify_bit type) }) in
    if is_waiting t.state
    then (if is_notify t.wait_reason && (bit_and t.wait_notify_mask (notify_bit type) == 0)
        then k'
        else schedule_task k' (pos d))
    else k'

unfoldable pub notify : Kernel → ℤ → NotifyType → Kernel
unfolding ring_doorbell
notify k dst type = elim (slot_of dst) [
  | none ↦ k
  | some d ↦ elim (task_at k d) [ none ↦ k | some t ↦ ring_doorbell k d t type ]
]

-- One round of `receive_blocking`: a message, or the task is set waiting for one.
unfoldable pub receive_round : Kernel → Option (Kernel × Option Message)
receive_round k = elim (task_at k k.current) [
  | none ↦ none
  | some t ↦ elim (try_receive t) [
    | some (t', m) ↦
        some
          (put k k.current (record t' { state = running; wait_reason = WaitReason.none }), some m)
    | none ↦
        some
          (put k k.current (record t { wait_reason = WaitReason.receive; state = waiting }), none)
  ]
]

-- One round of `wait_notification`; `true` when it returns. `&= ~mask` takes away the masked bits.
unfoldable pub wait_notification_round : Kernel → ℕ → Option (Kernel × Bool)
wait_notification_round k mask = elim (task_at k k.current) [
  | none ↦ none
  | some t ↦
      if bit_and t.pending_notifications mask != 0
      then some (
        put k k.current (record t {
          pending_notifications = t.pending_notifications - bit_and t.pending_notifications mask;
          wait_reason = WaitReason.none;
        }),
        true,
      )
      else some (
        put k k.current (record t {
          wait_reason = WaitReason.notify;
          wait_notify_mask = mask;
          state = waiting;
        }),
        false,
      )
]

-- ===== src/Task/Ipc/Doorbell.antt =====
-- What a receive drains of the doorbells, and the numbers of calls.
use uchos.Prelude.{
  zero, suc, ℕ, ◌+◌, ◌-◌, ◌<◌, ◌^◌, ◌≡◌, ◌≢◌, refl, some, bit_and, ==_false, arith, get_elem?, suc,
}
use uchos.Prelude.Bits.{count_trailing_zeros, bit_and-pred_lowest}
use uchos.Prelude.Bits.Width.{pow-lt}
use uchos.Task.State.{Task}
use uchos.Task.Ipc.{
  pop_notification, try_receive, synthesized, fresh_correlation, notify_message_types,
}

-- The doorbell that is drained first.
abbrev pub lowest : Task → ℕ
lowest t = count_trailing_zeros 32 t.pending_notifications

lowest-lt :
    (t : Task) (left : ℕ)
    → t.pending_notifications < 2 ^ 5
    → left + 2 ^ lowest t ≡ t.pending_notifications
    → lowest t < 5
lowest-lt t left known e = pow-lt (lowest t) 5 (omega (arith, known, e))

-- Every bit of a doorbell has its message type.
get_elem?-notify_message_types :
    (bit : ℕ) → bit < 5 → get_elem? notify_message_types bit ≡ some (synthesized bit).type
get_elem?-notify_message_types zero h = refl
get_elem?-notify_message_types (suc zero) h = refl
get_elem?-notify_message_types (suc (suc zero)) h = refl
get_elem?-notify_message_types (suc (suc (suc zero))) h = refl
get_elem?-notify_message_types (suc (suc (suc (suc zero)))) h = refl
get_elem?-notify_message_types (suc (suc (suc (suc (suc b))))) h = absurd (omega (arith, h))

-- With a doorbell of the five kinds pending and no other bit, a receive takes exactly the lowest one,
-- gives the message whose type the table of the kinds has for its bit, and leaves the rest of the task,
-- its ring among it, as it was.
pub try_receive_lem :
    (t : Task)
    → 0 < t.pending_notifications
    → t.pending_notifications < 2 ^ 5
    → (left : ℕ) × (try_receive t
        ≡ some (record t { pending_notifications = left }, synthesized (lowest t)))
      × (left + 2 ^ lowest t ≡ t.pending_notifications)
      × (get_elem? notify_message_types (lowest t) ≡ some (synthesized (lowest t)).type)
unfolding try_receive pop_notification
try_receive_lem t rung known = (
  bit_and t.pending_notifications (t.pending_notifications - 1),
  rw
      (
        ==_false t.pending_notifications 0 (λ e. omega (arith, rung, e)),
        try_receive,
        pop_notification,
      )
      refl,
  drained,
  get_elem?-notify_message_types (lowest t)
      (lowest-lt t (bit_and t.pending_notifications (t.pending_notifications - 1)) known drained),
)
  where
    drained :
        bit_and t.pending_notifications (t.pending_notifications - 1) + 2 ^ lowest t
        ≡ t.pending_notifications
    drained = bit_and-pred_lowest 32 t.pending_notifications rung (omega (arith, known))

-- The number of a new call is a 32-bit number, never 0, which stands for no call, and differs from
-- the number of the call before.
pub fresh_correlation_lem :
    (c : ℕ)
    → c < 2 ^ 32
    → (fresh_correlation c ≢ 0) × (fresh_correlation c < 2 ^ 32) × (fresh_correlation c ≢ c)
unfolding fresh_correlation
fresh_correlation_lem c width = (λ e. ground arith, ground arith, λ e. ground arith)

-- ===== src/Task/WaitReason.antt =====
-- kernel/task/task.hpp: why a waiting task is asleep.
use uchos.Prelude.{Bool, true, false}

pub data WaitReason : Type 0 where
  none receive notify reply child : WaitReason

abbrev pub is_notify : WaitReason → Bool
is_notify notify = true
is_notify r = false

abbrev pub is_reply : WaitReason → Bool
is_reply reply = true
is_reply r = false

abbrev pub is_child : WaitReason → Bool
is_child child = true
is_child r = false

-- `RECEIVE` or `NONE`.
abbrev pub is_receive_style : WaitReason → Bool
is_receive_style receive = true
is_receive_style none = true
is_receive_style r = false

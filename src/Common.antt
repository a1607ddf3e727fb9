-- ===== src/Common.antt =====
-- libs/common: the types that the kernel and its services share.
use uchos.Prelude.{ℕ, List, Bool, true, false, ◌==◌}

-- An `int`: `negsuc n` is -(n + 1).
pub data ℤ : Type 0 where
  pos : ℕ → ℤ
  negsuc : ℕ → ℤ

infix 50 ◌==ℤ◌
abbrev pub ◌==ℤ◌ : ℤ → ℤ → Bool
pos a ==ℤ pos b = a == b
pos a ==ℤ negsuc b = false
negsuc a ==ℤ pos b = false
negsuc a ==ℤ negsuc b = a == b

-- types.hpp: `ErrorCode` and `IS_ERR`.
abbrev pub is_err : ℤ → Bool
is_err (pos n) = false
is_err (negsuc n) = true

abbrev pub ok : ℤ
ok = pos 0

abbrev pub err_no_memory : ℤ
err_no_memory = negsuc 1

abbrev pub err_invalid_arg : ℤ
err_invalid_arg = negsuc 2

abbrev pub err_invalid_task : ℤ
err_invalid_task = negsuc 3

abbrev pub err_invalid_fd : ℤ
err_invalid_fd = negsuc 4

abbrev pub err_queue_full : ℤ
err_queue_full = negsuc 11

abbrev pub err_no_file : ℤ
err_no_file = negsuc 7

abbrev pub err_failed_read_from_device : ℤ
err_failed_read_from_device = negsuc 12

abbrev pub no_fd : ℤ
no_fd = negsuc 0

-- process_id.hpp: the raw value of a `ProcessId`; -1 is `INVALID`.
abbrev pub invalid_id : ℤ
invalid_id = negsuc 0

abbrev pub fs_fat32_id : ℤ
fs_fat32_id = pos 4

abbrev pub shell_id : ℤ
shell_id = pos 5

abbrev pub interrupt_id : ℤ
interrupt_id = pos 100

-- message.hpp.
pub data MsgType : Type 0 where
  notify_xhci notify_virtio_blk notify_virtio_net_rx notify_virtio_net_tx : MsgType
  notify_timer_timeout notify_key_input notify_write shell_command_done : MsgType
  kernel_task_ready kernel_memory_usage kernel_pci_list input_set_focus : MsgType
  blk_read blk_write net_rx net_tx net_send : MsgType
  fs_stat fs_load fs_list_dir fs_open fs_close fs_read fs_write fs_mkfile : MsgType
  fs_register_path fs_pwd fs_change_dir fs_dup2 smoke_report : MsgType

pub record OolDesc : Type 0 where
  pub addr : ℕ
  pub size : ℕ

-- The union `data`; `empty` stands for a message that sets none of it.
pub data Payload : Type 0 where
  empty : Payload
  init : ℤ → Payload
  key_input : ℕ → ℕ → ℤ → Payload
  write : List ℕ → Payload
  memory_usage : ℕ → ℕ → Payload
  blk : ℕ → ℕ → Payload
  fs : ℤ → ℤ → ℕ → ℕ → List ℕ → Payload
  smoke : ℤ → Payload

pub record Message : Type 0 where
  pub type : MsgType
  pub sender : ℤ
  pub correlation : ℕ
  pub flags : ℕ
  pub result : ℤ
  pub ool : OolDesc
  pub body : Payload

abbrev pub no_ool : OolDesc
no_ool = record { addr = 0; size = 0 }

abbrev pub msg_flag_reply : ℕ
msg_flag_reply = 1

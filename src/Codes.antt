-- ===== src/Codes.antt =====
-- The return codes of vsc_main.c and vsc_ioctl.c, and the constants of vsc.h and of the kernel's
-- SCSI headers that they use.
use vsc.Base.{ℕ, Bool, true, false, ◌+◌, ◌*◌, ◌^◌}

-- The error numbers that the driver returns, without their sign.
pub data Errno : Type 0 where
  eperm eio eagain enomem eacces efault ebusy eexist enodev einval enodata ealready ebadf : Errno
  eintr enotty enoent enotsupp erestartsys enospc : Errno

-- What an `int` or `ssize_t` function returns: zero or a length, a negated error number, or
-- nothing, because it went through a null pointer.
pub data Ret : Type 0 where
  ok : ℕ → Ret
  err : Errno → Ret
  oops : Ret

-- `retval < 0`, which covers no crash.
abbrev pub is_err : Ret → Bool
is_err (ok n) = false
is_err (err e) = true
is_err oops = false

-- The host bytes of a result (scsi/scsi.h).
abbrev pub did_ok : ℕ
did_ok = 0

abbrev pub did_no_connect : ℕ
did_no_connect = 0x01

abbrev pub did_time_out : ℕ
did_time_out = 0x03

abbrev pub did_abort : ℕ
did_abort = 0x05

abbrev pub did_error : ℕ
did_error = 0x07

abbrev pub did_soft_error : ℕ
did_soft_error = 0x0b

abbrev pub did_requeue : ℕ
did_requeue = 0x0d

-- `code << 16`.
abbrev pub host_byte_of : ℕ → ℕ
host_byte_of code = code * 2 ^ 16

-- `MAX_BATCH_SCSI_CMD_COUNT` and `MAX_BATCH_SCSI_RSP_COUNT`.
abbrev pub max_batch_scsi_cmd_count : ℕ
max_batch_scsi_cmd_count = 4

abbrev pub max_batch_scsi_rsp_count : ℕ
max_batch_scsi_rsp_count = 4

-- `sizeof(struct vsc_scsi_msg)`, ten words, and `sizeof(struct vsc_scsi_rsp_msg)`, seven.
abbrev pub sizeof_scsi_msg : ℕ
sizeof_scsi_msg = 40

abbrev pub sizeof_scsi_rsp_msg : ℕ
sizeof_scsi_rsp_msg = 28

abbrev pub scsi_max_data_buf_size : ℕ
scsi_max_data_buf_size = 256

-- `MAX_SCSI_MSG_AND_CDB_LENGTH`, with a CDB of 16 bytes.
abbrev pub max_scsi_msg_and_cdb_length : ℕ
max_scsi_msg_and_cdb_length = (sizeof_scsi_msg + 16) * max_batch_scsi_cmd_count

-- `MAX_SCSI_DATA_AND_RSP_LENGTH`.
abbrev pub max_scsi_data_and_rsp_length : ℕ
max_scsi_data_and_rsp_length =
    (scsi_max_data_buf_size + sizeof_scsi_rsp_msg) * max_batch_scsi_rsp_count

-- `VSC_DISK_PREPARE_DELETE`, a state of a volume.
abbrev pub disk_prepare_delete : ℕ
disk_prepare_delete = 9

-- A page, and `sizeof(e->event_data)`.
abbrev pub page_size : ℕ
page_size = 4096

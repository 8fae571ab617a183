-- ===== src/Params.antt =====
-- vsc_main.c, vsc_log.c: the parameters of the module, as the load of the module, the proc file and
-- sysfs set them.
pub mod Batches
pub mod Level
mod Tests
use vsc.Base.{
  ℕ, ◌+◌, ◌*◌, ◌/◌, ◌^◌, Bool, true, false, not, ◌&&◌, Option, none, some, ◌==◌, ltb, leb,
  if◌then◌else◌, u32,
}
use vsc.Codes.{Ret, ok, err, oops, efault, einval}

-- `io_per_host` and `io_per_host_shift`.
pub record Params : Type 0 where
  pub io_per_host : ℕ
  pub io_per_host_shift : ℕ

-- The switch of `vsc_init`; `none` is a value that it refuses.
unfoldable pub init_params : Params → Option Params
init_params p =
    if p.io_per_host == 0
    then some p
    else if p.io_per_host == 1
    then some (record p { io_per_host_shift = 0 })
    else if p.io_per_host == 2
    then some (record p { io_per_host_shift = 1 })
    else if p.io_per_host == 4
    then some (record p { io_per_host_shift = 2 })
    else none

-- The buffer of `vsc_seq_write`.
abbrev pub seq_buf_size : ℕ
seq_buf_size = 128

-- The commands of `vsc_seq_write`, by their first byte.
unfoldable pub seq_command : ℕ → Params → Params
seq_command c p =
    if c == b'4'
    then record { io_per_host = 4; io_per_host_shift = 2 }
    else if c == b'2'
    then record { io_per_host = 2; io_per_host_shift = 1 }
    else if c == b'1'
    then record { io_per_host = 1; io_per_host_shift = 0 }
    else if c == b'0'
    then record p { io_per_host = 0 }
    else p

-- `vsc_seq_write` of a file that is not null: `readable` says that `copy_from_user` succeeds, `head`
-- is the first byte of the buffer after it. Nothing bounds the length: `oops` is a write behind the
-- buffer.
unfoldable pub seq_write : ℕ → Bool → ℕ → Params → Ret × Params
unfolding seq_command
seq_write len readable head p =
    if ltb seq_buf_size len
    then (oops, p)
    else if not readable
    then (err efault, p)
    else (ok len, seq_command head p)

-- `VSC_TYPE_COUNT`.
abbrev pub type_count : ℕ
type_count = 3

-- `vsc_set_log_level`. The outer `none` is a null pointer; the inner option is what `simple_strtoul`
-- makes of the text, `none` if there is no number in it. The number is converted to an `int`: from
-- 2 ^ 31 on it is negative, and no more compared as a large one.
unfoldable pub set_log_level : Option (Option ℕ) → ℕ → Ret × ℕ
set_log_level none level = (err einval, level)
set_log_level (some none) level = (err einval, level)
set_log_level (some (some v)) level =
    if leb type_count (u32 v) && ltb (u32 v) (2 ^ 31) then (err einval, level) else (ok 0, u32 v)

-- `vsc_set_trace_swtich`.
unfoldable pub set_trace_switch : Option (Option ℕ) → ℕ → Ret × ℕ
set_trace_switch none switch = (err einval, switch)
set_trace_switch (some none) switch = (err einval, switch)
set_trace_switch (some (some v)) switch = (ok 0, v)

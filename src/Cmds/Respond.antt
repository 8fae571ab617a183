-- ===== src/Cmds/Respond.antt =====
-- vsc_main.c: the answers of user space (`vsc_response_scsi_cmd_new`, `vsc_response_multi_scsi_cmd`).
use Prim.Native.Nat.{bit_or}
use vsc.Base.{
  ℕ, ◌+◌, ◌*◌, ◌%◌, ◌^◌, List, [], ◌∷◌, Bool, true, false, ◌||◌, ◌&&◌, not, none, some, ◌==◌, leb,
  ltb, if◌then◌else◌, take, u32, inc32, dec32,
}
use vsc.Codes.{
  Ret, ok, err, oops, eio, einval, efault, host_byte_of, did_ok, did_no_connect, did_error,
  did_time_out, did_soft_error, did_requeue, sizeof_scsi_rsp_msg, max_batch_scsi_rsp_count,
}
use vsc.Cmds.{
  Cmds, CmdStat, init, request, read_comp, resp, linked, remove_q, set_stat, cmd_put, scsi_done,
}

-- `struct vsc_scsi_rsp_msg`, without `type`, which the code does not read.
pub record RspMsg : Type 0 where
  pub reserved0 : ℕ
  pub cmd_sn : ℕ
  pub tag : ℕ
  pub command_status : ℕ
  pub scsi_status : ℕ

-- `vsc_sense_check`: the result of the command after it, from the result before. 0 is
-- `CMD_SUCCESS`, 1 `CMD_FAILURE`, 2 `CMD_INVALID`, 3 `CMD_CONNECTION_LOST`, 4 `CMD_TIMEOUT`,
-- 5 `CMD_PROTOCOL_ERR`, 6 `CMD_NEED_RETRY`.
unfoldable pub sense_check : ℕ → ℕ → ℕ
sense_check status result =
    if status == 0
    then result
    else if status == 1
    then result
    else if status == 2
    then host_byte_of did_no_connect
    else if status == 3
    then host_byte_of did_error
    else if status == 4
    then host_byte_of did_time_out
    else if status == 5
    then host_byte_of did_soft_error
    else if status == 6
    then host_byte_of did_requeue
    else host_byte_of did_error

-- The `result` that is reported: `COMMAND_COMPLETE` is 0, and `& 0x7F` is `% 128`.
unfoldable pub final_result : RspMsg → ℕ
unfolding sense_check
final_result m =
    bit_or (bit_or (sense_check m.command_status (host_byte_of did_ok)) (0 * 2 ^ 8))
      (m.scsi_status % 128 * 2)

abbrev pub is_read_comp : CmdStat → Bool
is_read_comp read_comp = true
is_read_comp init = false
is_read_comp request = false
is_read_comp resp = false

-- The part after the checks: unlink, report the result, release.
unfoldable pub complete : RspMsg → Cmds → ℕ → Ret × Cmds
unfolding remove_q set_stat final_result cmd_put
complete m q c =
    let r = set_stat (remove_q q c) c resp in
    let s = record r { io_running = dec32 r.io_running } in
    elim (q.cmd_pool_tbl c).scsi_cmd [
      | none ↦ (oops, r)
      | some sc ↦ (ok 0, cmd_put (scsi_done s sc (final_result m)) c)
    ]

-- `vsc_response_scsi_cmd_new` of a host that is not null. On an error `c` is null at `errout`.
unfoldable pub response_scsi_cmd_new : RspMsg → Cmds → Ret × Cmds
unfolding complete
response_scsi_cmd_new m q =
    let c = q.cmd_pool_tbl m.tag in
    if leb q.nr_cmds m.tag
    then (err eio, q)
    else if not (is_read_comp c.stat) || not (c.cmd_sn == m.cmd_sn)
    then (err eio, q)
    else if not (linked q m.tag)
    then (err eio, q)
    else complete m q m.tag

-- What the loop of `vsc_response_multi_scsi_cmd` does after an answer: `rest`, or return.
abbrev pub go_on : Ret → Cmds → Ret × Cmds → Ret × Cmds
go_on (ok _) q rest = rest
go_on (err _) q rest = (err eio, q)
go_on oops q rest = (oops, q)

-- The loop itself, over the messages that are left.
unfoldable pub respond_each : List RspMsg → Cmds → Ret × Cmds
unfolding response_scsi_cmd_new
respond_each [] q = (ok 0, q)
respond_each (m ∷ ms) q =
    go_on (response_scsi_cmd_new m q).0 (response_scsi_cmd_new m q).1
      (respond_each ms (response_scsi_cmd_new m q).1)

-- The counters after the loop.
abbrev pub count_rsp : ℕ → Ret × Cmds → Ret × Cmds
count_rsp n (ok v, q) = (
  ok v,
  record q { put_rsp_times = inc32 q.put_rsp_times; put_rsp_total = u32 (q.put_rsp_total + n) },
)
count_rsp n (err e, q) = (err e, q)
count_rsp n (oops, q) = (oops, q)

-- A count that is kept in an `int`: whether it exceeds `m`, and the rounds of a loop up to it.
abbrev pub exceeds : ℕ → ℕ → Bool
exceeds n m = ltb m n && ltb n (2 ^ 31)

abbrev pub rounds : ℕ → ℕ
rounds n = if ltb n (2 ^ 31) then n else 0

-- `rsp_msg->reserved[0]` of the buffer.
abbrev pub head_count : List RspMsg → ℕ
head_count [] = 0
head_count (m ∷ _) = m.reserved0

-- `vsc_response_multi_scsi_cmd` for a buffer of `len` bytes that holds `buf`.
unfoldable pub response_multi_scsi_cmd : ℕ → List RspMsg → Cmds → Ret × Cmds
unfolding respond_each
response_multi_scsi_cmd len buf q =
    let n = head_count buf in
    if not (len == sizeof_scsi_rsp_msg * max_batch_scsi_rsp_count)
    then (err efault, q)
    else if n == 0 || exceeds n max_batch_scsi_rsp_count
    then (err einval, q)
    else count_rsp n (respond_each (take (rounds n) buf) q)

-- ===== src/Hosts/Queue.antt =====
-- vsc_main.c: the whole of `vsc_scsi_queue_command`, with the choice of the host.
use vsc.Base.{
  ℕ, ◌+◌, ◌/◌, ◌%◌, ◌^◌, List, [], ◌∷◌, ◌++◌, Bool, ◌||◌, Option, none, some, ◌==◌, leb, u32, u64,
  if◌then◌else◌,
}
use vsc.Codes.{disk_prepare_delete, did_no_connect, host_byte_of}
use vsc.Cmds.{Cmds, ScsiCmnd, Done}
use vsc.Cmds.Io.{submit}
use vsc.Hosts.{HostMgr, max_host_nr_per_vbs}

-- The operation codes of the SCSI headers, in the order of the `switch`.
abbrev pub is_write_cmd : ℕ → Bool
is_write_cmd op = (op == 0x0a) || ((op == 0x2a) || ((op == 0xaa) || (op == 0x8a)))

abbrev pub is_read_cmd : ℕ → Bool
is_read_cmd op = (op == 0x08) || ((op == 0x28) || ((op == 0xa8) || (op == 0x88)))

-- `vsc_is_readwrite_cmd`.
abbrev pub is_readwrite_cmd : ℕ → Bool
is_readwrite_cmd op = is_write_cmd op || is_read_cmd op

-- What the call returns: 0, `FAILED` or `SCSI_MLQUEUE_HOST_BUSY`.
pub data Queued : Type 0 where
  taken finished refused busy : Queued

-- The `vsc_ioctl_disk_vol_name` of a disk: its `state` and the counter at `extend`.
pub record Volume : Type 0 where
  pub state : ℕ
  pub extend : ℕ

-- What the call changes: the queues of each host, the counter of the disk, and the commands that
-- it completes itself.
pub record Hba : Type 0 where
  pub hosts : ℕ → Cmds
  pub volume : Volume
  pub finished_here : List Done

-- `sc->cmnd[0]`.
abbrev pub opcode : List ℕ → ℕ
opcode [] = 0
opcode (b ∷ _) = b

-- The turn of a read or write that is the `sn`-th of its disk. A manager has a host, or the
-- division would fault.
abbrev pub turn : ℕ → ℕ → ℕ → ℕ
turn shift sn count = u32 sn / 2 ^ shift % count

-- The index in `host_list`, and the counter afterwards.
unfoldable pub host_index : ℕ → HostMgr → ℕ → ℕ → ℕ × ℕ
host_index shift mgr op extend =
    let sn = u64 (extend + 1) in
    if is_readwrite_cmd op then (turn shift sn mgr.host_count, sn) else (0, extend)

-- The entry at the index, unless it is out of range.
abbrev pub entry_at : HostMgr → ℕ → Option ℕ
entry_at mgr i = if leb max_host_nr_per_vbs i then none else mgr.host_list i

-- The host that is to serve the command, if there is one, and the counter afterwards.
unfoldable pub choose_host : ℕ → ℕ → Option HostMgr → ℕ → ℕ → ℕ → Option ℕ × ℕ
unfolding host_index
choose_host io_per_host shift siblings orig op extend =
    if io_per_host == 0 then (some orig, extend) else elim siblings [
      | none ↦ (none, extend)
      | some mgr ↦
          (entry_at mgr (host_index shift mgr op extend).0, (host_index shift mgr op extend).1)
    ]

-- An assignment to the queues of one host.
abbrev pub put_cmds : (ℕ → Cmds) → ℕ → Cmds → ℕ → Cmds
put_cmds hosts h q j = if h == j then q else hosts j

abbrev pub answer_of : Option ℕ → Queued
answer_of none = busy
answer_of (some tag) = taken

-- The part after the choice.
unfoldable pub queue_on : Option ℕ → Hba → ScsiCmnd → Queued × Hba
unfolding submit
queue_on none w sc = (refused, w)
queue_on (some h) w sc =
    let (got, q) = submit (w.hosts h) sc in
    (answer_of got, record w { hosts = put_cmds w.hosts h q })

-- `vsc_scsi_queue_command`, for a device whose host is `orig`, not null, with the manager that its
-- `silbing_hosts` points at.
unfoldable pub queue_command : ℕ → ℕ → Option HostMgr → ℕ → Hba → ScsiCmnd → Queued × Hba
unfolding choose_host queue_on
queue_command io_per_host shift siblings orig w sc =
    if w.volume.state == disk_prepare_delete
    then (
      finished,
      record w {
        finished_here =
            w.finished_here ++ record { sc = sc; result = host_byte_of did_no_connect } ∷ [];
      },
    )
    else (let (h, sn) =
          choose_host io_per_host shift siblings orig (opcode sc.cmnd) w.volume.extend in
        queue_on h (record w { volume = record w.volume { extend = sn } }) sc)

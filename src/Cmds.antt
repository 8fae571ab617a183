-- ===== src/Cmds.antt =====
-- vsc_main.c: the command part of `struct vsc_ctrl_info`, its pool of `struct vsc_cmnd_list` and
-- its three queues. A command is named by its index in the pool, its tag.
pub mod Io
pub mod Drain
pub mod Read
pub mod Respond
pub mod Result
pub mod Inv
pub mod Account
mod Tests
use vsc.Base.{
  ℕ, suc, zero, ◌+◌, ◌++◌, List, [], ◌∷◌, Bool, true, false, ◌||◌, Option, none, some, ◌==◌, leb,
  if◌then◌else◌, update, mem, remove, u32, u64, inc32, dec32,
}

-- `enum cmd_stat`.
pub data CmdStat : Type 0 where
  init request read_comp resp : CmdStat

-- `enum queue_type`.
pub data QueueType : Type 0 where
  reqq comq rspq : QueueType

-- What the driver reads of a `struct scsi_cmnd` of the mid-layer; `ident` is its address.
pub record ScsiCmnd : Type 0 where
  pub ident : ℕ
  pub cmnd : List ℕ
  pub channel : ℕ
  pub id : ℕ
  pub lun : ℕ
  pub direction : ℕ

-- `struct vsc_cmnd_list`. Its list node is modelled by the queues, its `h` by the owning pool.
pub record Cmd : Type 0 where
  pub cmd_index : ℕ
  pub stat : CmdStat
  pub scsi_cmd : Option ScsiCmnd
  pub cmd_sn : ℕ
  pub refcnt : ℕ

-- One call of `scsi_done`, with the `result` that the command had then.
pub record Done : Type 0 where
  pub sc : ScsiCmnd
  pub result : ℕ

-- The command fields of `struct vsc_ctrl_info`, and the calls of `scsi_done` made so far.
pub record Cmds : Type 0 where
  pub nr_cmds : ℕ
  pub io_running : ℕ
  pub req_q : List ℕ
  pub cmp_q : List ℕ
  pub rsp_q : List ℕ
  pub qdepth : ℕ
  pub cmd_sn : ℕ
  pub cmd_pool_tbl : ℕ → Cmd
  pub cmd_pool_bits : ℕ → Bool
  pub get_cmd_times : ℕ
  pub get_cmd_total : ℕ
  pub put_rsp_times : ℕ
  pub put_rsp_total : ℕ
  pub completed : List Done

-- All queued commands.
abbrev pub queued : Cmds → List ℕ
queued q = q.req_q ++ (q.cmp_q ++ q.rsp_q)

-- `!list_empty(&c->list)`: the node is linked into one of the queues.
abbrev pub linked : Cmds → ℕ → Bool
linked q c = mem c q.req_q || (mem c q.cmp_q || mem c q.rsp_q)

-- `list_del_init(&c->list)`, whichever queue holds the node.
unfoldable pub remove_q : Cmds → ℕ → Cmds
remove_q q c = record q {
  req_q = remove c q.req_q;
  cmp_q = remove c q.cmp_q;
  rsp_q = remove c q.rsp_q;
}

-- An assignment to a field of the command at index `c`.
abbrev pub set_cmd : Cmds → ℕ → Cmd → Cmds
set_cmd q c v = record q { cmd_pool_tbl = update q.cmd_pool_tbl c v }

unfoldable pub set_stat : Cmds → ℕ → CmdStat → Cmds
set_stat q c s = set_cmd q c (record (q.cmd_pool_tbl c) { stat = s })

-- A loop that sets the `stat` of each command of a list.
unfoldable pub mark_stat : CmdStat → List ℕ → (ℕ → Cmd) → ℕ → Cmd
mark_stat s [] tbl = tbl
mark_stat s (c ∷ cs) tbl = mark_stat s cs (update tbl c (record (tbl c) { stat = s }))

-- The first of the `n` bits from `i` on that is clear, and `i + n` if none is.
unfoldable pub find_zero_from : (ℕ → Bool) → ℕ → ℕ → ℕ
find_zero_from bits zero i = i
find_zero_from bits (suc n) i = elim (bits i) [ true ↦ find_zero_from bits n (i + 1) | false ↦ i ]

abbrev pub find_first_zero_bit : (ℕ → Bool) → ℕ → ℕ
find_first_zero_bit bits size = find_zero_from bits size 0

-- `vsc_cmd_alloc`, under the host's lock: `test_and_set_bit` finds the bit clear, so the loop runs
-- once.
unfoldable pub cmd_alloc : Cmds → Option ℕ × Cmds
cmd_alloc q =
    let i = find_first_zero_bit q.cmd_pool_bits q.nr_cmds in
    let sn = u64 (q.cmd_sn + 1) in
    let c : Cmd = record {
      cmd_index = i;
      stat = init;
      scsi_cmd = none;
      cmd_sn = u32 sn;
      refcnt = 1;
    } in
    if i == q.nr_cmds then (none, q) else (
      some i,
      record q {
        cmd_pool_bits = update q.cmd_pool_bits i true;
        cmd_pool_tbl = update q.cmd_pool_tbl i c;
        cmd_sn = sn;
      },
    )

-- `vsc_cmd_get`.
unfoldable pub cmd_get : Cmds → ℕ → Cmds
cmd_get q i = let c = q.cmd_pool_tbl i in set_cmd q i (record c { refcnt = inc32 c.refcnt })

-- `vsc_cmd_put`: the last reference clears the bit of the command.
unfoldable pub cmd_put : Cmds → ℕ → Cmds
cmd_put q i =
    let c = q.cmd_pool_tbl i in
    let n = dec32 c.refcnt in
    let q' = set_cmd q i (record c { refcnt = n }) in
    if n == 0
    then (if leb q.nr_cmds c.cmd_index
        then q'
        else record q' { cmd_pool_bits = update q.cmd_pool_bits c.cmd_index false })
    else q'

-- One call of `scsi_done`.
abbrev pub scsi_done : Cmds → ScsiCmnd → ℕ → Cmds
scsi_done q sc result = record q {
  completed = q.completed ++ record { sc = sc; result = result } ∷ [];
}

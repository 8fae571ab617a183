-- ===== src/Xfer/Batch.antt =====
-- vsc_main.c: the transfers that user space asks for: one request (`vsc_xfer_data`,
-- `vsc_scsi_cmd_data`), a batch (`vsc_multi_scsi_cmd_data`), and a batch with answers behind it
-- (`vsc_response_multi_data_and_rsp`).
use vsc.Base.{
  ℕ, zero, suc, ◌+◌, ◌-◌, ◌*◌, List, ◌||◌, not, Option, none, some, ◌==◌, ltb, leb, if◌then◌else◌,
  min, sub32, inc32,
}
use vsc.Codes.{
  Ret, ok, err, oops, eio, efault, einval, eacces, enomem, max_batch_scsi_cmd_count,
  max_batch_scsi_rsp_count, scsi_max_data_buf_size, max_scsi_data_and_rsp_length,
}
use vsc.Cmds.{Cmds, ScsiCmnd, linked}
use vsc.Cmds.Respond.{RspMsg, is_read_comp, exceeds, rounds, response_multi_scsi_cmd}
use vsc.Xfer.{
  Mem, from_user, Mmu, ScsiData, copy_bytes, clear_rest, copy_data_to_iovec, copy_data_from_iovec,
}
use vsc.Xfer.Sg.{Buffers, copy_sg_buff_to_iovec, copy_sg_buff_from_iovec}

-- `VSC_MODE_READ` and `VSC_MODE_WRITE`, the two modes in which the driver calls.
pub data Mode : Type 0 where
  mode_read mode_write : Mode

-- `SCSI_SENSE_BUFFERSIZE` of the kernel.
abbrev pub scsi_sense_buffersize : ℕ
scsi_sense_buffersize = 96

-- The memory, and the counter of CDBs of the host.
pub record Xfer : Type 0 where
  pub mem : Mem
  pub get_cdb_total : ℕ

-- A copy within a transfer.
abbrev pub with_mem : Ret × Mem → Xfer → Ret × Xfer
with_mem (r, m) x = (r, record x { mem = m })

-- `vsc_xfer_data` for the command whose buffers are `b`. 1 is `VSC_MSG_DATA_TYPE_CDB`, 2
-- `VSC_MSG_DATA_TYPE_DATA`, 3 `VSC_MSG_DATA_TYPE_SENSE`.
unfoldable pub xfer_data : Mmu → Mode → ScsiData → Buffers → Xfer → Ret × Xfer
xfer_data mmu mode_read d b x =
    if d.data_type == 1
    then with_mem (copy_data_to_iovec mmu d b.cdb b.cdb_size x.mem)
        (record x { get_cdb_total = inc32 x.get_cdb_total })
    else if d.data_type == 2
    then with_mem (copy_sg_buff_to_iovec mmu b d x.mem) x
    else if d.data_type == 3
    then (err eacces, x)
    else (err eio, x)
xfer_data mmu mode_write d b x =
    if d.data_type == 1
    then (err eacces, x)
    else if d.data_type == 2
    then with_mem (copy_sg_buff_from_iovec mmu b d x.mem) x
    else if d.data_type == 3
    then with_mem (copy_data_from_iovec mmu d b.sense_buffer scsi_sense_buffersize x.mem) x
    else (err eio, x)

-- `struct vsc_scsi_data_msg`, and the `struct vsc_scsi_data` behind it.
pub record DataMsg : Type 0 where
  pub kind : ℕ
  pub reserved0 : ℕ
  pub reserved1 : ℕ
  pub cmd_sn : ℕ
  pub tag : ℕ
  pub scsi_data_len : ℕ
  pub scsi_data : ScsiData

-- The checks of `vsc_scsi_cmd_data`: the command that the request names. `len` is an `int` that
-- takes part in an unsigned comparison.
unfoldable pub find_cmd : Cmds → ℕ → DataMsg → Option ℕ
find_cmd q len m =
    let c = q.cmd_pool_tbl m.tag in
    if not (m.kind == 2) || leb q.nr_cmds m.tag || ltb len m.scsi_data_len
    then none
    else if not (is_read_comp c.stat) || not (c.cmd_sn == m.cmd_sn)
    then none
    else if not (linked q m.tag)
    then none
    else some m.tag

-- What the driver knows of the buffers of a command of the mid-layer.
abbrev pub Layout : Type 0
Layout = ScsiCmnd → Buffers

-- The transfer for a command of the pool.
unfoldable pub xfer_for : Mmu → Layout → Mode → ScsiData → Option ScsiCmnd → Xfer → Ret × Xfer
unfolding xfer_data
xfer_for mmu layout mode d none x = (oops, x)
xfer_for mmu layout mode d (some sc) x = xfer_data mmu mode d (layout sc) x

unfoldable pub xfer_at : Mmu → Layout → Mode → Cmds → DataMsg → Option ℕ → Xfer → Ret × Xfer
unfolding xfer_for
xfer_at mmu layout mode q m none x = (err eio, x)
xfer_at mmu layout mode q m (some c) x =
    xfer_for mmu layout mode m.scsi_data (q.cmd_pool_tbl c).scsi_cmd x

-- `vsc_scsi_cmd_data`, without `data_len`, which no caller reads.
unfoldable pub scsi_cmd_data : Mmu → Layout → Mode → Cmds → ℕ → DataMsg → Xfer → Ret × Xfer
unfolding find_cmd xfer_at
scsi_cmd_data mmu layout mode q len m x = xfer_at mmu layout mode q m (find_cmd q len m) x

-- What the loop over the requests does after one: `rest`, or return.
abbrev pub next_request : Ret × Xfer → (Xfer → Ret × Xfer) → Ret × Xfer
next_request (ok _, x) rest = rest x
next_request (err _, x) rest = (err eio, x)
next_request (oops, x) rest = (oops, x)

-- The loop over the requests, from the `i`-th slot of the buffer on, with `n` rounds left.
unfoldable pub each_request :
    Mmu → Layout → Mode → Cmds → (ℕ → DataMsg) → ℕ → ℕ → ℕ → Xfer → Ret × Xfer
unfolding scsi_cmd_data
each_request mmu layout mode q slots zero i len x = (ok 0, x)
each_request mmu layout mode q slots (suc n) i len x =
    next_request (scsi_cmd_data mmu layout mode q len (slots i) x)
      (each_request mmu layout mode q slots n (i + 1) (sub32 len scsi_max_data_buf_size))

-- `VSC_SCSI_BUF_HEAD_MAGIC` and `VSC_SCSI_BUF_TAIL_MAGIC`.
abbrev pub head_magic : ℕ
head_magic = 0x55AA33CC

abbrev pub tail_magic : ℕ
tail_magic = 0x11EE22DD

-- A buffer of the pool: the requests in its slots, the answers behind the fourth slot, and the two
-- words around it; `addr` is its address, behind the first of them.
pub record ScsiBuf : Type 0 where
  pub addr : ℕ
  pub head : ℕ
  pub slots : ℕ → DataMsg
  pub rsps : List RspMsg
  pub tail : ℕ

-- `vsc_alloc_scsi_buf`.
unfoldable pub alloc_scsi_buf : ScsiBuf → ScsiBuf
alloc_scsi_buf memory = record memory { head = head_magic; tail = tail_magic }

-- `vsc_free_scsi_buf`.
unfoldable pub free_scsi_buf : ScsiBuf → Ret
free_scsi_buf b =
    if not (b.head == head_magic) || not (b.tail == tail_magic) then err efault else ok 0

-- `copy_from_user` of `len` bytes into the buffer, after which it holds what `image` says. More
-- than `MAX_SCSI_DATA_AND_RSP_LENGTH` bytes reach the word behind it,
unfoldable pub fill_buf : ℕ → ScsiBuf → ScsiBuf → ScsiBuf
fill_buf len image b = record image {
  addr = b.addr;
  head = b.head;
  tail = if leb len max_scsi_data_and_rsp_length then b.tail else image.tail;
}

-- and the memory after that: of the bytes past the end, `got` are copied, and the rest is cleared.
unfoldable pub spill : Mmu → ℕ → ℕ → ScsiBuf → Xfer → Xfer
spill mmu user_ptr len b x =
    let end = max_scsi_data_and_rsp_length in
    let got = mmu user_ptr len - end in
    let past = len - end in
    let n = min past got in
    record x {
      mem =
          clear_rest from_user (past - n) (b.addr + end + n)
            (copy_bytes from_user n (b.addr + end) (user_ptr + end) x.mem);
    }

-- The end of `vsc_multi_scsi_cmd_data`.
abbrev pub release_buf : ScsiBuf → Ret × Xfer → Ret × Xfer
release_buf b (ok _, x) = (free_scsi_buf b, x)
release_buf b (err e, x) = (err e, x)
release_buf b (oops, x) = (oops, x)

-- `vsc_multi_scsi_cmd_data`: `memory` is what the pool gives. Nothing compares `len` with the size
-- of the buffer.
unfoldable pub multi_scsi_cmd_data :
    Mmu → Layout → Mode → Cmds → Option ScsiBuf → ScsiBuf → ℕ → ℕ → Xfer → Ret × Xfer
unfolding each_request alloc_scsi_buf free_scsi_buf fill_buf spill
multi_scsi_cmd_data mmu layout mode q none image user_ptr len x = (err enomem, x)
multi_scsi_cmd_data mmu layout mode q (some memory) image user_ptr len x =
    let b = fill_buf len image (alloc_scsi_buf memory) in
    let y = spill mmu user_ptr len b x in
    let count = (b.slots 0).reserved0 in
    if ltb (mmu user_ptr len) len
    then (err efault, y)
    else if count == 0 || exceeds count max_batch_scsi_cmd_count
    then (err efault, y)
    else release_buf b (each_request mmu layout mode q b.slots (rounds count) 0 len y)

-- The answers, once the data have been moved.
abbrev pub then_answers : ScsiBuf → ℕ → Cmds → Ret × Xfer → Ret × Cmds × Xfer
then_answers b len q (ok _, x) =
    let (r, q') =
      response_multi_scsi_cmd (len - max_batch_scsi_rsp_count * scsi_max_data_buf_size) b.rsps q in
    (elim r [ ok _ ↦ free_scsi_buf b | err _ ↦ err eio | oops ↦ oops ], q', x)
then_answers b len q (err e, x) = (err e, q, x)
then_answers b len q (oops, x) = (oops, q, x)

-- `vsc_response_multi_data_and_rsp`.
unfoldable pub response_multi_data_and_rsp :
    Mmu → Layout → Cmds → Option ScsiBuf → ScsiBuf → ℕ → ℕ → Xfer → Ret × Cmds × Xfer
unfolding each_request alloc_scsi_buf free_scsi_buf fill_buf
response_multi_data_and_rsp mmu layout q none image user_ptr len x =
    (if not (len == max_scsi_data_and_rsp_length) then err einval else err enomem, q, x)
response_multi_data_and_rsp mmu layout q (some memory) image user_ptr len x =
    let b = fill_buf len image (alloc_scsi_buf memory) in
    let read_count = (b.slots 0).reserved0 in
    let cmd_count = (b.slots 0).reserved1 in
    if not (len == max_scsi_data_and_rsp_length)
    then (err einval, q, x)
    else if ltb (mmu user_ptr len) len
    then (err efault, q, x)
    else if exceeds read_count max_batch_scsi_rsp_count
        || (exceeds cmd_count max_batch_scsi_rsp_count || cmd_count == 0)
    then (err efault, q, x)
    else then_answers b len q
        (each_request mmu layout mode_write q b.slots (rounds read_count) 0 len x)

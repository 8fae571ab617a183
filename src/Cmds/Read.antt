-- ===== src/Cmds/Read.antt =====
-- vsc_main.c: `vsc_get_multi_scsi_cmd_and_cdb`, by which user space takes up to four commands.
use vsc.Base.{
  ℕ, zero, suc, ◌+◌, ◌++◌, List, [], ◌∷◌, Bool, true, false, Option, none, some, ◌==◌,
  if◌then◌else◌, length, take, u32, inc32,
}
use vsc.Codes.{
  Errno, einval, enodata, efault, max_batch_scsi_cmd_count, max_scsi_msg_and_cdb_length,
}
use vsc.Cmds.{Cmds, Cmd, ScsiCmnd, request, read_comp, remove_q, set_stat, mark_stat}

-- `struct vsc_msg_cdb` as it is filled in: the fields of `vsc_scsi_msg`, then the CDB.
pub record Msg : Type 0 where
  pub cmd_sn : ℕ
  pub tag : ℕ
  pub host : ℕ
  pub channel : ℕ
  pub id : ℕ
  pub lun : ℕ
  pub direction : ℕ
  pub cdb : List ℕ

-- What a read returns. `delivered` holds the messages that went to user space, and the number of
-- commands still waiting (`reserved[1]`; `reserved[0]` is the number of messages).
pub data Reply : Type 0 where
  delivered : List Msg → ℕ → Reply
  failed : Errno → Reply
  crashed : Reply

-- The body of the collecting loop: `removeQ`, then `addQ` to the response queue.
unfoldable pub collect_one : Cmds → ℕ → Cmds
unfolding remove_q
collect_one q c = let r = remove_q q c in record r { rsp_q = r.rsp_q ++ c ∷ [] }

-- The loop that fills `c_arr`, with the rounds left before the limit.
unfoldable pub collect : ℕ → Cmds → List ℕ × Cmds
unfolding collect_one
collect zero q = ([], q)
collect (suc n) q = elim q.cmp_q [
  | [] ↦ ([], q)
  | c ∷ _ ↦ let (cs, r) = collect n (collect_one q c) in (c ∷ cs, r)
]

-- The loop at `errout`: each command goes to the head of the queue, in the order of `c_arr`.
unfoldable pub put_back : List ℕ → Cmds → Cmds
unfolding set_stat remove_q
put_back [] q = q
put_back (c ∷ cs) q =
    let r = remove_q (set_stat q c request) c in put_back cs (record r { cmp_q = c ∷ r.cmp_q })

-- `scsi_command_size` is the mid-layer's.
module _ (scsi_command_size : List ℕ → ℕ) (host_no : ℕ) where
  unfoldable pub message : Cmd → ScsiCmnd → Msg
  message c sc = record {
    cmd_sn = c.cmd_sn;
    tag = c.cmd_index;
    host = host_no;
    channel = sc.channel;
    id = sc.id;
    lun = sc.lun;
    direction = sc.direction;
    cdb = take (scsi_command_size sc.cmnd) sc.cmnd;
  }

  -- `none` where a command has no `scsi_cmd`, which the code reads through.
  unfoldable pub messages : (ℕ → Cmd) → List ℕ → Option (List Msg)
  unfolding message
  messages tbl [] = some []
  messages tbl (c ∷ cs) = elim (tbl c).scsi_cmd [
    | none ↦ none
    | some sc ↦ elim (messages tbl cs) [ none ↦ none | some ms ↦ some (message (tbl c) sc ∷ ms) ]
  ]

  -- `fault` says that `copy_to_user` fails.
  unfoldable pub copy_out : Bool → List ℕ → ℕ → Option (List Msg) → Cmds → Reply × Cmds
  unfolding put_back
  copy_out fault cs left none q = (crashed, q)
  copy_out true cs left (some ms) q = (failed efault, put_back cs q)
  copy_out false cs left (some ms) q = (delivered ms left, q)

  -- The part after the checks.
  unfoldable pub get_batch : Bool → Cmds → Reply × Cmds
  unfolding collect mark_stat messages copy_out
  get_batch fault q =
      let (cs, r) = collect max_batch_scsi_cmd_count q in
      let counted = record r {
        get_cmd_times = inc32 r.get_cmd_times;
        get_cmd_total = u32 (r.get_cmd_total + length cs);
      } in
      let marked = record counted { cmd_pool_tbl = mark_stat read_comp cs counted.cmd_pool_tbl } in
      copy_out fault cs (length r.cmp_q) (messages marked.cmd_pool_tbl cs) marked

  -- `vsc_get_multi_scsi_cmd_and_cdb`, for a read of `len` bytes.
  unfoldable pub get_multi_scsi_cmd_and_cdb : ℕ → Bool → Cmds → Reply × Cmds
  unfolding get_batch
  get_multi_scsi_cmd_and_cdb len fault q =
      if len == max_scsi_msg_and_cdb_length
      then elim q.cmp_q [ [] ↦ (failed enodata, q) | _ ∷ _ ↦ get_batch fault q ]
      else (failed einval, q)

-- ===== src/Cmds/Io.antt =====
-- vsc_main.c: how a command enters the queues (`vsc_scsi_queue_command` down to `vsc_start_io`).
use vsc.Base.{ℕ, zero, suc, ◌++◌, [], ◌∷◌, Option, none, some, length, inc32, dec32}
use vsc.Cmds.{Cmds, ScsiCmnd, request, remove_q, set_cmd, set_stat, mark_stat, cmd_alloc}

-- The body of the loop of `vsc_start_io` for the first entry `c` of the request queue.
unfoldable pub start_one : Cmds → ℕ → Cmds
unfolding remove_q set_stat
start_one q c =
    let r = remove_q q c in
    let s = set_stat (record r { qdepth = dec32 r.qdepth }) c request in
    record s { cmp_q = s.cmp_q ++ c ∷ [] }

unfoldable pub start_io_loop : ℕ → Cmds → Cmds
start_io_loop zero q = q
start_io_loop (suc n) q = elim q.req_q [ [] ↦ q | c ∷ _ ↦ start_io_loop n (start_one q c) ]

-- `vsc_start_io`; each round takes one entry, so the length of the queue is fuel enough.
unfoldable pub start_io : Cmds → Cmds
start_io q = start_io_loop (length q.req_q) q

-- `vsc_start_io_new`: the whole request queue is spliced at once.
unfoldable pub start_io_new : Cmds → Cmds
unfolding mark_stat
start_io_new q = record q {
  req_q = [];
  qdepth = 0;
  cmd_pool_tbl = mark_stat request q.req_q q.cmd_pool_tbl;
  cmp_q = q.cmp_q ++ q.req_q;
}

-- `vsc_enqueue_cmd_and_start_io`.
unfoldable pub enqueue_cmd_and_start_io : Cmds → ℕ → Cmds
unfolding start_io start_io_loop start_one
enqueue_cmd_and_start_io q c = start_io (record q {
  req_q = q.req_q ++ c ∷ [];
  qdepth = inc32 q.qdepth;
  io_running = inc32 q.io_running;
})

-- The end of `vsc_scsi_queue_command`, once the host is chosen: `none` is
-- `SCSI_MLQUEUE_HOST_BUSY`, otherwise the tag that `host_scribble` keeps.
unfoldable pub submit : Cmds → ScsiCmnd → Option ℕ × Cmds
unfolding cmd_alloc enqueue_cmd_and_start_io
submit q sc =
    let (got, r) = cmd_alloc q in
    elim got [
      | none ↦ (none, r)
      | some c ↦ (
        some c,
        enqueue_cmd_and_start_io (set_cmd r c (record (r.cmd_pool_tbl c) { scsi_cmd = some sc })) c,
      )
    ]

-- ===== src/Cmds/Drain.antt =====
-- vsc_main.c: emptying the queues (`vsc_each_queue_remove` and its two callbacks).
use vsc.Base.{ℕ, zero, suc, List, [], ◌∷◌, none, some, length, dec32}
use vsc.Codes.{host_byte_of, did_soft_error, did_requeue}
use vsc.Cmds.{Cmds, QueueType, reqq, comq, rspq, remove_q, cmd_get, cmd_put, scsi_done}

-- The `switch` on the list type.
unfoldable pub leave_queue : Cmds → QueueType → Cmds
leave_queue q reqq = record q { qdepth = dec32 q.qdepth }
leave_queue q comq = q
leave_queue q rspq = q

-- The common text of the callbacks: complete the command with `code << 16`, and release it.
unfoldable pub finish_with : ℕ → Cmds → ℕ → QueueType → Cmds
unfolding leave_queue
finish_with code q c ty =
    let r = leave_queue q ty in
    elim (r.cmd_pool_tbl c).scsi_cmd [
      | none ↦ cmd_put r c
      | some sc ↦ cmd_put (scsi_done r sc (host_byte_of code)) c
    ]

-- `vsc_abort_cmd_callback`: the mid-layer is to retry.
unfoldable pub abort_cmd_callback : Cmds → ℕ → QueueType → Cmds
unfolding finish_with
abort_cmd_callback = finish_with did_soft_error

-- `vsc_requeue_cmd_callback`: the mid-layer is to queue the command again.
unfoldable pub requeue_cmd_callback : Cmds → ℕ → QueueType → Cmds
unfolding finish_with
requeue_cmd_callback = finish_with did_requeue

-- The queue that a list type stands for.
abbrev pub queue_of : QueueType → Cmds → List ℕ
queue_of reqq q = q.req_q
queue_of comq q = q.cmp_q
queue_of rspq q = q.rsp_q

module _ (callback : Cmds → ℕ → QueueType → Cmds) (ty : QueueType) where
  -- The body of each of the three loops, for the first entry `c` of the queue.
  unfoldable pub remove_one : Cmds → ℕ → Cmds
  unfolding remove_q cmd_get cmd_put
  remove_one q c =
      let r = remove_q q c in
      cmd_put (callback (cmd_get (record r { io_running = dec32 r.io_running }) c) c ty) c

  -- Each round takes one entry, so the length of the queue is rounds enough.
  unfoldable pub remove_loop : ℕ → Cmds → Cmds
  remove_loop zero q = q
  remove_loop (suc n) q = elim (queue_of ty q) [ [] ↦ q | c ∷ _ ↦ remove_loop n (remove_one q c) ]

  unfoldable pub remove_queue : Cmds → Cmds
  unfolding remove_loop
  remove_queue q = remove_loop (length (queue_of ty q)) q

-- `vsc_each_queue_remove`.
unfoldable pub each_queue_remove : (Cmds → ℕ → QueueType → Cmds) → Cmds → Cmds
unfolding remove_queue
each_queue_remove callback q =
    remove_queue callback rspq (remove_queue callback comq (remove_queue callback reqq q))

-- `vsc_abort_all_cmd` and `vsc_requeue_all_cmd` of a host that is not null.
unfoldable pub abort_all_cmd : Cmds → Cmds
unfolding each_queue_remove abort_cmd_callback
abort_all_cmd = each_queue_remove abort_cmd_callback

unfoldable pub requeue_all_cmd : Cmds → Cmds
unfolding each_queue_remove requeue_cmd_callback
requeue_all_cmd = each_queue_remove requeue_cmd_callback

-- ===== src/Cmds/Account/History.antt =====
-- Sequences of the calls that vsc_main.c makes on the queues of one host.
use mathlib.Core.List.{Perm}
use mathlib.Core.List.Perm
use vsc.Base.{
  ◌+◌, ltb, count, none, some, Option-cases, if◌then◌else◌, ℕ, ◌<◌, ◌≡◌, List, [], ◌∷◌, ◌++◌, Bool,
  false, Option, ◌==◌, take, ◌*◌, arith, inl, inr, Bool-cases,
}
use vsc.Codes.{Ret, ok, err, oops, did_soft_error, did_requeue}
use vsc.Cmds.{Cmds, Cmd, ScsiCmnd, cmd_get, cmd_put}
use vsc.Cmds.Io.{submit}
use vsc.Cmds.Drain.{
  abort_all_cmd, requeue_all_cmd, abort_cmd_callback, requeue_cmd_callback, finish_with,
  each_queue_remove,
}
use vsc.Cmds.Read.{get_multi_scsi_cmd_and_cdb}
use vsc.Cmds.Respond.{RspMsg, response_multi_scsi_cmd, count_rsp, head_count, rounds}
use vsc.Cmds.Inv.{Inv, uses}
use vsc.Cmds.Inv.Release.{Released-Inv}
use vsc.Control.Abort.{drop_cmd}
use vsc.Control.Abort.Outcome.{drop_cmd-Released}
use vsc.Cmds.Account.{ledger, ledger-Released}
use vsc.Cmds.Inv.Io.{submit-Inv}
use vsc.Cmds.Inv.Read.{taken-Inv, returned-Inv}
use vsc.Cmds.Inv.Drain.{each_queue_remove-Emptied}
use vsc.Cmds.Inv.Deliver.{read_lem}
use vsc.Cmds.Inv.Batch.{response_multi-Cases}
use vsc.Cmds.Inv.Respond.{respond_each-Inv}
use vsc.Cmds.Account.Moves.{
  entered, ledger-submit, ledger-taken, ledger-returned, ledger-respond_each, ledger-emptied,
}

-- A call of the mid-layer, of user space (`reads`, `answers`), or of the driver on all commands
-- (`aborts`, `requeues`). `aborts_alone` is `vsc_eh_abort` of the command in a slot, if user space agrees
-- to the abort and nothing else happens to the queues while the handler sleeps. A handler that sleeps
-- while others go on holds a reference, and is no call of this type; nor is
-- `vsc_eh_device_reset_handler`, but for the drains that it ends with.
pub data CmdOp : Type 0 where
  submits : ScsiCmnd → CmdOp
  aborts_alone : ℕ → CmdOp
  reads : ℕ → Bool → CmdOp
  answers : ℕ → List RspMsg → CmdOp
  aborts requeues : CmdOp

-- `VSC_MAX_CMD_NUM`.
abbrev pub max_cmd_num : ℕ
max_cmd_num = 256 * 32

-- The command part of `vsc_ctrl_init`. `memory` is what the commands hold when they have been
-- allocated, which is not set.
unfoldable pub init_cmds : (ℕ → Cmd) → ℕ → Cmds
init_cmds memory nr_cmds = record {
  nr_cmds = if nr_cmds == 0 then max_cmd_num else nr_cmds;
  io_running = 0;
  req_q = [];
  cmp_q = [];
  rsp_q = [];
  qdepth = 0;
  cmd_sn = 0;
  cmd_pool_tbl = memory;
  cmd_pool_bits = λ i. false;
  get_cmd_times = 0;
  get_cmd_total = 0;
  put_rsp_times = 0;
  put_rsp_total = 0;
  completed = [];
}

pub init_cmds-Inv : (memory : ℕ → Cmd) (n : ℕ) → Inv (init_cmds memory n)
unfolding init_cmds
init_cmds-Inv memory n = record {
  once = λ i. omega arith;
  req = tt;
  cmp = tt;
  rsp = tt;
  depth = omega arith;
  running = omega arith;
  no_leak = λ i h b. cc b;
}

-- What `vsc_eh_abort` does to the command in the slot `c`, which waits for user space or for its
-- answer. A command that does neither stays as it is here; the source would also take one out of the
-- request queue, where no submission leaves any.
unfoldable pub abort_alone : ℕ → Cmds → Cmds
unfolding drop_cmd cmd_get cmd_put
abort_alone c q = elim (q.cmd_pool_tbl c).scsi_cmd [
  | none ↦ q
  | some sc ↦
      if ltb 0 (count c q.cmp_q + count c q.rsp_q)
      then cmd_put (drop_cmd sc c (cmd_get q c)) c
      else q
]

module _ (size : List ℕ → ℕ) (host_no : ℕ) where
  abbrev pub step : CmdOp → Cmds → Cmds
  step (submits sc) q = (submit q sc).1
  step (aborts_alone c) q = abort_alone c q
  step (reads len fault) q = (get_multi_scsi_cmd_and_cdb size host_no len fault q).1
  step (answers len buf) q = (response_multi_scsi_cmd len buf q).1
  step aborts q = abort_all_cmd q
  step requeues q = requeue_all_cmd q

  abbrev pub run : List CmdOp → Cmds → Cmds
  run [] q = q
  run (o ∷ os) q = run os (step o q)

  -- The commands that the host takes during the calls.
  abbrev pub taken_in : CmdOp → Cmds → List (Option ScsiCmnd)
  taken_in (submits sc) q = entered (submit q sc).0 sc
  taken_in (aborts_alone c) q = []
  taken_in (reads len fault) q = []
  taken_in (answers len buf) q = []
  taken_in aborts q = []
  taken_in requeues q = []

  abbrev pub accepted : List CmdOp → Cmds → List (Option ScsiCmnd)
  accepted [] q = []
  accepted (o ∷ os) q = taken_in o q ++ accepted os (step o q)

  read-both :
      (len : ℕ) (fault : Bool) (q : Cmds)
      → Inv q
      → let r = (get_multi_scsi_cmd_and_cdb size host_no len fault q).1 in
        Inv r × Perm (ledger r) (ledger q)
  read-both len fault q v = elim (read_lem size host_no q len fault v) [
    | inl (n, e) ↦ rw e (v, Perm.rfl)
    | inr (inl (n, k, e)) ↦ rw e (v, Perm.rfl)
    | inr (inr (inl (n, k, f, e))) ↦ rw e (returned-Inv q v, ledger-returned q)
    | inr (inr (inr (n, k, f, (ms, t, s, e)))) ↦ rw e (taken-Inv q v, ledger-taken q)
  ]

count_rsp-both :
    (n : ℕ) (q : Cmds) (r : Ret × Cmds)
    → Inv r.1
    → Perm (ledger r.1) (ledger q)
    → Inv (count_rsp n r).1 × Perm (ledger (count_rsp n r).1) (ledger q)
count_rsp-both n q (ok m, r) v p = (
  record {
    once = v.once;
    req = v.req;
    cmp = v.cmp;
    rsp = v.rsp;
    depth = v.depth;
    running = v.running;
    no_leak = v.no_leak;
  },
  p,
)
count_rsp-both n q (err e, r) v p = (v, p)
count_rsp-both n q (oops, r) v p = (v, p)

pub answer-both :
    (len : ℕ) (buf : List RspMsg) (q : Cmds)
    → Inv q
    → let r = (response_multi_scsi_cmd len buf q).1 in Inv r × Perm (ledger r) (ledger q)
answer-both len buf q v = elim (response_multi-Cases len buf q) [
  | inl (n, e) ↦ rw e (v, Perm.rfl)
  | inr (inl (n, k, e)) ↦ rw e (v, Perm.rfl)
  | inr (inr (n, k, l, e)) ↦ rw e (
      count_rsp-both (head_count buf) q _
        (respond_each-Inv (take (rounds (head_count buf)) buf) q v)
        (ledger-respond_each (take (rounds (head_count buf)) buf) q v))
]

empty-both :
    (code : ℕ) (q : Cmds)
    → Inv q
    → let r = each_queue_remove (finish_with code) q in Inv r × Perm (ledger r) (ledger q)
empty-both code q v =
    ((each_queue_remove-Emptied code q v).valid, rw (ledger-emptied code q v) Perm.rfl)

abort_alone-both :
    (c : ℕ) (q : Cmds) → Inv q → Inv (abort_alone c q) × Perm (ledger (abort_alone c q)) (ledger q)
unfolding abort_alone
abort_alone-both c q v = elim (Option-cases (q.cmd_pool_tbl c).scsi_cmd) [
  | inl e ↦ rw (e, abort_alone) (v, Perm.rfl)
  | inr (sc, e) ↦ elim (Bool-cases (ltb 0 (count c q.cmp_q + count c q.rsp_q))) [
    | inr idle ↦ rw (e, abort_alone, idle) (v, Perm.rfl)
    | inl waits ↦
        let has : 0 < uses q c = ground arith in
        let past : count c q.req_q ≡ 0 = ground (arith, v.once c) in
        let r = drop_cmd-Released q c sc v has past in
        rw (e, abort_alone, waits)
          (Released-Inv q _ c sc _ v has r, ledger-Released q _ c sc _ v has e r)
  ]
]

module _ (size : List ℕ → ℕ) (host_no : ℕ) where
  step-both :
      (o : CmdOp) (q : Cmds)
      → Inv q
      → Inv (step size host_no o q)
        × Perm (ledger (step size host_no o q)) (taken_in size host_no o q ++ ledger q)
  unfolding abort_all_cmd requeue_all_cmd abort_cmd_callback requeue_cmd_callback
  step-both (submits sc) q v = (submit-Inv q sc v, ledger-submit q sc v)
  step-both (aborts_alone c) q v = abort_alone-both c q v
  step-both (reads len fault) q v = read-both size host_no len fault q v
  step-both (answers len buf) q v = answer-both len buf q v
  step-both aborts q v = empty-both did_soft_error q v
  step-both requeues q v = empty-both did_requeue q v

  pub run-Inv : (os : List CmdOp) (q : Cmds) → Inv q → Inv (run size host_no os q)
  run-Inv [] q v = v
  run-Inv (o ∷ os) q v = run-Inv os (step size host_no o q) (step-both o q v).0

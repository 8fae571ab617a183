-- ===== src/Control/Abort.antt =====
-- vsc_main.c: the abort of a command that takes too long (`vsc_eh_abort`), up to the sleep and after
-- it, and the reset of a device (`vsc_eh_device_reset_handler`). What happens to the event during
-- the sleep is done by the calls of `Events`.
pub mod Outcome
use vsc.Base.{
  ℕ, zero, suc, ◌+◌, ◌*◌, ◌^◌, List, [], ◌∷◌, Bool, true, false, ◌||◌, ◌&&◌, not, Option, none,
  some, ◌==◌, ltb, leb, if◌then◌else◌, u32, inc32, dec32,
}
use vsc.Codes.{Ret, ok, err, oops, did_abort, host_byte_of}
use vsc.Cmds.{Cmds, ScsiCmnd, linked, remove_q, cmd_get, cmd_put, scsi_done}
use vsc.Cmds.Drain.{abort_all_cmd, requeue_all_cmd}
use vsc.Events.{
  Event, Events, Shoot, noshoot, shoot, abort, Callback, abort_event, reset_event, set_event,
  event_alloc, event_get, event_put, event_add, event_del, abort_all_event, success, failed,
}
use vsc.Events.Answer.{run_callback, timeout, aborting, type_of}
use vsc.Control.{Host, is_free}
use vsc.Hosts.{HostMgr}

-- Where the handler stands: it sleeps on an event, or it has returned.
pub data Handler : Type 0 where
  sleeps : ℕ → Handler
  returns : ℕ → Handler

-- `struct vsc_event_abort` and `struct vsc_event_reset_dev`, word by word.
abbrev pub event_words : ℕ → ScsiCmnd → ℕ → List ℕ
event_words host_no sc cmd_sn = cmd_sn ∷ host_no ∷ sc.channel ∷ sc.id ∷ sc.lun ∷ []

-- `vsc_event_add`, and the begin of `vsc_event_wait_timeout`.
unfoldable pub start_wait : Callback → List ℕ → Events → ℕ → Events
unfolding event_add event_get
start_wait cb words s i =
    let t = event_get (event_add s i cb (type_of cb) words failed).1 i in
    set_event t i (record (t.event_pool_tbl i) { waiting = true })

-- The common begin of the two handlers, for the command at `c`.
unfoldable pub begin : Callback → ℕ → ScsiCmnd → ℕ → Host → Handler × Host
unfolding cmd_get cmd_put event_alloc start_wait
begin cb host_no sc c h =
    let q = cmd_get h.cmds c in
    let (got, s) = event_alloc h.events in
    elim got [
      | none ↦ (returns success, record h { cmds = cmd_put q c; events = s })
      | some i ↦ (
        sleeps i,
        record h {
          cmds = q;
          events = start_wait cb (event_words host_no sc (q.cmd_pool_tbl c).cmd_sn) s i;
        },
      )
    ]

-- `vsc_eh_abort` up to the sleep.
unfoldable pub eh_abort_begin : ℕ → ScsiCmnd → ℕ → Host → Handler × Host
unfolding begin
eh_abort_begin host_no sc c h =
    begin abort_event host_no sc c (record h { abort_cmd_count = inc32 h.abort_cmd_count })

-- `vsc_eh_device_reset_handler` up to the sleep.
unfoldable pub eh_device_reset_begin : ℕ → ScsiCmnd → ℕ → Host → Handler × Host
unfolding begin
eh_device_reset_begin host_no sc c h =
    begin reset_event host_no sc c (record h { reset_dev_count = inc32 h.reset_dev_count })

abbrev pub is_abort : Shoot → Bool
is_abort abort = true
is_abort noshoot = false
is_abort shoot = false

-- The end of `vsc_event_wait_timeout`: `timed_out` says that the event was not shot in time.
unfoldable pub end_wait : Callback → Bool → Bool → Events → ℕ → Events
unfolding run_callback event_put
end_wait cb attached timed_out s i =
    let e = record (s.event_pool_tbl i) { waiting = false } in
    let f = if timed_out then (run_callback attached cb timeout 0 0 0 e).1 else e in
    let g = if is_abort f.shot then (run_callback attached cb aborting 0 0 0 f).1 else f in
    event_put (set_event s i g) i

-- What `vsc_eh_abort` does to the queues when user space has given the command up.
unfoldable pub drop_cmd : ScsiCmnd → ℕ → Cmds → Cmds
unfolding remove_q cmd_put
drop_cmd sc c q =
    let r = remove_q q c in
    let s = cmd_put (record r { io_running = dec32 r.io_running }) c in
    if linked q c then scsi_done s sc (host_byte_of did_abort) else q

-- `vsc_eh_abort` after the sleep on the event at `i`.
unfoldable pub eh_abort_end : Bool → ScsiCmnd → ℕ → ℕ → Host → ℕ × Host
unfolding end_wait drop_cmd event_del cmd_put
eh_abort_end timed_out sc c i h =
    let s = end_wait abort_event (not (is_free h.file)) timed_out h.events i in
    let priv = (s.event_pool_tbl i).event_priv in
    let q = if priv == success then drop_cmd sc c h.cmds else h.cmds in
    (priv, record h { cmds = cmd_put q c; events = event_del s i })

-- The loop of `vsc_eh_device_reset_handler` over the hosts of the manager; a null entry is skipped.
unfoldable pub each_sibling : (Cmds → Cmds) → HostMgr → ℕ → (ℕ → Cmds) → ℕ → Cmds
each_sibling f mgr zero hosts = hosts
each_sibling f mgr (suc n) hosts =
    let before = each_sibling f mgr n hosts in
    elim (mgr.host_list n) [
      | none ↦ before
      | some h ↦ λ j. if h == j then f (before h) else before j
    ]

-- `vsc_eh_device_reset_handler` after the sleep: the queues of every host, and the events of the
-- host `own` of the command.
unfoldable pub eh_device_reset_end :
    Bool → Bool → HostMgr → ℕ → ℕ → ℕ → (ℕ → Cmds) → Events → ℕ × (ℕ → Cmds) × Events
unfolding end_wait each_sibling event_del cmd_put abort_all_event abort_all_cmd requeue_all_cmd
eh_device_reset_end attached timed_out mgr own c i hosts events =
    let s = end_wait reset_event attached timed_out events i in
    let priv = (s.event_pool_tbl i).event_priv in
    let f = if priv == success then requeue_all_cmd else abort_all_cmd in
    let after = each_sibling f mgr mgr.host_count hosts in
    (
      priv,
      λ j. if own == j then cmd_put (after own) c else after j,
      abort_all_event (event_del s i),
    )

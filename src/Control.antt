-- ===== src/Control.antt =====
-- vsc_main.c: the control of one host (`struct vsc_ctrl_info`): attach, detach, suspend, resume, and
-- the timer that gives up on a target process that is gone.
pub mod Attach
pub mod Machine
pub mod Abort
pub mod Limits
mod Tests
use vsc.Base.{
  ℕ, zero, suc, ◌+◌, ◌*◌, ◌^◌, List, [], ◌∷◌, Bool, true, false, ◌||◌, not, Option, none, some,
  ◌==◌, ltb, leb, if◌then◌else◌, u32, inc32, dec32,
}
use vsc.Codes.{Ret, ok, err, oops, efault, ebusy, eagain, eperm, einval}
use vsc.Cmds.{Cmds}
use vsc.Cmds.Drain.{abort_all_cmd, requeue_all_cmd}
use vsc.Events.{Events, abort_all_event}

-- The rest of `struct vsc_ctrl_info`. `file` names the open file, `blocked` says that the mid-layer
-- holds requests back (`scsi_block_requests`), `target_abnormal_timer` holds the delay of a timer
-- that runs, `disks_offline` says that the disks have been set to `SDEV_OFFLINE`.
pub record Host : Type 0 where
  pub cmds : Cmds
  pub events : Events
  pub file : Option ℕ
  pub suspend : ℕ
  pub blocked : Bool
  pub target_abnormal_timer : Option ℕ
  pub target_abnormal_time : ℕ
  pub target_abnormal_lock : ℕ
  pub disks_offline : Bool
  pub abort_cmd_count : ℕ
  pub reset_dev_count : ℕ
  pub wakeup_pid : ℕ

-- `vsc_suspend_host` and `vsc_resume_host` of a host that is not null.
unfoldable pub suspend_host : Host → Host
suspend_host h = record h { blocked = true; suspend = 1 }

unfoldable pub resume_host : Host → Host
resume_host h = record h { blocked = false; suspend = 0 }

-- `vsc_scsi_attach` of a host that is free, once the lock is taken as `n`.
unfoldable pub take_over : ℕ → Host → Host
unfolding resume_host
take_over f h =
    let taken = record h { target_abnormal_timer = none; file = some f } in
    let woken = if taken.suspend == 0 then resume_host taken else taken in
    record woken { target_abnormal_lock = dec32 woken.target_abnormal_lock }

-- The attempt to take the lock, by the count that `atomic_inc_return` gives: `busy` is what is
-- returned when another holds it.
unfoldable pub with_lock : Ret → (Host → Host) → Host → Ret × Host
with_lock held body h =
    let n = inc32 h.target_abnormal_lock in
    if ltb 1 n
    then (held, record h { target_abnormal_lock = dec32 n })
    else (ok 0, body (record h { target_abnormal_lock = n }))

abbrev pub is_free : Option ℕ → Bool
is_free none = true
is_free (some f) = false

-- `vsc_scsi_attach`.
unfoldable pub attach : Option ℕ → Host → Ret × Host
unfolding with_lock take_over
attach none h = (err efault, h)
attach (some f) h =
    if is_free h.file then with_lock (err eagain) (take_over f) h else (err ebusy, h)

-- The body of `vsc_target_abnormal`.
unfoldable pub give_up : Host → Host
unfolding resume_host abort_all_event abort_all_cmd
give_up h =
    let r = resume_host h in
    record r {
      events = abort_all_event r.events;
      cmds = abort_all_cmd r.cmds;
      disks_offline = true;
      target_abnormal_lock = dec32 r.target_abnormal_lock;
    }

-- `vsc_target_abnormal`, when the timer runs out.
unfoldable pub target_abnormal : Host → Host
unfolding with_lock give_up
target_abnormal h = (with_lock (ok 0) give_up h).1

-- The body of `vsc_scsi_detach`; `is_timeout` says that the target process is gone.
unfoldable pub let_go : Bool → Host → Host
unfolding abort_all_event requeue_all_cmd
let_go is_timeout h =
    let d = record h {
      file = none;
      blocked = true;
      events = abort_all_event h.events;
      cmds = requeue_all_cmd h.cmds;
    } in
    let armed =
      if ltb 0 d.target_abnormal_time
      then record d { suspend = 1; target_abnormal_timer = some d.target_abnormal_time }
      else record d { suspend = 1 } in
    if is_timeout then armed else d

-- `vsc_scsi_detach`.
unfoldable pub detach : Bool → Host → Ret × Host
unfolding let_go
detach is_timeout h = if is_free h.file then (err eperm, h) else (ok 0, let_go is_timeout h)

-- `vsc_interrupt_sleep_on_read`; `sleeps` says that a reader waits.
unfoldable pub interrupt_sleep_on_read : Bool → Host → Host
interrupt_sleep_on_read sleeps h = if sleeps then record h { wakeup_pid = 1 } else h

abbrev pub nonempty : List ℕ → Bool
nonempty [] = false
nonempty (_ ∷ _) = true

-- The mask of `vsc_poll_wait`: true is `POLLIN | POLLRDNORM`.
abbrev pub poll_wait : Host → Bool
poll_wait h = nonempty h.cmds.cmp_q || nonempty h.events.event_req_q

-- The host's part of `vsc_do_remove_host`, up to the removal from the mid-layer.
unfoldable pub do_remove_host : Host → Host
unfolding resume_host abort_all_event abort_all_cmd
do_remove_host h =
    let r = resume_host (record h { target_abnormal_timer = none; file = none }) in
    record r { events = abort_all_event r.events; cmds = abort_all_cmd r.cmds }

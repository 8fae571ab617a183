-- ===== src/Dispatch.antt =====
-- vsc_main.c: `read` and `write` of the device file, as `vsc_get_msg`, `vsc_get_scsi_cmd_msg` and
-- `vsc_response_msg` hand them on.
pub mod Calls
pub mod Counts
pub mod Related
mod Tests
use vsc.Base.{
  ℕ, ◌+◌, ◌*◌, List, [], ◌∷◌, Bool, true, false, not, Option, none, some, ◌==◌, if◌then◌else◌,
  length, inc32,
}
use vsc.Codes.{
  Errno, Ret, ok, err, oops, is_err, efault, einval, eagain, eintr, erestartsys, sizeof_scsi_msg,
}
use vsc.Cmds.{Cmds}
use vsc.Cmds.Read.{Reply, delivered, failed, crashed, get_multi_scsi_cmd_and_cdb}
use vsc.Events.Answer.{EventMsg, EventRsp, get_event, response_event}
use vsc.Control.{Host, poll_wait, nonempty, is_free}
use vsc.Xfer.{Mmu}
use vsc.Xfer.Batch.{
  Xfer, Layout, ScsiBuf, mode_read, multi_scsi_cmd_data, response_multi_data_and_rsp,
}

-- A host with what its transfers change, and the counters of failures (`h->stat`).
pub record Session : Type 0 where
  pub host : Host
  pub xfer : Xfer
  pub read_fail_count : ℕ
  pub write_fail_count : ℕ

-- What ends a sleep of the reader: a signal, or the work of others on the host.
pub data Wake : Type 0 where
  signal : Wake
  others : (Host → Host) → Wake

-- How the waiting loop ends. `gives` returns without counting, `counts` counts the failure.
pub data Waited : Type 0 where
  ready : Host → Waited
  gives : Errno → Host → Waited
  counts : Errno → Host → Waited
  asleep : Host → Waited

-- `unlikely(h->wakeup_pid)`: a detach has woken the reader.
abbrev pub interrupted : Host → Bool
interrupted h = not (h.wakeup_pid == 0)

abbrev pub take_interrupt : Host → Waited
take_interrupt h = gives eintr (record h { wakeup_pid = 0 })

-- What one sleep does: `rest` is the loop from there on.
abbrev pub slept : Wake → Host → (Host → Waited) → Waited
slept signal h rest = counts erestartsys h
slept (others f) h rest = if interrupted (f h) then take_interrupt (f h) else rest (f h)

-- The loop that waits for a command or an event.
unfoldable pub wait_for_work : Bool → List Wake → Host → Waited
wait_for_work nonblock [] h =
    if poll_wait h
    then ready h
    else if nonblock
    then gives eagain h
    else if interrupted h
    then take_interrupt h
    else asleep h
wait_for_work nonblock (w ∷ ws) h =
    if poll_wait h
    then ready h
    else if nonblock
    then gives eagain h
    else if interrupted h
    then take_interrupt h
    else slept w h (wait_for_work nonblock ws)

-- What a read delivers besides its result.
pub data Delivery : Type 0 where
  nothing : Delivery
  event_of : Option EventMsg → Delivery
  commands_of : Reply → Delivery

-- The result of `vsc_get_multi_scsi_cmd_and_cdb`: the length of the messages, with 16 bytes of CDB.
abbrev pub reply_ret : Reply → Ret
reply_ret (delivered ms left) = ok ((sizeof_scsi_msg + 16) * length ms)
reply_ret (failed e) = err e
reply_ret crashed = oops

-- The end at `errout`: a failure is counted.
abbrev pub count_read : Ret × Delivery × Session → Ret × Delivery × Session
count_read (r, d, s) =
    (r, d, if is_err r then record s { read_fail_count = inc32 s.read_fail_count } else s)

abbrev pub count_write : Ret × Session → Ret × Session
count_write (r, s) =
    (r, if is_err r then record s { write_fail_count = inc32 s.write_fail_count } else s)

-- A call of `read`: its flags and arguments, and what the world does meanwhile. `kind` is the first
-- word of the buffer, if it can be read; `fault` says that a copy to user space fails.
pub record ReadCall : Type 0 where
  pub kind : Option ℕ
  pub nonblock : Bool
  pub wakes : List Wake
  pub len : ℕ
  pub fault : Bool
  pub user_ptr : ℕ
  pub pool : Option ScsiBuf
  pub image : ScsiBuf

-- A call of `write`. `head` is the head of an event answer, if it can be read, `src` its bytes, of
-- which `copied` can be.
pub record WriteCall : Type 0 where
  pub kind : Option ℕ
  pub len : ℕ
  pub user_ptr : ℕ
  pub head : Option EventRsp
  pub src : ℕ → ℕ
  pub copied : ℕ
  pub pool : Option ScsiBuf
  pub image : ScsiBuf

module _ (mmu : Mmu) (layout : Layout) (size : List ℕ → ℕ) (host_no : ℕ) where
  -- Events first.
  unfoldable pub take_work : ReadCall → Host → Session → Ret × Delivery × Session
  take_work c h s =
      let (r, m, e) = get_event (nonempty h.cmds.cmp_q) c.len c.fault h.events in
      let (a, q) = get_multi_scsi_cmd_and_cdb size host_no c.len c.fault h.cmds in
      if nonempty h.events.event_req_q
      then (r, event_of m, record s { host = record h { events = e } })
      else (reply_ret a, commands_of a, record s { host = record h { cmds = q } })

  abbrev pub after_wait : ReadCall → Session → Waited → Option (Ret × Delivery × Session)
  after_wait c s (ready h) = some (count_read (take_work c h s))
  after_wait c s (gives e h) = some (err e, nothing, record s { host = h })
  after_wait c s (counts e h) = some (count_read (err e, nothing, record s { host = h }))
  after_wait c s (asleep h) = none

  -- `vsc_get_scsi_cmd_msg`; `none` if the reader is still asleep.
  unfoldable pub get_scsi_cmd_msg : ReadCall → Session → Option (Ret × Delivery × Session)
  unfolding wait_for_work take_work
  get_scsi_cmd_msg c s = after_wait c s (wait_for_work c.nonblock c.wakes s.host)

  abbrev pub counted : Option (Ret × Delivery × Session) → Option (Ret × Delivery × Session)
  counted none = none
  counted (some o) = some (count_read o)

  -- The part of `vsc_get_msg` for a type of message. 0 is `VSC_MSG_TYPE_SCSI_CMD`, 2
  -- `VSC_MSG_TYPE_SCSI_DATA`.
  unfoldable pub read_kind : ℕ → ReadCall → Session → Option (Ret × Delivery × Session)
  unfolding get_scsi_cmd_msg
  read_kind kind c s =
      let (r, x) =
        multi_scsi_cmd_data mmu layout mode_read s.host.cmds c.pool c.image c.user_ptr c.len
          s.xfer in
      if kind == 0
      then get_scsi_cmd_msg c s
      else if kind == 2
      then some (r, nothing, record s { xfer = x })
      else some (err einval, nothing, s)

  -- `vsc_get_msg` of a host that is not null.
  unfoldable pub get_msg : ReadCall → Session → Option (Ret × Delivery × Session)
  unfolding read_kind
  get_msg c s = elim c.kind [
    | none ↦ some (count_read (err efault, nothing, s))
    | some kind ↦ counted (read_kind kind c s)
  ]

  -- `vsc_response_event`, from the copy of the head on.
  unfoldable pub write_event : WriteCall → Session → Option EventRsp → Ret × Session
  write_event c s none = (err efault, s)
  write_event c s (some m) =
      let (r, e) =
        response_event (not (is_free s.host.file)) c.len m c.src c.copied s.host.events in
      (r, record s { host = record (s.host) { events = e } })

  -- The part of `vsc_response_msg` for a type of message. 1 is `VSC_MSG_TYPE_EVENT`.
  unfoldable pub write_kind : ℕ → WriteCall → Session → Ret × Session
  unfolding write_event
  write_kind kind c s =
      let (r, q, x) =
        response_multi_data_and_rsp mmu layout s.host.cmds c.pool c.image c.user_ptr c.len s.xfer in
      if kind == 1
      then write_event c s c.head
      else if kind == 2
      then (r, record s { host = record (s.host) { cmds = q }; xfer = x })
      else (err einval, s)

  -- `vsc_response_msg` of a host that is not null.
  unfoldable pub response_msg : WriteCall → Session → Ret × Session
  unfolding write_kind
  response_msg c s = elim c.kind [
    | none ↦ count_write (err efault, s)
    | some kind ↦ count_write (write_kind kind c s)
  ]

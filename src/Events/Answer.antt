-- ===== src/Events/Answer.antt =====
-- vsc_main.c: how user space reads an event and answers it (`vsc_get_event`, `vsc_response_event`
-- and the two callbacks).
use vsc.Base.{
  ℕ, ◌+◌, ◌++◌, List, [], ◌∷◌, Bool, true, false, ◌||◌, not, Option, none, some, ◌==◌, ltb, leb,
  if◌then◌else◌,
}
use vsc.Codes.{Ret, ok, err, oops, efault, einval, enodata, eio, page_size}
use vsc.Events.{
  Event, Events, EventStat, init, request, read_comp, resp, shoot, Callback, abort_event,
  reset_event, set_event, remove_event_q, success, failed, sizeof_scsi_event, sizeof_msg_data,
  sizeof_event_abort, sizeof_event_result, word, first,
}

-- `enum event_type`.
pub data EventType : Type 0 where
  timeout shooting aborting : EventType

-- `VSC_EVENT_TYPE_ABORT` and `VSC_EVENT_TYPE_RESET_DEV`.
abbrev pub type_of : Callback → ℕ
type_of abort_event = 1
type_of reset_event = 2

-- `vsc_abort_event_callback`: `attached` says that `h->file` is set, `result` is the word that `data`
-- points at.
unfoldable pub abort_event_callback : Bool → EventType → ℕ → ℕ → ℕ → Event → Ret × Event
abort_event_callback attached shooting data_type result data_len e =
    if not (data_type == type_of abort_event)
    then (err einval, e)
    else if not (data_len == sizeof_event_result)
    then (err einval, e)
    else if result == 0
    then (ok 0, record e { event_priv = success })
    else (ok 0, record e { event_priv = failed })
abort_event_callback attached timeout data_type result data_len e =
    (ok 0, if attached then e else record e { event_priv = success })
abort_event_callback attached aborting data_type result data_len e =
    (ok 0, if attached then e else record e { event_priv = success })

-- `vsc_reset_dev_event_callback`.
unfoldable pub reset_dev_event_callback : Bool → EventType → ℕ → ℕ → ℕ → Event → Ret × Event
reset_dev_event_callback attached shooting data_type result data_len e =
    if not (data_type == type_of reset_event)
    then (err einval, e)
    else if not (data_len == sizeof_event_result)
    then (err einval, e)
    else if result == 0
    then (ok 0, record e { event_priv = success })
    else (ok 0, record e { event_priv = failed })
reset_dev_event_callback attached timeout data_type result data_len e =
    (ok 0, if attached then e else record e { event_priv = success })
reset_dev_event_callback attached aborting data_type result data_len e =
    (ok 0, if attached then e else record e { event_priv = success })

-- The callback of an event.
unfoldable pub run_callback : Bool → Callback → EventType → ℕ → ℕ → ℕ → Event → Ret × Event
unfolding abort_event_callback reset_dev_event_callback
run_callback attached abort_event = abort_event_callback attached
run_callback attached reset_event = reset_dev_event_callback attached

-- What a read of an event returns: the head (serial number, tag, whether more waits) and the bytes.
pub record EventMsg : Type 0 where
  pub event_sn : ℕ
  pub tag : ℕ
  pub more : Bool
  pub data_length : ℕ
  pub bytes : ℕ → ℕ

-- At `errout`: the event goes back, to the end of the request queue.
unfoldable pub put_event_back : Events → ℕ → Events
unfolding remove_event_q
put_event_back s i =
    let r = remove_event_q s i in record r { event_req_q = r.event_req_q ++ i ∷ [] }

abbrev pub nonempty : List ℕ → Bool
nonempty [] = false
nonempty (_ ∷ _) = true

-- The part of `vsc_get_event` for the first event `i`; `commands` says that commands wait, `fault`
-- that a copy to user space fails.
unfoldable pub take_event : Bool → Bool → Events → ℕ → Ret × Option EventMsg × Events
unfolding remove_event_q put_event_back
take_event commands fault s i =
    let r = remove_event_q s i in
    let t = record r { event_rsp_q = r.event_rsp_q ++ i ∷ [] } in
    let e = t.event_pool_tbl i in
    let m : EventMsg = record {
      event_sn = e.event_sn;
      tag = e.event_index;
      more = commands || nonempty t.event_req_q;
      data_length = e.event_data_len;
      bytes = e.event_data;
    } in
    if fault then (err efault, none, put_event_back t i) else (
      ok (sizeof_scsi_event + e.event_data_len),
      some m,
      set_event t i (record e { stat = read_comp }),
    )

-- `vsc_get_event` for a read of `len` bytes.
unfoldable pub get_event : Bool → ℕ → Bool → Events → Ret × Option EventMsg × Events
unfolding take_event
get_event commands len fault s =
    if ltb len (sizeof_scsi_event + sizeof_msg_data + sizeof_event_abort)
    then (err einval, none, s)
    else elim (first s.event_req_q) [
      | none ↦ (err enodata, none, s)
      | some i ↦ take_event commands fault s i
    ]

-- The head of an answer, `struct vsc_scsi_event`.
pub record EventRsp : Type 0 where
  pub event_sn : ℕ
  pub tag : ℕ
  pub data_length : ℕ

abbrev pub is_read_comp : EventStat → Bool
is_read_comp read_comp = true
is_read_comp init = false
is_read_comp request = false
is_read_comp resp = false

-- A copy of `n` bytes from user space, of which `copied` arrive; the rest is cleared.
abbrev pub copy_in : (ℕ → ℕ) → ℕ → ℕ → (ℕ → ℕ) → ℕ → ℕ
copy_in src copied n d i = if ltb i n then (if ltb i copied then src i else 0) else d i

-- The end of `vsc_response_event`: the callback, then the wake-up, whatever it returns.
unfoldable pub shoot_event : Bool → Events → ℕ → Event → Callback → Ret × Events
unfolding run_callback
shoot_event attached s i e cb =
    let data_len = word e.event_data 4 in
    let (r, e') =
      run_callback attached cb shooting (word e.event_data 0) (word e.event_data 8) data_len e in
    if ltb e.event_data_len data_len then (err efault, set_event s i e) else (
      elim r [ ok _ ↦ ok sizeof_scsi_event | err x ↦ err x | oops ↦ oops ],
      set_event s i (record e' { shot = shoot }),
    )

unfoldable pub call_event : Bool → Events → ℕ → Event → Option Callback → Ret × Events
unfolding shoot_event
call_event attached s i e none = (ok sizeof_scsi_event, set_event s i e)
call_event attached s i e (some cb) = shoot_event attached s i e cb

-- The part of `vsc_response_event` once the event is found and marked.
unfoldable pub fill_event : Bool → ℕ → EventRsp → (ℕ → ℕ) → ℕ → Events → ℕ → Event → Ret × Events
unfolding call_event
fill_event attached len m src copied s i e =
    let n = m.data_length in
    let f = record e { event_data_len = n; event_data = copy_in src copied n e.event_data } in
    if ltb len n || leb page_size n
    then (err eio, set_event s i e)
    else if ltb copied n
    then (err efault, set_event s i f)
    else call_event attached s i f f.event_callback

-- `vsc_response_event` for a buffer of `len` bytes that holds the head `m` and the bytes `src`,
-- once the head is copied.
unfoldable pub response_event : Bool → ℕ → EventRsp → (ℕ → ℕ) → ℕ → Events → Ret × Events
unfolding fill_event
response_event attached len m src copied s =
    let e = s.event_pool_tbl m.tag in
    if leb s.nr_events m.tag
    then (err eio, s)
    else if not (is_read_comp e.stat) || not (e.event_sn == m.event_sn)
    then (err eio, s)
    else fill_event attached len m src copied s m.tag (record e { stat = resp })

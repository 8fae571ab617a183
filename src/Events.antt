-- ===== src/Events.antt =====
-- vsc_main.c: the event part of `struct vsc_ctrl_info`, by which the driver asks user space to abort
-- a command or to reset a device. An event is named by its index in the pool, its tag.
pub mod Answer
pub mod Abort
pub mod Pool
pub mod Deliver
mod Tests
use vsc.Base.{
  ℕ, zero, suc, ◌+◌, ◌-◌, ◌*◌, ◌/◌, ◌%◌, ◌^◌, ◌++◌, List, [], ◌∷◌, Bool, true, false, ◌||◌, ◌&&◌,
  Option, none, some, ◌==◌, ltb, leb, length, if◌then◌else◌, update, mem, remove, u32, u64, inc32,
  dec32,
}
use vsc.Codes.{Ret, ok, err, oops, efault, einval, page_size}
use vsc.Cmds.{find_first_zero_bit}

-- `enum event_list_stat`.
pub data EventStat : Type 0 where
  init request read_comp resp : EventStat

-- `enum event_shoot_type`.
pub data Shoot : Type 0 where
  noshoot shoot abort : Shoot

-- The two callbacks, by the `VSC_EVENT_TYPE_` that each expects.
pub data Callback : Type 0 where
  abort_event reset_event : Callback

-- `struct vsc_event_list`. `event_data` holds its bytes, `waiting` says that a process sleeps on
-- `wait`, `event_priv` is what the mid-layer is told.
pub record Event : Type 0 where
  pub event_index : ℕ
  pub event_sn : ℕ
  pub stat : EventStat
  pub event_data_len : ℕ
  pub event_data : ℕ → ℕ
  pub event_priv : ℕ
  pub event_callback : Option Callback
  pub waiting : Bool
  pub shot : Shoot
  pub refcnt : ℕ

-- The event fields of `struct vsc_ctrl_info`.
pub record Events : Type 0 where
  pub nr_events : ℕ
  pub event_req_q : List ℕ
  pub event_rsp_q : List ℕ
  pub event_sn : ℕ
  pub event_pool_tbl : ℕ → Event
  pub event_pool_bits : ℕ → Bool

-- `SUCCESS` and `FAILED` (scsi/scsi.h).
abbrev pub success : ℕ
success = 0x2002

abbrev pub failed : ℕ
failed = 0x2003

-- `sizeof(struct vsc_scsi_event)`, and of `vsc_scsi_msg_data`, `vsc_event_abort`, `vsc_event_result`.
abbrev pub sizeof_scsi_event : ℕ
sizeof_scsi_event = 28

abbrev pub sizeof_msg_data : ℕ
sizeof_msg_data = 8

abbrev pub sizeof_event_abort : ℕ
sizeof_event_abort = 20

abbrev pub sizeof_event_result : ℕ
sizeof_event_result = 4

-- A 32-bit word of a buffer of bytes, least byte first.
abbrev pub word : (ℕ → ℕ) → ℕ → ℕ
word d o = d o + d (o + 1) * 2 ^ 8 + d (o + 2) * 2 ^ 16 + d (o + 3) * 2 ^ 24

-- The buffer after words are stored from an offset on.
abbrev pub put_words : (ℕ → ℕ) → ℕ → List ℕ → ℕ → ℕ
put_words d o [] = d
put_words d o (w ∷ ws) =
    let e : ℕ → ℕ = λ i. if leb o i && ltb i (o + 4) then w / 2 ^ (8 * (i - o)) % 2 ^ 8 else d i in
    put_words e (o + 4) ws

-- An assignment to a field of the event at index `i`.
abbrev pub set_event : Events → ℕ → Event → Events
set_event s i e = record s { event_pool_tbl = update s.event_pool_tbl i e }

-- `!list_empty(&e->list)`.
abbrev pub listed : Events → ℕ → Bool
listed s i = mem i s.event_req_q || mem i s.event_rsp_q

-- `remove_eventQ`, whichever queue holds the node.
unfoldable pub remove_event_q : Events → ℕ → Events
unfolding remove
remove_event_q s i = record s {
  event_req_q = remove i s.event_req_q;
  event_rsp_q = remove i s.event_rsp_q;
}

abbrev pub fresh_event : ℕ → ℕ → Event
fresh_event i sn = record {
  event_index = i;
  event_sn = u32 sn;
  stat = init;
  event_data_len = 0;
  event_data = λ j. 0;
  event_priv = 0;
  event_callback = none;
  waiting = false;
  shot = noshoot;
  refcnt = 1;
}

-- `vsc_event_alloc`, under the host's lock.
unfoldable pub event_alloc : Events → Option ℕ × Events
event_alloc s =
    let i = find_first_zero_bit s.event_pool_bits s.nr_events in
    let sn = u64 (s.event_sn + 1) in
    if i == s.nr_events then (none, s) else (
      some i,
      record s {
        event_pool_bits = update s.event_pool_bits i true;
        event_pool_tbl = update s.event_pool_tbl i (fresh_event i sn);
        event_sn = sn;
      },
    )

-- `vsc_event_get`.
unfoldable pub event_get : Events → ℕ → Events
event_get s i = let e = s.event_pool_tbl i in set_event s i (record e { refcnt = inc32 e.refcnt })

-- `vsc_event_put`: the last reference clears the bit of the event.
unfoldable pub event_put : Events → ℕ → Events
event_put s i =
    let e = s.event_pool_tbl i in
    let n = dec32 e.refcnt in
    let s' = set_event s i (record e { refcnt = n }) in
    if n == 0
    then (if leb s.nr_events e.event_index
        then s'
        else record s' { event_pool_bits = update s.event_pool_bits e.event_index false })
    else s'

-- `vsc_event_add` with a payload of words.
unfoldable pub event_add : Events → ℕ → Callback → ℕ → List ℕ → ℕ → Ret × Events
event_add s i callback event_type payload priv =
    let len = 4 * length payload in
    let e = s.event_pool_tbl i in
    let s' = set_event s i (record e {
      event_data = put_words e.event_data 0 (event_type ∷ len ∷ payload);
      event_data_len = len + sizeof_msg_data;
      event_callback = some callback;
      event_priv = priv;
    }) in
    if leb (page_size - sizeof_msg_data) len
    then (err einval, s)
    else (ok 0, record s' { event_req_q = s.event_req_q ++ i ∷ [] })

-- `vsc_event_del`: whoever sleeps on the event is told that it is aborted.
unfoldable pub event_del : Events → ℕ → Events
unfolding event_put remove_event_q
event_del s i =
    let e = s.event_pool_tbl i in
    let woken = if e.waiting then set_event s i (record e { shot = abort }) else s in
    event_put (if listed s i then remove_event_q woken i else woken) i

-- The first entry of a list.
abbrev pub first : List ℕ → Option ℕ
first [] = none
first (i ∷ _) = some i

-- A loop of `vsc_abort_all_event`, over the request queue or the response queue; each round takes
-- one entry.
unfoldable pub abort_events : (Events → List ℕ) → ℕ → Events → Events
unfolding event_del remove_event_q
abort_events queue zero s = s
abort_events queue (suc n) s = elim (first (queue s)) [
  | none ↦ s
  | some i ↦ abort_events queue n (event_del (remove_event_q s i) i)
]

-- `vsc_abort_all_event` of a host that is not null.
unfoldable pub abort_all_event : Events → Events
unfolding abort_events
abort_all_event s =
    let t = abort_events (λ x. x.event_req_q) (length s.event_req_q) s in
    abort_events (λ x. x.event_rsp_q) (length t.event_rsp_q) t

-- ===== src/Events/Deliver.antt =====
-- What a read of an event of vsc_main.c does on every branch, and what a proper answer does.
use vsc.Base.{
  ℕ, suc, ◌+◌, ◌<◌, ◌≤◌, ◌≡◌, ◌⊎◌, inl, inr, refl, List, [], ◌∷◌, ◌++◌, Bool, true, false, ◌||◌,
  none, some, ◌==◌, ==_refl, ltb, leb, if◌then◌else◌, arith, Bool-cases, List-cases, ap, ◌∙◌, count,
  remove_head, remove_absent, remove-append, append-nil, update,
}
use vsc.Codes.{ok, err, einval, enodata, efault, page_size}
use vsc.Events.{
  Event, Events, read_comp, resp, shoot, Callback, set_event, remove_event_q, sizeof_scsi_event,
  success, failed, word, sizeof_msg_data, sizeof_event_abort, sizeof_event_result,
}
use vsc.Events.Answer.{
  EventRsp, EventMsg, response_event, fill_event, call_event, shoot_event, run_callback, shooting,
  copy_in, get_event, take_event, put_event_back, nonempty, type_of,
}
use vsc.Events.Pool.{names_event, response_event-checked}

-- No event is listed twice.
abbrev pub ListedOnce : Events → Type 0
ListedOnce s = (i : ℕ) → count i s.event_req_q + count i s.event_rsp_q ≤ 1

-- The first event, `i`, has been read, or its read has failed.
abbrev pub read_out : Events → ℕ → List ℕ → Events
read_out s i is = record s {
  event_req_q = is;
  event_rsp_q = s.event_rsp_q ++ i ∷ [];
  event_pool_tbl = update s.event_pool_tbl i (record (s.event_pool_tbl i) { stat = read_comp });
}

abbrev pub read_failed : Events → ℕ → List ℕ → Events
read_failed s i is = record s { event_req_q = is ++ i ∷ [] }

abbrev pub message_of : Bool → Event → List ℕ → EventMsg
message_of commands e is = record {
  event_sn = e.event_sn;
  tag = e.event_index;
  more = commands || nonempty is;
  data_length = e.event_data_len;
  bytes = e.event_data;
}

-- The shortest buffer that is accepted.
abbrev pub shortest : ℕ
shortest = sizeof_scsi_event + sizeof_msg_data + sizeof_event_abort

-- What a read of an event comes to.
abbrev pub EventOutcome : Bool → ℕ → Bool → Events → Type 0
EventOutcome commands len fault s =
    let out = get_event commands len fault s in
    ((len < shortest) × (out ≡ (err einval, none, s)))
    ⊎ ((shortest ≤ len) × (s.event_req_q ≡ []) × (out ≡ (err enodata, none, s)))
    ⊎ ((shortest ≤ len)
        × ((i : ℕ) × (is : List ℕ) × (s.event_req_q ≡ i ∷ is)
            × (out ≡ (
                if fault then (err efault, none, read_failed s i is) else (
                  ok (sizeof_scsi_event + (s.event_pool_tbl i).event_data_len),
                  some (message_of commands (s.event_pool_tbl i) is),
                  read_out s i is,
                )))))

take_event_lem :
    (commands fault : Bool) (s : Events) (i : ℕ) (is : List ℕ)
    → ListedOnce s
    → s.event_req_q ≡ i ∷ is
    → take_event commands fault s i ≡ (
        if fault then (err efault, none, read_failed s i is) else (
          ok (sizeof_scsi_event + (s.event_pool_tbl i).event_data_len),
          some (message_of commands (s.event_pool_tbl i) is),
          read_out s i is,
        ))
unfolding take_event put_event_back remove_event_q
take_event_lem commands fault s i is v e =
    let once = v i in
    let here : count i s.event_req_q ≡ suc (count i is) =
      ground (arith, ap (count i) e, ==_refl i) in
    rw
      (
        e,
        remove_head i is,
        remove_absent i s.event_rsp_q (omega arith),
        remove_absent i is (omega arith),
        remove-append i s.event_rsp_q (i ∷ []) (omega arith),
        remove_head i [],
        append-nil s.event_rsp_q,
      )
      refl

-- If no event is listed twice, a read with too short a buffer fails with `EINVAL` and one with no
-- event with `ENODATA`, and neither changes anything. If the copy fails, the read fails with
-- `EFAULT` and the event goes to the end of the queue. Otherwise the first event is delivered, with
-- its serial number, tag and bytes and whether more waits, and waits for its answer.
pub get_event_lem :
    (commands : Bool) (len : ℕ) (fault : Bool) (s : Events)
    → ListedOnce s
    → EventOutcome commands len fault s
unfolding get_event
get_event_lem commands len fault s v = elim (Bool-cases (ltb len shortest)) [
  | inl short ↦ inl (ground arith, rw short refl)
  | inr enough ↦ inr (elim (List-cases s.event_req_q) [
    | inl e ↦ inl (ground arith, e, ground (arith, enough, e))
    | inr (i, is, e) ↦
        inr (ground arith, (i, is, e, rw (enough, e) (take_event_lem commands fault s i is v e)))
  ])
]

copied_word :
    (src d : ℕ → ℕ) (copied n o : ℕ)
    → o + 4 ≤ n
    → n ≤ copied
    → word (copy_in src copied n d) o ≡ word src o
copied_word src d copied n o h k = ground arith

run_callback_lem :
    (attached : Bool) (cb : Callback) (data_type result data_len : ℕ) (e : Event)
    → data_type ≡ type_of cb
    → data_len ≡ sizeof_event_result
    → run_callback attached cb shooting data_type result data_len e
      ≡ (ok 0, record e { event_priv = if result == 0 then success else failed })
unfolding run_callback
run_callback_lem attached cb data_type result data_len e k l =
    ground (arith, k, l, ==_refl (type_of cb))

shoot_event_lem :
    (attached : Bool) (s : Events) (i : ℕ) (e : Event) (cb : Callback)
    → word e.event_data 0 ≡ type_of cb
    → word e.event_data 4 ≡ sizeof_event_result
    → sizeof_event_result ≤ e.event_data_len
    → shoot_event attached s i e cb ≡ (
      ok sizeof_scsi_event,
      set_event s i (record e {
        event_priv = if word e.event_data 8 == 0 then success else failed;
        shot = shoot;
      }),
    )
unfolding shoot_event
shoot_event_lem attached s i e cb kind size long =
    let enough : ltb e.event_data_len (word e.event_data 4) ≡ false = ground (arith, size, long) in
    rw
      (
        run_callback_lem attached cb (word e.event_data 0) (word e.event_data 8)
            (word e.event_data 4) e kind size,
        enough,
      )
      refl

fill_event_lem :
    (attached : Bool) (len : ℕ) (m : EventRsp) (src : ℕ → ℕ) (copied : ℕ) (s : Events) (i : ℕ)
    (e : Event) (cb : Callback)
    → e.event_callback ≡ some cb
    → m.data_length ≤ len
    → m.data_length ≤ copied
    → m.data_length < page_size
    → fill_event attached len m src copied s i e
      ≡ shoot_event attached s i
          (record e {
            event_data_len = m.data_length;
            event_data = copy_in src copied m.data_length e.event_data;
          })
          cb
unfolding fill_event call_event
fill_event_lem attached len m src copied s i e cb has fits copies page =
    let good : (ltb len m.data_length || leb page_size m.data_length) ≡ false =
      ground (arith, fits, page) in
    let whole : ltb copied m.data_length ≡ false = ground (arith, copies) in
    let f = record e {
      event_data_len = m.data_length;
      event_data = copy_in src copied m.data_length e.event_data;
    } in
    rw (good, whole) (ap (call_event attached s i f) has)

-- An answer whose head names an event that has been read, whose lengths fit, and whose bytes hold
-- the type of the event, the length 4 and a result, is accepted: the mid-layer is told success
-- exactly if the result is 0, and the sleeper is woken.
pub answer_accepted :
    (attached : Bool) (len : ℕ) (m : EventRsp) (src : ℕ → ℕ) (copied : ℕ) (s : Events)
    (cb : Callback)
    → names_event s m ≡ true
    → (s.event_pool_tbl m.tag).event_callback ≡ some cb
    → 12 ≤ m.data_length
    → m.data_length ≤ len
    → m.data_length ≤ copied
    → m.data_length < page_size
    → word src 0 ≡ type_of cb
    → word src 4 ≡ sizeof_event_result
    → let out = response_event attached len m src copied s in
      let e = out.1.event_pool_tbl m.tag in
      (out.0 ≡ ok sizeof_scsi_event)
      × (e.event_priv ≡ (if word src 8 == 0 then success else failed))
      × (e.shot ≡ shoot)
answer_accepted attached len m src copied s cb named has long fits copies page kind size =
    let e = record (s.event_pool_tbl m.tag) { stat = resp } in
    let f = record e {
      event_data_len = m.data_length;
      event_data = copy_in src copied m.data_length e.event_data;
    } in
    let w = λ (o : ℕ) (h : o + 4 ≤ 12).
      copied_word src e.event_data copied m.data_length o (omega arith) copies in
    let done =
      shoot_event_lem attached s m.tag f cb (w 0 (omega arith) ∙ kind) (w 4 (omega arith) ∙ size)
        (omega arith) in
    rw
      (
        response_event-checked attached len m src copied s,
        named,
        fill_event_lem attached len m src copied s m.tag e cb has fits copies page,
        done,
        w 8 (omega arith),
      )
      (ground (arith, ==_refl m.tag))

-- ===== src/Events/Tests.antt =====
-- Runs of the events of vsc_main.c at concrete inputs.
use vsc.Base.{ℕ, ◌≡◌, refl, [], ◌∷◌, true, false, some, arith, ltb, update}
use vsc.Codes.{ok, err, eio}
use vsc.Events.{
  Event, Events, init, read_comp, EventStat, shoot, abort_event, success, sizeof_scsi_event,
  abort_all_event, fresh_event, put_words,
}
use vsc.Events.Answer.{EventRsp, response_event}
use vsc.Events.Pool.{response_event_twice}
use vsc.Events.Deliver.{ListedOnce, EventOutcome, get_event_lem, answer_accepted}
use vsc.Events.Abort.{abort_all_event_empty}

-- One event, on which a process sleeps.
abbrev event_at : EventStat → Event
event_at s = record (fresh_event 0 7) {
  stat = s;
  event_callback = some abort_event;
  waiting = true;
  refcnt = 2;
}

abbrev waiting_one : Events
waiting_one = record {
  nr_events = 8;
  event_req_q = 0 ∷ [];
  event_rsp_q = [];
  event_sn = 7;
  event_pool_tbl = update (λ i. fresh_event i 0) 0 (event_at init);
  event_pool_bits = λ i. ltb i 1;
}

abbrev read_one : Events
read_one = record waiting_one {
  event_req_q = [];
  event_rsp_q = 0 ∷ [];
  event_pool_tbl = update (λ i. fresh_event i 0) 0 (event_at read_comp);
}

abbrev reply : EventRsp
reply = record { event_sn = 7; tag = 0; data_length = 12 }

-- Type 1, length 4, result 0.
abbrev reply_bytes : ℕ → ℕ
reply_bytes = put_words (λ i. 0) 0 (1 ∷ 4 ∷ 0 ∷ [])

response_event_twice_example :
    let t = (response_event true 40 reply reply_bytes 12 read_one).1 in
    response_event true 40 (record reply { data_length = 12 }) reply_bytes 12 t ≡ (err eio, t)
response_event_twice_example =
    response_event_twice true true 40 40 12 12 12 reply reply_bytes reply_bytes read_one

waiting_one-ListedOnce : ListedOnce waiting_one
waiting_one-ListedOnce i = ground arith

get_event_lem_example : EventOutcome false 64 false waiting_one
get_event_lem_example = get_event_lem false 64 false waiting_one waiting_one-ListedOnce

answer_accepted_example :
    let out = response_event true 40 reply reply_bytes 12 read_one in
    let e = out.1.event_pool_tbl 0 in
    (out.0 ≡ ok sizeof_scsi_event) × (e.event_priv ≡ success) × (e.shot ≡ shoot)
answer_accepted_example =
    answer_accepted true 40 reply reply_bytes 12 read_one abort_event refl refl (omega arith)
      (omega arith) (omega arith) (omega arith) refl refl

abort_all_event_empty_example :
    ((abort_all_event read_one).event_req_q ≡ []) × ((abort_all_event read_one).event_rsp_q ≡ [])
abort_all_event_empty_example = abort_all_event_empty read_one

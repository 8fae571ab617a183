-- ===== src/Events/Pool.antt =====
-- What the event pool of vsc_main.c does: an answer counts once, and `vsc_abort_all_event` leaves no
-- event behind.
use vsc.Base.{
  ℕ, ◌≡◌, inl, inr, refl, Bool, false, ◌&&◌, ◌==◌, ==_refl, ltb, if◌then◌else◌, arith, Bool-cases,
  Option-cases, Bool,
}
use vsc.Codes.{err, eio}
use vsc.Events.{Event, Events, resp, Callback}
use vsc.Events.Answer.{
  EventRsp, response_event, fill_event, call_event, shoot_event, run_callback, is_read_comp,
  copy_in,
}

-- Whatever an answer does past its checks, the event is marked as answered.
shoot_event-stat :
    (attached : Bool) (s : Events) (i : ℕ) (e : Event) (cb : Callback)
    → ((shoot_event attached s i e cb).1.event_pool_tbl i).stat ≡ e.stat
unfolding shoot_event run_callback
shoot_event-stat attached s i e cb = ground (arith, ==_refl i)

fill_event-stat :
    (attached : Bool) (len : ℕ) (m : EventRsp) (src : ℕ → ℕ) (copied : ℕ) (s : Events) (i : ℕ)
    (e : Event)
    → ((fill_event attached len m src copied s i e).1.event_pool_tbl i).stat ≡ e.stat
unfolding fill_event call_event
fill_event-stat attached len m src copied s i e =
    let f = record e {
      event_data_len = m.data_length;
      event_data = copy_in src copied m.data_length e.event_data;
    } in
    elim (Option-cases e.event_callback) [
      | inl n ↦ ground (arith, n, ==_refl i)
      | inr (cb, n) ↦ ground (arith, n, ==_refl i, shoot_event-stat attached s i f cb)
    ]

-- The head of an answer names an event that user space has read and not answered.
abbrev pub names_event : Events → EventRsp → Bool
names_event s m =
    ltb m.tag s.nr_events
    && (is_read_comp (s.event_pool_tbl m.tag).stat
        && ((s.event_pool_tbl m.tag).event_sn == m.event_sn))

pub response_event-checked :
    (attached : Bool) (len : ℕ) (m : EventRsp) (src : ℕ → ℕ) (copied : ℕ) (s : Events)
    → response_event attached len m src copied s ≡ (
        if names_event s m
        then fill_event attached len m src copied s m.tag
            (record (s.event_pool_tbl m.tag) { stat = resp })
        else (err eio, s))
unfolding response_event
response_event-checked attached len m src copied s = ground arith

resp_unnamed :
    (s : Events) (m : EventRsp) → (s.event_pool_tbl m.tag).stat ≡ resp → names_event s m ≡ false
resp_unnamed s m e = ground (arith, e)

unnamed_after :
    (attached : Bool) (len : ℕ) (m : EventRsp) (src : ℕ → ℕ) (copied : ℕ) (s : Events)
    → names_event (response_event attached len m src copied s).1 m ≡ false
unnamed_after attached len m src copied s = elim (Bool-cases (names_event s m)) [
  | inl e ↦
      rw (response_event-checked attached len m src copied s, e)
        (resp_unnamed
          (fill_event attached len m src copied s m.tag
            (record (s.event_pool_tbl m.tag) { stat = resp })).1
          m
          (fill_event-stat attached len m src copied s m.tag
            (record (s.event_pool_tbl m.tag) { stat = resp })))
  | inr e ↦ rw (response_event-checked attached len m src copied s, e) e
]

-- An event is answered once: after an answer, whatever came of it, another one with the same tag
-- and serial number is refused with `EIO` and changes nothing.
pub response_event_twice :
    (attached attached' : Bool) (len len' copied copied' n : ℕ) (m : EventRsp) (src src' : ℕ → ℕ)
    (s : Events)
    → let t = (response_event attached len m src copied s).1 in
      response_event attached' len' (record m { data_length = n }) src' copied' t ≡ (err eio, t)
response_event_twice attached attached' len len' copied copied' n m src src' s =
    let t = (response_event attached len m src copied s).1 in
    rw
      (
        response_event-checked attached' len' (record m { data_length = n }) src' copied' t,
        unnamed_after attached len m src copied s,
      )
      refl

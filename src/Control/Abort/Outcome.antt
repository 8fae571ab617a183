-- ===== src/Control/Abort/Outcome.antt =====
-- What the abort of a command of vsc_main.c comes to, and what happens to its event if all events
-- are aborted during the sleep.
use vsc.Base.{
  ℕ, zero, suc, ◌-◌, ◌^◌, ◌<◌, ◌≡◌, ◌≢◌, ◌⊎◌, inl, inr, refl, [], ◌∷◌, Bool, true, false, not, ◌==◌,
  ==_iff, ==_refl, arith, Bool-cases, ◌∙◌, count, remove_absent, All_of_count, count-mem,
}
use vsc.Codes.{did_abort, host_byte_of}
use vsc.Cmds.{Cmds, CmdStat, init, request, read_comp, ScsiCmnd, linked, remove_q, cmd_get, cmd_put}
use vsc.Cmds.Inv.{Inv, Slot, uses}
use vsc.Cmds.Inv.Release.{Released}
use vsc.Events.{
  abort_event, reset_event, Event, Events, set_event, event_put, event_del, abort_all_event,
  remove_event_q, success, Callback, abort_event,
}
use vsc.Events.Answer.{run_callback, aborting}
use vsc.Events.Abort.{abort_all_event_one}
use vsc.Control.{Host, is_free}
use vsc.Control.Abort.{drop_cmd, eh_abort_end, end_wait, is_abort}

-- The slot of a queued command, whatever its state.
abbrev Held : Cmds → ℕ → Type 0
Held q c =
    (c < q.nr_cmds)
    × (q.cmd_pool_bits c ≡ true)
    × ((q.cmd_pool_tbl c).cmd_index ≡ c)
    × ((q.cmd_pool_tbl c).refcnt ≡ 1)

Slot-Held :
    (q : Cmds) (s : CmdStat) (c : ℕ) → Slot q.cmd_pool_tbl q.cmd_pool_bits q.nr_cmds s c → Held q c
Slot-Held q s c h = (h.0, h.1, h.2, h.3)

zero_or_more : (n : ℕ) → (n ≡ 0) ⊎ (0 < n)
zero_or_more zero = inl refl
zero_or_more (suc n) = inr (omega arith)

queued-Held : (q : Cmds) (c : ℕ) → Inv q → 0 < uses q c → Held q c
queued-Held q c v h = elim (zero_or_more (count c q.req_q)) [
  | inr a ↦ Slot-Held q init c (All_of_count _ c q.req_q v.req a)
  | inl a ↦ elim (zero_or_more (count c q.cmp_q)) [
    | inr b ↦ Slot-Held q request c (All_of_count _ c q.cmp_q v.cmp b)
    | inl b ↦ Slot-Held q read_comp c (All_of_count _ c q.rsp_q v.rsp (omega arith))
  ]
]

queued-linked : (q : Cmds) (c : ℕ) → 0 < uses q c → linked q c ≡ true
queued-linked q c h = ground (arith, count-mem c q.req_q, count-mem c q.cmp_q, count-mem c q.rsp_q)

-- From queues in order: if a command that waits, past the request queue, is given up while the
-- handler holds its reference, it leaves the queues, its slot is free once the handler is done, and
-- it is reported once, as aborted.
pub drop_cmd-Released :
    (q : Cmds) (c : ℕ) (sc : ScsiCmnd)
    → Inv q
    → 0 < uses q c
    → count c q.req_q ≡ 0
    → Released q (cmd_put (drop_cmd sc c (cmd_get q c)) c) c sc (host_byte_of did_abort)
unfolding drop_cmd cmd_get cmd_put remove_q
drop_cmd-Released q c sc v h out =
    let k = queued-Held q c v h in
    let l = queued-linked q c h in
    ground (arith, k, l, v.once c, v.depth, remove_absent c q.req_q, ==_refl c)

-- The queues, the slots and the reports are those of before.
pub record Untouched (q q' : Cmds) : Type 0 where
  pub req : q'.req_q ≡ q.req_q
  pub cmp : q'.cmp_q ≡ q.cmp_q
  pub rsp : q'.rsp_q ≡ q.rsp_q
  pub slots :
      (j : ℕ) → (q'.cmd_pool_tbl j ≡ q.cmd_pool_tbl j) × (q'.cmd_pool_bits j ≡ q.cmd_pool_bits j)
  pub running : q'.io_running ≡ q.io_running
  pub reported : q'.completed ≡ q.completed

put-get-Untouched :
    (q : Cmds) (c : ℕ) → (q.cmd_pool_tbl c).refcnt ≡ 1 → Untouched q (cmd_put (cmd_get q c) c)
unfolding cmd_get cmd_put
put-get-Untouched q c e = ground (arith, e, ==_iff c)

-- What the abort of the command at `c` comes to, after the sleep on the event at `i`.
abbrev pub AbortOutcome : Bool → ScsiCmnd → ℕ → ℕ → Cmds → Host → Type 0
AbortOutcome timed_out sc c i q h =
    let out = eh_abort_end timed_out sc c i (record h { cmds = cmd_get q c }) in
    ((out.0 ≡ success) × Released q out.1.cmds c sc (host_byte_of did_abort))
    ⊎ ((out.0 ≢ success) × Untouched q out.1.cmds)

-- From queues in order, for a command that waits past the request queue and a handler that holds
-- its reference: if the abort succeeds, the command has left the queues, its slot is free, and it
-- has been reported once, as aborted; if it does not, the queues, the slots and the reports are
-- those of before.
pub eh_abort_end_lem :
    (timed_out : Bool) (sc : ScsiCmnd) (c i : ℕ) (q : Cmds) (h : Host)
    → Inv q
    → 0 < uses q c
    → count c q.req_q ≡ 0
    → AbortOutcome timed_out sc c i q h
unfolding eh_abort_end
eh_abort_end_lem timed_out sc c i q h v has out =
    let priv =
      ((end_wait abort_event (not (is_free h.file)) timed_out h.events i).event_pool_tbl
        i).event_priv in
    elim (Bool-cases (priv == success)) [
      | inl e ↦ inl ((==_iff priv success).0 e, rw e (drop_cmd-Released q c sc v has out))
      | inr e ↦ inr (
        (λ p. cc (e, (==_iff priv success).1 p)),
        rw e (put-get-Untouched q c (queued-Held q c v has).3),
      )
    ]

-- One reference of an event, held by nobody else, that is put: its slot is free.
put_last :
    (s : Events) (i : ℕ)
    → (s.event_pool_tbl i).refcnt ≡ 1
    → (s.event_pool_tbl i).event_index ≡ i
    → i < s.nr_events
    → ((event_put s i).event_pool_bits i ≡ false) × (((event_put s i).event_pool_tbl i).refcnt ≡ 0)
unfolding event_put
put_last s i r x small = ground (arith, r, x, ==_refl i)

round_refcnt :
    (s : Events) (i : ℕ)
    → (s.event_pool_tbl i).refcnt ≡ 2
    → let t = event_del (remove_event_q s i) i in
      ((t.event_pool_tbl i).refcnt ≡ 1)
      × ((t.event_pool_tbl i).event_index ≡ (s.event_pool_tbl i).event_index)
      × (t.nr_events ≡ s.nr_events)
unfolding event_del remove_event_q event_put
round_refcnt s i r = ground (arith, r, ==_refl i)

callback_keeps :
    (attached : Bool) (cb : Callback) (e : Event)
    → ((run_callback attached cb aborting 0 0 0 e).1.refcnt ≡ e.refcnt)
      × ((run_callback attached cb aborting 0 0 0 e).1.event_index ≡ e.event_index)
unfolding run_callback
callback_keeps true abort_event e = (refl, refl)
callback_keeps false abort_event e = (refl, refl)
callback_keeps true reset_event e = (refl, refl)
callback_keeps false reset_event e = (refl, refl)

end_wait_freed :
    (cb : Callback) (attached : Bool) (s : Events) (i : ℕ)
    → (s.event_pool_tbl i).refcnt ≡ 1
    → (s.event_pool_tbl i).event_index ≡ i
    → i < s.nr_events
    → ((end_wait cb attached false s i).event_pool_bits i ≡ false)
      × (((end_wait cb attached false s i).event_pool_tbl i).refcnt ≡ 0)
unfolding end_wait
end_wait_freed cb attached s i r x small =
    let e = record (s.event_pool_tbl i) { waiting = false } in
    let k = callback_keeps attached cb e in
    elim (Bool-cases (is_abort (s.event_pool_tbl i).shot)) [
      | inl a ↦ rw a (
          put_last (set_event s i (run_callback attached cb aborting 0 0 0 e).1) i
            (ground (arith, k, r, ==_refl i)) (ground (arith, k, x, ==_refl i)) small)
      | inr a ↦ rw a (
          put_last (set_event s i e) i (ground (arith, r, ==_refl i)) (ground (arith, x, ==_refl i))
            small)
    ]

put_below :
    (s : Events) (i : ℕ)
    → (s.event_pool_tbl i).refcnt ≡ 0
    → ((event_del s i).event_pool_tbl i).refcnt ≡ 2 ^ 32 - 1
unfolding event_del event_put remove_event_q
put_below s i r = ground (arith, r, ==_refl i)

-- If all events are aborted while a handler sleeps on the only one, which waits to be read, the
-- slot of the event is free as soon as the handler wakes, and the put at its end takes the count of
-- references below zero.
event_put_twice :
    (cb : Callback) (attached : Bool) (s : Events) (i : ℕ)
    → s.event_req_q ≡ i ∷ []
    → s.event_rsp_q ≡ []
    → (s.event_pool_tbl i).refcnt ≡ 2
    → (s.event_pool_tbl i).event_index ≡ i
    → i < s.nr_events
    → let w = end_wait cb attached false (abort_all_event s) i in
      (w.event_pool_bits i ≡ false) × (((event_del w i).event_pool_tbl i).refcnt ≡ 2 ^ 32 - 1)
event_put_twice cb attached s i req rsp r x small =
    let t = round_refcnt s i r in
    let f =
      end_wait_freed cb attached (event_del (remove_event_q s i) i) i t.0 (t.1 ∙ x)
        (rw t.2 small) in
    rw (abort_all_event_one s i req rsp) (f.0, put_below _ i f.1)

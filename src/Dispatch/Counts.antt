-- ===== src/Dispatch/Counts.antt =====
-- vsc_main.c: which message a read delivers, and how its failures are counted.
use vsc.Base.{
  ℕ, ◌≡◌, ◌⊎◌, refl, ap, List, [], ◌∷◌, Bool, true, false, ◌||◌, some, if◌then◌else◌, arith,
  Bool-cases, inl, inr, inc32,
}
use vsc.Codes.{Ret, ok, err, oops, is_err, eagain}
use vsc.Cmds.Read.{get_multi_scsi_cmd_and_cdb}
use vsc.Events.Answer.{get_event}
use vsc.Control.{Host, poll_wait, nonempty}
use vsc.Xfer.{Mmu}
use vsc.Xfer.Batch.{Layout}
use vsc.Dispatch.{
  Session, Wake, ready, gives, wait_for_work, Delivery, nothing, event_of, commands_of, reply_ret,
  count_read, ReadCall, take_work, after_wait, get_scsi_cmd_msg, counted, read_kind, get_msg,
}

-- A failure is counted twice: once by `vsc_get_scsi_cmd_msg`, once by `vsc_get_msg`.
abbrev pub twice : Ret → Session → Session
twice r s = if is_err r then record s { read_fail_count = inc32 (inc32 s.read_fail_count) } else s

or_right : (a b : Bool) → b ≡ true → (a || b) ≡ true
or_right a b h = ground arith

or_left : (a b : Bool) → a ≡ true → (a || b) ≡ true
or_left a b h = ground arith

or_none : (a b : Bool) → a ≡ false → b ≡ false → (a || b) ≡ false
or_none a b h k = ground arith

module _ (mmu : Mmu) (layout : Layout) (size : List ℕ → ℕ) (host_no : ℕ) where
  -- What a read of messages comes to, if it need not sleep.
  abbrev pub ReadOutcome : ReadCall → Session → Type 0
  ReadOutcome c s =
      let h = s.host in
      let out = get_msg mmu layout size host_no c s in
      let (r, m, e) = get_event (nonempty h.cmds.cmp_q) c.len c.fault h.events in
      let (a, q) = get_multi_scsi_cmd_and_cdb size host_no c.len c.fault h.cmds in
      ((nonempty h.events.event_req_q ≡ true)
        × (out ≡ some (r, event_of m, twice r (record s { host = record h { events = e } }))))
      ⊎ ((nonempty h.events.event_req_q ≡ false)
          × (nonempty h.cmds.cmp_q ≡ true)
          × (out
              ≡ some (
                reply_ret a,
                commands_of a,
                twice (reply_ret a) (record s { host = record h { cmds = q } }),
              )))
      ⊎ ((nonempty h.events.event_req_q ≡ false)
          × (nonempty h.cmds.cmp_q ≡ false)
          × (out
              ≡ some (err eagain, nothing, record s { read_fail_count = inc32 s.read_fail_count })))

  ready_at :
      (nonblock : Bool) (ws : List Wake) (h : Host)
      → poll_wait h ≡ true
      → wait_for_work nonblock ws h ≡ ready h
  unfolding wait_for_work
  ready_at nonblock [] h e = rw e refl
  ready_at nonblock (w ∷ ws) h e = rw e refl

  refused_at :
      (ws : List Wake) (h : Host) → poll_wait h ≡ false → wait_for_work true ws h ≡ gives eagain h
  unfolding wait_for_work
  refused_at [] h e = rw e refl
  refused_at (w ∷ ws) h e = rw e refl

  count_twice :
      (r : Ret) (d : Delivery) (s : Session) → count_read (count_read (r, d, s)) ≡ (r, d, twice r s)
  count_twice (ok n) d s = refl
  count_twice (err e) d s = refl
  count_twice oops d s = refl

  -- The type is that of a message.
  via_wait :
      (c : ReadCall) (s : Session)
      → c.kind ≡ some 0
      → get_msg mmu layout size host_no c s
        ≡ counted mmu layout size host_no
            (after_wait mmu layout size host_no c s (wait_for_work c.nonblock c.wakes s.host))
  unfolding get_msg read_kind get_scsi_cmd_msg
  via_wait c s k = rw k refl

  with_event :
      (c : ReadCall) (h : Host) (s : Session)
      → nonempty h.events.event_req_q ≡ true
      → let (r, m, e) = get_event (nonempty h.cmds.cmp_q) c.len c.fault h.events in
        take_work mmu layout size host_no c h s
        ≡ (r, event_of m, record s { host = record h { events = e } })
  unfolding take_work
  with_event c h s e = rw e refl

  with_commands :
      (c : ReadCall) (h : Host) (s : Session)
      → nonempty h.events.event_req_q ≡ false
      → let (a, q) = get_multi_scsi_cmd_and_cdb size host_no c.len c.fault h.cmds in
        take_work mmu layout size host_no c h s
        ≡ (reply_ret a, commands_of a, record s { host = record h { cmds = q } })
  unfolding take_work
  with_commands c h s e = rw e refl

  -- A read of messages that may not block returns. If an event waits it delivers the event, whatever
  -- commands wait, and leaves the commands alone; else, if commands wait, it delivers those and leaves
  -- the events alone. A failure of either is counted twice. If nothing waits it fails with `EAGAIN`,
  -- which is counted once, and changes nothing else.
  pub get_msg_lem :
      (c : ReadCall) (s : Session) → c.kind ≡ some 0 → c.nonblock ≡ true → ReadOutcome c s
  get_msg_lem c s k n =
      let h = s.host in
      elim (Bool-cases (nonempty h.events.event_req_q)) [
        | inl e ↦ inl (
          e,
          rw
              (
                via_wait c s k,
                ready_at c.nonblock c.wakes h
                    (or_right (nonempty h.cmds.cmp_q) (nonempty h.events.event_req_q) e),
                with_event c h s e,
              )
              (ap some (count_twice _ _ _)),
        )
        | inr e ↦ elim (Bool-cases (nonempty h.cmds.cmp_q)) [
          | inl f ↦ inr (
              inl (
                e,
                f,
                rw
                    (
                      via_wait c s k,
                      ready_at c.nonblock c.wakes h
                          (or_left (nonempty h.cmds.cmp_q) (nonempty h.events.event_req_q) f),
                      with_commands c h s e,
                    )
                    (ap some (count_twice _ _ _)),
              ))
          | inr f ↦ inr (
              inr (
                e,
                f,
                rw
                    (
                      via_wait c s k,
                      n,
                      refused_at c.wakes h
                          (or_none (nonempty h.cmds.cmp_q) (nonempty h.events.event_req_q) f e),
                    )
                    refl,
              ))
        ]
      ]

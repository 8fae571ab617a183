-- ===== src/Dispatch/Related.antt =====
-- vsc_main.c: `vsc_get_msg` as a change of the host, in any relation that has its parts.
use vsc.Base.{
  ℕ, ◌≡◌, refl, sym, subst, List, [], ◌∷◌, Bool, Option, none, some, ◌==◌, if◌then◌else◌, All,
  Bool-cases, inl, inr, Option-cases,
}
use vsc.Codes.{Ret, ok, err, oops, eagain}
use vsc.Cmds.Read.{get_multi_scsi_cmd_and_cdb}
use vsc.Control.{Host, poll_wait, nonempty}
use vsc.Xfer.{Mmu}
use vsc.Events.{Events}
use vsc.Xfer.Batch.{Layout}
use vsc.Dispatch.{
  Session, Wake, signal, others, Waited, ready, gives, counts, asleep, interrupted, take_interrupt,
  slept, wait_for_work, Delivery, count_read, ReadCall, take_work, after_wait, get_scsi_cmd_msg,
  counted, read_kind, get_msg,
}

-- A relation between a host and what becomes of it, that has the parts of a read.
pub record HasReads (size : List ℕ → ℕ) (host_no : ℕ) (R : Host → Host → Type 0) : Type 0 where
  pub same : (h : Host) → R h h
  pub both : {h k l : Host} → R h k → R k l → R h l
  pub woken : (h : Host) → R h (record h { wakeup_pid = 0 })
  pub with_events : (h : Host) (s : Events) → R h (record h { events = s })
  pub with_cmds :
      (h : Host) (len : ℕ) (fault : Bool)
      → R h (record h { cmds = (get_multi_scsi_cmd_and_cdb size host_no len fault h.cmds).1 })

-- What others do while the reader sleeps is in the relation.
abbrev pub AreIn : (Host → Host → Type 0) → Wake → Type 0
AreIn R signal = Unit
AreIn R (others f) = (h : Host) → R h (f h)

-- The host at the end of the waiting loop.
abbrev left_by : Waited → Host
left_by (ready h) = h
left_by (gives e h) = h
left_by (counts e h) = h
left_by (asleep h) = h

-- A predicate of what a read returns, if it returns.
abbrev Ends : (Ret × Delivery × Session → Type 0) → Option (Ret × Delivery × Session) → Type 0
Ends P none = Unit
Ends P (some o) = P o

count_read-host : (o : Ret × Delivery × Session) → (count_read o).2.host ≡ o.2.host
count_read-host (ok n, d, s) = refl
count_read-host (err e, d, s) = refl
count_read-host (oops, d, s) = refl

module _ (size : List ℕ → ℕ) (host_no : ℕ) (R : Host → Host → Type 0)
    (p : HasReads size host_no R) where
  tests-In :
      (nonblock : Bool) (h : Host) (w : Waited)
      → R h (left_by w)
      → R h (
          left_by (
            if poll_wait h
            then ready h
            else if nonblock
            then gives eagain h
            else if interrupted h
            then take_interrupt h
            else w))
  tests-In nonblock h w r = elim (Bool-cases (poll_wait h)) [
    | inl e ↦ rw e (p.same h)
    | inr e ↦ elim (Bool-cases nonblock) [
      | inl f ↦ rw (e, f) (p.same h)
      | inr f ↦ elim (Bool-cases (interrupted h)) [
        | inl g ↦ rw (e, f, g) (p.woken h)
        | inr g ↦ rw (e, f, g) r
      ]
    ]
  ]

  wait_for_work-In :
      (nonblock : Bool) (ws : List Wake) (h : Host)
      → All (AreIn R) ws
      → R h (left_by (wait_for_work nonblock ws h))
  unfolding wait_for_work
  wait_for_work-In nonblock [] h a = tests-In nonblock h (asleep h) (p.same h)
  wait_for_work-In nonblock (signal ∷ ws) h a =
      tests-In nonblock h (slept signal h (wait_for_work nonblock ws)) (p.same h)
  wait_for_work-In nonblock (others f ∷ ws) h a =
      tests-In nonblock h (slept (others f) h (wait_for_work nonblock ws))
        (elim (Bool-cases (interrupted (f h))) [
          | inl e ↦ rw e (p.both (a.0 h) (p.woken (f h)))
          | inr e ↦ rw e (p.both (a.0 h) (wait_for_work-In nonblock ws (f h) a.1))
        ])

  module _ (mmu : Mmu) (layout : Layout) where
    abbrev From : Host → Ret × Delivery × Session → Type 0
    From h o = R h o.2.host

    counted-From : (h : Host) (o : Ret × Delivery × Session) → From h o → From h (count_read o)
    counted-From h o r = subst (R h) (sym (count_read-host o)) r

    take_work-From :
        (c : ReadCall) (h : Host) (s : Session) → From h (take_work mmu layout size host_no c h s)
    unfolding take_work
    take_work-From c h s = elim (Bool-cases (nonempty h.events.event_req_q)) [
      | inl e ↦ rw e (p.with_events h _)
      | inr e ↦ rw e (p.with_cmds h c.len c.fault)
    ]

    after_wait-From :
        (c : ReadCall) (s : Session) (h : Host) (w : Waited)
        → R h (left_by w)
        → Ends (From h) (after_wait mmu layout size host_no c s w)
    after_wait-From c s h (ready k) r =
        counted-From h (take_work mmu layout size host_no c k s) (p.both r (take_work-From c k s))
    after_wait-From c s h (gives e k) r = r
    after_wait-From c s h (counts e k) r = r
    after_wait-From c s h (asleep k) r = tt

    counted-Ends :
        (h : Host) (o : Option (Ret × Delivery × Session))
        → Ends (From h) o
        → Ends (From h) (counted mmu layout size host_no o)
    counted-Ends h none r = tt
    counted-Ends h (some o) r = counted-From h o r

    read_kind-Ends :
        (kind : ℕ) (c : ReadCall) (s : Session)
        → All (AreIn R) c.wakes
        → Ends (From s.host) (read_kind mmu layout size host_no kind c s)
    unfolding read_kind get_scsi_cmd_msg
    read_kind-Ends kind c s a = elim (Bool-cases (kind == 0)) [
      | inl e ↦ rw e (
          after_wait-From c s s.host (wait_for_work c.nonblock c.wakes s.host)
            (wait_for_work-In c.nonblock c.wakes s.host a))
      | inr e ↦ elim (Bool-cases (kind == 2)) [
        | inl f ↦ rw (e, f) (p.same s.host)
        | inr f ↦ rw (e, f) (p.same s.host)
      ]
    ]

    get_msg-Ends :
        (c : ReadCall) (s : Session)
        → All (AreIn R) c.wakes
        → Ends (From s.host) (get_msg mmu layout size host_no c s)
    unfolding get_msg
    get_msg-Ends c s a = elim (Option-cases c.kind) [
      | inl e ↦ rw e (p.same s.host)
      | inr (kind, e) ↦ rw e (
          counted-Ends s.host (read_kind mmu layout size host_no kind c s)
            (read_kind-Ends kind c s a))
    ]

    -- A read that returns changes its host as the relation says, if what others do meanwhile is in
    -- the relation.
    pub get_msg-In :
        (c : ReadCall) (s : Session) {o : Ret × Delivery × Session}
        → All (AreIn R) c.wakes
        → get_msg mmu layout size host_no c s ≡ some o
        → R s.host o.2.host
    get_msg-In c s a e = subst (Ends (From s.host)) e (get_msg-Ends c s a)

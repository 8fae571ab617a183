-- ===== src/Dispatch/Calls.antt =====
-- vsc_main.c: a read and a write of user space as steps of the machine of Control.
use vsc.Base.{
  ℕ, ◌≡◌, refl, sym, subst, List, Option, none, some, ◌==◌, All, Bool-cases, inl, inr, Option-cases,
}
use vsc.Codes.{Ret, ok, err, oops}
use vsc.Cmds.Account.History.{reads, answers}
use vsc.Control.Attach.{Calm}
use vsc.Control.Machine.{Steps, here, then_step, moves, happens, interrupts, Steps-trans}
use vsc.Xfer.{Mmu}
use vsc.Cmds.{Cmds}
use vsc.Events.Answer.{EventRsp}
use vsc.Xfer.Batch.{Layout, Xfer}
use vsc.Xfer.Serve.{Written, response_multi_data_and_rsp-Written, rsp_len}
use vsc.Dispatch.Related.{HasReads, AreIn, get_msg-In}
use vsc.Dispatch.{
  Session, Wake, Delivery, count_write, ReadCall, WriteCall, get_msg, write_event, write_kind,
  response_msg,
}

module _ (size : List ℕ → ℕ) (host_no : ℕ) where
  -- What others do while the reader sleeps is a sequence of steps, too.
  abbrev pub AreSteps : Wake → Type 0
  AreSteps = AreIn (Steps size host_no)

  Steps-HasReads : HasReads size host_no (Steps size host_no)
  Steps-HasReads = record {
    same = λ h. here;
    both = λ r q. Steps-trans size host_no r q;
    woken = λ h. then_step here (interrupts 0);
    with_events = λ h s. then_step here (happens s);
    with_cmds = λ h len fault. then_step here (moves (reads len fault));
  }

pub count_write-host : (o : Ret × Session) → (count_write o).1.host ≡ o.1.host
count_write-host (ok n, s) = refl
count_write-host (err e, s) = refl
count_write-host (oops, s) = refl

module _ (mmu : Mmu) (layout : Layout) (size : List ℕ → ℕ) (host_no : ℕ) where
  -- Whatever user space passes to a read that returns, its effect on the host is a sequence of steps
  -- of the machine of the host, provided that what others do while the reader sleeps is one.
  pub get_msg-Steps :
      (c : ReadCall) (s : Session) {o : Ret × Delivery × Session}
      → All (AreSteps size host_no) c.wakes
      → get_msg mmu layout size host_no c s ≡ some o
      → Steps size host_no s.host o.2.host
  get_msg-Steps c s a e =
      get_msg-In size host_no (Steps size host_no) (Steps-HasReads size host_no) mmu layout c s a e

  write_event-Steps :
      (c : WriteCall) (s : Session) (head : Option EventRsp)
      → Steps size host_no s.host (write_event mmu layout size host_no c s head).1.host
  unfolding write_event
  write_event-Steps c s none = here
  write_event-Steps c s (some m) = then_step here (happens _)

  written-Steps :
      (c : WriteCall) (s : Session) (out : Ret × Cmds × Xfer)
      → Written mmu layout s.host.cmds c.image c.len s.xfer out
      → Steps size host_no s.host (record (s.host) { cmds = out.1 })
  written-Steps c s out w =
      let P = λ (q : Cmds). Steps size host_no s.host (record (s.host) { cmds = q }) in
      elim w.data_first [
        | inl e ↦ subst P (sym e) here
        | inr (n, d, e) ↦
            subst P (sym e) (then_step here (moves (answers (rsp_len c.len) c.image.rsps)))
      ]

  write_kind-Steps :
      (kind : ℕ) (c : WriteCall) (s : Session)
      → Calm s.host
      → Steps size host_no s.host (write_kind mmu layout size host_no kind c s).1.host
  unfolding write_kind
  write_kind-Steps kind c s v = elim (Bool-cases (kind == 1)) [
    | inl e ↦ rw e (write_event-Steps c s c.head)
    | inr e ↦ elim (Bool-cases (kind == 2)) [
      | inl f ↦
          rw (e, f)
            (written-Steps c s _ (
              response_multi_data_and_rsp-Written mmu layout s.host.cmds c.image c.user_ptr c.len
                s.xfer v.queues c.pool))
      | inr f ↦ rw (e, f) here
    ]
  ]

  -- Whatever user space passes to a write, if the host is calm then its effect on the host is a
  -- sequence of steps of the machine of the host.
  pub response_msg-Steps :
      (c : WriteCall) (s : Session)
      → Calm s.host
      → Steps size host_no s.host (response_msg mmu layout size host_no c s).1.host
  unfolding response_msg
  response_msg-Steps c s v = elim (Option-cases c.kind) [
    | inl e ↦ rw e here
    | inr (kind, e) ↦ rw e (
        subst (Steps size host_no s.host)
          (sym (count_write-host (write_kind mmu layout size host_no kind c s)))
          (write_kind-Steps kind c s v))
  ]

-- ===== src/Ioctl/Attachment/Reach.antt =====
-- vsc_ioctl.c: sequences of calls on the control device, and who can hold a host after them.
use vsc.Base.{
  ℕ, ◌≡◌, inl, inr, refl, All, List, Bool, true, false, Option, none, some, ◌==◌, Bool-cases,
  Option-cases,
}
use vsc.Codes.{Ret, ok, err, ebadf}
use vsc.Control.Machine.{Step}
use vsc.Dispatch.Related.{AreIn, HasReads, get_msg-In}
use vsc.Control.{Host, interrupt_sleep_on_read}
use vsc.Xfer.{Mmu}
use vsc.Xfer.Batch.{Layout}
use vsc.Events.Answer.{EventRsp}
use vsc.Dispatch.{Session, Delivery, ReadCall, WriteCall, write_event, write_kind, response_msg}
use vsc.Dispatch.Calls.{count_write-host}
use vsc.Ioctl.{Command, Around, dev_ioctl}
use vsc.Ioctl.State.{World, Request, on_host, set_ctrl, set_host}
use vsc.Ioctl.Files.{dev_open, dev_release, dev_flush, dev_read, dev_write, on_file}
use vsc.Ioctl.Attachment.{Linked, at_file-Linked, owner_kept}
use vsc.Ioctl.Keeps.{if-keeps, read-keeps}
use vsc.Ioctl.Attachment.Commands.{removes, Fresh, dev_ioctl-Linked, release-Linked}

-- What others do while a reader sleeps does not change who has attached to the host.
abbrev pub SameFile : Host → Host → Type 0
SameFile h k = k.file ≡ h.file

-- A call on the control device, other than one that removes hosts, or a step of the machine of any
-- host that leaves its owner as it is. If an ioctl makes a host, then at an address that no file
-- holds. While a reader sleeps, the owner of its host stays as it is.
pub data Call (mmu : Mmu) (layout : Layout) (size : List ℕ → ℕ) (w : World) : World → Type 0 where
  opens : (f : ℕ) → Call mmu layout size w (dev_open f w).1
  commands :
      (a : Around) (r : Request) (f : ℕ) (c : Command)
      → removes c ≡ false
      → Fresh a.kernel w
      → Call mmu layout size w (dev_ioctl a r f c w).1
  reads :
      (n : ℕ) (c : ReadCall) (f : ℕ) {o : Ret × Delivery × World}
      → All (AreIn SameFile) c.wakes
      → dev_read mmu layout size n c f w ≡ some o
      → Call mmu layout size w o.2
  writes :
      (n : ℕ) (c : WriteCall) (f : ℕ) → Call mmu layout size w (dev_write mmu layout size n c f w).1
  flushes : (sleeps : Bool) (f : ℕ) → Call mmu layout size w (dev_flush sleeps f w).1
  releases : (f : ℕ) → Call mmu layout size w (dev_release f w).1
  machine :
      (n h : ℕ) {k : Host}
      → Step size n (w.ctrl h).session.host k
      → SameFile (w.ctrl h).session.host k
      → Call mmu layout size w (set_ctrl w h (set_host (w.ctrl h) k))

pub data Calls (mmu : Mmu) (layout : Layout) (size : List ℕ → ℕ) (w : World) : World → Type 0 where
  none_yet : Calls mmu layout size w w
  then_call :
      {v u : World}
      → Calls mmu layout size w v
      → Call mmu layout size v u
      → Calls mmu layout size w u

open-Linked : (f : ℕ) (w : World) → Linked w → Linked (dev_open f w).1
unfolding dev_open Linked
open-Linked f w linked g h = elim (Bool-cases (f == g)) [
  | inl e ↦ rw e (λ held. cc held)
  | inr e ↦ rw e (linked g h)
]

interrupt-owner : (sleeps : Bool) (h : Host) → (interrupt_sleep_on_read sleeps h).file ≡ h.file
unfolding interrupt_sleep_on_read
interrupt-owner true h = refl
interrupt-owner false h = refl

flush-Linked : (sleeps : Bool) (f : ℕ) (w : World) → Linked w → Linked (dev_flush sleeps f w).1
unfolding dev_flush on_file
flush-Linked sleeps f w linked = if-keeps Linked (w.file f).nonblock _ _ linked (
    at_file-Linked (ok 0) (on_host (interrupt_sleep_on_read sleeps)) (w.file f).private_data w
      (λ c. interrupt-owner sleeps c.session.host) linked)

module _ (mmu : Mmu) (layout : Layout) (size : List ℕ → ℕ) where
  event-owner :
      (n : ℕ) (c : WriteCall) (s : Session) (head : Option EventRsp)
      → (write_event mmu layout size n c s head).1.host.file ≡ s.host.file
  unfolding write_event
  event-owner n c s none = refl
  event-owner n c s (some m) = refl

  kind-owner :
      (n kind : ℕ) (c : WriteCall) (s : Session)
      → (write_kind mmu layout size n kind c s).1.host.file ≡ s.host.file
  unfolding write_kind
  kind-owner n kind c s = elim (Bool-cases (kind == 1)) [
    | inl e ↦ rw e (event-owner n c s c.head)
    | inr e ↦ elim (Bool-cases (kind == 2)) [ inl f ↦ rw (e, f) refl | inr f ↦ rw (e, f) refl ]
  ]

  write-owner :
      (n : ℕ) (c : WriteCall) (s : Session)
      → (response_msg mmu layout size n c s).1.host.file ≡ s.host.file
  unfolding response_msg
  write-owner n c s = elim (Option-cases c.kind) [
    | inl e ↦ rw e refl
    | inr (kind, e) ↦
        let same = count_write-host (write_kind mmu layout size n kind c s) in
        rw e (cc (same, kind-owner n kind c s))
  ]

  write-Linked :
      (n : ℕ) (c : WriteCall) (f : ℕ) (w : World)
      → Linked w
      → Linked (dev_write mmu layout size n c f w).1
  unfolding dev_write on_file
  write-Linked n c f w linked =
      at_file-Linked (err ebadf)
        (λ b.
          let (r, s) = response_msg mmu layout size n c b.session in (r, record b { session = s }))
        (w.file f).private_data w (λ b. write-owner n c b.session) linked

  SameFile-HasReads : (n : ℕ) → HasReads size n SameFile
  SameFile-HasReads n = record {
    same = λ h. refl;
    both = λ r q. cc (r, q);
    woken = λ h. refl;
    with_events = λ h s. refl;
    with_cmds = λ h len fault. refl;
  }

  Call-Linked : {w v : World} → Call mmu layout size w v → Linked w → Linked v
  Call-Linked {w} (opens f) linked = open-Linked f w linked
  Call-Linked {w} (commands a r f c stays fresh) linked =
      dev_ioctl-Linked a r f c w stays fresh linked
  Call-Linked {w} (writes n c f) linked = write-Linked n c f w linked
  Call-Linked {w} (reads n c f wakes e) linked =
      read-keeps Linked mmu layout size n c f w
        (λ h a q.
          owner_kept w h (record (w.ctrl h) { session = a.2 })
            (get_msg-In size n SameFile (SameFile-HasReads n) mmu layout c (w.ctrl h).session wakes
              q)
            linked)
        linked e
  Call-Linked {w} (flushes sleeps f) linked = flush-Linked sleeps f w linked
  Call-Linked {w} (releases f) linked = release-Linked f w linked
  Call-Linked {w} (machine n h {k} s same) linked =
      owner_kept w h (set_host (w.ctrl h) k) same linked

  Calls-Linked : {w v : World} → Calls mmu layout size w v → Linked w → Linked v
  Calls-Linked none_yet linked = linked
  Calls-Linked (then_call cs c) linked = Call-Linked c (Calls-Linked cs linked)

  -- From a state in which no file holds a host, after any sequence of calls on the control device
  -- and of steps of the hosts, each taken as a whole: a file that holds a host is the one that the
  -- host names as its owner, and no other file holds that host. The conditions are that no call
  -- removes a host, that a host is made at an address that no file holds, that the steps of a host do
  -- not change its owner, and that nothing attaches to a host or detaches from it while a reader
  -- sleeps on it. An error handler that sleeps while others go on is not among the steps.
  pub held_by_one :
      {w v : World}
      → ((f : ℕ) → (w.file f).private_data ≡ none)
      → Calls mmu layout size w v
      → (f g h : ℕ) → (v.file f).private_data ≡ some h
      → (v.file g).private_data ≡ some h
      → ((v.ctrl h).session.host.file ≡ some f) × (g ≡ f)
  unfolding Linked
  held_by_one {w} {v} start calls f g h held other =
      let linked = Calls-Linked calls (λ g i e. cc (start g, e)) in
      let mine = linked f h held in (mine, cc (linked g h other, mine))

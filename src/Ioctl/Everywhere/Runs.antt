-- ===== src/Ioctl/Everywhere/Runs.antt =====
-- vsc_main.c, vsc_ioctl.c: sequences of calls on the driver, each as a whole, and the order of every
-- host after them.
use vsc.Base.{ℕ, ◌≡◌, List, Bool, some, All}
use vsc.Codes.{Ret}
use vsc.Control.{Host}
use vsc.Control.Attach.{Calm}
use vsc.Control.Machine.{Step}
use vsc.Xfer.{Mmu}
use vsc.Xfer.Batch.{Layout}
use vsc.Dispatch.{Delivery, ReadCall, WriteCall}
use vsc.Dispatch.Calls.{AreSteps}
use vsc.Ioctl.{Command, Around, dev_ioctl}
use vsc.Ioctl.State.{World, Request, set_ctrl, set_host}
use vsc.Ioctl.Sweep.{remove_all_host}
use vsc.Ioctl.Files.{dev_open, dev_release, dev_flush, dev_read, dev_write}
use vsc.Ioctl.Everywhere.{Everywhere}
use vsc.Ioctl.Everywhere.Calm.{HostCalm}

-- What can happen to the driver: a call on the control device of the file `f`, where what others do
-- while a reader sleeps are steps of the machine of its host; a step of the machine of any host, such
-- as a command of the mid-layer or a timer that runs out; the removal of all hosts. Each is taken as
-- a whole. An error handler that sleeps while others go on is not among these, nor is an attach in
-- the midst of a detach.
pub data Happening (mmu : Mmu) (layout : Layout) (size : List ℕ → ℕ) (w : World)
    : World → Type 0 where
  opens : (f : ℕ) → Happening mmu layout size w (dev_open f w).1
  commands :
      (a : Around) (r : Request) (f : ℕ) (c : Command)
      → Happening mmu layout size w (dev_ioctl a r f c w).1
  reads :
      (n : ℕ) (c : ReadCall) (f : ℕ) {o : Ret × Delivery × World}
      → All (AreSteps size n) c.wakes
      → dev_read mmu layout size n c f w ≡ some o
      → Happening mmu layout size w o.2
  writes :
      (n : ℕ) (c : WriteCall) (f : ℕ)
      → Happening mmu layout size w (dev_write mmu layout size n c f w).1
  flushes : (sleeps : Bool) (f : ℕ) → Happening mmu layout size w (dev_flush sleeps f w).1
  releases : (f : ℕ) → Happening mmu layout size w (dev_release f w).1
  machine :
      (n h : ℕ) {k : Host}
      → Step size n (w.ctrl h).session.host k
      → Happening mmu layout size w (set_ctrl w h (set_host (w.ctrl h) k))
  sweeps : Happening mmu layout size w (record w {
    ctrl = (remove_all_host w.mgr_list w.ctrl).0;
    mgr_list = (remove_all_host w.mgr_list w.ctrl).1;
  })

pub data Run (mmu : Mmu) (layout : Layout) (size : List ℕ → ℕ) (w : World) : World → Type 0 where
  start : Run mmu layout size w w
  then_event :
      {v u : World}
      → Run mmu layout size w v
      → Happening mmu layout size v u
      → Run mmu layout size w u

module _ (mmu : Mmu) (layout : Layout) (size : List ℕ → ℕ) where
  abbrev AllCalm : World → Type 0
  AllCalm = Everywhere HostCalm

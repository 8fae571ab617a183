-- ===== src/Ioctl/Files.antt =====
-- vsc_ioctl.c: the operations on an open file, and the commands on the host that a file holds.
use vsc.Base.{ℕ, List, Bool, true, false, not, Option, none, some, if◌then◌else◌}
use vsc.Codes.{Ret, ok, err, oops, eperm, efault, enodev, ealready, ebadf}
use vsc.Hosts.{get_ctlr_by_host}
use vsc.Control.{
  Host, attach, detach, suspend_host, resume_host, poll_wait, interrupt_sleep_on_read,
}
use vsc.Xfer.{Mmu}
use vsc.Xfer.Batch.{Layout}
use vsc.Dispatch.{Delivery, nothing, ReadCall, WriteCall, get_msg, response_msg}
use vsc.Ioctl.State.{World, Request, set_ctrl, set_file, set_host, on_ctrl, on_host}

-- A file that holds no host takes the one that `vsc_scsi_attach` gives it.
abbrev pub take_host : ℕ → ℕ → Ret × Host → World → Ret × World
take_host f h (ok n, k) w = (ok n, set_file (set_ctrl w h (set_host (w.ctrl h) k)) f (some h))
take_host f h (err e, k) w = (err e, set_ctrl w h (set_host (w.ctrl h) k))
take_host f h (oops, k) w = (oops, set_ctrl w h (set_host (w.ctrl h) k))

abbrev pub attach_at : ℕ → Option ℕ → World → Ret × World
attach_at f none w = (err enodev, w)
attach_at f (some h) w = take_host f h (attach (some f) (w.ctrl h).session.host) w

abbrev pub is_none : Option ℕ → Bool
is_none none = true
is_none (some h) = false

-- `vsc_dev_attach_host`.
unfoldable pub dev_attach_host : Request → ℕ → ℕ → World → Ret × World
unfolding attach
dev_attach_host r f host_no w =
    if not (is_none (w.file f).private_data)
    then (err ealready, w)
    else if not r.readable
    then (err efault, w)
    else if not r.capable
    then (err eperm, w)
    else attach_at f (get_ctlr_by_host w.mgr_list host_no) w

-- An operation on the host that a file holds; `missing` is what is returned if it holds none.
abbrev pub at_file : Ret → (ℕ → World → Ret × World) → Option ℕ → World → Ret × World
at_file missing op none w = (missing, w)
at_file missing op (some h) w = op h w

unfoldable pub on_file : Ret → (ℕ → World → Ret × World) → ℕ → World → Ret × World
on_file missing op f w = at_file missing op (w.file f).private_data w

-- `vsc_scsi_detach` of the host, for a file that lets it go.
unfoldable pub let_host_go : Bool → ℕ → ℕ → World → Ret × World
unfolding detach
let_host_go is_timeout f h w =
    let (r, k) = detach is_timeout (w.ctrl h).session.host in
    (r, set_ctrl (set_file w f none) h (set_host (w.ctrl h) k))

-- `vsc_dev_detach_host`.
unfoldable pub dev_detach_host : ℕ → World → Ret × World
unfolding on_file let_host_go
dev_detach_host f = on_file (err ebadf) (let_host_go false f) f

-- `vsc_dev_release`.
unfoldable pub dev_release : ℕ → World → Ret × World
unfolding on_file let_host_go
dev_release f = on_file (ok 0) (let_host_go true f) f

-- `vsc_dev_suspend_host` and `vsc_dev_resume_host`.
unfoldable pub dev_suspend_host : ℕ → World → Ret × World
unfolding on_file on_ctrl suspend_host
dev_suspend_host f = on_file (err ebadf) (on_ctrl (on_host suspend_host)) f

unfoldable pub dev_resume_host : ℕ → World → Ret × World
unfolding on_file on_ctrl resume_host
dev_resume_host f = on_file (err ebadf) (on_ctrl (on_host resume_host)) f

-- `vsc_dev_open`.
unfoldable pub dev_open : ℕ → World → Ret × World
dev_open f w = (ok 0, set_file w f none)

-- `vsc_dev_poll`: whether the mask is set.
unfoldable pub dev_poll : ℕ → World → Bool
dev_poll f w = elim (w.file f).private_data [
  | none ↦ false
  | some h ↦ poll_wait (w.ctrl h).session.host
]

-- `vsc_dev_f_flush`; `sleeps` says that a reader waits.
unfoldable pub dev_flush : Bool → ℕ → World → Ret × World
unfolding on_file on_ctrl interrupt_sleep_on_read
dev_flush sleeps f w =
    if (w.file f).nonblock
    then (ok 0, w)
    else on_file (ok 0) (on_ctrl (on_host (interrupt_sleep_on_read sleeps))) f w

-- `read` and `write` of a file.
module _ (mmu : Mmu) (layout : Layout) (size : List ℕ → ℕ) (host_no : ℕ) where
  -- `vsc_dev_read`; `none` if the reader is still asleep.
  unfoldable pub dev_read : ReadCall → ℕ → World → Option (Ret × Delivery × World)
  unfolding get_msg
  dev_read c f w = elim (w.file f).private_data [
    | none ↦ some (err ebadf, nothing, w)
    | some h ↦ elim (get_msg mmu layout size host_no c (w.ctrl h).session) [
      | none ↦ none
      | some (r, d, s) ↦ some (r, d, set_ctrl w h (record (w.ctrl h) { session = s }))
    ]
  ]

  -- `vsc_dev_write`.
  unfoldable pub dev_write : WriteCall → ℕ → World → Ret × World
  unfolding on_file on_ctrl response_msg
  dev_write c f =
      on_file (err ebadf)
        (on_ctrl (λ b.
          let (r, s) = response_msg mmu layout size host_no c b.session in
          (r, record b { session = s })))
        f

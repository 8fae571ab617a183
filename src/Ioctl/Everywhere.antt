-- ===== src/Ioctl/Everywhere.antt =====
-- vsc_ioctl.c: a property of every host, kept by the commands of the control device.
pub mod Commands
pub mod Calm
pub mod Runs
mod Tests
use vsc.Base.{
  ℕ, ◌≡◌, inl, inr, refl, List, Bool, true, false, not, Option, none, some, ◌==◌, ltb,
  if◌then◌else◌, Bool-cases, update, subst,
}
use vsc.Codes.{Ret, ok, err, oops, Errno, is_err, einval, ebadf}
use vsc.Hosts.{get_ctlr_by_host, add_host_to_mgr}
use vsc.Control.{Host, attach, detach, suspend_host, resume_host}
use vsc.Control.Limits.{HostInfo, check_host_info}
use vsc.Devices.{
  Sdev, add_device, add_device_by_vol_name, rmv_device, set_delete_by_vol_name,
  set_device_rq_timeout,
}
use vsc.Xfer.{Mem}
use vsc.Ioctl.{
  Command, add_host, rmv_host, attach_host, detach_host, suspends, resumes, add_disk, rmv_disk,
  add_disk_vol_name, prepare_rmv_vol, query_disk_vol, set_disk_stat, get_disk_stat, disk_rq_timeout,
  set_target_abnormal_timeout, other, Around, dev_ioctl,
}
use vsc.Ioctl.State.{
  Ctrl, World, Request, set_ctrl, set_file, set_host, with_host, on_ctrl, on_host, on_disks,
  is_attached,
}
use vsc.Ioctl.Memory.{ctrl_init_memory}
use vsc.Ioctl.Register.{
  Kernel, Registered, register_host, ctrl_init_as, registry_after, register_new, finish_register,
  after_host_add, register_known, register_at, remove_host,
}
use vsc.Ioctl.Hosts.{
  dev_add_host, dev_rmv_host, report_host, set_tg_abn_timeout, dev_set_tg_abn_timeout,
  max_target_abnormal_timeout,
}
use vsc.Ioctl.Disks.{
  dev_add_disk, dev_rmv_disk, dev_add_disk_by_vol_name, dev_rmv_disk_by_vol_name, dev_set_disk_stat,
  dev_set_disk_rq_timeout, set_stat_of,
}
use vsc.Ioctl.Files.{
  dev_attach_host, dev_detach_host, dev_suspend_host, dev_resume_host, let_host_go, on_file,
  take_host, attach_at, at_file, is_none,
}
use vsc.Ioctl.Keeps.{
  if-keeps, if_world-keeps, admit-keeps, at_host-keeps, at_file-keeps, handler-keeps,
}

unfoldable pub Everywhere : (Ctrl → Type 0) → World → Type 0
Everywhere P w = (h : ℕ) → P (w.ctrl h)

-- A property of a host that its operations keep and that a new host has.
pub record Stable (P : Ctrl → Type 0) : Type 0 where
  pub attached : (f : ℕ) (c : Ctrl) → P c → P (set_host c (attach (some f) c.session.host).1)
  pub detached : (t : Bool) (c : Ctrl) → P c → P (set_host c (detach t c.session.host).1)
  pub suspended : (c : Ctrl) → P c → P (set_host c (suspend_host c.session.host))
  pub resumed : (c : Ctrl) → P c → P (set_host c (resume_host c.session.host))
  pub timed : (n : ℕ) (c : Ctrl) → P c → P (set_tg_abn_timeout n c).1
  pub disks : (ds : List Sdev) (c : Ctrl) → P c → P (record c { sdevs = ds })
  pub made : (mem : Mem) (k : Kernel) (info : HostInfo) → P (ctrl_init_as mem k info)
  pub removed : (c : Ctrl) → P c → P (remove_host c).1

module _ (P : Ctrl → Type 0) where
  pub set-Everywhere :
      (w : World) (h : ℕ) (c : Ctrl) → P c → Everywhere P w → Everywhere P (set_ctrl w h c)
  unfolding Everywhere
  set-Everywhere w h c p all g = elim (Bool-cases (h == g)) [
    | inl same ↦ rw same p
    | inr apart ↦ rw apart (all g)
  ]

  pub at-Everywhere : (w : World) (h : ℕ) → Everywhere P w → P (w.ctrl h)
  unfolding Everywhere
  at-Everywhere w h all = all h

  -- A change of the files or of the registry.
  pub same-Everywhere : (w v : World) → w.ctrl ≡ v.ctrl → Everywhere P w → Everywhere P v
  unfolding Everywhere
  same-Everywhere w v e all h = subst (λ (c : ℕ → Ctrl). P (c h)) e (all h)

  pub on_ctrl-Everywhere :
      (op : Ctrl → Ret × Ctrl) (h : ℕ) (w : World)
      → ((c : Ctrl) → P c → P (op c).1)
      → Everywhere P w
      → Everywhere P (on_ctrl op h w).1
  unfolding on_ctrl
  on_ctrl-Everywhere op h w keeps all =
      set-Everywhere w h (op (w.ctrl h)).1 (keeps (w.ctrl h) (at-Everywhere w h all)) all

  module _ (s : Stable P) where
    take_host-Everywhere :
        (f h : ℕ) (out : Ret × Host) (w : World)
        → P (set_host (w.ctrl h) out.1)
        → Everywhere P w
        → Everywhere P (take_host f h out w).1
    take_host-Everywhere f h (ok n, k) w p all =
        same-Everywhere (set_ctrl w h (set_host (w.ctrl h) k)) _ refl (set-Everywhere w h _ p all)
    take_host-Everywhere f h (err e, k) w p all = set-Everywhere w h _ p all
    take_host-Everywhere f h (oops, k) w p all = set-Everywhere w h _ p all

    attach_at-Everywhere :
        (f : ℕ) (o : Option ℕ) (w : World) → Everywhere P w → Everywhere P (attach_at f o w).1
    attach_at-Everywhere f none w all = all
    attach_at-Everywhere f (some h) w all =
        take_host-Everywhere f h (attach (some f) (w.ctrl h).session.host) w
          (s.attached f (w.ctrl h) (at-Everywhere w h all)) all

    pub attach_host-Everywhere :
        (r : Request) (f n : ℕ) (w : World)
        → Everywhere P w
        → Everywhere P (dev_attach_host r f n w).1
    unfolding dev_attach_host
    attach_host-Everywhere r f n w all =
        if-keeps (Everywhere P) (not (is_none (w.file f).private_data)) _ _ all (
          if-keeps (Everywhere P) (not r.readable) _ _ all (
            if-keeps (Everywhere P) (not r.capable) _ _ all
              (attach_at-Everywhere f (get_ctlr_by_host w.mgr_list n) w all)))

    pub go-Everywhere :
        (missing : Ret) (t : Bool) (f : ℕ) (w : World)
        → Everywhere P w
        → Everywhere P (on_file missing (let_host_go t f) f w).1
    unfolding on_file let_host_go
    go-Everywhere missing t f w all =
        at_file-keeps (Everywhere P) missing (let_host_go t f) (w.file f).private_data w
          (λ h.
            same-Everywhere
              (set_ctrl w h (set_host (w.ctrl h) (detach t (w.ctrl h).session.host).1)) _ refl
              (set-Everywhere w h _ (s.detached t (w.ctrl h) (at-Everywhere w h all)) all))
          all

    register_new-Everywhere :
        (mem : Mem) (k : Kernel) (info : HostInfo) (o : Option ℕ) (w : World)
        → Everywhere P w
        → Everywhere P (register_new mem k info o w).world
    unfolding register_new finish_register
    register_new-Everywhere mem k info none w all = all
    register_new-Everywhere mem k info (some h) w all =
        if_world-keeps (Everywhere P) (not (ctrl_init_memory k.grants info.max_nr_cmds).built) _ _
          all (added k.added)
      where
        finished : Everywhere P (finish_register mem k info h w).world
        finished = if_world-keeps (Everywhere P) (not k.proc_file) _ _ all (
            same-Everywhere (set_ctrl w h (ctrl_init_as mem k info)) _ refl
              (set-Everywhere w h _ (s.made mem k info) all))

        added : (o : Option Errno) → Everywhere P (after_host_add o mem k info h w).world
        added none = finished
        added (some e) = all

    pub register_host-Everywhere :
        (mem : Mem) (k : Kernel) (info : HostInfo) (w : World)
        → Everywhere P w
        → Everywhere P (register_host mem k info w).world
    unfolding register_host
    register_host-Everywhere mem k info w all =
        if_world-keeps (Everywhere P) (is_err (check_host_info info)) _ _ all
          (at_lem (get_ctlr_by_host w.mgr_list info.host))
      where
        at_lem : (o : Option ℕ) → Everywhere P (register_at mem k info o w).world
        at_lem none = register_new-Everywhere mem k info k.address w all
        at_lem (some h) = if_world-keeps (Everywhere P) k.revived _ _ all all

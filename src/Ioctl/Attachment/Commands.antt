-- ===== src/Ioctl/Attachment/Commands.antt =====
-- vsc_ioctl.c: each command keeps the files and their hosts together, but for the removal of a host.
use vsc.Base.{
  ℕ, ◌≡◌, ◌≢◌, inl, inr, refl, List, Bool, true, false, not, Option, none, some, ◌==◌, ==_iff, ltb,
  if◌then◌else◌, Bool-cases,
}
use vsc.Codes.{Ret, ok, err, Errno, einval, ebadf, is_err}
use vsc.Hosts.{HostMgr, get_ctlr_by_host, add_host_to_mgr}
use vsc.Control.{Host, suspend_host, resume_host}
use vsc.Control.Limits.{HostInfo, check_host_info}
use vsc.Xfer.{Mem}
use vsc.Ioctl.{
  Command, add_host, rmv_host, attach_host, detach_host, suspends, resumes, add_disk, rmv_disk,
  add_disk_vol_name, prepare_rmv_vol, query_disk_vol, set_disk_stat, get_disk_stat, disk_rq_timeout,
  set_target_abnormal_timeout, other, Around, dev_ioctl,
}
use vsc.Ioctl.State.{
  Ctrl, World, Request, set_ctrl, set_host, with_host, on_ctrl, on_host, on_disks, is_attached,
}
use vsc.Ioctl.Memory.{ctrl_init_memory}
use vsc.Ioctl.Register.{
  Kernel, registry_after, register_host, ctrl_init_as, register_new, finish_register,
  after_host_add, register_at,
}
use vsc.Ioctl.Hosts.{
  dev_add_host, report_host, set_tg_abn_timeout, dev_set_tg_abn_timeout,
  max_target_abnormal_timeout,
}
use vsc.Ioctl.Disks.{
  dev_add_disk, dev_rmv_disk, dev_add_disk_by_vol_name, dev_rmv_disk_by_vol_name, dev_set_disk_stat,
  dev_set_disk_rq_timeout, set_stat_of,
}
use vsc.Devices.{
  add_device, add_device_by_vol_name, rmv_device, set_delete_by_vol_name, set_device_rq_timeout,
}
use vsc.Ioctl.Files.{
  dev_attach_host, dev_detach_host, dev_release, dev_suspend_host, dev_resume_host, let_host_go,
  on_file, take_host, attach_at, is_none, at_file,
}
use vsc.Ioctl.Keeps.{if-keeps, if_world-keeps, admit-keeps, at_host-keeps}
use vsc.Ioctl.Attachment.{
  at_file-Linked, Linked, OwnerAfter, attach_owner, taken-Linked, owner_kept, let_go-Linked,
  on_ctrl-Linked, handler-Linked,
}

take_host-Linked :
    (f h : ℕ) (w : World) (out : Ret × Host)
    → OwnerAfter f (w.ctrl h).session.host out
    → Linked w
    → Linked (take_host f h out w).1
take_host-Linked f h w out (inl (free, k, e, own)) linked =
    rw e (taken-Linked w f h k free own linked)
take_host-Linked f h w out (inr (e, k, q, own)) linked =
    rw q (owner_kept w h (set_host (w.ctrl h) k) own linked)

attach_at-Linked : (f : ℕ) (o : Option ℕ) (w : World) → Linked w → Linked (attach_at f o w).1
attach_at-Linked f none w linked = linked
attach_at-Linked f (some h) w linked =
    take_host-Linked f h w _ (attach_owner f (w.ctrl h).session.host) linked

attach_host-Linked :
    (r : Request) (f n : ℕ) (w : World) → Linked w → Linked (dev_attach_host r f n w).1
unfolding dev_attach_host
attach_host-Linked r f n w linked =
    if-keeps Linked (not (is_none (w.file f).private_data)) _ _ linked (
      if-keeps Linked (not r.readable) _ _ linked (
        if-keeps Linked (not r.capable) _ _ linked
          (attach_at-Linked f (get_ctlr_by_host w.mgr_list n) w linked)))

go-Linked :
    (missing : Ret) (t : Bool) (f : ℕ) (o : Option ℕ) (w : World)
    → (w.file f).private_data ≡ o
    → Linked w
    → Linked (at_file missing (let_host_go t f) o w).1
unfolding let_host_go
go-Linked missing t f none w e linked = linked
go-Linked missing t f (some h) w e linked = let_go-Linked w f h _ e linked

pub release-Linked : (f : ℕ) (w : World) → Linked w → Linked (dev_release f w).1
unfolding dev_release on_file
release-Linked f w linked = go-Linked (ok 0) true f (w.file f).private_data w refl linked

-- The control block of a new host, at an address that no file holds.
new-Linked :
    (w : World) (h : ℕ) (c : Ctrl) (ms : List HostMgr)
    → ((f : ℕ) → (w.file f).private_data ≢ some h)
    → Linked w
    → Linked (record (set_ctrl w h c) { mgr_list = ms })
unfolding Linked
new-Linked w h c ms fresh linked f g held = elim (Bool-cases (h == g)) [
  | inl same ↦ absurd (fresh f (cc (held, (==_iff h g).0 same)))
  | inr apart ↦ rw apart (linked f g held)
]

-- The address that the kernel gives for a new host is held by no file.
abbrev pub Fresh : Kernel → World → Type 0
Fresh k w = (h f : ℕ) → k.address ≡ some h → (w.file f).private_data ≢ some h

after_add-Linked :
    (added : Option Errno) (mem : Mem) (k : Kernel) (info : HostInfo) (h : ℕ) (w : World)
    → ((f : ℕ) → (w.file f).private_data ≢ some h)
    → Linked w
    → Linked (after_host_add added mem k info h w).world
unfolding finish_register ctrl_init_as
after_add-Linked (some e) mem k info h w fresh linked = linked
after_add-Linked none mem k info h w fresh linked =
    if_world-keeps Linked (not k.proc_file) _ _ linked (
      new-Linked w h (ctrl_init_as mem k info)
        (registry_after w.mgr_list (add_host_to_mgr k.mgr_memory w.mgr_list h info.host)) fresh
        linked)

register_new-Linked :
    (mem : Mem) (k : Kernel) (info : HostInfo) (o : Option ℕ) (w : World)
    → ((h f : ℕ) → o ≡ some h → (w.file f).private_data ≢ some h)
    → Linked w
    → Linked (register_new mem k info o w).world
unfolding register_new
register_new-Linked mem k info none w fresh linked = linked
register_new-Linked mem k info (some h) w fresh linked =
    if_world-keeps Linked (not (ctrl_init_memory k.grants info.max_nr_cmds).built) _ _ linked
      (after_add-Linked k.added mem k info h w (λ f. fresh h f refl) linked)

register_at-Linked :
    (mem : Mem) (k : Kernel) (info : HostInfo) (o : Option ℕ) (w : World)
    → Fresh k w
    → Linked w
    → Linked (register_at mem k info o w).world
register_at-Linked mem k info none w fresh linked =
    register_new-Linked mem k info k.address w fresh linked
register_at-Linked mem k info (some h) w fresh linked =
    if_world-keeps Linked k.revived _ _ linked linked

pub register_host-Linked :
    (mem : Mem) (k : Kernel) (info : HostInfo) (w : World)
    → Fresh k w
    → Linked w
    → Linked (register_host mem k info w).world
unfolding register_host
register_host-Linked mem k info w fresh linked =
    if_world-keeps Linked (is_err (check_host_info info)) _ _ linked
      (register_at-Linked mem k info (get_ctlr_by_host w.mgr_list info.host) w fresh linked)

-- Whether a command removes a host.
abbrev pub removes : Command → Bool
removes (rmv_host n) = true
removes _ = false

-- A command that does not remove a host keeps every file and its host linked, if a new host does not
-- stand at an address that a file holds.
pub dev_ioctl-Linked :
    (a : Around) (r : Request) (f : ℕ) (c : Command) (w : World)
    → removes c ≡ false
    → Fresh a.kernel w
    → Linked w
    → Linked (dev_ioctl a r f c w).1
unfolding dev_ioctl dev_add_host dev_detach_host dev_suspend_host dev_resume_host on_file
    dev_add_disk dev_rmv_disk dev_add_disk_by_vol_name dev_rmv_disk_by_vol_name dev_set_disk_stat
    dev_set_disk_rq_timeout dev_set_tg_abn_timeout set_tg_abn_timeout suspend_host resume_host
dev_ioctl-Linked a r f (add_host info) w stays fresh l =
    admit-keeps Linked r (λ v. report_host r (register_host a.mem a.kernel info v)) w l
      (register_host-Linked a.mem a.kernel info w fresh l)
dev_ioctl-Linked a r f (rmv_host n) w stays fresh l = absurd (cc stays)
dev_ioctl-Linked a r f (attach_host n) w stays fresh l = attach_host-Linked r f n w l
dev_ioctl-Linked a r f detach_host w stays fresh l =
    go-Linked (err ebadf) false f (w.file f).private_data w refl l
dev_ioctl-Linked a r f suspends w stays fresh l =
    at_file-Linked (err ebadf) (on_host suspend_host) (w.file f).private_data w (λ c. refl) l
dev_ioctl-Linked a r f resumes w stays fresh l =
    at_file-Linked (err ebadf) (on_host resume_host) (w.file f).private_data w (λ c. refl) l
dev_ioctl-Linked a r f (add_disk n c i u) w stays fresh l =
    handler-Linked r n (λ b. on_disks (add_device a.mid_layer (is_attached b) c i u) b) w
      (λ b. refl) l
dev_ioctl-Linked a r f (rmv_disk n c i u) w stays fresh l =
    handler-Linked r n (λ b. on_disks (rmv_device a.mid_layer b.session.host.blocked c i u) b) w
      (λ b. refl) l
dev_ioctl-Linked a r f (add_disk_vol_name n c i u v) w stays fresh l =
    handler-Linked r n
      (λ b. on_disks (add_device_by_vol_name a.mid_layer (is_attached b) b.sys_host_no v c i u) b) w
      (λ b. refl) l
dev_ioctl-Linked a r f (prepare_rmv_vol n v) w stays fresh l =
    handler-Linked r n (λ b. on_disks (set_delete_by_vol_name a.mid_layer v) b) w (λ b. refl) l
dev_ioctl-Linked a r f (query_disk_vol n) w stays fresh l = l
dev_ioctl-Linked a r f (set_disk_stat n c i u s) w stays fresh l =
    handler-Linked r n (λ b. on_disks (set_stat_of a.mid_layer s c i u) b) w (λ b. refl) l
dev_ioctl-Linked a r f (get_disk_stat n c i u) w stays fresh l = l
dev_ioctl-Linked a r f (disk_rq_timeout n c i u t) w stays fresh l =
    handler-Linked r n (λ b. on_disks (set_device_rq_timeout a.mid_layer a.hz c i u t) b) w
      (λ b. refl) l
dev_ioctl-Linked a r f (set_target_abnormal_timeout n t) w stays fresh l =
    admit-keeps Linked r
      (λ v.
        if ltb max_target_abnormal_timeout t
        then (err einval, v)
        else with_host n (on_ctrl (set_tg_abn_timeout t)) v)
      w l
      (if-keeps Linked (ltb max_target_abnormal_timeout t) _ _ l (
        at_host-keeps Linked (on_ctrl (set_tg_abn_timeout t)) (get_ctlr_by_host w.mgr_list n) w
          (λ h. on_ctrl-Linked (set_tg_abn_timeout t) h w (λ b. refl) l) l))
dev_ioctl-Linked a r f (other n) w stays fresh l = l

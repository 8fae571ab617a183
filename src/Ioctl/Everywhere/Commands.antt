-- ===== src/Ioctl/Everywhere/Commands.antt =====
-- vsc_ioctl.c: the commands of the control device keep a property of every host.
use vsc.Base.{ℕ, false, ltb, if◌then◌else◌}
use vsc.Codes.{Ret, err, einval, ebadf}
use vsc.Hosts.{get_ctlr_by_host}
use vsc.Control.{suspend_host, resume_host}
use vsc.Devices.{
  add_device, add_device_by_vol_name, rmv_device, set_delete_by_vol_name, set_device_rq_timeout,
}
use vsc.Ioctl.{
  Command, add_host, rmv_host, attach_host, detach_host, suspends, resumes, add_disk, rmv_disk,
  add_disk_vol_name, prepare_rmv_vol, query_disk_vol, set_disk_stat, get_disk_stat, disk_rq_timeout,
  set_target_abnormal_timeout, other, Around, dev_ioctl,
}
use vsc.Ioctl.State.{
  Ctrl, World, Request, admit, with_host, on_ctrl, on_host, on_disks, is_attached,
}
use vsc.Ioctl.Register.{register_host, remove_host}
use vsc.Ioctl.Hosts.{
  dev_add_host, dev_rmv_host, report_host, set_tg_abn_timeout, dev_set_tg_abn_timeout,
  max_target_abnormal_timeout,
}
use vsc.Ioctl.Disks.{
  dev_add_disk, dev_rmv_disk, dev_add_disk_by_vol_name, dev_rmv_disk_by_vol_name, dev_set_disk_stat,
  dev_set_disk_rq_timeout, set_stat_of,
}
use vsc.Ioctl.Files.{dev_detach_host, dev_suspend_host, dev_resume_host, on_file}
use vsc.Ioctl.Keeps.{if-keeps, admit-keeps, at_host-keeps, at_file-keeps, handler-keeps}
use vsc.Ioctl.Everywhere.{
  Everywhere, Stable, on_ctrl-Everywhere, attach_host-Everywhere, go-Everywhere,
  register_host-Everywhere,
}

module _ (P : Ctrl → Type 0) (s : Stable P) where
  command-Everywhere :
      (r : Request) (n : ℕ) (op : Ctrl → Ret × Ctrl) (w : World)
      → ((c : Ctrl) → P c → P (op c).1)
      → Everywhere P w
      → Everywhere P (admit r (with_host n (on_ctrl op)) w).1
  command-Everywhere r n op w keeps all =
      handler-keeps (Everywhere P) r n (on_ctrl op) w (λ h. on_ctrl-Everywhere P op h w keeps all)
        all

  held-Everywhere :
      (op : Ctrl → Ret × Ctrl) (f : ℕ) (w : World)
      → ((c : Ctrl) → P c → P (op c).1)
      → Everywhere P w
      → Everywhere P (on_file (err ebadf) (on_ctrl op) f w).1
  unfolding on_file
  held-Everywhere op f w keeps all =
      at_file-keeps (Everywhere P) (err ebadf) (on_ctrl op) (w.file f).private_data w
        (λ h. on_ctrl-Everywhere P op h w keeps all) all

  timeout-Everywhere :
      (r : Request) (n t : ℕ) (w : World)
      → Everywhere P w
      → Everywhere P (dev_set_tg_abn_timeout r n t w).1
  unfolding dev_set_tg_abn_timeout with_host
  timeout-Everywhere r n t w all =
      admit-keeps (Everywhere P) r
        (λ v.
          if ltb max_target_abnormal_timeout t
          then (err einval, v)
          else with_host n (on_ctrl (set_tg_abn_timeout t)) v)
        w all
        (if-keeps (Everywhere P) (ltb max_target_abnormal_timeout t) _ _ all (
          at_host-keeps (Everywhere P) (on_ctrl (set_tg_abn_timeout t))
            (get_ctlr_by_host w.mgr_list n) w
            (λ h. on_ctrl-Everywhere P (set_tg_abn_timeout t) h w (s.timed t) all) all))

  -- Every command of the control device keeps a property that the operations on a host keep and that
  -- a new host has.
  pub dev_ioctl-Everywhere :
      (a : Around) (r : Request) (f : ℕ) (c : Command) (w : World)
      → Everywhere P w
      → Everywhere P (dev_ioctl a r f c w).1
  unfolding dev_ioctl dev_add_host dev_rmv_host dev_detach_host dev_suspend_host dev_resume_host
      dev_add_disk dev_rmv_disk dev_add_disk_by_vol_name dev_rmv_disk_by_vol_name dev_set_disk_stat
      dev_set_disk_rq_timeout
  dev_ioctl-Everywhere a r f (add_host info) w all =
      admit-keeps (Everywhere P) r (λ v. report_host r (register_host a.mem a.kernel info v)) w all
        (register_host-Everywhere P s a.mem a.kernel info w all)
  dev_ioctl-Everywhere a r f (rmv_host n) w all = command-Everywhere r n remove_host w s.removed all
  dev_ioctl-Everywhere a r f (attach_host n) w all = attach_host-Everywhere P s r f n w all
  dev_ioctl-Everywhere a r f detach_host w all = go-Everywhere P s (err ebadf) false f w all
  dev_ioctl-Everywhere a r f suspends w all =
      held-Everywhere (on_host suspend_host) f w s.suspended all
  dev_ioctl-Everywhere a r f resumes w all = held-Everywhere (on_host resume_host) f w s.resumed all
  dev_ioctl-Everywhere a r f (add_disk n c i u) w all =
      command-Everywhere r n (λ b. on_disks (add_device a.mid_layer (is_attached b) c i u) b) w
        (λ b. s.disks _ b) all
  dev_ioctl-Everywhere a r f (rmv_disk n c i u) w all =
      command-Everywhere r n (λ b. on_disks (rmv_device a.mid_layer b.session.host.blocked c i u) b)
        w (λ b. s.disks _ b) all
  dev_ioctl-Everywhere a r f (add_disk_vol_name n c i u v) w all =
      command-Everywhere r n
        (λ b. on_disks (add_device_by_vol_name a.mid_layer (is_attached b) b.sys_host_no v c i u) b)
        w (λ b. s.disks _ b) all
  dev_ioctl-Everywhere a r f (prepare_rmv_vol n v) w all =
      command-Everywhere r n (λ b. on_disks (set_delete_by_vol_name a.mid_layer v) b) w
        (λ b. s.disks _ b) all
  dev_ioctl-Everywhere a r f (query_disk_vol n) w all = all
  dev_ioctl-Everywhere a r f (set_disk_stat n c i u x) w all =
      command-Everywhere r n (λ b. on_disks (set_stat_of a.mid_layer x c i u) b) w
        (λ b. s.disks _ b) all
  dev_ioctl-Everywhere a r f (get_disk_stat n c i u) w all = all
  dev_ioctl-Everywhere a r f (disk_rq_timeout n c i u t) w all =
      command-Everywhere r n (λ b. on_disks (set_device_rq_timeout a.mid_layer a.hz c i u t) b) w
        (λ b. s.disks _ b) all
  dev_ioctl-Everywhere a r f (set_target_abnormal_timeout n t) w all =
      timeout-Everywhere r n t w all
  dev_ioctl-Everywhere a r f (other n) w all = all

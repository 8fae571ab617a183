-- ===== src/Ioctl.antt =====
-- vsc_ioctl.c: the control device. `Hosts`, `Files` and `Disks` have one handler for each command;
-- here is the choice between them.
pub mod State
pub mod Register
pub mod Hosts
pub mod Files
pub mod Disks
pub mod Keeps
pub mod Everywhere
pub mod Attachment
pub mod Unwind
pub mod Sweep
pub mod Memory
pub mod Report
pub mod Abi
mod Samples
mod Tests
use vsc.Base.{ℕ, List, Option, Bool}
use vsc.Codes.{Ret, err, enotty}
use vsc.Control.Limits.{HostInfo}
use vsc.Devices.{MidLayer, Sdev, SdevState}
use vsc.Xfer.{Mem}
use vsc.Ioctl.State.{World, Request}
use vsc.Ioctl.Register.{Kernel}
use vsc.Ioctl.Hosts.{dev_add_host, dev_rmv_host, dev_set_tg_abn_timeout}
use vsc.Ioctl.Files.{dev_attach_host, dev_detach_host, dev_suspend_host, dev_resume_host}
use vsc.Ioctl.Disks.{
  dev_add_disk, dev_rmv_disk, dev_add_disk_by_vol_name, dev_rmv_disk_by_vol_name, dev_query_vol,
  dev_set_disk_stat, dev_get_disk_stat, dev_set_disk_rq_timeout,
}

-- The number of an ioctl with what it copies from user space.
pub data Command : Type 0 where
  add_host : HostInfo → Command
  rmv_host attach_host : ℕ → Command
  detach_host suspends resumes : Command
  add_disk rmv_disk get_disk_stat : ℕ → ℕ → ℕ → ℕ → Command
  add_disk_vol_name : ℕ → ℕ → ℕ → ℕ → List ℕ → Command
  prepare_rmv_vol : ℕ → List ℕ → Command
  query_disk_vol : ℕ → Command
  set_disk_stat : ℕ → ℕ → ℕ → ℕ → Option SdevState → Command
  disk_rq_timeout : ℕ → ℕ → ℕ → ℕ → ℕ → Command
  set_target_abnormal_timeout : ℕ → ℕ → Command
  other : ℕ → Command

-- What an ioctl finds in the kernel: the mid-layer, ticks in a second, the memory of the machine,
-- the answers to a registration, and whether `kzalloc` succeeds.
pub record Around : Type 0 where
  pub mid_layer : MidLayer
  pub hz : ℕ
  pub mem : Mem
  pub kernel : Kernel
  pub memory : Bool

-- `vsc_dev_ioctl` of the file `f`: its result and the state. What `query_disk_vol` and
-- `get_disk_stat` write to user space is in their handlers.
unfoldable pub dev_ioctl : Around → Request → ℕ → Command → World → Ret × World
unfolding dev_add_host dev_rmv_host dev_attach_host dev_detach_host dev_suspend_host dev_resume_host
    dev_add_disk dev_rmv_disk dev_add_disk_by_vol_name dev_rmv_disk_by_vol_name dev_query_vol
    dev_set_disk_stat dev_get_disk_stat dev_set_disk_rq_timeout dev_set_tg_abn_timeout
dev_ioctl a r f (add_host info) w = dev_add_host r a.mem a.kernel info w
dev_ioctl a r f (rmv_host n) w = dev_rmv_host r n w
dev_ioctl a r f (attach_host n) w = dev_attach_host r f n w
dev_ioctl a r f detach_host w = dev_detach_host f w
dev_ioctl a r f suspends w = dev_suspend_host f w
dev_ioctl a r f resumes w = dev_resume_host f w
dev_ioctl a r f (add_disk n c i l) w = dev_add_disk a.mid_layer r n c i l w
dev_ioctl a r f (rmv_disk n c i l) w = dev_rmv_disk a.mid_layer r n c i l w
dev_ioctl a r f (add_disk_vol_name n c i l v) w = dev_add_disk_by_vol_name a.mid_layer r n c i l v w
dev_ioctl a r f (prepare_rmv_vol n v) w = dev_rmv_disk_by_vol_name a.mid_layer r n v w
dev_ioctl a r f (query_disk_vol n) w = ((dev_query_vol r a.memory n w).0, w)
dev_ioctl a r f (set_disk_stat n c i l s) w = dev_set_disk_stat a.mid_layer r n c i l s w
dev_ioctl a r f (get_disk_stat n c i l) w = ((dev_get_disk_stat a.mid_layer r n c i l w).0, w)
dev_ioctl a r f (disk_rq_timeout n c i l t) w =
    dev_set_disk_rq_timeout a.mid_layer r a.hz n c i l t w
dev_ioctl a r f (set_target_abnormal_timeout n t) w = dev_set_tg_abn_timeout r n t w
dev_ioctl a r f (other n) w = (err enotty, w)

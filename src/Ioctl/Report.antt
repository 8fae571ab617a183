-- ===== src/Ioctl/Report.antt =====
-- vsc_main.c: `vsc_hostinfo_proc_read`, what the proc file of a host prints.
pub mod Counts
pub mod Dump
mod Tests
use vsc.Base.{
  ℕ, suc, ◌+◌, ◌/◌, ◌^◌, List, [], ◌∷◌, Bool, true, false, not, Option, none, some, ◌==◌,
  if◌then◌else◌, length, u32,
}
use vsc.Codes.{Ret, ok, err, efault}
use vsc.Control.{Host, is_free}
use vsc.Devices.{MidLayer, Sdev}
use vsc.Dispatch.{Session}
use vsc.Ioctl.State.{Ctrl, is_attached}

-- What the mid-layer knows of a host (`struct Scsi_Host`).
pub record ScsiHost : Type 0 where
  pub max_channel : ℕ
  pub max_id : ℕ
  pub max_lun : ℕ
  pub sg_tablesize : ℕ
  pub cmd_per_lun : ℕ

-- The values printed, in order.
pub record HostReport : Type 0 where
  pub host_no : ℕ
  pub scsi_host_id : ℕ
  pub limits : ScsiHost
  pub max_cmd_count : ℕ
  pub suspended : Bool
  pub blocked : Bool
  pub device_count : ℕ
  pub cmd_sn : ℕ
  pub cmd_sn_overflow : ℕ
  pub event_sn : ℕ
  pub attached : Bool
  pub abort_cmd_count : ℕ
  pub reset_dev_count : ℕ
  pub read_fail_count : ℕ
  pub write_fail_count : ℕ
  pub running : ℕ
  pub get_cmd_times : ℕ
  pub get_cmd_total : ℕ
  pub put_rsp_times : ℕ
  pub put_rsp_total : ℕ
  pub req_count : ℕ
  pub cmp_count : ℕ
  pub rsp_count : ℕ

-- `shost_for_each_device`, which passes over a disk that cannot be held.
abbrev pub count_devices : MidLayer → List Sdev → ℕ
count_devices m [] = 0
count_devices m (d ∷ ds) = (if m.scsi_device_get d then 1 else 0) + count_devices m ds

-- The report of a host; `list_size` is the length of a queue.
unfoldable pub report_of : MidLayer → ScsiHost → ℕ → Ctrl → HostReport
report_of m limits host_no c = record {
  host_no = host_no;
  scsi_host_id = c.sys_host_no;
  limits = limits;
  max_cmd_count = c.session.host.cmds.nr_cmds;
  suspended = not (c.session.host.suspend == 0);
  blocked = c.session.host.blocked;
  device_count = count_devices m c.sdevs;
  cmd_sn = u32 c.session.host.cmds.cmd_sn;
  cmd_sn_overflow = u32 (c.session.host.cmds.cmd_sn / 2 ^ 32);
  event_sn = c.session.host.events.event_sn;
  attached = is_attached c;
  abort_cmd_count = c.session.host.abort_cmd_count;
  reset_dev_count = c.session.host.reset_dev_count;
  read_fail_count = c.session.read_fail_count;
  write_fail_count = c.session.write_fail_count;
  running = c.session.host.cmds.io_running;
  get_cmd_times = c.session.host.cmds.get_cmd_times;
  get_cmd_total = c.session.host.cmds.get_cmd_total;
  put_rsp_times = c.session.host.cmds.put_rsp_times;
  put_rsp_total = c.session.host.cmds.put_rsp_total;
  req_count = length c.session.host.cmds.req_q;
  cmp_count = length c.session.host.cmds.cmp_q;
  rsp_count = length c.session.host.cmds.rsp_q;
}

-- `vsc_hostinfo_proc_read`; `none` is a null pointer, for which nothing is printed.
unfoldable pub hostinfo_proc_read : MidLayer → ScsiHost → ℕ → Option Ctrl → Ret × Option HostReport
unfolding report_of
hostinfo_proc_read m limits host_no none = (err efault, none)
hostinfo_proc_read m limits host_no (some c) = (ok 0, some (report_of m limits host_no c))

-- ===== src/Ioctl/Abi.antt =====
-- vsc.h, vsc_ioctl.c: the numbers of the ioctls and the layout of their arguments, and the switch of
-- `vsc_dev_ioctl`.
mod RoundTrip
use vsc.Base.{
  ℕ, ◌+◌, ◌*◌, List, [], ◌∷◌, Bool, true, false, ◌||◌, Option, none, some, ◌==◌, if◌then◌else◌,
}
use vsc.Codes.{Ret}
use vsc.Control.Limits.{HostInfo}
use vsc.Devices.{SdevState}
use vsc.Ioctl.{
  Command, add_host, rmv_host, attach_host, detach_host, suspends, resumes, add_disk, rmv_disk,
  add_disk_vol_name, prepare_rmv_vol, query_disk_vol, set_disk_stat, get_disk_stat, disk_rq_timeout,
  set_target_abnormal_timeout, other, Around, dev_ioctl,
}
use vsc.Ioctl.State.{World, Request}

-- `_IO(VSC_IOCTL_BASE, nr)`.
abbrev pub ioctl_base : ℕ
ioctl_base = 0x4b

abbrev pub io_number : ℕ → ℕ
io_number nr = ioctl_base * 256 + nr

-- What an ioctl copies from user space: the fields of 32 bits in order, and `vol_name`.
pub record Argument : Type 0 where
  pub word : ℕ → ℕ
  pub vol_name : List ℕ

-- `struct vsc_ioctl_cmd_add_host`.
abbrev pub host_info_of : Argument → HostInfo
host_info_of u = record {
  host = u.word 0;
  sys_host_id = u.word 1;
  max_channel = u.word 2;
  max_lun = u.word 3;
  max_id = u.word 4;
  max_cmd_len = u.word 5;
  max_nr_cmds = u.word 6;
  cmd_per_lun = u.word 7;
  sg_count = u.word 8;
}

-- The switch, with what the handler copies first. `state_of` is the state of a disk with a number,
-- in the kernel that the driver is built for.
unfoldable pub command_of : (ℕ → Option SdevState) → ℕ → Argument → Command
command_of state_of cmd u =
    if cmd == io_number 0
    then add_host (host_info_of u)
    else if cmd == io_number 1
    then rmv_host (u.word 0)
    else if cmd == io_number 20
    then attach_host (u.word 0)
    else if cmd == io_number 21
    then detach_host
    else if cmd == io_number 30
    then suspends
    else if cmd == io_number 31
    then resumes
    else if cmd == io_number 10
    then add_disk (u.word 0) (u.word 1) (u.word 2) (u.word 3)
    else if cmd == io_number 11
    then rmv_disk (u.word 0) (u.word 1) (u.word 2) (u.word 3)
    else if cmd == io_number 32
    then add_disk_vol_name (u.word 0) (u.word 1) (u.word 2) (u.word 3) u.vol_name
    else if cmd == io_number 33
    then prepare_rmv_vol (u.word 0) u.vol_name
    else if cmd == io_number 34
    then query_disk_vol (u.word 0)
    else if cmd == io_number 12
    then set_disk_stat (u.word 0) (u.word 1) (u.word 2) (u.word 3) (state_of (u.word 4))
    else if cmd == io_number 13
    then get_disk_stat (u.word 0) (u.word 1) (u.word 2) (u.word 3)
    else if cmd == io_number 14
    then disk_rq_timeout (u.word 0) (u.word 1) (u.word 2) (u.word 3) (u.word 4)
    else if cmd == io_number 15
    then set_target_abnormal_timeout (u.word 0) (u.word 1)
    else other cmd

-- `vsc_dev_ioctl` of a number and an argument; `vsc_dev_compat_ioctl` is the same.
unfoldable pub ioctl :
    (ℕ → Option SdevState) → Around → Request → ℕ → ℕ → Argument → World → Ret × World
unfolding dev_ioctl command_of
ioctl state_of a r f cmd u = dev_ioctl a r f (command_of state_of cmd u)

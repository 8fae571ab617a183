-- ===== src/Ioctl/Samples.antt =====
-- Hosts, kernels and requests for the runs of the control device.
use vsc.Base.{ℕ, List, [], ◌∷◌, true, false, none, some}
use vsc.Codes.{ok}
use vsc.Cmds.{Cmd, init}
use vsc.Events.{fresh_event}
use vsc.Control.Limits.{HostInfo}
use vsc.Devices.{MidLayer}
use vsc.Xfer.{Mem, Mmu}
use vsc.Xfer.Batch.{Layout}
use vsc.Ioctl.{Around}
use vsc.Ioctl.State.{World, Request}
use vsc.Ioctl.Register.{Kernel, ctrl_init_as, register_host}

abbrev pub whole : Mmu
whole u n = n

abbrev pub layout : Layout
layout sc = record {
  cdb = 100;
  cdb_size = 6;
  sense_buffer = 200;
  sgl = record { virt = 1000; length = 8 } ∷ [];
  bufflen = 8;
  op = 0x12;
}

abbrev pub six : List ℕ → ℕ
six cdb = 6

abbrev pub zeros : Mem
zeros = record { user = λ a. 0; kernel = λ a. 0 }

abbrev pub cmd_memory : ℕ → Cmd
cmd_memory i = record { cmd_index = 0; stat = init; scsi_cmd = none; cmd_sn = 0; refcnt = 0 }

-- A kernel that grants everything, and puts a new host at 4096.
abbrev pub grants : Kernel
grants = record {
  revived = true;
  address = some 4096;
  grants = λ n. true;
  cmd_memory = cmd_memory;
  event_memory = λ i. fresh_event i 0;
  added = none;
  proc_file = true;
  mgr_memory = true;
  sys_host_no = 3;
}

-- Host 1 of vbs 2.
abbrev pub host_513 : HostInfo
host_513 = record {
  host = 513;
  sys_host_id = 0;
  max_channel = 1;
  max_lun = 8;
  max_id = 8;
  max_cmd_len = 16;
  max_nr_cmds = 64;
  cmd_per_lun = 16;
  sg_count = 64;
}

abbrev pub admitted : Request
admitted = record { p_user = true; capable = true; readable = true; writable = true }

abbrev pub empty_world : World
empty_world = record {
  ctrl = λ h. ctrl_init_as zeros grants host_513;
  mgr_list = [];
  file = λ f. record { private_data = none; nonblock = false };
}

abbrev pub with_513 : World
with_513 = (register_host zeros grants host_513 empty_world).world

abbrev pub mid : MidLayer
mid = record {
  scsi_device_get = λ d. true;
  scsi_add_device = λ ds c i l. (ok 0, ds);
  scsi_remove_device = λ ds d. ds;
  scsi_device_set_state = λ d s. (ok 0, s);
}

abbrev pub around : Around
around = record { mid_layer = mid; hz = 250; mem = zeros; kernel = grants; memory = true }

-- ===== src/Ioctl/Report/Tests.antt =====
-- The proc file at a concrete host.
use vsc.Base.{
  if◌then◌else◌, ◌==◌, length, refl, none, ◌≡◌, ◌^◌, ◌<◌, [], ◌∷◌, false, some, arith, remove,
}
use vsc.Codes.{ok}
use vsc.Cmds.{Cmds, ScsiCmnd, find_zero_from}
use vsc.Cmds.Io.{submit}
use vsc.Cmds.Read.{get_multi_scsi_cmd_and_cdb}
use vsc.Cmds.Inv.{Inv}
use vsc.Cmds.Account.History.{init_cmds, init_cmds-Inv, submits, reads, run, run-Inv}
use vsc.Ioctl.State.{Ctrl}
use vsc.Ioctl.Register.{ctrl_init_as}
use vsc.Ioctl.Samples.{six, zeros, cmd_memory, grants, host_513, mid}
use vsc.Ioctl.Report.{ScsiHost, HostReport, hostinfo_proc_read}
use vsc.Ioctl.Report.Dump.{debug_host, debug_cmd}
use vsc.Ioctl.Report.Counts.{Tallies, hostinfo_proc_read-Tallies}

abbrev limits : ScsiHost
limits = record { max_channel = 1; max_id = 8; max_lun = 8; sg_tablesize = 64; cmd_per_lun = 16 }

abbrev inquiry : ScsiCmnd
inquiry = record {
  ident = 1;
  cmnd = 0x12 ∷ 0 ∷ 0 ∷ 0 ∷ 8 ∷ 0 ∷ [];
  channel = 0;
  id = 0;
  lun = 0;
  direction = 2;
}

-- Two commands, of which one has been read.
abbrev two : Cmds
two =
    run six 513 (submits inquiry ∷ reads 224 false ∷ submits inquiry ∷ []) (init_cmds cmd_memory 4)

abbrev busy : Ctrl
busy = record {
  session = record {
    host = record (ctrl_init_as zeros grants host_513).session.host { cmds = two };
    xfer = (ctrl_init_as zeros grants host_513).session.xfer;
    read_fail_count = 0;
    write_fail_count = 0;
  };
  sdevs = [];
  sys_host_no = 3;
  freed = false;
}

two-Inv : Inv two
two-Inv =
    run-Inv six 513 (submits inquiry ∷ reads 224 false ∷ submits inquiry ∷ [])
      (init_cmds cmd_memory 4) (init_cmds-Inv cmd_memory 4)

few : two.nr_cmds < 2 ^ 32
unfolding init_cmds submit find_zero_from remove get_multi_scsi_cmd_and_cdb
few = omega arith

small : two.cmd_sn < 2 ^ 64
unfolding init_cmds submit find_zero_from remove get_multi_scsi_cmd_and_cdb
small = omega arith

hostinfo_proc_read-Tallies_example :
    (r : HostReport) × (hostinfo_proc_read mid limits 513 (some busy) ≡ (ok 0, some r))
    × Tallies busy r
hostinfo_proc_read-Tallies_example =
    hostinfo_proc_read-Tallies mid limits 513 busy two-Inv few small

-- Host 1 of a vbs with one host is not printed: its entry is not below the count.
not_printed :
    debug_cmd
      (λ h. 513)
      (λ h t. two)
      (record { vbs_id = 2; host_count = 1; host_list = λ i. if i == 1 then some 4096 else none }
        ∷ [])
      513
    ≡ []
unfolding debug_cmd
not_printed = refl

-- The command that has been read, and the one that has not.
printed : length (debug_host 513 (λ t. two)).rsp_lines ≡ 1
unfolding debug_host init_cmds submit find_zero_from remove get_multi_scsi_cmd_and_cdb
printed = refl

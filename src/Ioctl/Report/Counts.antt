-- ===== src/Ioctl/Report/Counts.antt =====
-- vsc_main.c: the counts of the proc file fit together.
use vsc.Base.{ℕ, ◌+◌, ◌*◌, ◌^◌, ◌<◌, ◌≤◌, ◌≡◌, refl, some, arith}
use vsc.Codes.{ok}
use vsc.Cmds.Inv.{Inv}
use vsc.Cmds.Inv.Census.{slots_taken, slots_taken-le, backlog-eq-slots}
use vsc.Devices.{MidLayer}
use vsc.Ioctl.State.{Ctrl}
use vsc.Ioctl.Report.{ScsiHost, HostReport, report_of, hostinfo_proc_read}

-- What the numbers of a report have to do with one another and with the host.
pub record Tallies (c : Ctrl) (r : HostReport) : Type 0 where
  pub queued : r.running ≡ r.req_count + r.cmp_count + r.rsp_count
  pub slots : r.running ≡ slots_taken c.session.host.cmds.cmd_pool_bits r.max_cmd_count
  pub bounded : r.running ≤ r.max_cmd_count
  pub serial : c.session.host.cmds.cmd_sn ≡ r.cmd_sn + r.cmd_sn_overflow * 2 ^ 32

-- The proc file of a host with queues in order, fewer than 2 ^ 32 slots and a serial number of 64
-- bits prints as many running commands as it prints in the three queues; that is how many slots are
-- taken, and no more than there are slots. The two halves of the serial number make it up.
pub hostinfo_proc_read-Tallies :
    (m : MidLayer) (limits : ScsiHost) (host_no : ℕ) (c : Ctrl)
    → Inv c.session.host.cmds
    → c.session.host.cmds.nr_cmds < 2 ^ 32
    → c.session.host.cmds.cmd_sn < 2 ^ 64
    → (r : HostReport) × (hostinfo_proc_read m limits host_no (some c) ≡ (ok 0, some r))
      × Tallies c r
unfolding hostinfo_proc_read
hostinfo_proc_read-Tallies m limits host_no c v few small =
    let q = c.session.host.cmds in
    let all = backlog-eq-slots q v in
    let most = slots_taken-le q.cmd_pool_bits q.nr_cmds in
    (
      report_of m limits host_no c,
      refl,
      record {
        queued = omega (arith, v.running, all, most);
        slots = omega (arith, v.running, all, most);
        bounded = omega (arith, v.running, all, most);
        serial = omega arith;
      },
    )

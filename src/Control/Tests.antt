-- ===== src/Control/Tests.antt =====
-- Runs of the control of a host of vsc_main.c at concrete inputs.
use vsc.Base.{
  ℕ, ◌≡◌, ◌<◌, inr, refl, List, [], ◌∷◌, true, false, some, none, arith, count, ltb, remove,
}
use vsc.Cmds.{Cmds, ScsiCmnd, find_zero_from, Cmd, init}
use vsc.Cmds.Io.{submit}
use vsc.Cmds.Inv.{Inv, uses}
use vsc.Cmds.Inv.Io.{submit-Inv}
use vsc.Cmds.Account.History.{init_cmds, init_cmds-Inv}
use vsc.Events.{Events, fresh_event, abort_event}
use vsc.Control.{Host}
use vsc.Control.Attach.{Calm, DetachOutcome, detach_lem}
use vsc.Control.Limits.{HostInfo}
use vsc.Control.Abort.Outcome.{AbortOutcome, eh_abort_end_lem}

-- What a pool holds before it is used.
abbrev memory : ℕ → Cmd
memory i = record { cmd_index = 0; stat = init; scsi_cmd = none; cmd_sn = 0; refcnt = 0 }

abbrev read_10 : ScsiCmnd
read_10 = record { ident = 1; cmnd = 0x28 ∷ []; channel = 0; id = 0; lun = 0; direction = 2 }

abbrev one_waits : Cmds
one_waits = (submit (init_cmds memory 2) read_10).1

one_waits-Inv : Inv one_waits
one_waits-Inv = submit-Inv (init_cmds memory 2) read_10 (init_cmds-Inv memory 2)

-- One event that waits to be read, on which its handler sleeps.
abbrev events : Events
events = record {
  nr_events = 8;
  event_req_q = 0 ∷ [];
  event_rsp_q = [];
  event_sn = 7;
  event_pool_tbl = λ i. record (fresh_event i 7) {
    event_callback = some abort_event;
    waiting = true;
    refcnt = 2;
  };
  event_pool_bits = λ i. ltb i 1;
}

abbrev host : Cmds → Host
host q = record {
  cmds = q;
  events = events;
  file = some 3;
  suspend = 0;
  blocked = false;
  target_abnormal_timer = none;
  target_abnormal_time = 30;
  target_abnormal_lock = 0;
  disks_offline = false;
  abort_cmd_count = 0;
  reset_dev_count = 0;
  wakeup_pid = 0;
}

host-Calm : Calm (host one_waits)
host-Calm = record { queues = one_waits-Inv; unlocked = refl; no_timer = inr refl }

abbrev ten : List ℕ → ℕ
ten cdb = 10

detach_lem_example : DetachOutcome true (host one_waits)
detach_lem_example = detach_lem true (host one_waits) one_waits-Inv

waits : 0 < uses one_waits 0
unfolding init_cmds submit find_zero_from remove
waits = omega arith

started : count 0 one_waits.req_q ≡ 0
unfolding init_cmds submit find_zero_from remove
started = refl

eh_abort_end_lem_example : AbortOutcome true read_10 0 0 one_waits (host one_waits)
eh_abort_end_lem_example =
    eh_abort_end_lem true read_10 0 0 one_waits (host one_waits) one_waits-Inv waits started

abbrev info : HostInfo
info = record {
  host = 0x500;
  sys_host_id = 0;
  max_channel = 1;
  max_lun = 64;
  max_id = 8;
  max_cmd_len = 16;
  max_nr_cmds = 1024;
  cmd_per_lun = 256;
  sg_count = 128;
}

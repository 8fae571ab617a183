-- ===== src/Dispatch/Tests.antt =====
-- Runs of `read` and `write` of vsc_main.c at concrete inputs.
use vsc.Base.{ℕ, ◌≡◌, refl, List, [], ◌∷◌, true, false, none, some}
use vsc.Codes.{Ret}
use vsc.Base.{remove}
use vsc.Cmds.{Cmds, Cmd, ScsiCmnd, init, find_zero_from}
use vsc.Cmds.Io.{submit}
use vsc.Cmds.Account.History.{submits, reads, init_cmds, run}
use vsc.Events.{Events, fresh_event}
use vsc.Control.{Host}
use vsc.Xfer.{Mmu}
use vsc.Xfer.Batch.{Layout, ScsiBuf}
use vsc.Dispatch.{
  Session, others, Delivery, count_read, ReadCall, wait_for_work, take_work, get_scsi_cmd_msg,
  read_kind, get_msg,
}
use vsc.Dispatch.Counts.{ReadOutcome, get_msg_lem}

abbrev whole : Mmu
whole u n = n

abbrev layout : Layout
layout sc = record {
  cdb = 100;
  cdb_size = 6;
  sense_buffer = 200;
  sgl = record { virt = 1000; length = 8 } ∷ [];
  bufflen = 8;
  op = 0x12;
}

abbrev six : List ℕ → ℕ
six cdb = 6

abbrev memory : ℕ → Cmd
memory i = record { cmd_index = 0; stat = init; scsi_cmd = none; cmd_sn = 0; refcnt = 0 }

abbrev inquiry : ScsiCmnd
inquiry = record {
  ident = 1;
  cmnd = 0x12 ∷ 0 ∷ 0 ∷ 0 ∷ 8 ∷ 0 ∷ [];
  channel = 0;
  id = 0;
  lun = 0;
  direction = 2;
}

abbrev no_events : Events
no_events = record {
  nr_events = 8;
  event_req_q = [];
  event_rsp_q = [];
  event_sn = 0;
  event_pool_tbl = λ i. fresh_event i 0;
  event_pool_bits = λ i. false;
}

abbrev attached : Cmds → Host
attached q = record {
  cmds = q;
  events = no_events;
  file = some 3;
  suspend = 0;
  blocked = false;
  target_abnormal_timer = none;
  target_abnormal_time = 30;
  target_abnormal_lock = 0;
  disks_offline = false;
  abort_cmd_count = 0;
  reset_dev_count = 0;
  wakeup_pid = 0;
}

abbrev session : Cmds → Session
session q = record {
  host = attached q;
  xfer = record { mem = record { kernel = λ a. a; user = λ a. 0 }; get_cdb_total = 0 };
  read_fail_count = 0;
  write_fail_count = 0;
}

-- A request to write two bytes of the data of the command with tag 0 and serial number 1, with its
-- answer.
abbrev image : ScsiBuf
image = record {
  addr = 9000;
  head = 0;
  slots = λ i. record {
    kind = 2;
    reserved0 = 1;
    reserved1 = 1;
    cmd_sn = 1;
    tag = 0;
    scsi_data_len = 60;
    scsi_data = record {
      data_type = 2;
      data_len = 60;
      total_iovec_len = 2;
      offset = 0;
      vec = record { iov_base = 5000; iov_len = 2 } ∷ [];
    };
  };
  rsps = record { reserved0 = 1; cmd_sn = 1; tag = 0; command_status = 0; scsi_status = 0 } ∷ [];
  tail = 0;
}

-- A command comes in while the reader sleeps.
abbrev comes_in : Host → Host
comes_in h = record h { cmds = (submit h.cmds inquiry).1 }

abbrev read_call : ReadCall
read_call = record {
  kind = some 0;
  nonblock = false;
  wakes = others comes_in ∷ [];
  len = 224;
  fault = false;
  user_ptr = 7000;
  pool = none;
  image = image;
}

abbrev empty : Cmds
empty = init_cmds memory 2

-- What that read returns: the work that the reader finds when it wakes.
abbrev woken : Ret × Delivery × Session
woken = count_read (
    count_read (take_work whole layout six 0 read_call (comes_in (attached empty)) (session empty)))

wakes_up : get_msg whole layout six 0 read_call (session empty) ≡ some woken
unfolding get_msg read_kind get_scsi_cmd_msg wait_for_work submit init_cmds find_zero_from remove
wakes_up = refl

abbrev one_read : Cmds
one_read = run six 0 (submits inquiry ∷ reads 224 false ∷ []) (init_cmds memory 2)

get_msg_lem_example :
    ReadOutcome whole layout six 0 (record read_call { nonblock = true }) (session one_read)
get_msg_lem_example =
    get_msg_lem whole layout six 0 (record read_call { nonblock = true }) (session one_read) refl
      refl

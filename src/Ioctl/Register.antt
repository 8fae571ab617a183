-- ===== src/Ioctl/Register.antt =====
-- vsc_main.c: `vsc_register_host` and the end of `vsc_do_remove_host`, with what they take from the
-- kernel and give back.
use vsc.Base.{ℕ, List, [], ◌∷◌, Bool, true, false, not, Option, none, some, leb, if◌then◌else◌}
use vsc.Codes.{Ret, ok, err, Errno, is_err, einval, efault, enomem, enodev, eexist}
use vsc.Cmds.{Cmd}
use vsc.Cmds.Account.History.{init_cmds}
use vsc.Events.{Event, Events}
use vsc.Hosts.{
  HostMgr, get_ctlr_by_host, add_host_to_mgr, find_mgr, max_host_nr_per_vbs, get_vbs_id_by_host_id,
  get_host_index_in_vbs,
}
use vsc.Control.{do_remove_host}
use vsc.Control.Limits.{HostInfo, check_host_info}
use vsc.Xfer.{Mem}
use vsc.Ioctl.Memory.{default_event_number, ctrl_init_memory}
use vsc.Ioctl.State.{Ctrl, World, set_ctrl, set_host}

-- What is taken from the kernel and given back, in order.
pub data Act : Type 0 where
  host_alloc ctrl_init host_add proc_create mgr_alloc : Act
  host_remove proc_remove ctrl_destroy host_put : Act

-- The event part of `vsc_ctrl_init`.
unfoldable pub init_events : (ℕ → Event) → Events
init_events memory = record {
  nr_events = default_event_number;
  event_req_q = [];
  event_rsp_q = [];
  event_sn = 0;
  event_pool_tbl = memory;
  event_pool_bits = λ i. false;
}

-- What the kernel answers during a registration. `revived` says that `scsi_host_get` succeeds for a
-- host that the registry has, `address` is the memory of a new host, `grants` says which requests of
-- `vsc_ctrl_init` for memory are granted, `cmd_memory` and `event_memory` are what its pools then
-- hold; `added` is the error of `scsi_add_host`, if it has one.
pub record Kernel : Type 0 where
  pub revived : Bool
  pub address : Option ℕ
  pub grants : ℕ → Bool
  pub cmd_memory : ℕ → Cmd
  pub event_memory : ℕ → Event
  pub added : Option Errno
  pub proc_file : Bool
  pub mgr_memory : Bool
  pub sys_host_no : ℕ

-- `vsc_ctrl_init`, once its memory is there. `mem` is the memory of the machine.
unfoldable pub ctrl_init_as : Mem → Kernel → HostInfo → Ctrl
unfolding init_cmds init_events
ctrl_init_as mem k info = record {
  session = record {
    host = record {
      cmds = init_cmds k.cmd_memory info.max_nr_cmds;
      events = init_events k.event_memory;
      file = none;
      suspend = 0;
      blocked = false;
      target_abnormal_timer = none;
      target_abnormal_time = 0;
      target_abnormal_lock = 0;
      disks_offline = false;
      abort_cmd_count = 0;
      reset_dev_count = 0;
      wakeup_pid = 0;
    };
    xfer = record { mem = mem; get_cdb_total = 0 };
    read_fail_count = 0;
    write_fail_count = 0;
  };
  sdevs = [];
  sys_host_no = k.sys_host_no;
  freed = false;
}

-- The registry after the host has been registry_after, whose result is not looked at.
abbrev pub registry_after : List HostMgr → Option (List HostMgr) → List HostMgr
registry_after old none = old
registry_after old (some new) = new

-- What a registration returns: its result, the number for user space, what it did, and the state.
pub record Registered : Type 0 where
  pub ret : Ret
  pub sys_host_id : ℕ
  pub acts : List Act
  pub world : World

abbrev pub register_fails : Errno → List Act → HostInfo → World → Registered
register_fails e acts info w = record {
  ret = err e;
  sys_host_id = info.sys_host_id;
  acts = acts;
  world = w;
}

-- The memory that `vsc_add_host_to_mgr` takes: a manager, for the first host of a vbs.
abbrev pub mgr_acts : Bool → List HostMgr → ℕ → List Act
mgr_acts memory ms host_id =
    if leb max_host_nr_per_vbs (get_host_index_in_vbs host_id)
    then []
    else elim (find_mgr ms (get_vbs_id_by_host_id host_id)) [
      | some m ↦ []
      | none ↦ if memory then mgr_alloc ∷ [] else []
    ]

-- From `scsi_add_host` on.
unfoldable pub finish_register : Mem → Kernel → HostInfo → ℕ → World → Registered
unfolding ctrl_init_as
finish_register mem k info h w =
    let mgrs = registry_after w.mgr_list (add_host_to_mgr k.mgr_memory w.mgr_list h info.host) in
    if not k.proc_file
    then register_fails enomem
        (host_alloc ∷ ctrl_init ∷ host_add ∷ host_remove ∷ ctrl_destroy ∷ host_put ∷ []) info w
    else record {
      ret = ok 0;
      sys_host_id = k.sys_host_no;
      acts =
          host_alloc
          ∷ ctrl_init
          ∷ host_add
          ∷ proc_create
          ∷ mgr_acts k.mgr_memory w.mgr_list info.host;
      world = record (set_ctrl w h (ctrl_init_as mem k info)) { mgr_list = mgrs };
    }

abbrev pub after_host_add : Option Errno → Mem → Kernel → HostInfo → ℕ → World → Registered
after_host_add none mem k info h w = finish_register mem k info h w
after_host_add (some e) mem k info h w =
    register_fails e (host_alloc ∷ ctrl_init ∷ ctrl_destroy ∷ host_put ∷ []) info w

-- The part for a number that is new.
unfoldable pub register_new : Mem → Kernel → HostInfo → Option ℕ → World → Registered
unfolding finish_register ctrl_init_memory
register_new mem k info none w = register_fails enomem [] info w
register_new mem k info (some h) w =
    if not (ctrl_init_memory k.grants info.max_nr_cmds).built
    then register_fails efault (host_alloc ∷ host_put ∷ []) info w
    else after_host_add k.added mem k info h w

-- The part for a number that the registry has: a host that the mid-layer still holds exists.
abbrev pub register_known : Kernel → HostInfo → ℕ → World → Registered
register_known k info h w =
    if k.revived
    then record { ret = err eexist; sys_host_id = (w.ctrl h).sys_host_no; acts = []; world = w }
    else register_fails enodev [] info w

abbrev pub register_at : Mem → Kernel → HostInfo → Option ℕ → World → Registered
register_at mem k info (some h) w = register_known k info h w
register_at mem k info none w = register_new mem k info k.address w

-- `vsc_register_host`.
unfoldable pub register_host : Mem → Kernel → HostInfo → World → Registered
unfolding register_new check_host_info
register_host mem k info w =
    if is_err (check_host_info info)
    then register_fails einval [] info w
    else register_at mem k info (get_ctlr_by_host w.mgr_list info.host) w

-- What `vsc_do_remove_host` gives back, in order. The manager of the vbs stays.
abbrev pub removal : List Act
removal = proc_remove ∷ host_remove ∷ ctrl_destroy ∷ host_put ∷ []

-- `vsc_remove_host` of a control block: the host is emptied and everything of it given back. Nothing
-- is done to the registry or to the file that has attached.
unfoldable pub remove_host : Ctrl → Ret × Ctrl
unfolding do_remove_host
remove_host c = (ok 0, record (set_host c (do_remove_host c.session.host)) { freed = true })

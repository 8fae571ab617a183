-- ===== src/Hosts/Tests.antt =====
-- Runs of the registry of vsc_main.c at concrete inputs.
use vsc.Base.{ℕ, ◌≡◌, ◌⊎◌, refl, [], ◌∷◌, true, some, none, arith}
use vsc.Cmds.{ScsiCmnd, Cmd, init}
use vsc.Cmds.Account.History.{init_cmds, init_cmds-Inv}
use vsc.Hosts.{HostMgr, new_mgr, put_host, add_host_to_mgr, get_ctlr_by_host}
use vsc.Hosts.Lookup.{AddOutcome, add_outcome}
use vsc.Hosts.Queue.{queue_command, Hba, taken, busy}
use vsc.Hosts.Fair.{Dense, queue_command_served}
use vsc.Hosts.Outcome.{QueueOutcome, queue_command_lem}

-- What a pool holds before it is used.
abbrev memory : ℕ → Cmd
memory i = record { cmd_index = 0; stat = init; scsi_cmd = none; cmd_sn = 0; refcnt = 0 }

-- Host 0x500: vbs 5, index 0; and host 0x501 beside it.
abbrev one_mgr : HostMgr
one_mgr = new_mgr 5 0 40

abbrev two_hosts : HostMgr
two_hosts = record { vbs_id = 5; host_count = 2; host_list = put_host one_mgr.host_list 1 41 }

second_found :
    (elim (add_host_to_mgr true (one_mgr ∷ []) 41 0x501) [
      | none ↦ none
      | some ms ↦ get_ctlr_by_host ms 0x501
    ])
    ≡ some 41
unfolding add_host_to_mgr get_ctlr_by_host
second_found = refl

add_outcome_example :
    AddOutcome true (one_mgr ∷ []) 41 0x501 (add_host_to_mgr true (one_mgr ∷ []) 41 0x501)
add_outcome_example = add_outcome true (one_mgr ∷ []) 41 0x501

two_hosts-Dense : Dense two_hosts
two_hosts-Dense = (omega arith, omega arith, (refl, (refl, tt)))

abbrev hba : Hba
hba = record {
  hosts = λ h. init_cmds memory 2;
  volume = record { state = 0; extend = 6 };
  finished_here = [];
}

abbrev read_10 : ScsiCmnd
read_10 = record { ident = 1; cmnd = 0x28 ∷ []; channel = 0; id = 0; lun = 0; direction = 2 }

queue_command_lem_example : QueueOutcome 4 2 (some two_hosts) 40 hba read_10
queue_command_lem_example =
    queue_command_lem 4 2 (some two_hosts) 40 hba read_10 (λ k. init_cmds-Inv memory 2)

queue_command_served_example :
    ((queue_command 4 2 (some two_hosts) 40 hba read_10).0 ≡ taken)
    ⊎ ((queue_command 4 2 (some two_hosts) 40 hba read_10).0 ≡ busy)
queue_command_served_example =
    queue_command_served 4 2 two_hosts 40 hba read_10 two_hosts-Dense (omega arith) refl

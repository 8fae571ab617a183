-- ===== src/Ioctl/Tests.antt =====
-- Runs of the control device at concrete inputs.
use vsc.Base.{ℕ, ◌≡◌, refl, [], ◌∷◌, false, none, some, ◌==◌, if◌then◌else◌}
use vsc.Codes.{ok}
use vsc.Hosts.{HostMgr, get_ctlr_by_host, add_host_to_mgr}
use vsc.Control.{Host, attach}
use vsc.Control.Machine.{interrupts}
use vsc.Ioctl.{attach_host, dev_ioctl}
use vsc.Ioctl.State.{World, set_ctrl, set_host}
use vsc.Ioctl.Register.{ctrl_init_as, register_host}
use vsc.Ioctl.Hosts.{dev_rmv_host}
use vsc.Ioctl.Files.{dev_attach_host}
use vsc.Ioctl.Attachment.Reach.{Calls, none_yet, then_call, commands, machine, held_by_one}
use vsc.Ioctl.Sweep.{remove_entries, remove_all_host, SweepOutcome, remove_all_host_lem}
use vsc.Ioctl.Unwind.{RegisterOutcome, register_host_lem, Leftover, rmv_host-Leftover}
use vsc.Ioctl.Samples.{
  whole, layout, six, zeros, grants, host_513, admitted, empty_world, with_513, around,
}

lists_513 : get_ctlr_by_host with_513.mgr_list 513 ≡ some 4096
unfolding register_host get_ctlr_by_host add_host_to_mgr
lists_513 = refl

registers : (register_host zeros grants host_513 empty_world).ret ≡ ok 0
unfolding register_host get_ctlr_by_host
registers = refl

register_host_lem_example :
    RegisterOutcome zeros grants host_513 empty_world
      (register_host zeros grants host_513 empty_world)
register_host_lem_example = register_host_lem zeros grants host_513 empty_world

rmv_host-Leftover_example :
    ((dev_rmv_host admitted 513 with_513).0 ≡ ok 0)
    × Leftover admitted 513 4096 with_513 (dev_rmv_host admitted 513 with_513).1
rmv_host-Leftover_example =
    rmv_host-Leftover admitted 513 4096 with_513 (refl, refl, refl) lists_513

-- File 7 attaches host 513.
abbrev attached_by_7 : World
attached_by_7 = (dev_ioctl around admitted 7 (attach_host 513) with_513).1

no_holder : (f : ℕ) → (with_513.file f).private_data ≡ none
unfolding register_host get_ctlr_by_host
no_holder f = refl

attaches_513 : (attached_by_7.file 7).private_data ≡ some 4096
unfolding dev_ioctl dev_attach_host attach register_host get_ctlr_by_host add_host_to_mgr
attaches_513 = refl

one_call : Calls whole layout six with_513 attached_by_7
one_call =
    then_call none_yet
      (commands around admitted 7 (attach_host 513) refl (λ h f e held. cc (no_holder f, held)))

-- Then a reader of the host is interrupted.
abbrev woken_host : Host
woken_host = record (attached_by_7.ctrl 4096).session.host { wakeup_pid = 1 }

abbrev woken : World
woken = set_ctrl attached_by_7 4096 (set_host (attached_by_7.ctrl 4096) woken_host)

held_by_one_example : ((woken.ctrl 4096).session.host.file ≡ some 7) × (◌≡◌ {A = ℕ} 7 7)
held_by_one_example =
    held_by_one whole layout six no_holder
      (then_call one_call (machine 513 4096 {k = woken_host} (interrupts 1) refl)) 7 7 4096
      attaches_513 attaches_513

-- Host 1 of a vbs with one host: its entry is not below the count.
abbrev sparse : HostMgr
sparse = record { vbs_id = 2; host_count = 1; host_list = λ i. if i == 1 then some 4096 else none }

remove_all_host_lem_example :
    SweepOutcome (sparse ∷ []) (λ h. ctrl_init_as zeros grants host_513) 4096
remove_all_host_lem_example =
    remove_all_host_lem (sparse ∷ []) (λ h. ctrl_init_as zeros grants host_513) 4096

stays_there :
    ((remove_all_host (sparse ∷ []) (λ h. ctrl_init_as zeros grants host_513)).0 4096).freed ≡ false
unfolding remove_all_host remove_entries ctrl_init_as
stays_there = refl

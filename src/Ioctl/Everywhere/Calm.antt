-- ===== src/Ioctl/Everywhere/Calm.antt =====
-- vsc_main.c, vsc_ioctl.c: the operations on a host keep it in order, and so does the sweep.

use vsc.Base.{
  ℕ, zero, suc, inl, inr, refl, List, [], ◌∷◌, Option, none, some, ltb, ◌==◌, Bool-cases,
}
use vsc.Hosts.{HostMgr, max_host_nr_per_vbs}
use vsc.Cmds.Account.History.{init_cmds-Inv}
use vsc.Control.{Host, resume_host, do_remove_host}
use vsc.Control.Attach.{Calm, abort-Emptied}
use vsc.Control.Machine.{
  Step, here, then_step, attaches, detaches, suspends, resumes, sets_time, Steps-Calm,
}
use vsc.Xfer.{Mem}
use vsc.Control.Limits.{HostInfo}
use vsc.Ioctl.State.{Ctrl}
use vsc.Ioctl.Register.{Kernel, ctrl_init_as, remove_host}
use vsc.Ioctl.Sweep.{remove_all_host, remove_entries, remove_entry}
use vsc.Ioctl.Hosts.{set_tg_abn_timeout}
use vsc.Ioctl.Everywhere.{Stable}

-- The host of a control block is calm.
abbrev pub HostCalm : Ctrl → Type 0
HostCalm c = Calm c.session.host

removed-Calm : (h : Host) → Calm h → Calm (do_remove_host h)
unfolding do_remove_host resume_host
removed-Calm h c = record {
  queues = (abort-Emptied h.cmds c.queues).valid;
  unlocked = c.unlocked;
  no_timer = inl refl;
}

pub made-Calm : (mem : Mem) (k : Kernel) (info : HostInfo) → HostCalm (ctrl_init_as mem k info)
unfolding ctrl_init_as
made-Calm mem k info = record {
  queues = init_cmds-Inv k.cmd_memory info.max_nr_cmds;
  unlocked = refl;
  no_timer = inl refl;
}

module _ (size : List ℕ → ℕ) where
  -- One step of the machine of a host.
  by-Step : (h : Host) {k : Host} → Step size 0 h k → Calm h → Calm k
  by-Step h s = Steps-Calm size 0 (then_step here s)

  pub HostCalm-Stable : Stable HostCalm
  unfolding set_tg_abn_timeout remove_host
  HostCalm-Stable = record {
    attached = λ f c. by-Step c.session.host (attaches (some f));
    detached = λ t c. by-Step c.session.host (detaches t);
    suspended = λ c. by-Step c.session.host suspends;
    resumed = λ c. by-Step c.session.host resumes;
    timed = λ n c. by-Step c.session.host (sets_time n);
    disks = λ ds c p. p;
    made = made-Calm;
    removed = λ c. removed-Calm c.session.host;
  }

entry-Calm :
    (o : Option ℕ) (c : ℕ → Ctrl)
    → ((h : ℕ) → HostCalm (c h))
    → (h : ℕ) → HostCalm (remove_entry o c h)
unfolding remove_host
entry-Calm none c all h = all h
entry-Calm (some k) c all h = elim (Bool-cases (k == h)) [
  | inl same ↦ rw same (removed-Calm (c k).session.host (all k))
  | inr apart ↦ rw apart (all h)
]

entries-Calm :
    (n i : ℕ) (hosts : ℕ → Option ℕ) (c : ℕ → Ctrl)
    → ((h : ℕ) → HostCalm (c h))
    → (h : ℕ) → HostCalm (remove_entries n i hosts c h)
unfolding remove_entries
entries-Calm zero i hosts c all h = all h
entries-Calm (suc n) i hosts c all h =
    entries-Calm n (suc i) hosts (remove_entry (hosts i) c) (entry-Calm (hosts i) c all) h

pub sweep-Calm :
    (ms : List HostMgr) (c : ℕ → Ctrl)
    → ((h : ℕ) → HostCalm (c h))
    → (h : ℕ) → HostCalm ((remove_all_host ms c).0 h)
unfolding remove_all_host
sweep-Calm [] c all h = all h
sweep-Calm (m ∷ ms) c all h = elim (Bool-cases (ltb max_host_nr_per_vbs m.host_count)) [
  | inl over ↦ rw over (sweep-Calm ms c all h)
  | inr fits ↦ rw fits (sweep-Calm ms _ (entries-Calm m.host_count 0 m.host_list c all) h)
]

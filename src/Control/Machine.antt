-- ===== src/Control/Machine.antt =====
-- The control of a host of vsc_main.c as a state machine. Each call is a step as a whole: nothing
-- stands between the two parts of a detach that the source makes under the lock and without it, and
-- of the error handlers there is the abort of a command that nothing overlaps.
use vsc.Base.{ℕ, ◌≡◌, List, [], ◌∷◌, Bool, Option, none, some}
use vsc.Cmds.Account.History.{CmdOp, step, run-Inv}
use vsc.Events.{Events}
use vsc.Control.{Host, suspend_host, resume_host, attach, detach, target_abnormal}
use vsc.Control.Attach.{Calm, attach-Calm, detach-Calm, abandon-Calm}

-- One call on a host, or its timer running out, which needs a timer. `moves` is a call on its queues;
-- `happens` is any change of its events.
pub data Step (size : List ℕ → ℕ) (host_no : ℕ) (h : Host) : Host → Type 0 where
  attaches : (f : Option ℕ) → Step size host_no h (attach f h).1
  detaches : (t : Bool) → Step size host_no h (detach t h).1
  suspends : Step size host_no h (suspend_host h)
  resumes : Step size host_no h (resume_host h)
  sets_time : (n : ℕ) → Step size host_no h (record h { target_abnormal_time = n })
  gives_up :
      (n : ℕ)
      → h.target_abnormal_timer ≡ some n
      → Step size host_no h (target_abnormal (record h { target_abnormal_timer = none }))
  moves : (o : CmdOp) → Step size host_no h (record h { cmds = step size host_no o h.cmds })
  happens : (s : Events) → Step size host_no h (record h { events = s })
  interrupts : (n : ℕ) → Step size host_no h (record h { wakeup_pid = n })

pub data Steps (size : List ℕ → ℕ) (host_no : ℕ) (h : Host) : Host → Type 0 where
  here : Steps size host_no h h
  then_step : {g k : Host} → Steps size host_no h g → Step size host_no g k → Steps size host_no h k

module _ (size : List ℕ → ℕ) (host_no : ℕ) where
  Step-Calm : {h k : Host} → Step size host_no h k → Calm h → Calm k
  unfolding suspend_host resume_host
  Step-Calm {h} (attaches f) c = attach-Calm f h c
  Step-Calm {h} (detaches t) c = detach-Calm t h c
  Step-Calm suspends c = record { queues = c.queues; unlocked = c.unlocked; no_timer = c.no_timer }
  Step-Calm resumes c = record { queues = c.queues; unlocked = c.unlocked; no_timer = c.no_timer }
  Step-Calm (sets_time n) c = record {
    queues = c.queues;
    unlocked = c.unlocked;
    no_timer = c.no_timer;
  }
  Step-Calm {h} (gives_up n e) c = abandon-Calm h c
  Step-Calm {h} (moves o) c = record {
    queues = run-Inv size host_no (o ∷ []) h.cmds c.queues;
    unlocked = c.unlocked;
    no_timer = c.no_timer;
  }
  Step-Calm (happens s) c = record {
    queues = c.queues;
    unlocked = c.unlocked;
    no_timer = c.no_timer;
  }
  Step-Calm (interrupts n) c = record {
    queues = c.queues;
    unlocked = c.unlocked;
    no_timer = c.no_timer;
  }

  pub Steps-trans :
      {h k l : Host} → Steps size host_no h k → Steps size host_no k l → Steps size host_no h l
  Steps-trans r here = r
  Steps-trans r (then_step q s) = then_step (Steps-trans r q) s

  -- Through any sequence of such steps, the queues stay in order,
  -- no lock stays taken, and no timer runs while the host is attached: the commands of an attached
  -- host are never dropped because a target process was gone.
  pub Steps-Calm : {h k : Host} → Steps size host_no h k → Calm h → Calm k
  Steps-Calm here c = c
  Steps-Calm (then_step r s) c = Step-Calm s (Steps-Calm r c)

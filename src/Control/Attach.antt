-- ===== src/Control/Attach.antt =====
-- vsc_main.c: what an attach, a detach and the timer of a host come to.
use vsc.Base.{
  ℕ, ◌≡◌, ◌≢◌, ◌⊎◌, inl, inr, refl, [], Bool, true, false, ◌&&◌, Option, none, some, ◌==◌, ==_iff,
  ltb, if◌then◌else◌, arith, Bool-cases, ◌∙◌,
}
use vsc.Codes.{Ret, ok, err, efault, ebusy, eagain, eperm, did_requeue, did_soft_error}
use vsc.Cmds.{Cmds}
use vsc.Cmds.Drain.{abort_all_cmd, requeue_all_cmd, abort_cmd_callback, requeue_cmd_callback}
use vsc.Cmds.Inv.{Inv}
use vsc.Cmds.Inv.Drain.{Emptied, each_queue_remove-Emptied}
use vsc.Events.Abort.{abort_all_event_empty}
use vsc.Control.{
  Host, resume_host, with_lock, take_over, give_up, let_go, is_free, attach, detach,
  target_abnormal,
}

-- The queues are in order, no call is under way, and no timer runs on an attached host.
pub record Calm (h : Host) : Type 0 where
  pub queues : Inv h.cmds
  pub unlocked : h.target_abnormal_lock ≡ 0
  pub no_timer : (h.file ≡ none) ⊎ (h.target_abnormal_timer ≡ none)

-- Emptying the queues, as the two operations do it.
pub abort-Emptied : (q : Cmds) → Inv q → Emptied did_soft_error q (abort_all_cmd q)
unfolding abort_all_cmd abort_cmd_callback
abort-Emptied q v = each_queue_remove-Emptied did_soft_error q v

pub requeue-Emptied : (q : Cmds) → Inv q → Emptied did_requeue q (requeue_all_cmd q)
unfolding requeue_all_cmd requeue_cmd_callback
requeue-Emptied q v = each_queue_remove-Emptied did_requeue q v

-- A host that has been detached.
pub record Detached (t : Bool) (h d : Host) : Type 0 where
  pub free : d.file ≡ none
  pub held_back : d.blocked ≡ true
  pub handed_back : Emptied did_requeue h.cmds d.cmds
  pub no_req : d.events.event_req_q ≡ []
  pub no_rsp : d.events.event_rsp_q ≡ []
  pub suspended : d.suspend ≡ (if t then 1 else h.suspend)
  pub timer : d.target_abnormal_timer ≡ (
      if t && ltb 0 h.target_abnormal_time
      then some h.target_abnormal_time
      else h.target_abnormal_timer)
  pub unlocked : d.target_abnormal_lock ≡ h.target_abnormal_lock

-- What a detach comes to.
abbrev pub DetachOutcome : Bool → Host → Type 0
DetachOutcome t h =
    ((h.file ≡ none) × (detach t h ≡ (err eperm, h)))
    ⊎ ((h.file ≢ none) × ((detach t h).0 ≡ ok 0) × Detached t h (detach t h).1)

let_go-Detached : (t : Bool) (h : Host) → Inv h.cmds → Detached t h (let_go t h)
unfolding let_go
let_go-Detached t h v =
    let e = requeue-Emptied h.cmds v in
    let none_left = abort_all_event_empty h.events in
    elim (Bool-cases t) [
      | inl y ↦ elim (Bool-cases (ltb 0 h.target_abnormal_time)) [
        | inl z ↦
            rw (y, z)
              (record {
                free = refl;
                held_back = refl;
                handed_back = e;
                no_req = none_left.0;
                no_rsp = none_left.1;
                suspended = refl;
                timer = rw z refl;
                unlocked = refl;
              })
        | inr z ↦
            rw (y, z)
              (record {
                free = refl;
                held_back = refl;
                handed_back = e;
                no_req = none_left.0;
                no_rsp = none_left.1;
                suspended = refl;
                timer = rw z refl;
                unlocked = refl;
              })
      ]
      | inr y ↦ rw y (record {
        free = refl;
        held_back = refl;
        handed_back = e;
        no_req = none_left.0;
        no_rsp = none_left.1;
        suspended = refl;
        timer = refl;
        unlocked = refl;
      })
    ]

pub free_cases :
    (o : Option ℕ) → ((o ≡ none) × (is_free o ≡ true)) ⊎ ((o ≢ none) × (is_free o ≡ false))
free_cases none = inl (refl, refl)
free_cases (some f) = inr (λ e. cc e, refl)

-- From queues in order, a host that is not attached cannot be detached (`EPERM`). Otherwise it is
-- detached and blocked, all its commands are handed back to be queued again, its events are
-- dropped, and if the target process is gone the host is suspended and its timer is started,
-- unless its time is 0.
pub detach_lem : (t : Bool) (h : Host) → Inv h.cmds → DetachOutcome t h
unfolding detach
detach_lem t h v = elim (free_cases h.file) [
  | inl (n, free) ↦ inl (n, rw free refl)
  | inr (n, held) ↦ rw held (inr (n, refl, let_go-Detached t h v))
]

with_lock_calm :
    (held : Ret) (body : Host → Host) (h : Host)
    → h.target_abnormal_lock ≡ 0
    → with_lock held body h ≡ (ok 0, body (record h { target_abnormal_lock = 1 }))
unfolding with_lock
with_lock_calm held body h e = rw e refl

take_over-Calm :
    (f : ℕ) (h : Host) → Calm h → Calm (take_over f (record h { target_abnormal_lock = 1 }))
unfolding take_over resume_host
take_over-Calm f h c = elim (Bool-cases (h.suspend == 0)) [
  | inl e ↦ rw e (record { queues = c.queues; unlocked = omega arith; no_timer = inr refl })
  | inr e ↦ rw e (record { queues = c.queues; unlocked = omega arith; no_timer = inr refl })
]

pub attach-Calm : (f : Option ℕ) (h : Host) → Calm h → Calm (attach f h).1
unfolding attach
attach-Calm none h c = c
attach-Calm (some f) h c = elim (Bool-cases (is_free h.file)) [
  | inl e ↦ rw (e, with_lock_calm (err eagain) (take_over f) h c.unlocked) (take_over-Calm f h c)
  | inr e ↦ rw e c
]

-- What an attach comes to.
abbrev pub AttachOutcome : Option ℕ → Host → Type 0
AttachOutcome f h =
    ((f ≡ none) × (attach f h ≡ (err efault, h)))
    ⊎ ((f ≢ none) × (h.file ≢ none) × (attach f h ≡ (err ebusy, h)))
    ⊎ ((f ≢ none)
        × (h.file ≡ none)
        × (attach f h ≡ (
          ok 0,
          record h {
            file = f;
            target_abnormal_timer = none;
            blocked = if h.suspend == 0 then false else h.blocked;
          },
        )))

take_over_lem :
    (f : ℕ) (h : Host)
    → h.target_abnormal_lock ≡ 0
    → take_over f (record h { target_abnormal_lock = 1 }) ≡ record h {
      file = some f;
      target_abnormal_timer = none;
      blocked = if h.suspend == 0 then false else h.blocked;
    }
unfolding take_over resume_host
take_over_lem f h e = elim (Bool-cases (h.suspend == 0)) [
  | inl z ↦ rw z (ground (arith, e, (==_iff h.suspend 0).0 z))
  | inr z ↦ rw z (ground (arith, e))
]

-- An attach without a file fails with `EFAULT`, one of a host that has a file with `EBUSY`, and
-- neither changes anything. Otherwise, if no other call holds the lock, the host has the file, its
-- timer is stopped, and requests flow again unless the host is suspended.
attach_lem : (f : Option ℕ) (h : Host) → h.target_abnormal_lock ≡ 0 → AttachOutcome f h
unfolding attach
attach_lem none h e = inl (refl, refl)
attach_lem (some f) h e = elim (free_cases h.file) [
  | inl (n, free) ↦ inr (
      inr (
        (λ k. cc k),
        n,
        rw (free, with_lock_calm (err eagain) (take_over f) h e, take_over_lem f h e) refl,
      ))
  | inr (n, held) ↦ inr (inl ((λ k. cc k), n, rw held refl))
]

pub abandon-Calm :
    (h : Host) → Calm h → Calm (target_abnormal (record h { target_abnormal_timer = none }))
unfolding target_abnormal give_up resume_host
abandon-Calm h c =
    rw
      (
        target_abnormal,
        with_lock_calm (ok 0) give_up (record h { target_abnormal_timer = none }) c.unlocked,
      )
      (record {
        queues = (abort-Emptied h.cmds c.queues).valid;
        unlocked = omega arith;
        no_timer = inr refl;
      })

pub detach-Calm : (t : Bool) (h : Host) → Calm h → Calm (detach t h).1
detach-Calm t h c = elim (detach_lem t h c.queues) [
  | inl (n, e) ↦ rw e c
  | inr (n, r, d) ↦ record {
    queues = d.handed_back.valid;
    unlocked = d.unlocked ∙ c.unlocked;
    no_timer = inl d.free;
  }
]

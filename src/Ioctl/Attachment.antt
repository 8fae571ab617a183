-- ===== src/Ioctl/Attachment.antt =====
-- vsc_ioctl.c: a file and the host that it has attached name each other.
pub mod Commands
pub mod Reach
use vsc.Base.{
  ℕ, ◌≡◌, ◌⊎◌, inl, inr, refl, List, Bool, true, false, not, Option, none, some, ◌==◌, ==_iff, ltb,
  if◌then◌else◌, arith, Bool-cases, ◌∙◌, inc32, update,
}
use vsc.Codes.{Ret, ok, err, oops, Errno, eagain, ebusy}
use vsc.Hosts.{get_ctlr_by_host}
use vsc.Control.{
  Host, attach, detach, suspend_host, resume_host, is_free, with_lock, take_over, let_go,
}
use vsc.Control.Attach.{free_cases}
use vsc.Ioctl.Keeps.{handler-keeps, at_file-keeps}
use vsc.Ioctl.Files.{at_file}
use vsc.Ioctl.State.{
  Ctrl, World, Request, set_ctrl, set_file, set_host, admit, at_host, with_host, on_ctrl,
}
use vsc.Ioctl.Files.{
  dev_attach_host, dev_detach_host, dev_release, dev_suspend_host, dev_resume_host, let_host_go,
  on_file, take_host,
}

-- The host that an open file holds has that file for its owner.
unfoldable pub Linked : World → Type 0
Linked w = (f h : ℕ) → (w.file f).private_data ≡ some h → (w.ctrl h).session.host.file ≡ some f

-- What an attempt to attach does to the owner of a host.
abbrev pub OwnerAfter : ℕ → Host → Ret × Host → Type 0
OwnerAfter f h out =
    ((h.file ≡ none) × (k : Host) × (out ≡ (ok 0, k)) × (k.file ≡ some f))
    ⊎ ((e : Errno) × (k : Host) × (out ≡ (err e, k)) × (k.file ≡ h.file))

taken_owner : (f : ℕ) (h : Host) → (take_over f h).file ≡ some f
unfolding take_over resume_host
taken_owner f h = elim (Bool-cases (h.suspend == 0)) [ inl e ↦ rw e refl | inr e ↦ rw e refl ]

pub attach_owner : (f : ℕ) (h : Host) → OwnerAfter f h (attach (some f) h)
unfolding attach with_lock
attach_owner f h = elim (free_cases h.file) [
  | inl (free, e) ↦ elim (Bool-cases (ltb 1 (inc32 h.target_abnormal_lock))) [
    | inl busy ↦ rw (e, busy) (inr (eagain, _, refl, refl))
    | inr won ↦
        rw (e, won)
          (let locked = record h { target_abnormal_lock = inc32 h.target_abnormal_lock } in
            inl (free, take_over f locked, refl, taken_owner f locked))
  ]
  | inr (held, e) ↦ rw e (inr (ebusy, h, refl, refl))
]

-- A change of a host that leaves its owner alone.
pub owner_kept :
    (w : World) (h : ℕ) (c : Ctrl)
    → c.session.host.file ≡ (w.ctrl h).session.host.file
    → Linked w
    → Linked (set_ctrl w h c)
unfolding Linked
owner_kept w h c e linked f g held = elim (Bool-cases (h == g)) [
  | inl same ↦ let eq = (==_iff h g).0 same in rw same (cc (e, eq, linked f g held))
  | inr apart ↦ rw apart (linked f g held)
]

-- A file takes a host that was free.
pub taken-Linked :
    (w : World) (f h : ℕ) (k : Host)
    → (w.ctrl h).session.host.file ≡ none
    → k.file ≡ some f
    → Linked w
    → Linked (set_file (set_ctrl w h (set_host (w.ctrl h) k)) f (some h))
unfolding Linked
taken-Linked w f h k free own linked g i =
    let l = linked g i in
    elim (Bool-cases (h == i)) [
      | inl at_h ↦
          let eq = (==_iff h i).0 at_h in
          elim (Bool-cases (f == g)) [
            | inl same ↦ rw (at_h, same) (λ held. cc (own, (==_iff f g).0 same))
            | inr other ↦ rw (at_h, other) (λ held. cc (l held, free, eq))
          ]
      | inr apart ↦ elim (Bool-cases (f == g)) [
        | inl same ↦
            rw (apart, same)
              (λ held. let met : h == i ≡ true = (==_iff h i).1 (cc held) in cc (met, apart))
        | inr other ↦ rw (apart, other) l
      ]
    ]

-- A file lets its host go.
pub let_go-Linked :
    (w : World) (f h : ℕ) (k : Host)
    → (w.file f).private_data ≡ some h
    → Linked w
    → Linked (set_ctrl (set_file w f none) h (set_host (w.ctrl h) k))
unfolding Linked
let_go-Linked w f h k mine linked g i =
    let l = linked g i in
    let own = linked f h mine in
    elim (Bool-cases (f == g)) [
      | inl same ↦ rw same (λ held. cc held)
      | inr other ↦ elim (Bool-cases (h == i)) [
        | inl at_h ↦
            rw (other, at_h)
              (λ held.
                let met : f == g ≡ true = (==_iff f g).1 (cc (own, l held, (==_iff h i).0 at_h)) in
                cc (met, other))
        | inr apart ↦ rw (other, apart) l
      ]
    ]

-- An operation on one control block that leaves the owner alone.
abbrev KeepsOwner : (Ctrl → Ret × Ctrl) → Type 0
KeepsOwner op = (c : Ctrl) → (op c).1.session.host.file ≡ c.session.host.file

pub on_ctrl-Linked :
    (op : Ctrl → Ret × Ctrl) (h : ℕ) (w : World)
    → KeepsOwner op
    → Linked w
    → Linked (on_ctrl op h w).1
unfolding on_ctrl
on_ctrl-Linked op h w keeps = owner_kept w h (op (w.ctrl h)).1 (keeps (w.ctrl h))

-- The handlers of most commands.
pub handler-Linked :
    (r : Request) (n : ℕ) (op : Ctrl → Ret × Ctrl) (w : World)
    → KeepsOwner op
    → Linked w
    → Linked (admit r (with_host n (on_ctrl op)) w).1
handler-Linked r n op w keeps linked =
    handler-keeps Linked r n (on_ctrl op) w (λ h. on_ctrl-Linked op h w keeps linked) linked

-- The commands on the host that a file holds.
pub at_file-Linked :
    (missing : Ret) (op : Ctrl → Ret × Ctrl) (o : Option ℕ) (w : World)
    → KeepsOwner op
    → Linked w
    → Linked (at_file missing (on_ctrl op) o w).1
at_file-Linked missing op o w keeps linked =
    at_file-keeps Linked missing (on_ctrl op) o w (λ h. on_ctrl-Linked op h w keeps linked) linked

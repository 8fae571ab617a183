-- ===== src/Ioctl/Keeps.antt =====
-- vsc_ioctl.c: a property of the state that the parts of a handler keep is kept by the handler.
use vsc.Base.{
  ℕ, ◌≡◌, inl, inr, subst, List, Bool, true, false, not, Option, none, some, if◌then◌else◌,
  Option-cases,
}
use vsc.Codes.{Ret}
use vsc.Hosts.{get_ctlr_by_host}
use vsc.Xfer.{Mmu}
use vsc.Xfer.Batch.{Layout}
use vsc.Dispatch.{Session, Delivery, ReadCall, get_msg}
use vsc.Ioctl.State.{World, Request, set_ctrl, admit, at_host, with_host}
use vsc.Ioctl.Register.{Registered}
use vsc.Ioctl.Files.{at_file, dev_read}

module _ (P : World → Type 0) where
  pub if-keeps : (b : Bool) (x y : Ret × World) → P x.1 → P y.1 → P (if b then x else y).1
  if-keeps true x y l m = l
  if-keeps false x y l m = m

  pub if_world-keeps :
      (b : Bool) (x y : Registered) → P x.world → P y.world → P (if b then x else y).world
  if_world-keeps true x y l m = l
  if_world-keeps false x y l m = m

  pub admit-keeps :
      (r : Request) (body : World → Ret × World) (w : World)
      → P w
      → P (body w).1
      → P (admit r body w).1
  unfolding admit
  admit-keeps r body w before after =
      if-keeps (not r.p_user) _ _ before
        (if-keeps (not r.capable) _ _ before (if-keeps (not r.readable) _ _ before after))

  pub at_host-keeps :
      (op : ℕ → World → Ret × World) (o : Option ℕ) (w : World)
      → ((h : ℕ) → P (op h w).1)
      → P w
      → P (at_host op o w).1
  at_host-keeps op none w each before = before
  at_host-keeps op (some h) w each before = each h

  pub at_file-keeps :
      (missing : Ret) (op : ℕ → World → Ret × World) (o : Option ℕ) (w : World)
      → ((h : ℕ) → P (op h w).1)
      → P w
      → P (at_file missing op o w).1
  at_file-keeps missing op none w each before = before
  at_file-keeps missing op (some h) w each before = each h

  -- The handlers of most commands.
  pub handler-keeps :
      (r : Request) (n : ℕ) (op : ℕ → World → Ret × World) (w : World)
      → ((h : ℕ) → P (op h w).1)
      → P w
      → P (admit r (with_host n op) w).1
  unfolding with_host
  handler-keeps r n op w each before =
      admit-keeps r (with_host n op) w before
        (at_host-keeps op (get_ctlr_by_host w.mgr_list n) w each before)

  -- What a read leaves, if it returns.
  abbrev Leaves : Option (Ret × Delivery × World) → Type 0
  Leaves none = Unit
  Leaves (some o) = P o.2

  module _ (mmu : Mmu) (layout : Layout) (size : List ℕ → ℕ) (n : ℕ) where
    read-Leaves :
        (c : ReadCall) (f : ℕ) (w : World)
        → ((h : ℕ) (o : Ret × Delivery × Session)
            → get_msg mmu layout size n c (w.ctrl h).session ≡ some o
            → P (set_ctrl w h (record (w.ctrl h) { session = o.2 })))
        → P w
        → Leaves (dev_read mmu layout size n c f w)
    unfolding dev_read
    read-Leaves c f w each before = elim (Option-cases (w.file f).private_data) [
      | inl e ↦ rw (e, Leaves) before
      | inr (h, e) ↦ elim (Option-cases (get_msg mmu layout size n c (w.ctrl h).session)) [
        | inl q ↦ rw (e, q, Leaves) tt
        | inr (o, q) ↦ rw (e, q, Leaves) (each h o q)
      ]
    ]

    -- A read of a file that returns.
    pub read-keeps :
        (c : ReadCall) (f : ℕ) (w : World) {o : Ret × Delivery × World}
        → ((h : ℕ) (a : Ret × Delivery × Session)
            → get_msg mmu layout size n c (w.ctrl h).session ≡ some a
            → P (set_ctrl w h (record (w.ctrl h) { session = a.2 })))
        → P w
        → dev_read mmu layout size n c f w ≡ some o
        → P o.2
    read-keeps c f w each before e = subst Leaves e (read-Leaves c f w each before)

-- ===== src/Ioctl/Unwind.antt =====
-- vsc_main.c: what a registration takes from the kernel and gives back, and what a removal leaves.
use vsc.Base.{
  ℕ, ◌≡◌, ◌⊎◌, inl, inr, refl, List, [], ◌∷◌, ◌++◌, Bool, true, false, not, Option, none, some, ◌≤◌,
  if◌then◌else◌, Bool-cases, ==_refl, leb, arith, ◌<◌, Option-cases,
}
use vsc.Codes.{Errno, ok, err, is_err, einval, eexist, enodev}
use vsc.Hosts.{
  HostMgr, get_ctlr_by_host, max_host_nr_per_vbs, get_host_index_in_vbs, get_vbs_id_by_host_id,
  find_mgr,
}
use vsc.Hosts.Lookup.{AddOutcome, NoRoom, same_entry, add_outcome}
use vsc.Cmds.Inv.{is_some}
use vsc.Control.{do_remove_host, resume_host}
use vsc.Control.Limits.{HostInfo, check_host_info}
use vsc.Xfer.{Mem}
use vsc.Ioctl.State.{World, Request, set_ctrl, admit, with_host, on_ctrl}
use vsc.Ioctl.Memory.{ctrl_init_memory}
use vsc.Ioctl.Register.{
  Act, host_alloc, ctrl_init, host_add, proc_create, mgr_alloc, mgr_acts, host_remove, proc_remove,
  ctrl_destroy, host_put, Kernel, Registered, ctrl_init_as, registry_after, finish_register,
  after_host_add, register_new, register_at, register_host, removal, remove_host,
}
use vsc.Ioctl.Hosts.{dev_rmv_host}

-- The last thing taken is the first given back; a manager is not in the way.
abbrev pub returns : Act → List Act → Option (List Act)
returns host_put (host_alloc ∷ taken) = some taken
returns ctrl_destroy (ctrl_init ∷ taken) = some taken
returns host_remove (host_add ∷ taken) = some taken
returns proc_remove (proc_create ∷ taken) = some taken
returns a (mgr_alloc ∷ taken) = elim (returns a taken) [
  | none ↦ none
  | some left ↦ some (mgr_alloc ∷ left)
]
returns _ _ = none

-- What is taken after some acts, the last first; `none` if something is given back out of turn.
abbrev pub act : Act → List Act → Option (List Act)
act host_alloc taken = some (host_alloc ∷ taken)
act ctrl_init taken = some (ctrl_init ∷ taken)
act host_add taken = some (host_add ∷ taken)
act proc_create taken = some (proc_create ∷ taken)
act mgr_alloc taken = some (mgr_alloc ∷ taken)
act host_put taken = returns host_put taken
act ctrl_destroy taken = returns ctrl_destroy taken
act host_remove taken = returns host_remove taken
act proc_remove taken = returns proc_remove taken

abbrev pub acts_on : List Act → Option (List Act) → Option (List Act)
acts_on [] taken = taken
acts_on (a ∷ more) none = none
acts_on (a ∷ more) (some taken) = acts_on more (act a taken)

abbrev pub taken_by : List Act → Option (List Act)
taken_by acts = acts_on acts (some [])

-- The registry after a registration: the new host is found under the numbers of its entry, and any
-- other number gives what it gave; or there was no room, and the registry is as it was.
abbrev pub Listing : Bool → List HostMgr → ℕ → ℕ → List HostMgr → Type 0
Listing memory old h id new =
    ((host_no : ℕ)
      → get_ctlr_by_host new host_no
        ≡ (if same_entry host_no id then some h else get_ctlr_by_host old host_no))
    ⊎ ((new ≡ old)
        × ((max_host_nr_per_vbs ≤ get_host_index_in_vbs id)
            ⊎ NoRoom memory (find_mgr old (get_vbs_id_by_host_id id))))

registry_after-Listing :
    (memory : Bool) (old : List HostMgr) (h id : ℕ) (r : Option (List HostMgr))
    → AddOutcome memory old h id r
    → Listing memory old h id (registry_after old r)
registry_after-Listing memory old h id none o = inr (refl, o)
registry_after-Listing memory old h id (some new) o = inl o

-- What is left of the acts of a registration and of a removal: the manager of a vbs that had none.
abbrev pub Kept : Bool → List HostMgr → ℕ → List Act → Type 0
Kept memory old id acts =
    ((find_mgr old (get_vbs_id_by_host_id id) ≡ none)
      × (memory ≡ true)
      × (get_host_index_in_vbs id < max_host_nr_per_vbs)
      × (taken_by acts ≡ some (mgr_alloc ∷ [])))
    ⊎ (((is_some (find_mgr old (get_vbs_id_by_host_id id)) ≡ true)
          ⊎ (memory ≡ false)
          ⊎ (max_host_nr_per_vbs ≤ get_host_index_in_vbs id))
        × (taken_by acts ≡ some []))

mgr_acts-Kept :
    (memory : Bool) (old : List HostMgr) (id : ℕ)
    → Kept memory old id
        (host_alloc ∷ ctrl_init ∷ host_add ∷ proc_create ∷ (mgr_acts memory old id ++ removal))
mgr_acts-Kept memory old id =
    elim (Bool-cases (leb max_host_nr_per_vbs (get_host_index_in_vbs id))) [
      | inl big ↦ rw big (inr (inr (inr (ground arith)), refl))
      | inr small ↦ elim (Option-cases (find_mgr old (get_vbs_id_by_host_id id))) [
        | inr (m, e) ↦ rw (small, e) (inr (inl refl, refl))
        | inl e ↦ elim (Bool-cases memory) [
          | inl f ↦ rw (small, e, f) (inl (refl, refl, ground arith, refl))
          | inr f ↦ rw (small, e, f) (inr (inr (inl refl), refl))
        ]
      ]
    ]

-- What a registration comes to.
abbrev pub RegisterOutcome : Mem → Kernel → HostInfo → World → Registered → Type 0
RegisterOutcome mem k info w g =
    ((e : Errno) × (g.ret ≡ err e) × (g.world ≡ w) × (taken_by g.acts ≡ some []))
    ⊎ ((h : ℕ) × (k.address ≡ some h)
        × (get_ctlr_by_host w.mgr_list info.host ≡ none)
        × (is_err (check_host_info info) ≡ false)
        × (g.ret ≡ ok 0)
        × (g.sys_host_id ≡ k.sys_host_no)
        × (g.world.ctrl h ≡ ctrl_init_as mem k info)
        × Listing k.mgr_memory w.mgr_list h info.host g.world.mgr_list
        × Kept k.mgr_memory w.mgr_list info.host (g.acts ++ removal))

module _ (mem : Mem) (k : Kernel) (info : HostInfo) (w : World) where
  if-RegisterOutcome :
      (b : Bool) (x y : Registered)
      → RegisterOutcome mem k info w x
      → (b ≡ false → RegisterOutcome mem k info w y)
      → RegisterOutcome mem k info w (if b then x else y)
  if-RegisterOutcome true x y l m = l
  if-RegisterOutcome false x y l m = m refl

  -- The part after the checks.
  abbrev IsNew : Type 0
  IsNew = (get_ctlr_by_host w.mgr_list info.host ≡ none) × (is_err (check_host_info info) ≡ false)

  finish-RegisterOutcome :
      (h : ℕ)
      → k.address ≡ some h
      → IsNew
      → RegisterOutcome mem k info w (finish_register mem k info h w)
  unfolding finish_register
  finish-RegisterOutcome h a (new, good) =
      if-RegisterOutcome (not k.proc_file) _ _ (inl (_, refl, refl, refl)) (λ e. inr (
        h,
        a,
        new,
        good,
        refl,
        refl,
        rw (==_refl h) refl,
        registry_after-Listing k.mgr_memory w.mgr_list h info.host _
            (add_outcome k.mgr_memory w.mgr_list h info.host),
        mgr_acts-Kept k.mgr_memory w.mgr_list info.host,
      ))

  added-RegisterOutcome :
      (added : Option Errno) (h : ℕ)
      → k.address ≡ some h
      → IsNew
      → RegisterOutcome mem k info w (after_host_add added mem k info h w)
  added-RegisterOutcome none h a new = finish-RegisterOutcome h a new
  added-RegisterOutcome (some e) h a new = inl (e, refl, refl, refl)

  new-RegisterOutcome :
      (o : Option ℕ)
      → k.address ≡ o
      → IsNew
      → RegisterOutcome mem k info w (register_new mem k info o w)
  unfolding register_new
  new-RegisterOutcome none a new = inl (_, refl, refl, refl)
  new-RegisterOutcome (some h) a new =
      if-RegisterOutcome (not (ctrl_init_memory k.grants info.max_nr_cmds).built) _ _
        (inl (_, refl, refl, refl)) (λ e. added-RegisterOutcome k.added h a new)

  at-RegisterOutcome :
      (o : Option ℕ)
      → get_ctlr_by_host w.mgr_list info.host ≡ o
      → is_err (check_host_info info) ≡ false
      → RegisterOutcome mem k info w (register_at mem k info o w)
  at-RegisterOutcome none e good = new-RegisterOutcome k.address refl (e, good)
  at-RegisterOutcome (some h) e good =
      if-RegisterOutcome k.revived _ _ (inl (eexist, refl, refl, refl))
        (λ r. inl (enodev, refl, refl, refl))

  -- A registration either fails, changes nothing, and has given back everything that it took, the
  -- last first; or it succeeds for a number that was free, and the new control block stands at its
  -- address. The registry then gives the new host for every number with the same vbs and index (the
  -- bits from 24 on are ignored) and what it gave for any other, or is as it was if there was no
  -- room. A removal gives back what the registration took, the last first, but for the manager of
  -- the vbs, which stays if the registration had to make it.
  pub register_host_lem : RegisterOutcome mem k info w (register_host mem k info w)
  unfolding register_host
  register_host_lem =
      if-RegisterOutcome (is_err (check_host_info info)) _ _ (inl (einval, refl, refl, refl))
        (λ good. at-RegisterOutcome (get_ctlr_by_host w.mgr_list info.host) refl good)

-- A request that passes the checks of a handler.
abbrev pub Admitted : Request → Type 0
Admitted r = (r.p_user ≡ true) × (r.capable ≡ true) × (r.readable ≡ true)

removed_at :
    (r : Request) (n h : ℕ) (w : World)
    → Admitted r
    → get_ctlr_by_host w.mgr_list n ≡ some h
    → dev_rmv_host r n w ≡ (ok 0, set_ctrl w h (remove_host (w.ctrl h)).1)
unfolding dev_rmv_host admit with_host on_ctrl remove_host
removed_at r n h w (p, c, d) e = rw (p, c, d, e) refl

known_refused :
    (mem : Mem) (k : Kernel) (info : HostInfo) (h : ℕ) (w : World)
    → get_ctlr_by_host w.mgr_list info.host ≡ some h
    → is_err (register_host mem k info w).ret ≡ true
unfolding register_host
known_refused mem k info h w e = elim (Bool-cases (is_err (check_host_info info))) [
  | inl bad ↦ rw bad refl
  | inr good ↦ elim (Bool-cases k.revived) [
    | inl r ↦ rw (good, e, r) refl
    | inr r ↦ rw (good, e, r) refl
  ]
]

-- What the removal of a host leaves behind.
pub record Leftover (r : Request) (n h : ℕ) (w v : World) : Type 0 where
  pub emptied : (v.ctrl h).session.host.file ≡ none
  pub given_back : (v.ctrl h).freed ≡ true
  pub still_listed : get_ctlr_by_host v.mgr_list n ≡ some h
  pub files : (f : ℕ) → v.file f ≡ w.file f
  pub again : (dev_rmv_host r n v).0 ≡ ok 0
  pub refused :
      (mem : Mem) (k : Kernel) (info : HostInfo)
      → is_err (register_host mem k (record info { host = n }) v).ret ≡ true

-- The removal of a host that the registry has succeeds and gives back its memory, for a request that
-- passes the checks. But the registry still gives the removed host for its number, and no file lets
-- it go: a second removal of the number goes ahead, and every registration of it is refused.
pub rmv_host-Leftover :
    (r : Request) (n h : ℕ) (w : World)
    → Admitted r
    → get_ctlr_by_host w.mgr_list n ≡ some h
    → ((dev_rmv_host r n w).0 ≡ ok 0) × Leftover r n h w (dev_rmv_host r n w).1
unfolding remove_host do_remove_host resume_host
rmv_host-Leftover r n h w a e =
    let v = set_ctrl w h (remove_host (w.ctrl h)).1 in
    let again = removed_at r n h v a e in
    rw (removed_at r n h w a e) (
      refl,
      record {
        emptied = rw (==_refl h) refl;
        given_back = rw (==_refl h) refl;
        still_listed = e;
        files = λ f. refl;
        again = rw again refl;
        refused = λ mem k info. known_refused mem k (record info { host = n }) h v e;
      },
    )

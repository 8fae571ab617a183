-- ===== src/Devices/Laws.antt =====
-- What the operations of vsc_main.c on disks do together.
use vsc.Base.{
  ℕ, zero, suc, ◌≡◌, ◌⊎◌, inl, inr, refl, List, [], ◌∷◌, Bool, true, false, Option, none, some,
  if◌then◌else◌, arith, Bool-cases, Option-cases, ap, sym, ◌∙◌, take,
}
use vsc.Codes.{disk_prepare_delete, Errno, ok, err, enodev, einval}
use vsc.Devices.{
  MidLayer, SdevState, DiskVol, Sdev, is_del, at_address, has_name, find_sdev, change_sdev, admits,
  query_loop, query_vol, max_vol_per_host, pinned, found, device_lookup, device_lookup_by_vol_name,
  set_delete_by_vol_name, set_device_stat, get_device_stat,
}

-- The volumes of the disks that are not deleted.
abbrev pub live_volumes : List Sdev → List DiskVol
live_volumes [] = []
live_volumes (d ∷ ds) =
    if is_del d.sdev_state then live_volumes ds else d.disk_vol ∷ live_volumes ds

query_loop_lem : (n : ℕ) (ds : List Sdev) → query_loop n ds ≡ take n (live_volumes ds)
unfolding query_loop
query_loop_lem zero ds = refl
query_loop_lem (suc n) [] = refl
query_loop_lem (suc n) (d ∷ ds) = elim (Bool-cases (is_del d.sdev_state)) [
  | inl e ↦ rw (e, query_loop) (query_loop_lem (suc n) ds)
  | inr e ↦ rw (e, query_loop) (ap (◌∷◌ d.disk_vol) (query_loop_lem n ds))
]

-- A query gives the volumes of the disks that are not deleted, in order, the first 128 of them.
pub query_vol_lem : (ds : List Sdev) → query_vol ds ≡ take max_vol_per_host (live_volumes ds)
query_vol_lem ds = query_loop_lem max_vol_per_host ds

find_head :
    (p : Sdev → Bool) (x : Sdev) (ds : List Sdev) → p x ≡ true → find_sdev p (x ∷ ds) ≡ some x
unfolding find_sdev
find_head p x ds e = rw e refl

find_tail :
    (p : Sdev → Bool) (x : Sdev) (ds : List Sdev)
    → p x ≡ false
    → find_sdev p (x ∷ ds) ≡ find_sdev p ds
unfolding find_sdev
find_tail p x ds e = rw (find_sdev, e) refl

nothing_found : (p : Sdev → Bool) (d : Sdev) → find_sdev p [] ≡ some d → ⊥
unfolding find_sdev
nothing_found p d e = cc e

-- A change that keeps the test is found again.
find-change :
    (p : Sdev → Bool) (f : Sdev → Sdev) (ds : List Sdev) (d : Sdev)
    → find_sdev p ds ≡ some d
    → p (f d) ≡ true
    → find_sdev p (change_sdev p f ds) ≡ some (f d)
unfolding change_sdev
find-change p f [] d e k = absurd (nothing_found p d e)
find-change p f (x ∷ ds) d e k = elim (Bool-cases (p x)) [
  | inl y ↦
      let same : x ≡ d =
        ap (λ o. elim o [ none ↦ x | some z ↦ z ]) (sym (find_head p x ds y) ∙ e) in
      rw (change_sdev, y, same) (find_head p (f d) ds k)
  | inr n ↦
      rw (change_sdev, n)
        (find_tail p x (change_sdev p f ds) n
          ∙ find-change p f ds d (sym (find_tail p x ds n) ∙ e) k)
]

find-passes : (p : Sdev → Bool) (ds : List Sdev) (d : Sdev) → find_sdev p ds ≡ some d → p d ≡ true
find-passes p [] d e = absurd (nothing_found p d e)
find-passes p (x ∷ ds) d e = elim (Bool-cases (p x)) [
  | inl y ↦
      let same : x ≡ d =
        ap (λ o. elim o [ none ↦ x | some z ↦ z ]) (sym (find_head p x ds y) ∙ e) in
      rw (sym same) y
  | inr n ↦ find-passes p ds d (sym (find_tail p x ds n) ∙ e)
]

not_err : (e : Errno) → err e ≡ ok 0 → ⊥
not_err e h = cc h

admits-live : (s old : SdevState) → admits s old ≡ true → is_del s ≡ false
admits-live s old h = ground (arith, h)

stays :
    (channel id lun : ℕ) (d : Sdev) (s : SdevState)
    → is_del s ≡ false
    → at_address channel id lun d ≡ true
    → at_address channel id lun (record d { sdev_state = s }) ≡ true
stays channel id lun d s live h = ground (arith, live, h)

module _ (m : MidLayer) where
  pinned-found :
      (o : Option Sdev)
      → found m (pinned m o) ≡ true
      → (d : Sdev) × (o ≡ some d) × (m.scsi_device_get d ≡ true)
  pinned-found none h = cc h
  pinned-found (some d) h = elim (Bool-cases (m.scsi_device_get d)) [
    | inl y ↦ (d, refl, y)
    | inr n ↦ absurd (ground (arith, n))
  ]

  -- A disk that is changed and can still be held is found again.
  lookup-change :
      (p : Sdev → Bool) (f : Sdev → Sdev) (ds : List Sdev)
      → ((d : Sdev) → p d ≡ true → p (f d) ≡ true)
      → ((d : Sdev) → m.scsi_device_get d ≡ true → m.scsi_device_get (f d) ≡ true)
      → found m (pinned m (find_sdev p ds)) ≡ true
      → (d : Sdev) × (pinned m (find_sdev p (change_sdev p f ds)) ≡ some (f d))
  lookup-change p f ds keeps holds h =
      let (d, e, g) = pinned-found (find_sdev p ds) h in
      (
        d,
        ap (pinned m) (find-change p f ds d e (keeps d (find-passes p ds d e)))
            ∙ rw (holds d g) refl,
      )

  -- If the mid-layer's hold on a disk does not depend on its volume: after a volume has been set for
  -- deletion, the search for its name finds a disk whose volume is about to be deleted.
  pub delete_then_find :
      (name : List ℕ) (ds : List Sdev)
      → ((d : Sdev) (v : DiskVol)
          → m.scsi_device_get (record d { disk_vol = v }) ≡ m.scsi_device_get d)
      → (set_delete_by_vol_name m name ds).0 ≡ ok 0
      → (d : Sdev) × (device_lookup_by_vol_name m (set_delete_by_vol_name m name ds).1 name
          ≡ some d)
        × (d.disk_vol.state ≡ disk_prepare_delete)
  unfolding set_delete_by_vol_name device_lookup_by_vol_name
  delete_then_find name ds same done =
      elim (Bool-cases (found m (device_lookup_by_vol_name m ds name))) [
        | inr n ↦ absurd (ground (arith, n, done))
        | inl y ↦
            let mark : Sdev → Sdev =
              λ d. record d { disk_vol = record d.disk_vol { state = disk_prepare_delete } } in
            let (d, e) =
              lookup-change (has_name name) mark ds (λ d k. k) (λ d g. same d (mark d).disk_vol ∙ g)
                y in
            rw y (mark d, e, refl)
      ]

  set_device_stat-some :
      (channel id lun : ℕ) (stat : SdevState) (ds : List Sdev) (d : Sdev)
      → device_lookup m ds channel id lun ≡ some d
      → set_device_stat m channel id lun stat ds ≡ (
          if admits stat d.sdev_state
          then (
            (m.scsi_device_set_state d stat).0,
            change_sdev
                (at_address channel id lun)
                (λ x. record x { sdev_state = (m.scsi_device_set_state d stat).1 })
                ds,
          )
          else (err einval, ds))
  unfolding set_device_stat
  set_device_stat-some channel id lun stat ds d e = rw (set_device_stat, e) refl

  set_device_stat-none :
      (channel id lun : ℕ) (stat : SdevState) (ds : List Sdev)
      → device_lookup m ds channel id lun ≡ none
      → set_device_stat m channel id lun stat ds ≡ (err enodev, ds)
  unfolding set_device_stat
  set_device_stat-none channel id lun stat ds e = rw (set_device_stat, e) refl

  get_device_stat-some :
      (channel id lun : ℕ) (ds : List Sdev) (d : Sdev)
      → device_lookup m ds channel id lun ≡ some d
      → get_device_stat m channel id lun ds ≡ (ok 0, some d.sdev_state)
  unfolding get_device_stat
  get_device_stat-some channel id lun ds d e = rw (get_device_stat, e) refl

  found-some : (o : Option Sdev) (d : Sdev) → o ≡ some d → found m o ≡ true
  found-some o d e = rw e refl

  -- What a change of the state of a disk comes to.
  abbrev pub StatOutcome : ℕ → ℕ → ℕ → SdevState → List Sdev → Type 0
  StatOutcome channel id lun stat ds =
      let out = set_device_stat m channel id lun stat ds in
      ((device_lookup m ds channel id lun ≡ none) × (out ≡ (err enodev, ds)))
      ⊎ ((d : Sdev) × (device_lookup m ds channel id lun ≡ some d)
          × (admits stat d.sdev_state ≡ false)
          × (out ≡ (err einval, ds)))
      ⊎ ((d : Sdev) × (device_lookup m ds channel id lun ≡ some d)
          × (admits stat d.sdev_state ≡ true)
          × (out.0 ≡ (m.scsi_device_set_state d stat).0))

  -- The state of a disk that is not there is not set (`ENODEV`), nor is one that the table of
  -- transitions does not admit (`EINVAL`), and the disks are those of before; else it is what the
  -- mid-layer makes of it.
  pub set_device_stat_lem :
      (channel id lun : ℕ) (stat : SdevState) (ds : List Sdev) → StatOutcome channel id lun stat ds
  set_device_stat_lem channel id lun stat ds =
      elim (Option-cases (device_lookup m ds channel id lun)) [
        | inl n ↦ inl (n, set_device_stat-none channel id lun stat ds n)
        | inr (d, e) ↦ inr (elim (Bool-cases (admits stat d.sdev_state)) [
          | inr stop ↦
              inl (d, e, stop, set_device_stat-some channel id lun stat ds d e ∙ rw stop refl)
          | inl go ↦ inr (
            d,
            e,
            go,
            ap (λ r. r.0) (set_device_stat-some channel id lun stat ds d e) ∙ rw go refl,
          )
        ])
      ]

  -- If the mid-layer sets the state that it is asked for whenever it reports success, and its hold
  -- on a disk does not depend on its state: after the state of a disk has been set, a query of the
  -- state gives it.
  pub set_then_get :
      (channel id lun : ℕ) (stat : SdevState) (ds : List Sdev)
      → ((d : Sdev) (s : SdevState)
          → m.scsi_device_get (record d { sdev_state = s }) ≡ m.scsi_device_get d)
      → ((d : Sdev) (s : SdevState)
          → (m.scsi_device_set_state d s).0 ≡ ok 0
          → (m.scsi_device_set_state d s).1 ≡ s)
      → (set_device_stat m channel id lun stat ds).0 ≡ ok 0
      → get_device_stat m channel id lun (set_device_stat m channel id lun stat ds).1
        ≡ (ok 0, some stat)
  unfolding device_lookup
  set_then_get channel id lun stat ds same sets done =
      elim (set_device_stat_lem channel id lun stat ds) [
        | inl (n, e) ↦ absurd (not_err enodev (sym (ap (λ r. r.0) e) ∙ done))
        | inr (inl (d, l, stop, e)) ↦ absurd (not_err einval (sym (ap (λ r. r.0) e) ∙ done))
        | inr (inr (d, l, go, e)) ↦
            let new = sets d stat (sym e ∙ done) in
            let f : Sdev → Sdev =
              λ x. record x { sdev_state = (m.scsi_device_set_state d stat).1 } in
            let live : is_del (m.scsi_device_set_state d stat).1 ≡ false =
              rw new (admits-live stat d.sdev_state go) in
            let (x, again) =
              lookup-change (at_address channel id lun) f ds
                (λ y k. stays channel id lun y (m.scsi_device_set_state d stat).1 live k)
                (λ y g. same y _ ∙ g) (found-some _ d l) in
            rw (set_device_stat-some channel id lun stat ds d l, go)
              (get_device_stat-some channel id lun _ (f x) again ∙ ap (λ s. (ok 0, some s)) new)
      ]

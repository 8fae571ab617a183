-- ===== src/Ioctl/Disks.antt =====
-- vsc_ioctl.c: the commands on disks.
use vsc.Base.{ℕ, List, [], Bool, not, Option, none, some, if◌then◌else◌}
use vsc.Codes.{Ret, ok, err, oops, einval, eperm, efault, enodev, enomem}
use vsc.Hosts.{get_ctlr_by_host}
use vsc.Devices.{
  MidLayer, Sdev, SdevState, DiskVol, add_device, add_device_by_vol_name, rmv_device,
  set_delete_by_vol_name, query_vol, set_device_stat, get_device_stat, set_device_rq_timeout,
  device_lookup, found,
}
use vsc.Ioctl.State.{World, Request, admit, with_host, on_ctrl, on_disks, is_attached}

-- The end of `vsc_dev_get_disk_stat`.
abbrev pub stat_reply : Request → Ret × Option SdevState → Ret × Option SdevState
stat_reply r (ok n, stat) = if r.writable then (ok 0, stat) else (err efault, none)
stat_reply r (err e, stat) = (err e, none)
stat_reply r (oops, stat) = (oops, none)

-- `vsc_dev_query_vol`, with the volumes; `memory` says that `kzalloc` succeeds.
unfoldable pub dev_query_vol : Request → Bool → ℕ → World → Ret × List DiskVol
dev_query_vol r memory host_no w =
    let found_host = get_ctlr_by_host w.mgr_list host_no in
    if not r.p_user
    then (err einval, [])
    else if not r.capable
    then (err eperm, [])
    else if not memory
    then (err enomem, [])
    else if not r.readable
    then (err efault, [])
    else elim found_host [
      | none ↦ (err enodev, [])
      | some h ↦ if not r.writable then (err efault, []) else (ok 0, query_vol (w.ctrl h).sdevs)
    ]

module _ (m : MidLayer) where
  -- `vsc_dev_add_disk`.
  unfoldable pub dev_add_disk : Request → ℕ → ℕ → ℕ → ℕ → World → Ret × World
  unfolding admit with_host on_ctrl add_device
  dev_add_disk r host_no channel id lun =
      admit r (
        with_host host_no (on_ctrl (λ c. on_disks (add_device m (is_attached c) channel id lun) c)))

  -- `vsc_dev_add_disk_by_vol_name`.
  unfoldable pub dev_add_disk_by_vol_name : Request → ℕ → ℕ → ℕ → ℕ → List ℕ → World → Ret × World
  unfolding admit with_host on_ctrl add_device_by_vol_name
  dev_add_disk_by_vol_name r host_no channel id lun name = admit r (
      with_host host_no (
        on_ctrl (λ c.
          on_disks (add_device_by_vol_name m (is_attached c) c.sys_host_no name channel id lun) c)))

  -- `vsc_dev_rmv_disk`.
  unfoldable pub dev_rmv_disk : Request → ℕ → ℕ → ℕ → ℕ → World → Ret × World
  unfolding admit with_host on_ctrl rmv_device
  dev_rmv_disk r host_no channel id lun = admit r (
      with_host host_no
        (on_ctrl (λ c. on_disks (rmv_device m c.session.host.blocked channel id lun) c)))

  -- `vsc_dev_rmv_disk_by_vol_name`.
  unfoldable pub dev_rmv_disk_by_vol_name : Request → ℕ → List ℕ → World → Ret × World
  unfolding admit with_host on_ctrl set_delete_by_vol_name
  dev_rmv_disk_by_vol_name r host_no name =
      admit r (with_host host_no (on_ctrl (λ c. on_disks (set_delete_by_vol_name m name) c)))

  -- `vsc_dev_set_disk_stat`; `none` is a number that is no state, which the switch refuses.
  abbrev pub set_stat_of : Option SdevState → ℕ → ℕ → ℕ → List Sdev → Ret × List Sdev
  set_stat_of none channel id lun ds =
      ((if found m (device_lookup m ds channel id lun) then err einval else err enodev), ds)
  set_stat_of (some stat) channel id lun ds = set_device_stat m channel id lun stat ds

  unfoldable pub dev_set_disk_stat :
      Request → ℕ → ℕ → ℕ → ℕ → Option SdevState → World → Ret × World
  unfolding admit with_host on_ctrl set_device_stat device_lookup
  dev_set_disk_stat r host_no channel id lun stat =
      admit r (with_host host_no (on_ctrl (λ c. on_disks (set_stat_of stat channel id lun) c)))

  -- `vsc_dev_get_disk_stat`, with the state.
  unfoldable pub dev_get_disk_stat : Request → ℕ → ℕ → ℕ → ℕ → World → Ret × Option SdevState
  unfolding get_device_stat
  dev_get_disk_stat r host_no channel id lun w =
      let found_host = get_ctlr_by_host w.mgr_list host_no in
      if not r.p_user
      then (err einval, none)
      else if not r.capable
      then (err eperm, none)
      else if not r.readable
      then (err efault, none)
      else elim found_host [
        | none ↦ (err enodev, none)
        | some h ↦ stat_reply r (get_device_stat m channel id lun (w.ctrl h).sdevs)
      ]

  -- `vsc_dev_set_disk_rq_timeout`.
  unfoldable pub dev_set_disk_rq_timeout : Request → ℕ → ℕ → ℕ → ℕ → ℕ → ℕ → World → Ret × World
  unfolding admit with_host on_ctrl set_device_rq_timeout
  dev_set_disk_rq_timeout r hz host_no channel id lun timeout = admit r (
      with_host host_no
        (on_ctrl (λ c. on_disks (set_device_rq_timeout m hz channel id lun timeout) c)))

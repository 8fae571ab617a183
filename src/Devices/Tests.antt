-- ===== src/Devices/Tests.antt =====
-- Runs of the operations on disks of vsc_main.c at concrete inputs.
use vsc.Base.{ℕ, ◌≡◌, refl, List, [], ◌∷◌, true, some}
use vsc.Codes.{disk_prepare_delete, ok}
use vsc.Devices.{
  MidLayer, Sdev, SdevState, running, offline, del, set_delete_by_vol_name,
  device_lookup_by_vol_name, set_device_stat,
}
use vsc.Devices.Laws.{delete_then_find}

-- A mid-layer that holds every disk and makes every change.
abbrev mid : MidLayer
mid = record {
  scsi_device_get = λ d. true;
  scsi_add_device = λ ds c i l. (ok 0, ds);
  scsi_remove_device = λ ds d. ds;
  scsi_device_set_state = λ d s. (ok 0, s);
}

abbrev disk : ℕ → SdevState → Sdev
disk lun state = record {
  channel = 0;
  id = 0;
  lun = lun;
  sdev_state = state;
  rq_timeout = 30;
  disk_vol = record {
    host = 2;
    channel = 0;
    id = 0;
    lun = lun;
    state = 2;
    vol_name = 118 ∷ lun ∷ [];
    extend = 1;
  };
}

abbrev disks : List Sdev
disks = disk 4 del ∷ disk 5 running ∷ disk 6 running ∷ []

deleted : (set_delete_by_vol_name mid (118 ∷ 5 ∷ []) disks).0 ≡ ok 0
unfolding set_delete_by_vol_name
deleted = refl

delete_then_find_example :
    (d : Sdev) × (device_lookup_by_vol_name mid
        (set_delete_by_vol_name mid (118 ∷ 5 ∷ []) disks).1
        (118 ∷ 5 ∷ [])
      ≡ some d)
    × (d.disk_vol.state ≡ disk_prepare_delete)
delete_then_find_example = delete_then_find mid (118 ∷ 5 ∷ []) disks (λ d v. refl) deleted

taken_offline : (set_device_stat mid 0 0 5 offline disks).0 ≡ ok 0
unfolding set_device_stat
taken_offline = refl

-- ===== src/Devices.antt =====
-- vsc_main.c: the disks of a host. The mid-layer keeps them in `__devices`; what it does to them is a
-- parameter.
pub mod Laws
mod Tests
use vsc.Base.{
  ℕ, zero, suc, ◌+◌, ◌*◌, ◌%◌, ◌^◌, ◌++◌, List, [], ◌∷◌, Bool, true, false, ◌&&◌, ◌||◌, not, Option,
  none, some, ◌==◌, leb, ltb, if◌then◌else◌,
}
use vsc.Codes.{
  disk_prepare_delete, Ret, ok, err, oops, is_err, eacces, eexist, enodev, ebusy, einval,
}

-- `enum scsi_device_state` (scsi/scsi_device.h).
pub data SdevState : Type 0 where
  created running cancel del quiesce offline block created_block : SdevState

-- `struct vsc_ioctl_disk_vol_name`, at `sdev_data`; `extend` is the counter behind it.
pub record DiskVol : Type 0 where
  pub host : ℕ
  pub channel : ℕ
  pub id : ℕ
  pub lun : ℕ
  pub state : ℕ
  pub vol_name : List ℕ
  pub extend : ℕ

-- What the driver reads of a `struct scsi_device`.
pub record Sdev : Type 0 where
  pub channel : ℕ
  pub id : ℕ
  pub lun : ℕ
  pub sdev_state : SdevState
  pub rq_timeout : ℕ
  pub disk_vol : DiskVol

-- `VSC_DISK_RUNNING`.
abbrev pub disk_running : ℕ
disk_running = 2

-- `VSC_RQ_MAX_TIMEOUT`.
abbrev pub rq_max_timeout : ℕ
rq_max_timeout = 120

abbrev pub vol_name_len : ℕ
vol_name_len = 96

abbrev pub max_vol_per_host : ℕ
max_vol_per_host = 128

abbrev pub is_del : SdevState → Bool
is_del del = true
is_del created = false
is_del running = false
is_del cancel = false
is_del quiesce = false
is_del offline = false
is_del block = false
is_del created_block = false

-- The test of `__vsc_scsi_device_lookup`.
abbrev pub at_address : ℕ → ℕ → ℕ → Sdev → Bool
at_address channel id lun d =
    (d.channel == channel) && ((d.id == id) && ((d.lun == lun) && not (is_del d.sdev_state)))

-- `!strncmp(a, b, n)`; a string ends with its list.
unfoldable pub same_name : ℕ → List ℕ → List ℕ → Bool
same_name zero a b = true
same_name (suc n) [] [] = true
same_name (suc n) [] (y ∷ b) = y == 0
same_name (suc n) (x ∷ a) [] = x == 0
same_name (suc n) (x ∷ a) (y ∷ b) = let rest = same_name n a b in (x == y) && ((x == 0) || rest)

-- The test of `__vsc_scsi_device_lookup_by_vol_name`, which takes a deleted disk too.
abbrev pub has_name : List ℕ → Sdev → Bool
has_name name d = same_name vol_name_len d.disk_vol.vol_name name

-- The first disk that passes a test, and a change of it.
unfoldable pub find_sdev : (Sdev → Bool) → List Sdev → Option Sdev
find_sdev p [] = none
find_sdev p (d ∷ ds) = let rest = find_sdev p ds in if p d then some d else rest

unfoldable pub change_sdev : (Sdev → Bool) → (Sdev → Sdev) → List Sdev → List Sdev
change_sdev p f [] = []
change_sdev p f (d ∷ ds) = let rest = change_sdev p f ds in if p d then f d ∷ ds else d ∷ rest

-- The transitions that `vsc_set_device_stat` admits, by the state asked for.
abbrev pub admits : SdevState → SdevState → Bool
admits running created = true
admits running offline = true
admits running quiesce = true
admits running block = true
admits running running = false
admits running cancel = false
admits running del = false
admits running created_block = false
admits offline created = true
admits offline running = true
admits offline quiesce = true
admits offline block = true
admits offline offline = false
admits offline cancel = false
admits offline del = false
admits offline created_block = false
admits block running = true
admits block created_block = true
admits block created = false
admits block cancel = false
admits block del = false
admits block quiesce = false
admits block offline = false
admits block block = false
admits created old = false
admits cancel old = false
admits del old = false
admits quiesce old = false
admits created_block old = false

-- `vsc_query_vol`: the volumes, with the room that is left.
unfoldable pub query_loop : ℕ → List Sdev → List DiskVol
query_loop zero ds = []
query_loop (suc room) [] = []
query_loop (suc room) (d ∷ ds) =
    let skip = query_loop (suc room) ds in
    let more = query_loop room ds in if is_del d.sdev_state then skip else d.disk_vol ∷ more

abbrev pub query_vol : List Sdev → List DiskVol
query_vol ds = query_loop max_vol_per_host ds

-- The functions of the mid-layer that the driver calls on disks.
pub record MidLayer : Type 0 where
  pub scsi_device_get : Sdev → Bool
  pub scsi_add_device : List Sdev → ℕ → ℕ → ℕ → Ret × List Sdev
  pub scsi_remove_device : List Sdev → Sdev → List Sdev
  pub scsi_device_set_state : Sdev → SdevState → Ret × SdevState

-- `attached` says that `h->file` is set.
module _ (m : MidLayer) where
  abbrev pub pinned : Option Sdev → Option Sdev
  pinned none = none
  pinned (some d) = if m.scsi_device_get d then some d else none

  -- `vsc_scsi_device_lookup` and `vsc_scsi_device_lookup_by_vol_name`.
  unfoldable pub device_lookup : List Sdev → ℕ → ℕ → ℕ → Option Sdev
  unfolding find_sdev
  device_lookup ds channel id lun = pinned (find_sdev (at_address channel id lun) ds)

  unfoldable pub device_lookup_by_vol_name : List Sdev → List ℕ → Option Sdev
  unfolding find_sdev same_name
  device_lookup_by_vol_name ds name = pinned (find_sdev (has_name name) ds)

  abbrev pub found : Option Sdev → Bool
  found none = false
  found (some d) = true

  -- `vsc_add_device`.
  unfoldable pub add_device : Bool → ℕ → ℕ → ℕ → List Sdev → Ret × List Sdev
  unfolding device_lookup
  add_device attached channel id lun ds =
      if not attached
      then (err eacces, ds)
      else if found (device_lookup ds channel id lun)
      then (err eexist, ds)
      else m.scsi_add_device ds channel id lun

  -- The volume of a new disk; `sys` is the number of the host in the mid-layer.
  abbrev pub named : ℕ → List ℕ → Sdev → Sdev
  named sys name d = record d {
    disk_vol = record {
      host = sys;
      channel = d.channel;
      id = d.id;
      lun = d.lun;
      state = disk_running;
      vol_name = name;
      extend = 1;
    };
  }

  -- The part of `vsc_add_device_by_vol_name` once the mid-layer has added the disk.
  unfoldable pub name_device : ℕ → List ℕ → ℕ → ℕ → ℕ → List Sdev → Ret × List Sdev
  unfolding device_lookup change_sdev
  name_device sys name channel id lun ds =
      if found (device_lookup ds channel id lun)
      then (ok 0, change_sdev (at_address channel id lun) (named sys name) ds)
      else (err enodev, ds)

  abbrev pub after_add : (List Sdev → Ret × List Sdev) → Ret × List Sdev → Ret × List Sdev
  after_add next (ok n, ds) = if n == 0 then next ds else (ok n, ds)
  after_add next (err e, ds) = (err e, ds)
  after_add next (oops, ds) = (oops, ds)

  -- `vsc_add_device_by_vol_name`.
  unfoldable pub add_device_by_vol_name :
      Bool → ℕ → List ℕ → ℕ → ℕ → ℕ → List Sdev → Ret × List Sdev
  unfolding add_device name_device
  add_device_by_vol_name attached sys name channel id lun ds =
      if not attached
      then (err eacces, ds)
      else if found (device_lookup ds channel id lun)
      then (err eexist, ds)
      else after_add (name_device sys name channel id lun) (m.scsi_add_device ds channel id lun)

  -- `vsc_rmv_device`; `blocked` is `host_self_blocked`.
  unfoldable pub rmv_device : Bool → ℕ → ℕ → ℕ → List Sdev → Ret × List Sdev
  unfolding device_lookup
  rmv_device blocked channel id lun ds =
      if blocked then (err ebusy, ds) else elim (device_lookup ds channel id lun) [
        | none ↦ (err enodev, ds)
        | some d ↦ (ok 0, m.scsi_remove_device ds d)
      ]

  -- `vsc_set_delete_by_vol_name`.
  unfoldable pub set_delete_by_vol_name : List ℕ → List Sdev → Ret × List Sdev
  unfolding device_lookup_by_vol_name change_sdev
  set_delete_by_vol_name name ds =
      let mark : Sdev → Sdev =
        λ d. record d { disk_vol = record d.disk_vol { state = disk_prepare_delete } } in
      if found (device_lookup_by_vol_name ds name)
      then (ok 0, change_sdev (has_name name) mark ds)
      else (err enodev, ds)

  -- `vsc_set_device_stat`.
  unfoldable pub set_device_stat : ℕ → ℕ → ℕ → SdevState → List Sdev → Ret × List Sdev
  unfolding device_lookup change_sdev
  set_device_stat channel id lun stat ds = elim (device_lookup ds channel id lun) [
    | none ↦ (err enodev, ds)
    | some d ↦
        let (r, new) = m.scsi_device_set_state d stat in
        if admits stat d.sdev_state
        then (r, change_sdev (at_address channel id lun) (λ x. record x { sdev_state = new }) ds)
        else (err einval, ds)
  ]

  -- `vsc_get_device_stat`.
  unfoldable pub get_device_stat : ℕ → ℕ → ℕ → List Sdev → Ret × Option SdevState
  unfolding device_lookup
  get_device_stat channel id lun ds = elim (device_lookup ds channel id lun) [
    | none ↦ (err enodev, none)
    | some d ↦ (ok 0, some d.sdev_state)
  ]

  -- `vsc_set_device_rq_timeout`, in seconds, for an `int` whose top bit means negative; `hz` is the
  -- tick rate.
  unfoldable pub set_device_rq_timeout : ℕ → ℕ → ℕ → ℕ → ℕ → List Sdev → Ret × List Sdev
  unfolding device_lookup change_sdev
  set_device_rq_timeout hz channel id lun timeout ds =
      let set : Sdev → Sdev = λ x. record x { rq_timeout = timeout * hz % 2 ^ 32 } in
      if (timeout == 0) || (leb (2 ^ 31) timeout || ltb rq_max_timeout timeout)
      then (err einval, ds)
      else if found (device_lookup ds channel id lun)
      then (ok 0, change_sdev (at_address channel id lun) set ds)
      else (err enodev, ds)

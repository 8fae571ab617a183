-- ===== src/Ioctl/State.antt =====
-- The state that the control device works on: the hosts by their address, the registry of vsc_main.c,
-- and the open files.
use vsc.Base.{ℕ, List, Bool, not, Option, none, some, if◌then◌else◌, update}
use vsc.Codes.{Ret, ok, err, einval, eperm, efault, enodev}
use vsc.Hosts.{HostMgr, get_ctlr_by_host}
use vsc.Control.{Host, is_free}
use vsc.Devices.{Sdev}
use vsc.Dispatch.{Session}

-- A `struct vsc_ctrl_info` with the disks of its host and its number in the mid-layer. `freed` says
-- that `vsc_ctlr_info_destroy` has given its pools back, and `scsi_host_put` the host.
pub record Ctrl : Type 0 where
  pub session : Session
  pub sdevs : List Sdev
  pub sys_host_no : ℕ
  pub freed : Bool

-- What the driver uses of a `struct file`.
pub record OpenFile : Type 0 where
  pub private_data : Option ℕ
  pub nonblock : Bool

pub record World : Type 0 where
  pub ctrl : ℕ → Ctrl
  pub mgr_list : List HostMgr
  pub file : ℕ → OpenFile

abbrev pub set_ctrl : World → ℕ → Ctrl → World
set_ctrl w h c = record w { ctrl = update w.ctrl h c }

abbrev pub set_file : World → ℕ → Option ℕ → World
set_file w f p = record w { file = update w.file f (record (w.file f) { private_data = p }) }

-- A change of the host in its control block.
abbrev pub set_host : Ctrl → Host → Ctrl
set_host c h = record c { session = record c.session { host = h } }

-- What a call finds: an argument, `CAP_SYS_ADMIN`, an argument that can be read and written.
pub record Request : Type 0 where
  pub p_user : Bool
  pub capable : Bool
  pub readable : Bool
  pub writable : Bool

-- The checks that most handlers begin with.
unfoldable pub admit : Request → (World → Ret × World) → World → Ret × World
admit r body w =
    if not r.p_user
    then (err einval, w)
    else if not r.capable
    then (err eperm, w)
    else if not r.readable
    then (err efault, w)
    else body w

-- The search for the host, and an operation on it.
abbrev pub at_host : (ℕ → World → Ret × World) → Option ℕ → World → Ret × World
at_host op none w = (err enodev, w)
at_host op (some h) w = op h w

unfoldable pub with_host : ℕ → (ℕ → World → Ret × World) → World → Ret × World
with_host host_no op w = at_host op (get_ctlr_by_host w.mgr_list host_no) w

-- An operation on the control block alone.
unfoldable pub on_ctrl : (Ctrl → Ret × Ctrl) → ℕ → World → Ret × World
on_ctrl op h w = let (r, c) = op (w.ctrl h) in (r, set_ctrl w h c)

-- An operation on the host alone, which cannot fail.
abbrev pub on_host : (Host → Host) → Ctrl → Ret × Ctrl
on_host g c = (ok 0, set_host c (g c.session.host))

-- An operation on the disks alone.
abbrev pub on_disks : (List Sdev → Ret × List Sdev) → Ctrl → Ret × Ctrl
on_disks op c = let (r, ds) = op c.sdevs in (r, record c { sdevs = ds })

abbrev pub is_attached : Ctrl → Bool
is_attached c = not (is_free c.session.host.file)

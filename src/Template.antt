-- ===== src/Template.antt =====
-- vsc_main.c: the callbacks of the driver template that have no component of their own.
pub mod Geometry
mod Tests
use vsc.Base.{ℕ, ◌*◌, ◌/◌, Bool, true, false, leb, if◌then◌else◌, u32}
use vsc.Codes.{Ret, ok}

-- `vsch_bios_param`: heads, sectors and cylinders of a disk of `capacity` sectors.
unfoldable pub bios_param : ℕ → ℕ × ℕ × ℕ
bios_param capacity =
    if leb 0x200000 capacity
    then (255, 63, u32 (capacity / (255 * 63)))
    else (64, 32, u32 (capacity / (64 * 32)))

-- What the callbacks set of a request queue: `QUEUE_FLAG_BIDI`, whether the bounce limit is
-- `BLK_BOUNCE_ANY`, and the mask of the alignment.
pub record RequestQueue : Type 0 where
  pub bidi : Bool
  pub bounce_any : Bool
  pub dma_alignment : ℕ

-- `vsc_slave_alloc`.
abbrev pub slave_alloc : RequestQueue → Ret × RequestQueue
slave_alloc q = (ok 0, record q { bidi = true })

-- `vsc_slave_configure`.
abbrev pub slave_configure : RequestQueue → Ret × RequestQueue
slave_configure q = (ok 0, record q { bounce_any = true; dma_alignment = 0 })

-- `vsc_scan_finished`, after any time: the mid-layer need not wait. `vsc_scan_start` does nothing.
abbrev pub scan_finished : ℕ → ℕ
scan_finished elapsed_time = 1

-- `vsc_user_scan`: a rescan adds no disk.
abbrev pub user_scan : ℕ → ℕ → ℕ → Ret
user_scan channel id lun = ok 0

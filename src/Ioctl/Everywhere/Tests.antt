-- ===== src/Ioctl/Everywhere/Tests.antt =====
-- A run of the driver at concrete inputs.
use vsc.Control.Attach.{Calm}
use vsc.Ioctl.{add_host, attach_host, rmv_host, dev_ioctl}
use vsc.Ioctl.State.{World}
use vsc.Ioctl.Samples.{host_513, admitted, empty_world, around}

-- Host 513 is added, attached by file 7, and removed.
abbrev added : World
added = (dev_ioctl around admitted 7 (add_host host_513) empty_world).1

abbrev attached : World
attached = (dev_ioctl around admitted 7 (attach_host 513) added).1

abbrev removed : World
removed = (dev_ioctl around admitted 7 (rmv_host 513) attached).1

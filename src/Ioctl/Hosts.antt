-- ===== src/Ioctl/Hosts.antt =====
-- vsc_ioctl.c: the commands that add and remove a host and set its time limit.
use vsc.Base.{ℕ, not, ltb, if◌then◌else◌}
use vsc.Codes.{Ret, ok, err, einval, efault}
use vsc.Control.Limits.{HostInfo}
use vsc.Xfer.{Mem}
use vsc.Ioctl.State.{Ctrl, World, Request, set_host, admit, with_host, on_ctrl}
use vsc.Ioctl.Register.{Kernel, Registered, register_host, remove_host}

-- `VSC_MAX_TARGET_ABNORMAL_TIMEOUT`.
abbrev pub max_target_abnormal_timeout : ℕ
max_target_abnormal_timeout = 6000

-- `vsc_set_tg_abn_timeout`.
unfoldable pub set_tg_abn_timeout : ℕ → Ctrl → Ret × Ctrl
set_tg_abn_timeout timeout c =
    (ok 0, set_host c (record (c.session.host) { target_abnormal_time = timeout }))

-- `vsc_dev_set_tg_abn_timeout`.
unfoldable pub dev_set_tg_abn_timeout : Request → ℕ → ℕ → World → Ret × World
unfolding admit with_host on_ctrl set_tg_abn_timeout
dev_set_tg_abn_timeout r host_no timeout = admit r (λ w.
    if ltb max_target_abnormal_timeout timeout
    then (err einval, w)
    else with_host host_no (on_ctrl (set_tg_abn_timeout timeout)) w)

-- `vsc_dev_rmv_host`.
unfoldable pub dev_rmv_host : Request → ℕ → World → Ret × World
unfolding admit with_host on_ctrl remove_host
dev_rmv_host r host_no = admit r (with_host host_no (on_ctrl remove_host))

-- The end of `vsc_dev_add_host`: the number goes back to user space, then the result is given.
abbrev pub report_host : Request → Registered → Ret × World
report_host r g = (if not r.writable then err efault else g.ret, g.world)

-- `vsc_dev_add_host`.
unfoldable pub dev_add_host : Request → Mem → Kernel → HostInfo → World → Ret × World
unfolding admit register_host
dev_add_host r mem k info = admit r (λ w. report_host r (register_host mem k info w))

-- ===== src/Control/Limits.antt =====
-- vsc_main.c: the limits that a new host must keep (`check_host_info`), and the depth of a disk's
-- queue (`vsc_change_queue_depth`).
use vsc.Base.{
  ℕ, ◌*◌, ◌^◌, ◌<◌, ◌≤◌, ◌≡◌, ◌⊎◌, inl, inr, refl, Bool, true, false, ◌||◌, not, ◌==◌, ltb, leb,
  if◌then◌else◌, arith, Bool-cases,
}
use vsc.Codes.{Ret, ok, err, einval, enotsupp}

-- `struct vsc_ioctl_cmd_add_host`.
pub record HostInfo : Type 0 where
  pub host : ℕ
  pub sys_host_id : ℕ
  pub max_channel : ℕ
  pub max_lun : ℕ
  pub max_id : ℕ
  pub max_cmd_len : ℕ
  pub max_nr_cmds : ℕ
  pub cmd_per_lun : ℕ
  pub sg_count : ℕ

-- `VSC_MAX_CDB_LEN`, `VSC_MAX_SG_COUNT`, `VSC_DEFAULT_MAX_CMD_NUMBER`, `VSC_DEFAULT_LUN_CMD_NUMBER`.
abbrev pub max_cdb_len : ℕ
max_cdb_len = 256

abbrev pub max_sg_count : ℕ
max_sg_count = 8192

abbrev pub default_max_cmd_number : ℕ
default_max_cmd_number = 2048 * 2048

abbrev pub default_lun_cmd_number : ℕ
default_lun_cmd_number = 2048

-- `check_host_info`; the fields are unsigned, so `<= 0` is `== 0`.
abbrev pub out_of_limits : HostInfo → Bool
out_of_limits i =
    ltb max_cdb_len i.max_cmd_len
    || ((i.max_cmd_len == 0)
        || (ltb max_sg_count i.sg_count
            || ((i.sg_count == 0)
                || (ltb default_max_cmd_number i.max_nr_cmds
                    || ((i.max_nr_cmds == 0)
                        || (ltb default_lun_cmd_number i.cmd_per_lun
                            || ((i.cmd_per_lun == 0)
                                || (ltb i.max_nr_cmds i.cmd_per_lun
                                    || ((i.max_channel == 0)
                                        || ((i.max_id == 0) || (i.max_lun == 0)))))))))))

unfoldable pub check_host_info : HostInfo → Ret
check_host_info i = if out_of_limits i then err einval else ok 0

-- What the limits are.
pub record Fits (i : HostInfo) : Type 0 where
  pub cdb : (0 < i.max_cmd_len) × (i.max_cmd_len ≤ max_cdb_len)
  pub sg : (0 < i.sg_count) × (i.sg_count ≤ max_sg_count)
  pub pool : (0 < i.max_nr_cmds) × (i.max_nr_cmds ≤ default_max_cmd_number)
  pub per_lun : (0 < i.cmd_per_lun) × (i.cmd_per_lun ≤ default_lun_cmd_number)
  pub lun_in_pool : i.cmd_per_lun ≤ i.max_nr_cmds
  pub address : (0 < i.max_channel) × (0 < i.max_id) × (0 < i.max_lun)

Fits-of_limits : (i : HostInfo) → out_of_limits i ≡ false → Fits i
Fits-of_limits i h = record {
  cdb = (ground arith, ground arith);
  sg = (ground arith, ground arith);
  pool = (ground arith, ground arith);
  per_lun = (ground arith, ground arith);
  lun_in_pool = ground arith;
  address = (ground arith, ground arith, ground arith);
}

limits-of-Fits : (i : HostInfo) → Fits i → out_of_limits i ≡ false
limits-of-Fits i f = ground (arith, f.cdb, f.sg, f.pool, f.per_lun, f.lun_in_pool, f.address)

-- A description of a host is accepted exactly if it keeps every limit, and else refused with
-- `EINVAL`.
pub check_host_info_lem :
    (i : HostInfo)
    → (Fits i × (check_host_info i ≡ ok 0)) ⊎ ((¬ Fits i) × (check_host_info i ≡ err einval))
unfolding check_host_info
check_host_info_lem i = elim (Bool-cases (out_of_limits i)) [
  | inl bad ↦ inr ((λ f. cc (bad, limits-of-Fits i f)), rw bad refl)
  | inr good ↦ inl (Fits-of_limits i good, rw good refl)
]

-- `vsc_change_queue_depth`: an `int` whose top bit is set is negative. `plain` says that the reason
-- is `SCSI_QDEPTH_DEFAULT`.
unfoldable pub change_queue_depth : Bool → ℕ → ℕ → Ret
change_queue_depth plain nr_cmds qdepth =
    if not plain
    then err enotsupp
    else if (qdepth == 0) || leb (2 ^ 31) qdepth
    then ok 1
    else if ltb nr_cmds qdepth
    then ok nr_cmds
    else ok qdepth

-- The depth that is set is between 1 and the size of the pool, for a pool that is not empty.
pub change_queue_depth_lem :
    (nr_cmds qdepth : ℕ)
    → 0 < nr_cmds
    → (d : ℕ) × (change_queue_depth true nr_cmds qdepth ≡ ok d) × (0 < d) × (d ≤ nr_cmds)
unfolding change_queue_depth
change_queue_depth_lem nr_cmds qdepth p = elim (Bool-cases ((qdepth == 0) || leb (2 ^ 31) qdepth)) [
  | inl low ↦ (1, rw low refl, omega arith, omega arith)
  | inr fine ↦ elim (Bool-cases (ltb nr_cmds qdepth)) [
    | inl high ↦ (nr_cmds, rw (fine, high) refl, p, omega arith)
    | inr inside ↦ (qdepth, rw (fine, inside) refl, ground arith, ground arith)
  ]
]

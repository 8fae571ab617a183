-- ===== src/Hosts/Fair.antt =====
-- How vsc_main.c spreads the commands over the hosts of a vbs.
use vsc.Base.{
  ℕ, zero, suc, ◌+◌, ◌*◌, ◌/◌, ◌%◌, ◌^◌, ◌<◌, ◌≤◌, ◌≡◌, ◌⊎◌, inl, inr, refl, true, false, Option,
  none, some, ◌==◌, ==_iff, arith, Bool-cases, Option-cases, ap, u32,
}
use vsc.Cmds.{ScsiCmnd}
use vsc.Cmds.Io.{submit}
use vsc.Cmds.Inv.{is_some, some_of_is_some}
use vsc.Codes.{disk_prepare_delete}
use vsc.Hosts.{HostMgr, max_host_nr_per_vbs, new_mgr, get_vbs_id_by_host_id, get_host_index_in_vbs}
use vsc.Hosts.Queue.{
  turn, host_index, choose_host, is_readwrite_cmd, queue_on, queue_command, Hba, opcode, taken,
  busy, answer_of,
}

-- Every entry below a bound holds a host.
abbrev pub AllSet : ℕ → (ℕ → Option ℕ) → Type 0
AllSet zero hosts = Unit
AllSet (suc n) hosts = (is_some (hosts n) ≡ true) × AllSet n hosts

-- A manager whose hosts stand at the first indices, without a gap.
abbrev pub Dense : HostMgr → Type 0
Dense m =
    (0 < m.host_count) × (m.host_count ≤ max_host_nr_per_vbs) × AllSet m.host_count m.host_list

AllSet-at :
    (n : ℕ) (hosts : ℕ → Option ℕ) (i : ℕ) → AllSet n hosts → i < n → is_some (hosts i) ≡ true
AllSet-at zero hosts i a h = absurd (omega arith)
AllSet-at (suc n) hosts i a h = elim (Bool-cases (i == n)) [
  | inl e ↦ rw ((==_iff i n).0 e) a.0
  | inr e ↦ AllSet-at n hosts i a.1 (ground arith)
]

index_lt :
    (shift : ℕ) (m : HostMgr) (op extend : ℕ)
    → Dense m
    → (host_index shift m op extend).0 < m.host_count
unfolding host_index
index_lt shift m op extend d = ground (arith, d.0)

-- If commands are spread and the manager has its hosts at the first indices, there is always a host
-- for the command: one of these.
pub choose_host_found :
    (io_per_host shift : ℕ) (m : HostMgr) (orig op extend : ℕ)
    → Dense m
    → 0 < io_per_host
    → (i h : ℕ) × (i < m.host_count)
      × (m.host_list i ≡ some h)
      × ((choose_host io_per_host shift (some m) orig op extend).0 ≡ some h)
unfolding choose_host
choose_host_found io_per_host shift m orig op extend d p =
    let i = (host_index shift m op extend).0 in
    let small = index_lt shift m op extend d in
    let (h, e) = some_of_is_some (m.host_list i) (AllSet-at m.host_count m.host_list i d.2 small) in
    (i, h, small, e, ground (arith, e, d.1))

batch_lem : (shift b r : ℕ) → shift ≤ 2 → r < 2 ^ shift → (b * 2 ^ shift + r) / 2 ^ shift ≡ b
batch_lem zero b r s h = omega arith
batch_lem (suc zero) b r s h = omega arith
batch_lem (suc (suc zero)) b r s h = omega arith
batch_lem (suc (suc (suc n))) b r s h = absurd (omega arith)

-- The reads and writes of a disk go round the hosts of the manager in batches: as long as the
-- counter does not wrap around, all those of the `b`-th batch go to the host at `b % count`. A
-- batch has one, two or four commands.
pub turn_lem :
    (shift b r count : ℕ)
    → shift ≤ 2
    → r < 2 ^ shift
    → b * 2 ^ shift + r < 2 ^ 32
    → turn shift (b * 2 ^ shift + r) count ≡ b % count
turn_lem shift b r count s h k =
    let same : u32 (b * 2 ^ shift + r) ≡ b * 2 ^ shift + r = omega arith in
    rw (same, batch_lem shift b r s h) refl

-- A host registered at an index other than 0 of a new vbs leaves the commands that neither read
-- nor write without a host, if commands are spread: they are refused although the vbs has one.
sparse_refused :
    (h id io_per_host shift orig op extend : ℕ)
    → 0 < get_host_index_in_vbs id
    → 0 < io_per_host
    → is_readwrite_cmd op ≡ false
    → (choose_host io_per_host shift
        (some (new_mgr (get_vbs_id_by_host_id id) (get_host_index_in_vbs id) h))
        orig
        op
        extend).0
      ≡ none
unfolding choose_host host_index
sparse_refused h id io_per_host shift orig op extend i p o = ground (arith, o, i, p)

queue_on-served :
    (o : Option ℕ) (w : Hba) (sc : ScsiCmnd) (h : ℕ)
    → o ≡ some h
    → ((queue_on o w sc).0 ≡ taken) ⊎ ((queue_on o w sc).0 ≡ busy)
unfolding queue_on
queue_on-served none w sc h e = absurd (cc e)
queue_on-served (some k) w sc h e = elim (Option-cases (submit (w.hosts k) sc).0) [
  | inl n ↦ inr (ap answer_of n)
  | inr (t, n) ↦ inl (ap answer_of n)
]

-- If commands are spread, the manager has its hosts at the first indices and the disk is not about
-- to be deleted, no command is refused: it is taken, or the host is busy.
pub queue_command_served :
    (io_per_host shift : ℕ) (m : HostMgr) (orig : ℕ) (w : Hba) (sc : ScsiCmnd)
    → Dense m
    → 0 < io_per_host
    → (w.volume.state == disk_prepare_delete) ≡ false
    → ((queue_command io_per_host shift (some m) orig w sc).0 ≡ taken)
      ⊎ ((queue_command io_per_host shift (some m) orig w sc).0 ≡ busy)
unfolding queue_command
queue_command_served io_per_host shift m orig w sc d p live =
    let (i, h, small, e, chosen) =
      choose_host_found io_per_host shift m orig (opcode sc.cmnd) w.volume.extend d p in
    rw live (queue_on-served _ _ sc h chosen)

-- ===== src/Xfer.antt =====
-- vsc_main.c: the data of a command. Kernel and user memory are functions from an address to a
-- byte; a copy that fails in the middle has moved the bytes before.
pub mod Sg
pub mod Bytes
pub mod Linear
pub mod Scatter
pub mod Batch
pub mod Keeps
pub mod Serve
pub mod Request
mod Tests
use vsc.Base.{
  ℕ, zero, suc, ◌+◌, List, [], ◌∷◌, Bool, true, false, ◌==◌, ltb, leb, if◌then◌else◌, min, update,
  u32, sub32,
}
use vsc.Codes.{Ret, ok, err, efault}

-- The two memories.
pub record Mem : Type 0 where
  pub kernel : ℕ → ℕ
  pub user : ℕ → ℕ

-- `copy_to_user` and `copy_from_user`.
pub data Dir : Type 0 where
  to_user from_user : Dir

-- The MMU: how many of the bytes of a copy from or to a user address go through.
abbrev pub Mmu : Type 0
Mmu = ℕ → ℕ → ℕ

-- `struct vsc_iovec`.
pub record IoVec : Type 0 where
  pub iov_base : ℕ
  pub iov_len : ℕ

-- `struct vsc_scsi_data`, with the `nr_iovec` descriptors that stand behind it.
pub record ScsiData : Type 0 where
  pub data_type : ℕ
  pub data_len : ℕ
  pub total_iovec_len : ℕ
  pub offset : ℕ
  pub vec : List IoVec

-- An entry of a scatter list: its `sg_virt` and its length.
pub record Seg : Type 0 where
  pub virt : ℕ
  pub length : ℕ

-- One byte, from kernel address `k` to user address `u` or back.
unfoldable pub copy_byte : Dir → ℕ → ℕ → Mem → Mem
copy_byte to_user k u m = record m { user = update m.user u (m.kernel k) }
copy_byte from_user k u m = record m { kernel = update m.kernel k (m.user u) }

unfoldable pub copy_bytes : Dir → ℕ → ℕ → ℕ → Mem → Mem
copy_bytes dir zero k u m = m
copy_bytes dir (suc n) k u m = copy_bytes dir n (k + 1) (u + 1) (copy_byte dir k u m)

-- The rest of a kernel buffer, which `copy_from_user` clears when it fails.
unfoldable pub clear : ℕ → ℕ → Mem → Mem
clear zero k m = m
clear (suc n) k m = clear n (k + 1) (record m { kernel = update m.kernel k 0 })

unfoldable pub clear_rest : Dir → ℕ → ℕ → Mem → Mem
unfolding clear
clear_rest to_user n k m = m
clear_rest from_user n k m = clear n k m

-- A call of `copy_to_user` or `copy_from_user`: whether all `n` bytes went through, and the memory.
unfoldable pub copy_user : Mmu → Dir → ℕ → ℕ → ℕ → Mem → Bool × Mem
copy_user mmu dir k u n m =
    let done = mmu u n in
    if ltb done n
    then (false, clear_rest dir (sub32 n done) (k + done) (copy_bytes dir done k u m))
    else (true, copy_bytes dir n k u m)

-- The loop of `vsc_copy_data_to_iovec` and `vsc_copy_data_from_iovec`, at kernel address `at`.
unfoldable pub copy_data_loop : Mmu → Dir → List IoVec → ℕ → ℕ → ℕ → Mem → Ret × Mem
unfolding copy_user
copy_data_loop mmu dir [] at left_len total_len m = (ok total_len, m)
copy_data_loop mmu dir (v ∷ vs) at left_len total_len m =
    let copy_len = min v.iov_len left_len in
    let (fine, m') = copy_user mmu dir at v.iov_base copy_len m in
    let rest =
      copy_data_loop mmu dir vs (at + copy_len) (sub32 left_len copy_len) (total_len + copy_len)
        m' in
    if left_len == 0 then (ok total_len, m) else if fine then rest else (err efault, m')

-- `left_len` has 32 bits: nothing compares the offset with the length.
unfoldable pub copy_data : Mmu → Dir → ScsiData → ℕ → ℕ → Mem → Ret × Mem
unfolding copy_data_loop
copy_data mmu dir d from len m =
    copy_data_loop mmu dir d.vec (from + d.offset) (sub32 len d.offset) 0 m

-- `vsc_copy_data_to_iovec`.
abbrev pub copy_data_to_iovec : Mmu → ScsiData → ℕ → ℕ → Mem → Ret × Mem
copy_data_to_iovec mmu = copy_data mmu to_user

-- `vsc_copy_data_from_iovec`.
abbrev pub copy_data_from_iovec : Mmu → ScsiData → ℕ → ℕ → Mem → Ret × Mem
copy_data_from_iovec mmu = copy_data mmu from_user

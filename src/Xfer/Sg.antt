-- ===== src/Xfer/Sg.antt =====
-- vsc_main.c: copies between a scatter list and the descriptors of user space
-- (`vsc_copy_sg_buff_to_iovec`, `vsc_copy_sg_buff_from_iovec`).
use vsc.Base.{
  ℕ, zero, suc, ◌+◌, ◌^◌, List, [], ◌∷◌, Bool, true, false, ◌&&◌, not, Option, none, some, ◌==◌,
  ltb, leb, if◌then◌else◌, min, length, u32, sub32,
}
use vsc.Codes.{Ret, ok, err, oops, efault, einval, eio}
use vsc.Hosts.Queue.{is_readwrite_cmd}
use vsc.Xfer.{Mem, Dir, to_user, from_user, Mmu, IoVec, ScsiData, Seg, copy_user}

-- `x > 0` for an `int`.
unfoldable pub positive : ℕ → Bool
positive x = ltb 0 x && ltb x (2 ^ 31)

-- The variables of the two loops. `sl_first` is the scatter list from there on.
pub record Cursor : Type 0 where
  pub mem : Mem
  pub sl_first : List Seg
  pub sl_offset : ℕ
  pub left_len : ℕ
  pub totallen : ℕ

-- The search for the segment of the offset: `left_len`, `sl_offset` and the list from it on.
unfoldable pub seek : ℕ → List Seg → ℕ → ℕ → Option (ℕ × ℕ × List Seg)
seek offset [] j sl_seek_offset = none
seek offset (s ∷ sl) j sl_seek_offset =
    let pos = u32 (sl_seek_offset + s.length) in
    if ltb offset pos then some (sub32 pos offset, j, s ∷ sl) else seek offset sl (j + 1) pos

-- Where the copy starts in the segment `s`.
unfoldable pub sl_data_offset : ℕ → Seg → ℕ
unfolding positive
sl_data_offset left_len s =
    if positive left_len && leb left_len s.length then sub32 s.length left_len else 0

-- The inner loop, with `n` rounds left, over the list `sl`, for one descriptor. It returns `j`.
unfoldable pub fill_iovec : Mmu → Dir → IoVec → ℕ → ℕ → List Seg → ℕ → Cursor → Ret × Cursor
unfolding sl_data_offset
fill_iovec mmu dir v zero j sl base c = (ok j, c)
fill_iovec mmu dir v (suc n) j [] base c = (oops, c)
fill_iovec mmu dir v (suc n) j (s ∷ sl) base c =
    let off = sl_data_offset c.left_len s in
    let copy_len = min (sub32 s.length off) (sub32 v.iov_len base) in
    let (fine, m) = copy_user mmu dir (s.virt + off) (v.iov_base + base) copy_len c.mem in
    let base' = u32 (base + copy_len) in
    let left = sub32 (sub32 s.length (u32 (off + copy_len))) (sub32 v.iov_len base') in
    let moved = record c { mem = m; totallen = u32 (c.totallen + copy_len) } in
    let rest = fill_iovec mmu dir v n (j + 1) sl base' (record moved { left_len = 0 }) in
    if not fine
    then (err efault, record c { mem = m })
    else if positive left
    then (ok j, record moved { left_len = left; sl_first = s ∷ sl })
    else if leb v.iov_len base'
    then (ok (j + 1), record moved { left_len = 0; sl_first = sl })
    else rest

-- What follows the inner loop: the next descriptor, or the return.
abbrev pub next_iovec : (Cursor → Ret × Cursor) → Ret × Cursor → Ret × Cursor
next_iovec rest (ok j, c) = rest (record c { sl_offset = u32 (c.sl_offset + j) })
next_iovec rest (err e, c) = (err e, c)
next_iovec rest (oops, c) = (oops, c)

-- `!sl_first`.
unfoldable pub is_null : List Seg → Bool
is_null [] = true
is_null (_ ∷ _) = false

-- The outer loop; `count` is `scsi_sg_count`.
unfoldable pub fill_iovecs : Mmu → Dir → ℕ → List IoVec → Cursor → Ret × Cursor
unfolding fill_iovec is_null
fill_iovecs mmu dir count [] c = (ok c.totallen, c)
fill_iovecs mmu dir count (v ∷ vs) c =
    let rest =
      next_iovec (fill_iovecs mmu dir count vs)
        (fill_iovec mmu dir v (sub32 count c.sl_offset) 0 c.sl_first 0 c) in
    if is_null c.sl_first then (ok c.totallen, c) else rest

-- What the transfers read of a command: addresses of the CDB and of the sense buffer,
-- `scsi_sglist`, `scsi_bufflen` and `cmnd[0]`.
pub record Buffers : Type 0 where
  pub cdb : ℕ
  pub cdb_size : ℕ
  pub sense_buffer : ℕ
  pub sgl : List Seg
  pub bufflen : ℕ
  pub op : ℕ

-- The check at the end.
abbrev pub check_total : Bool → ℕ → Ret × Cursor → Ret × Mem
check_total readwrite total (ok n, c) =
    ((if readwrite && not (n == total) then err eio else ok n), c.mem)
check_total readwrite total (err e, c) = (err e, c.mem)
check_total readwrite total (oops, c) = (oops, c.mem)

-- The two functions after the search for the offset.
unfoldable pub after_seek :
    Mmu → Dir → Buffers → ScsiData → Mem → Option (ℕ × ℕ × List Seg) → Ret × Mem
unfolding fill_iovecs
after_seek mmu dir b d m none = (err einval, m)
after_seek mmu dir b d m (some (left, j, sl)) =
    let c : Cursor = record {
      mem = m;
      sl_first = sl;
      sl_offset = j;
      left_len = left;
      totallen = 0;
    } in
    if length d.vec == 0
    then (err einval, m)
    else if is_readwrite_cmd b.op && not (b.bufflen == d.total_iovec_len)
    then (err eio, m)
    else check_total (is_readwrite_cmd b.op) d.total_iovec_len
        (fill_iovecs mmu dir (length b.sgl) d.vec c)

-- The common text of the two functions.
unfoldable pub copy_sg_buff : Mmu → Dir → Buffers → ScsiData → Mem → Ret × Mem
unfolding seek after_seek
copy_sg_buff mmu dir b d m = after_seek mmu dir b d m (seek d.offset b.sgl 0 0)

-- `vsc_copy_sg_buff_to_iovec`.
abbrev pub copy_sg_buff_to_iovec : Mmu → Buffers → ScsiData → Mem → Ret × Mem
copy_sg_buff_to_iovec mmu = copy_sg_buff mmu to_user

-- `vsc_copy_sg_buff_from_iovec`.
abbrev pub copy_sg_buff_from_iovec : Mmu → Buffers → ScsiData → Mem → Ret × Mem
copy_sg_buff_from_iovec mmu = copy_sg_buff mmu from_user

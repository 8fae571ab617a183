-- ===== src/Xfer/Keeps.antt =====
-- vsc_main.c: transfers to user space leave kernel memory alone.
use vsc.Base.{
  ℕ, zero, suc, ◌+◌, ◌≡◌, ◌≤◌, refl, ◌∙◌, List, [], ◌∷◌, Bool, ltb, Option, none, some, arith, min,
  u32, sub32, length, Bool-cases, inl, inr,
}
use vsc.Codes.{Ret, ok, err, oops}
use vsc.Cmds.{Cmds, ScsiCmnd}
use vsc.Hosts.Queue.{is_readwrite_cmd}
use vsc.Xfer.{
  Mem, to_user, from_user, clear, Mmu, IoVec, ScsiData, Seg, copy_byte, copy_bytes, clear_rest,
  copy_user, copy_data_loop, copy_data,
}
use vsc.Xfer.Sg.{
  Cursor, Buffers, sl_data_offset, is_null, fill_iovec, fill_iovecs, next_iovec, check_total, seek,
  after_seek, copy_sg_buff,
}
use vsc.Cmds.Respond.{rounds}
use vsc.Codes.{max_scsi_data_and_rsp_length}
use vsc.Xfer.Batch.{
  mode_read, Xfer, DataMsg, Layout, ScsiBuf, xfer_data, xfer_for, xfer_at, find_cmd, scsi_cmd_data,
  next_request, each_request, release_buf, multi_scsi_cmd_data, fill_buf, spill, alloc_scsi_buf,
}

copy_bytes-kernel : (n k u : ℕ) (m : Mem) → (copy_bytes to_user n k u m).kernel ≡ m.kernel
unfolding copy_bytes copy_byte
copy_bytes-kernel zero k u m = refl
copy_bytes-kernel (suc n) k u m = copy_bytes-kernel n (k + 1) (u + 1) (copy_byte to_user k u m)

nothing_moved :
    (a b k l u : ℕ) (m : Mem)
    → a ≡ 0
    → b ≡ 0
    → clear_rest from_user a k (copy_bytes from_user b l u m) ≡ m
unfolding copy_bytes clear_rest clear
nothing_moved zero zero k l u m p q = refl
nothing_moved zero (suc b) k l u m p q = absurd (omega arith)
nothing_moved (suc a) b k l u m p q = absurd (omega arith)

module _ (mmu : Mmu) where
  copy_user-kernel : (k u n : ℕ) (m : Mem) → (copy_user mmu to_user k u n m).1.kernel ≡ m.kernel
  unfolding copy_user clear_rest
  copy_user-kernel k u n m = elim (Bool-cases (ltb (mmu u n) n)) [
    | inl e ↦ rw e (copy_bytes-kernel (mmu u n) k u m)
    | inr e ↦ rw e (copy_bytes-kernel n k u m)
  ]

  copy_data_loop-kernel :
      (vs : List IoVec) (at left total : ℕ) (m : Mem)
      → (copy_data_loop mmu to_user vs at left total m).1.kernel ≡ m.kernel
  unfolding copy_data_loop
  copy_data_loop-kernel [] at left total m = refl
  copy_data_loop-kernel (v ∷ vs) at left total m =
      let n = min v.iov_len left in
      let r = copy_user mmu to_user at v.iov_base n m in
      ground (
        arith,
        copy_user-kernel at v.iov_base n m,
        copy_data_loop-kernel vs (at + n) (sub32 left n) (total + n) r.1,
      )

  fill_iovec-kernel :
      (v : IoVec) (n j : ℕ) (sl : List Seg) (base : ℕ) (c : Cursor)
      → (fill_iovec mmu to_user v n j sl base c).1.mem.kernel ≡ c.mem.kernel
  unfolding fill_iovec
  fill_iovec-kernel v zero j sl base c = refl
  fill_iovec-kernel v (suc n) j [] base c = refl
  fill_iovec-kernel v (suc n) j (s ∷ sl) base c =
      let off = sl_data_offset c.left_len s in
      let w = min (sub32 s.length off) (sub32 v.iov_len base) in
      let r = copy_user mmu to_user (s.virt + off) (v.iov_base + base) w c.mem in
      ground (
        arith,
        copy_user-kernel (s.virt + off) (v.iov_base + base) w c.mem,
        fill_iovec-kernel v n (j + 1) sl (u32 (base + w))
            (record c { mem = r.1; totallen = u32 (c.totallen + w); left_len = 0 }),
      )

  next_iovec-kernel :
      (k : Cursor → Ret × Cursor) (r : Ret × Cursor)
      → ((c : Cursor) → (k c).1.mem.kernel ≡ c.mem.kernel)
      → (next_iovec k r).1.mem.kernel ≡ r.1.mem.kernel
  next_iovec-kernel k (ok j, c) h = h _
  next_iovec-kernel k (err e, c) h = refl
  next_iovec-kernel k (oops, c) h = refl

  fill_iovecs-kernel :
      (count : ℕ) (vs : List IoVec) (c : Cursor)
      → (fill_iovecs mmu to_user count vs c).1.mem.kernel ≡ c.mem.kernel
  unfolding fill_iovecs
  fill_iovecs-kernel count [] c = refl
  fill_iovecs-kernel count (v ∷ vs) c = elim (Bool-cases (is_null c.sl_first)) [
    | inl e ↦ rw e refl
    | inr e ↦ rw e (
        next_iovec-kernel (fill_iovecs mmu to_user count vs)
          (fill_iovec mmu to_user v (sub32 count c.sl_offset) 0 c.sl_first 0 c)
          (fill_iovecs-kernel count vs)
        ∙ fill_iovec-kernel v (sub32 count c.sl_offset) 0 c.sl_first 0 c)
  ]

  check_total-kernel :
      (t : Bool) (n : ℕ) (r : Ret × Cursor) → (check_total t n r).1.kernel ≡ r.1.mem.kernel
  check_total-kernel t n (ok k, c) = refl
  check_total-kernel t n (err e, c) = refl
  check_total-kernel t n (oops, c) = refl

  after_seek-kernel :
      (b : Buffers) (d : ScsiData) (m : Mem) (o : Option (ℕ × ℕ × List Seg))
      → (after_seek mmu to_user b d m o).1.kernel ≡ m.kernel
  unfolding after_seek
  after_seek-kernel b d m none = refl
  after_seek-kernel b d m (some (left, j, sl)) =
      let c : Cursor = record {
        mem = m;
        sl_first = sl;
        sl_offset = j;
        left_len = left;
        totallen = 0;
      } in
      let r = fill_iovecs mmu to_user (length b.sgl) d.vec c in
      ground (
        arith,
        check_total-kernel (is_readwrite_cmd b.op) d.total_iovec_len r,
        fill_iovecs-kernel (length b.sgl) d.vec c,
      )

  xfer_data-kernel :
      (d : ScsiData) (b : Buffers) (x : Xfer)
      → (xfer_data mmu mode_read d b x).1.mem.kernel ≡ x.mem.kernel
  unfolding xfer_data copy_data copy_sg_buff
  xfer_data-kernel d b x = ground (
    arith,
    copy_data_loop-kernel d.vec (b.cdb + d.offset) (sub32 b.cdb_size d.offset) 0 x.mem,
    after_seek-kernel b d x.mem (seek d.offset b.sgl 0 0),
  )

  spill_fits :
      (user_ptr len : ℕ) (b : ScsiBuf) (x : Xfer)
      → len ≤ max_scsi_data_and_rsp_length
      → (spill mmu user_ptr len b x).mem ≡ x.mem
  unfolding spill
  spill_fits user_ptr len b x h = nothing_moved _ _ _ _ _ x.mem (omega arith) (omega arith)

  module _ (layout : Layout) (q : Cmds) where
    xfer_for-kernel :
        (d : ScsiData) (o : Option ScsiCmnd) (x : Xfer)
        → (xfer_for mmu layout mode_read d o x).1.mem.kernel ≡ x.mem.kernel
    unfolding xfer_for
    xfer_for-kernel d none x = refl
    xfer_for-kernel d (some sc) x = xfer_data-kernel d (layout sc) x

    xfer_at-kernel :
        (m : DataMsg) (o : Option ℕ) (x : Xfer)
        → (xfer_at mmu layout mode_read q m o x).1.mem.kernel ≡ x.mem.kernel
    unfolding xfer_at
    xfer_at-kernel m none x = refl
    xfer_at-kernel m (some c) x = xfer_for-kernel m.scsi_data (q.cmd_pool_tbl c).scsi_cmd x

    next_request-kernel :
        (r : Ret × Xfer) (k : Xfer → Ret × Xfer)
        → ((x : Xfer) → (k x).1.mem.kernel ≡ x.mem.kernel)
        → (next_request r k).1.mem.kernel ≡ r.1.mem.kernel
    next_request-kernel (ok n, x) k h = h x
    next_request-kernel (err e, x) k h = refl
    next_request-kernel (oops, x) k h = refl

    each_request-kernel :
        (slots : ℕ → DataMsg) (n i len : ℕ) (x : Xfer)
        → (each_request mmu layout mode_read q slots n i len x).1.mem.kernel ≡ x.mem.kernel
    unfolding each_request scsi_cmd_data
    each_request-kernel slots zero i len x = refl
    each_request-kernel slots (suc n) i len x =
        next_request-kernel (scsi_cmd_data mmu layout mode_read q len (slots i) x)
          (each_request mmu layout mode_read q slots n (i + 1) (sub32 len 256))
          (each_request-kernel slots n (i + 1) (sub32 len 256))
        ∙ xfer_at-kernel (slots i) (find_cmd q len (slots i)) x

    release_buf-kernel :
        (b : ScsiBuf) (r : Ret × Xfer) → (release_buf b r).1.mem.kernel ≡ r.1.mem.kernel
    release_buf-kernel b (ok n, x) = refl
    release_buf-kernel b (err e, x) = refl
    release_buf-kernel b (oops, x) = refl

    -- Whatever user space asks for in a read of data that fits in the buffer, and wherever its
    -- memory fails, kernel memory is not changed.
    pub multi_scsi_cmd_data-kernel :
        (pool : Option ScsiBuf) (image : ScsiBuf) (user_ptr len : ℕ) (x : Xfer)
        → len ≤ max_scsi_data_and_rsp_length
        → (multi_scsi_cmd_data mmu layout mode_read q pool image user_ptr len x).1.mem.kernel
          ≡ x.mem.kernel
    unfolding multi_scsi_cmd_data
    multi_scsi_cmd_data-kernel none image user_ptr len x h = refl
    multi_scsi_cmd_data-kernel (some memory) image user_ptr len x h =
        let b = fill_buf len image (alloc_scsi_buf memory) in
        let y = spill mmu user_ptr len b x in
        let n = (b.slots 0).reserved0 in
        ground (
          arith,
          spill_fits user_ptr len b x h,
          release_buf-kernel b (each_request mmu layout mode_read q b.slots (rounds n) 0 len y),
          each_request-kernel b.slots (rounds n) 0 len y,
        )

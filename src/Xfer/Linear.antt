-- ===== src/Xfer/Linear.antt =====
-- vsc_main.c: `vsc_copy_data_to_iovec` and `vsc_copy_data_from_iovec` against the transfer of bytes.
use vsc.Base.{
  ℕ, zero, suc, ◌+◌, ◌-◌, ◌^◌, ◌≤◌, ◌<◌, ◌≡◌, ◌⊎◌, refl, ap, ap₂, sym, ◌∙◌, ◌++◌, List, [], ◌∷◌,
  true, false, ◌==◌, min, length, drop, arith, sub32, append-nil, Bool-cases, inl, inr,
}
use vsc.Codes.{ok}
use vsc.Xfer.{Mem, Dir, Mmu, IoVec, ScsiData, copy_bytes, copy_data_loop, copy_data}
use vsc.Xfer.Bytes.{
  range, iov_bytes, transfer, transfer-nil, transfer-none, drop-range_all, transfer-step,
  transfer-spent, length-iov_bytes, length-iov_nil, AllMapped, copy_user-fine,
}

spent : (l r : ℕ) → min l r ≡ 0 → (l ≡ 0) ⊎ (r ≡ 0)
spent zero r h = inl refl
spent (suc l) zero h = inr refl
spent (suc l) (suc r) h = absurd (omega arith)

module _ (mmu : Mmu) (dir : Dir) (mapped : AllMapped mmu) where
  loop-stop :
      (v : IoVec) (vs : List IoVec) (at left total : ℕ) (m : Mem)
      → (left == 0) ≡ true
      → copy_data_loop mmu dir (v ∷ vs) at left total m ≡ (ok total, m)
  unfolding copy_data_loop
  loop-stop v vs at left total m h = rw h refl

  loop-nil :
      (at left total : ℕ) (m : Mem) → copy_data_loop mmu dir [] at left total m ≡ (ok total, m)
  unfolding copy_data_loop
  loop-nil at left total m = refl

  -- One round of the loop, in which nothing fails.
  loop-cons :
      (v : IoVec) (vs : List IoVec) (at left total : ℕ) (m : Mem)
      → (left == 0) ≡ false
      → copy_data_loop mmu dir (v ∷ vs) at left total m
        ≡ copy_data_loop mmu dir vs
            (at + min v.iov_len left)
            (sub32 left (min v.iov_len left))
            (total + min v.iov_len left)
            (copy_bytes dir (min v.iov_len left) at v.iov_base m)
  unfolding copy_data_loop
  loop-cons v vs at left total m h =
      rw (h, copy_user-fine mmu dir at v.iov_base (min v.iov_len left) m mapped) refl

  transfer-cons :
      (v : IoVec) (vs : List IoVec) (at left : ℕ) (m : Mem)
      → transfer dir (range at left) (iov_bytes (v ∷ vs)) m
        ≡ transfer dir
            (range (at + min v.iov_len left) (left - min v.iov_len left))
            (iov_bytes vs)
            (copy_bytes dir (min v.iov_len left) at v.iov_base m)
  unfolding iov_bytes
  transfer-cons v vs at left m =
      let n = min v.iov_len left in
      ap (λ ks. transfer dir ks (range v.iov_base v.iov_len ++ iov_bytes vs) m)
        (sym (append-nil (range at left)))
      ∙ transfer-step dir at left v.iov_base v.iov_len n [] (iov_bytes vs) m (omega arith)
          (omega arith)
      ∙ ap
          (λ ks.
            transfer dir ks (range (v.iov_base + n) (v.iov_len - n) ++ iov_bytes vs)
              (copy_bytes dir n at v.iov_base m))
          (append-nil (range (at + n) (left - n)))
      ∙ transfer-spent dir (at + n) (left - n) (v.iov_base + n) (v.iov_len - n) (iov_bytes vs)
          (copy_bytes dir n at v.iov_base m) (spent (left - n) (v.iov_len - n) (omega arith))

  nil-eq : (at left : ℕ) (m : Mem) → m ≡ transfer dir (range at left) (iov_bytes []) m
  unfolding iov_bytes
  nil-eq at left m = sym (transfer-nil dir (range at left) m)

  pub copy_data_loop_lem :
      (vs : List IoVec) (at left total : ℕ) (m : Mem)
      → left < 2 ^ 32
      → copy_data_loop mmu dir vs at left total m ≡ (
        ok (total + min left (length (iov_bytes vs))),
        transfer dir (range at left) (iov_bytes vs) m,
      )
  copy_data_loop_lem [] at left total m h =
      loop-nil at left total m
      ∙ ap₂ (λ n m'. (ok n, m')) (omega (arith, length-iov_nil)) (nil-eq at left m)
  copy_data_loop_lem (v ∷ vs) at left total m h = elim (Bool-cases (left == 0)) [
    | inl e ↦
        loop-stop v vs at left total m e
        ∙ ap₂ (λ n m'. (ok n, m')) (ground arith)
            (sym (transfer-none dir at left (iov_bytes (v ∷ vs)) m (ground arith)))
    | inr e ↦
        let n = min v.iov_len left in
        let m' = copy_bytes dir n at v.iov_base m in
        loop-cons v vs at left total m e
        ∙ ap (λ l. copy_data_loop mmu dir vs (at + n) l (total + n) m') (omega arith)
        ∙ copy_data_loop_lem vs (at + n) (left - n) (total + n) m' (omega arith)
        ∙ ap₂ (λ k m''. (ok k, m'')) (omega (arith, length-iov_bytes v vs))
            (sym (transfer-cons v vs at left m))
  ]

module _ (mmu : Mmu) (dir : Dir) (d : ScsiData) (from len : ℕ) (m : Mem)
    (mapped : AllMapped mmu) where
  -- If the MMU lets every copy through and the offset lies in a buffer of 32-bit length, the copy
  -- between a kernel buffer and the descriptors of user space moves, byte by byte and in order,
  -- the bytes of the buffer from the offset on and the bytes of the descriptors, up to the end of
  -- the shorter, and returns their number.
  pub copy_data_lem :
      d.offset ≤ len
      → len < 2 ^ 32
      → copy_data mmu dir d from len m ≡ (
        ok (min (len - d.offset) (length (iov_bytes d.vec))),
        transfer dir (drop d.offset (range from len)) (iov_bytes d.vec) m,
      )
  unfolding copy_data
  copy_data_lem h k =
      ap (λ l. copy_data_loop mmu dir d.vec (from + d.offset) l 0 m) (omega arith)
      ∙ copy_data_loop_lem mmu dir mapped d.vec (from + d.offset) (len - d.offset) 0 m (omega arith)
      ∙ ap₂ (λ n ks. (ok n, transfer dir ks (iov_bytes d.vec) m)) (omega arith)
          (sym (drop-range_all from len d.offset h))

  -- If the MMU lets every copy through and the offset, of 32 bits, lies past the end of the
  -- buffer, nothing refuses the request: the copy moves bytes behind the buffer, from the offset
  -- on, as many as the descriptors hold or as `len - offset` is modulo 2 ^ 32.
  copy_data_past_end :
      len < d.offset
      → d.offset < 2 ^ 32
      → copy_data mmu dir d from len m ≡ (
        ok (min (len + 2 ^ 32 - d.offset) (length (iov_bytes d.vec))),
        transfer dir (range (from + d.offset) (len + 2 ^ 32 - d.offset)) (iov_bytes d.vec) m,
      )
  unfolding copy_data
  copy_data_past_end h k =
      ap (λ l. copy_data_loop mmu dir d.vec (from + d.offset) l 0 m) (omega arith)
      ∙ copy_data_loop_lem mmu dir mapped d.vec (from + d.offset) (len + 2 ^ 32 - d.offset) 0 m
          (omega arith)
      ∙ ap
          (λ n. (
            ok n,
            transfer dir (range (from + d.offset) (len + 2 ^ 32 - d.offset)) (iov_bytes d.vec) m,
          ))
          (omega arith)

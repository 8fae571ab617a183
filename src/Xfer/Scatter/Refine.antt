-- ===== src/Xfer/Scatter/Refine.antt =====
-- vsc_main.c: `vsc_copy_sg_buff_to_iovec` and `vsc_copy_sg_buff_from_iovec` against the transfer of
-- bytes that they promise.
use vsc.Base.{
  ℕ, zero, suc, ◌+◌, ◌-◌, ◌^◌, ◌≤◌, ◌<◌, ◌≡◌, ◌⊎◌, inl, inr, refl, ap, sym, ◌∙◌, ◌++◌, List, [],
  ◌∷◌, true, false, min, length, arith, All, Bool-cases, u32, sub32,
}
use vsc.Codes.{Ret, ok}
use vsc.Xfer.{Dir, Mmu, IoVec, Seg}
use vsc.Xfer.Sg.{Cursor, is_null, fill_iovec, fill_iovecs}
use vsc.Xfer.Bytes.{
  range, range-eq, iov_bytes, transfer, transfer_start, transfer_end, AllMapped, length-iov_bytes,
  length-iov_nil,
}
use vsc.Xfer.Scatter.{IsSmall, pending, rest}
use vsc.Xfer.Scatter.Descriptor.{fill_lem}

-- A descriptor is shorter than 2 ^ 31.
abbrev pub IsShort : IoVec → Type 0
IsShort v = v.iov_len < 2 ^ 31

-- The transfer of `ks` to `us`, as the loops leave it.
pub record Copied (dir : Dir) (ks us : List ℕ) (c : Cursor) (r : Ret × Cursor) : Type 0 where
  pub after : Cursor
  pub result : r ≡ (ok (c.totallen + min (length ks) (length us)), after)
  pub memory : after.mem ≡ transfer dir ks us c.mem

rest_null : (k left : ℕ) (sl : List Seg) → is_null sl ≡ true → rest k left sl ≡ []
unfolding rest pending is_null
rest_null zero left sl h = refl
rest_null (suc k) left [] h = refl
rest_null (suc k) left (s ∷ sl) h = absurd (grind arith)

iov_cons :
    (v : IoVec) (vs : List IoVec)
    → range (v.iov_base + 0) (v.iov_len - 0) ++ iov_bytes vs ≡ iov_bytes (v ∷ vs)
unfolding iov_bytes
iov_cons v vs = ap (λ r. r ++ iov_bytes vs) (range-eq (omega arith) (omega arith))

module _ (mmu : Mmu) (dir : Dir) (mapped : AllMapped mmu) (size : ℕ) (fits : size < 2 ^ 32) where
  iovecs-nil : (c : Cursor) → fill_iovecs mmu dir size [] c ≡ (ok c.totallen, c)
  unfolding fill_iovecs
  iovecs-nil c = refl

  iovecs_null :
      (v : IoVec) (vs : List IoVec) (c : Cursor)
      → is_null c.sl_first ≡ true
      → fill_iovecs mmu dir size (v ∷ vs) c ≡ (ok c.totallen, c)
  unfolding fill_iovecs
  iovecs_null v vs c h = rw h refl

  -- A descriptor, and the next from the cursor behind it.
  iovecs-cons :
      (v : IoVec) (vs : List IoVec) (c c' : Cursor) (k j : ℕ)
      → is_null c.sl_first ≡ false
      → c.sl_offset + k ≡ size
      → fill_iovec mmu dir v k 0 c.sl_first 0 c ≡ (ok j, c')
      → c'.sl_offset ≡ c.sl_offset
      → j ≤ k
      → fill_iovecs mmu dir size (v ∷ vs) c
        ≡ fill_iovecs mmu dir size vs (record c' { sl_offset = c.sl_offset + j })
  unfolding fill_iovecs
  iovecs-cons v vs c c' k j h e r o l =
      let n : sub32 size c.sl_offset ≡ k = omega arith in
      let u : u32 (c'.sl_offset + j) ≡ c.sl_offset + j = omega (arith, o) in
      rw (h, n, r) (ap (λ i. fill_iovecs mmu dir size vs (record c' { sl_offset = i })) u)

  pub fill_iovecs-Copied :
      (vs : List IoVec) (k : ℕ) (c : Cursor)
      → All IsShort vs
      → c.sl_offset + k ≡ size
      → (k ≡ 0) ⊎ (length c.sl_first ≡ k)
      → All IsSmall c.sl_first
      → c.totallen + length (rest k c.left_len c.sl_first) < 2 ^ 32
      → Copied dir (rest k c.left_len c.sl_first) (iov_bytes vs) c (fill_iovecs mmu dir size vs c)
  fill_iovecs-Copied [] k c short at listed small tot = record {
    after = c;
    result = iovecs-nil c ∙ ap (λ n. (ok n, c)) (omega (arith, length-iov_nil));
    memory = sym (transfer_end dir (rest k c.left_len c.sl_first) c.mem);
  }
  fill_iovecs-Copied (v ∷ vs) k c short at listed small tot =
      elim (Bool-cases (is_null c.sl_first)) [
        | inl null ↦
            let e = rest_null k c.left_len c.sl_first null in
            record {
              after = c;
              result = iovecs_null v vs c null ∙ ap (λ n. (ok n, c)) (omega (arith, ap length e));
              memory = rw e (sym (transfer_start dir (iov_bytes (v ∷ vs)) c.mem));
            }
        | inr more ↦
            let f = fill_lem mmu dir mapped v short.0 k c listed small tot in
            let c' = record f.after { sl_offset = c.sl_offset + f.passed } in
            let ih =
              fill_iovecs-Copied vs (k - f.passed) c' short.1 (omega (arith, at, f.passed_le))
                (elim f.on_list [ inl e ↦ inl (omega (arith, e)) | inr e ↦ inr e ]) f.small
                (omega (arith, f.counted, tot)) in
            record {
              after = ih.after;
              result =
                  iovecs-cons v vs c f.after k f.passed more at
                    (f.result ∙ ap (λ i. (ok i, f.after)) (omega arith)) f.same_offset f.passed_le
                  ∙ ih.result
                  ∙ ap (λ n. (ok n, ih.after))
                      (omega (arith, f.counted, f.less, length-iov_bytes v vs));
              memory =
                  ih.memory
                  ∙ sym (f.copied (iov_bytes vs))
                  ∙ ap (λ us. transfer dir (rest k c.left_len c.sl_first) us c.mem) (iov_cons v vs);
            }
      ]

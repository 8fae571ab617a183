-- ===== src/Xfer/Scatter/Descriptor.antt =====
-- vsc_main.c: a descriptor of user space is served from the segments that are left.
use native.Mathlib.Decide.{dec_lt}
use vsc.Base.{
  ℕ, ◌+◌, ◌-◌, ◌^◌, ◌≤◌, ◌<◌, ◌≡◌, ◌⊎◌, inl, inr, refl, ap, sym, subst, List, [], ◌∷◌, min, length,
  arith, All,
}
use vsc.Xfer.{Dir, Mmu, IoVec, Seg}
use vsc.Xfer.Sg.{Cursor, sl_data_offset, fill_iovec}
use vsc.Xfer.Bytes.{AllMapped}
use vsc.Xfer.Scatter.{
  IsSmall, pending, rest, pending-zero, pending-nil, rest-zero, rest-pending, length-pending,
}
use vsc.Xfer.Scatter.Rounds.{Filled, Filled-nil, Filled-part, Filled-full, Filled-more, next}

module _ (mmu : Mmu) (dir : Dir) (mapped : AllMapped mmu) (v : IoVec)
    (short : v.iov_len < 2 ^ 31) where
  fills :
      (sl : List Seg) (j base : ℕ) (c : Cursor)
      → base ≤ v.iov_len
      → All IsSmall sl
      → All IsSmall c.sl_first
      → c.totallen + length (pending c.left_len sl) < 2 ^ 32
      → Filled dir v
          (pending c.left_len sl)
          (length sl)
          j
          base
          c
          (fill_iovec mmu dir v (length sl) j sl base c)
  fills [] j base c b sm first tot =
      subst (λ ks. Filled dir v ks 0 j base c (fill_iovec mmu dir v 0 j [] base c))
        (sym (pending-nil c.left_len)) (Filled-nil mmu dir mapped v short [] j base c first)
  fills (s ∷ sl) j base c b sm first tot =
      let lp = length-pending c.left_len s sl in
      let lz = ap length (pending-zero sl) in
      let off' = sl_data_offset c.left_len s in
      let w' = min (s.length - off') (v.iov_len - base) in
      elim (dec_lt w' (s.length - off')) [
        | yes h ↦
            Filled-part mmu dir mapped v short (length sl) j s sl sm.0 base c b sm.1 tot refl h
        | no h ↦ elim (dec_lt (base + w') v.iov_len) [
          | yes k ↦
              Filled-more mmu dir mapped v short (length sl) j s sl sm.0 base c b tot (omega arith)
                k
                (fills sl (j + 1) (base + w')
                  (record (next mmu dir mapped v short (length sl) j s sl sm.0 base c b) {
                    left_len = 0;
                  })
                  (omega arith) sm.1 first (omega (arith, lp, lz)))
          | no k ↦
              Filled-full mmu dir mapped v short (length sl) j s sl sm.0 base c b sm.1 tot refl
                (omega arith) (omega arith)
        ]
      ]

  -- The inner loop, at the start of a descriptor.
  pub fill_lem :
      (k : ℕ) (c : Cursor)
      → (k ≡ 0) ⊎ (length c.sl_first ≡ k)
      → All IsSmall c.sl_first
      → c.totallen + length (rest k c.left_len c.sl_first) < 2 ^ 32
      → Filled dir v
          (rest k c.left_len c.sl_first)
          k
          0
          0
          c
          (fill_iovec mmu dir v k 0 c.sl_first 0 c)
  fill_lem k c (inl e) sm tot =
      subst
        (λ i.
          Filled dir v (rest i c.left_len c.sl_first) i 0 0 c
            (fill_iovec mmu dir v i 0 c.sl_first 0 c))
        (sym e)
        (subst (λ ks. Filled dir v ks 0 0 0 c (fill_iovec mmu dir v 0 0 c.sl_first 0 c))
          (sym (rest-zero c.left_len c.sl_first))
          (Filled-nil mmu dir mapped v short c.sl_first 0 0 c sm))
  fill_lem k c (inr e) sm tot =
      let tot' : c.totallen + length (rest (length c.sl_first) c.left_len c.sl_first) < 2 ^ 32 =
        subst (λ i. c.totallen + length (rest i c.left_len c.sl_first) < 2 ^ 32) (sym e) tot in
      subst
        (λ i.
          Filled dir v (rest i c.left_len c.sl_first) i 0 0 c
            (fill_iovec mmu dir v i 0 c.sl_first 0 c))
        e
        (subst
          (λ ks.
            Filled dir v ks (length c.sl_first) 0 0 c
              (fill_iovec mmu dir v (length c.sl_first) 0 c.sl_first 0 c))
          (sym (rest-pending c.left_len c.sl_first))
          (fills c.sl_first 0 0 c (omega arith) sm sm
            (omega (arith, ap length (rest-pending c.left_len c.sl_first), e, tot'))))

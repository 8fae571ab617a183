-- ===== src/Xfer/Scatter/Rounds.antt =====
-- vsc_main.c: the inner loop of the two scatter copies serves one descriptor.
use vsc.Base.{
  ℕ, suc, ◌+◌, ◌-◌, ◌^◌, ◌≤◌, ◌<◌, ◌≡◌, ◌⊎◌, inl, inr, refl, ap, ap₂, sym, ◌∙◌, ◌++◌, List, [], ◌∷◌,
  length, arith, All,
}
use vsc.Codes.{Ret, ok}
use vsc.Xfer.{Dir, Mmu, IoVec, Seg}
use vsc.Xfer.Sg.{Cursor, sl_data_offset, fill_iovec}
use vsc.Xfer.Bytes.{range, range-eq, range-none, seg_bytes, transfer, transfer-step, AllMapped}
use vsc.Xfer.Scatter.{
  IsSmall, pending, rest, pending-zero, rest-length, length-pending, sl_data_offset-le,
  sl_data_offset-left, here, amount, moved, fill-part, fill-full, fill-more,
}

-- What the loop has done from the cursor `c` on, with `n` rounds left, if `ks` are the kernel
-- addresses that were left.
pub record Filled (dir : Dir) (v : IoVec) (ks : List ℕ) (n j base : ℕ) (c : Cursor)
    (r : Ret × Cursor) : Type 0 where
  pub passed : ℕ
  pub after : Cursor
  pub result : r ≡ (ok (j + passed), after)
  pub passed_le : passed ≤ n
  pub same_offset : after.sl_offset ≡ c.sl_offset
  pub on_list : (n ≡ passed) ⊎ (length after.sl_first ≡ n - passed)
  pub small : All IsSmall after.sl_first
  pub copied :
      (us : List ℕ)
      → transfer dir ks (range (v.iov_base + base) (v.iov_len - base) ++ us) c.mem
        ≡ transfer dir (rest (n - passed) after.left_len after.sl_first) us after.mem
  pub less :
      length (rest (n - passed) after.left_len after.sl_first) ≡ length ks - (v.iov_len - base)
  pub counted :
      after.totallen + length (rest (n - passed) after.left_len after.sl_first)
      ≡ c.totallen + length ks

module _ (mmu : Mmu) (dir : Dir) (mapped : AllMapped mmu) (v : IoVec)
    (short : v.iov_len < 2 ^ 31) where
  -- No round is left.
  pub Filled-nil :
      (sl : List Seg) (j base : ℕ) (c : Cursor)
      → All IsSmall c.sl_first
      → Filled dir v [] 0 j base c (fill_iovec mmu dir v 0 j sl base c)
  unfolding fill_iovec transfer rest
  Filled-nil sl j base c small = record {
    passed = 0;
    after = c;
    result = ap (λ i. (ok i, c)) (omega arith);
    passed_le = omega arith;
    same_offset = refl;
    on_list = inl refl;
    small = small;
    copied = λ us. refl;
    less = omega arith;
    counted = refl;
  }

-- One segment `s`, of which the bytes from `off` on are left; `w` of them fit in the descriptor.
module _ (mmu : Mmu) (dir : Dir) (mapped : AllMapped mmu) (v : IoVec) (short : v.iov_len < 2 ^ 31)
    (n j : ℕ) (s : Seg) (sl : List Seg) (small : IsSmall s) (base : ℕ) (c : Cursor)
    (within : base ≤ v.iov_len) where
  abbrev pub off : ℕ
  off = here mmu dir mapped v short n j s sl small base c within

  abbrev pub w : ℕ
  w = amount mmu dir mapped v short n j s sl small base c within

  abbrev pub next : Cursor
  next = moved mmu dir mapped v short n j s sl small base c within

  copied_step :
      (us : List ℕ)
      → transfer dir
          (pending c.left_len (s ∷ sl))
          (range (v.iov_base + base) (v.iov_len - base) ++ us)
          c.mem
        ≡ transfer dir
            (range (s.virt + off + w) (s.length - off - w) ++ seg_bytes sl)
            (range (v.iov_base + base + w) (v.iov_len - base - w) ++ us)
            next.mem
  unfolding pending
  copied_step us =
      transfer-step dir (s.virt + off) (s.length - off) (v.iov_base + base) (v.iov_len - base) w
        (seg_bytes sl) us c.mem (omega arith) (omega arith)

  -- The descriptor is full before the segment ends.
  at-part :
      w < s.length - off
      → (us : List ℕ)
      → transfer dir
          (range (s.virt + off + w) (s.length - off - w) ++ seg_bytes sl)
          (range (v.iov_base + base + w) (v.iov_len - base - w) ++ us)
          next.mem
        ≡ transfer dir (pending (s.length - off - w) (s ∷ sl)) us next.mem
  unfolding pending range
  at-part h us =
      let e : sl_data_offset (s.length - off - w) s ≡ off + w =
        sl_data_offset-left (s.length - off - w) s small (omega arith) (omega arith)
        ∙ omega (arith, sl_data_offset-le c.left_len s small) in
      ap₂ (λ ks us'. transfer dir ks us' next.mem)
        (ap (λ r. r ++ seg_bytes sl) (range-eq (omega (arith, e)) (omega (arith, e))))
        (range-none (v.iov_base + base + w) (v.iov_len - base - w) us (omega arith))

  -- The segment ends.
  at-end :
      w ≡ s.length - off
      → (us : List ℕ)
      → transfer dir
          (range (s.virt + off + w) (s.length - off - w) ++ seg_bytes sl)
          (range (v.iov_base + base + w) (v.iov_len - base - w) ++ us)
          next.mem
        ≡ transfer dir
            (seg_bytes sl)
            (range (v.iov_base + (base + w)) (v.iov_len - (base + w)) ++ us)
            next.mem
  at-end h us =
      ap₂ (λ ks us'. transfer dir ks us' next.mem)
        (range-none (s.virt + off + w) (s.length - off - w) (seg_bytes sl) (omega arith))
        (ap (λ r. r ++ us) (range-eq (omega arith) (omega arith)))

  pub Filled-part :
      All IsSmall sl
      → c.totallen + length (pending c.left_len (s ∷ sl)) < 2 ^ 32
      → length sl ≡ n
      → w < s.length - off
      → Filled dir v
          (pending c.left_len (s ∷ sl))
          (suc n)
          j
          base
          c
          (fill_iovec mmu dir v (suc n) j (s ∷ sl) base c)
  unfolding rest
  Filled-part sm tot len h =
      let lp = length-pending c.left_len s sl in
      let lr = length-pending (s.length - off - w) s sl in
      let e : sl_data_offset (s.length - off - w) s ≡ off + w =
        sl_data_offset-left (s.length - off - w) s small (omega arith) (omega arith)
        ∙ omega (arith, sl_data_offset-le c.left_len s small) in
      let sub : suc n - 0 ≡ suc n = omega arith in
      record {
        passed = 0;
        after = record next { left_len = s.length - off - w; sl_first = s ∷ sl };
        result =
            fill-part mmu dir mapped v short n j s sl small base c within h
            ∙ ap (λ i. (ok i, record next { left_len = s.length - off - w; sl_first = s ∷ sl }))
                (omega arith);
        passed_le = omega arith;
        same_offset = refl;
        on_list = inr (omega arith);
        small = (small, sm);
        copied = λ us. copied_step us ∙ at-part h us ∙ rw sub refl;
        less = rw sub (omega (arith, lp, lr, e));
        counted = rw sub (omega (arith, lp, lr, e));
      }

  pub Filled-full :
      All IsSmall sl
      → c.totallen + length (pending c.left_len (s ∷ sl)) < 2 ^ 32
      → length sl ≡ n
      → w ≡ s.length - off
      → v.iov_len ≡ base + w
      → Filled dir v
          (pending c.left_len (s ∷ sl))
          (suc n)
          j
          base
          c
          (fill_iovec mmu dir v (suc n) j (s ∷ sl) base c)
  Filled-full sm tot len h k =
      let lp = length-pending c.left_len s sl in
      let r : rest (suc n - 1) 0 sl ≡ seg_bytes sl =
        ap (λ i. rest i 0 sl) (omega arith) ∙ rest-length sl in
      record {
        passed = 1;
        after = record next { left_len = 0; sl_first = sl };
        result = fill-full mmu dir mapped v short n j s sl small base c within h k;
        passed_le = omega arith;
        same_offset = refl;
        on_list = inr (omega arith);
        small = sm;
        copied = λ us.
            copied_step us
            ∙ at-end h us
            ∙ ap₂ (λ ks us'. transfer dir ks us' next.mem) (sym r)
                (range-none (v.iov_base + (base + w)) (v.iov_len - (base + w)) us (omega arith));
        less = rw r (omega (arith, lp));
        counted = rw r (omega (arith, lp));
      }

  pub Filled-more :
      c.totallen + length (pending c.left_len (s ∷ sl)) < 2 ^ 32
      → w ≡ s.length - off
      → base + w < v.iov_len
      → Filled dir v
          (pending 0 sl)
          n
          (j + 1)
          (base + w)
          (record next { left_len = 0 })
          (fill_iovec mmu dir v n (j + 1) sl (base + w) (record next { left_len = 0 }))
      → Filled dir v
          (pending c.left_len (s ∷ sl))
          (suc n)
          j
          base
          c
          (fill_iovec mmu dir v (suc n) j (s ∷ sl) base c)
  Filled-more tot h k f =
      let lp = length-pending c.left_len s sl in
      let lz = ap length (pending-zero sl) in
      let sub : suc n - suc f.passed ≡ n - f.passed = omega arith in
      record {
        passed = suc f.passed;
        after = f.after;
        result =
            fill-more mmu dir mapped v short n j s sl small base c within h k
            ∙ f.result
            ∙ ap (λ i. (ok i, f.after)) (omega arith);
        passed_le = omega (arith, f.passed_le);
        same_offset = f.same_offset;
        on_list = elim f.on_list [ inl e ↦ inl (omega (arith, e)) | inr e ↦ inr (e ∙ sym sub) ];
        small = f.small;
        copied = λ us.
            copied_step us
            ∙ at-end h us
            ∙ ap
                (λ ks.
                  transfer dir ks (range (v.iov_base + (base + w)) (v.iov_len - (base + w)) ++ us)
                    next.mem)
                (sym (pending-zero sl))
            ∙ f.copied us
            ∙ ap (λ i. transfer dir (rest i f.after.left_len f.after.sl_first) us f.after.mem)
                (sym sub);
        less = rw sub (f.less ∙ omega (arith, lp, lz));
        counted = rw sub (f.counted ∙ omega (arith, lp, lz));
      }

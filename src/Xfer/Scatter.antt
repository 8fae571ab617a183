-- ===== src/Xfer/Scatter.antt =====
-- vsc_main.c: the inner loop of `vsc_copy_sg_buff_to_iovec` and `vsc_copy_sg_buff_from_iovec`
-- against the transfer of bytes.
pub mod Rounds
pub mod Descriptor
pub mod Refine
pub mod Contract
pub mod RoundTrip
use vsc.Base.{
  ℕ, zero, suc, ◌+◌, ◌-◌, ◌^◌, ◌≤◌, ◌<◌, ◌≡◌, ◌≢◌, ◌⊎◌, refl, ap, ap₂, sym, ◌∙◌, ◌++◌, List, [],
  ◌∷◌, Bool, true, false, ◌==◌, if◌then◌else◌, min, length, length-append, arith, u32, sub32, leb,
  All,
}
use vsc.Codes.{Ret, ok}
use vsc.Xfer.{Mem, Dir, Mmu, IoVec, Seg, copy_bytes, copy_user}
use vsc.Xfer.Sg.{Cursor, positive, sl_data_offset, fill_iovec}
use vsc.Xfer.Bytes.{
  range, range-eq, length-range, seg_bytes, transfer, transfer-step, AllMapped, copy_user-fine,
}

-- The segment is shorter than 2 ^ 31.
abbrev pub IsSmall : Seg → Type 0
IsSmall s = s.length < 2 ^ 31

-- The kernel addresses that are left, where the copy goes on in the first segment at `left`.
unfoldable pub pending : ℕ → List Seg → List ℕ
pending left [] = []
pending left (s ∷ sl) =
    range (s.virt + sl_data_offset left s) (s.length - sl_data_offset left s) ++ seg_bytes sl

-- The same with `n` rounds left.
unfoldable pub rest : ℕ → ℕ → List Seg → List ℕ
rest zero left sl = []
rest (suc n) left sl = pending left sl

positive_of : (n : ℕ) → 0 < n → n < 2 ^ 31 → positive n ≡ true
unfolding positive
positive_of n h k = ground arith

positive-zero : (n : ℕ) → n ≡ 0 → positive n ≡ false
unfolding positive
positive-zero n h = ground arith

pub sl_data_offset-le : (left : ℕ) (s : Seg) → IsSmall s → sl_data_offset left s ≤ s.length
unfolding sl_data_offset positive
sl_data_offset-le left s h = ground arith

pub sl_data_offset-left :
    (left : ℕ) (s : Seg)
    → IsSmall s
    → left ≤ s.length
    → 0 < left
    → sl_data_offset left s ≡ s.length - left
unfolding sl_data_offset positive
sl_data_offset-left left s h k p = ground arith

pub sl_data_offset-zero : (s : Seg) → sl_data_offset 0 s ≡ 0
unfolding sl_data_offset positive
sl_data_offset-zero s = ground arith

le_true : (a b : ℕ) → a ≤ b → leb a b ≡ true
le_true a b h = ground arith

le_false : (a b : ℕ) → b < a → leb a b ≡ false
le_false a b h = ground arith

pub pending-zero : (sl : List Seg) → pending 0 sl ≡ seg_bytes sl
unfolding pending seg_bytes
pending-zero [] = refl
pending-zero (s ∷ sl) =
    rw (sl_data_offset-zero s) (ap (λ r. r ++ seg_bytes sl) (range-eq (omega arith) (omega arith)))

pub pending-nil : (left : ℕ) → pending left [] ≡ []
unfolding pending
pending-nil left = refl

pub rest-zero : (left : ℕ) (sl : List Seg) → rest 0 left sl ≡ []
unfolding rest
rest-zero left sl = refl

pub rest-pending : (left : ℕ) (sl : List Seg) → rest (length sl) left sl ≡ pending left sl
unfolding rest pending
rest-pending left [] = refl
rest-pending left (s ∷ sl) = refl

pub rest-length : (sl : List Seg) → rest (length sl) 0 sl ≡ seg_bytes sl
unfolding rest seg_bytes
rest-length [] = refl
rest-length (s ∷ sl) = pending-zero (s ∷ sl)

pub length-pending :
    (left : ℕ) (s : Seg) (sl : List Seg)
    → length (pending left (s ∷ sl)) ≡ s.length - sl_data_offset left s + length (seg_bytes sl)
unfolding pending
length-pending left s sl =
    length-append (range (s.virt + sl_data_offset left s) (s.length - sl_data_offset left s))
      (seg_bytes sl)
    ∙ ap (λ n. n + length (seg_bytes sl))
        (length-range (s.virt + sl_data_offset left s) (s.length - sl_data_offset left s))

-- What one round copies.
module _ (mmu : Mmu) (dir : Dir) (mapped : AllMapped mmu) (v : IoVec) (short : v.iov_len < 2 ^ 31)
    (n j : ℕ) (s : Seg) (sl : List Seg) (small : IsSmall s) (base : ℕ) (c : Cursor)
    (within : base ≤ v.iov_len) where
  abbrev pub here : ℕ
  here = sl_data_offset c.left_len s

  abbrev pub amount : ℕ
  amount = min (s.length - here) (v.iov_len - base)

  abbrev pub moved : Cursor
  moved = record c {
    mem = copy_bytes dir amount (s.virt + here) (v.iov_base + base) c.mem;
    totallen = u32 (c.totallen + amount);
  }

  -- The value that the round computes for `left_len`.
  abbrev left : ℕ
  left = sub32 (sub32 s.length (u32 (here + amount))) (sub32 v.iov_len (base + amount))

  seg-eq : sub32 s.length here ≡ s.length - here
  seg-eq = omega (arith, sl_data_offset-le c.left_len s small)

  iov-eq : sub32 v.iov_len base ≡ v.iov_len - base
  iov-eq = omega arith

  base-eq : u32 (base + amount) ≡ base + amount
  base-eq = omega arith

  left-part : amount < s.length - here → left ≡ s.length - here - amount
  left-part h = omega (arith, sl_data_offset-le c.left_len s small)

  left-rest : amount ≡ s.length - here → positive left ≡ false
  unfolding positive
  left-rest h = ground (arith, sl_data_offset-le c.left_len s small)

  copied :
      copy_user mmu dir (s.virt + here) (v.iov_base + base) amount c.mem
      ≡ (true, copy_bytes dir amount (s.virt + here) (v.iov_base + base) c.mem)
  copied = copy_user-fine mmu dir (s.virt + here) (v.iov_base + base) amount c.mem mapped

  pub fill-part :
      amount < s.length - here
      → fill_iovec mmu dir v (suc n) j (s ∷ sl) base c
        ≡ (ok j, record moved { left_len = s.length - here - amount; sl_first = s ∷ sl })
  unfolding fill_iovec
  fill-part h =
      rw
        (
          seg-eq,
          iov-eq,
          copied,
          base-eq,
          left-part h,
          positive_of (s.length - here - amount) (omega arith) (omega arith),
        )
        refl

  pub fill-full :
      amount ≡ s.length - here
      → v.iov_len ≡ base + amount
      → fill_iovec mmu dir v (suc n) j (s ∷ sl) base c
        ≡ (ok (j + 1), record moved { left_len = 0; sl_first = sl })
  unfolding fill_iovec
  fill-full h k =
      rw
        (
          seg-eq,
          iov-eq,
          copied,
          base-eq,
          left-rest h,
          le_true (v.iov_len) (base + amount) (omega arith),
        )
        refl

  pub fill-more :
      amount ≡ s.length - here
      → base + amount < v.iov_len
      → fill_iovec mmu dir v (suc n) j (s ∷ sl) base c
        ≡ fill_iovec mmu dir v n (j + 1) sl (base + amount) (record moved { left_len = 0 })
  unfolding fill_iovec
  fill-more h k =
      rw
        (
          seg-eq,
          iov-eq,
          copied,
          base-eq,
          left-rest h,
          le_false (v.iov_len) (base + amount) (omega arith),
        )
        refl

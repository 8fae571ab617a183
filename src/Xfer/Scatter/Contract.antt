-- ===== src/Xfer/Scatter/Contract.antt =====
-- vsc_main.c: the two scatter copies as a whole: the search for the offset, the checks, the loops.
use native.Mathlib.Decide.{dec_lt}
use vsc.Base.{
  ℕ, zero, suc, ◌+◌, ◌-◌, ◌^◌, ◌≤◌, ◌<◌, ◌≡◌, inr, refl, ap, sym, ◌∙◌, ◌++◌, List, [], ◌∷◌, true,
  false, not, ◌&&◌, ◌||◌, ◌==◌, ltb, leb, if◌then◌else◌, none, some, min, length, drop, arith, All,
  u32,
}
use vsc.Codes.{Ret, ok, err, einval, eio}
use vsc.Hosts.Queue.{is_readwrite_cmd}
use vsc.Xfer.{Mem, Dir, Mmu, ScsiData, Seg}
use vsc.Xfer.Sg.{Cursor, Buffers, sl_data_offset, fill_iovecs, seek, copy_sg_buff}
use vsc.Xfer.Bytes.{
  range, range-eq, length-range, seg_bytes, iov_bytes, transfer, AllMapped, length-seg_bytes,
  length-seg_nil, drop-range,
}
use vsc.Xfer.Scatter.{IsSmall, pending, rest, rest-pending, sl_data_offset-left}
use vsc.Xfer.Scatter.Refine.{IsShort, fill_iovecs-Copied}

-- What the two functions promise.
unfoldable pub sg_contract : Dir → Buffers → ScsiData → Mem → Ret × Mem
sg_contract dir b d m =
    let ks = drop d.offset (seg_bytes b.sgl) in
    let us = iov_bytes d.vec in
    let n = min (length ks) (length us) in
    let checked = is_readwrite_cmd b.op in
    if leb (length (seg_bytes b.sgl)) d.offset || length d.vec == 0
    then (err einval, m)
    else if checked && not (b.bufflen == d.total_iovec_len)
    then (err eio, m)
    else ((if checked && not (n == d.total_iovec_len) then err eio else ok n), transfer dir ks us m)

All-IsSmall : (sl : List Seg) → length (seg_bytes sl) < 2 ^ 31 → All IsSmall sl
All-IsSmall [] h = tt
All-IsSmall (s ∷ sl) h =
    (omega (arith, length-seg_bytes s sl), All-IsSmall sl (omega (arith, length-seg_bytes s sl)))

drop-append : (n : ℕ) (xs ys : List ℕ) → length xs ≤ n → drop n (xs ++ ys) ≡ drop (n - length xs) ys
drop-append n [] ys h = ap (λ k. drop k ys) (omega arith)
drop-append zero (x ∷ xs) ys h = absurd (omega arith)
drop-append (suc n) (x ∷ xs) ys h =
    drop-append n xs ys (omega arith) ∙ ap (λ k. drop k ys) (omega arith)

length-drop : (n : ℕ) (xs : List ℕ) → length (drop n xs) ≡ length xs - n
length-drop zero xs = omega arith
length-drop (suc n) [] = omega arith
length-drop (suc n) (x ∷ xs) = omega (arith, length-drop n xs)

-- What the search finds.
record Found (offset acc j : ℕ) (sl : List Seg) : Type 0 where
  left : ℕ
  steps : ℕ
  tail : List Seg
  hit : seek offset sl j acc ≡ some (left, j + steps, tail)
  counted : steps + length tail ≡ length sl
  bytes : pending left tail ≡ drop (offset - acc) (seg_bytes sl)
  small : All IsSmall tail

not_lt : (a b : ℕ) → b ≤ a → ltb a b ≡ false
not_lt a b h = ground arith

le_true : (a b : ℕ) → a ≤ b → leb a b ≡ true
le_true a b h = ground arith

not_le : (a b : ℕ) → b < a → leb a b ≡ false
not_le a b h = ground arith

pending-drop :
    (offset acc : ℕ) (s : Seg) (sl : List Seg)
    → acc ≤ offset
    → offset < acc + s.length
    → acc + s.length < 2 ^ 31
    → pending (acc + s.length - offset) (s ∷ sl) ≡ drop (offset - acc) (seg_bytes (s ∷ sl))
unfolding pending seg_bytes
pending-drop offset acc s sl a h k =
    let e : sl_data_offset (acc + s.length - offset) s ≡ offset - acc =
      sl_data_offset-left (acc + s.length - offset) s (omega arith) (omega arith) (omega arith)
      ∙ omega arith in
    ap (λ r. r ++ seg_bytes sl) (range-eq (omega (arith, e)) (omega (arith, e)))
    ∙ sym (drop-range s.virt s.length (offset - acc) (seg_bytes sl) (omega arith))

drop-past :
    (offset acc : ℕ) (s : Seg) (sl : List Seg)
    → acc + s.length ≤ offset
    → drop (offset - acc) (seg_bytes (s ∷ sl)) ≡ drop (offset - (acc + s.length)) (seg_bytes sl)
unfolding seg_bytes
drop-past offset acc s sl h =
    drop-append (offset - acc) (range s.virt s.length) (seg_bytes sl)
      (omega (arith, length-range s.virt s.length))
    ∙ ap (λ k. drop k (seg_bytes sl)) (omega (arith, length-range s.virt s.length))

module _ (offset : ℕ) where
  seek-nil : (j acc : ℕ) → seek offset [] j acc ≡ none
  unfolding seek
  seek-nil j acc = refl

  -- The search stops in the first segment.
  seek-stop :
      (s : Seg) (sl : List Seg) (j acc : ℕ)
      → offset < acc + s.length
      → acc + s.length < 2 ^ 32
      → seek offset (s ∷ sl) j acc ≡ some (acc + s.length - offset, j, s ∷ sl)
  unfolding seek
  seek-stop s sl j acc h k = ground arith

  seek-skip :
      (s : Seg) (sl : List Seg) (j acc : ℕ)
      → acc + s.length ≤ offset
      → acc + s.length < 2 ^ 32
      → seek offset (s ∷ sl) j acc ≡ seek offset sl (j + 1) (acc + s.length)
  unfolding seek
  seek-skip s sl j acc h k =
      let wrap : u32 (acc + s.length) ≡ acc + s.length = omega arith in
      rw (wrap, not_lt offset (acc + s.length) h) refl

  seek-Found :
      (sl : List Seg) (j acc : ℕ)
      → acc ≤ offset
      → offset < acc + length (seg_bytes sl)
      → acc + length (seg_bytes sl) < 2 ^ 31
      → Found offset acc j sl
  seek-Found [] j acc a b c = absurd (omega (arith, length-seg_nil))
  seek-Found (s ∷ sl) j acc a b c =
      let ls = length-seg_bytes s sl in
      elim (dec_lt offset (acc + s.length)) [
        | yes h ↦ record {
          left = acc + s.length - offset;
          steps = 0;
          tail = s ∷ sl;
          hit =
              seek-stop s sl j acc h (omega (arith, ls))
              ∙ ap (λ i. some (acc + s.length - offset, i, s ∷ sl)) (omega arith);
          counted = omega arith;
          bytes = pending-drop offset acc s sl a h (omega (arith, ls));
          small = All-IsSmall (s ∷ sl) (omega arith);
        }
        | no h ↦
            let f =
              seek-Found sl (j + 1) (acc + s.length) (omega arith) (omega (arith, ls))
                (omega (arith, ls)) in
            record {
              left = f.left;
              steps = suc f.steps;
              tail = f.tail;
              hit =
                  seek-skip s sl j acc (omega arith) (omega (arith, ls))
                  ∙ f.hit
                  ∙ ap (λ i. some (f.left, i, f.tail)) (omega arith);
              counted = omega (arith, f.counted);
              bytes = f.bytes ∙ sym (drop-past offset acc s sl (omega arith));
              small = f.small;
            }
      ]

  seek-none :
      (sl : List Seg) (j acc : ℕ)
      → acc + length (seg_bytes sl) ≤ offset
      → acc + length (seg_bytes sl) < 2 ^ 31
      → seek offset sl j acc ≡ none
  seek-none [] j acc b c = seek-nil j acc
  seek-none (s ∷ sl) j acc b c =
      let ls = length-seg_bytes s sl in
      seek-skip s sl j acc (omega (arith, ls)) (omega (arith, ls))
      ∙ seek-none sl (j + 1) (acc + s.length) (omega (arith, ls)) (omega (arith, ls))

module _ (mmu : Mmu) (dir : Dir) (mapped : AllMapped mmu) (b : Buffers) (d : ScsiData) (m : Mem)
    (size : length (seg_bytes b.sgl) < 2 ^ 31) (entries : length b.sgl < 2 ^ 32)
    (short : All IsShort d.vec) where
  at_none : length (seg_bytes b.sgl) ≤ d.offset → copy_sg_buff mmu dir b d m ≡ (err einval, m)
  unfolding copy_sg_buff
  at_none h = rw (seek-none d.offset b.sgl 0 0 (omega arith) (omega arith)) refl

  abbrev start : ℕ → ℕ → List Seg → Cursor
  start left j sl = record { mem = m; sl_first = sl; sl_offset = j; left_len = left; totallen = 0 }

  at_found :
      (left j : ℕ) (sl : List Seg) (n : ℕ) (c : Cursor)
      → seek d.offset b.sgl 0 0 ≡ some (left, j, sl)
      → fill_iovecs mmu dir (length b.sgl) d.vec (start left j sl) ≡ (ok n, c)
      → copy_sg_buff mmu dir b d m ≡ (
          if length d.vec == 0
          then (err einval, m)
          else if is_readwrite_cmd b.op && not (b.bufflen == d.total_iovec_len)
          then (err eio, m)
          else (
            (if is_readwrite_cmd b.op && not (n == d.total_iovec_len) then err eio else ok n),
            c.mem,
          ))
  unfolding copy_sg_buff
  at_found left j sl n c e f = rw (e, f) refl

  -- If the scatter list, its number of entries and the descriptors are of the sizes that an `int`
  -- holds, and the MMU lets every copy through, the loops over segments and descriptors do what
  -- the contract says: an offset past the end and a request without descriptors are refused with
  -- `EINVAL`, a read or write command whose length is not that of the descriptors with `EIO`;
  -- otherwise the bytes of the scatter list from the offset on and those of the descriptors are
  -- moved one by one, in order, up to the end of the shorter, and their number is returned, or
  -- `EIO` if a read or write command moves another number than it says.
  pub copy_sg_buff_lem : copy_sg_buff mmu dir b d m ≡ sg_contract dir b d m
  unfolding sg_contract
  copy_sg_buff_lem = elim (dec_lt d.offset (length (seg_bytes b.sgl))) [
    | yes h ↦
        let f = seek-Found d.offset b.sgl 0 0 (omega arith) (omega arith) (omega arith) in
        let ks = drop d.offset (seg_bytes b.sgl) in
        let us = iov_bytes d.vec in
        let e : rest (length f.tail) f.left f.tail ≡ ks =
          rest-pending f.left f.tail ∙ f.bytes ∙ ap (λ k. drop k (seg_bytes b.sgl)) (omega arith) in
        let lk : length ks ≤ length (seg_bytes b.sgl) =
          omega (arith, length-drop d.offset (seg_bytes b.sgl)) in
        let cp =
          fill_iovecs-Copied mmu dir mapped (length b.sgl) entries d.vec (length f.tail)
            (start f.left (0 + f.steps) f.tail) short (omega (arith, f.counted)) (inr refl) f.small
            (omega (arith, ap length e, lk)) in
        at_found f.left (0 + f.steps) f.tail (min (length ks) (length us)) cp.after f.hit
          (cp.result ∙ ap (λ n. (ok n, cp.after)) (omega (arith, ap length e)))
        ∙ rw (not_le (length (seg_bytes b.sgl)) d.offset h, cp.memory, e) refl
    | no h ↦
        at_none (omega arith) ∙ rw (le_true (length (seg_bytes b.sgl)) d.offset (omega arith)) refl
  ]

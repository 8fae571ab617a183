-- ===== src/Xfer/Bytes.antt =====
-- What a transfer means, byte by byte: a list of kernel addresses and one of user addresses, of
-- which the bytes are copied in order, up to the end of the shorter list.
use vsc.Base.{
  ℕ, zero, suc, ◌+◌, ◌-◌, ◌≤◌, ◌≡◌, ◌⊎◌, inl, inr, refl, ap, ap₂, sym, ◌∙◌, ◌++◌, List, [], ◌∷◌,
  true, length, drop, length-append, arith, append_assoc, append-nil,
}
use vsc.Xfer.{Mem, Dir, Mmu, IoVec, Seg, copy_byte, copy_bytes, copy_user}

-- The `n` addresses from `a` on.
unfoldable pub range : ℕ → ℕ → List ℕ
range a zero = []
range a (suc n) = a ∷ range (a + 1) n

-- The addresses of a scatter list, and those of a list of descriptors.
unfoldable pub seg_bytes : List Seg → List ℕ
unfolding range
seg_bytes [] = []
seg_bytes (s ∷ sl) = range s.virt s.length ++ seg_bytes sl

unfoldable pub iov_bytes : List IoVec → List ℕ
unfolding range
iov_bytes [] = []
iov_bytes (v ∷ vs) = range v.iov_base v.iov_len ++ iov_bytes vs

-- The transfer.
unfoldable pub transfer : Dir → List ℕ → List ℕ → Mem → Mem
unfolding copy_byte
transfer dir [] us m = m
transfer dir (k ∷ ks) [] m = m
transfer dir (k ∷ ks) (u ∷ us) m = transfer dir ks us (copy_byte dir k u m)

-- The MMU lets every byte through.
abbrev pub AllMapped : Mmu → Type 0
AllMapped mmu = (u n : ℕ) → n ≤ mmu u n

pub length-range : (a n : ℕ) → length (range a n) ≡ n
unfolding range
length-range a zero = refl
length-range a (suc n) = omega (arith, length-range (a + 1) n)

pub range-eq : {a b n k : ℕ} → a ≡ b → n ≡ k → range a n ≡ range b k
range-eq p q = ap₂ range p q

pub range-none : (a n : ℕ) (xs : List ℕ) → n ≡ 0 → range a n ++ xs ≡ xs
unfolding range
range-none a zero xs h = refl
range-none a (suc n) xs h = absurd (omega arith)

pub range-append : (a n k : ℕ) → range a (n + k) ≡ range a n ++ range (a + n) k
unfolding range
range-append a zero k = range-eq (omega arith) (omega arith)
range-append a (suc n) k =
    range-eq {b = a} {k = suc (n + k)} refl (omega arith)
    ∙ ap (◌∷◌ a)
        (range-append (a + 1) n k ∙ ap (◌++◌ (range (a + 1) n)) (range-eq (omega arith) refl))

pub transfer-nil : (dir : Dir) (ks : List ℕ) (m : Mem) → transfer dir ks [] m ≡ m
unfolding transfer
transfer-nil dir [] m = refl
transfer-nil dir (k ∷ ks) m = refl

-- A piece that both lists begin with.
pub transfer-copy :
    (dir : Dir) (n k u : ℕ) (ks us : List ℕ) (m : Mem)
    → transfer dir (range k n ++ ks) (range u n ++ us) m
      ≡ transfer dir ks us (copy_bytes dir n k u m)
unfolding transfer range copy_bytes
transfer-copy dir zero k u ks us m = refl
transfer-copy dir (suc n) k u ks us m =
    transfer-copy dir n (k + 1) (u + 1) ks us (copy_byte dir k u m)

pub copy_user-fine :
    (mmu : Mmu) (dir : Dir) (k u n : ℕ) (m : Mem)
    → AllMapped mmu
    → copy_user mmu dir k u n m ≡ (true, copy_bytes dir n k u m)
unfolding copy_user
copy_user-fine mmu dir k u n m h = ground (arith, h u n)

pub drop-range :
    (a n k : ℕ) (xs : List ℕ) → k ≤ n → drop k (range a n ++ xs) ≡ range (a + k) (n - k) ++ xs
unfolding range
drop-range a n zero xs h = ap (λ r. r ++ xs) (range-eq (omega arith) (omega arith))
drop-range a zero (suc k) xs h = absurd (omega arith)
drop-range a (suc n) (suc k) xs h =
    drop-range (a + 1) n k xs (omega arith)
    ∙ ap (λ r. r ++ xs) (range-eq (omega arith) (omega arith))

-- One copy of as many bytes as both pieces have takes these bytes off both.
pub transfer-step :
    (dir : Dir) (k l u r n : ℕ) (ks us : List ℕ) (m : Mem)
    → n ≤ l
    → n ≤ r
    → transfer dir (range k l ++ ks) (range u r ++ us) m
      ≡ transfer dir
          (range (k + n) (l - n) ++ ks)
          (range (u + n) (r - n) ++ us)
          (copy_bytes dir n k u m)
transfer-step dir k l u r n ks us m p q =
    let split : (a t : ℕ) (xs : List ℕ)
        → n ≤ t
        → range a t ++ xs ≡ range a n ++ (range (a + n) (t - n) ++ xs) =
      λ a t xs h.
        ap (λ z. z ++ xs) (range-eq {a = a} refl (omega arith) ∙ range-append a n (t - n))
        ∙ append_assoc (range a n) (range (a + n) (t - n)) xs in
    ap₂ (λ ks' us'. transfer dir ks' us' m) (split k l ks p) (split u r us q)
    ∙ transfer-copy dir n k u (range (k + n) (l - n) ++ ks) (range (u + n) (r - n) ++ us) m

-- Where one side is used up, the piece of the other does not matter.
pub transfer-spent :
    (dir : Dir) (k l u r : ℕ) (us : List ℕ) (m : Mem)
    → (l ≡ 0) ⊎ (r ≡ 0)
    → transfer dir (range k l) (range u r ++ us) m ≡ transfer dir (range k l) us m
unfolding transfer range
transfer-spent dir k zero u r us m h = refl
transfer-spent dir k (suc l) u zero us m h = refl
transfer-spent dir k (suc l) u (suc r) us m (inl h) = absurd (omega arith)
transfer-spent dir k (suc l) u (suc r) us m (inr h) = absurd (omega arith)

pub length-iov_nil : length (iov_bytes []) ≡ 0
unfolding iov_bytes
length-iov_nil = refl

pub length-iov_bytes :
    (v : IoVec) (vs : List IoVec) → length (iov_bytes (v ∷ vs)) ≡ v.iov_len + length (iov_bytes vs)
unfolding iov_bytes
length-iov_bytes v vs =
    length-append (range v.iov_base v.iov_len) (iov_bytes vs)
    ∙ ap (λ n. n + length (iov_bytes vs)) (length-range v.iov_base v.iov_len)

pub length-seg_bytes :
    (s : Seg) (sl : List Seg) → length (seg_bytes (s ∷ sl)) ≡ s.length + length (seg_bytes sl)
unfolding seg_bytes
length-seg_bytes s sl =
    length-append (range s.virt s.length) (seg_bytes sl)
    ∙ ap (λ n. n + length (seg_bytes sl)) (length-range s.virt s.length)

pub transfer-none :
    (dir : Dir) (k l : ℕ) (us : List ℕ) (m : Mem) → l ≡ 0 → transfer dir (range k l) us m ≡ m
unfolding transfer range
transfer-none dir k zero us m h = refl
transfer-none dir k (suc l) us m h = absurd (omega arith)

pub drop-range_all : (a n k : ℕ) → k ≤ n → drop k (range a n) ≡ range (a + k) (n - k)
drop-range_all a n k h =
    ap (drop k) (sym (append-nil (range a n)))
    ∙ drop-range a n k [] h
    ∙ append-nil (range (a + k) (n - k))

pub transfer_start : (dir : Dir) (us : List ℕ) (m : Mem) → transfer dir [] us m ≡ m
unfolding transfer
transfer_start dir us m = refl

pub transfer_end : (dir : Dir) (ks : List ℕ) (m : Mem) → transfer dir ks (iov_bytes []) m ≡ m
unfolding iov_bytes
transfer_end dir ks m = transfer-nil dir ks m

pub length-seg_nil : length (seg_bytes []) ≡ 0
unfolding seg_bytes
length-seg_nil = refl

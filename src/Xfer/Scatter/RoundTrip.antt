-- ===== src/Xfer/Scatter/RoundTrip.antt =====
-- vsc_main.c: what a command's data are after user space has read them and written them back.
use vsc.Base.{
  ℕ, ◌^◌, ◌≤◌, ◌<◌, ◌≡◌, refl, ap, ◌∙◌, List, [], ◌∷◌, not, ◌||◌, ◌&&◌, leb, ◌==◌, length, drop,
  arith, All, count, Bool-cases, inl, inr, ==_iff, ==_refl,
}
use vsc.Hosts.Queue.{is_readwrite_cmd}
use vsc.Xfer.{Mem, to_user, from_user, Mmu, ScsiData, copy_byte}
use vsc.Xfer.Sg.{Buffers, copy_sg_buff_to_iovec, copy_sg_buff_from_iovec}
use vsc.Xfer.Bytes.{seg_bytes, iov_bytes, transfer, AllMapped}
use vsc.Xfer.Scatter.Refine.{IsShort}
use vsc.Xfer.Scatter.Contract.{sg_contract, copy_sg_buff_lem}

-- User space holds at `us` what `f` holds at `ks`.
abbrev Holds : (ℕ → ℕ) → List ℕ → List ℕ → (ℕ → ℕ) → Type 0
Holds f [] us user = Unit
Holds f (k ∷ ks) [] user = Unit
Holds f (k ∷ ks) (u ∷ us) user = (user u ≡ f k) × Holds f ks us user

-- Bytes at other addresses stay.
stays :
    (ks us : List ℕ) (m : Mem) (u : ℕ)
    → count u us ≡ 0
    → (transfer to_user ks us m).user u ≡ m.user u
unfolding transfer copy_byte
stays [] us m u h = refl
stays (k ∷ ks) [] m u h = refl
stays (k ∷ ks) (w ∷ us) m u h =
    stays ks us (copy_byte to_user k w m) u (ground arith) ∙ ground arith

keeps_kernel : (ks us : List ℕ) (m : Mem) → (transfer to_user ks us m).kernel ≡ m.kernel
unfolding transfer copy_byte
keeps_kernel [] us m = refl
keeps_kernel (k ∷ ks) [] m = refl
keeps_kernel (k ∷ ks) (u ∷ us) m = keeps_kernel ks us (copy_byte to_user k u m)

delivers :
    (ks us : List ℕ) (m : Mem)
    → ((u : ℕ) → count u us ≤ 1)
    → Holds m.kernel ks us (transfer to_user ks us m).user
unfolding transfer copy_byte
delivers [] us m h = tt
delivers (k ∷ ks) [] m h = tt
delivers (k ∷ ks) (u ∷ us) m h = (
  stays ks us (copy_byte to_user k u m) u (ground (arith, h u, ==_refl u))
      ∙ ground (arith, ==_refl u),
  delivers ks us (copy_byte to_user k u m) (λ w. ground (arith, h w)),
)

-- Bytes that are equal to those they replace.
restores :
    (f : ℕ → ℕ) (ks us : List ℕ) (m : Mem)
    → Holds f ks us m.user
    → ((k : ℕ) → m.kernel k ≡ f k)
    → (k : ℕ) → (transfer from_user ks us m).kernel k ≡ f k
unfolding transfer copy_byte
restores f [] us m h e = e
restores f (k ∷ ks) [] m h e = e
restores f (k ∷ ks) (u ∷ us) m h e =
    restores f ks us (copy_byte from_user k u m) h.1 (λ j. ground (arith, h.0, e j, ==_iff k j))

restored :
    (ks us : List ℕ) (m : Mem)
    → ((u : ℕ) → count u us ≤ 1)
    → (k : ℕ) → (transfer from_user ks us (transfer to_user ks us m)).kernel k ≡ m.kernel k
restored ks us m h =
    restores m.kernel ks us (transfer to_user ks us m) (delivers ks us m h)
      (λ k. ap (λ f. f k) (keeps_kernel ks us m))

contract_restores :
    (b : Buffers) (d : ScsiData) (m : Mem)
    → ((u : ℕ) → count u (iov_bytes d.vec) ≤ 1)
    → let there = sg_contract to_user b d m in
      let back = sg_contract from_user b d there.1 in
      (back.0 ≡ there.0) × ((k : ℕ) → back.1.kernel k ≡ m.kernel k)
unfolding sg_contract
contract_restores b d m h =
    elim (Bool-cases (leb (length (seg_bytes b.sgl)) d.offset || length d.vec == 0)) [
      | inl e ↦ rw e (refl, λ k. refl)
      | inr e ↦ elim (Bool-cases (is_readwrite_cmd b.op && not (b.bufflen == d.total_iovec_len))) [
        | inl f ↦ rw (e, f) (refl, λ k. refl)
        | inr f ↦ rw (e, f) (refl, restored (drop d.offset (seg_bytes b.sgl)) (iov_bytes d.vec) m h)
      ]
    ]

-- If the scatter list, its number of entries and the descriptors are of the sizes that an `int`
-- holds, the MMU lets every copy through and the descriptors do not overlap, then after a read of the
-- data of a command and a write from the same descriptors the kernel memory is what it was, and the
-- write returns what the read returned.
pub read-write_back :
    (mmu : Mmu) (b : Buffers) (d : ScsiData) (m : Mem)
    → AllMapped mmu
    → length (seg_bytes b.sgl) < 2 ^ 31
    → length b.sgl < 2 ^ 32
    → All IsShort d.vec
    → ((u : ℕ) → count u (iov_bytes d.vec) ≤ 1)
    → let there = copy_sg_buff_to_iovec mmu b d m in
      let back = copy_sg_buff_from_iovec mmu b d there.1 in
      (back.0 ≡ there.0) × ((k : ℕ) → back.1.kernel k ≡ m.kernel k)
read-write_back mmu b d m mapped size entries short once =
    rw
      (
        copy_sg_buff_lem mmu to_user mapped b d m size entries short,
        copy_sg_buff_lem mmu from_user mapped b d (sg_contract to_user b d m).1 size entries short,
      )
      (contract_restores b d m once)

-- ===== src/Cmds/Inv/Census.antt =====
-- vsc_main.c: the commands that wait, counted by queue and by slot.
use vsc.Base.{
  ℕ, zero, suc, ◌+◌, ◌<◌, ◌≤◌, ◌≡◌, refl, List, [], ◌∷◌, ◌++◌, Bool, false, ◌==◌, if◌then◌else◌,
  length, count, count-append, length-append, All, All-append, All_of_count, ltb, arith, Bool-cases,
  inl, inr, ◌∙◌, sym,
}
use vsc.Cmds.{Cmds, CmdStat, init, request, read_comp}
use vsc.Cmds.Inv.{Inv, Slot, Slots, uses, backlog}

-- How many of the first `n` slots are taken.
abbrev pub slots_taken : (ℕ → Bool) → ℕ → ℕ
slots_taken bits zero = 0
slots_taken bits (suc n) = (if bits n then 1 else 0) + slots_taken bits n

pub slots_taken-le : (bits : ℕ → Bool) (n : ℕ) → slots_taken bits n ≤ n
slots_taken-le bits zero = omega arith
slots_taken-le bits (suc n) = ground (arith, slots_taken-le bits n)

-- How often the numbers below `n` stand in a list.
abbrev total : ℕ → List ℕ → ℕ
total zero xs = 0
total (suc n) xs = count n xs + total n xs

total_nil : (n : ℕ) → total n [] ≡ 0
total_nil zero = refl
total_nil (suc n) = omega (arith, total_nil n)

total_one : (n x : ℕ) (xs : List ℕ) → n ≤ x → total n (x ∷ xs) ≡ total n xs
total_one zero x xs h = refl
total_one (suc n) x xs h = ground (arith, total_one n x xs)

total_cons : (n x : ℕ) (xs : List ℕ) → x < n → total n (x ∷ xs) ≡ suc (total n xs)
total_cons zero x xs h = absurd (omega arith)
total_cons (suc n) x xs h = elim (Bool-cases (x == n)) [
  | inl e ↦ ground (arith, total_one n x xs)
  | inr e ↦ ground (arith, total_cons n x xs)
]

total-length : (n : ℕ) (xs : List ℕ) → All (λ i. i < n) xs → total n xs ≡ length xs
total-length n [] h = total_nil n
total-length n (x ∷ xs) h = omega (arith, total_cons n x xs h.0, total-length n xs h.1)

-- The numbers below `n` stand in the list once if their slot is taken, and else not at all.
total-slots :
    (bits : ℕ → Bool) (n : ℕ) (xs : List ℕ)
    → ((i : ℕ) → i < n → count i xs ≡ (if bits i then 1 else 0))
    → total n xs ≡ slots_taken bits n
total-slots bits zero xs h = refl
total-slots bits (suc n) xs h =
    let one = h n (omega arith) in
    let rest = total-slots bits n xs (λ i small. h i (omega arith)) in omega (arith, one, rest)

below : (q : Cmds) (s : CmdStat) (xs : List ℕ) → Slots q s xs → All (λ i. i < q.nr_cmds) xs
below q s [] h = tt
below q s (x ∷ xs) h = (h.0.0, below q s xs h.1)

-- The waiting commands, in one list.
abbrev waiting : Cmds → List ℕ
waiting q = q.req_q ++ (q.cmp_q ++ q.rsp_q)

waiting-length : (q : Cmds) → length (waiting q) ≡ backlog q
waiting-length q =
    omega (arith, length-append q.req_q (q.cmp_q ++ q.rsp_q), length-append q.cmp_q q.rsp_q)

waiting-uses : (q : Cmds) (i : ℕ) → count i (waiting q) ≡ uses q i
waiting-uses q i =
    omega (arith, count-append i q.req_q (q.cmp_q ++ q.rsp_q), count-append i q.cmp_q q.rsp_q)

slot_bit :
    (q : Cmds) (s : CmdStat) (xs : List ℕ) (i : ℕ)
    → Slots q s xs
    → q.cmd_pool_bits i ≡ false
    → count i xs ≡ 0
slot_bit q s xs i h free = elim (Bool-cases (ltb 0 (count i xs))) [
  | inl some_use ↦
      let taken =
        (All_of_count (Slot q.cmd_pool_tbl q.cmd_pool_bits q.nr_cmds s) i xs h (ground arith)).1 in
      cc (taken, free)
  | inr no_use ↦ ground arith
]

waiting-slot :
    (q : Cmds)
    → Inv q
    → (i : ℕ) → i < q.nr_cmds
    → count i (waiting q) ≡ (if q.cmd_pool_bits i then 1 else 0)
waiting-slot q v i small = elim (Bool-cases (q.cmd_pool_bits i)) [
  | inl e ↦ rw e (omega (arith, waiting-uses q i, v.once i, v.no_leak i small e))
  | inr e ↦ rw e (
      omega (
        arith,
        waiting-uses q i,
        slot_bit q init q.req_q i v.req e,
        slot_bit q request q.cmp_q i v.cmp e,
        slot_bit q read_comp q.rsp_q i v.rsp e,
      ))
]

-- From queues in order, as many commands wait as slots are taken.
pub backlog-eq-slots : (q : Cmds) → Inv q → backlog q ≡ slots_taken q.cmd_pool_bits q.nr_cmds
backlog-eq-slots q v =
    let P : ℕ → Type 0 = λ i. i < q.nr_cmds in
    let all = All-append P q.req_q (q.cmp_q ++ q.rsp_q) (below q init q.req_q v.req) (
      All-append P q.cmp_q q.rsp_q (below q request q.cmp_q v.cmp)
        (below q read_comp q.rsp_q v.rsp)) in
    sym (waiting-length q)
    ∙ sym (total-length q.nr_cmds (waiting q) all)
    ∙ total-slots q.cmd_pool_bits q.nr_cmds (waiting q) (waiting-slot q v)

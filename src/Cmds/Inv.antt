-- ===== src/Cmds/Inv.antt =====
-- The invariant of the command queues of vsc_main.c between two calls, and the lemmas by which an
-- operation is shown to keep it.
pub mod Release
pub mod Io
pub mod Drain
pub mod Read
pub mod Deliver
pub mod Respond
pub mod Batch
pub mod Census
use vsc.Base.{
  ℕ, zero, suc, ◌+◌, ◌%◌, ◌^◌, ◌<◌, ◌≤◌, ◌≡◌, refl, List, [], ◌∷◌, ◌++◌, Bool, true, false, ◌||◌,
  some, none, Option, ◌==◌, update, length, count, All, arith, ◌⊎◌, inl, inr, Bool-cases, ==_iff,
  ◌≢◌, subst,
}
use vsc.Cmds.{Cmds, Cmd, CmdStat, init, request, read_comp, ScsiCmnd, find_zero_from}

abbrev pub is_some {ℓ} : {A : Type ℓ} → Option A → Bool
is_some none = false
is_some (some _) = true

pub some_of_is_some {ℓ} : {A : Type ℓ} (o : Option A) → is_some o ≡ true → (a : A) × (o ≡ some a)
some_of_is_some none h = cc
some_of_is_some (some a) h = (a, refl)

-- What holds of a command that waits in a queue: its slot is taken, by it, and held once.
abbrev pub Slot : (ℕ → Cmd) → (ℕ → Bool) → ℕ → CmdStat → ℕ → Type 0
Slot tbl bits n s i =
    (i < n)
    × (bits i ≡ true)
    × ((tbl i).cmd_index ≡ i)
    × ((tbl i).refcnt ≡ 1)
    × ((tbl i).stat ≡ s)
    × (is_some (tbl i).scsi_cmd ≡ true)

abbrev pub Slots : Cmds → CmdStat → List ℕ → Type 0
Slots q s = All (Slot q.cmd_pool_tbl q.cmd_pool_bits q.nr_cmds s)

-- How often a tag stands in the queues.
abbrev pub uses : Cmds → ℕ → ℕ
uses q i = count i q.req_q + (count i q.cmp_q + count i q.rsp_q)

-- How many commands wait in the queues.
abbrev pub backlog : Cmds → ℕ
backlog q = length q.req_q + (length q.cmp_q + length q.rsp_q)

pub record Inv (q : Cmds) : Type 0 where
  pub once : (i : ℕ) → uses q i ≤ 1
  pub req : Slots q init q.req_q
  pub cmp : Slots q request q.cmp_q
  pub rsp : Slots q read_comp q.rsp_q
  pub depth : q.qdepth ≡ length q.req_q % 2 ^ 32
  pub running : q.io_running ≡ backlog q % 2 ^ 32
  pub no_leak : (i : ℕ) → i < q.nr_cmds → q.cmd_pool_bits i ≡ true → 0 < uses q i

-- Slots other than `i` are not touched by a change of slot `i`.
pub Slots_frame :
    (tbl tbl' : ℕ → Cmd) (bits bits' : ℕ → Bool) (n : ℕ) (s : CmdStat) (i : ℕ) (xs : List ℕ)
    → ((j : ℕ) → (i == j) ≡ false → (tbl' j ≡ tbl j) × (bits' j ≡ bits j))
    → count i xs ≡ 0
    → All (Slot tbl bits n s) xs
    → All (Slot tbl' bits' n s) xs
Slots_frame tbl tbl' bits bits' n s i [] same out h = tt
Slots_frame tbl tbl' bits bits' n s i (x ∷ xs) same out h =
    (ground (arith, same x), Slots_frame tbl tbl' bits bits' n s i xs same (ground arith) h.1)

pub Slots_update :
    (tbl : ℕ → Cmd) (bits : ℕ → Bool) (n : ℕ) (s : CmdStat) (i : ℕ) (c : Cmd) (xs : List ℕ)
    → count i xs ≡ 0
    → All (Slot tbl bits n s) xs
    → All (Slot (update tbl i c) bits n s) xs
Slots_update tbl bits n s i c xs =
    Slots_frame tbl (update tbl i c) bits bits n s i xs (λ j e. ground arith)

pub Slots_set :
    (tbl : ℕ → Cmd) (bits : ℕ → Bool) (n : ℕ) (s : CmdStat) (i : ℕ) (c d : Cmd) (xs : List ℕ)
    → count i xs ≡ 0
    → All (Slot tbl bits n s) xs
    → All (Slot (update (update tbl i c) i d) (update bits i true) n s) xs
Slots_set tbl bits n s i c d xs =
    Slots_frame tbl (update (update tbl i c) i d) bits (update bits i true) n s i xs
      (λ j e. ground arith)

-- A slot whose bit is clear is in no queue.
pub Slots_idle :
    (tbl : ℕ → Cmd) (bits : ℕ → Bool) (n : ℕ) (s : CmdStat) (i : ℕ) (xs : List ℕ)
    → bits i ≡ false
    → All (Slot tbl bits n s) xs
    → count i xs ≡ 0
Slots_idle tbl bits n s i [] e h = refl
Slots_idle tbl bits n s i (x ∷ xs) e h =
    ground (arith, Slots_idle tbl bits n s i xs e h.1, ==_iff x i)

-- A command is in no queue of another state.
pub Slots_other :
    (tbl : ℕ → Cmd) (bits : ℕ → Bool) (n : ℕ) (s : CmdStat) (i : ℕ) (xs : List ℕ)
    → (tbl i).stat ≢ s
    → All (Slot tbl bits n s) xs
    → count i xs ≡ 0
Slots_other tbl bits n s i [] e h = refl
Slots_other tbl bits n s i (x ∷ xs) e h = elim (Bool-cases (x == i)) [
  | inl same ↦ absurd (e (subst (λ k. (tbl k).stat ≡ s) ((==_iff x i).0 same) h.0.4))
  | inr other ↦ rw other (Slots_other tbl bits n s i xs e h.1)
]

-- A change of other slots keeps the slots of a list; one of their states changes just that.
pub Slots_same :
    (tbl tbl' : ℕ → Cmd) (bits : ℕ → Bool) (n : ℕ) (s : CmdStat) (xs : List ℕ)
    → ((j : ℕ) → 0 < count j xs → tbl' j ≡ tbl j)
    → All (Slot tbl bits n s) xs
    → All (Slot tbl' bits n s) xs
Slots_same tbl tbl' bits n s [] same h = tt
Slots_same tbl tbl' bits n s (x ∷ xs) same h =
    let e = same x (ground arith) in
    (ground arith, Slots_same tbl tbl' bits n s xs (λ j k. same j (ground arith)) h.1)

pub Slots_marked :
    (tbl tbl' : ℕ → Cmd) (bits : ℕ → Bool) (n : ℕ) (s t : CmdStat) (xs : List ℕ)
    → ((j : ℕ) → 0 < count j xs → tbl' j ≡ record (tbl j) { stat = t })
    → All (Slot tbl bits n s) xs
    → All (Slot tbl' bits n t) xs
Slots_marked tbl tbl' bits n s t [] same h = tt
Slots_marked tbl tbl' bits n s t (x ∷ xs) same h =
    let e = same x (ground arith) in
    (ground arith, Slots_marked tbl tbl' bits n s t xs (λ j k. same j (ground arith)) h.1)

-- The first clear bit is in range and clear, or every bit is set.
pub find_zero_from-lt :
    (bits : ℕ → Bool) (n i : ℕ)
    → (find_zero_from bits n i ≡ i + n)
      ⊎ ((find_zero_from bits n i < i + n) × (bits (find_zero_from bits n i) ≡ false))
unfolding find_zero_from
find_zero_from-lt bits zero i = inl (omega arith)
find_zero_from-lt bits (suc n) i = ground (arith, find_zero_from-lt bits n (i + 1))

-- If no clear bit is found, none is clear.
pub find_zero_from_full :
    (bits : ℕ → Bool) (n i j : ℕ)
    → find_zero_from bits n i ≡ i + n
    → i ≤ j
    → j < i + n
    → bits j ≡ true
unfolding find_zero_from
find_zero_from_full bits zero i j e h k = absurd (omega arith)
find_zero_from_full bits (suc n) i j e h k = elim (Bool-cases (i == j)) [
  | inl same ↦ ground (arith, (==_iff i j).0 same)
  | inr other ↦ ground (arith, find_zero_from_full bits n (i + 1) j)
]

-- ===== src/Params/Batches.antt =====
-- vsc_main.c: the number of commands of a batch and its shift belong together.
use vsc.Base.{
  ℕ, ◌/◌, ◌%◌, ◌≡◌, ◌⊎◌, inl, inr, refl, List, [], ◌∷◌, Bool, true, false, some, ◌==◌, ltb,
  if◌then◌else◌, arith, Bool-cases, u32,
}
use vsc.Hosts.Queue.{turn}
use vsc.Params.{Params, seq_buf_size, init_params, seq_command, seq_write}

-- What the size of a batch means for the choice of a host.
abbrev pub BatchOutcome : Params → Type 0
BatchOutcome p =
    (p.io_per_host ≡ 0)
    ⊎ (((p.io_per_host ≡ 1) ⊎ (p.io_per_host ≡ 2) ⊎ (p.io_per_host ≡ 4))
        × ((sn hosts : ℕ) → turn p.io_per_host_shift sn hosts ≡ u32 sn / p.io_per_host % hosts))

-- One write to the proc file.
pub record SeqWrite : Type 0 where
  pub len : ℕ
  pub readable : Bool
  pub head : ℕ

abbrev pub write_all : List SeqWrite → Params → Params
write_all [] p = p
write_all (w ∷ ws) p = write_all ws (seq_write w.len w.readable w.head p).1

-- Either the batches are off, or they have one, two or four commands and the shift fits.
abbrev pub Consistent : Params → Type 0
Consistent p =
    (p.io_per_host ≡ 0)
    ⊎ ((p.io_per_host ≡ 1) × (p.io_per_host_shift ≡ 0))
    ⊎ ((p.io_per_host ≡ 2) × (p.io_per_host_shift ≡ 1))
    ⊎ ((p.io_per_host ≡ 4) × (p.io_per_host_shift ≡ 2))

if-Consistent :
    (b : Bool) (x y : Params) → Consistent x → Consistent y → Consistent (if b then x else y)
if-Consistent true x y h k = h
if-Consistent false x y h k = k

seq_command-Consistent : (c : ℕ) (p : Params) → Consistent p → Consistent (seq_command c p)
unfolding seq_command
seq_command-Consistent c p h = if-Consistent (c == b'4') _ _ (inr (inr (inr (refl, refl)))) (
    if-Consistent (c == b'2') _ _ (inr (inr (inl (refl, refl)))) (
      if-Consistent (c == b'1') _ _ (inr (inl (refl, refl)))
        (if-Consistent (c == b'0') _ _ (inl refl) h)))

seq_write-Consistent :
    (w : SeqWrite) (p : Params) → Consistent p → Consistent (seq_write w.len w.readable w.head p).1
unfolding seq_write
seq_write-Consistent w p h = elim (Bool-cases (ltb seq_buf_size w.len)) [
  | inl e ↦ rw e h
  | inr e ↦ elim (Bool-cases w.readable) [
    | inl f ↦ rw (e, f) (seq_command-Consistent w.head p h)
    | inr f ↦ rw (e, f) h
  ]
]

write_all-Consistent :
    (ws : List SeqWrite) (p : Params) → Consistent p → Consistent (write_all ws p)
write_all-Consistent [] p h = h
write_all-Consistent (w ∷ ws) p h = write_all-Consistent ws _ (seq_write-Consistent w p h)

init_params-Consistent : (p q : Params) → init_params p ≡ some q → Consistent q
unfolding init_params
init_params-Consistent p q e = ground arith

-- If the load of the module accepts the parameter, then, whatever is written to the proc file, either the batches are off, or they have one, two or four commands and
-- the reads and writes of a disk go to the host at their number divided by the size of a batch, modulo
-- the number of hosts.
pub batches_lem :
    (ws : List SeqWrite) (p q : Params) → init_params p ≡ some q → BatchOutcome (write_all ws q)
batches_lem ws p q e = elim (write_all-Consistent ws q (init_params-Consistent p q e)) [
  | inl off ↦ inl off
  | inr (inl (size, shift)) ↦ inr (inl size, λ sn hosts. rw (size, shift) refl)
  | inr (inr (inl (size, shift))) ↦ inr (inr (inl size), λ sn hosts. rw (size, shift) refl)
  | inr (inr (inr (size, shift))) ↦ inr (inr (inr size), λ sn hosts. rw (size, shift) refl)
]

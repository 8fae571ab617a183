-- ===== src/Cmds/Result.antt =====
-- vsc_main.c: the `result` word that an answer leaves in a command.
use Prim.Native.Nat.{bit_or}
use vsc.Base.{
  ℕ, zero, suc, ◌+◌, ◌*◌, ◌%◌, ◌^◌, ◌<◌, ◌≡◌, refl, List, [], ◌∷◌, Bool, true, ◌&&◌, ◌==◌, ==_iff,
  arith, inl, inr, Bool-cases,
}
use vsc.Codes.{
  host_byte_of, did_ok, did_no_connect, did_error, did_time_out, did_soft_error, did_requeue,
}
use vsc.Cmds.Respond.{RspMsg, sense_check, final_result}

-- The host byte that a status of user space stands for (vsc.h, `CMD_SUCCESS` and the next).
abbrev host_codes : List ℕ
host_codes =
    did_ok ∷ did_ok ∷ did_no_connect ∷ did_error ∷ did_time_out ∷ did_soft_error ∷ did_requeue ∷ []

abbrev entry : List ℕ → ℕ → ℕ
entry [] n = did_error
entry (x ∷ xs) zero = x
entry (x ∷ xs) (suc n) = entry xs n

abbrev pub host_code : ℕ → ℕ
host_code n = entry host_codes n

-- A test of every number below a bound.
abbrev all_below : ℕ → (ℕ → Bool) → Bool
all_below zero p = true
all_below (suc n) p = p n && all_below n p

all_below_lem : (n : ℕ) (p : ℕ → Bool) → all_below n p ≡ true → (i : ℕ) → i < n → p i ≡ true
all_below_lem zero p h i k = absurd (omega arith)
all_below_lem (suc n) p h i k = elim (Bool-cases (i == n)) [
  | inl e ↦ ground (arith, ==_iff i n)
  | inr e ↦ all_below_lem n p (ground arith) i (ground arith)
]

-- The words for one host byte and every status byte.
abbrev fits : ℕ → ℕ → Bool
fits code s = bit_or (bit_or (host_byte_of code) (0 * 2 ^ 8)) (s * 2) == host_byte_of code + s * 2

joined :
    (code s : ℕ)
    → code < 16
    → bit_or (bit_or (host_byte_of code) (0 * 2 ^ 8)) (s % 128 * 2)
      ≡ host_byte_of code + s % 128 * 2
joined code s h = (==_iff _ _).0 (
    all_below_lem 128 (fits code) (all_below_lem 16 (λ c. all_below 128 (fits c)) refl code h)
      (s % 128) (omega arith))

host_code_cases :
    (n : ℕ)
    → (sense_check n (host_byte_of did_ok) ≡ host_byte_of (host_code n)) × (host_code n < 16)
unfolding sense_check
host_code_cases zero = (refl, omega arith)
host_code_cases (suc zero) = (refl, omega arith)
host_code_cases (suc (suc zero)) = (refl, omega arith)
host_code_cases (suc (suc (suc zero))) = (refl, omega arith)
host_code_cases (suc (suc (suc (suc zero)))) = (refl, omega arith)
host_code_cases (suc (suc (suc (suc (suc zero))))) = (refl, omega arith)
host_code_cases (suc (suc (suc (suc (suc (suc zero)))))) = (refl, omega arith)
host_code_cases (suc (suc (suc (suc (suc (suc (suc n))))))) = (ground arith, omega arith)

-- Whatever an answer holds, the result it leaves has the host byte of the command status, by the
-- table, and in the status byte the low seven bits of the SCSI status, shifted by one; the parts
-- do not overlap and there is no other.
pub result_encoding :
    (m : RspMsg)
    → final_result m ≡ host_byte_of (host_code m.command_status) + m.scsi_status % 128 * 2
unfolding final_result
result_encoding m =
    rw (host_code_cases m.command_status).0
      (joined (host_code m.command_status) m.scsi_status (host_code_cases m.command_status).1)

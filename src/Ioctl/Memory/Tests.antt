-- ===== src/Ioctl/Memory/Tests.antt =====
-- Allocations of a host at concrete inputs.
use vsc.Base.{ℕ, ◌≡◌, refl, [], ◌∷◌, Bool, true, ltb}
use vsc.Ioctl.Memory.{ctrl_init_memory}
use vsc.Ioctl.Memory.Balance.{MemoryOutcome, ctrl_init_memory_lem}

-- The fifth request is refused.
abbrev four_requests : ℕ → Bool
four_requests n = ltb n 4

ctrl_init_memory_lem_example : MemoryOutcome four_requests 3 (ctrl_init_memory four_requests 3)
ctrl_init_memory_lem_example = ctrl_init_memory_lem four_requests 3

frees_four : (ctrl_init_memory four_requests 3).freed ≡ 2 ∷ 3 ∷ 1 ∷ 0 ∷ []
unfolding ctrl_init_memory
frees_four = refl

succeeds : (ctrl_init_memory (λ n. true) 3).built ≡ true
unfolding ctrl_init_memory
succeeds = refl

-- ===== src/Base/Table.antt =====
-- Arrays as functions of the index.
use Prim.Native.Nat.{ℕ}
use vsc.Base.Tests.{◌==◌, if◌then◌else◌}

module _ {ℓ} {A : Type ℓ} where
  abbrev pub update : (ℕ → A) → ℕ → A → ℕ → A
  update f i v j = if i == j then v else f j

-- ===== src/Template/Geometry.antt =====
-- vsc_main.c: the geometry that `vsch_bios_param` gives.
use vsc.Base.{ℕ, ◌+◌, ◌*◌, ◌^◌, ◌<◌, ◌≤◌, leb, arith, inl, inr, Bool-cases}
use vsc.Template.{bios_param}

-- A geometry of a disk: the head and the sector numbers fit into their bytes, and the cylinders are as
-- many as the capacity holds whole.
abbrev pub Geometry : ℕ → ℕ × ℕ × ℕ → Type 0
Geometry capacity g =
    (g.0 ≤ 255) × (g.1 ≤ 63) × (g.0 * g.1 * g.2 ≤ capacity) × (capacity < g.0 * g.1 * (g.2 + 1))

-- For a disk of fewer than 2 ^ 31 cylinders of the largest size, the geometry has at most 255 heads and
-- 63 sectors, and as many cylinders as the capacity holds whole.
bios_param-Geometry :
    (capacity : ℕ) → capacity < 2 ^ 31 * (255 * 63) → Geometry capacity (bios_param capacity)
unfolding bios_param
bios_param-Geometry capacity small = elim (Bool-cases (leb 0x200000 capacity)) [
  | inl big ↦ rw big (omega arith)
  | inr little ↦ rw little (ground arith)
]

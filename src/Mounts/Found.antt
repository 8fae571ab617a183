-- ===== src/Mounts/Found.antt =====
-- vsc_main.c: what `vsc_check_if_dev_mounted` finds out about a device.
use vsc.Base.{
  ℕ, zero, suc, ◌<◌, ◌≡◌, ◌⊎◌, inl, inr, refl, List, [], ◌∷◌, Bool, true, false, not, some, leb,
  length, Bool-cases, arith, All,
}
use vsc.Codes.{Ret, ok, err, enoent}
use vsc.Mounts.{
  name_max, until_nul, skip_spaces, string_conversion, is_empty, same_up_to, find_dev_in_mnt_info,
  MountFile, verdict_of, check_if_dev_mounted,
}
use vsc.Mounts.Lines.{text_of, lines_from, Fits, IsCons, search_lines, scan_file-eq-search}

-- The first word of a line, and whether there is a second one.
abbrev pub device_of : List ℕ → List ℕ
device_of line = (string_conversion (until_nul line)).0

abbrev pub has_more : List ℕ → Bool
has_more line = not (is_empty (skip_spaces (string_conversion (until_nul line)).1))

-- A line that is about a device: the name is its first word, and it has a second one.
abbrev pub IsAbout : List ℕ → List ℕ → Type 0
IsAbout name line = (device_of line ≡ name) × (has_more line ≡ true)

abbrev pub Mentioned : List ℕ → List (List ℕ) → Type 0
Mentioned name [] = ⊥
Mentioned name (l ∷ ls) = IsAbout name l ⊎ Mentioned name ls

-- The first word of a line fits into the buffer for it.
abbrev pub ShortDevice : List ℕ → Type 0
ShortDevice line = length (device_of line) < name_max

-- A file that can be read, with memory for everything.
pub record Readable (m : MountFile) : Type 0 where
  pub buff_memory : m.buff_memory ≡ true
  pub line_memory : m.line_memory ≡ true
  pub opened : m.opened ≡ true
  pub regular : m.regular ≡ true
  pub has_read : m.has_read ≡ true
  pub full : All IsCons m.reads
  pub memory : (k : ℕ) → m.memory k ≡ (true, true)

-- The comparison is equality for a name that is shorter than its bound.
same-eq : (n : ℕ) (a b : List ℕ) → length a < n → same_up_to n a b ≡ true → a ≡ b
same-eq zero a b short e = absurd (omega arith)
same-eq (suc n) [] [] short e = refl
same-eq (suc n) [] (y ∷ ys) short e = cc
same-eq (suc n) (x ∷ xs) [] short e = cc
same-eq (suc n) (x ∷ xs) (y ∷ ys) short e = ground (arith, same-eq n xs ys)

same_self : (n : ℕ) (a : List ℕ) → same_up_to n a a ≡ true
same_self zero a = refl
same_self (suc n) [] = refl
same_self (suc n) (x ∷ xs) = ground (arith, same_self n xs)

-- What the code says of one line.
abbrev LineOutcome : List ℕ → List ℕ → Ret → Type 0
LineOutcome name line v =
    (IsAbout name line × (v ≡ ok 0)) ⊎ ((¬ IsAbout name line) × (v ≡ err enoent))

find_dev-outcome :
    (line name : List ℕ)
    → ShortDevice line
    → LineOutcome name line (find_dev_in_mnt_info (true, true) line name)
unfolding find_dev_in_mnt_info
find_dev-outcome line name short =
    let fits : leb name_max (length (device_of line)) ≡ false = ground arith in
    elim (Bool-cases (is_empty (skip_spaces (string_conversion (until_nul line)).1))) [
      | inl e ↦ rw (fits, e) (inr ((λ p. cc p.1), refl))
      | inr e ↦ elim (Bool-cases (same_up_to name_max (device_of line) name)) [
        | inl f ↦ rw (fits, e, f) (inl ((same-eq name_max _ name short f, refl), refl))
        | inr f ↦ rw (fits, e, f) (inr ((λ p. cc (p.0, f, same_self name_max name)), refl))
      ]
    ]

search_outcome :
    (verdict : ℕ → List ℕ → Ret) (name : List ℕ) (ls : List (List ℕ)) (k : ℕ)
    → ((j : ℕ) (l : List ℕ) → ShortDevice l → LineOutcome name l (verdict j l))
    → All ShortDevice ls
    → ((Mentioned name ls) × (search_lines verdict k (err enoent) ls ≡ ok 0))
      ⊎ ((¬ Mentioned name ls) × (search_lines verdict k (err enoent) ls ≡ err enoent))
search_outcome verdict name [] k each short = inr ((λ e. e), refl)
search_outcome verdict name (l ∷ ls) k each (s, short) = elim (each k l s) [
  | inl (about, e) ↦ rw e (inl (inl about, refl))
  | inr (other, e) ↦ elim (search_outcome verdict name ls (suc k) each short) [
    | inl (later, f) ↦ rw e (inl (inr later, f))
    | inr (never, f) ↦ rw e (inr ((λ p. elim p [ inl q ↦ other q | inr q ↦ never q ]), f))
  ]
]

-- If the file can be read, there is memory for everything, every line fits into a page with its end,
-- and every first word fits into its buffer: however the reads cut the file, the device is reported
-- as mounted exactly if a line that ends with a newline has its name as the first of at least two
-- words, and else the result is `ENOENT`.
pub mounted_lem :
    (m : MountFile) (name : List ℕ)
    → Readable m
    → Fits 0 (text_of m.reads)
    → All ShortDevice (lines_from [] (text_of m.reads))
    → ((Mentioned name (lines_from [] (text_of m.reads)))
        × (check_if_dev_mounted m (some name) ≡ ok 0))
      ⊎ ((¬ Mentioned name (lines_from [] (text_of m.reads)))
          × (check_if_dev_mounted m (some name) ≡ err enoent))
unfolding check_if_dev_mounted
mounted_lem m name r fits short =
    let found =
      scan_file-eq-search (verdict_of m name) m.reads
        (record { line = []; looked_at = 0; ret = err enoent }) r.full fits in
    rw (r.buff_memory, r.line_memory, r.opened, r.regular, r.has_read, found)
      (search_outcome (verdict_of m name) name (lines_from [] (text_of m.reads)) 0
        (λ j l s. rw (r.memory j) (find_dev-outcome l name s)) short)

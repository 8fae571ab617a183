-- ===== src/Mounts/Lines.antt =====
-- vsc_main.c: how the search of the mounts depends on the lines of the file, however it is read.
use vsc.Base.{
  ℕ, suc, ◌-◌, ◌<◌, ◌≡◌, ◌⊎◌, inl, inr, refl, List, [], ◌∷◌, ◌++◌, Bool, true, false, ◌==◌, leb,
  if◌then◌else◌, length, length-append, Bool-cases, arith, All, ◌∙◌, sym,
}
use vsc.Codes.{Ret, page_size}
use vsc.Mounts.{newline, stops, Scan, look, scan_buffer, scan_file}

-- The text that a sequence of reads gives.
abbrev pub text_of : List (List ℕ) → List ℕ
text_of [] = []
text_of (b ∷ bs) = b ++ text_of bs

-- The lines of a text that end with a newline, where `begun` has been read of the first.
abbrev pub lines_from : List ℕ → List ℕ → List (List ℕ)
lines_from begun [] = []
lines_from begun (c ∷ cs) =
    let line = begun ++ c ∷ [] in
    let later = lines_from (if c == newline then [] else line) cs in
    if c == newline then line ∷ later else later

-- Every line fits into a page with its end, where `n` bytes of the first have been read.
abbrev pub Fits : ℕ → List ℕ → Type 0
Fits n [] = Unit
Fits n (c ∷ cs) = (n < page_size - 1) × Fits (if c == newline then 0 else suc n) cs

-- A read that is not the end of the file.
abbrev pub IsCons : List ℕ → Type 0
IsCons [] = ⊥
IsCons (c ∷ cs) = Unit

module _ (verdict : ℕ → List ℕ → Ret) where
  -- The first verdict that ends the search, or else the last one.
  abbrev pub search_lines : ℕ → Ret → List (List ℕ) → Ret
  search_lines k ret [] = ret
  search_lines k ret (l ∷ ls) =
      let later = search_lines (suc k) (verdict k l) ls in
      if stops (verdict k l) then verdict k l else later

  -- What is still to be found, with some text to come.
  abbrev Pending : Scan → List ℕ → Ret
  Pending s text = search_lines s.looked_at s.ret (lines_from s.line text)

  -- What the loop over a buffer comes to, if the text after it is `rest`.
  abbrev BufferOutcome : Scan → List ℕ → List ℕ → Scan × Bool → Type 0
  BufferOutcome s cs rest out =
      ((out.1 ≡ true) × (Pending s (cs ++ rest) ≡ out.0.ret))
      ⊎ ((out.1 ≡ false)
          × (Pending s (cs ++ rest) ≡ Pending out.0 rest)
          × Fits (length (out.0.line)) rest)

  scan_buffer-outcome :
      (cs rest : List ℕ) (s : Scan)
      → Fits (length s.line) (cs ++ rest)
      → BufferOutcome s cs rest (scan_buffer verdict cs s)
  unfolding scan_buffer
  scan_buffer-outcome [] rest s fits = inr (refl, refl, fits)
  scan_buffer-outcome (c ∷ cs) rest s (small, fits) =
      let line = s.line ++ c ∷ [] in
      let room : leb (page_size - 1) (length s.line) ≡ false = ground arith in
      elim (Bool-cases (c == newline)) [
        | inl e ↦ elim (Bool-cases (stops (verdict s.looked_at line))) [
          | inl f ↦ rw (room, e, f) (inl (refl, refl))
          | inr f ↦
              rw (room, e, f) (scan_buffer-outcome cs rest (look verdict s line) (rw e at fits))
        ]
        | inr e ↦
            let longer : suc (length s.line) ≡ length line =
              omega (arith, length-append s.line (c ∷ [])) in
            rw (room, e)
              (scan_buffer-outcome cs rest (record s { line = line }) (rw longer at (rw e at fits)))
      ]

  -- What the loop that reads the file comes to: the reads may cut the text anywhere.
  pub scan_file-eq-search :
      (bs : List (List ℕ)) (s : Scan)
      → All IsCons bs
      → Fits (length s.line) (text_of bs)
      → (scan_file verdict bs s).ret
        ≡ search_lines s.looked_at s.ret (lines_from s.line (text_of bs))
  unfolding scan_file
  scan_file-eq-search [] s full fits = refl
  scan_file-eq-search ([] ∷ bs) s full fits = absurd full.0
  scan_file-eq-search ((c ∷ cs) ∷ bs) s full fits =
      elim (scan_buffer-outcome (c ∷ cs) (text_of bs) s fits) [
        | inl (over, found) ↦ rw over (sym found)
        | inr (over, same, later) ↦ rw over (scan_file-eq-search bs _ full.1 later ∙ sym same)
      ]

-- ===== src/Mounts/Tests.antt =====
-- Runs of the search of the mounts at concrete inputs.
use vsc.Base.{ℕ, suc, ◌≡◌, ◌⊎◌, refl, List, [], ◌∷◌, ◌++◌, true, some, arith, zero}
use vsc.Codes.{ok, err, oops, enoent}
use vsc.Mounts.{MountFile, find_dev_in_mnt_info, check_if_dev_mounted}
use vsc.Mounts.Lines.{text_of, lines_from}
use vsc.Mounts.Found.{Mentioned, mounted_lem}

abbrev replicate : ℕ → ℕ → List ℕ
replicate zero c = []
replicate (suc n) c = c ∷ replicate n c

-- "/d1 / x" and "/d2 /v" in three reads, the second line cut in two.
abbrev mounts : MountFile
mounts = record {
  buff_memory = true;
  line_memory = true;
  opened = true;
  regular = true;
  has_read = true;
  reads =
      (47 ∷ 100 ∷ 49 ∷ 32 ∷ 47 ∷ 32 ∷ 120 ∷ 10 ∷ 47 ∷ [])
      ∷ (100 ∷ 50 ∷ 32 ∷ [])
      ∷ (47 ∷ 118 ∷ 10 ∷ [])
      ∷ [];
  memory = λ k. (true, true);
}

mounted_lem_example :
    ((Mentioned (47 ∷ 100 ∷ 50 ∷ []) (lines_from [] (text_of mounts.reads)))
      × (check_if_dev_mounted mounts (some (47 ∷ 100 ∷ 50 ∷ [])) ≡ ok 0))
    ⊎ ((¬ Mentioned (47 ∷ 100 ∷ 50 ∷ []) (lines_from [] (text_of mounts.reads)))
        × (check_if_dev_mounted mounts (some (47 ∷ 100 ∷ 50 ∷ [])) ≡ err enoent))
mounted_lem_example =
    mounted_lem mounts (47 ∷ 100 ∷ 50 ∷ [])
      (record {
        buff_memory = refl;
        line_memory = refl;
        opened = refl;
        regular = refl;
        has_read = refl;
        full = (tt, (tt, (tt, tt)));
        memory = λ k. refl;
      })
      (omega arith) (omega arith)

finds_d2 : check_if_dev_mounted mounts (some (47 ∷ 100 ∷ 50 ∷ [])) ≡ ok 0
unfolding check_if_dev_mounted
finds_d2 = refl

misses_v : check_if_dev_mounted mounts (some (47 ∷ 118 ∷ [])) ≡ err enoent
unfolding check_if_dev_mounted
misses_v = refl

-- A line of 4095 bytes and a newline: the newline does not fit, and the line after it is lost.
abbrev long_line : MountFile
long_line = record mounts {
  reads = replicate 4095 97 ∷ (10 ∷ 47 ∷ 100 ∷ 50 ∷ 32 ∷ 47 ∷ 10 ∷ []) ∷ [];
}

loses_d2 : check_if_dev_mounted long_line (some (47 ∷ 100 ∷ 50 ∷ [])) ≡ err enoent
unfolding check_if_dev_mounted
loses_d2 = refl

-- A device of 255 bytes.
overruns : find_dev_in_mnt_info (true, true) (replicate 255 97 ++ 32 ∷ 98 ∷ 10 ∷ []) [] ≡ oops
unfolding find_dev_in_mnt_info
overruns = refl

-- ===== src/Mounts.antt =====
-- vsc_main.c: `vsc_check_if_dev_mounted`, which looks for a device in /proc/self/mounts, and
-- `vsc_find_dev_in_mnt_info`, which looks at one line of it. Texts are lists of bytes.
pub mod Lines
pub mod Found
mod Tests
use vsc.Base.{
  ℕ, zero, suc, ◌+◌, ◌-◌, List, [], ◌∷◌, ◌++◌, Bool, true, false, not, ◌&&◌, ◌||◌, Option, none,
  some, ◌==◌, leb, if◌then◌else◌, length,
}
use vsc.Codes.{Ret, ok, err, oops, enomem, enoent, einval, eacces, eio, page_size}

abbrev pub name_max : ℕ
name_max = 255

-- The newline, 10.
abbrev pub newline : ℕ
newline = 10

-- `isspace` of the kernel, which has 0xa0 too.
abbrev pub is_space : ℕ → Bool
is_space c = (c == 32) || (leb 9 c && leb c 13) || (c == 0xa0)

-- What a function on C strings sees of a buffer.
abbrev pub until_nul : List ℕ → List ℕ
until_nul [] = []
until_nul (c ∷ cs) = let rest = until_nul cs in if c == 0 then [] else c ∷ rest

-- A conversion `%s` of `sscanf`: it skips blanks, then takes what is none. What it takes and what is
-- left.
abbrev pub skip_spaces : List ℕ → List ℕ
skip_spaces [] = []
skip_spaces (c ∷ cs) = let rest = skip_spaces cs in if is_space c then rest else c ∷ cs

abbrev pub next_word : List ℕ → List ℕ × List ℕ
next_word [] = ([], [])
next_word (c ∷ cs) =
    let (w, rest) = next_word cs in if is_space c then ([], c ∷ cs) else (c ∷ w, rest)

abbrev pub string_conversion : List ℕ → List ℕ × List ℕ
string_conversion cs = next_word (skip_spaces cs)

abbrev pub is_empty : List ℕ → Bool
is_empty [] = true
is_empty (c ∷ cs) = false

-- `!strncmp(a, b, n)` of two strings.
abbrev pub same_up_to : ℕ → List ℕ → List ℕ → Bool
same_up_to zero a b = true
same_up_to (suc n) [] [] = true
same_up_to (suc n) [] (y ∷ ys) = false
same_up_to (suc n) (x ∷ xs) [] = false
same_up_to (suc n) (x ∷ xs) (y ∷ ys) = (x == y) && same_up_to n xs ys

-- `vsc_find_dev_in_mnt_info`. The flags say whether the two allocations succeed. The first word goes
-- to a buffer of `NAME_MAX` bytes, and nothing bounds it: `oops` is a write behind the buffer.
unfoldable pub find_dev_in_mnt_info : Bool × Bool → List ℕ → List ℕ → Ret
find_dev_in_mnt_info (name_memory, dummy_memory) line name =
    let (device, rest) = string_conversion (until_nul line) in
    if not name_memory
    then err enomem
    else if not dummy_memory
    then err enomem
    else if leb name_max (length device)
    then oops
    else if is_empty (skip_spaces rest)
    then err enoent
    else if same_up_to name_max device name
    then ok 0
    else err enoent

-- Whether the search is over: the device has been found, or memory has been damaged.
abbrev pub stops : Ret → Bool
stops (ok n) = n == 0
stops (err e) = false
stops oops = true

-- The variables of the loop: the line so far, how many lines have been looked at, and `ret`.
pub record Scan : Type 0 where
  pub line : List ℕ
  pub looked_at : ℕ
  pub ret : Ret

-- `verdict k` is what `vsc_find_dev_in_mnt_info` says of the `k`-th line.
module _ (verdict : ℕ → List ℕ → Ret) where
  abbrev pub look : Scan → List ℕ → Scan
  look s line = record { line = []; looked_at = suc s.looked_at; ret = verdict s.looked_at line }

  -- The loop over a buffer of `vsc_check_if_dev_mounted`, with whether the search is over. A line
  -- that fills its page is dropped, and so is what is left of the buffer.
  unfoldable pub scan_buffer : List ℕ → Scan → Scan × Bool
  scan_buffer [] s = (s, false)
  scan_buffer (c ∷ cs) s =
      let line = s.line ++ c ∷ [] in
      let looked = look s line in
      let rest = scan_buffer cs (if c == newline then looked else record s { line = line }) in
      if leb (page_size - 1) (length s.line)
      then (record s { line = [] }, false)
      else if (c == newline) && stops looked.ret
      then (looked, true)
      else rest

  -- The loop that reads the file. Each list is what one `kernel_read` gives; the file ends with an
  -- empty one.
  unfoldable pub scan_file : List (List ℕ) → Scan → Scan
  unfolding scan_buffer
  scan_file [] s = s
  scan_file ([] ∷ bs) s = s
  scan_file ((c ∷ cs) ∷ bs) s =
      let (t, over) = scan_buffer (c ∷ cs) s in
      let rest = scan_file bs t in if over then t else rest

-- What `vsc_check_if_dev_mounted` meets: whether its allocations succeed, whether the file can be
-- opened, is a regular file and has a `read`, what the reads give, and for each line whether the
-- allocations of `vsc_find_dev_in_mnt_info` succeed.
pub record MountFile : Type 0 where
  pub buff_memory : Bool
  pub line_memory : Bool
  pub opened : Bool
  pub regular : Bool
  pub has_read : Bool
  pub reads : List (List ℕ)
  pub memory : ℕ → Bool × Bool

-- `vsc_find_dev_in_mnt_info` of the `k`-th line.
abbrev pub verdict_of : MountFile → List ℕ → ℕ → List ℕ → Ret
verdict_of m name k line = find_dev_in_mnt_info (m.memory k) line name

-- `vsc_check_if_dev_mounted`; `none` is a null pointer.
unfoldable pub check_if_dev_mounted : MountFile → Option (List ℕ) → Ret
unfolding find_dev_in_mnt_info scan_file
check_if_dev_mounted m none = err einval
check_if_dev_mounted m (some name) =
    let start : Scan = record { line = []; looked_at = 0; ret = err enoent } in
    if not m.buff_memory
    then err enomem
    else if not m.line_memory
    then err enomem
    else if not m.opened
    then err eacces
    else if not m.regular
    then err eacces
    else if not m.has_read
    then err eio
    else (scan_file (verdict_of m name) m.reads start).ret

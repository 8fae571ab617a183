-- ===== src/Setup/Uses.antt =====
-- What is taken from the kernel and given back, the last first.
use vsc.Base.{List, [], ◌∷◌, Bool, true, false, Option, none, some, if◌then◌else◌}
use vsc.Setup.{Resource, proc_dir, chrdev, class, device, slab, pool, Use, take, give}

abbrev pub same : Resource → Resource → Bool
same proc_dir proc_dir = true
same chrdev chrdev = true
same class class = true
same device device = true
same slab slab = true
same pool pool = true
same _ _ = false

-- What is taken after a use, the last first; `none` if the use gives back something else than what
-- was taken last.
abbrev pub use_of : Use → List Resource → Option (List Resource)
use_of (take r) taken = some (r ∷ taken)
use_of (give r) [] = none
use_of (give r) (q ∷ taken) = if same r q then some taken else none

abbrev pub uses_on : List Use → Option (List Resource) → Option (List Resource)
uses_on [] taken = taken
uses_on (u ∷ us) none = none
uses_on (u ∷ us) (some taken) = uses_on us (use_of u taken)

abbrev pub taken_by : List Use → Option (List Resource)
taken_by us = uses_on us (some [])

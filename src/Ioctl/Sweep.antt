-- ===== src/Ioctl/Sweep.antt =====
-- vsc_main.c: `vsc_remove_all_host`, the removal of every host when the module is unloaded.
use vsc.Base.{
  ℕ, zero, suc, ◌≡◌, ◌≢◌, ◌≤◌, ◌<◌, ◌⊎◌, inl, inr, refl, List, [], ◌∷◌, true, false, Option, none,
  some, ◌==◌, ==_iff, ==_refl, ltb, if◌then◌else◌, arith, Bool-cases, update, ◌+◌, ◌∙◌,
}
use vsc.Hosts.{HostMgr, max_host_nr_per_vbs}
use vsc.Ioctl.State.{Ctrl}
use vsc.Ioctl.Register.{remove_host}

-- `vsc_do_remove_host` of an entry of `host_list`, which refuses a null pointer.
abbrev pub remove_entry : Option ℕ → (ℕ → Ctrl) → ℕ → Ctrl
remove_entry none c = c
remove_entry (some h) c = update c h (remove_host (c h)).1

-- The inner loop: `n` entries from the index `i` on.
unfoldable pub remove_entries : ℕ → ℕ → (ℕ → Option ℕ) → (ℕ → Ctrl) → ℕ → Ctrl
unfolding remove_host
remove_entries zero i hosts c = c
remove_entries (suc n) i hosts c = remove_entries n (suc i) hosts (remove_entry (hosts i) c)

-- `vsc_remove_all_host`: the control blocks, and the managers that stay in the registry.
unfoldable pub remove_all_host : List HostMgr → (ℕ → Ctrl) → (ℕ → Ctrl) × List HostMgr
unfolding remove_entries
remove_all_host [] c = (c, [])
remove_all_host (m ∷ ms) c =
    let swept = remove_all_host ms (remove_entries m.host_count 0 m.host_list c) in
    let skipped = remove_all_host ms c in
    if ltb max_host_nr_per_vbs m.host_count then (skipped.0, m ∷ skipped.1) else swept

-- A host that has been given back stays so.
entry-freed :
    (o : Option ℕ) (c : ℕ → Ctrl) (h : ℕ) → (c h).freed ≡ true → (remove_entry o c h).freed ≡ true
unfolding remove_host
entry-freed none c h e = e
entry-freed (some k) c h e = elim (Bool-cases (k == h)) [
  | inl same ↦ rw same refl
  | inr apart ↦ rw apart e
]

entry-frees : (o : Option ℕ) (c : ℕ → Ctrl) (h : ℕ) → o ≡ some h → (remove_entry o c h).freed ≡ true
unfolding remove_host
entry-frees o c h e = rw (e, ==_refl h) refl

entries-freed :
    (n i : ℕ) (hosts : ℕ → Option ℕ) (c : ℕ → Ctrl) (h : ℕ)
    → (c h).freed ≡ true
    → (remove_entries n i hosts c h).freed ≡ true
unfolding remove_entries
entries-freed zero i hosts c h e = e
entries-freed (suc n) i hosts c h e =
    entries-freed n (suc i) hosts (remove_entry (hosts i) c) h (entry-freed (hosts i) c h e)

-- A host is in an entry, or the entry leaves it alone.
entry_cases :
    (o : Option ℕ) (c : ℕ → Ctrl) (h : ℕ)
    → (o ≡ some h) ⊎ ((o ≢ some h) × (remove_entry o c h ≡ c h))
entry_cases none c h = inr ((λ e. cc e), refl)
entry_cases (some k) c h = elim (Bool-cases (k == h)) [
  | inl same ↦ inl (cc ((==_iff k h).0 same))
  | inr apart ↦
      inr ((λ e. let met : k == h ≡ true = (==_iff k h).1 (cc e) in cc (met, apart)), rw apart refl)
]

-- What the loop does to a host.
abbrev EntriesOutcome : ℕ → ℕ → (ℕ → Option ℕ) → (ℕ → Ctrl) → ℕ → Type 0
EntriesOutcome n i hosts c h =
    (((j : ℕ) × (j < n) × (hosts (i + j) ≡ some h)) × ((remove_entries n i hosts c h).freed ≡ true))
    ⊎ (((j : ℕ) → j < n → hosts (i + j) ≢ some h) × (remove_entries n i hosts c h ≡ c h))

entries_later :
    (n i : ℕ) (hosts : ℕ → Option ℕ) (h : ℕ)
    → hosts i ≢ some h
    → ((j : ℕ) → j < n → hosts (suc i + j) ≢ some h)
    → (j : ℕ) → j < suc n
    → hosts (i + j) ≢ some h
entries_later n i hosts h now later zero small e =
    let same : i + 0 ≡ i = omega arith in now (cc (same, e))
entries_later n i hosts h now later (suc j) small e =
    let same : suc i + j ≡ i + suc j = omega arith in later j (omega arith) (cc (same, e))

entries_outcome :
    (n i : ℕ) (hosts : ℕ → Option ℕ) (c : ℕ → Ctrl) (h : ℕ) → EntriesOutcome n i hosts c h
unfolding remove_entries
entries_outcome zero i hosts c h = inr ((λ j small. absurd (omega arith)), refl)
entries_outcome (suc n) i hosts c h = elim (entry_cases (hosts i) c h) [
  | inl e ↦
      let same : i + 0 ≡ i = omega arith in
      inl (
        (0, omega arith, cc (same, e)),
        entries-freed n (suc i) hosts (remove_entry (hosts i) c) h (entry-frees (hosts i) c h e),
      )
  | inr (now, kept) ↦ elim (entries_outcome n (suc i) hosts (remove_entry (hosts i) c) h) [
    | inl ((j, small, e), f) ↦
        let same : suc i + j ≡ i + suc j = omega arith in
        inl ((suc j, omega arith, cc (same, e)), f)
    | inr (later, f) ↦ inr (entries_later n i hosts h now later, f ∙ kept)
  ]
]

all-freed :
    (ms : List HostMgr) (c : ℕ → Ctrl) (h : ℕ)
    → (c h).freed ≡ true
    → ((remove_all_host ms c).0 h).freed ≡ true
unfolding remove_all_host
all-freed [] c h e = e
all-freed (m ∷ ms) c h e = elim (Bool-cases (ltb max_host_nr_per_vbs m.host_count)) [
  | inl over ↦ rw over (all-freed ms c h e)
  | inr fits ↦ rw fits (all-freed ms _ h (entries-freed m.host_count 0 m.host_list c h e))
]

-- A host is in one of the entries that the sweep reaches: those of a manager with at most eight
-- hosts, up to its count.
abbrev pub Reached : List HostMgr → ℕ → Type 0
Reached [] h = ⊥
Reached (m ∷ ms) h =
    ((m.host_count ≤ max_host_nr_per_vbs)
      × ((j : ℕ) × (j < m.host_count) × (m.host_list j ≡ some h)))
    ⊎ Reached ms h

abbrev pub SweepOutcome : List HostMgr → (ℕ → Ctrl) → ℕ → Type 0
SweepOutcome ms c h =
    (Reached ms h × (((remove_all_host ms c).0 h).freed ≡ true))
    ⊎ ((¬ Reached ms h) × ((remove_all_host ms c).0 h ≡ c h))

over_lem :
    (m : HostMgr) (ms : List HostMgr) (c : ℕ → Ctrl) (h : ℕ)
    → ltb max_host_nr_per_vbs m.host_count ≡ true
    → SweepOutcome ms c h
    → SweepOutcome (m ∷ ms) c h
unfolding remove_all_host
over_lem m ms c h over (inl (r, f)) = rw over (inl (inr r, f))
over_lem m ms c h over (inr (r, f)) =
    rw over (inr ((λ s. elim s [ inl (fits, e) ↦ ground arith | inr later ↦ r later ]), f))

fits_lem :
    (m : HostMgr) (ms : List HostMgr) (c : ℕ → Ctrl) (h : ℕ)
    → ltb max_host_nr_per_vbs m.host_count ≡ false
    → EntriesOutcome m.host_count 0 m.host_list c h
    → SweepOutcome ms (remove_entries m.host_count 0 m.host_list c) h
    → SweepOutcome (m ∷ ms) c h
unfolding remove_all_host
fits_lem m ms c h fits (inl ((j, small, e), f)) o =
    let same : 0 + j ≡ j = omega arith in
    rw fits (inl (inl (ground arith, (j, small, cc (same, e))), all-freed ms _ h f))
fits_lem m ms c h fits (inr (missed, f)) (inl (r, g)) = rw fits (inl (inr r, g))
fits_lem m ms c h fits (inr (missed, f)) (inr (r, g)) = rw fits (
    inr (
      (λ s. elim s [
        | inl (few, (j, small, e)) ↦
            let same : 0 + j ≡ j = omega arith in missed j small (cc (same, e))
        | inr later ↦ r later
      ]),
      g ∙ f,
    ))

-- The removal of all hosts gives back every host in an entry below the count of its manager, if that
-- count is at most eight, and leaves every other host as it was.
pub remove_all_host_lem : (ms : List HostMgr) (c : ℕ → Ctrl) (h : ℕ) → SweepOutcome ms c h
unfolding remove_all_host
remove_all_host_lem [] c h = inr ((λ r. r), refl)
remove_all_host_lem (m ∷ ms) c h = elim (Bool-cases (ltb max_host_nr_per_vbs m.host_count)) [
  | inl over ↦ over_lem m ms c h over (remove_all_host_lem ms c h)
  | inr fits ↦
      fits_lem m ms c h fits (entries_outcome m.host_count 0 m.host_list c h)
        (remove_all_host_lem ms (remove_entries m.host_count 0 m.host_list c) h)
]

-- ===== src/Hosts/Lookup.antt =====
-- What a registration of vsc_main.c does to the search for a host.
use vsc.Base.{
  ℕ, ◌<◌, ◌≤◌, ◌≡◌, ◌⊎◌, inl, inr, refl, List, [], ◌∷◌, Bool, true, false, ◌&&◌, Option, none, some,
  ◌==◌, ==_iff, leb, if◌then◌else◌, arith, Bool-cases,
}
use vsc.Hosts.{
  HostMgr, find_host, find_mgr, get_ctlr_by_host, enter_host, add_host_to_mgr,
  get_host_index_in_vbs, get_vbs_id_by_host_id, max_host_nr_per_vbs,
}

-- Why the registry takes no host: no memory for the manager of a new vbs, or a manager that is full.
abbrev pub NoRoom : Bool → Option HostMgr → Type 0
NoRoom memory none = memory ≡ false
NoRoom memory (some m) = max_host_nr_per_vbs ≤ m.host_count

-- The search in a registry with one more entry.
abbrev pub Extends : List HostMgr → List HostMgr → ℕ → ℕ → ℕ → Type 0
Extends ms ms' vbs_id index h =
    (v i : ℕ)
    → find_host ms' v i ≡ (if (v == vbs_id) && (i == index) then some h else find_host ms v i)

module _ (memory : Bool) (vbs_id index h : ℕ) where
  abbrev EnterOutcome : List HostMgr → Option (List HostMgr) → Type 0
  EnterOutcome ms none = NoRoom memory (find_mgr ms vbs_id)
  EnterOutcome ms (some ms') = Extends ms ms' vbs_id index h

  here_lem :
      (m : HostMgr) (ms : List HostMgr)
      → (m.vbs_id == vbs_id) ≡ true
      → EnterOutcome (m ∷ ms) (enter_host memory (m ∷ ms) vbs_id index h)
  unfolding enter_host find_host find_mgr
  here_lem m ms e = elim (Bool-cases (leb max_host_nr_per_vbs m.host_count)) [
    | inl full ↦ rw (e, full) (ground arith)
    | inr room ↦
        rw (e, room)
          (λ v i. ground (
            arith,
            ==_iff m.vbs_id vbs_id,
            ==_iff v vbs_id,
            ==_iff m.vbs_id v,
            ==_iff index i,
            ==_iff i index,
          ))
  ]

  there_lem :
      (m : HostMgr) (ms : List HostMgr) (r : Option (List HostMgr))
      → (m.vbs_id == vbs_id) ≡ false
      → EnterOutcome ms r
      → EnterOutcome (m ∷ ms) (elim r [ none ↦ none | some ms' ↦ some (m ∷ ms') ])
  unfolding find_host find_mgr
  there_lem m ms none e o = rw e o
  there_lem m ms (some ms') e o =
      λ v i. ground (arith, o v i, ==_iff m.vbs_id vbs_id, ==_iff v vbs_id)

  enter_outcome : (ms : List HostMgr) → EnterOutcome ms (enter_host memory ms vbs_id index h)
  unfolding enter_host find_host find_mgr
  enter_outcome [] = elim (Bool-cases memory) [
    | inl e ↦
        rw (e, enter_host)
          (λ v i. ground (arith, ==_iff v vbs_id, ==_iff vbs_id v, ==_iff index i, ==_iff i index))
    | inr e ↦ rw (e, enter_host) refl
  ]
  enter_outcome (m ∷ ms) = elim (Bool-cases (m.vbs_id == vbs_id)) [
    | inl e ↦ here_lem m ms e
    | inr e ↦ rw (e, enter_host) (there_lem m ms _ e (enter_outcome ms))
  ]

-- Two host numbers mean the same entry.
abbrev pub same_entry : ℕ → ℕ → Bool
same_entry a b =
    (get_vbs_id_by_host_id a == get_vbs_id_by_host_id b)
    && (get_host_index_in_vbs a == get_host_index_in_vbs b)

-- What a registration comes to.
abbrev pub AddOutcome : Bool → List HostMgr → ℕ → ℕ → Option (List HostMgr) → Type 0
AddOutcome memory ms h id none =
    (max_host_nr_per_vbs ≤ get_host_index_in_vbs id)
    ⊎ NoRoom memory (find_mgr ms (get_vbs_id_by_host_id id))
AddOutcome memory ms h id (some ms') =
    (host_no : ℕ)
    → get_ctlr_by_host ms' host_no
      ≡ (if same_entry host_no id then some h else get_ctlr_by_host ms host_no)

entered-AddOutcome :
    (memory : Bool) (ms : List HostMgr) (h id : ℕ) (r : Option (List HostMgr))
    → get_host_index_in_vbs id < max_host_nr_per_vbs
    → EnterOutcome memory (get_vbs_id_by_host_id id) (get_host_index_in_vbs id) h ms r
    → AddOutcome memory ms h id r
unfolding get_ctlr_by_host
entered-AddOutcome memory ms h id none small o = inr o
entered-AddOutcome memory ms h id (some ms') small o = λ n. ground (
  arith,
  o (get_vbs_id_by_host_id n) (get_host_index_in_vbs n),
  ==_iff (get_host_index_in_vbs n) (get_host_index_in_vbs id),
)

-- A registration is refused only if the index is out of range, the manager of the vbs is full, or
-- there is no memory for a new one. Otherwise the search finds the new host under every number with
-- its vbs and its index (the bits from 24 on are ignored), and under any other number what it found
-- before.
pub add_outcome :
    (memory : Bool) (ms : List HostMgr) (h id : ℕ)
    → AddOutcome memory ms h id (add_host_to_mgr memory ms h id)
unfolding add_host_to_mgr
add_outcome memory ms h id =
    elim (Bool-cases (leb max_host_nr_per_vbs (get_host_index_in_vbs id))) [
      | inl big ↦ rw big (inl (ground arith))
      | inr small ↦ rw small (
          entered-AddOutcome memory ms h id _ (ground arith)
            (enter_outcome memory (get_vbs_id_by_host_id id) (get_host_index_in_vbs id) h ms))
    ]

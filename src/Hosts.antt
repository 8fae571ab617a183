-- ===== src/Hosts.antt =====
-- vsc_main.c: the registry of hosts (`g_host_mgr_list`), its search and its growth.
-- A host is named by a number, the address of its `struct vsc_ctrl_info`.
pub mod Queue
pub mod Lookup
pub mod Fair
pub mod Outcome
mod Tests
use vsc.Base.{
  ℕ, ◌+◌, ◌/◌, ◌%◌, ◌^◌, List, [], ◌∷◌, ◌++◌, Bool, true, false, Option, none, some, ◌==◌, leb,
  inc32, if◌then◌else◌,
}

-- `MAX_HOST_NR_PER_VBS`.
abbrev pub max_host_nr_per_vbs : ℕ
max_host_nr_per_vbs = 8

-- `struct vsc_host_mgr`; `none` is a null pointer.
pub record HostMgr : Type 0 where
  pub vbs_id : ℕ
  pub host_count : ℕ
  pub host_list : ℕ → Option ℕ

-- `vsc_get_vbs_id_by_host_id`: `(host_id >> 8) & 0xFFFF`.
abbrev pub get_vbs_id_by_host_id : ℕ → ℕ
get_vbs_id_by_host_id host_id = host_id / 2 ^ 8 % 2 ^ 16

-- `vsc_get_host_index_in_vbs`: `host_id & 0xFF`.
abbrev pub get_host_index_in_vbs : ℕ → ℕ
get_host_index_in_vbs host_id = host_id % 2 ^ 8

-- The loop of `vsc_get_ctlr_by_host`: the first manager of the vbs decides.
unfoldable pub find_host : List HostMgr → ℕ → ℕ → Option ℕ
find_host [] vbs_id index = none
find_host (m ∷ ms) vbs_id index =
    let rest = find_host ms vbs_id index in if m.vbs_id == vbs_id then m.host_list index else rest

-- `vsc_get_ctlr_by_host`.
unfoldable pub get_ctlr_by_host : List HostMgr → ℕ → Option ℕ
unfolding find_host
get_ctlr_by_host ms host_no =
    let index = get_host_index_in_vbs host_no in
    if leb max_host_nr_per_vbs index
    then none
    else find_host ms (get_vbs_id_by_host_id host_no) index

-- An assignment to an entry of `host_list`.
abbrev pub put_host : (ℕ → Option ℕ) → ℕ → ℕ → ℕ → Option ℕ
put_host hosts i h j = if i == j then some h else hosts j

-- A manager that has just been allocated, with its first host.
abbrev pub new_mgr : ℕ → ℕ → ℕ → HostMgr
new_mgr vbs_id index h = record {
  vbs_id = vbs_id;
  host_count = 1;
  host_list = put_host (λ i. none) index h;
}

-- The loop of `vsc_add_host_to_mgr` and what follows it. `memory` says that `kmalloc` succeeds;
-- `none` is `FAILED`.
unfoldable pub enter_host : Bool → List HostMgr → ℕ → ℕ → ℕ → Option (List HostMgr)
enter_host true [] vbs_id index h = some (new_mgr vbs_id index h ∷ [])
enter_host false [] vbs_id index h = none
enter_host memory (m ∷ ms) vbs_id index h =
    let rest = enter_host memory ms vbs_id index h in
    let m' : HostMgr = record m {
      host_list = put_host m.host_list index h;
      host_count = inc32 m.host_count;
    } in
    if m.vbs_id == vbs_id
    then (if leb max_host_nr_per_vbs m.host_count then none else some (m' ∷ ms))
    else elim rest [ none ↦ none | some ms' ↦ some (m ∷ ms') ]

-- `vsc_add_host_to_mgr`; `h->silbing_hosts` becomes the manager of the vbs.
unfoldable pub add_host_to_mgr : Bool → List HostMgr → ℕ → ℕ → Option (List HostMgr)
unfolding enter_host
add_host_to_mgr memory ms h host_id =
    let index = get_host_index_in_vbs host_id in
    if leb max_host_nr_per_vbs index
    then none
    else enter_host memory ms (get_vbs_id_by_host_id host_id) index h

-- The manager of a vbs.
unfoldable pub find_mgr : List HostMgr → ℕ → Option HostMgr
find_mgr [] vbs_id = none
find_mgr (m ∷ ms) vbs_id =
    let rest = find_mgr ms vbs_id in if m.vbs_id == vbs_id then some m else rest

-- ===== src/Ioctl/Memory.antt =====
-- vsc_main.c: the memory of a host. The allocations of `vsc_ctrl_init`, its way out when one fails, and
-- `vsc_ctlr_info_destroy`.
pub mod Balance
mod Tests
use vsc.Base.{
  ℕ, zero, suc, ◌+◌, List, [], ◌∷◌, ◌++◌, Bool, true, false, not, Option, none, some, ◌==◌,
  if◌then◌else◌,
}
use vsc.Cmds.Account.History.{max_cmd_num}

-- `VSC_DEFAULT_EVENT_NUMBER`.
abbrev pub default_event_number : ℕ
default_event_number = 8

-- The array of pointers of a pool, at an address.
pub record Table : Type 0 where
  pub address : ℕ
  pub slots : List (Option ℕ)

-- `cmd_pool_bits` and `cmd_pool_tbl`, or `event_pool_bits` and `event_pool_tbl`.
pub record PoolMemory : Type 0 where
  pub bits : Option ℕ
  pub table : Option Table

pub record HostMemory : Type 0 where
  pub cmd_pool : PoolMemory
  pub event_pool : PoolMemory

-- After the `memset`.
abbrev pub no_pool : PoolMemory
no_pool = record { bits = none; table = none }

-- A table that `kzalloc` has cleared.
abbrev pub cleared : ℕ → List (Option ℕ)
cleared zero = []
cleared (suc n) = none ∷ cleared n

-- `vsc_ctlr_info_destroy` of the entries of a table: what it frees, in order.
abbrev pub free_slots : List (Option ℕ) → List ℕ
free_slots [] = []
free_slots (none ∷ os) = free_slots os
free_slots (some a ∷ os) = a ∷ free_slots os

abbrev pub free_table : Option Table → List ℕ
free_table none = []
free_table (some t) = free_slots t.slots ++ t.address ∷ []

abbrev pub free_bits : Option ℕ → List ℕ
free_bits none = []
free_bits (some a) = a ∷ []

abbrev pub free_pool : PoolMemory → List ℕ
free_pool p = free_table p.table ++ free_bits p.bits

-- `vsc_ctlr_info_destroy`: what it frees, in order.
unfoldable pub ctlr_info_destroy : HostMemory → List ℕ
ctlr_info_destroy m = free_pool m.event_pool ++ free_pool m.cmd_pool

-- The requests are numbered, and a number is the address of what its request gets. `grants` says
-- which requests get something. A loop or a pool gives what it has, the number of the next request,
-- and whether all went well.
module _ (grants : ℕ → Bool) where
  -- The loop that allocates the entries of a table.
  unfoldable pub fill : ℕ → ℕ → List (Option ℕ) × ℕ × Bool
  fill zero next = ([], next, true)
  fill (suc n) next =
      let (os, k, done) = fill n (suc next) in
      if grants next then (some next ∷ os, k, done) else (cleared (suc n), suc next, false)

  -- The allocations of one pool.
  unfoldable pub pool_init : ℕ → ℕ → PoolMemory × ℕ × Bool
  unfolding fill
  pool_init nr next =
      let (os, k, done) = fill nr (suc (suc next)) in
      if not (grants next)
      then (no_pool, suc next, false)
      else if not (grants (suc next))
      then (record { bits = some next; table = none }, suc (suc next), false)
      else (
        record { bits = some next; table = some (record { address = suc next; slots = os }) },
        k,
        done,
      )

  -- What `vsc_ctrl_init` comes to: the memory of the host, how many requests it made, whether all
  -- went well, and what it has freed.
  pub record Built : Type 0 where
    pub memory : HostMemory
    pub asked : ℕ
    pub built : Bool
    pub freed : List ℕ

  abbrev pub settle : HostMemory → ℕ → Bool → Built
  settle m k done = record {
    memory = m;
    asked = k;
    built = done;
    freed = if done then [] else ctlr_info_destroy m;
  }

  -- The allocations of `vsc_ctrl_init`, with its end at `err_out`.
  unfoldable pub ctrl_init_memory : ℕ → Built
  unfolding pool_init ctlr_info_destroy
  ctrl_init_memory nr_cmds =
      let (cmds, k, done) = pool_init (if nr_cmds == 0 then max_cmd_num else nr_cmds) 0 in
      let (events, l, all_done) = pool_init default_event_number k in
      if done
      then settle (record { cmd_pool = cmds; event_pool = events }) l all_done
      else settle (record { cmd_pool = cmds; event_pool = no_pool }) k false

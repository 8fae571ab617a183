-- ===== src/Ioctl/Report/Dump.antt =====
-- vsc_main.c: `vsc_debug_host` and `vsc_debug_cmd`, what they print of the commands.
use vsc.Base.{
  ℕ, zero, suc, ◌+◌, ◌≡◌, refl, List, [], ◌∷◌, ◌&&◌, Option, none, some, ◌==◌, leb, if◌then◌else◌,
  length, map, arith,
}
use vsc.Cmds.{Cmds, CmdStat, QueueType, reqq, comq, rspq, init, request, read_comp}
use vsc.Cmds.Inv.{Inv, Slots}
use vsc.Cmds.Inv.Census.{slots_taken, backlog-eq-slots}
use vsc.Hosts.{HostMgr, max_host_nr_per_vbs, get_vbs_id_by_host_id, get_host_index_in_vbs}

-- A line: the serial number, the tag and the state of a command.
pub record CmdLine : Type 0 where
  pub cmd_sn : ℕ
  pub tag : ℕ
  pub cmd_stat : CmdStat

-- The loop over one queue.
abbrev pub dump_queue : Cmds → List ℕ → List CmdLine
dump_queue q [] = []
dump_queue q (i ∷ is) =
    let c = q.cmd_pool_tbl i in
    record { cmd_sn = c.cmd_sn; tag = c.cmd_index; cmd_stat = c.stat } ∷ dump_queue q is

-- What is printed of a host, whose number stands in each line.
pub record HostDump : Type 0 where
  pub host_no : ℕ
  pub req_lines : List CmdLine
  pub cmp_lines : List CmdLine
  pub rsp_lines : List CmdLine

-- `vsc_debug_host` of a host that is not null. The lock is let go between the queues: `at` has the
-- commands when a queue is printed.
unfoldable pub debug_host : ℕ → (QueueType → Cmds) → HostDump
debug_host host_no at = record {
  host_no = host_no;
  req_lines = dump_queue (at reqq) (at reqq).req_q;
  cmp_lines = dump_queue (at comq) (at comq).cmp_q;
  rsp_lines = dump_queue (at rspq) (at rspq).rsp_q;
}

module _ (number : ℕ → ℕ) (at : ℕ → QueueType → Cmds) where
  -- The loop over the entries of a manager; `number` is the number of the host at an address. A null
  -- entry prints nothing.
  abbrev pub dump_entries : (ℕ → Option ℕ) → ℕ → ℕ → List HostDump
  dump_entries hosts zero i = []
  dump_entries hosts (suc n) i =
      let rest = dump_entries hosts n (i + 1) in
      elim (hosts i) [ none ↦ rest | some h ↦ debug_host (number h) (at h) ∷ rest ]

  -- The loop of `vsc_debug_cmd`: the first manager of the vbs with a count in range.
  unfoldable pub dump_mgr : List HostMgr → ℕ → List HostDump
  dump_mgr [] vbs_id = []
  dump_mgr (m ∷ ms) vbs_id =
      let rest = dump_mgr ms vbs_id in
      if (m.vbs_id == vbs_id) && leb m.host_count max_host_nr_per_vbs
      then dump_entries m.host_list m.host_count 0
      else rest

  -- `vsc_debug_cmd`.
  unfoldable pub debug_cmd : List HostMgr → ℕ → List HostDump
  unfolding dump_mgr
  debug_cmd ms host_no =
      if leb max_host_nr_per_vbs (get_host_index_in_vbs host_no)
      then []
      else dump_mgr ms (get_vbs_id_by_host_id host_no)

-- The lines of a queue whose commands are at `is`, in a state.
pub record LinesOf (is : List ℕ) (s : CmdStat) (ls : List CmdLine) : Type 0 where
  pub tags : map (λ (l : CmdLine). l.tag) ls ≡ is
  pub stats : map (λ (l : CmdLine). l.cmd_stat) ls ≡ map (λ (i : ℕ). s) is
  pub size : length ls ≡ length is

dump_queue-LinesOf :
    (q : Cmds) (s : CmdStat) (is : List ℕ) → Slots q s is → LinesOf is s (dump_queue q is)
dump_queue-LinesOf q s [] h = record { tags = refl; stats = refl; size = refl }
dump_queue-LinesOf q s (i ∷ is) h =
    let rest = dump_queue-LinesOf q s is h.1 in
    record {
      tags = cc (h.0.2, rest.tags);
      stats = cc (h.0.4, rest.stats);
      size = omega (arith, rest.size);
    }

-- The dump of a host whose queues are in order and do not change meanwhile: each queue is printed by
-- tag, in its order and in the state that goes with it, and there is one line for each taken slot.
debug_host_lem :
    (host_no : ℕ) (q : Cmds)
    → Inv q
    → LinesOf q.req_q init (debug_host host_no (λ t. q)).req_lines
      × LinesOf q.cmp_q request (debug_host host_no (λ t. q)).cmp_lines
      × LinesOf q.rsp_q read_comp (debug_host host_no (λ t. q)).rsp_lines
      × (length (debug_host host_no (λ t. q)).req_lines
            + (length (debug_host host_no (λ t. q)).cmp_lines
                + length (debug_host host_no (λ t. q)).rsp_lines)
          ≡ slots_taken q.cmd_pool_bits q.nr_cmds)
unfolding debug_host
debug_host_lem host_no q v =
    let r = dump_queue-LinesOf q init q.req_q v.req in
    let c = dump_queue-LinesOf q request q.cmp_q v.cmp in
    let p = dump_queue-LinesOf q read_comp q.rsp_q v.rsp in
    (r, c, p, omega (arith, r.size, c.size, p.size, backlog-eq-slots q v))

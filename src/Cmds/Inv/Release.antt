-- ===== src/Cmds/Inv/Release.antt =====
-- A command that leaves the queues of vsc_main.c for good: what every such path does.
use vsc.Base.{
  ℕ, ◌%◌, ◌^◌, ◌<◌, ◌≤◌, ◌≡◌, List, [], ◌∷◌, ◌++◌, false, ◌==◌, length, count, remove, count-remove,
  length-remove, All, All-remove, arith, dec32, subst, sym, ==_iff,
}
use vsc.Cmds.{Cmds, CmdStat, init, request, read_comp, ScsiCmnd}
use vsc.Cmds.Inv.{Inv, Slot, Slots, Slots_frame, uses}

-- `q'` is `q` without the command at `c`, whose slot is free and whose `sc` is reported.
pub record Released (q q' : Cmds) (c : ℕ) (sc : ScsiCmnd) (result : ℕ) : Type 0 where
  pub same_nr : q'.nr_cmds ≡ q.nr_cmds
  pub req : q'.req_q ≡ remove c q.req_q
  pub cmp : q'.cmp_q ≡ remove c q.cmp_q
  pub rsp : q'.rsp_q ≡ remove c q.rsp_q
  pub depth : q'.qdepth ≡ length (remove c q.req_q) % 2 ^ 32
  pub running : q'.io_running ≡ dec32 q.io_running
  pub frame :
      (j : ℕ)
      → (c == j) ≡ false
      → (q'.cmd_pool_tbl j ≡ q.cmd_pool_tbl j) × (q'.cmd_pool_bits j ≡ q.cmd_pool_bits j)
  pub freed : q'.cmd_pool_bits c ≡ false
  pub reported : q'.completed ≡ q.completed ++ record { sc = sc; result = result } ∷ []

module _ (q q' : Cmds) (c : ℕ) (sc : ScsiCmnd) (result : ℕ) (v : Inv q) (held : 0 < uses q c)
    (r : Released q q' c sc result) where
  kept : (s : CmdStat) (xs : List ℕ) → count c xs ≤ 1 → Slots q s xs → Slots q' s (remove c xs)
  kept s xs once h =
      subst (λ n. All (Slot q'.cmd_pool_tbl q'.cmd_pool_bits n s) (remove c xs)) (sym r.same_nr)
        (Slots_frame q.cmd_pool_tbl q'.cmd_pool_tbl q.cmd_pool_bits q'.cmd_pool_bits q.nr_cmds s c
          (remove c xs) r.frame (ground (arith, count-remove c c xs)) (All-remove _ c xs h))

  pub Released-Inv : Inv q'
  Released-Inv = record {
    once = λ i.
        rw (r.req, r.cmp, r.rsp)
          (ground (
            arith,
            v.once i,
            count-remove c i q.req_q,
            count-remove c i q.cmp_q,
            count-remove c i q.rsp_q,
          ));
    req = rw r.req (kept init q.req_q (ground (arith, v.once c)) v.req);
    cmp = rw r.cmp (kept request q.cmp_q (ground (arith, v.once c)) v.cmp);
    rsp = rw r.rsp (kept read_comp q.rsp_q (ground (arith, v.once c)) v.rsp);
    depth = rw (r.req) r.depth;
    running =
        rw (r.running, r.req, r.cmp, r.rsp)
          (omega (
            arith,
            v.running,
            v.once c,
            held,
            length-remove c q.req_q,
            length-remove c q.cmp_q,
            length-remove c q.rsp_q,
          ));
    no_leak = λ i h b.
        rw (r.req, r.cmp, r.rsp)
          (ground (
            arith,
            v.no_leak i,
            r.frame i,
            r.same_nr,
            r.freed,
            ==_iff c i,
            count-remove c i q.req_q,
            count-remove c i q.cmp_q,
            count-remove c i q.rsp_q,
          ));
  }

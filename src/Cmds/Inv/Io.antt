-- ===== src/Cmds/Inv/Io.antt =====
-- The invariant under `vsc_start_io` and `vsc_scsi_queue_command`.
use vsc.Base.{
  ℕ, zero, suc, ◌+◌, ◌<◌, ◌≤◌, ◌≡◌, List, [], ◌∷◌, ◌++◌, true, false, some, none, update, length,
  count, remove_absent, remove_head, All-append, arith, count-append, length-append, dec32, inc32,
  u32, u64, ◌⊎◌, inl, inr, ==_iff, subst, ap, ◌∙◌, append-nil, append_assoc, List-cases,
}
use vsc.Cmds.{find_zero_from, Cmds, Cmd, init, request, ScsiCmnd, cmd_alloc}
use vsc.Cmds.Io.{start_one, start_io_loop, start_io, start_io_new, enqueue_cmd_and_start_io, submit}
use vsc.Cmds.Inv.{
  Inv, Slots, Slots_update, Slots_set, Slots_idle, find_zero_from_full, find_zero_from-lt,
}

module _ (q : Cmds) (c : ℕ) (cs : List ℕ) (first : q.req_q ≡ c ∷ cs) (v : Inv q) where
  only_here : (count c cs ≡ 0) × (count c q.cmp_q ≡ 0) × (count c q.rsp_q ≡ 0)
  only_here = ground (arith, v.once c)

  -- What one round of the loop does: the first request moves to the end of the other queue.
  pub start_one_lem : start_one q c ≡ record q {
    req_q = cs;
    cmp_q = q.cmp_q ++ c ∷ [];
    qdepth = dec32 q.qdepth;
    cmd_pool_tbl = update q.cmd_pool_tbl c (record (q.cmd_pool_tbl c) { stat = request });
  }
  unfolding start_one
  start_one_lem =
      rw (
        first,
        remove_head,
        remove_absent c q.cmp_q only_here.1,
        remove_absent c q.rsp_q only_here.2,
      )

  heads : Slots q init (c ∷ cs)
  heads = subst (Slots q init) first v.req

  pub start_one-Inv : Inv (start_one q c)
  start_one-Inv = rw start_one_lem (record {
    once = λ i. ground (arith, v.once i, count-append i q.cmp_q (c ∷ []));
    req = Slots_update _ _ _ _ c _ cs only_here.0 heads.1;
    cmp =
        All-append _ q.cmp_q (c ∷ []) (Slots_update _ _ _ _ c _ q.cmp_q only_here.1 v.cmp)
          (ground (arith, heads.0));
    rsp = Slots_update _ _ _ _ c _ q.rsp_q only_here.2 v.rsp;
    depth = ground (arith, v.depth);
    running = ground (arith, v.running, length-append q.cmp_q (c ∷ []));
    no_leak = λ i h b. ground (arith, v.no_leak i, count-append i q.cmp_q (c ∷ []));
  })

pub start_io_loop-Inv : (n : ℕ) (q : Cmds) → Inv q → Inv (start_io_loop n q)
unfolding start_io_loop
start_io_loop-Inv zero q v = v
start_io_loop-Inv (suc n) q v = elim (List-cases q.req_q) [
  | inl e ↦ rw (e, start_io_loop) v
  | inr (c, cs, e) ↦
      rw (e, start_io_loop) (start_io_loop-Inv n (start_one q c) (start_one-Inv q c cs e v))
]

pub start_io-Inv : (q : Cmds) → Inv q → Inv (start_io q)
unfolding start_io
start_io-Inv q v = start_io_loop-Inv (length q.req_q) q v

pub start_io_loop-eq-new :
    (n : ℕ) (q : Cmds) → Inv q → length q.req_q ≤ n → start_io_loop n q ≡ start_io_new q
unfolding start_io_loop start_io_new
start_io_loop-eq-new zero q v h = ground (arith, v.depth, append-nil q.cmp_q, List-cases q.req_q)
start_io_loop-eq-new (suc n) q v h = elim (List-cases q.req_q) [
  | inl e ↦ rw (e, start_io_loop) (ground (arith, v.depth, append-nil q.cmp_q))
  | inr (c, cs, e) ↦
      rw (e, start_io_loop)
        (start_io_loop-eq-new n (start_one q c) (start_one-Inv q c cs e v)
            (rw (start_one_lem q c cs e v) (omega (arith, ap length e)))
          ∙ rw (start_one_lem q c cs e v) (ground (arith, append_assoc q.cmp_q (c ∷ []) cs)))
]

-- From queues in order, `vsc_start_io`, which takes the requests one by one, leaves what
-- `vsc_start_io_new` leaves, which takes them at once.
pub start_io-eq-new : (q : Cmds) → Inv q → start_io q ≡ start_io_new q
unfolding start_io
start_io-eq-new q v = start_io_loop-eq-new (length q.req_q) q v (omega arith)

abbrev fresh : Cmds → ℕ → Cmd
fresh q c = record {
  cmd_index = c;
  stat = init;
  scsi_cmd = none;
  cmd_sn = u32 (u64 (q.cmd_sn + 1));
  refcnt = 1;
}

-- The queues just before `vsc_start_io`: the command stands last among the requests.
abbrev pub staged : Cmds → ℕ → ScsiCmnd → Cmds
staged q c sc = record q {
  cmd_pool_bits = update q.cmd_pool_bits c true;
  cmd_pool_tbl =
      update (update q.cmd_pool_tbl c (fresh q c)) c
        (record (update q.cmd_pool_tbl c (fresh q c) c) { scsi_cmd = some sc });
  cmd_sn = u64 (q.cmd_sn + 1);
  req_q = q.req_q ++ c ∷ [];
  qdepth = inc32 q.qdepth;
  io_running = inc32 q.io_running;
}

module _ (q : Cmds) (c : ℕ) (sc : ScsiCmnd) (v : Inv q) (small : c < q.nr_cmds)
    (idle : q.cmd_pool_bits c ≡ false) where
  pub unqueued : (count c q.req_q ≡ 0) × (count c q.cmp_q ≡ 0) × (count c q.rsp_q ≡ 0)
  unqueued = (
    Slots_idle q.cmd_pool_tbl _ _ _ c q.req_q idle v.req,
    Slots_idle q.cmd_pool_tbl _ _ _ c q.cmp_q idle v.cmp,
    Slots_idle q.cmd_pool_tbl _ _ _ c q.rsp_q idle v.rsp,
  )

  pub staged-Inv : Inv (staged q c sc)
  staged-Inv = record {
    once = λ i. ground (arith, v.once i, count-append i q.req_q (c ∷ []), unqueued, ==_iff c i);
    req =
        All-append _ q.req_q (c ∷ [])
          (Slots_set q.cmd_pool_tbl _ _ _ c _ _ q.req_q unqueued.0 v.req) (ground arith);
    cmp = Slots_set q.cmd_pool_tbl _ _ _ c _ _ q.cmp_q unqueued.1 v.cmp;
    rsp = Slots_set q.cmd_pool_tbl _ _ _ c _ _ q.rsp_q unqueued.2 v.rsp;
    depth = ground (arith, v.depth, length-append q.req_q (c ∷ []));
    running = ground (arith, v.running, length-append q.req_q (c ∷ []));
    no_leak = λ i h b. ground (arith, v.no_leak i, count-append i q.req_q (c ∷ []));
  }

-- Every slot is taken.
abbrev pub Full : Cmds → Type 0
Full q = (i : ℕ) → i < q.nr_cmds → q.cmd_pool_bits i ≡ true

-- What a call of the mid-layer comes to: busy, or a tag.
abbrev pub SubmitOutcome : Cmds → ScsiCmnd → Type 0
SubmitOutcome q sc =
    (Full q × (submit q sc ≡ (none, q)))
    ⊎ ((c : ℕ) × (c < q.nr_cmds)
        × (q.cmd_pool_bits c ≡ false)
        × (submit q sc ≡ (some c, start_io_new (staged q c sc))))

pub submit_lem :
    (q : Cmds) (sc : ScsiCmnd)
    → Inv q
    → ((submit q sc ≡ (none, q)) × Full q)
      ⊎ ((c : ℕ) × (c < q.nr_cmds)
          × (q.cmd_pool_bits c ≡ false)
          × (submit q sc ≡ (some c, start_io (staged q c sc))))
unfolding submit cmd_alloc enqueue_cmd_and_start_io
submit_lem q sc v = elim (find_zero_from-lt q.cmd_pool_bits q.nr_cmds 0) [
  | inl full ↦
      let e : find_zero_from q.cmd_pool_bits q.nr_cmds 0 ≡ q.nr_cmds = omega arith in
      inl (
        ground (arith, e),
        λ i h. find_zero_from_full q.cmd_pool_bits q.nr_cmds 0 i full (omega arith) (omega arith),
      )
  | inr (below, idle) ↦
      inr (find_zero_from q.cmd_pool_bits q.nr_cmds 0, omega arith, idle, ground arith)
]

-- From queues in order, a command is turned away, with nothing changed, only if every slot is
-- taken. Otherwise it gets a free slot with a fresh serial number, joins the requests last, and
-- all requests move to the end of the queue that user space reads.
pub submit_outcome : (q : Cmds) (sc : ScsiCmnd) → Inv q → SubmitOutcome q sc
submit_outcome q sc v = elim (submit_lem q sc v) [
  | inl (e, full) ↦ inl (full, e)
  | inr (c, small, idle, e) ↦ inr (
    c,
    small,
    idle,
    e ∙ ap (λ r. (some c, r)) (start_io-eq-new (staged q c sc) (staged-Inv q c sc v small idle)),
  )
]

pub submit-Inv : (q : Cmds) (sc : ScsiCmnd) → Inv q → Inv (submit q sc).1
submit-Inv q sc v = elim (submit_lem q sc v) [
  | inl (e, full) ↦ rw e v
  | inr (c, small, idle, e) ↦ rw e (start_io-Inv (staged q c sc) (staged-Inv q c sc v small idle))
]

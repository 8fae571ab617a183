-- ===== src/Cmds/Inv/Read.antt =====
-- The invariant under `vsc_get_multi_scsi_cmd_and_cdb`, and what a read delivers.
use mathlib.Core.List.{reverse_aux}
use vsc.Base.{
  ℕ, zero, suc, ◌+◌, ◌<◌, ◌≤◌, ◌≡◌, refl, List, [], ◌∷◌, ◌++◌, length, count, mem, take, drop,
  remove, remove_absent, arith, inl, inr, List-cases, ap, ◌∙◌, append-nil, append_assoc,
  remove_head, count-append, remove-append, count-mem, mem-count, All-left, All-right, All-append,
  take-append-drop, count-reverse_aux, length-reverse_aux, All-reverse_aux, count-take-drop,
  length-append, length-take-drop, update, if◌then◌else◌, u32, inc32,
}
use vsc.Codes.{max_batch_scsi_cmd_count}
use vsc.Cmds.{Cmds, Cmd, CmdStat, init, request, read_comp, mark_stat}
use vsc.Cmds.Read.{collect_one, collect, put_back}
use vsc.Cmds.Inv.{Inv, Slots, uses, Slots_same, Slots_marked}

abbrev Once : Cmds → Type 0
Once q = (i : ℕ) → uses q i ≤ 1

collect_one_lem :
    (q : Cmds) (c : ℕ) (cs : List ℕ)
    → Once q
    → q.cmp_q ≡ c ∷ cs
    → collect_one q c ≡ record q { cmp_q = cs; rsp_q = q.rsp_q ++ c ∷ [] }
unfolding collect_one
collect_one_lem q c cs once e =
    let h = once c in
    rw (
      e,
      remove_head,
      remove_absent c q.req_q (ground (arith, h)),
      remove_absent c q.rsp_q (ground (arith, h)),
    )

-- The loop moves the first commands, in their order, to the end of the response queue.
pub collect_lem :
    (n : ℕ) (q : Cmds)
    → Once q
    → collect n q
      ≡ (take n q.cmp_q, record q { cmp_q = drop n q.cmp_q; rsp_q = q.rsp_q ++ take n q.cmp_q })
unfolding collect
collect_lem zero q once = ground (arith, append-nil q.rsp_q)
collect_lem (suc n) q once = elim (List-cases q.cmp_q) [
  | inl e ↦ rw (e, collect) (ground (arith, append-nil q.rsp_q))
  | inr (c, cs, e) ↦
      let q' : Cmds = record q { cmp_q = cs; rsp_q = q.rsp_q ++ c ∷ [] } in
      let once' : Once q' = λ i. ground (arith, once i, count-append i q.rsp_q (c ∷ [])) in
      rw (e, collect, collect_one_lem q c cs once e, collect_lem n q' once')
        (ground (arith, append_assoc q.rsp_q (c ∷ []) (take n cs)))
]

pub mark_stat_lem :
    (s : CmdStat) (cs : List ℕ) (tbl : ℕ → Cmd) (j : ℕ)
    → mark_stat s cs tbl j ≡ (if mem j cs then record (tbl j) { stat = s } else tbl j)
unfolding mark_stat
mark_stat_lem s [] tbl j = refl
mark_stat_lem s (c ∷ cs) tbl j =
    ground (arith, mark_stat_lem s cs (update tbl c (record (tbl c) { stat = s })) j)

mark_absent :
    (s : CmdStat) (cs : List ℕ) (tbl : ℕ → Cmd) (j : ℕ)
    → count j cs ≡ 0
    → mark_stat s cs tbl j ≡ tbl j
mark_absent s cs tbl j h = ground (arith, mark_stat_lem s cs tbl j, mem-count j cs)

pub mark_present :
    (s : CmdStat) (cs : List ℕ) (tbl : ℕ → Cmd) (j : ℕ)
    → 0 < count j cs
    → mark_stat s cs tbl j ≡ record (tbl j) { stat = s }
mark_present s cs tbl j h = ground (arith, mark_stat_lem s cs tbl j, count-mem j cs h)

-- The loop at `errout` puts the commands back, each before the one put back last.
pub put_back_lem :
    (cs rest : List ℕ) (q : Cmds)
    → Once q
    → q.rsp_q ≡ rest ++ cs
    → put_back cs q ≡ record q {
      rsp_q = rest;
      cmp_q = reverse_aux cs q.cmp_q;
      cmd_pool_tbl = mark_stat request cs q.cmd_pool_tbl;
    }
unfolding put_back mark_stat
put_back_lem [] rest q once e = ground (arith, append-nil rest)
put_back_lem (c ∷ cs) rest q once e =
    let h : 1 + count c rest + count c q.cmp_q + count c q.req_q ≤ 1 =
      ground (arith, once c, ap (count c) e, count-append c rest (c ∷ cs)) in
    let unlinked : remove c q.rsp_q ≡ rest ++ cs =
      ap (remove c) e
      ∙ remove-append c rest (c ∷ cs) (omega arith)
      ∙ ap (◌++◌ rest) (remove_head c cs) in
    let once' : (i : ℕ) → count i q.req_q + (count i (c ∷ q.cmp_q) + count i (rest ++ cs)) ≤ 1 =
      λ i.
        ground
          (arith, once i, ap (count i) e, count-append i rest (c ∷ cs), count-append i rest cs) in
    rw (unlinked, remove_absent c q.req_q (omega arith), remove_absent c q.cmp_q (omega arith))
      (put_back_lem cs rest _ once' refl)

-- The queues after a read that succeeds.
abbrev pub taken : Cmds → Cmds
taken q = record q {
  cmp_q = drop max_batch_scsi_cmd_count q.cmp_q;
  rsp_q = q.rsp_q ++ take max_batch_scsi_cmd_count q.cmp_q;
  cmd_pool_tbl = mark_stat read_comp (take max_batch_scsi_cmd_count q.cmp_q) q.cmd_pool_tbl;
  get_cmd_times = inc32 q.get_cmd_times;
  get_cmd_total = u32 (q.get_cmd_total + length (take max_batch_scsi_cmd_count q.cmp_q));
}

-- Those after one whose copy to user space fails.
abbrev pub returned : Cmds → Cmds
returned q = record (taken q) {
  cmp_q =
      reverse_aux (take max_batch_scsi_cmd_count q.cmp_q) (drop max_batch_scsi_cmd_count q.cmp_q);
  rsp_q = q.rsp_q;
  cmd_pool_tbl = mark_stat request (take max_batch_scsi_cmd_count q.cmp_q) (taken q).cmd_pool_tbl;
}

module _ (q : Cmds) (v : Inv q) where
  taken-Once : Once (taken q)
  taken-Once i =
      ground (arith, v.once i, count-append i q.rsp_q (take 4 q.cmp_q), count-take-drop i 4 q.cmp_q)

  pub batch : Slots q request (take 4 q.cmp_q)
  batch = All-left _ (take 4 q.cmp_q) (drop 4 q.cmp_q) (rw (take-append-drop 4 q.cmp_q) v.cmp)

  behind : Slots q request (drop 4 q.cmp_q)
  behind = All-right _ (take 4 q.cmp_q) (drop 4 q.cmp_q) (rw (take-append-drop 4 q.cmp_q) v.cmp)

  -- A command outside the batch keeps its record.
  outside :
      (j : ℕ)
      → count j (take 4 q.cmp_q) ≡ 0
      → ((taken q).cmd_pool_tbl j ≡ q.cmd_pool_tbl j)
        × ((returned q).cmd_pool_tbl j ≡ q.cmd_pool_tbl j)
  outside j h = (
    mark_absent read_comp (take 4 q.cmp_q) q.cmd_pool_tbl j h,
    mark_absent request (take 4 q.cmp_q) (taken q).cmd_pool_tbl j h
        ∙ mark_absent read_comp (take 4 q.cmp_q) q.cmd_pool_tbl j h,
  )

  apart :
      (j : ℕ)
      → 0 < count j q.req_q + (count j (drop 4 q.cmp_q) + count j q.rsp_q)
      → count j (take 4 q.cmp_q) ≡ 0
  apart j h = omega (arith, v.once j, count-take-drop j 4 q.cmp_q)

  pub taken-Inv : Inv (taken q)
  taken-Inv = record {
    once = taken-Once;
    req =
        Slots_same q.cmd_pool_tbl _ _ _ init q.req_q (λ j h. (outside j (apart j (omega arith))).0)
          v.req;
    cmp =
        Slots_same q.cmd_pool_tbl _ _ _ request (drop 4 q.cmp_q)
          (λ j h. (outside j (apart j (omega arith))).0) behind;
    rsp =
        All-append _ q.rsp_q (take 4 q.cmp_q)
          (Slots_same q.cmd_pool_tbl _ _ _ read_comp q.rsp_q
            (λ j h. (outside j (apart j (omega arith))).0) v.rsp)
          (Slots_marked q.cmd_pool_tbl _ _ _ request read_comp (take 4 q.cmp_q)
            (mark_present read_comp (take 4 q.cmp_q) q.cmd_pool_tbl) batch);
    depth = v.depth;
    running =
        omega
          (arith, v.running, length-append q.rsp_q (take 4 q.cmp_q), length-take-drop 4 q.cmp_q);
    no_leak = λ i h b. omega (
      arith,
      v.no_leak i h b,
      count-append i q.rsp_q (take 4 q.cmp_q),
      count-take-drop i 4 q.cmp_q,
    );
  }

  pub put_back-returned : put_back (take 4 q.cmp_q) (taken q) ≡ returned q
  put_back-returned = put_back_lem (take 4 q.cmp_q) q.rsp_q (taken q) taken-Once refl

  restored :
      (j : ℕ)
      → 0 < count j (take 4 q.cmp_q)
      → (returned q).cmd_pool_tbl j ≡ record (q.cmd_pool_tbl j) { stat = request }
  restored j h =
      mark_present request (take 4 q.cmp_q) (taken q).cmd_pool_tbl j h
      ∙ ap (λ (c : Cmd). record c { stat = request })
          (mark_present read_comp (take 4 q.cmp_q) q.cmd_pool_tbl j h)

  pub returned-Inv : Inv (returned q)
  returned-Inv = record {
    once = λ i. omega (
      arith,
      v.once i,
      count-reverse_aux i (take 4 q.cmp_q) (drop 4 q.cmp_q),
      count-take-drop i 4 q.cmp_q,
    );
    req =
        Slots_same q.cmd_pool_tbl _ _ _ init q.req_q (λ j h. (outside j (apart j (omega arith))).1)
          v.req;
    cmp =
        All-reverse_aux _ (take 4 q.cmp_q) (drop 4 q.cmp_q)
          (Slots_marked q.cmd_pool_tbl _ _ _ request request (take 4 q.cmp_q) restored batch)
          (Slots_same q.cmd_pool_tbl _ _ _ request (drop 4 q.cmp_q)
            (λ j h. (outside j (apart j (omega arith))).1) behind);
    rsp =
        Slots_same q.cmd_pool_tbl _ _ _ read_comp q.rsp_q
          (λ j h. (outside j (apart j (omega arith))).1) v.rsp;
    depth = v.depth;
    running = omega (
      arith,
      v.running,
      length-reverse_aux (take 4 q.cmp_q) (drop 4 q.cmp_q),
      length-take-drop 4 q.cmp_q,
    );
    no_leak = λ i h b. omega (
      arith,
      v.no_leak i h b,
      count-reverse_aux i (take 4 q.cmp_q) (drop 4 q.cmp_q),
      count-take-drop i 4 q.cmp_q,
    );
  }

-- ===== src/Cmds/Inv/Drain.antt =====
-- The invariant under `vsc_each_queue_remove`, and what it reports.
use vsc.Base.{
  ℕ, zero, suc, ◌<◌, ◌≤◌, ◌≡◌, refl, List, [], ◌∷◌, ◌++◌, false, some, none, Option, ◌==◌, length,
  count, remove, remove_absent, length-remove, All_of_count, arith, ==_iff, ◌≢◌, inl, inr,
  List-cases, ap, ap₂, ◌∙◌, append-nil, append_assoc, remove_head,
}
use vsc.Codes.{host_byte_of}
use vsc.Cmds.{
  Cmds, Cmd, CmdStat, init, request, read_comp, ScsiCmnd, Done, QueueType, reqq, comq, rspq,
}
use vsc.Cmds.Drain.{queue_of, finish_with, remove_one, remove_loop, remove_queue, each_queue_remove}
use vsc.Cmds.Inv.{Inv, Slot, Slots, uses, some_of_is_some}
use vsc.Cmds.Inv.Release.{Released, Released-Inv}

-- The state that the commands of a queue are in.
abbrev stat_of : QueueType → CmdStat
stat_of reqq = init
stat_of comq = request
stat_of rspq = read_comp

queue_of-Slots : (ty : QueueType) (q : Cmds) → Inv q → Slots q (stat_of ty) (queue_of ty q)
queue_of-Slots reqq q v = v.req
queue_of-Slots comq q v = v.cmp
queue_of-Slots rspq q v = v.rsp

held_of : (ty : QueueType) (q : Cmds) (c : ℕ) → 0 < count c (queue_of ty q) → 0 < uses q c
held_of reqq q c h = omega arith
held_of comq q c h = omega arith
held_of rspq q c h = omega arith

module _ (code : ℕ) (q : Cmds) (c : ℕ) (v : Inv q) (sc : ScsiCmnd)
    (has : (q.cmd_pool_tbl c).scsi_cmd ≡ some sc) where
  -- One round takes the first command out, frees its slot, and reports it once.
  remove_one-Released :
      (ty : QueueType)
      → 0 < count c (queue_of ty q)
      → Slot q.cmd_pool_tbl q.cmd_pool_bits q.nr_cmds (stat_of ty) c
      → Released q (remove_one (finish_with code) ty q c) c sc (host_byte_of code)
  unfolding remove_one finish_with
  remove_one-Released reqq h slot = ground (arith, v.once c, v.depth, length-remove c q.req_q)
  remove_one-Released comq h slot = ground (arith, v.once c, v.depth, remove_absent c q.req_q)
  remove_one-Released rspq h slot = ground (arith, v.once c, v.depth, remove_absent c q.req_q)

abbrev report : ℕ → Option ScsiCmnd → List Done → List Done
report code none ds = ds
report code (some sc) ds = record { sc = sc; result = host_byte_of code } ∷ ds

-- The reports that completing the commands of a list with `code` makes, in order.
abbrev pub reports : ℕ → (ℕ → Cmd) → List ℕ → List Done
reports code tbl [] = []
reports code tbl (c ∷ cs) = report code (tbl c).scsi_cmd (reports code tbl cs)

reports_frame :
    (code : ℕ) (tbl tbl' : ℕ → Cmd) (xs : List ℕ)
    → ((j : ℕ) → 0 < count j xs → tbl' j ≡ tbl j)
    → reports code tbl' xs ≡ reports code tbl xs
reports_frame code tbl tbl' [] same = refl
reports_frame code tbl tbl' (x ∷ xs) same =
    let rest = reports_frame code tbl tbl' xs (λ j h. same j (ground arith)) in
    ap₂ (λ (k : Cmd) ds. report code k.scsi_cmd ds) (same x (ground arith)) rest

-- The queues after one of them was emptied.
record Drained (code : ℕ) (ty : QueueType) (q q' : Cmds) : Type 0 where
  valid : Inv q'
  empty : queue_of ty q' ≡ []
  others : (t : QueueType) → t ≢ ty → queue_of t q' ≡ queue_of t q
  frame : (j : ℕ) → count j (queue_of ty q) ≡ 0 → q'.cmd_pool_tbl j ≡ q.cmd_pool_tbl j
  reported : q'.completed ≡ q.completed ++ reports code q.cmd_pool_tbl (queue_of ty q)
  same_nr : q'.nr_cmds ≡ q.nr_cmds

queue_of-Released :
    (t : QueueType) (q q' : Cmds) (c : ℕ) (sc : ScsiCmnd) (result : ℕ)
    → Released q q' c sc result
    → queue_of t q' ≡ remove c (queue_of t q)
queue_of-Released reqq q q' c sc result r = r.req
queue_of-Released comq q q' c sc result r = r.cmp
queue_of-Released rspq q q' c sc result r = r.rsp

-- A command stands in one queue only.
one_queue :
    (ty t : QueueType) (q : Cmds) (c : ℕ)
    → Inv q
    → t ≢ ty
    → 0 < count c (queue_of ty q)
    → count c (queue_of t q) ≡ 0
one_queue reqq reqq q c v n h = absurd (n refl)
one_queue reqq comq q c v n h = omega (arith, v.once c)
one_queue reqq rspq q c v n h = omega (arith, v.once c)
one_queue comq reqq q c v n h = omega (arith, v.once c)
one_queue comq comq q c v n h = absurd (n refl)
one_queue comq rspq q c v n h = omega (arith, v.once c)
one_queue rspq reqq q c v n h = omega (arith, v.once c)
one_queue rspq comq q c v n h = omega (arith, v.once c)
one_queue rspq rspq q c v n h = absurd (n refl)

once_of : (ty : QueueType) (q : Cmds) (c : ℕ) → Inv q → count c (queue_of ty q) ≤ 1
once_of reqq q c v = omega (arith, v.once c)
once_of comq q c v = omega (arith, v.once c)
once_of rspq q c v = omega (arith, v.once c)

module _ (code : ℕ) (ty : QueueType) where
  nothing-Drained : (q : Cmds) → Inv q → queue_of ty q ≡ [] → Drained code ty q q
  nothing-Drained q v e = record {
    valid = v;
    empty = e;
    others = λ t n. refl;
    frame = λ j h. refl;
    reported = rw (e, append-nil q.completed);
    same_nr = refl;
  }

  -- One round and the rounds after it.
  cons-Drained :
      (q q' q'' : Cmds) (c : ℕ) (cs : List ℕ) (sc : ScsiCmnd)
      → Inv q
      → queue_of ty q ≡ c ∷ cs
      → (q.cmd_pool_tbl c).scsi_cmd ≡ some sc
      → Released q q' c sc (host_byte_of code)
      → queue_of ty q' ≡ cs
      → Drained code ty q' q''
      → Drained code ty q q''
  cons-Drained q q' q'' c cs sc v e has r e' d = record {
    valid = d.valid;
    empty = d.empty;
    others = λ t n.
        d.others t n
        ∙ queue_of-Released t q q' c sc _ r
        ∙ remove_absent c _ (one_queue ty t q c v n (rw e (ground arith)));
    frame = λ j h.
        let away : (c == j) ≡ false = ground (arith, ap (count j) e) in
        d.frame j (rw e' (ground (arith, ap (count j) e))) ∙ (r.frame j away).0;
    reported =
        d.reported
        ∙ ap₂ (λ xs ys. xs ++ ys) r.reported
            (ap (reports code q'.cmd_pool_tbl) e'
              ∙ reports_frame code q.cmd_pool_tbl q'.cmd_pool_tbl cs (λ j h.
                (r.frame j (
                  ground (arith, ap (count j) e, ap (count c) e, once_of ty q c v, ==_iff c j))).0))
        ∙ rw (e, has) (append_assoc q.completed _ _);
    same_nr = d.same_nr ∙ r.same_nr;
  }

  remove_loop-Drained :
      (n : ℕ) (q : Cmds)
      → Inv q
      → length (queue_of ty q) ≤ n
      → Drained code ty q (remove_loop (finish_with code) ty n q)
  unfolding remove_loop
  remove_loop-Drained zero q v h = nothing-Drained q v (ground (arith, List-cases (queue_of ty q)))
  remove_loop-Drained (suc n) q v h = elim (List-cases (queue_of ty q)) [
    | inl e ↦ rw (e, remove_loop) (nothing-Drained q v e)
    | inr (c, cs, e) ↦
        let held : 0 < count c (queue_of ty q) = rw e (ground arith) in
        let slot = All_of_count _ c (queue_of ty q) (queue_of-Slots ty q v) held in
        let (sc, has) = some_of_is_some (q.cmd_pool_tbl c).scsi_cmd slot.5 in
        let r = remove_one-Released code q c v sc has ty held slot in
        let q' = remove_one (finish_with code) ty q c in
        let e' : queue_of ty q' ≡ cs =
          queue_of-Released ty q q' c sc _ r ∙ rw e (remove_head c cs) in
        let v' = Released-Inv q q' c sc _ v (held_of ty q c held) r in
        rw (e, remove_loop)
          (cons-Drained q q' _ c cs sc v e has r e'
            (remove_loop-Drained n q' v' (rw e' (omega (arith, ap length e)))))
  ]

  remove_queue-Drained :
      (q : Cmds) → Inv q → Drained code ty q (remove_queue (finish_with code) ty q)
  unfolding remove_queue
  remove_queue-Drained q v = remove_loop-Drained (length (queue_of ty q)) q v (omega arith)

-- Emptying the queues leaves them empty and in order, and reports every command that waited,
-- once each, with the same host byte: the requests first, the answered last.
pub record Emptied (code : ℕ) (q q' : Cmds) : Type 0 where
  pub valid : Inv q'
  pub no_req : q'.req_q ≡ []
  pub no_cmp : q'.cmp_q ≡ []
  pub no_rsp : q'.rsp_q ≡ []
  pub reported :
      q'.completed ≡ q.completed ++ reports code q.cmd_pool_tbl (q.req_q ++ (q.cmp_q ++ q.rsp_q))
  pub same_nr : q'.nr_cmds ≡ q.nr_cmds

reports-append :
    (code : ℕ) (tbl : ℕ → Cmd) (xs ys : List ℕ)
    → reports code tbl (xs ++ ys) ≡ reports code tbl xs ++ reports code tbl ys
reports-append code tbl [] ys = refl
reports-append code tbl (x ∷ xs) ys = ground (arith, reports-append code tbl xs ys)

module _ (code : ℕ) (q q1 q2 q3 : Cmds) (v : Inv q) (a : Drained code reqq q q1)
    (b : Drained code comq q1 q2) (c : Drained code rspq q2 q3) where
  cmp_reports : reports code q1.cmd_pool_tbl q1.cmp_q ≡ reports code q.cmd_pool_tbl q.cmp_q
  cmp_reports =
      ap (reports code q1.cmd_pool_tbl) (a.others comq (λ e. cc))
      ∙ reports_frame code q.cmd_pool_tbl q1.cmd_pool_tbl q.cmp_q
          (λ j h. a.frame j (one_queue comq reqq q j v (λ e. cc) h))

  rsp_reports : reports code q2.cmd_pool_tbl q2.rsp_q ≡ reports code q.cmd_pool_tbl q.rsp_q
  rsp_reports =
      ap (reports code q2.cmd_pool_tbl) (b.others rspq (λ e. cc) ∙ a.others rspq (λ e. cc))
      ∙ reports_frame code q.cmd_pool_tbl q2.cmd_pool_tbl q.rsp_q (λ j h.
        b.frame j (ap (count j) (a.others comq (λ e. cc)) ∙ one_queue rspq comq q j v (λ e. cc) h)
        ∙ a.frame j (one_queue rspq reqq q j v (λ e. cc) h))

  all_reported :
      q3.completed ≡ q.completed ++ reports code q.cmd_pool_tbl (q.req_q ++ (q.cmp_q ++ q.rsp_q))
  all_reported =
      rw (c.reported, b.reported, a.reported, cmp_reports, rsp_reports)
        (simp (append_assoc, reports-append))

  emptied : Emptied code q q3
  emptied = record {
    valid = c.valid;
    no_req = c.others reqq (λ e. cc) ∙ b.others reqq (λ e. cc) ∙ a.empty;
    no_cmp = c.others comq (λ e. cc) ∙ b.empty;
    no_rsp = c.empty;
    reported = all_reported;
    same_nr = c.same_nr ∙ b.same_nr ∙ a.same_nr;
  }

-- From queues in order, removing every command with a host byte leaves the three queues empty and
-- in order, keeps the size of the pool, and reports every command that waited, once each and with
-- that host byte, those of the request queue first and those of the response queue last.
pub each_queue_remove-Emptied :
    (code : ℕ) (q : Cmds) → Inv q → Emptied code q (each_queue_remove (finish_with code) q)
unfolding each_queue_remove
each_queue_remove-Emptied code q v =
    let a = remove_queue-Drained code reqq q v in
    let b = remove_queue-Drained code comq _ a.valid in
    emptied code q _ _ _ v a b (remove_queue-Drained code rspq _ b.valid)

-- ===== src/Cmds/Account/Moves.antt =====
-- The ledger under each operation of vsc_main.c on the queues.
use mathlib.Core.List.{
  Perm, map-append, perm_append_comm, perm_middle, reverse_aux, reverse_aux-eq, reverse_perm,
}
use mathlib.Core.List.Perm
use vsc.Base.{
  ℕ, ◌<◌, ◌≡◌, refl, List, [], ◌∷◌, ◌++◌, Bool, true, false, some, none, Option, count, take, drop,
  map, arith, ==_iff, inl, inr, count-append, subst, append_assoc, append-nil, take-append-drop,
  All, All-append,
}
use vsc.Codes.{Ret, ok, err, oops}
use vsc.Cmds.{Cmds, Cmd, CmdStat, ScsiCmnd, Done, queued, request, read_comp, mark_stat}
use vsc.Cmds.Io.{submit, start_io, start_io_new}
use vsc.Cmds.Drain.{finish_with, each_queue_remove}
use vsc.Cmds.Respond.{RspMsg, response_scsi_cmd_new, respond_each, go_on}
use vsc.Cmds.Inv.{Inv, Slot, is_some}
use vsc.Cmds.Inv.Io.{submit_lem, staged, staged-Inv, start_io-eq-new, unqueued}
use vsc.Cmds.Inv.Read.{taken, returned, mark_stat_lem}
use vsc.Cmds.Inv.Drain.{reports, each_queue_remove-Emptied}
use vsc.Cmds.Inv.Respond.{response_lem, response-Inv}
use vsc.Cmds.Account.{held, ledger, held_frame, ledger-Released}

-- A change of states keeps the held commands.
held-mark_stat :
    (s : CmdStat) (cs : List ℕ) (tbl : ℕ → Cmd) (xs : List ℕ)
    → held (mark_stat s cs tbl) xs ≡ held tbl xs
held-mark_stat s cs tbl xs =
    held_frame tbl (mark_stat s cs tbl) xs (λ j h. ground (arith, mark_stat_lem s cs tbl j))

-- A read keeps the ledger, whether it succeeds or not.
take-perm : (n : ℕ) (xs rs : List ℕ) → Perm (drop n xs ++ (rs ++ take n xs)) (xs ++ rs)
take-perm n xs rs =
    Perm.trans {l₂ = take n xs ++ (drop n xs ++ rs)}
      (rw (← append_assoc (drop n xs) rs (take n xs))
        (perm_append_comm (drop n xs ++ rs) (take n xs)))
      (rw (← append_assoc (take n xs) (drop n xs) rs, take-append-drop) Perm.rfl)

pub ledger-taken : (q : Cmds) → Perm (ledger (taken q)) (ledger q)
ledger-taken q = rw (held-mark_stat read_comp (take 4 q.cmp_q) q.cmd_pool_tbl (queued (taken q))) (
    Perm.append_left (map (λ (d : Done). some d.sc) q.completed)
      (Perm.map _ (Perm.append_left q.req_q (take-perm 4 q.cmp_q q.rsp_q))))

back-perm : (n : ℕ) (xs : List ℕ) → Perm (reverse_aux (take n xs) (drop n xs)) xs
back-perm n xs = rw (reverse_aux-eq (take n xs) (drop n xs)) (
    subst (Perm _) (take-append-drop n xs)
      (Perm.append_right (drop n xs) (reverse_perm (take n xs))))

pub ledger-returned : (q : Cmds) → Perm (ledger (returned q)) (ledger q)
ledger-returned q =
    rw
      (
        held-mark_stat request (take 4 q.cmp_q) (taken q).cmd_pool_tbl (queued (returned q)),
        held-mark_stat read_comp (take 4 q.cmp_q) q.cmd_pool_tbl (queued (returned q)),
      )
      (Perm.append_left (map (λ (d : Done). some d.sc) q.completed)
        (Perm.map _ (Perm.append_left q.req_q (Perm.append_right q.rsp_q (back-perm 4 q.cmp_q)))))

-- An answer keeps the ledger.
ledger-response :
    (q : Cmds) (m : RspMsg) → Inv q → Perm (ledger (response_scsi_cmd_new m q).1) (ledger q)
ledger-response q m v = elim (response_lem q m v) [
  | inl (a, (sc, has, done, r)) ↦ ledger-Released q _ m.tag sc _ v a.waiting has r
  | inr (n, e) ↦ rw e Perm.rfl
]

ledger-go_on :
    (r : Ret) (q : Cmds) (rest : Ret × Cmds) (l : List (Option ScsiCmnd))
    → Perm (ledger q) l
    → Perm (ledger rest.1) l
    → Perm (ledger (go_on r q rest).1) l
ledger-go_on (ok n) q rest l v w = w
ledger-go_on (err e) q rest l v w = v
ledger-go_on oops q rest l v w = v

pub ledger-respond_each :
    (ms : List RspMsg) (q : Cmds) → Inv q → Perm (ledger (respond_each ms q).1) (ledger q)
unfolding respond_each
ledger-respond_each [] q v = Perm.rfl
ledger-respond_each (m ∷ ms) q v =
    let p = ledger-response q m v in
    ledger-go_on (response_scsi_cmd_new m q).0 _ _ (ledger q) p
      (Perm.trans (ledger-respond_each ms _ (response-Inv q m v)) p)

-- Emptying the queues keeps the ledger.
reports-held :
    (code : ℕ) (tbl : ℕ → Cmd) (xs : List ℕ)
    → All (λ i. is_some (tbl i).scsi_cmd ≡ true) xs
    → map (λ (d : Done). some d.sc) (reports code tbl xs) ≡ held tbl xs
reports-held code tbl [] h = refl
reports-held code tbl (x ∷ xs) h = ground (arith, reports-held code tbl xs h.1)

Slots-is_some :
    (tbl : ℕ → Cmd) (bits : ℕ → Bool) (n : ℕ) (s : CmdStat) (xs : List ℕ)
    → All (Slot tbl bits n s) xs
    → All (λ i. is_some (tbl i).scsi_cmd ≡ true) xs
Slots-is_some tbl bits n s [] h = tt
Slots-is_some tbl bits n s (x ∷ xs) h = (h.0.5, Slots-is_some tbl bits n s xs h.1)

pub ledger-emptied :
    (code : ℕ) (q : Cmds) → Inv q → ledger (each_queue_remove (finish_with code) q) ≡ ledger q
ledger-emptied code q v =
    let e = each_queue_remove-Emptied code q v in
    let some_all =
      All-append _ q.req_q (q.cmp_q ++ q.rsp_q) (Slots-is_some q.cmd_pool_tbl _ _ _ _ v.req) (
        All-append _ q.cmp_q q.rsp_q (Slots-is_some q.cmd_pool_tbl _ _ _ _ v.cmp)
          (Slots-is_some q.cmd_pool_tbl _ _ _ _ v.rsp)) in
    rw
      (
        e.no_req,
        e.no_cmp,
        e.no_rsp,
        e.reported,
        map-append,
        reports-held code q.cmd_pool_tbl (queued q) some_all,
      )
      (append-nil _)

-- A new command enters the ledger, unless the pool is full.
mark_stat-sc :
    (s : CmdStat) (cs : List ℕ) (tbl : ℕ → Cmd) (j : ℕ)
    → (mark_stat s cs tbl j).scsi_cmd ≡ (tbl j).scsi_cmd
mark_stat-sc s cs tbl j = ground (arith, mark_stat_lem s cs tbl j)

ledger-start_io : (q : Cmds) → Inv q → Perm (ledger (start_io q)) (ledger q)
unfolding start_io_new
ledger-start_io q v =
    rw
      (
        start_io-eq-new q v,
        held-mark_stat request q.req_q q.cmd_pool_tbl ((q.cmp_q ++ q.req_q) ++ q.rsp_q),
      )
      (Perm.append_left (map (λ (d : Done). some d.sc) q.completed) (
        Perm.map _ (
          rw (← append_assoc q.req_q q.cmp_q q.rsp_q)
            (Perm.append_right q.rsp_q (perm_append_comm q.cmp_q q.req_q)))))

module _ (q : Cmds) (c : ℕ) (sc : ScsiCmnd) (v : Inv q) (small : c < q.nr_cmds)
    (idle : q.cmd_pool_bits c ≡ false) where
  count_unqueued : count c (queued q) ≡ 0
  count_unqueued =
      let u = unqueued q c sc v small idle in
      omega (
        arith,
        u.0,
        u.1,
        u.2,
        count-append c q.req_q (q.cmp_q ++ q.rsp_q),
        count-append c q.cmp_q q.rsp_q,
      )

  held-staged : held (staged q c sc).cmd_pool_tbl (queued q) ≡ held q.cmd_pool_tbl (queued q)
  held-staged =
      held_frame q.cmd_pool_tbl (staged q c sc).cmd_pool_tbl (queued q)
        (λ j h. ground (arith, ==_iff c j, count_unqueued))

  staged-sc : ((staged q c sc).cmd_pool_tbl c).scsi_cmd ≡ some sc
  staged-sc = ground arith

  queued-staged : Perm (queued (staged q c sc)) (c ∷ queued q)
  queued-staged =
      rw (append_assoc q.req_q (c ∷ []) (q.cmp_q ++ q.rsp_q))
        (perm_middle {a = c} q.req_q (q.cmp_q ++ q.rsp_q))

  ledger-staged : Perm (ledger (staged q c sc)) (some sc ∷ ledger q)
  ledger-staged =
      let tbl = (staged q c sc).cmd_pool_tbl in
      Perm.trans {l₂ = map (λ (d : Done). some d.sc) q.completed ++ held tbl (c ∷ queued q)}
        (Perm.append_left (map (λ (d : Done). some d.sc) q.completed)
          (Perm.map (λ i. (tbl i).scsi_cmd) queued-staged))
        (rw (staged-sc, held-staged)
          (perm_middle {a = some sc} (map (λ (d : Done). some d.sc) q.completed)
            (held q.cmd_pool_tbl (queued q))))

-- The entry that a call adds to the ledger.
abbrev pub entered : Option ℕ → ScsiCmnd → List (Option ScsiCmnd)
entered none sc = []
entered (some c) sc = some sc ∷ []

pub ledger-submit :
    (q : Cmds) (sc : ScsiCmnd)
    → Inv q
    → Perm (ledger (submit q sc).1) (entered (submit q sc).0 sc ++ ledger q)
ledger-submit q sc v = elim (submit_lem q sc v) [
  | inl (e, full) ↦ rw e Perm.rfl
  | inr (c, small, idle, e) ↦ rw e (
      Perm.trans (ledger-start_io (staged q c sc) (staged-Inv q c sc v small idle))
        (ledger-staged q c sc v small idle))
]

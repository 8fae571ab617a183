-- ===== src/Cmds/Account.antt =====
-- The commands that the queues of vsc_main.c hold and those that they have reported.
pub mod Moves
pub mod History
use mathlib.Core.List.{Perm, map-append}
use mathlib.Core.List.Perm
use vsc.Base.{
  ℕ, suc, ◌+◌, ◌<◌, ◌≤◌, ◌≡◌, refl, List, [], ◌∷◌, ◌++◌, Bool, true, false, some, none, Option,
  ◌==◌, length, count, take, drop, map, arith, ==_iff, inl, inr, Bool-cases, List-cases, ap, ap₂,
  sym, ◌∙◌, if◌then◌else◌, count-append, subst, update, remove, remove_once, count-remove,
  append_assoc, append-nil,
}
use vsc.Cmds.{Cmds, Cmd, ScsiCmnd, Done, queued, init, mark_stat}
use vsc.Cmds.Io.{submit}
use vsc.Cmds.Drain.{abort_all_cmd, requeue_all_cmd}
use vsc.Cmds.Read.{get_multi_scsi_cmd_and_cdb}
use vsc.Cmds.Respond.{RspMsg, response_multi_scsi_cmd}
use vsc.Cmds.Inv.{Inv, uses}
use vsc.Cmds.Inv.Release.{Released}

-- The commands that a list of tags stands for.
abbrev pub held : (ℕ → Cmd) → List ℕ → List (Option ScsiCmnd)
held tbl = map (λ i. (tbl i).scsi_cmd)

-- Every command that the driver has reported or still holds.
abbrev pub ledger : Cmds → List (Option ScsiCmnd)
ledger q = map (λ (d : Done). some d.sc) q.completed ++ held q.cmd_pool_tbl (queued q)

pub held_frame :
    (tbl tbl' : ℕ → Cmd) (xs : List ℕ)
    → ((j : ℕ) → 0 < count j xs → (tbl' j).scsi_cmd ≡ (tbl j).scsi_cmd)
    → held tbl' xs ≡ held tbl xs
held_frame tbl tbl' [] same = refl
held_frame tbl tbl' (x ∷ xs) same =
    ap₂ ◌∷◌ (same x (ground arith)) (held_frame tbl tbl' xs (λ j h. same j (ground arith)))

perm-remove :
    (tbl : ℕ → Cmd) (c : ℕ) (xs : List ℕ)
    → 0 < count c xs
    → Perm (held tbl xs) ((tbl c).scsi_cmd ∷ held tbl (remove c xs))
unfolding remove
perm-remove tbl c [] h = absurd (omega arith)
perm-remove tbl c (x ∷ xs) h = elim (Bool-cases (x == c)) [
  | inl e ↦ rw (e, (==_iff x c).0 e) Perm.rfl
  | inr e ↦ rw e (Perm.trans (Perm.cons _ (perm-remove tbl c xs (ground arith))) (Perm.swap _ _ _))
]

queued-remove :
    (q : Cmds) (c : ℕ)
    → uses q c ≤ 1
    → remove c (queued q) ≡ remove c q.req_q ++ (remove c q.cmp_q ++ remove c q.rsp_q)
queued-remove q c h =
    remove_once c q.req_q (q.cmp_q ++ q.rsp_q) (ground (arith, count-append c q.cmp_q q.rsp_q))
    ∙ ap (◌++◌ (remove c q.req_q)) (remove_once c q.cmp_q q.rsp_q (omega arith))

uses-queued : (q : Cmds) (c : ℕ) → count c (queued q) ≡ uses q c
uses-queued q c =
    omega (arith, count-append c q.req_q (q.cmp_q ++ q.rsp_q), count-append c q.cmp_q q.rsp_q)

-- A release moves one command from the held ones to the reported ones.
pub ledger-Released :
    (q q' : Cmds) (c : ℕ) (sc : ScsiCmnd) (result : ℕ)
    → Inv q
    → 0 < uses q c
    → (q.cmd_pool_tbl c).scsi_cmd ≡ some sc
    → Released q q' c sc result
    → Perm (ledger q') (ledger q)
ledger-Released q q' c sc result v h has r =
    rw
      (
        r.reported,
        map-append,
        append_assoc (map (λ (d : Done). some d.sc) q.completed),
        rest,
        others,
      )
      (Perm.append_left (map (λ (d : Done). some d.sc) q.completed)
        (Perm.symm (rw (← has) (perm-remove q.cmd_pool_tbl c (queued q) (rw (uses-queued q c) h)))))
  where
    rest : queued q' ≡ remove c (queued q)
    rest = rw (r.req, r.cmp, r.rsp) (sym (queued-remove q c (v.once c)))

    others : held q'.cmd_pool_tbl (remove c (queued q)) ≡ held q.cmd_pool_tbl (remove c (queued q))
    others = held_frame q.cmd_pool_tbl q'.cmd_pool_tbl (remove c (queued q)) (λ j k.
        ap (λ (x : Cmd). x.scsi_cmd)
          (r.frame j (
            ground
              (arith, k, count-remove c j (queued q), uses-queued q c, v.once c, ==_iff c j))).0)

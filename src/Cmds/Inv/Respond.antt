-- ===== src/Cmds/Inv/Respond.antt =====
-- The invariant under `vsc_response_scsi_cmd_new`, and what an answer does.
use vsc.Base.{
  count-remove_self, ltb, ◌&&◌, if◌then◌else◌, Bool-cases, ap, ℕ, ◌<◌, ◌≡◌, refl, List, [], ◌∷◌,
  Bool, true, some, ◌==◌, count, remove_absent, All_of_count, arith, mem-count, count-mem, ◌⊎◌, inl,
  inr,
}
use vsc.Codes.{Ret, ok, err, oops, eio}
use vsc.Cmds.{Cmds, CmdStat, init, request, read_comp, ScsiCmnd, linked}
use vsc.Cmds.Respond.{
  RspMsg, final_result, complete, response_scsi_cmd_new, is_read_comp, respond_each, go_on,
}
use vsc.Cmds.Inv.{Inv, Slot, uses, Slots_other, some_of_is_some}
use vsc.Cmds.Inv.Release.{Released, Released-Inv}

-- A message that the driver accepts: it names a command that user space has read and has not
-- answered, by its tag and its serial number.
pub record Answers (q : Cmds) (m : RspMsg) : Type 0 where
  pub small : m.tag < q.nr_cmds
  pub read : (q.cmd_pool_tbl m.tag).stat ≡ read_comp
  pub serial : (q.cmd_pool_tbl m.tag).cmd_sn ≡ m.cmd_sn
  pub waiting : 0 < uses q m.tag

pub linked-uses : (q : Cmds) (c : ℕ) → linked q c ≡ true → 0 < uses q c
linked-uses q c h = ground (arith, mem-count c q.req_q, mem-count c q.cmp_q, mem-count c q.rsp_q)

uses-linked : (q : Cmds) (c : ℕ) → 0 < uses q c → linked q c ≡ true
uses-linked q c h = ground (arith, count-mem c q.req_q, count-mem c q.cmp_q, count-mem c q.rsp_q)

pub is_read_comp-eq : (s : CmdStat) → is_read_comp s ≡ true → s ≡ read_comp
is_read_comp-eq s h = ground arith

-- A queued command that user space has read waits in the response queue, with its slot in order.
pub read-Slot :
    (q : Cmds) (c : ℕ)
    → Inv q
    → 0 < uses q c
    → (q.cmd_pool_tbl c).stat ≡ read_comp
    → (0 < count c q.rsp_q) × Slot q.cmd_pool_tbl q.cmd_pool_bits q.nr_cmds read_comp c
read-Slot q c v h e =
    let held : 0 < count c q.rsp_q = omega (
      arith,
      Slots_other q.cmd_pool_tbl q.cmd_pool_bits q.nr_cmds init c q.req_q (λ p. cc (e, p)) v.req,
      Slots_other q.cmd_pool_tbl q.cmd_pool_bits q.nr_cmds request c q.cmp_q (λ p. cc (e, p)) v.cmp,
    ) in
    (held, All_of_count _ c q.rsp_q v.rsp held)

module _ (q : Cmds) (c : ℕ) (m : RspMsg) (v : Inv q) (held : 0 < count c q.rsp_q) (sc : ScsiCmnd)
    (has : (q.cmd_pool_tbl c).scsi_cmd ≡ some sc)
    (slot : Slot q.cmd_pool_tbl q.cmd_pool_bits q.nr_cmds read_comp c) where
  complete_ok : (complete m q c).0 ≡ ok 0
  unfolding complete
  complete_ok = rw (has, complete) refl

  complete-Released : Released q (complete m q c).1 c sc (final_result m)
  unfolding complete
  complete-Released = ground (arith, v.once c, v.depth, remove_absent c q.req_q)

-- The checks of the code in one test.
abbrev checks : Cmds → RspMsg → Bool
checks q m =
    ltb m.tag q.nr_cmds
    && (is_read_comp (q.cmd_pool_tbl m.tag).stat
        && (((q.cmd_pool_tbl m.tag).cmd_sn == m.cmd_sn) && linked q m.tag))

checks-Answers : (q : Cmds) (m : RspMsg) → checks q m ≡ true → Answers q m
checks-Answers q m h = record {
  small = ground arith;
  read = is_read_comp-eq (q.cmd_pool_tbl m.tag).stat (ground arith);
  serial = ground arith;
  waiting = linked-uses q m.tag (ground arith);
}

Answers-checks : (q : Cmds) (m : RspMsg) → Answers q m → checks q m ≡ true
Answers-checks q m a =
    let l = uses-linked q m.tag a.waiting in ground (arith, a.small, a.read, a.serial, l)

response_checked :
    (q : Cmds) (m : RspMsg)
    → response_scsi_cmd_new m q ≡ (if checks q m then complete m q m.tag else (err eio, q))
unfolding response_scsi_cmd_new
response_checked q m = ground arith

pub response-complete :
    (q : Cmds) (m : RspMsg) → Answers q m → response_scsi_cmd_new m q ≡ complete m q m.tag
response-complete q m a = rw (response_checked q m, Answers-checks q m a)

pub response_accepted :
    (q : Cmds) (m : RspMsg)
    → Inv q
    → Answers q m
    → (sc : ScsiCmnd) × ((q.cmd_pool_tbl m.tag).scsi_cmd ≡ some sc)
      × ((response_scsi_cmd_new m q).0 ≡ ok 0)
      × Released q (response_scsi_cmd_new m q).1 m.tag sc (final_result m)
response_accepted q m v a =
    let (held, slot) = read-Slot q m.tag v a.waiting a.read in
    let (sc, has) = some_of_is_some (q.cmd_pool_tbl m.tag).scsi_cmd slot.5 in
    rw (response-complete q m a) (
      sc,
      has,
      complete_ok q m.tag m v held sc has slot,
      complete-Released q m.tag m v held sc has slot,
    )

pub response_refused :
    (q : Cmds) (m : RspMsg) → ¬ Answers q m → response_scsi_cmd_new m q ≡ (err eio, q)
response_refused q m n = elim (Bool-cases (checks q m)) [
  | inl yes' ↦ absurd (n (checks-Answers q m yes'))
  | inr no' ↦ rw (response_checked q m, no')
]

-- What an answer comes to: it is accepted, or refused.
abbrev pub AnswerOutcome : Cmds → RspMsg → Type 0
AnswerOutcome q m =
    (Answers q m
      × ((sc : ScsiCmnd) × ((q.cmd_pool_tbl m.tag).scsi_cmd ≡ some sc)
          × ((response_scsi_cmd_new m q).0 ≡ ok 0)
          × Released q (response_scsi_cmd_new m q).1 m.tag sc (final_result m)))
    ⊎ ((¬ Answers q m) × (response_scsi_cmd_new m q ≡ (err eio, q)))

-- From queues in order, an answer that names a command by its tag and serial number, which user
-- space has read and not yet answered, is accepted: it takes exactly that command out, frees its
-- slot, and reports the command once, with the result that the answer asks for. Any other answer
-- is refused with `EIO` and changes nothing.
pub response_lem : (q : Cmds) (m : RspMsg) → Inv q → AnswerOutcome q m
response_lem q m v = elim (Bool-cases (checks q m)) [
  | inl passed ↦ let a = checks-Answers q m passed in inl (a, response_accepted q m v a)
  | inr stopped ↦
      let n : ¬ Answers q m = λ a. cc (Answers-checks q m a, stopped) in
      inr (n, response_refused q m n)
]

-- The queues stay in order whatever user space answers.
pub response-Inv : (q : Cmds) (m : RspMsg) → Inv q → Inv (response_scsi_cmd_new m q).1
response-Inv q m v = elim (response_lem q m v) [
  | inl (a, (sc, has, done, r)) ↦ Released-Inv q _ m.tag sc _ v a.waiting r
  | inr (n, e) ↦ rw e v
]

-- From queues in order, a command is answered once: after an answer that was accepted, the same
-- answer again is refused with `EIO`, and changes nothing.
pub response_twice :
    (q : Cmds) (m : RspMsg)
    → Inv q
    → Answers q m
    → response_scsi_cmd_new m (response_scsi_cmd_new m q).1
      ≡ (err eio, (response_scsi_cmd_new m q).1)
response_twice q m v a =
    let (sc, has, done, r) = response_accepted q m v a in
    response_refused _ m (λ b. omega (
      arith,
      b.waiting,
      v.once m.tag,
      ap (count m.tag) r.req,
      ap (count m.tag) r.cmp,
      ap (count m.tag) r.rsp,
      count-remove_self m.tag q.req_q,
      count-remove_self m.tag q.cmp_q,
      count-remove_self m.tag q.rsp_q,
    ))

go_on-Inv : (r : Ret) (q : Cmds) (rest : Ret × Cmds) → Inv q → Inv rest.1 → Inv (go_on r q rest).1
go_on-Inv (ok n) q rest v w = w
go_on-Inv (err e) q rest v w = v
go_on-Inv oops q rest v w = v

pub respond_each-Inv : (ms : List RspMsg) (q : Cmds) → Inv q → Inv (respond_each ms q).1
unfolding respond_each
respond_each-Inv [] q v = v
respond_each-Inv (m ∷ ms) q v =
    let w = response-Inv q m v in
    go_on-Inv (response_scsi_cmd_new m q).0 _ _ w
      (respond_each-Inv ms (response_scsi_cmd_new m q).1 w)

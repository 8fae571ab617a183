-- ===== src/Cmds/Inv/Batch.antt =====
-- An answer of several messages (`vsc_response_multi_scsi_cmd`): which of them are carried out.
use vsc.Base.{
  ◌%◌, ℕ, ◌+◌, ◌*◌, ◌^◌, ◌<◌, ◌≤◌, ◌≡◌, ◌≢◌, ◌⊎◌, inl, inr, refl, List, [], ◌∷◌, Bool, true, false,
  some, take, ◌==◌, ◌||◌, arith, Bool-cases,
}
use vsc.Codes.{
  Ret, ok, err, oops, eio, efault, einval, sizeof_scsi_rsp_msg, max_batch_scsi_rsp_count,
}
use vsc.Cmds.{Cmds, ScsiCmnd, remove_q, set_stat, cmd_put}
use vsc.Cmds.Respond.{
  RspMsg, final_result, response_scsi_cmd_new, complete, respond_each, response_multi_scsi_cmd,
  head_count, exceeds, rounds, count_rsp,
}
use vsc.Cmds.Inv.{Inv}
use vsc.Cmds.Inv.Release.{Released, Released-Inv}
use vsc.Cmds.Inv.Respond.{Answers, response_lem}

-- The messages in order, from the first: each is carried out, up to the first that the driver does
-- not accept. The flag says that there is none.
pub data Batch : List RspMsg → Cmds → Bool → Cmds → Type 0 where
  all_done : (q : Cmds) → Batch [] q true q
  carried_out :
      (m : RspMsg) {ms : List RspMsg} {q r s : Cmds} {b : Bool} (sc : ScsiCmnd)
      → Answers q m
      → (q.cmd_pool_tbl m.tag).scsi_cmd ≡ some sc
      → Released q r m.tag sc (final_result m)
      → Batch ms r b s
      → Batch (m ∷ ms) q b s
  stopped : (m : RspMsg) (ms : List RspMsg) {q : Cmds} → ¬ Answers q m → Batch (m ∷ ms) q false q

-- A result of the loop.
abbrev LoopOutcome : List RspMsg → Cmds → Ret × Cmds → Type 0
LoopOutcome ms q out =
    ((out.0 ≡ ok 0) × Batch ms q true out.1) ⊎ ((out.0 ≡ err eio) × Batch ms q false out.1)

respond_each-LoopOutcome :
    (ms : List RspMsg) (q : Cmds) → Inv q → LoopOutcome ms q (respond_each ms q)
unfolding respond_each
respond_each-LoopOutcome [] q v = inl (refl, all_done q)
respond_each-LoopOutcome (m ∷ ms) q v = elim (response_lem q m v) [
  | inr (n, e) ↦ rw e (inr (refl, stopped m ms n))
  | inl (a, (sc, has, done, r)) ↦
      let w = Released-Inv q _ m.tag sc _ v a.waiting r in
      rw done (elim (respond_each-LoopOutcome ms (response_scsi_cmd_new m q).1 w) [
        | inl (e, b) ↦ inl (e, carried_out m sc a has r b)
        | inr (e, b) ↦ inr (e, carried_out m sc a has r b)
      ])
]

-- The branches of the code.
abbrev pub Cases : ℕ → List RspMsg → Cmds → Type 0
Cases len buf q =
    let n = head_count buf in
    let out = response_multi_scsi_cmd len buf q in
    ((len ≢ sizeof_scsi_rsp_msg * max_batch_scsi_rsp_count) × (out ≡ (err efault, q)))
    ⊎ ((len ≡ sizeof_scsi_rsp_msg * max_batch_scsi_rsp_count)
        × ((n ≡ 0) ⊎ ((max_batch_scsi_rsp_count < n) × (n < 2 ^ 31)))
        × (out ≡ (err einval, q)))
    ⊎ ((len ≡ sizeof_scsi_rsp_msg * max_batch_scsi_rsp_count)
        × (0 < n)
        × ((n ≤ max_batch_scsi_rsp_count) ⊎ (2 ^ 31 ≤ n))
        × (out ≡ count_rsp n (respond_each (take (rounds n) buf) q)))

pub response_multi-Cases : (len : ℕ) (buf : List RspMsg) (q : Cmds) → Cases len buf q
unfolding response_multi_scsi_cmd
response_multi-Cases len buf q =
    elim (Bool-cases (len == sizeof_scsi_rsp_msg * max_batch_scsi_rsp_count)) [
      | inr wrong ↦ inl (ground arith, ground arith)
      | inl right ↦
          inr
            (elim (Bool-cases
              ((head_count buf == 0) || exceeds (head_count buf) max_batch_scsi_rsp_count)) [
                | inl bad ↦ inl (ground arith, ground arith, ground arith)
                | inr good ↦ inr (ground arith, ground arith, ground arith, ground arith)
              ])
    ]

-- The counters of answers do not change in the loop.
abbrev SameCounters : Cmds → Cmds → Type 0
SameCounters q r = (r.put_rsp_times ≡ q.put_rsp_times) × (r.put_rsp_total ≡ q.put_rsp_total)

response-SameCounters : (q : Cmds) (m : RspMsg) → SameCounters q (response_scsi_cmd_new m q).1
unfolding response_scsi_cmd_new complete remove_q set_stat cmd_put
response-SameCounters q m = ground arith

respond_each-SameCounters : (ms : List RspMsg) (q : Cmds) → SameCounters q (respond_each ms q).1
unfolding respond_each
respond_each-SameCounters [] q = (refl, refl)
respond_each-SameCounters (m ∷ ms) q =
    let r = response_scsi_cmd_new m q in
    ground (arith, response-SameCounters q m, respond_each-SameCounters ms r.1)

-- What the messages `ms` come to, of which the answer says that there are `n`.
abbrev pub Carried : ℕ → List RspMsg → Cmds → Ret × Cmds → Type 0
Carried n ms q out =
    (r : Cmds) × ((Batch ms q true r
        × (out ≡ (
          ok 0,
          record r {
            put_rsp_times = (q.put_rsp_times + 1) % 2 ^ 32;
            put_rsp_total = (q.put_rsp_total + n) % 2 ^ 32;
          },
        )))
      ⊎ (Batch ms q false r × (out ≡ (err eio, r))))

counted-Carried :
    (n : ℕ) (ms : List RspMsg) (q : Cmds) (out : Ret × Cmds)
    → SameCounters q out.1
    → LoopOutcome ms q out
    → Carried n ms q (count_rsp n out)
counted-Carried n ms q (ok m, r) (times, total) (inl (e, b)) =
    (r, inl (b, rw (e, times, total) refl))
counted-Carried n ms q (ok m, r) same (inr (e, b)) = absurd (cc e)
counted-Carried n ms q (err x, r) same (inl (e, b)) = absurd (cc e)
counted-Carried n ms q (err x, r) same (inr (e, b)) = (r, inr (b, rw e refl))
counted-Carried n ms q (oops, r) same (inl (e, b)) = absurd (cc e)
counted-Carried n ms q (oops, r) same (inr (e, b)) = absurd (cc e)

loop-Carried :
    (n : ℕ) (ms : List RspMsg) (q : Cmds) → Inv q → Carried n ms q (count_rsp n (respond_each ms q))
loop-Carried n ms q v =
    counted-Carried n ms q (respond_each ms q) (respond_each-SameCounters ms q)
      (respond_each-LoopOutcome ms q v)

-- What an answer of several messages comes to.
abbrev pub BatchOutcome : ℕ → List RspMsg → Cmds → Type 0
BatchOutcome len buf q =
    let n = head_count buf in
    let out = response_multi_scsi_cmd len buf q in
    ((len ≢ sizeof_scsi_rsp_msg * max_batch_scsi_rsp_count) × (out ≡ (err efault, q)))
    ⊎ ((len ≡ sizeof_scsi_rsp_msg * max_batch_scsi_rsp_count)
        × ((n ≡ 0) ⊎ ((max_batch_scsi_rsp_count < n) × (n < 2 ^ 31)))
        × (out ≡ (err einval, q)))
    ⊎ ((len ≡ sizeof_scsi_rsp_msg * max_batch_scsi_rsp_count)
        × (0 < n)
        × (n ≤ max_batch_scsi_rsp_count)
        × Carried n (take n buf) q out)
    ⊎ ((len ≡ sizeof_scsi_rsp_msg * max_batch_scsi_rsp_count) × (2 ^ 31 ≤ n) × Carried n [] q out)

-- From queues in order, an answer of several messages with the wrong length fails with `EFAULT`, one
-- that says it holds none or more than four with `EINVAL`, and neither changes anything. Otherwise
-- each message in turn, from the first, takes exactly its command out, frees its slot and reports it
-- with the result that the message asks for, up to the first message that names no command which
-- user space has read and not answered; none is carried out if the count is negative as an `int`. If
-- there is such a message the result is `EIO` and the counters of answers stay; if there is none, the
-- one grows by one and the other by the count.
pub response_multi_lem : (len : ℕ) (buf : List RspMsg) (q : Cmds) → Inv q → BatchOutcome len buf q
response_multi_lem len buf q v = elim (response_multi-Cases len buf q) [
  | inl wrong ↦ inl wrong
  | inr (inl bad) ↦ inr (inl bad)
  | inr (inr (right, some_there, inl few, e)) ↦
      let n = head_count buf in
      let all : rounds n ≡ n = ground arith in
      inr (inr (inl (right, some_there, few, rw (e, all) (loop-Carried n (take n buf) q v))))
  | inr (inr (right, some_there, inr negative, e)) ↦
      let n = head_count buf in
      let none_of_them : rounds n ≡ 0 = ground arith in
      inr (inr (inr (right, negative, rw (e, none_of_them) (loop-Carried n [] q v))))
]

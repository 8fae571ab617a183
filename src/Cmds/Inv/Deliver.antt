-- ===== src/Cmds/Inv/Deliver.antt =====
-- What a read of vsc_main.c hands to user space, on every branch, and that it can be answered.
use vsc.Base.{
  ℕ, ◌<◌, ◌≡◌, refl, List, [], ◌∷◌, Bool, true, false, some, ◌==◌, length, count, take, drop, map,
  All, All_of_count, arith, ◌≢◌, inl, inr, Bool-cases, List-cases, ap, ap₂, sym, ◌∙◌, ◌⊎◌,
  count-append,
}
use vsc.Codes.{ok, einval, enodata, efault, max_batch_scsi_cmd_count, max_scsi_msg_and_cdb_length}
use vsc.Cmds.{Cmds, Cmd, CmdStat, request, read_comp, mark_stat}
use vsc.Cmds.Read.{Msg, delivered, failed, message, messages, get_batch, get_multi_scsi_cmd_and_cdb}
use vsc.Cmds.Respond.{RspMsg, response_scsi_cmd_new}
use vsc.Cmds.Inv.{Inv, Slot, some_of_is_some}
use vsc.Cmds.Inv.Read.{
  taken, returned, taken-Inv, collect_lem, put_back-returned, mark_stat_lem, mark_present, batch,
}
use vsc.Cmds.Inv.Respond.{Answers, response_accepted}

module _ (size : List ℕ → ℕ) (host_no : ℕ) where
  -- The messages of a list of commands do not depend on their states.
  messages-mark_stat :
      (s : CmdStat) (cs xs : List ℕ) (tbl : ℕ → Cmd)
      → messages size host_no (mark_stat s cs tbl) xs ≡ messages size host_no tbl xs
  unfolding messages
  messages-mark_stat s cs [] tbl = refl
  messages-mark_stat s cs (x ∷ xs) tbl =
      ground (arith, mark_stat_lem s cs tbl x, messages-mark_stat s cs xs tbl)

  -- Every queued command has its message: no null pointer is read.
  messages-some :
      (tbl : ℕ → Cmd) (bits : ℕ → Bool) (n : ℕ) (s : CmdStat) (xs : List ℕ)
      → All (Slot tbl bits n s) xs
      → (ms : List Msg) × (messages size host_no tbl xs ≡ some ms)
        × (map (λ (m : Msg). m.tag) ms ≡ xs)
        × (map (λ (m : Msg). m.cmd_sn) ms ≡ map (λ c. (tbl c).cmd_sn) xs)
  unfolding messages
  messages-some tbl bits n s [] h = ([], refl, refl, refl)
  messages-some tbl bits n s (x ∷ xs) h =
      let (sc, has) = some_of_is_some (tbl x).scsi_cmd h.0.5 in
      let (ms, e, tags, sns) = messages-some tbl bits n s xs h.1 in
      (
        message size host_no (tbl x) sc ∷ ms,
        rw (has, messages, e),
        ap₂ ◌∷◌ h.0.2 tags,
        ap (◌∷◌ (tbl x).cmd_sn) sns,
      )

  module _ (q : Cmds) (v : Inv q) (ms : List Msg)
      (e : messages size host_no q.cmd_pool_tbl (take max_batch_scsi_cmd_count q.cmp_q)
        ≡ some ms) where
    get_batch_delivers :
        get_batch size host_no false q
        ≡ (delivered ms (length (drop max_batch_scsi_cmd_count q.cmp_q)), taken q)
    unfolding get_batch
    get_batch_delivers = rw (collect_lem 4 q v.once, messages-mark_stat, e)

    get_batch_fails : get_batch size host_no true q ≡ (failed efault, returned q)
    unfolding get_batch
    get_batch_fails =
        rw (collect_lem 4 q v.once, messages-mark_stat, e)
          (ap (λ r. (failed efault, r)) (put_back-returned q v))

    module _ (c : ℕ) (cs : List ℕ) (ready : q.cmp_q ≡ c ∷ cs) where
      read-get_batch :
          (fault : Bool)
          → get_multi_scsi_cmd_and_cdb size host_no max_scsi_msg_and_cdb_length fault q
            ≡ get_batch size host_no fault q
      unfolding get_multi_scsi_cmd_and_cdb
      read-get_batch fault = ground arith

  -- What a read comes to, with the batch it is about.
  abbrev pub ReadOutcome : Cmds → ℕ → Bool → Type 0
  ReadOutcome q len fault =
      let cs = take max_batch_scsi_cmd_count q.cmp_q in
      let out = get_multi_scsi_cmd_and_cdb size host_no len fault q in
      ((len ≢ max_scsi_msg_and_cdb_length) × (out ≡ (failed einval, q)))
      ⊎ ((len ≡ max_scsi_msg_and_cdb_length) × (q.cmp_q ≡ []) × (out ≡ (failed enodata, q)))
      ⊎ ((len ≡ max_scsi_msg_and_cdb_length)
          × (q.cmp_q ≢ [])
          × (fault ≡ true)
          × (out ≡ (failed efault, returned q)))
      ⊎ ((len ≡ max_scsi_msg_and_cdb_length)
          × (q.cmp_q ≢ [])
          × (fault ≡ false)
          × ((ms : List Msg) × (map (λ (m : Msg). m.tag) ms ≡ cs)
              × (map (λ (m : Msg). m.cmd_sn) ms ≡ map (λ c. (q.cmd_pool_tbl c).cmd_sn) cs)
              × (out ≡ (delivered ms (length (drop max_batch_scsi_cmd_count q.cmp_q)), taken q))))

  -- From queues in order, a read with the wrong length fails with `EINVAL`, one with nothing to
  -- read with `ENODATA`, and neither changes anything. If the copy to user space fails, the read
  -- fails with `EFAULT` and the commands wait to be read again, the batch in reverse order. Else
  -- the first commands, four at most, are delivered in order with their tags and serial numbers,
  -- they wait for their answers, and the reply says how many are left.
  pub read_lem : (q : Cmds) (len : ℕ) (fault : Bool) → Inv q → ReadOutcome q len fault
  unfolding get_multi_scsi_cmd_and_cdb
  read_lem q len fault v = elim (Bool-cases (len == max_scsi_msg_and_cdb_length)) [
    | inr wrong ↦ inl (ground arith, ground arith)
    | inl right ↦ inr (elim (List-cases q.cmp_q) [
      | inl e ↦ inl (ground arith, e, ground arith)
      | inr (c, cs, e) ↦
          let (ms, got, tags, sns) = messages-some q.cmd_pool_tbl _ _ request _ (batch q v) in
          inr (elim (Bool-cases fault) [
            | inl f ↦ inl (
              ground arith,
              (λ n. cc (e, n)),
              f,
              ground (arith, read-get_batch q v ms got c cs e true, get_batch_fails q v ms got),
            )
            | inr f ↦ inr (
              ground arith,
              (λ n. cc (e, n)),
              f,
              (
                ms,
                tags,
                sns,
                ground
                    (arith, read-get_batch q v ms got c cs e false, get_batch_delivers q v ms got),
              ),
            )
          ])
    ])
  ]

-- A command of the batch that has been taken can be answered by its tag and serial number.
pub taken-Answers :
    (q : Cmds) (m : RspMsg)
    → Inv q
    → 0 < count m.tag (take max_batch_scsi_cmd_count q.cmp_q)
    → m.cmd_sn ≡ (q.cmd_pool_tbl m.tag).cmd_sn
    → Answers (taken q) m
taken-Answers q m v h e =
    let slot = All_of_count _ m.tag (take 4 q.cmp_q) (batch q v) h in
    let now = mark_present read_comp (take 4 q.cmp_q) q.cmd_pool_tbl m.tag h in
    record {
      small = slot.0;
      read = ap (λ (c : Cmd). c.stat) now;
      serial = ap (λ (c : Cmd). c.cmd_sn) now ∙ sym e;
      waiting = omega (arith, count-append m.tag q.rsp_q (take 4 q.cmp_q));
    }

-- From queues in order: after a read of the right length whose copy succeeds, an answer that
-- carries the tag and the serial number of a command of the batch is accepted.
pub read_then_answer :
    (size : List ℕ → ℕ) (host_no : ℕ) (q : Cmds) (m : RspMsg)
    → Inv q
    → 0 < count m.tag (take max_batch_scsi_cmd_count q.cmp_q)
    → m.cmd_sn ≡ (q.cmd_pool_tbl m.tag).cmd_sn
    → (response_scsi_cmd_new m
        (get_multi_scsi_cmd_and_cdb size host_no max_scsi_msg_and_cdb_length false q).1).0
      ≡ ok 0
read_then_answer size host_no q m v h e =
    elim (read_lem size host_no q max_scsi_msg_and_cdb_length false v) [
      | inl (n, k) ↦ absurd (n refl)
      | inr (inl (n, k, o)) ↦
          absurd (ground (arith, ap (λ xs. count m.tag (take max_batch_scsi_cmd_count xs)) k))
      | inr (inr (inl (n, k, f, o))) ↦ absurd (cc f)
      | inr (inr (inr (n, k, f, (ms, t, s, o)))) ↦ rw o (
          let (sc, has, done, r) =
            response_accepted (taken q) m (taken-Inv q v) (taken-Answers q m v h e) in
          done)
    ]

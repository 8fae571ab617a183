-- ===== src/Xfer/Serve.antt =====
-- vsc_main.c: the order of data and answers in a write (`vsc_response_multi_data_and_rsp`).
use mathlib.Core.List.{Perm}
use mathlib.Core.List.Perm
use vsc.Base.{
  ap, ℕ, ◌-◌, ◌*◌, ◌≡◌, ◌⊎◌, inl, inr, refl, ◌||◌, ◌==◌, ltb, Option, none, some, Bool-cases,
}
use vsc.Codes.{
  Ret, ok, err, oops, efault, einval, max_batch_scsi_rsp_count, scsi_max_data_buf_size,
  max_scsi_data_and_rsp_length,
}
use vsc.Cmds.{Cmds}
use vsc.Cmds.Respond.{exceeds, rounds, response_multi_scsi_cmd}
use vsc.Cmds.Inv.{Inv}
use vsc.Cmds.Account.{ledger}
use vsc.Cmds.Account.History.{answer-both}
use vsc.Xfer.{Mmu}
use vsc.Xfer.Batch.{
  mode_write, Xfer, Layout, ScsiBuf, each_request, then_answers, response_multi_data_and_rsp,
  fill_buf, alloc_scsi_buf,
}

-- The bytes of a write behind the slots of the requests.
abbrev pub rsp_len : ℕ → ℕ
rsp_len len = len - max_batch_scsi_rsp_count * scsi_max_data_buf_size

-- What a write of data and answers leaves.
pub record Written (mmu : Mmu) (layout : Layout) (q : Cmds) (image : ScsiBuf) (len : ℕ) (x : Xfer)
    (out : Ret × Cmds × Xfer) : Type 0 where
  pub valid : Inv out.1
  pub accounts : Perm (ledger out.1) (ledger q)
  pub data_first :
      (out.1 ≡ q)
      ⊎ ((n : ℕ) × (each_request mmu layout mode_write q image.slots
              (rounds (image.slots 0).reserved0)
              0
              len
              x
            ≡ (ok n, out.2))
          × (out.1 ≡ (response_multi_scsi_cmd (rsp_len len) image.rsps q).1))

module _ (mmu : Mmu) (layout : Layout) (q : Cmds) (image : ScsiBuf) (user_ptr len : ℕ) (x : Xfer)
    (v : Inv q) where
  unchanged : (r : Ret) (y : Xfer) → Written mmu layout q image len x (r, q, y)
  unchanged r y = record { valid = v; accounts = Perm.rfl; data_first = inl refl }

  answered :
      (b : ScsiBuf) (r : Ret × Xfer)
      → each_request mmu layout mode_write q image.slots (rounds (image.slots 0).reserved0) 0 len x
        ≡ r
      → b.rsps ≡ image.rsps
      → Written mmu layout q image len x (then_answers b len q r)
  answered b (ok n, y) e same =
      let both = answer-both (rsp_len len) b.rsps q v in
      record {
        valid = both.0;
        accounts = both.1;
        data_first = inr (n, e, ap (λ ms. (response_multi_scsi_cmd (rsp_len len) ms q).1) same);
      }
  answered b (err n, y) e same = unchanged (err n) y
  answered b (oops, y) e same = unchanged oops y

  -- A write of data with answers keeps queues in order, and loses no command and reports none
  -- twice, whatever it holds and wherever it fails. It answers no command before all the data
  -- that it asks for have been moved, and then those that the answers behind the data name.
  pub response_multi_data_and_rsp-Written :
      (pool : Option ScsiBuf)
      → Written mmu layout q image len x
          (response_multi_data_and_rsp mmu layout q pool image user_ptr len x)
  unfolding response_multi_data_and_rsp fill_buf
  response_multi_data_and_rsp-Written none = unchanged _ x
  response_multi_data_and_rsp-Written (some memory) =
      elim (Bool-cases (len == max_scsi_data_and_rsp_length)) [
        | inr e ↦ rw e (unchanged (err einval) x)
        | inl e ↦ elim (Bool-cases (ltb (mmu user_ptr len) len)) [
          | inl f ↦ rw (e, f) (unchanged (err efault) x)
          | inr f ↦
              elim (Bool-cases (
                exceeds (image.slots 0).reserved0 max_batch_scsi_rsp_count
                || (exceeds (image.slots 0).reserved1 max_batch_scsi_rsp_count
                    || (image.slots 0).reserved1 == 0))) [
                      | inl g ↦ rw (e, f, g) (unchanged (err efault) x)
                      | inr g ↦
                          rw (e, f, g)
                            (answered (fill_buf len image (alloc_scsi_buf memory)) _ refl refl)
                    ]
        ]
      ]

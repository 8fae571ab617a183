-- ===== src/Xfer/Tests.antt =====
-- Runs of the transfers of vsc_main.c at concrete inputs.
use vsc.Base.{
  ℕ, ◌-◌, ◌≤◌, ◌≡◌, refl, [], ◌∷◌, false, none, some, length, drop, min, arith, map, count,
}
use vsc.Codes.{ok}
use vsc.Cmds.{Cmds, Cmd, ScsiCmnd, init}
use vsc.Cmds.Account.History.{submits, reads, init_cmds, init_cmds-Inv, run, run-Inv}
use vsc.Cmds.Inv.{Inv}
use vsc.Xfer.{
  Mem, to_user, Mmu, ScsiData, copy_user, copy_bytes, copy_byte, copy_data, copy_data_to_iovec,
}
use vsc.Xfer.Sg.{Buffers, copy_sg_buff, copy_sg_buff_to_iovec, copy_sg_buff_from_iovec}
use vsc.Xfer.Bytes.{range, seg_bytes, iov_bytes, transfer, AllMapped}
use vsc.Xfer.Linear.{copy_data_lem}
use vsc.Xfer.Scatter.Contract.{sg_contract, copy_sg_buff_lem}
use vsc.Xfer.Scatter.RoundTrip.{read-write_back}
use vsc.Xfer.Batch.{
  Xfer, DataMsg, Layout, ScsiBuf, mode_read, multi_scsi_cmd_data, response_multi_data_and_rsp,
}
use vsc.Xfer.Keeps.{multi_scsi_cmd_data-kernel}
use vsc.Xfer.Request.{InRange, ServeOutcome, scsi_cmd_data_lem}
use vsc.Xfer.Serve.{Written, response_multi_data_and_rsp-Written}

-- Every byte is mapped.
abbrev whole : Mmu
whole u n = n

whole-AllMapped : AllMapped whole
whole-AllMapped u n = omega arith

-- The kernel holds at each address the address itself.
abbrev mem : Mem
mem = record { kernel = λ a. a; user = λ a. 0 }

abbrev buffers : Buffers
buffers = record {
  cdb = 100;
  cdb_size = 6;
  sense_buffer = 200;
  sgl = record { virt = 1000; length = 3 } ∷ record { virt = 2000; length = 4 } ∷ [];
  bufflen = 7;
  op = 0x12;
}

-- A request of the given type and offset into a piece of two bytes and one of four.
abbrev request_for : ℕ → ℕ → ScsiData
request_for type offset = record {
  data_type = type;
  data_len = 60;
  total_iovec_len = 6;
  offset = offset;
  vec = record { iov_base = 5000; iov_len = 2 } ∷ record { iov_base = 6000; iov_len = 4 } ∷ [];
}

-- The bytes 1001, 1002, 2000, 2001, 2002, 2003, of which the second piece takes the last four.
six_bytes :
    map
      (copy_sg_buff_to_iovec whole buffers (request_for 2 1) mem).1.user
      (5000 ∷ 5001 ∷ 6000 ∷ 6001 ∷ 6002 ∷ 6003 ∷ 6004 ∷ [])
    ≡ 1001 ∷ 1002 ∷ 2000 ∷ 2001 ∷ 2002 ∷ 2003 ∷ 0 ∷ []
unfolding copy_sg_buff copy_user copy_bytes copy_byte
six_bytes = refl

six_returned : (copy_sg_buff_to_iovec whole buffers (request_for 2 1) mem).0 ≡ ok 6
unfolding copy_sg_buff copy_user
six_returned = refl

-- An offset of 2 in a CDB of six bytes leaves four.
four_of_cdb : (copy_data_to_iovec whole (request_for 1 2) 100 6 mem).0 ≡ ok 4
unfolding copy_data
four_of_cdb = refl

-- An offset of 7 in a CDB of six bytes reads six bytes from behind it.
six_past_end : (copy_data_to_iovec whole (request_for 1 7) 100 6 mem).0 ≡ ok 6
unfolding copy_data
six_past_end = refl

copy_sg_buff_lem_example :
    copy_sg_buff whole to_user buffers (request_for 2 1) mem
    ≡ sg_contract to_user buffers (request_for 2 1) mem
unfolding seg_bytes range
copy_sg_buff_lem_example =
    copy_sg_buff_lem whole to_user whole-AllMapped buffers (request_for 2 1) mem (omega arith)
      (omega arith) (omega arith)

copy_data_lem_example : copy_data whole to_user (request_for 1 2) 100 6 mem ≡ (
  ok (min (6 - 2) (length (iov_bytes (request_for 1 2).vec))),
  transfer to_user (drop 2 (range 100 6)) (iov_bytes (request_for 1 2).vec) mem,
)
copy_data_lem_example =
    copy_data_lem whole to_user (request_for 1 2) 100 6 mem whole-AllMapped (omega arith)
      (omega arith)

pieces_once : (u : ℕ) → count u (iov_bytes (request_for 2 1).vec) ≤ 1
unfolding iov_bytes range
pieces_once u = ground arith

read-write_back_example :
    ((copy_sg_buff_from_iovec whole buffers
        (request_for 2 1)
        (copy_sg_buff_to_iovec whole buffers (request_for 2 1) mem).1).0
      ≡ (copy_sg_buff_to_iovec whole buffers (request_for 2 1) mem).0)
    × ((k : ℕ)
        → (copy_sg_buff_from_iovec whole buffers
              (request_for 2 1)
              (copy_sg_buff_to_iovec whole buffers (request_for 2 1) mem).1).1.kernel
            k
          ≡ mem.kernel k)
unfolding seg_bytes range
read-write_back_example =
    read-write_back whole buffers (request_for 2 1) mem whole-AllMapped (omega arith) (omega arith)
      (omega arith) pieces_once

-- A command that user space has read, with the tag 0 and the serial number 1.
abbrev pool_memory : ℕ → Cmd
pool_memory i = record { cmd_index = 0; stat = init; scsi_cmd = none; cmd_sn = 0; refcnt = 0 }

abbrev inquiry : ScsiCmnd
inquiry = record {
  ident = 1;
  cmnd = 0x12 ∷ 0 ∷ 0 ∷ 0 ∷ 7 ∷ 0 ∷ [];
  channel = 0;
  id = 0;
  lun = 0;
  direction = 2;
}

abbrev one_read : Cmds
one_read = run (λ cdb. 6) 0 (submits inquiry ∷ reads 224 false ∷ []) (init_cmds pool_memory 2)

one_read-Inv : Inv one_read
one_read-Inv =
    run-Inv (λ cdb. 6) 0 (submits inquiry ∷ reads 224 false ∷ []) (init_cmds pool_memory 2)
      (init_cmds-Inv pool_memory 2)

abbrev data_message : DataMsg
data_message = record {
  kind = 2;
  reserved0 = 1;
  reserved1 = 1;
  cmd_sn = 1;
  tag = 0;
  scsi_data_len = 76;
  scsi_data = request_for 2 1;
}

abbrev image : ScsiBuf
image = record {
  addr = 9000;
  head = 0;
  slots = λ i. data_message;
  rsps = record { reserved0 = 1; cmd_sn = 1; tag = 0; command_status = 0; scsi_status = 0 } ∷ [];
  tail = 0;
}

abbrev layout : Layout
layout sc = buffers

abbrev world : Xfer
world = record { mem = mem; get_cdb_total = 0 }

request-InRange : InRange (request_for 2 1) buffers
unfolding seg_bytes range
request-InRange = record {
  in_cdb = λ e. omega arith;
  in_sense = λ e. omega arith;
  cdb_small = omega arith;
  sgl_small = omega arith;
  entries = omega arith;
  short = omega arith;
}

scsi_cmd_data_lem_example :
    ServeOutcome whole whole-AllMapped layout mode_read one_read 256 data_message world
scsi_cmd_data_lem_example =
    scsi_cmd_data_lem whole whole-AllMapped layout mode_read one_read 256 data_message world
      one_read-Inv (λ sc. request-InRange)

multi_scsi_cmd_data-kernel_example :
    (multi_scsi_cmd_data whole layout mode_read one_read
      (some image)
      image
      7000
      256
      world).1.mem.kernel
    ≡ mem.kernel
multi_scsi_cmd_data-kernel_example =
    multi_scsi_cmd_data-kernel whole layout one_read (some image) image 7000 256 world (omega arith)

response_multi_data_and_rsp-Written_example :
    Written whole layout one_read image 1136 world
      (response_multi_data_and_rsp whole layout one_read (some image) image 7000 1136 world)
response_multi_data_and_rsp-Written_example =
    response_multi_data_and_rsp-Written whole layout one_read image 7000 1136 world one_read-Inv
      (some image)

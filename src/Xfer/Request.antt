-- ===== src/Xfer/Request.antt =====
-- vsc_main.c: one request for data (`vsc_scsi_cmd_data`, `vsc_xfer_data`): which are served, and what
-- they move.
use vsc.Base.{
  ℕ, ◌+◌, ◌-◌, ◌%◌, ◌^◌, ◌≡◌, ◌≢◌, ◌≤◌, ◌<◌, ◌⊎◌, inl, inr, refl, true, not, ◌||◌, ◌==◌, ==_iff,
  ltb, leb, none, some, All, All_of_count, arith, Bool-cases, count, count-mem, length, min, drop,
}
use vsc.Codes.{Ret, ok, err, eio, eacces}
use vsc.Cmds.{Cmds, ScsiCmnd, linked, read_comp}
use vsc.Cmds.Respond.{is_read_comp}
use vsc.Cmds.Inv.{Inv, Slot, some_of_is_some}
use vsc.Cmds.Inv.Respond.{read-Slot, linked-uses, is_read_comp-eq}
use vsc.Xfer.{Mem, Dir, Mmu, ScsiData, to_user, from_user}
use vsc.Xfer.Bytes.{AllMapped, range, seg_bytes, iov_bytes, transfer}
use vsc.Xfer.Linear.{copy_data_lem}
use vsc.Xfer.Sg.{Buffers}
use vsc.Xfer.Scatter.Contract.{sg_contract, copy_sg_buff_lem}
use vsc.Xfer.Scatter.Refine.{IsShort}
use vsc.Xfer.Batch.{
  Mode, mode_read, mode_write, Xfer, DataMsg, Layout, xfer_data, xfer_for, xfer_at, find_cmd,
  scsi_cmd_data, scsi_sense_buffersize,
}

-- The request is of the right type and length, and names by tag and serial number a command that
-- waits for its answer.
pub record Names (q : Cmds) (len : ℕ) (m : DataMsg) : Type 0 where
  pub kind : m.kind ≡ 2
  pub fits : m.scsi_data_len ≤ len
  pub waiting : 0 < count m.tag q.rsp_q
  pub serial : (q.cmd_pool_tbl m.tag).cmd_sn ≡ m.cmd_sn

find_cmd-cases :
    (q : Cmds) (len : ℕ) (m : DataMsg) → (find_cmd q len m ≡ none) ⊎ (find_cmd q len m ≡ some m.tag)
unfolding find_cmd
find_cmd-cases q len m =
    elim (Bool-cases (not (m.kind == 2) || (leb q.nr_cmds m.tag || ltb len m.scsi_data_len))) [
      | inl e ↦ inl (ground (arith, e))
      | inr e ↦
          elim (Bool-cases (
            not (is_read_comp (q.cmd_pool_tbl m.tag).stat)
            || not ((q.cmd_pool_tbl m.tag).cmd_sn == m.cmd_sn))) [
              | inl f ↦ inl (ground (arith, e, f))
              | inr f ↦ elim (Bool-cases (linked q m.tag)) [
                | inl g ↦ inr (ground (arith, e, f, g))
                | inr g ↦ inl (ground (arith, e, f, g))
              ]
            ]
    ]

-- What the checks have found.
found_checks :
    (q : Cmds) (len : ℕ) (m : DataMsg)
    → find_cmd q len m ≡ some m.tag
    → (m.kind ≡ 2)
      × (m.scsi_data_len ≤ len)
      × (is_read_comp (q.cmd_pool_tbl m.tag).stat ≡ true)
      × ((q.cmd_pool_tbl m.tag).cmd_sn ≡ m.cmd_sn)
      × (linked q m.tag ≡ true)
unfolding find_cmd
found_checks q len m h = (ground arith, ground arith, ground arith, ground arith, ground arith)

module _ (q : Cmds) (len : ℕ) (m : DataMsg) (v : Inv q) where
  abbrev SlotOf : Type 0
  SlotOf = Slot q.cmd_pool_tbl q.cmd_pool_bits q.nr_cmds read_comp m.tag

  found-Names : find_cmd q len m ≡ some m.tag → Names q len m × SlotOf
  found-Names h =
      let c = found_checks q len m h in
      let s = read-Slot q m.tag v (linked-uses q m.tag c.4) (is_read_comp-eq _ c.2) in
      (record { kind = c.0; fits = c.1; waiting = s.0; serial = c.3 }, s.1)

  Names-found : Names q len m → find_cmd q len m ≡ some m.tag
  unfolding find_cmd
  Names-found n =
      let s =
        All_of_count (Slot q.cmd_pool_tbl q.cmd_pool_bits q.nr_cmds read_comp) m.tag q.rsp_q v.rsp
          n.waiting in
      let there = count-mem m.tag q.rsp_q in
      ground (arith, s, there, n.kind, n.fits, n.waiting, n.serial)

-- The buffers and the request are of sizes that the driver can count, and the offset lies in the
-- buffer.
pub record InRange (d : ScsiData) (b : Buffers) : Type 0 where
  pub in_cdb : d.data_type ≡ 1 → d.offset ≤ b.cdb_size
  pub in_sense : d.data_type ≡ 3 → d.offset ≤ scsi_sense_buffersize
  pub cdb_small : b.cdb_size < 2 ^ 32
  pub sgl_small : length (seg_bytes b.sgl) < 2 ^ 31
  pub entries : length b.sgl < 2 ^ 32
  pub short : All IsShort d.vec

-- What moves between a buffer and the descriptors of a request, and how many bytes.
abbrev pub moved : Dir → ScsiData → ℕ → ℕ → Mem → Ret × Mem
moved dir d at len m = (
  ok (min (len - d.offset) (length (iov_bytes d.vec))),
  transfer dir (drop d.offset (range at len)) (iov_bytes d.vec) m,
)

-- What a call of `read` gets for a request of a command with the buffers `b`: the CDB and the data go
-- to user space, and nothing else goes anywhere.
abbrev pub ReadGrants : ScsiData → Buffers → Xfer → Ret × Xfer → Type 0
ReadGrants d b x out =
    ((d.data_type ≡ 1)
      × (out ≡ (
        (moved to_user d b.cdb b.cdb_size x.mem).0,
        record {
          mem = (moved to_user d b.cdb b.cdb_size x.mem).1;
          get_cdb_total = (x.get_cdb_total + 1) % 2 ^ 32;
        },
      )))
    ⊎ ((d.data_type ≡ 2)
        × (out ≡ (
          (sg_contract to_user b d x.mem).0,
          record x { mem = (sg_contract to_user b d x.mem).1 },
        )))
    ⊎ ((d.data_type ≡ 3) × (out ≡ (err eacces, x)))
    ⊎ ((d.data_type ≢ 1) × (d.data_type ≢ 2) × (d.data_type ≢ 3) × (out ≡ (err eio, x)))

-- What a call of `write` does: the data and the sense buffer are filled from user space.
abbrev pub WriteGrants : ScsiData → Buffers → Xfer → Ret × Xfer → Type 0
WriteGrants d b x out =
    ((d.data_type ≡ 1) × (out ≡ (err eacces, x)))
    ⊎ ((d.data_type ≡ 2)
        × (out ≡ (
          (sg_contract from_user b d x.mem).0,
          record x { mem = (sg_contract from_user b d x.mem).1 },
        )))
    ⊎ ((d.data_type ≡ 3)
        × (out ≡ (
          (moved from_user d b.sense_buffer scsi_sense_buffersize x.mem).0,
          record x { mem = (moved from_user d b.sense_buffer scsi_sense_buffersize x.mem).1 },
        )))
    ⊎ ((d.data_type ≢ 1) × (d.data_type ≢ 2) × (d.data_type ≢ 3) × (out ≡ (err eio, x)))

abbrev pub Grants : Mode → ScsiData → Buffers → Xfer → Ret × Xfer → Type 0
Grants mode_read = ReadGrants
Grants mode_write = WriteGrants

module _ (mmu : Mmu) (mapped : AllMapped mmu) where
  xfer_data-Grants :
      (mode : Mode) (d : ScsiData) (b : Buffers) (x : Xfer)
      → InRange d b
      → Grants mode d b x (xfer_data mmu mode d b x)
  unfolding xfer_data
  xfer_data-Grants mode_read d b x r = elim (Bool-cases (d.data_type == 1)) [
    | inl e ↦
        let one = (==_iff d.data_type 1).0 e in
        rw (e, copy_data_lem mmu to_user d b.cdb b.cdb_size x.mem mapped (r.in_cdb one) r.cdb_small)
          (inl (one, refl))
    | inr e ↦ elim (Bool-cases (d.data_type == 2)) [
      | inl f ↦
          rw (e, f, copy_sg_buff_lem mmu to_user mapped b d x.mem r.sgl_small r.entries r.short)
            (inr (inl ((==_iff d.data_type 2).0 f, refl)))
      | inr f ↦ elim (Bool-cases (d.data_type == 3)) [
        | inl g ↦ rw (e, f, g) (inr (inr (inl ((==_iff d.data_type 3).0 g, refl))))
        | inr g ↦ rw (e, f, g) (inr (inr (inr (ground arith, ground arith, ground arith, refl))))
      ]
    ]
  ]
  xfer_data-Grants mode_write d b x r = elim (Bool-cases (d.data_type == 1)) [
    | inl e ↦ rw e (inl ((==_iff d.data_type 1).0 e, refl))
    | inr e ↦ elim (Bool-cases (d.data_type == 2)) [
      | inl f ↦
          rw (e, f, copy_sg_buff_lem mmu from_user mapped b d x.mem r.sgl_small r.entries r.short)
            (inr (inl ((==_iff d.data_type 2).0 f, refl)))
      | inr f ↦ elim (Bool-cases (d.data_type == 3)) [
        | inl g ↦
            let three = (==_iff d.data_type 3).0 g in
            rw
              (
                e,
                f,
                g,
                copy_data_lem mmu from_user d b.sense_buffer scsi_sense_buffersize x.mem mapped
                    (r.in_sense three) (omega arith),
              )
              (inr (inr (inl (three, refl))))
        | inr g ↦ rw (e, f, g) (inr (inr (inr (ground arith, ground arith, ground arith, refl))))
      ]
    ]
  ]

  -- What a request comes to.
  abbrev pub ServeOutcome : Layout → Mode → Cmds → ℕ → DataMsg → Xfer → Type 0
  ServeOutcome layout mode q len m x =
      let out = scsi_cmd_data mmu layout mode q len m x in
      ((¬ Names q len m) × (out ≡ (err eio, x)))
      ⊎ (Names q len m
          × ((sc : ScsiCmnd) × ((q.cmd_pool_tbl m.tag).scsi_cmd ≡ some sc)
              × Grants mode m.scsi_data (layout sc) x out))

  -- From queues in order, with every byte mapped, and buffers and a request of sizes that the driver
  -- can count whose offset lies in the buffer: a request for data is refused with `EIO`, and moves
  -- nothing, unless its type is right, its length fits, and it names by tag and serial number a
  -- command that waits for its answer. In a read, the CDB (which is counted) or the data of that
  -- command go to user space, in a write, its data or its sense buffer are filled from there, byte by
  -- byte from the offset on; the sense buffer in a read and the CDB in a write are refused with
  -- `EACCES`, anything else with `EIO`, and move nothing.
  pub scsi_cmd_data_lem :
      (layout : Layout) (mode : Mode) (q : Cmds) (len : ℕ) (m : DataMsg) (x : Xfer)
      → Inv q
      → ((sc : ScsiCmnd) → InRange m.scsi_data (layout sc))
      → ServeOutcome layout mode q len m x
  unfolding scsi_cmd_data xfer_at xfer_for
  scsi_cmd_data_lem layout mode q len m x v r = elim (find_cmd-cases q len m) [
    | inl e ↦ inl (λ (n : Names q len m). absurd (cc (e, Names-found q len m v n)), rw e refl)
    | inr e ↦
        let (n, slot) = found-Names q len m v e in
        let (sc, has) = some_of_is_some (q.cmd_pool_tbl m.tag).scsi_cmd slot.5 in
        inr (n, (sc, has, rw (e, has) (xfer_data-Grants mode m.scsi_data (layout sc) x (r sc))))
  ]

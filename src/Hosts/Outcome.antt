-- ===== src/Hosts/Outcome.antt =====
-- What `vsc_scsi_queue_command` of vsc_main.c comes to as a whole: the host that it chooses, and what
-- it does to the queues of every host.
use vsc.Base.{
  ℕ, ◌+◌, ◌/◌, ◌%◌, ◌^◌, ◌<◌, ◌≤◌, ◌≡◌, ◌≢◌, ◌⊎◌, inl, inr, refl, List, [], ◌∷◌, ◌++◌, Bool, true,
  false, Option, none, some, ◌==◌, ==_iff, ==_refl, leb, arith, ap, ◌∙◌, Bool-cases, mem,
  if◌then◌else◌, ltb, ◌&&◌, ◌*◌,
}
use vsc.Codes.{disk_prepare_delete, did_no_connect}
use vsc.Cmds.{Cmds, ScsiCmnd}
use vsc.Cmds.Io.{start_io_new}
use vsc.Cmds.Inv.{Inv}
use vsc.Cmds.Inv.Io.{submit_outcome, Full, staged}
use vsc.Hosts.{HostMgr, max_host_nr_per_vbs}
use vsc.Hosts.Queue.{
  Queued, taken, finished, refused, busy, host_index, entry_at, choose_host, is_readwrite_cmd,
  queue_on, queue_command, Hba, opcode,
}

-- READ and WRITE of 6, 10, 12 and 16 bytes.
abbrev pub transfer_codes : List ℕ
transfer_codes = 0x08 ∷ 0x28 ∷ 0xa8 ∷ 0x88 ∷ 0x0a ∷ 0x2a ∷ 0xaa ∷ 0x8a ∷ []

unfoldable pub is_transfer : ℕ → Bool
is_transfer op = mem op transfer_codes

is_transfer-eq : (op : ℕ) → is_readwrite_cmd op ≡ is_transfer op
unfolding is_transfer
is_transfer-eq op = ground arith

-- The index of the host for the command: the hosts take turns with the reads and writes of a disk,
-- `2 ^ shift` at a time, and the first has everything else.
abbrev pub index_for : ℕ → HostMgr → ℕ → ℕ → ℕ
index_for shift m op extend =
    if is_transfer op then (extend + 1) % 2 ^ 64 % 2 ^ 32 / 2 ^ shift % m.host_count else 0

-- The host that a command goes to: that of the disk if commands are not spread, otherwise the one at
-- the index, if there is a manager and the index is in range.
abbrev pub Goes : ℕ → ℕ → Option HostMgr → ℕ → ℕ → ℕ → Option ℕ → Type 0
Goes io_per_host shift siblings orig op extend chosen =
    ((io_per_host ≡ 0) × (chosen ≡ some orig))
    ⊎ ((0 < io_per_host) × (siblings ≡ none) × (chosen ≡ none))
    ⊎ ((m : HostMgr) × (0 < io_per_host)
        × (siblings ≡ some m)
        × (((max_host_nr_per_vbs ≤ index_for shift m op extend) × (chosen ≡ none))
            ⊎ ((index_for shift m op extend < max_host_nr_per_vbs)
                × (chosen ≡ m.host_list (index_for shift m op extend)))))

-- The counter of the disk after the call: a read or write that is spread counts.
abbrev pub counts_to : ℕ → Option HostMgr → ℕ → ℕ → ℕ
counts_to io_per_host none op extend = extend
counts_to io_per_host (some m) op extend =
    if ltb 0 io_per_host && is_transfer op then (extend + 1) % 2 ^ 64 else extend

-- The queues of every host but `h` are those of before.
abbrev pub Elsewhere : ℕ → (ℕ → Cmds) → (ℕ → Cmds) → Type 0
Elsewhere h before after = (k : ℕ) → (h == k) ≡ false → after k ≡ before k

-- What becomes of a command that goes to `h`: the host has no free slot, or it gets one.
abbrev pub Served : ℕ → (ℕ → Cmds) → ScsiCmnd → Queued × Hba → Type 0
Served h before sc out =
    (Elsewhere h before out.1.hosts)
    × ((Full (before h) × (out.0 ≡ busy) × (out.1.hosts h ≡ before h))
        ⊎ ((c : ℕ) × (c < (before h).nr_cmds)
            × ((before h).cmd_pool_bits c ≡ false)
            × (out.0 ≡ taken)
            × (out.1.hosts h ≡ start_io_new (staged (before h) c sc))))

-- What becomes of a command for which `chosen` is the host.
abbrev pub Answered : Option ℕ → (ℕ → Cmds) → ScsiCmnd → Queued × Hba → Type 0
Answered none before sc out = (out.0 ≡ refused) × (out.1.hosts ≡ before)
Answered (some h) before sc out = Served h before sc out

queue_on-Answered :
    (o : Option ℕ) (w : Hba) (sc : ScsiCmnd)
    → ((k : ℕ) → Inv (w.hosts k))
    → Answered o w.hosts sc (queue_on o w sc)
      × ((queue_on o w sc).1.volume ≡ w.volume)
      × ((queue_on o w sc).1.finished_here ≡ w.finished_here)
unfolding queue_on
queue_on-Answered none w sc v = ((refl, refl), refl, refl)
queue_on-Answered (some h) w sc v = (
  (
    (λ k apart. rw apart refl),
    (elim (submit_outcome (w.hosts h) sc (v h)) [
      | inl (full, e) ↦ inl (full, rw e refl, rw (==_refl h, e) refl)
      | inr (c, small, idle, e) ↦ inr (c, small, idle, rw e refl, rw (==_refl h, e) refl)
    ]),
  ),
  refl,
  refl,
)

-- The entry at an index, unless it is out of range.
entry-cases :
    (m : HostMgr) (i : ℕ)
    → ((max_host_nr_per_vbs ≤ i) × (entry_at m i ≡ none))
      ⊎ ((i < max_host_nr_per_vbs) × (entry_at m i ≡ m.host_list i))
entry-cases m i = elim (Bool-cases (leb max_host_nr_per_vbs i)) [
  | inl e ↦ rw e (inl (ground arith, refl))
  | inr e ↦ rw e (inr (ground arith, refl))
]

choose_host-Goes :
    (io_per_host shift : ℕ) (siblings : Option HostMgr) (orig op extend : ℕ)
    → Goes io_per_host shift siblings orig op extend
        (choose_host io_per_host shift siblings orig op extend).0
      × ((choose_host io_per_host shift siblings orig op extend).1
          ≡ counts_to io_per_host siblings op extend)
unfolding choose_host host_index
choose_host-Goes io_per_host shift none orig op extend = elim (Bool-cases (io_per_host == 0)) [
  | inl e ↦ rw e (inl (ground arith, refl), refl)
  | inr e ↦ rw e (inr (inl (ground arith, refl, refl)), refl)
]
choose_host-Goes io_per_host shift (some m) orig op extend =
    let same = is_transfer-eq op in
    elim (Bool-cases (io_per_host == 0)) [
      | inl e ↦
          let off : ltb 0 io_per_host ≡ false = ground arith in
          rw (e, off) (inl ((==_iff io_per_host 0).0 e, refl), refl)
      | inr e ↦
          let on : 0 < io_per_host = ground arith in
          let spread : ltb 0 io_per_host ≡ true = ground arith in
          elim (Bool-cases (is_transfer op)) [
            | inl t ↦
                let i = (extend + 1) % 2 ^ 64 % 2 ^ 32 / 2 ^ shift % m.host_count in
                rw (e, spread, same, t) (inr (inr (m, on, refl, entry-cases m i)), refl)
            | inr t ↦ rw (e, spread, same, t) (inr (inr (m, on, refl, entry-cases m 0)), refl)
          ]
    ]

-- What the command comes to.
abbrev pub QueueOutcome : ℕ → ℕ → Option HostMgr → ℕ → Hba → ScsiCmnd → Type 0
QueueOutcome io_per_host shift siblings orig w sc =
    let out = queue_command io_per_host shift siblings orig w sc in
    let op = opcode sc.cmnd in
    ((w.volume.state ≡ disk_prepare_delete)
      × (out.0 ≡ finished)
      × (out.1.hosts ≡ w.hosts)
      × (out.1.volume ≡ w.volume)
      × (out.1.finished_here
          ≡ w.finished_here ++ record { sc = sc; result = did_no_connect * 2 ^ 16 } ∷ []))
    ⊎ ((w.volume.state ≢ disk_prepare_delete)
        × ((chosen : Option ℕ) × Goes io_per_host shift siblings orig op w.volume.extend chosen
            × Answered chosen w.hosts sc out)
        × (out.1.volume.state ≡ w.volume.state)
        × (out.1.volume.extend ≡ counts_to io_per_host siblings op w.volume.extend)
        × (out.1.finished_here ≡ w.finished_here))

-- From queues in order, a command for a disk that is about to be deleted is completed at once, as not
-- connected, and changes no queue. Any other goes to the host of its disk if commands are not spread;
-- otherwise the hosts of the manager take turns with reads and writes, as the counter of the disk,
-- which each of them advances, says, and the first entry has everything else. If there is no such
-- host, the command is refused, and no queue changes. If there is, the queues of all other hosts stay
-- as they are, and it is told busy only if all its slots are taken; else the command gets a free slot,
-- joins the requests last, and all requests move to the end of the queue that user space reads.
pub queue_command_lem :
    (io_per_host shift : ℕ) (siblings : Option HostMgr) (orig : ℕ) (w : Hba) (sc : ScsiCmnd)
    → ((k : ℕ) → Inv (w.hosts k))
    → QueueOutcome io_per_host shift siblings orig w sc
unfolding queue_command
queue_command_lem io_per_host shift siblings orig w sc v =
    elim (Bool-cases (w.volume.state == disk_prepare_delete)) [
      | inl e ↦ rw e (inl (ground arith, refl, refl, refl, refl))
      | inr e ↦
          let (goes, counter) =
            choose_host-Goes io_per_host shift siblings orig (opcode sc.cmnd) w.volume.extend in
          let (h, sn) =
            choose_host io_per_host shift siblings orig (opcode sc.cmnd) w.volume.extend in
          let (answer, volume, here) =
            queue_on-Answered h (record w { volume = record w.volume { extend = sn } }) sc v in
          rw e (
            inr (
              ground arith,
              (h, goes, answer),
              ap (λ d. d.state) volume,
              ap (λ d. d.extend) volume ∙ counter,
              here,
            ))
    ]

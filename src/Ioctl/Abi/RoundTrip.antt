-- ===== src/Ioctl/Abi/RoundTrip.antt =====
-- vsc.h, vsc_ioctl.c: every request that the header has is taken for what it says.
use vsc.Base.{ℕ, ◌≡◌, refl, List, [], ◌∷◌, false, Option, All, ◌==◌, ◌-◌, if◌then◌else◌, arith}
use vsc.Devices.{SdevState}
use vsc.Ioctl.{
  Command, add_host, rmv_host, attach_host, detach_host, suspends, resumes, add_disk, rmv_disk,
  add_disk_vol_name, prepare_rmv_vol, query_disk_vol, set_disk_stat, get_disk_stat, disk_rq_timeout,
  set_target_abnormal_timeout, other, Around, dev_ioctl,
}
use vsc.Ioctl.State.{World, Request}
use vsc.Ioctl.Abi.{io_number, Argument, command_of, ioctl}

-- The number that the header has for a command.
abbrev number_of : Command → ℕ
number_of (add_host info) = io_number 0
number_of (rmv_host n) = io_number 1
number_of (add_disk n c i l) = io_number 10
number_of (rmv_disk n c i l) = io_number 11
number_of (set_disk_stat n c i l s) = io_number 12
number_of (get_disk_stat n c i l) = io_number 13
number_of (disk_rq_timeout n c i l t) = io_number 14
number_of (set_target_abnormal_timeout n t) = io_number 15
number_of (attach_host n) = io_number 20
number_of detach_host = io_number 21
number_of suspends = io_number 30
number_of resumes = io_number 31
number_of (add_disk_vol_name n c i l v) = io_number 32
number_of (prepare_rmv_vol n v) = io_number 33
number_of (query_disk_vol n) = io_number 34
number_of (other n) = n

abbrev word_at : List ℕ → ℕ → ℕ
word_at [] i = 0
word_at (x ∷ xs) i = if i == 0 then x else word_at xs (i - 1)

-- The argument that user space passes for a command, in the order of the fields of its structure;
-- `code` is the number of a state.
abbrev fields_of : (Option SdevState → ℕ) → Command → List ℕ
fields_of code (add_host k) =
    k.host ∷ k.sys_host_id ∷ k.max_channel ∷ k.max_lun ∷ k.max_id ∷ k.max_cmd_len ∷ k.max_nr_cmds
    ∷ k.cmd_per_lun ∷ k.sg_count ∷ []
fields_of code (rmv_host n) = n ∷ []
fields_of code (attach_host n) = n ∷ []
fields_of code detach_host = []
fields_of code suspends = []
fields_of code resumes = []
fields_of code (add_disk n c i l) = n ∷ c ∷ i ∷ l ∷ []
fields_of code (rmv_disk n c i l) = n ∷ c ∷ i ∷ l ∷ []
fields_of code (get_disk_stat n c i l) = n ∷ c ∷ i ∷ l ∷ []
fields_of code (add_disk_vol_name n c i l v) = n ∷ c ∷ i ∷ l ∷ []
fields_of code (prepare_rmv_vol n v) = n ∷ []
fields_of code (query_disk_vol n) = n ∷ []
fields_of code (set_disk_stat n c i l s) = n ∷ c ∷ i ∷ l ∷ code s ∷ []
fields_of code (disk_rq_timeout n c i l t) = n ∷ c ∷ i ∷ l ∷ t ∷ []
fields_of code (set_target_abnormal_timeout n t) = n ∷ t ∷ []
fields_of code (other n) = []

abbrev name_of : Command → List ℕ
name_of (add_disk_vol_name n c i l v) = v
name_of (prepare_rmv_vol n v) = v
name_of (add_host k) = []
name_of (rmv_host n) = []
name_of (attach_host n) = []
name_of detach_host = []
name_of suspends = []
name_of resumes = []
name_of (add_disk n c i l) = []
name_of (rmv_disk n c i l) = []
name_of (get_disk_stat n c i l) = []
name_of (query_disk_vol n) = []
name_of (set_disk_stat n c i l s) = []
name_of (disk_rq_timeout n c i l t) = []
name_of (set_target_abnormal_timeout n t) = []
name_of (other n) = []

abbrev argument_of : (Option SdevState → ℕ) → Command → Argument
argument_of code c = record { word = word_at (fields_of code c); vol_name = name_of c }

-- A number that the header does not have.
abbrev Unknown : ℕ → Type 0
Unknown n =
    All (λ (nr : ℕ). (n == io_number nr) ≡ false)
      (0 ∷ 1 ∷ 20 ∷ 21 ∷ 30 ∷ 31 ∷ 10 ∷ 11 ∷ 32 ∷ 33 ∷ 34 ∷ 12 ∷ 13 ∷ 14 ∷ 15 ∷ [])

-- The numbers of the states are those of the kernel, and a command for another number has one that
-- the header does not have.
abbrev Proper : (ℕ → Option SdevState) → (Option SdevState → ℕ) → Command → Type 0
Proper state_of code (set_disk_stat n c i l s) = state_of (code s) ≡ s
Proper state_of code (other n) = Unknown n
Proper state_of code (add_host k) = Unit
Proper state_of code (rmv_host n) = Unit
Proper state_of code (attach_host n) = Unit
Proper state_of code detach_host = Unit
Proper state_of code suspends = Unit
Proper state_of code resumes = Unit
Proper state_of code (add_disk n c i l) = Unit
Proper state_of code (rmv_disk n c i l) = Unit
Proper state_of code (get_disk_stat n c i l) = Unit
Proper state_of code (add_disk_vol_name n c i l v) = Unit
Proper state_of code (prepare_rmv_vol n v) = Unit
Proper state_of code (query_disk_vol n) = Unit
Proper state_of code (disk_rq_timeout n c i l t) = Unit
Proper state_of code (set_target_abnormal_timeout n t) = Unit

command_of-number :
    (state_of : ℕ → Option SdevState) (code : Option SdevState → ℕ) (c : Command)
    → Proper state_of code c
    → command_of state_of (number_of c) (argument_of code c) ≡ c
unfolding command_of
command_of-number state_of code (add_host k) p = refl
command_of-number state_of code (rmv_host n) p = refl
command_of-number state_of code (attach_host n) p = refl
command_of-number state_of code detach_host p = refl
command_of-number state_of code suspends p = refl
command_of-number state_of code resumes p = refl
command_of-number state_of code (add_disk n c i l) p = refl
command_of-number state_of code (rmv_disk n c i l) p = refl
command_of-number state_of code (get_disk_stat n c i l) p = refl
command_of-number state_of code (add_disk_vol_name n c i l v) p = refl
command_of-number state_of code (prepare_rmv_vol n v) p = refl
command_of-number state_of code (query_disk_vol n) p = refl
command_of-number state_of code (set_disk_stat n c i l s) p = rw p refl
command_of-number state_of code (disk_rq_timeout n c i l t) p = refl
command_of-number state_of code (set_target_abnormal_timeout n t) p = refl
command_of-number state_of code (other n) p = ground arith

-- If the numbers of the disk states are those of the kernel, a request with the number and the
-- fields that the header has for a command does what the handler of that command does, and a request
-- with a number that the header does not have does what the default of the switch does.
ioctl_lem :
    (state_of : ℕ → Option SdevState) (code : Option SdevState → ℕ) (a : Around) (r : Request)
    (f : ℕ) (c : Command) (w : World)
    → Proper state_of code c
    → ioctl state_of a r f (number_of c) (argument_of code c) w ≡ dev_ioctl a r f c w
unfolding ioctl
ioctl_lem state_of code a r f c w p = rw (command_of-number state_of code c p) refl

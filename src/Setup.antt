-- ===== src/Setup.antt =====
-- vsc_main.c, vsc_ioctl.c, vsc_sym.c: `vsc_init` and `vsc_exit`, with `vsc_ioctl_init`,
-- `vsc_ioctl_exit` and `vsc_sym_init`. What they take from the kernel and give back is a list.
pub mod Uses
pub mod Outcome
mod Tests
use vsc.Base.{
  ℕ, List, [], ◌∷◌, ◌++◌, Bool, true, false, not, ◌&&◌, Option, none, some, ◌==◌, if◌then◌else◌,
}
use vsc.Codes.{Errno, Ret, ok, err, efault, einval}
use vsc.Params.{Params, init_params}

-- What the module takes from the kernel.
pub data Resource : Type 0 where
  proc_dir chrdev class device slab pool : Resource

pub data Use : Type 0 where
  take : Resource → Use
  give : Resource → Use

-- A pointer that the kernel returns: `IS_ERR` is `failed`, and a null pointer is no error.
pub data Ptr : Type 0 where
  null valid failed : Ptr

abbrev pub is_failed : Ptr → Bool
is_failed failed = true
is_failed null = false
is_failed valid = false

-- The size of a message and the offset of its variable part, for the four messages that
-- `vsc_sym_data_align_chk` looks at.
pub record Sizes : Type 0 where
  pub scsi_data_msg : ℕ × ℕ
  pub scsi_data : ℕ × ℕ
  pub scsi_event : ℕ × ℕ
  pub scsi_msg_data : ℕ × ℕ

abbrev pub aligned : ℕ × ℕ → Bool
aligned (size, offset) = size == offset

-- `vsc_sym_data_align_chk`, whose result is that of `vsc_sym_init`.
unfoldable pub sym_init : Sizes → Option Errno
sym_init s =
    if not (aligned s.scsi_data_msg)
    then some efault
    else if not (aligned s.scsi_data)
    then some efault
    else if not (aligned s.scsi_event)
    then some efault
    else if not (aligned s.scsi_msg_data)
    then some efault
    else none

-- What the kernel answers, `none` where there is no error.
pub record KernelAnswers : Type 0 where
  pub proc_mkdir : Bool
  pub sizes : Sizes
  pub register_chrdev : Option Errno
  pub class_create : Option Errno
  pub device_create : Option Errno
  pub cache_create : Bool
  pub mempool_create : Bool

-- The global variables that point to what has been taken.
pub record Globals : Type 0 where
  pub proc_vsc_root : Bool
  pub vsc_class : Ptr
  pub scsi_buf_slab : Bool
  pub scsi_buf_pool : Bool

-- Before the module is loaded.
abbrev pub unloaded : Globals
unloaded = record {
  proc_vsc_root = false;
  vsc_class = null;
  scsi_buf_slab = false;
  scsi_buf_pool = false;
}

-- The end of `vsc_ioctl_init` at `err_ret`, with `vsc_dev`, `vsc_class` and whether there is a major
-- number: a pointer that is no error is destroyed.
abbrev pub unless_failed : Ptr → Resource → List Use
unless_failed p r = if is_failed p then [] else give r ∷ []

abbrev pub ioctl_undo : Ptr → Ptr → Bool → List Use
ioctl_undo dev cls major =
    unless_failed dev device ++ unless_failed cls class ++ (if major then give chrdev ∷ [] else [])

abbrev pub class_after : Ptr → Ptr
class_after p = if is_failed p then p else null

-- `vsc_ioctl_init`: its error, what it took and gave back, and `vsc_class`.
unfoldable pub ioctl_init : KernelAnswers → Ptr → Option Errno × List Use × Ptr
ioctl_init a cls = elim a.register_chrdev [
  | some e ↦ (some e, ioctl_undo null cls false, class_after cls)
  | none ↦ elim a.class_create [
    | some e ↦ (some e, take chrdev ∷ ioctl_undo null failed true, failed)
    | none ↦ elim a.device_create [
      | some e ↦ (some e, take chrdev ∷ take class ∷ ioctl_undo failed valid true, null)
      | none ↦ (none, take chrdev ∷ take class ∷ take device ∷ [], valid)
    ]
  ]
]

-- `vsc_ioctl_exit`.
abbrev pub ioctl_exit : List Use
ioctl_exit = give device ∷ give class ∷ give chrdev ∷ []

-- What a load of the module comes to: the result of `vsc_init`, what was taken and given back, and
-- the global variables.
pub record Loaded : Type 0 where
  pub ret : Ret
  pub uses : List Use
  pub globals : Globals

-- The label `errout2` of `vsc_init`.
abbrev pub remove_proc : List Use
remove_proc = give proc_dir ∷ []

-- `vsc_init` from the caches on; `uses` is what came before. `retval` is still the result of
-- `vsc_ioctl_init`, 0.
unfoldable pub init_caches : KernelAnswers → List Use → Loaded
init_caches a uses =
    if not a.cache_create
    then record { ret = ok 0; uses = uses ++ ioctl_exit ++ remove_proc; globals = unloaded }
    else if not a.mempool_create
    then record {
      ret = ok 0;
      uses = uses ++ take slab ∷ give slab ∷ (ioctl_exit ++ remove_proc);
      globals = record unloaded { scsi_buf_slab = true };
    }
    else record {
      ret = ok 0;
      uses = uses ++ take slab ∷ take pool ∷ [];
      globals = record {
        proc_vsc_root = true;
        vsc_class = valid;
        scsi_buf_slab = true;
        scsi_buf_pool = true;
      };
    }

abbrev pub load_fails : Errno → List Use → Ptr → Loaded
load_fails e uses cls = record {
  ret = err e;
  uses = uses;
  globals = record unloaded { vsc_class = cls };
}

abbrev pub after_ioctl_init : KernelAnswers → Option Errno × List Use × Ptr → Loaded
after_ioctl_init a (none, uses, cls) = init_caches a (take proc_dir ∷ uses)
after_ioctl_init a (some e, uses, cls) = load_fails e (take proc_dir ∷ uses ++ remove_proc) cls

abbrev pub after_sym_init : KernelAnswers → Option Errno → Loaded
after_sym_init a (some e) = load_fails e (take proc_dir ∷ remove_proc) null
after_sym_init a none = after_ioctl_init a (ioctl_init a null)

-- `vsc_init`, once `io_per_host` has been looked at.
abbrev pub after_params : KernelAnswers → Option Params → Loaded
after_params a none = load_fails einval [] null
after_params a (some p) =
    if not a.proc_mkdir then load_fails efault [] null else after_sym_init a (sym_init a.sizes)

unfoldable pub vsc_init : KernelAnswers → Params → Loaded
unfolding sym_init ioctl_init init_caches init_params
vsc_init a p = after_params a (init_params p)

-- `vsc_exit`, without the hosts.
abbrev pub if_set : Bool → Resource → List Use
if_set b r = if b then give r ∷ [] else []

unfoldable pub vsc_exit : Globals → List Use
vsc_exit g =
    if_set g.scsi_buf_pool pool
    ++ (if_set g.scsi_buf_slab slab ++ (ioctl_exit ++ if_set g.proc_vsc_root proc_dir))

-- ===== src/Setup/Outcome.antt =====
-- vsc_main.c, vsc_ioctl.c: what loading and unloading the module takes and gives back.
use vsc.Base.{
  ◌≡◌, inl, inr, refl, [], ◌∷◌, ◌++◌, Bool, true, false, not, Option, none, some, if◌then◌else◌,
  Bool-cases, Option-cases,
}
use vsc.Codes.{Errno, ok, err, efault, einval}
use vsc.Params.{Params, init_params}
use vsc.Setup.{
  proc_dir, chrdev, class, device, slab, pool, take, null, KernelAnswers, Loaded, sym_init,
  ioctl_init, init_caches, after_ioctl_init, after_sym_init, after_params, vsc_init, vsc_exit,
}
use vsc.Setup.Uses.{taken_by}

-- The four ways in which a load can end.
pub data Ending : Type 0 where
  complete undone stray hollow : Ending

-- What each of them means. `complete`: it succeeds, holds everything, and an unload gives all of it
-- back. `undone`: it fails and has given back all that it took. `stray`: it fails, and destroys what
-- it has not taken. `hollow`: it reports success but has given everything back, and an unload gives
-- back what is not there.
abbrev pub Means : Loaded → Ending → Type 0
Means l complete =
    (l.ret ≡ ok 0)
    × (taken_by l.uses ≡ some (pool ∷ slab ∷ device ∷ class ∷ chrdev ∷ proc_dir ∷ []))
    × (taken_by (l.uses ++ vsc_exit l.globals) ≡ some [])
Means l undone = ((e : Errno) × (l.ret ≡ err e)) × (taken_by l.uses ≡ some [])
Means l stray = ((e : Errno) × (l.ret ≡ err e)) × (taken_by l.uses ≡ none)
Means l hollow =
    (l.ret ≡ ok 0) × (taken_by l.uses ≡ some []) × (taken_by (l.uses ++ vsc_exit l.globals) ≡ none)

-- Which of them it is.
abbrev pub is_some {ℓ} : {A : Type ℓ} → Option A → Bool
is_some none = false
is_some (some x) = true

unfoldable pub ending : KernelAnswers → Params → Ending
unfolding init_params sym_init
ending a p =
    if not (is_some (init_params p))
    then undone
    else if not a.proc_mkdir
    then undone
    else if is_some (sym_init a.sizes)
    then undone
    else if is_some a.register_chrdev
    then stray
    else if is_some a.class_create
    then stray
    else if is_some a.device_create
    then undone
    else if not a.cache_create
    then hollow
    else if not a.mempool_create
    then hollow
    else complete

caches-Means :
    (a : KernelAnswers)
    → Means
        (init_caches a (take proc_dir ∷ take chrdev ∷ take class ∷ take device ∷ []))
        (if not a.cache_create then hollow else if not a.mempool_create then hollow else complete)
unfolding init_caches vsc_exit
caches-Means a = elim (Bool-cases a.cache_create) [
  | inl e ↦ elim (Bool-cases a.mempool_create) [
    | inl f ↦ rw (e, f) (refl, refl, refl)
    | inr f ↦ rw (e, f) (refl, refl, refl)
  ]
  | inr e ↦ rw e (refl, refl, refl)
]

ioctl-Means :
    (a : KernelAnswers)
    → Means (after_ioctl_init a (ioctl_init a null)) (
        if is_some a.register_chrdev
        then stray
        else if is_some a.class_create
        then stray
        else if is_some a.device_create
        then undone
        else if not a.cache_create
        then hollow
        else if not a.mempool_create
        then hollow
        else complete)
unfolding ioctl_init init_caches
ioctl-Means a = elim (Option-cases a.register_chrdev) [
  | inr (e, q) ↦ rw q ((e, refl), refl)
  | inl q ↦ elim (Option-cases a.class_create) [
    | inr (e, r) ↦ rw (q, r) ((e, refl), refl)
    | inl r ↦ elim (Option-cases a.device_create) [
      | inr (e, s) ↦ rw (q, r, s) ((e, refl), refl)
      | inl s ↦ rw (q, r, s) (caches-Means a)
    ]
  ]
]

sym-Means :
    (a : KernelAnswers) (o : Option Errno) (z : Ending)
    → Means (after_ioctl_init a (ioctl_init a null)) z
    → Means (after_sym_init a o) (if is_some o then undone else z)
sym-Means a none z m = m
sym-Means a (some e) z m = ((e, refl), refl)

if-Means :
    (b : Bool) (x y : Loaded) (v z : Ending)
    → Means x v
    → Means y z
    → Means (if b then x else y) (if b then v else z)
if-Means true x y v z m n = m
if-Means false x y v z m n = n

params-Means :
    (a : KernelAnswers) (o : Option Params) (z : Ending)
    → Means (after_sym_init a (sym_init a.sizes)) z
    → Means
        (after_params a o)
        (if not (is_some o) then undone else if not a.proc_mkdir then undone else z)
params-Means a none z m = ((einval, refl), refl)
params-Means a (some p) z m = if-Means (not a.proc_mkdir) _ _ undone z ((efault, refl), refl) m

-- A load of the module is complete if everything that it asks the kernel for is granted. If the
-- parameter, the proc directory, the layout of the messages or the device fails, it fails and has
-- given back what it took. If the device number or the class is refused, it fails and destroys a
-- device that it has not made. If the cache or the pool of buffers is refused, it reports success
-- with nothing set up, and an unload then gives back what is not there.
pub vsc_init_lem : (a : KernelAnswers) (p : Params) → Means (vsc_init a p) (ending a p)
unfolding vsc_init ending
vsc_init_lem a p =
    params-Means a (init_params p) _ (sym-Means a (sym_init a.sizes) _ (ioctl-Means a))

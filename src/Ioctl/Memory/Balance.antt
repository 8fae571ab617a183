-- ===== src/Ioctl/Memory/Balance.antt =====
-- vsc_main.c: every allocation of a host is freed exactly once.
use vsc.Base.{
  ap, List, Option, some, ℕ, zero, suc, ◌+◌, ◌≤◌, ◌<◌, ◌≡◌, ◌⊎◌, refl, [], ◌∷◌, ◌++◌, Bool, true,
  false, ◌&&◌, ◌==◌, ltb, leb, if◌then◌else◌, count, count-append, arith, Bool-cases, inl, inr,
  subst, ==_iff, ◌∙◌,
}
use vsc.Cmds.Account.History.{max_cmd_num}
use native.Mathlib.Nat.{add_comm}
use vsc.Ioctl.Memory.{
  default_event_number, PoolMemory, Table, cleared, free_slots, free_pool, ctlr_info_destroy, fill,
  pool_init, Built, ctrl_init_memory,
}

free_slots-cleared : (n : ℕ) → free_slots (cleared n) ≡ []
free_slots-cleared zero = refl
free_slots-cleared (suc n) = free_slots-cleared n

-- How often the request `a` has been granted among the first `k`, which is once at most.
abbrev pub taken : (ℕ → Bool) → ℕ → ℕ → ℕ
taken grants k a = if ltb a k && grants a then 1 else 0

-- The entries of a table that the requests from `next` on have been granted for.
abbrev pub numbered : ℕ → ℕ → List (Option ℕ)
numbered zero next = []
numbered (suc n) next = some next ∷ numbered n (suc next)

module _ (grants : ℕ → Bool) where
  -- A request from `lo` on and before `hi` that has been granted, as a number.
  abbrev granted : ℕ → ℕ → ℕ → ℕ
  granted lo hi a = if leb lo a && (ltb a hi && grants a) then 1 else 0

  fill-ge : (n next : ℕ) → next ≤ (fill grants n next).1
  unfolding fill
  fill-ge zero next = omega arith
  fill-ge (suc n) next = ground (arith, fill-ge n (suc next))

  granted_one : (n a : ℕ) → granted n (suc n) a ≡ (if (n == a) && grants n then 1 else 0)
  granted_one n a = elim (Bool-cases (n == a)) [
    | inl e ↦
        subst (λ (b : ℕ). granted n (suc n) b ≡ (if (n == b) && grants n then 1 else 0))
          ((==_iff n a).0 e) (ground arith)
    | inr e ↦ ground arith
  ]

  granted_split :
      (lo mid hi a : ℕ)
      → lo ≤ mid
      → mid ≤ hi
      → granted lo mid a + granted mid hi a ≡ granted lo hi a
  granted_split lo mid hi a h k = ground arith

  -- Adding the request `next`, which the rest starts after.
  granted_cons :
      (next hi a : ℕ)
      → suc next ≤ hi
      → (if (next == a) && grants next then 1 else 0) + granted (suc next) hi a ≡ granted next hi a
  granted_cons next hi a h =
      ground (arith, granted_one next a, granted_split next (suc next) hi a (omega arith) h)

  count-fill :
      (n next a : ℕ)
      → count a (free_slots (fill grants n next).0) ≡ granted next (fill grants n next).1 a
  unfolding fill
  count-fill zero next a = ground arith
  count-fill (suc n) next a =
      let ge = fill-ge n (suc next) in
      let ih = count-fill n (suc next) a in
      elim (Bool-cases (grants next)) [
        | inl e ↦ rw e (ground (arith, ih, granted_cons next (fill grants n (suc next)).1 a ge))
        | inr e ↦ rw (e, free_slots-cleared n) (ground (arith, granted_one next a))
      ]

  pool_init-ge : (nr next : ℕ) → next ≤ (pool_init grants nr next).1
  unfolding pool_init
  pool_init-ge nr next = ground (arith, fill-ge nr (suc (suc next)))

  -- A pool holds what its requests were granted.
  count-pool :
      (nr next a : ℕ)
      → count a (free_pool (pool_init grants nr next).0)
        ≡ granted next (pool_init grants nr next).1 a
  unfolding pool_init
  count-pool nr next a =
      let os = (fill grants nr (suc (suc next))).0 in
      let k = (fill grants nr (suc (suc next))).1 in
      let ge = fill-ge nr (suc (suc next)) in
      elim (Bool-cases (grants next)) [
        | inl e ↦ elim (Bool-cases (grants (suc next))) [
          | inl f ↦
              rw
                (
                  e,
                  f,
                  count-append a (free_slots os ++ suc next ∷ []) (next ∷ []),
                  count-append a (free_slots os) (suc next ∷ []),
                  count-fill nr (suc (suc next)) a,
                )
                (ground
                  (arith, granted_cons next k a (omega arith), granted_cons (suc next) k a ge))
          | inr f ↦
              rw (e, f)
                (ground (
                  arith,
                  granted_cons next (suc (suc next)) a (omega arith),
                  granted_one (suc next) a,
                ))
        ]
        | inr e ↦ rw e (ground (arith, granted_one next a))
      ]

  -- What `vsc_ctrl_init` has taken, whether it ends well or not.
  count-destroy :
      (nr_cmds a : ℕ)
      → count a (ctlr_info_destroy (ctrl_init_memory grants nr_cmds).memory)
        ≡ granted 0 (ctrl_init_memory grants nr_cmds).asked a
  unfolding ctlr_info_destroy ctrl_init_memory
  count-destroy nr_cmds a =
      let nr = if nr_cmds == 0 then max_cmd_num else nr_cmds in
      let k = (pool_init grants nr 0).1 in
      let l = (pool_init grants default_event_number k).1 in
      elim (Bool-cases (pool_init grants nr 0).2) [
        | inl e ↦
            rw
              (
                e,
                count-append a (free_pool (pool_init grants default_event_number k).0)
                    (free_pool (pool_init grants nr 0).0),
                count-pool nr 0 a,
                count-pool default_event_number k a,
              )
              (add_comm _ _
                ∙ granted_split 0 k l a (omega arith) (pool_init-ge default_event_number k))
        | inr e ↦ rw e (count-pool nr 0 a)
      ]

  -- Why a part of the work ends: all went well, or a request was refused.
  abbrev Ends : ℕ → Bool → Type 0
  Ends k done = (done ≡ true) ⊎ ((done ≡ false) × ((a : ℕ) × (a < k) × (grants a ≡ false)))

  fill-Ends : (n next : ℕ) → Ends (fill grants n next).1 (fill grants n next).2
  unfolding fill
  fill-Ends zero next = inl refl
  fill-Ends (suc n) next = elim (Bool-cases (grants next)) [
    | inl e ↦ rw e (fill-Ends n (suc next))
    | inr e ↦ rw e (inr (refl, (next, omega arith, e)))
  ]

  pool_init-Ends : (nr next : ℕ) → Ends (pool_init grants nr next).1 (pool_init grants nr next).2
  unfolding pool_init
  pool_init-Ends nr next = elim (Bool-cases (grants next)) [
    | inl e ↦ elim (Bool-cases (grants (suc next))) [
      | inl f ↦ rw (e, f) (fill-Ends nr (suc (suc next)))
      | inr f ↦ rw (e, f) (inr (refl, (suc next, omega arith, f)))
    ]
    | inr e ↦ rw e (inr (refl, (next, omega arith, e)))
  ]

  -- A pool of `n` entries that has all of its memory, which it asked for with `next` and the requests
  -- behind it.
  abbrev pub Complete : ℕ → ℕ → PoolMemory → Type 0
  Complete n next p =
      (p.bits ≡ some next)
      × ((t : Table) × (p.table ≡ some t)
          × (t.address ≡ suc next)
          × (t.slots ≡ numbered n (suc (suc next))))

  fill-numbered :
      (n next : ℕ)
      → (fill grants n next).2 ≡ true
      → ((fill grants n next).0 ≡ numbered n next) × ((fill grants n next).1 ≡ next + n)
  unfolding fill
  fill-numbered zero next e = (refl, omega arith)
  fill-numbered (suc n) next e = elim (Bool-cases (grants next)) [
    | inl g ↦
        let ih = fill-numbered n (suc next) (rw g at e) in
        rw g (ap (λ os. some next ∷ os) ih.0, omega (arith, ih.1))
    | inr g ↦ absurd (cc (rw g at e))
  ]

  pool_init-Complete :
      (nr next : ℕ)
      → (pool_init grants nr next).2 ≡ true
      → Complete nr next (pool_init grants nr next).0
        × ((pool_init grants nr next).1 ≡ next + (nr + 2))
  unfolding pool_init
  pool_init-Complete nr next e = elim (Bool-cases (grants next)) [
    | inl g ↦ elim (Bool-cases (grants (suc next))) [
      | inl h ↦
          let filled = fill-numbered nr (suc (suc next)) (rw (g, h) at e) in
          rw (g, h) ((refl, (_, refl, refl, filled.0)), omega (arith, filled.1))
      | inr h ↦ absurd (cc (rw (g, h) at e))
    ]
    | inr g ↦ absurd (cc (rw g at e))
  ]

  -- What the allocations of a host of `nr` commands come to.
  abbrev pub MemoryOutcome : ℕ → Built grants → Type 0
  MemoryOutcome nr b =
      ((b.built ≡ true)
        × (b.freed ≡ [])
        × Complete nr 0 b.memory.cmd_pool
        × Complete default_event_number (nr + 2) b.memory.event_pool
        × (b.asked ≡ nr + 2 + (default_event_number + 2))
        × ((a : ℕ) → count a (ctlr_info_destroy b.memory) ≡ taken grants b.asked a))
      ⊎ ((b.built ≡ false)
          × ((a : ℕ) × (a < b.asked) × (grants a ≡ false))
          × ((a : ℕ) → count a b.freed ≡ taken grants b.asked a))

  taken-granted : (k a : ℕ) → granted 0 k a ≡ taken grants k a
  taken-granted k a = ground arith

  -- If every request for memory is granted, a host has all of its memory: for each of its two pools
  -- the bits, the table, and an entry for each command (256 * 32 if the number is 0) or each of the
  -- eight events, every one with an allocation of its own; and its destruction frees each allocation
  -- exactly once. Otherwise a request was refused, and each allocation that was made before it has
  -- been freed exactly once.
  pub ctrl_init_memory_lem :
      (nr_cmds : ℕ)
      → MemoryOutcome
          (if nr_cmds == 0 then max_cmd_num else nr_cmds)
          (ctrl_init_memory grants nr_cmds)
  unfolding ctrl_init_memory
  ctrl_init_memory_lem nr_cmds =
      let nr = if nr_cmds == 0 then max_cmd_num else nr_cmds in
      let k = (pool_init grants nr 0).1 in
      let counts : (a : ℕ)
          → count a (ctlr_info_destroy (ctrl_init_memory grants nr_cmds).memory)
            ≡ taken grants (ctrl_init_memory grants nr_cmds).asked a =
        λ a. count-destroy nr_cmds a ∙ taken-granted _ a in
      elim (pool_init-Ends nr 0) [
        | inl e ↦ elim (pool_init-Ends default_event_number k) [
          | inl f ↦
              let cmds = pool_init-Complete nr 0 e in
              let events = pool_init-Complete default_event_number k f in
              let at : k ≡ nr + 2 = omega (arith, cmds.1) in
              rw (e, f)
                (inl (
                  refl,
                  refl,
                  cmds.0,
                  subst
                      (λ (n : ℕ).
                        Complete default_event_number n (pool_init grants default_event_number k).0)
                      at events.0,
                  omega (arith, at, events.1),
                  rw e at counts,
                ))
          | inr (f, refused) ↦ rw (e, f) (inr (refl, refused, rw e at counts))
        ]
        | inr (e, refused) ↦ rw e (inr (refl, refused, rw e at counts))
      ]

-- ===== src/Events/Abort.antt =====
-- What `vsc_abort_all_event` of vsc_main.c leaves behind.
use vsc.Base.{
  ℕ, zero, suc, ◌+◌, ◌<◌, ◌≤◌, ◌≡◌, ◌⊎◌, inl, inr, refl, List, [], ◌∷◌, true, false, none, some,
  ◌==◌, ==_iff, ==_refl, arith, Bool-cases, List-cases, ap, sym, ◌∙◌, length, count, remove,
  remove_head, count-remove,
}
use vsc.Events.{
  Events, abort, remove_event_q, event_put, event_del, abort_events, abort_all_event, first,
}

-- The two queues, as the loops name them.
abbrev req_of : Events → List ℕ
req_of s = s.event_req_q

abbrev rsp_of : Events → List ℕ
rsp_of s = s.event_rsp_q

remove_le : (i : ℕ) (xs : List ℕ) → length (remove i xs) ≤ length xs
unfolding remove
remove_le i [] = omega arith
remove_le i (x ∷ xs) = ground (arith, remove_le i xs)

-- What one round does to the queues and to the events.
abbrev round : Events → ℕ → Events
round s i = event_del (remove_event_q s i) i

round_lem :
    (s : Events) (i : ℕ)
    → (length (round s i).event_req_q ≤ length (remove i s.event_req_q))
      × (length (round s i).event_rsp_q ≤ length (remove i s.event_rsp_q))
unfolding event_del remove_event_q event_put
round_lem s i =
    ground (arith, remove_le i (remove i s.event_req_q), remove_le i (remove i s.event_rsp_q))

-- A sleeper that has been told stays told, and the event of the round is told.
abbrev Told : Events → ℕ → Type 0
Told s j = ((s.event_pool_tbl j).waiting ≡ true) × ((s.event_pool_tbl j).shot ≡ abort)

now-Told : (s : Events) (i : ℕ) → (s.event_pool_tbl i).waiting ≡ true → Told (round s i) i
unfolding event_del remove_event_q event_put
now-Told s i h = ground (arith, ==_refl i)

still-Told : (s : Events) (i j : ℕ) → Told s j → Told (round s i) j
unfolding event_del remove_event_q event_put
still-Told s i j h = ground (arith, ==_iff i j, h.0, h.1)

waits_still :
    (s : Events) (i j : ℕ)
    → (s.event_pool_tbl j).waiting ≡ true
    → ((round s i).event_pool_tbl j).waiting ≡ true
unfolding event_del remove_event_q event_put
waits_still s i j h = ground (arith, ==_iff i j)

-- Another event stays where it is.
queued_still :
    (s : Events) (i j : ℕ)
    → (i == j) ≡ false
    → (count j (round s i).event_req_q ≡ count j s.event_req_q)
      × (count j (round s i).event_rsp_q ≡ count j s.event_rsp_q)
unfolding event_del remove_event_q event_put
queued_still s i j e = ground (
  arith,
  count-remove i j s.event_req_q,
  count-remove i j s.event_rsp_q,
  count-remove i j (remove i s.event_req_q),
  count-remove i j (remove i s.event_rsp_q),
)

module _ (queue : Events → List ℕ) where
  through-Told : (n : ℕ) (s : Events) (j : ℕ) → Told s j → Told (abort_events queue n s) j
  unfolding abort_events
  through-Told zero s j t = t
  through-Told (suc n) s j t = elim (List-cases (queue s)) [
    | inl e ↦ rw (e, abort_events) t
    | inr (i, is, e) ↦ rw (e, abort_events) (through-Told n (round s i) j (still-Told s i j t))
  ]

-- The facts that the two loops share, for the queue that one of them empties.
module _ (queue : Events → List ℕ)
    (shrinks : (s : Events) (i : ℕ) → length (queue (round s i)) ≤ length (remove i (queue s)))
    (keeps : (s : Events) (i j : ℕ)
      → (i == j) ≡ false
      → count j (queue (round s i)) ≡ count j (queue s)) where
  head_shrinks :
      (s : Events) (i : ℕ) (is : List ℕ) → queue s ≡ i ∷ is → length (queue (round s i)) ≤ length is
  head_shrinks s i is e =
      omega (arith, shrinks s i, ap (λ xs. length (remove i xs)) e, ap length (remove_head i is))

  emptied : (n : ℕ) (s : Events) → length (queue s) ≤ n → queue (abort_events queue n s) ≡ []
  unfolding abort_events
  emptied zero s h = elim (List-cases (queue s)) [
    | inl e ↦ e
    | inr (i, is, e) ↦ absurd (omega (arith, ap length e))
  ]
  emptied (suc n) s h = elim (List-cases (queue s)) [
    | inl e ↦ rw (e, abort_events) e
    | inr (i, is, e) ↦
        rw (e, abort_events)
          (emptied n (round s i) (omega (arith, head_shrinks s i is e, ap length e)))
  ]

  all-Told :
      (n : ℕ) (s : Events) (j : ℕ)
      → length (queue s) ≤ n
      → 0 < count j (queue s)
      → (s.event_pool_tbl j).waiting ≡ true
      → Told (abort_events queue n s) j
  unfolding abort_events
  all-Told zero s j h c w = elim (List-cases (queue s)) [
    | inl e ↦ absurd (omega (arith, ap (count j) e))
    | inr (i, is, e) ↦ absurd (omega (arith, ap length e))
  ]
  all-Told (suc n) s j h c w = elim (List-cases (queue s)) [
    | inl e ↦ absurd (omega (arith, ap (count j) e))
    | inr (i, is, e) ↦
        rw (e, abort_events)
          (elim (Bool-cases (i == j)) [
            | inl same ↦
                through-Told queue n (round s i) j
                  (rw (sym ((==_iff i j).0 same)) (now-Told s i (rw ((==_iff i j).0 same) w)))
            | inr other ↦
                all-Told n (round s i) j (omega (arith, head_shrinks s i is e, ap length e))
                  (rw (keeps s i j other) c) (waits_still s i j w)
          ])
  ]

-- Through the loop over one queue, the other only shrinks, and a sleeper in it stays or is told.
module _ (queue other : Events → List ℕ)
    (shrinks : (s : Events) (i : ℕ) → length (other (round s i)) ≤ length (remove i (other s)))
    (keeps : (s : Events) (i j : ℕ)
      → (i == j) ≡ false
      → count j (other (round s i)) ≡ count j (other s)) where
  other_le : (n : ℕ) (s : Events) → length (other (abort_events queue n s)) ≤ length (other s)
  unfolding abort_events
  other_le zero s = omega arith
  other_le (suc n) s = elim (List-cases (queue s)) [
    | inl e ↦ rw (e, abort_events) (omega arith)
    | inr (i, is, e) ↦
        rw (e, abort_events)
          (omega (arith, other_le n (round s i), shrinks s i, remove_le i (other s)))
  ]

  kept-or-Told :
      (n : ℕ) (s : Events) (j : ℕ)
      → (s.event_pool_tbl j).waiting ≡ true
      → Told (abort_events queue n s) j
        ⊎ ((count j (other (abort_events queue n s)) ≡ count j (other s))
            × (((abort_events queue n s).event_pool_tbl j).waiting ≡ true))
  unfolding abort_events
  kept-or-Told zero s j w = inr (refl, w)
  kept-or-Told (suc n) s j w = elim (List-cases (queue s)) [
    | inl e ↦ rw (e, abort_events) (inr (refl, w))
    | inr (i, is, e) ↦
        rw (e, abort_events)
          (elim (Bool-cases (i == j)) [
            | inl same ↦ inl (
                through-Told queue n (round s i) j
                  (rw (sym ((==_iff i j).0 same)) (now-Told s i (rw ((==_iff i j).0 same) w))))
            | inr apart ↦
                rw (← keeps s i j apart) (kept-or-Told n (round s i) j (waits_still s i j w))
          ])
  ]

req_shrinks :
    (s : Events) (i : ℕ) → length (round s i).event_req_q ≤ length (remove i s.event_req_q)
req_shrinks s i = (round_lem s i).0

rsp_shrinks :
    (s : Events) (i : ℕ) → length (round s i).event_rsp_q ≤ length (remove i s.event_rsp_q)
rsp_shrinks s i = (round_lem s i).1

req_keeps :
    (s : Events) (i j : ℕ)
    → (i == j) ≡ false
    → count j (round s i).event_req_q ≡ count j s.event_req_q
req_keeps s i j e = (queued_still s i j e).0

rsp_keeps :
    (s : Events) (i j : ℕ)
    → (i == j) ≡ false
    → count j (round s i).event_rsp_q ≡ count j s.event_rsp_q
rsp_keeps s i j e = (queued_still s i j e).1

zero_or_more : (n : ℕ) → (n ≡ 0) ⊎ (0 < n)
zero_or_more zero = inl refl
zero_or_more (suc n) = inr (omega arith)

nil_of_length : (xs : List ℕ) → length xs ≤ 0 → xs ≡ []
nil_of_length [] h = refl
nil_of_length (x ∷ xs) h = absurd (omega arith)

-- Aborting all events leaves both event queues empty.
pub abort_all_event_empty :
    (s : Events) → ((abort_all_event s).event_req_q ≡ []) × ((abort_all_event s).event_rsp_q ≡ [])
unfolding abort_all_event
abort_all_event_empty s =
    let t = abort_events req_of (length s.event_req_q) s in
    let none_left = emptied req_of req_shrinks req_keeps (length s.event_req_q) s (omega arith) in
    let le = other_le rsp_of req_of req_shrinks req_keeps (length t.event_rsp_q) t in
    (
      nil_of_length _ (omega (arith, le, ap length none_left)),
      emptied rsp_of rsp_shrinks rsp_keeps (length t.event_rsp_q) t (omega arith),
    )

-- A process that sleeps on an event of the queues is told by it that the event is aborted.
abort_all_event_told :
    (s : Events) (j : ℕ)
    → 0 < count j s.event_req_q + count j s.event_rsp_q
    → (s.event_pool_tbl j).waiting ≡ true
    → ((abort_all_event s).event_pool_tbl j).shot ≡ abort
unfolding abort_all_event
abort_all_event_told s j c w =
    let n = length s.event_req_q in
    let t = abort_events req_of n s in
    let m = length t.event_rsp_q in
    elim (kept-or-Told req_of rsp_of rsp_shrinks rsp_keeps n s j w) [
      | inl k ↦ (through-Told rsp_of m t j k).1
      | inr (same, v) ↦ elim (zero_or_more (count j s.event_req_q)) [
        | inr more ↦
            (through-Told rsp_of m t j
              (all-Told req_of req_shrinks req_keeps n s j (omega arith) more w)).1
        | inl none_there ↦
            (all-Told rsp_of rsp_shrinks rsp_keeps m t j (omega arith) (omega arith) v).1
      ]
    ]

-- The loops over a queue with one event, and over an empty one.
loop_one :
    (queue : Events → List ℕ) (s : Events) (i : ℕ)
    → queue s ≡ i ∷ []
    → abort_events queue (length (queue s)) s ≡ round s i
unfolding abort_events
loop_one queue s i e =
    ap (λ xs. abort_events queue (length xs) s) e
    ∙ ap (λ xs. elim (first xs) [ none ↦ s | some j ↦ round s j ]) e

loop_none :
    (queue : Events → List ℕ) (s : Events)
    → queue s ≡ []
    → abort_events queue (length (queue s)) s ≡ s
unfolding abort_events
loop_none queue s e = rw (e, abort_events) refl

pub abort_all_event_one :
    (s : Events) (i : ℕ)
    → s.event_req_q ≡ i ∷ []
    → s.event_rsp_q ≡ []
    → abort_all_event s ≡ event_del (remove_event_q s i) i
unfolding abort_all_event
abort_all_event_one s i req rsp =
    ap (λ t. abort_events rsp_of (length t.event_rsp_q) t) (loop_one req_of s i req)
    ∙ loop_none rsp_of (round s i) (
        nil_of_length (round s i).event_rsp_q
          (omega (arith, rsp_shrinks s i, remove_le i s.event_rsp_q, ap length rsp)))

-- ===== src/Consumer/Workers/Sound.antt =====
-- The pool never shares a child between two tasks and never exceeds its size.
use xtap_pool.Base.{
  Bool, Bool-cases, List, Option-cases, [], all, all-append, all-filter, arith, eqb, false, filter,
  find, if◌then◌else◌, inl, inr, leb, length, length-append, length-filter-le, length-map, ltb, not,
  refl, some, true, ℕ, ◌+◌, ◌||◌, ◌∙◌, ◌∷◌, ◌≡◌, ◌≤◌,
}
use xtap_pool.Consumer.Workers.{
  Event, Outcome, Running, Slot, Workers, abort_of, close_pool, create, error_of, exit_of,
  fail_child, fork, kill, mark, message_from, reserve, run_task, send_failed, set_busy, step,
  without_child, without_task,
}
use xtap_pool.Consumer.Workers.Slots.{
  all_busy_old, all_busy_safe, distinct, distinct-filter, idle_free, is_free_if_idle, old-set_busy,
  older_running, older_slots, safe-filter, safe-fork, safe-set_busy, safe-take, served,
  served-without_child, unserved_of_old,
}

-- The slots are within the maximum, an idle one has no task, and each task has a child of its own;
-- a fork takes a number that no slot and no task has.
pub record IsSound (w : Workers) : Type 0 where
  pub bounded : length w.slots ≤ w.maximum
  pub old_slots : all (λ (s : Slot). ltb s.child w.next_child) w.slots ≡ true
  pub old_running : all (λ (r : Running). ltb r.worker w.next_child) w.running ≡ true
  pub idle_unserved : all (is_free_if_idle w.running) w.slots ≡ true
  pub one_task_each : distinct w.running ≡ true

-- Fewer listeners.
fewer_running :
    (p : Running → Bool) (w : Workers)
    → IsSound w
    → IsSound (record w { running = filter p w.running })
fewer_running p w h = record {
  bounded = h.bounded;
  old_slots = h.old_slots;
  old_running = all-filter (λ (r : Running). ltb r.worker w.next_child) p w.running h.old_running;
  idle_unserved = safe-filter p w.running w.slots h.idle_unserved;
  one_task_each = distinct-filter p w.running h.one_task_each;
}

fewer_slots :
    (p : Slot → Bool) (w : Workers) → IsSound w → IsSound (record w { slots = filter p w.slots })
fewer_slots p w h = record {
  bounded = omega (arith, length-filter-le p w.slots, h.bounded);
  old_slots = all-filter (λ (s : Slot). ltb s.child w.next_child) p w.slots h.old_slots;
  old_running = h.old_running;
  idle_unserved = all-filter (is_free_if_idle w.running) p w.slots h.idle_unserved;
  one_task_each = h.one_task_each;
}

marked :
    (b : Bool) (c : ℕ) (w : Workers)
    → (b || not (served w.running c)) ≡ true
    → IsSound w
    → IsSound (record w { slots = set_busy b c w.slots })
marked b c w free h = record {
  bounded = rw (length-map w.slots (mark b c)) h.bounded;
  old_slots = old-set_busy b c w.next_child w.slots h.old_slots;
  old_running = h.old_running;
  idle_unserved = safe-set_busy b c w.running w.slots free h.idle_unserved;
  one_task_each = h.one_task_each;
}

kill-IsSound : (c : ℕ) (w : Workers) → IsSound w → IsSound (kill c w)
kill-IsSound c w h =
    let m = marked true c w refl h in
    record {
      bounded = m.bounded;
      old_slots = m.old_slots;
      old_running = m.old_running;
      idle_unserved = m.idle_unserved;
      one_task_each = m.one_task_each;
    }

taken :
    (t : ℕ) (s : Slot) (w : Workers)
    → find (λ (s : Slot). not s.is_busy) w.slots ≡ some s
    → IsSound w
    → IsSound (record w {
      slots = set_busy true s.child w.slots;
      running = record { task = t; worker = s.child } ∷ w.running;
    })
taken t s w found h =
    let (free, old) =
      idle_free w.running w.slots w.next_child s found h.old_slots h.idle_unserved in
    let r : Running = record { task = t; worker = s.child } in
    record {
      bounded = rw (length-map w.slots (mark true s.child)) h.bounded;
      old_slots = old-set_busy true s.child w.next_child w.slots h.old_slots;
      old_running = rw (old, h.old_running);
      idle_unserved = safe-take r w.running w.slots h.idle_unserved;
      one_task_each = rw (free, h.one_task_each);
    }

forked :
    (t : ℕ) (w : Workers) → leb w.maximum (length w.slots) ≡ false → IsSound w → IsSound (fork t w)
forked t w room h =
    let r : Running = record { task = t; worker = w.next_child } in
    let new : Slot = record { child = w.next_child; is_busy = true } in
    let fits : ltb w.next_child (w.next_child + 1) ≡ true = ground arith in
    record {
      bounded = ground (arith, length-append w.slots (new ∷ []));
      old_slots =
          all-append (λ (s : Slot). ltb s.child (w.next_child + 1)) w.slots (new ∷ [])
          ∙ rw (older_slots w.next_child w.slots h.old_slots, fits);
      old_running = rw (fits, older_running w.next_child w.running h.old_running);
      idle_unserved = safe-fork r w.running w.slots h.old_slots h.idle_unserved;
      one_task_each = rw (unserved_of_old w.next_child w.running h.old_running, h.one_task_each);
    }

reserve-IsSound : (t : ℕ) (w : Workers) → IsSound w → IsSound (reserve t w).0
unfolding reserve
reserve-IsSound t w h = elim (Option-cases (find (λ (s : Slot). not s.is_busy) w.slots)) [
  | inr (s, found) ↦ rw (found, reserve) (taken t s w found h)
  | inl full ↦ elim (Bool-cases (leb w.maximum (length w.slots))) [
    | inl no_room ↦ rw (full, no_room, reserve) h
    | inr room ↦ rw (full, room, reserve) (forked t w room h)
  ]
]

fail_child-IsSound : (c : ℕ) (w : Workers) → IsSound w → IsSound (fail_child c w).0
unfolding fail_child
fail_child-IsSound c w h = elim (Option-cases (find (λ (r : Running). eqb r.worker c) w.running)) [
  | inl e ↦ rw (e, fail_child) h
  | inr (r, e) ↦
      rw (e, fail_child)
        (kill-IsSound c (record w { running = without_child c w.running })
          (fewer_running (λ (r : Running). not (eqb r.worker c)) w h))
]

answered :
    (c : ℕ) (w : Workers)
    → IsSound w
    → IsSound (record w { slots = set_busy false c w.slots; running = without_child c w.running })
answered c w h =
    marked false c (record w { running = without_child c w.running })
      (rw (served-without_child c w.running))
      (fewer_running (λ (r : Running). not (eqb r.worker c)) w h)

closing : (w : Workers) → IsSound w → IsSound (step w close_pool).0
unfolding step
closing w h = record {
  bounded = rw (length-map w.slots (λ (s : Slot). record s { is_busy = true })) h.bounded;
  old_slots = all_busy_old w.next_child w.slots h.old_slots;
  old_running = h.old_running;
  idle_unserved = all_busy_safe w.running w.slots;
  one_task_each = h.one_task_each;
}

stopped_task :
    (t c : ℕ) (w : Workers)
    → IsSound w
    → IsSound (kill c (record w { running = without_task t w.running }))
stopped_task t c w h =
    kill-IsSound c (record w { running = without_task t w.running })
      (fewer_running (λ (r : Running). not (eqb r.task t)) w h)

unless {ℓ m} :
    {A : Type ℓ} (P : A → Type m) (b : Bool) {x y : A} → P x → P y → P (if b then x else y)
unless P true h k = h
unless P false h k = k

-- One event keeps the pool sound.
step-IsSound : (w : Workers) (e : Event) → IsSound w → IsSound (step w e).0
unfolding step
step-IsSound w (run_task t true) h = h
step-IsSound w (run_task t false) h =
    unless (λ (r : Workers × List (ℕ × Outcome)). IsSound r.0) w.closed h (reserve-IsSound t w h)
step-IsSound w (message_from c m) h =
    elim (Option-cases (find (λ (r : Running). eqb r.worker c) w.running)) [
      | inl e ↦ rw (e, step) h
      | inr (r, e) ↦ rw (e, step) (answered c w h)
    ]
step-IsSound w (exit_of c) h =
    let p = λ (s : Slot). not (eqb s.child c) in
    fail_child-IsSound c (record w { slots = filter p w.slots }) (fewer_slots p w h)
step-IsSound w (error_of c) h = fail_child-IsSound c w h
step-IsSound w (abort_of t) h =
    elim (Option-cases (find (λ (r : Running). eqb r.task t) w.running)) [
      | inl e ↦ rw (e, step) h
      | inr (r, e) ↦ rw (e, step) (stopped_task t r.worker w h)
    ]
step-IsSound w (send_failed sent) h =
    elim (Option-cases (find (λ (r : Running). eqb r.task sent.task) w.running)) [
      | inl e ↦ rw (e, step) (kill-IsSound sent.worker w h)
      | inr (r, e) ↦ rw (e, step) (stopped_task sent.task sent.worker w h)
    ]
step-IsSound w close_pool h = closing w h

-- The pool after a sequence of events.
abbrev pub after : List Event → Workers → Workers
after [] w = w
after (e ∷ es) w = after es (step w e).0

after-IsSound : (es : List Event) (w : Workers) → IsSound w → IsSound (after es w)
after-IsSound [] w h = h
after-IsSound (e ∷ es) w h = after-IsSound es (step w e).0 (step-IsSound w e h)

-- After any sequence of calls and of events of the children, the signals and the channel, a pool has
-- at most its maximum of slots, no idle slot has a task that waits for it, and no two tasks wait for
-- one child.
pub workers-IsSound : (maximum : ℕ) (es : List Event) → IsSound (after es (create maximum))
workers-IsSound maximum es = after-IsSound es (create maximum) (record {
  bounded = omega arith;
  old_slots = refl;
  old_running = refl;
  idle_unserved = refl;
  one_task_each = refl;
})

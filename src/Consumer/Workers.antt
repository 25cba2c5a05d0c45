-- ===== src/Consumer/Workers.antt =====
-- `ConsumerWorkers` in space/src/consumer-workers.ts: a fixed pool of child processes. The listeners
-- that `run` adds are the entries of `running`; an event reaches a task only through them. Children
-- and tasks are numbers: a fork takes the next number, and a task's number names one call of `run`.
pub mod Slots
pub mod Sound
use xtap_pool.Base.{
  Bool, List, Text, [], eqb, false, filter, find, if◌then◌else◌, leb, length, lit, map, none, not,
  some, true, ℕ, ◌++◌, ◌+◌, ◌∷◌,
}
use xtap_pool.Consumer.Errors.{HttpError, consumer_error, http, invalid_shape}

pub record Slot : Type 0 where
  pub child : ℕ
  pub is_busy : Bool

pub record Running : Type 0 where
  pub task : ℕ
  pub worker : ℕ

pub record Workers : Type 0 where
  pub maximum : ℕ
  pub slots : List Slot
  pub closed : Bool
  pub next_child : ℕ
  pub running : List Running
  -- The children that were sent SIGKILL.
  pub killed : List ℕ

-- A message of a child: a result, a failure of the task, or neither shape.
pub data Message : Type 0 where
  result : ℕ → Message
  failure : HttpError → Message
  malformed : Message

pub data Outcome : Type 0 where
  resolved : ℕ → Outcome
  rejected : HttpError → Outcome
  timed_out : Outcome

-- What happens to the pool: calls of its methods, and events of the children, the signals and the
-- channel.
pub data Event : Type 0 where
  run_task : ℕ → Bool → Event
  message_from : ℕ → Message → Event
  exit_of error_of abort_of : ℕ → Event
  send_failed : Running → Event
  close_pool : Event

abbrev unavailable : Text → Outcome
unavailable m =
    rejected
      (record { status = 503; code = lit "worker_unavailable"; message = m; recovery = none })

abbrev pub stopped : Outcome
stopped = unavailable (lit "The consumer worker stopped. Retry the same cursor.")

abbrev pub pool_closed : Outcome
pool_closed = unavailable (lit "Consumer workers are closed.")

abbrev pub capacity_full : Outcome
capacity_full = rejected (record {
  status = 429;
  code = lit "consumer_busy";
  message = lit "Consumer read capacity is full. Retry the same cursor.";
  recovery = none;
})

unfoldable pub outcome_of : Message → Outcome
unfolding consumer_error
outcome_of (result r) = resolved r
outcome_of (failure e) = rejected (consumer_error (http e))
outcome_of malformed = rejected (consumer_error invalid_shape)

-- The constructor, whose parse of `maximum` is the caller's `1 ≤ maximum ≤ 2`.
abbrev pub create : ℕ → Workers
create maximum = record {
  maximum = maximum;
  slots = [];
  closed = false;
  next_child = 0;
  running = [];
  killed = [];
}

abbrev pub mark : Bool → ℕ → Slot → Slot
mark b c s = if eqb s.child c then record s { is_busy = b } else s

-- The flag of one child's slot.
abbrev pub set_busy : Bool → ℕ → List Slot → List Slot
set_busy b c = map (mark b c)

abbrev pub without_child : ℕ → List Running → List Running
without_child c = filter (λ (r : Running). not (eqb r.worker c))

abbrev pub without_task : ℕ → List Running → List Running
without_task t = filter (λ (r : Running). not (eqb r.task t))

-- `kill`.
abbrev pub kill : ℕ → Workers → Workers
kill c w = record w { slots = set_busy true c w.slots; killed = c ∷ w.killed }

abbrev pub fork : ℕ → Workers → Workers
fork t w = record w {
  slots = w.slots ++ record { child = w.next_child; is_busy = true } ∷ [];
  next_child = w.next_child + 1;
  running = record { task = t; worker = w.next_child } ∷ w.running;
}

-- `reserve` and the listeners of `run`.
unfoldable pub reserve : ℕ → Workers → Workers × List (ℕ × Outcome)
reserve t w = elim (find (λ (s : Slot). not s.is_busy) w.slots) [
  | some idle ↦ (
    record w {
      slots = set_busy true idle.child w.slots;
      running = record { task = t; worker = idle.child } ∷ w.running;
    },
    [],
  )
  | none ↦ if leb w.maximum (length w.slots) then (w, (t, capacity_full) ∷ []) else (fork t w, [])
]

-- `fail` of the task that listens to a child, if one does.
unfoldable pub fail_child : ℕ → Workers → Workers × List (ℕ × Outcome)
fail_child c w = elim (find (λ (r : Running). eqb r.worker c) w.running) [
  | none ↦ (w, [])
  | some r ↦ (kill c (record w { running = without_child c w.running }), (r.task, stopped) ∷ [])
]

-- One event, and the tasks that it settles.
unfoldable pub step : Workers → Event → Workers × List (ℕ × Outcome)
step w (run_task t aborted) =
    if aborted
    then (w, (t, timed_out) ∷ [])
    else if w.closed
    then (w, (t, pool_closed) ∷ [])
    else reserve t w
step w (message_from c m) = elim (find (λ (r : Running). eqb r.worker c) w.running) [
  | none ↦ (w, [])
  | some r ↦ (
    record w { slots = set_busy false c w.slots; running = without_child c w.running },
    (r.task, outcome_of m) ∷ [],
  )
]
step w (exit_of c) =
    fail_child c (record w { slots = filter (λ (s : Slot). not (eqb s.child c)) w.slots })
step w (error_of c) = fail_child c w
step w (abort_of t) = elim (find (λ (r : Running). eqb r.task t) w.running) [
  | none ↦ (w, [])
  | some r ↦ (kill r.worker (record w { running = without_task t w.running }), (t, timed_out) ∷ [])
]
step w (send_failed sent) = elim (find (λ (r : Running). eqb r.task sent.task) w.running) [
  | none ↦ (kill sent.worker w, [])
  | some r ↦ (
    kill sent.worker (record w { running = without_task sent.task w.running }),
    (sent.task, stopped) ∷ [],
  )
]
step w close_pool = (
  record w {
    closed = true;
    slots = map (λ (s : Slot). record s { is_busy = true }) w.slots;
    killed = map (λ (s : Slot). s.child) w.slots ++ w.killed;
  },
  [],
)

-- ===== src/EventDriver.antt =====
-- wavelet/src/runtime/event_driver.rs: notifications, yields, timers and I/O, polled in this order.
-- The queue of notifications is shared by all notifiers; a driver holds the one queue.
pub mod Timer
pub mod Yield
pub mod Io
pub mod Polling
pub mod Sources
pub mod Reads
pub mod Served
pub mod Waiting
pub mod Registration
use wavelet_rs.Prelude.{
  ℕ, zero, suc, ◌-◌, ◌*◌, Bool, true, false, not, ◌&&◌, ◌||◌, Option, none, some, min, max, ◌==◌,
  if◌then◌else◌, Call, ret, panic, ◌>>=◌, Result, ok, err, List, [], ◌∷◌,
}
use wavelet_rs.Control.{Relationship}
use wavelet_rs.StableGraph.{StableGraph}
use wavelet_rs.Graph.{NodeContext}
use wavelet_rs.Scheduler.{has_pending_event}
use wavelet_rs.Scheduling.{Sched, must_schedule}
use wavelet_rs.ArrayQueue.{ArrayQueue}
use wavelet_rs.Mio.{Mio}
use wavelet_rs.Slab.{Slab}
use wavelet_rs.Clock.{Clock, CycleTime, now}
use Timer.{TimerDriver, next_timer}
use Yield.{YieldDriver}
use Io.{IoDriver}

-- One millisecond.
abbrev pub minimum_timer_precision : ℕ
minimum_timer_precision = 1_000_000

pub data ExecutionMode : Type 0 where
  spin park : ExecutionMode

abbrev pub is_park : ExecutionMode → Bool
is_park ExecutionMode.spin = false
is_park ExecutionMode.park = true

pub record EventDriverConfig : Type 0 where
  pub io_enabled : Bool
  pub timer_enabled : Bool
  pub notification_capacity : ℕ
  pub io_capacity : ℕ
  pub poll_limit : ℕ

-- The defaults of the builder.
unfoldable pub default_config : EventDriverConfig
default_config = record {
  io_enabled = true;
  timer_enabled = true;
  notification_capacity = 256;
  io_capacity = 1024;
  poll_limit = 16;
}

-- How long the poll of the I/O driver may block.
unfoldable pub effective_timeout : Option TimerDriver → Option ℕ → ℕ → Option ℕ
effective_timeout none timeout t_now = timeout
effective_timeout (some timer) none t_now = elim (next_timer timer) [
  | none ↦ none
  | some deadline ↦ some (deadline - t_now)
]
effective_timeout (some timer) (some t) t_now = elim (next_timer timer) [
  | none ↦ some t
  | some deadline ↦ some (max (min t (deadline - t_now)) minimum_timer_precision)
]

abbrev pub is_zero_timeout : Option ℕ → Bool
is_zero_timeout none = false
is_zero_timeout (some t) = t == 0

module _ (M : Mio) (L : Slab ℕ) (Q : ArrayQueue ℕ) where
  pub record EventDriver : Type 0 where
    pub io_driver : Option (IoDriver M L)
    pub timer_driver : Option TimerDriver
    pub yield_driver : YieldDriver
    pub notifications : Q.Carrier
    pub poll_limit : ℕ
    pub mode : ExecutionMode

  unfoldable pub with_config : EventDriverConfig → ExecutionMode → EventDriver
  with_config cfg mode = record {
    io_driver = if cfg.io_enabled then some (Io.with_capacity M L cfg.io_capacity) else none;
    timer_driver = if cfg.timer_enabled then some Timer.new else none;
    yield_driver = Yield.new;
    notifications = Q.new cfg.notification_capacity;
    poll_limit = cfg.poll_limit;
    mode = mode;
  }

  unfoldable pub new : ExecutionMode → EventDriver
  unfolding with_config default_config
  new mode = with_config default_config mode

  -- A handle to the driver's queue, and to the waker where there is an I/O driver.
  pub record Notifier : Type 0 where
    pub has_waker : Bool
    pub node_index : ℕ

  unfoldable pub register_notifier : EventDriver → ℕ → Notifier
  register_notifier d node_index = record {
    has_waker = elim d.io_driver [ none ↦ false | some io ↦ true ];
    node_index = node_index;
  }

  abbrev or_held : Q.Carrier → Result Q.Carrier ℕ → Q.Carrier
  or_held q (ok r) = r
  or_held q (err i) = q

  abbrev woken : Bool → Option (IoDriver M L) → Option (IoDriver M L)
  woken false io = io
  woken true none = none
  woken true (some io) = some (record io { poller = M.wake io.poller })

  -- `push(..).ok()`: at a full queue the notification is lost, and the waker is called all the same.
  unfoldable pub notify : Notifier → EventDriver → EventDriver
  notify n d = record d {
    notifications = or_held d.notifications (Q.push d.notifications n.node_index);
    io_driver = woken n.has_waker d.io_driver;
  }

  module _ {F : Type 0} (P : StableGraph (NodeContext F) Relationship) where
    -- At most `poll_limit` notifications are taken in one poll.
    unfoldable pub poll_notifications : ℕ → ℕ → Q.Carrier → Sched P → Call (Q.Carrier × Sched P)
    poll_notifications epoch zero q st = ret (q, st)
    poll_notifications epoch (suc n) q st =
        let (item, q') = Q.pop q in
        elim item [
          | none ↦ ret (q', st)
          | some i ↦ must_schedule P epoch i st >>= poll_notifications epoch n q'
        ]

    poll_timer_driver : Option TimerDriver → Sched P → ℕ → ℕ → Call (Option TimerDriver × Sched P)
    poll_timer_driver none st t_now epoch = ret (none, st)
    poll_timer_driver (some d) st t_now epoch =
        Timer.poll P d st t_now epoch >>= λ (d', st'). ret (some d', st')

    -- What `poll` leaves beside its result: the driver, the graph and the scheduler, the clock.
    module _ {T C : Type 0} (clock : Clock T C) where
      abbrev pub Polled : Type 0
      Polled = Result (CycleTime T) M.IoError × (EventDriver × Sched P × C)

      unfoldable pub fast_poll : EventDriver → Sched P → C → CycleTime T → ℕ → Call Polled
      fast_poll d st c cycle_time epoch = elim d.io_driver [
        | none ↦ ret (ok cycle_time, (d, st, c))
        | some io ↦ Io.poll M L P io st (some 0) epoch >>= λ (answer, (io', st')).
            let d' : EventDriver = record d { io_driver = some io' } in
            elim answer [
              | err e ↦ ret (err e, (d', st', c))
              | ok _ ↦ ret (ok cycle_time, (d', st', c))
            ]
      ]

      -- A parked driver that may have blocked reads the clock again.
      unfoldable pub slow_poll :
          EventDriver → Sched P → C → CycleTime T → Option ℕ → ℕ → Call Polled
      slow_poll d st c cycle_time timeout epoch =
          let wait = effective_timeout d.timer_driver timeout (now cycle_time) in
          elim d.io_driver [
            | none ↦ ret (ok cycle_time, (d, st, c))
            | some io ↦ Io.poll M L P io st wait epoch >>= λ (answer, (io', st')).
                let d' : EventDriver = record d { io_driver = some io' } in
                elim answer [
                  | err e ↦ ret (err e, (d', st', c))
                  | ok _ ↦
                      if is_park d.mode && not (is_zero_timeout wait)
                      then ret (ok (clock c).0, (d', st', (clock c).1))
                      else ret (ok cycle_time, (d', st', c))
                ]
          ]

      unfoldable pub poll : EventDriver → Sched P → C → Option ℕ → ℕ → Call Polled
      unfolding poll_timer_driver
      poll d st c timeout epoch =
          poll_notifications epoch d.poll_limit d.notifications st >>= λ (q, st₁).
          let (cycle_time, c') = clock c in
          Yield.poll P d.yield_driver st₁ epoch >>= λ (y, st₂).
          poll_timer_driver d.timer_driver st₂ (now cycle_time) epoch >>= λ (t, st₃).
          let d' : EventDriver = record d {
            notifications = q;
            yield_driver = y;
            timer_driver = t;
          } in
          if has_pending_event st₃.1 || is_zero_timeout timeout
          then fast_poll d' st₃ c' cycle_time epoch
          else slow_poll d' st₃ c' cycle_time timeout epoch

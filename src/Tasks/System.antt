-- ===== src/Tasks/System.antt =====
-- The threads of a TaskThread and those that call it, in any interleaving: each step is a stretch
-- of one thread with the mutex held, or what the condition variable does.
use tcp_epoll.Prelude.{ℕ, suc, ◌<◌, ◌≡◌, ◌≢◌, List, [], ◌∷◌, ◌++◌, ◌==◌, if◌then◌else◌}
use tcp_epoll.Timer.{TimeVal, Timer}
use tcp_epoll.Tasks.{
  CallBackStruct, ThreadQueue, WorkerAt, at_head, asleep, awake, in_timer, in_task, finished, Times,
  TimeSpec, new_threads, post_task, post_front_task, set_timer, kill_timer, notify_exit, resume,
}

-- The shared state, and where the workers are, of which there are `thread_number`. `signals` and
-- `broadcasts` are the calls of pthread_cond_signal and pthread_cond_broadcast that are still to
-- come: the callers make them after they have released the mutex. The other fields record what has
-- been asked for and what has been done.
pub record System : Type 0 where
  pub m_queues : ThreadQueue
  pub thread_number : ℕ
  pub workers : ℕ → WorkerAt
  pub signals : ℕ
  pub broadcasts : ℕ
  -- The tasks, in the order of the calls that posted them, and how many came by post_front_task.
  pub posted : List CallBackStruct
  pub fronts : ℕ
  -- The tasks and the timers whose callbacks have been called, in order.
  pub started : List CallBackStruct
  pub fired : List Timer

-- After TaskThread::begin has started its threads.
abbrev pub begun : ℕ → System
begun thread_number = record {
  m_queues = new_threads;
  thread_number = thread_number;
  workers = λ i. at_head;
  signals = 0;
  broadcasts = 0;
  posted = [];
  fronts = 0;
  started = [];
  fired = [];
}

-- The worker `i` moves.
unfoldable pub move : ℕ → WorkerAt → (ℕ → WorkerAt) → ℕ → WorkerAt
move i w workers j = if j == i then w else workers j

-- What the callback of a task or of a timer adds to the record.
abbrev pub begins : WorkerAt → List CallBackStruct
begins at_head = []
begins (asleep d) = []
begins awake = []
begins (in_timer t) = []
begins (in_task task) = task ∷ []
begins finished = []

abbrev pub fires : WorkerAt → List Timer
fires at_head = []
fires (asleep d) = []
fires awake = []
fires (in_timer t) = t ∷ []
fires (in_task task) = []
fires finished = []

-- A worker that can run: it is neither in pthread_cond_timedwait nor at its end.
abbrev pub CanRun : WorkerAt → Type 0
CanRun at_head = Unit
CanRun (asleep d) = ⊥
CanRun awake = Unit
CanRun (in_timer t) = Unit
CanRun (in_task task) = Unit
CanRun finished = ⊥

unfoldable pub run_worker : ℕ → Times → System → System
run_worker i c s =
    let r = resume c (s.workers i) s.m_queues in
    record s {
      m_queues = r.1;
      workers = move i r.0 s.workers;
      started = s.started ++ begins r.0;
      fired = s.fired ++ fires r.0;
    }

pub data Step (s t : System) : Type 0 where
  posts :
      (task : CallBackStruct)
      → t ≡ record s {
        m_queues = post_task task s.m_queues;
        posted = s.posted ++ task ∷ [];
        signals = suc s.signals;
      }
      → Step s t
  posts_front :
      (task : CallBackStruct)
      → t ≡ record s {
        m_queues = post_front_task task s.m_queues;
        posted = s.posted ++ task ∷ [];
        fronts = suc s.fronts;
        signals = suc s.signals;
      }
      → Step s t
  sets :
      (id elapse on_timer arg : ℕ) (now : TimeVal)
      → t ≡ record s {
        m_queues = set_timer id elapse on_timer arg now s.m_queues;
        signals = suc s.signals;
      }
      → Step s t
  kills : (id : ℕ) → t ≡ record s { m_queues = kill_timer id s.m_queues } → Step s t
  exits :
      t ≡ record s { m_queues = notify_exit s.m_queues; broadcasts = suc s.broadcasts } → Step s t
  -- A signal wakes a worker that sleeps, or there is none.
  signal_wakes :
      (n i : ℕ) (d : TimeSpec)
      → s.signals ≡ suc n
      → i < s.thread_number
      → s.workers i ≡ asleep d
      → t ≡ record s { signals = n; workers = move i awake s.workers }
      → Step s t
  signal_lost :
      (n : ℕ)
      → s.signals ≡ suc n
      → ((i : ℕ) (d : TimeSpec) → i < s.thread_number → s.workers i ≢ asleep d)
      → t ≡ record s { signals = n }
      → Step s t
  -- A broadcast wakes all that sleep.
  broadcast :
      (n : ℕ)
      → s.broadcasts ≡ suc n
      → t ≡ record s {
        broadcasts = n;
        workers = λ i. elim (s.workers i) [
          | at_head ↦ at_head
          | asleep d ↦ awake
          | awake ↦ awake
          | in_timer u ↦ in_timer u
          | in_task task ↦ in_task task
          | finished ↦ finished
        ];
      }
      → Step s t
  -- The wait ends with its time, or for no reason.
  wakes :
      (i : ℕ) (d : TimeSpec)
      → i < s.thread_number
      → s.workers i ≡ asleep d
      → t ≡ record s { workers = move i awake s.workers }
      → Step s t
  -- A worker runs; from a callback, when that has returned.
  runs :
      (i : ℕ) (c : Times)
      → i < s.thread_number
      → CanRun (s.workers i)
      → t ≡ run_worker i c s
      → Step s t

pub data Steps (s : System) : System → Type 0 where
  done : Steps s s
  then : {t u : System} → Steps s t → Step t u → Steps s u

-- ===== src/Tasks.antt =====
-- The task threads of the samples: samples/samples-client/include/task-queue.h, thread-queue.h and
-- task-thread.cpp, of which the other two samples keep the same copies. A worker runs from one
-- release of the mutex to the next without another thread in between: such a stretch is a
-- function here, and the callbacks run between two of them.
pub mod Deadline
pub mod System
pub mod Order
pub mod Exit
pub mod Wake
pub mod Pool
mod Tests
use tcp_epoll.Prelude.{
  ℕ, ◌+◌, ◌*◌, ◌/◌, ◌%◌, ◌^◌, List, [], ◌∷◌, ◌++◌, Option, none, some, Bool, true, false, length,
  if◌then◌else◌,
}
use tcp_epoll.Timer.{TimeVal, Timer, TimerQueue, new_queue, peek, get_wait_time}
use tcp_epoll.Timer as Timers

-- A callback is the number of a function.
pub record CallBackStruct : Type 0 where
  pub callback_func : ℕ
  pub arg : ℕ

-- TaskQueue::m_tasks
abbrev pub TaskQueue : Type 0
TaskQueue = List CallBackStruct

abbrev pub push : CallBackStruct → TaskQueue → TaskQueue
push task q = q ++ task ∷ []

abbrev pub push_front : CallBackStruct → TaskQueue → TaskQueue
push_front task q = task ∷ q

abbrev pub pop : TaskQueue → Option CallBackStruct × TaskQueue
pop [] = (none, [])
pop (task ∷ q) = (some task, q)

abbrev pub empty : TaskQueue → Bool
empty [] = true
empty (task ∷ q) = false

pub record ThreadQueue : Type 0 where
  pub m_task_queue : TaskQueue
  pub m_timer_queue : TimerQueue
  pub m_exit_flag : Bool

abbrev pub new_threads : ThreadQueue
new_threads = record { m_task_queue = []; m_timer_queue = new_queue; m_exit_flag = false }

-- What the callers do while they hold the mutex. All but task_count and kill_timer signal the
-- condition variable after that.
unfoldable pub post_task : CallBackStruct → ThreadQueue → ThreadQueue
post_task task q = record q { m_task_queue = push task q.m_task_queue }

unfoldable pub post_front_task : CallBackStruct → ThreadQueue → ThreadQueue
post_front_task task q = record q { m_task_queue = push_front task q.m_task_queue }

unfoldable pub task_count : ThreadQueue → ℕ
task_count q = length q.m_task_queue

unfoldable pub set_timer : ℕ → ℕ → ℕ → ℕ → TimeVal → ThreadQueue → ThreadQueue
set_timer id elapse on_timer arg now q = record q {
  m_timer_queue = Timers.set_timer id elapse on_timer arg now q.m_timer_queue;
}

unfoldable pub kill_timer : ℕ → ThreadQueue → ThreadQueue
kill_timer id q = record q { m_timer_queue = Timers.kill_timer id q.m_timer_queue }

unfoldable pub notify_exit : ThreadQueue → ThreadQueue
notify_exit q = record q { m_exit_flag = true }

-- struct timespec
pub record TimeSpec : Type 0 where
  pub tv_sec : ℕ
  pub tv_nsec : ℕ

-- `st_tmout`, until which a worker waits for `t_wait` milliseconds from `st_now`.
unfoldable pub deadline : TimeVal → ℕ → TimeSpec
deadline st_now t_wait =
    let ul_nsec = ((st_now.tv_usec + t_wait % 1000 * 1000) * 1000) % 2 ^ 64 in
    record {
      tv_nsec = ul_nsec % 1_000_000_000;
      tv_sec = (st_now.tv_sec + ul_nsec / 1_000_000_000 + t_wait / 1000) % 2 ^ 64;
    }

-- Where a worker is while it does not hold the mutex.
pub data WorkerAt : Type 0 where
  -- Before `while( !m_exit_flag )`.
  at_head : WorkerAt
  -- In pthread_cond_timedwait.
  asleep : TimeSpec → WorkerAt
  -- Out of it, and about to take the mutex again.
  awake : WorkerAt
  -- In the callback of a timer, or of a task.
  in_timer : Timer → WorkerAt
  in_task : CallBackStruct → WorkerAt
  finished : WorkerAt

-- The times that a stretch reads: for `st_now`, in get_wait_time, and in peek.
pub record Times : Type 0 where
  pub st_now : TimeVal
  pub at_wait : TimeVal
  pub at_peek : TimeVal

-- `pthread_cond_timedwait`
abbrev pub sleep : Times → ThreadQueue → WorkerAt
sleep c q = asleep (deadline c.st_now (get_wait_time c.at_wait q.m_timer_queue))

-- do_one_task, and the loop up to where the mutex is released.
unfoldable pub from_task : Times → ThreadQueue → WorkerAt × ThreadQueue
from_task c q =
    if q.m_exit_flag
    then (finished, q)
    else let (popped, rest) = pop q.m_task_queue in
      elim popped [
        | some task ↦ (in_task task, record q { m_task_queue = rest })
        -- The queue is empty, and the flag still unset.
        | none ↦ (sleep c q, q)
      ]

-- do_one_timer, and on from it.
unfoldable pub from_timer : Times → ThreadQueue → WorkerAt × ThreadQueue
from_timer c q =
    if q.m_exit_flag
    then (finished, q)
    else let (fired, rest) = peek c.at_peek q.m_timer_queue in
      elim fired [
        | some t ↦ (in_timer t, record q { m_timer_queue = rest })
        | none ↦ from_task c (record q { m_timer_queue = rest })
      ]

-- The head of the loop, and on from it.
unfoldable pub from_head : Times → ThreadQueue → WorkerAt × ThreadQueue
from_head c q =
    if q.m_exit_flag
    then (finished, q)
    else if empty q.m_task_queue
    then (sleep c q, q)
    else from_timer c q

-- What a worker does when it gets the mutex, up to where it releases it.
unfoldable pub resume : Times → WorkerAt → ThreadQueue → WorkerAt × ThreadQueue
resume c at_head q = from_head c q
resume c (asleep d) q = (asleep d, q)
resume c awake q = from_timer c q
resume c (in_timer t) q = from_task c q
resume c (in_task task) q = from_head c q
resume c finished q = (finished, q)

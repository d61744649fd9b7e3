-- ===== src/Tasks/Wake.antt =====
-- Sleeping workers and the condition variable of samples/samples-client/include/thread-queue.h.
use tcp_epoll.Prelude.{ℕ, ◌<◌, ◌≡◌, ◌≢◌, ◌⊎◌, refl, ◌∙◌, ap, [], true, inl, inr, arith}
use tcp_epoll.Timer.{peek}
use tcp_epoll.Tasks.{
  ThreadQueue, WorkerAt, at_head, asleep, awake, in_timer, in_task, finished, Times, TimeSpec,
  post_task, post_front_task, set_timer, kill_timer, notify_exit, resume, from_head, from_timer,
  from_task,
}
use tcp_epoll.Tasks.Exit.{resume-exit}
use tcp_epoll.Tasks.System.{
  System, Step, Steps, begun, run_worker, done, posts, posts_front, sets, kills, exits,
  signal_wakes, signal_lost, broadcast, wakes, runs, move, CanRun,
}

-- A worker goes to sleep when it has found the queue empty; it ends when the flag is set.
Left : WorkerAt → ThreadQueue → Type 0
Left w q = CanRun w ⊎ (q.m_task_queue ≡ []) ⊎ (q.m_exit_flag ≡ true)

from_task-Left : (c : Times) (q : ThreadQueue) → Left (from_task c q).0 (from_task c q).1
unfolding Left from_task
from_task-Left c q = ground arith

from_timer-Left : (c : Times) (q : ThreadQueue) → Left (from_timer c q).0 (from_timer c q).1
unfolding Left from_timer
from_timer-Left c q =
    ground
      (arith, from_task-Left c (record q { m_timer_queue = (peek c.at_peek q.m_timer_queue).1 }))

from_head-Left : (c : Times) (q : ThreadQueue) → Left (from_head c q).0 (from_head c q).1
unfolding Left from_head
from_head-Left c q = ground (arith, from_timer-Left c q)

resume-Left :
    (c : Times) (w : WorkerAt) (q : ThreadQueue) → CanRun w → Left (resume c w q).0 (resume c w q).1
unfolding resume
resume-Left c at_head q r = from_head-Left c q
resume-Left c (asleep d) q r = absurd r
resume-Left c awake q r = from_timer-Left c q
resume-Left c (in_timer t) q r = from_task-Left c q
resume-Left c (in_task t) q r = from_head-Left c q
resume-Left c finished q r = absurd r

-- A worker that has ended has found the flag set.
Ended : WorkerAt → ThreadQueue → Type 0
Ended w q = (w ≢ finished) ⊎ (q.m_exit_flag ≡ true)

from_task-Ended : (c : Times) (q : ThreadQueue) → Ended (from_task c q).0 (from_task c q).1
unfolding Ended from_task
from_task-Ended c q = ground arith

from_timer-Ended : (c : Times) (q : ThreadQueue) → Ended (from_timer c q).0 (from_timer c q).1
unfolding Ended from_timer
from_timer-Ended c q =
    ground
      (arith, from_task-Ended c (record q { m_timer_queue = (peek c.at_peek q.m_timer_queue).1 }))

from_head-Ended : (c : Times) (q : ThreadQueue) → Ended (from_head c q).0 (from_head c q).1
unfolding Ended from_head
from_head-Ended c q = ground (arith, from_timer-Ended c q)

resume-Ended :
    (c : Times) (w : WorkerAt) (q : ThreadQueue)
    → CanRun w
    → Ended (resume c w q).0 (resume c w q).1
unfolding resume
resume-Ended c at_head q r = from_head-Ended c q
resume-Ended c (asleep d) q r = absurd r
resume-Ended c awake q r = from_timer-Ended c q
resume-Ended c (in_timer t) q r = from_task-Ended c q
resume-Ended c (in_task t) q r = from_head-Ended c q
resume-Ended c finished q r = absurd r

-- The flag stays set.
resume-exit_flag :
    (c : Times) (w : WorkerAt) (q : ThreadQueue)
    → CanRun w
    → q.m_exit_flag ≡ true
    → (resume c w q).1.m_exit_flag ≡ true
resume-exit_flag c w q r e = ap (λ p. p.1.m_exit_flag) (resume-exit c w q e r) ∙ e

-- No task waits, or the flag is set, or a signal is to come, or a worker can run.
Tended : System → Type 0
Tended s =
    (s.m_queues.m_task_queue ≡ [])
    ⊎ (s.m_queues.m_exit_flag ≡ true)
    ⊎ (s.signals ≢ 0)
    ⊎ ((i : ℕ) × ((i < s.thread_number) × CanRun (s.workers i)))

record Watched (s : System) : Type 0 where
  some_worker : 0 < s.thread_number
  ended : (i : ℕ) → Ended (s.workers i) s.m_queues
  tended : Tended s

-- A worker has been moved to where it can run.
move-Watched :
    (s : System) (i n : ℕ)
    → i < s.thread_number
    → Watched s
    → Watched (record s { signals = n; workers = move i awake s.workers })
unfolding Ended Tended move
move-Watched s i n a v = record {
  some_worker = v.some_worker;
  ended = λ j. ground (arith, v.ended j);
  tended = inr (inr (inr (i, ground arith)));
}

-- No worker sleeps, so one can run, if none has ended.
signal_lost-Tended :
    (s : System) (n : ℕ)
    → Watched s
    → ((i : ℕ) (d : TimeSpec) → i < s.thread_number → s.workers i ≢ asleep d)
    → Tended (record s { signals = n })
unfolding Tended Ended
signal_lost-Tended s n v b = go (s.workers 0) refl
  where
    go : (w : WorkerAt) → s.workers 0 ≡ w → Tended (record s { signals = n })
    go at_head e = inr (inr (inr (0, (v.some_worker, rw e tt))))
    go (asleep d) e = absurd (b 0 d v.some_worker e)
    go awake e = inr (inr (inr (0, (v.some_worker, rw e tt))))
    go (in_timer t) e = inr (inr (inr (0, (v.some_worker, rw e tt))))
    go (in_task t) e = inr (inr (inr (0, (v.some_worker, rw e tt))))
    go finished e = elim (v.ended 0) [ inl o ↦ absurd (o e) | inr x ↦ inr (inl x) ]

runs-Watched :
    (s : System) (i : ℕ) (c : Times)
    → i < s.thread_number
    → CanRun (s.workers i)
    → Watched s
    → Watched (run_worker i c s)
unfolding run_worker move Ended Tended Left
runs-Watched s i c a r v = record {
  some_worker = v.some_worker;
  ended = λ j. ground (
    arith,
    v.ended j,
    resume-Ended c (s.workers i) s.m_queues r,
    resume-exit_flag c (s.workers i) s.m_queues r,
  );
  tended = elim (resume-Left c (s.workers i) s.m_queues r) [
    | inl k ↦ inr (inr (inr (i, ground (arith, a, k))))
    | inr (inl e) ↦ inl e
    | inr (inr x) ↦ inr (inl x)
  ];
}

Watched-Step : {s t : System} → Watched s → Step s t → Watched t
unfolding Tended Ended post_task post_front_task set_timer kill_timer notify_exit
Watched-Step v (posts task e) = rw e (record {
  some_worker = v.some_worker;
  ended = v.ended;
  tended = inr (inr (inl (λ z. omega (arith, z))));
})
Watched-Step v (posts_front task e) = rw e (record {
  some_worker = v.some_worker;
  ended = v.ended;
  tended = inr (inr (inl (λ z. omega (arith, z))));
})
Watched-Step v (sets id elapse on_timer arg now e) = rw e (record {
  some_worker = v.some_worker;
  ended = v.ended;
  tended = inr (inr (inl (λ z. omega (arith, z))));
})
Watched-Step v (kills id e) =
    rw e (record { some_worker = v.some_worker; ended = v.ended; tended = v.tended })
Watched-Step v (exits e) =
    rw e (record { some_worker = v.some_worker; ended = λ i. inr refl; tended = inr (inl refl) })
Watched-Step {s} v (signal_wakes n i d a b f e) = rw e (move-Watched s i n b v)
Watched-Step {s} v (signal_lost n a b e) =
    rw e
      (record { some_worker = v.some_worker; ended = v.ended; tended = signal_lost-Tended s n v b })
Watched-Step {s} v (broadcast n a e) = rw e (record {
  some_worker = v.some_worker;
  ended = λ i. ground (arith, v.ended i);
  tended = elim v.tended [
    | inl k ↦ inl k
    | inr (inl k) ↦ inr (inl k)
    | inr (inr (inl k)) ↦ inr (inr (inl k))
    | inr (inr (inr k)) ↦ inr (inr (inr (k.0, ground (arith, k.1))))
  ];
})
Watched-Step {s} v (wakes i d a b e) = rw e (move-Watched s i s.signals a v)
Watched-Step {s} v (runs i c a r e) = rw e (runs-Watched s i c a r v)

Watched-Steps : {s t : System} → Watched s → Steps s t → Watched t
Watched-Steps v done = v
Watched-Steps v (Steps.then r p) = Watched-Step (Watched-Steps v r) p

-- No wake-up is lost. In a TaskThread with at least one worker, whenever tasks stand in the queue
-- and the exit flag is not set, a call of pthread_cond_signal is still to come or a worker is not
-- asleep, however the threads interleave. So tasks never wait for a worker's sleep, of up to an
-- hour, to end.
pub begun-tended :
    (thread_number : ℕ) (s : System)
    → 0 < thread_number
    → Steps (begun thread_number) s
    → (s.m_queues.m_task_queue ≡ [])
      ⊎ (s.m_queues.m_exit_flag ≡ true)
      ⊎ (s.signals ≢ 0)
      ⊎ ((i : ℕ) × ((i < s.thread_number) × CanRun (s.workers i)))
unfolding Tended Ended
begun-tended thread_number s h r =
    let v =
      Watched-Steps (record { some_worker = h; ended = λ i. inl (λ e. cc e); tended = inl refl })
        r in
    v.tended

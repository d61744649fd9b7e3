-- ===== src/Tasks/Tests.antt =====
-- The task threads at concrete states.
use tcp_epoll.Prelude.{ℕ, suc, ◌+◌, ◌*◌, ◌<◌, ◌≡◌, ◌≢◌, ◌⊎◌, refl, true, [], ◌∷◌, ◌++◌, arith}
use mathlib.Core.List.{Perm}
use tcp_epoll.Timer.{TimeVal, peek, peek_first}
use tcp_epoll.Tasks.{
  CallBackStruct, Times, deadline, post_task, notify_exit, resume, from_head, from_timer, from_task,
}
use tcp_epoll.Tasks.Deadline.{deadline_lem}
use tcp_epoll.Tasks.System.{System, exits, Steps, begun, posts, runs, run_worker, CanRun}
use tcp_epoll.Tasks.Order.{begun-order}
use tcp_epoll.Tasks.Exit.{Place, exit-started}
use tcp_epoll.Tasks.Wake.{begun-tended}

abbrev half_past : TimeVal
half_past = record { tv_sec = 1_700_000_000; tv_usec = 999_999 }

deadline-carries :
    deadline half_past 2500 ≡ record { tv_sec = 1_700_000_003; tv_nsec = 499_999_000 }
unfolding deadline
deadline-carries = refl

deadline_lem_example :
    ((deadline half_past 2500).tv_nsec < 1_000_000_000)
    × ((deadline half_past 2500).tv_sec * 1_000_000_000 + (deadline half_past 2500).tv_nsec
        ≡ (1_700_000_000 * 1_000_000 + 999_999) * 1000 + 2500 * 1_000_000)
deadline_lem_example = deadline_lem half_past 2500 (omega arith) (omega arith) (omega arith)

abbrev clock : Times
clock = record { st_now = half_past; at_wait = half_past; at_peek = half_past }

abbrev job : ℕ → CallBackStruct
job n = record { callback_func = n; arg = 0 }

-- After a task is posted.
abbrev one_posted : System
one_posted = record (begun 2) {
  m_queues = post_task (job 7) (begun 2).m_queues;
  posted = job 7 ∷ [];
  signals = 1;
}

-- And then taken by the first worker, and another posted.
abbrev two_posted : System
two_posted =
    let s = run_worker 0 clock one_posted in
    record s {
      m_queues = post_task (job 8) s.m_queues;
      posted = s.posted ++ job 8 ∷ [];
      signals = suc s.signals;
    }

two_posted-Steps : Steps (begun 2) two_posted
two_posted-Steps =
    Steps.then
      (Steps.then (Steps.then Steps.done (posts (job 7) refl)) (runs 0 clock (omega arith) tt refl))
      (posts (job 8) refl)

run_worker-starts : two_posted.started ≡ job 7 ∷ []
unfolding run_worker resume from_head from_timer from_task post_task peek peek_first
run_worker-starts = refl

begun-order_example :
    Perm (two_posted.started ++ two_posted.m_queues.m_task_queue) two_posted.posted
    × ((two_posted.fronts ≢ 0)
        ⊎ (two_posted.started ++ two_posted.m_queues.m_task_queue ≡ two_posted.posted))
begun-order_example = begun-order 2 two_posted two_posted-Steps

begun-tended_example :
    (two_posted.m_queues.m_task_queue ≡ [])
    ⊎ (two_posted.m_queues.m_exit_flag ≡ true)
    ⊎ (two_posted.signals ≢ 0)
    ⊎ ((i : ℕ) × ((i < two_posted.thread_number) × CanRun (two_posted.workers i)))
begun-tended_example = begun-tended 2 two_posted (omega arith) two_posted-Steps

-- notify_exit, with a task in the queue.
abbrev exited : System
exited = record one_posted { m_queues = notify_exit one_posted.m_queues; broadcasts = 1 }

exited-flag : exited.m_queues.m_exit_flag ≡ true
unfolding notify_exit
exited-flag = refl

-- A task that is posted after that.
abbrev late : System
late = record exited {
  m_queues = post_task (job 9) exited.m_queues;
  posted = exited.posted ++ job 9 ∷ [];
  signals = suc exited.signals;
}

exited-Steps : Steps (begun 2) exited
exited-Steps = Steps.then (Steps.then Steps.done (posts (job 7) refl)) (exits refl)

exit-started_example : (late.started ≡ []) × (late.fired ≡ []) × Place 0 clock late
exit-started_example =
    exit-started 2 exited late 0 clock exited-Steps exited-flag
      (Steps.then Steps.done (posts (job 9) refl))

-- ===== src/Tasks/Deadline.antt =====
-- The time until which a worker sleeps.
use tcp_epoll.Prelude.{ℕ, ◌+◌, ◌*◌, ◌^◌, ◌<◌, ◌≡◌, arith}
use tcp_epoll.Timer.{TimeVal}
use tcp_epoll.Tasks.{deadline}

-- Until the year 2038 at least, the time until which a worker sleeps is the wait after the time of
-- day, to the nanosecond, for any wait of an `unsigned int` of milliseconds. Its nanoseconds are
-- less than a second, as pthread_cond_timedwait asks, and nothing overflows.
pub deadline_lem :
    (st_now : TimeVal) (t_wait : ℕ)
    → st_now.tv_usec < 1_000_000
    → st_now.tv_sec < 2 ^ 31
    → t_wait < 2 ^ 32
    → let d = deadline st_now t_wait in
      (d.tv_nsec < 1_000_000_000)
      × (d.tv_sec * 1_000_000_000 + d.tv_nsec
          ≡ (st_now.tv_sec * 1_000_000 + st_now.tv_usec) * 1000 + t_wait * 1_000_000)
unfolding deadline
deadline_lem st_now t_wait u s w = omega arith

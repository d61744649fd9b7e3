-- ===== src/Timer/Tests.antt =====
-- TimerQueue on concrete calls.
use tcp_epoll.Prelude.{ℕ, ◌≡◌, refl, List, [], ◌∷◌, none}
use tcp_epoll.Timer.{
  TimeVal, Timer, new_queue, set_timer, kill_timer, get_wait_time, wait_first, peek, peek_first,
  set_insert, erase_first, erase, less, get_tick_count,
}
use tcp_epoll.Timer.Order.{IsQueue}
use tcp_epoll.Timer.View.{view}
use tcp_epoll.Timer.Refine.{
  Call, sets, kills, peeks, waits, nothing, fired, wait_time, run, Behaves, run-new_refines,
  perform,
}

abbrev at_second : ℕ → TimeVal
at_second s = record { tv_sec = s; tv_usec = 0 }

-- Two timers, of which the later one is due first.
abbrev calls : List Call
calls =
    sets 1 5000 70 0 (at_second 10)
    ∷ sets 2 2000 71 0 (at_second 11)
    ∷ waits (at_second 12)
    ∷ peeks (at_second 12)
    ∷ peeks (at_second 13)
    ∷ kills 1
    ∷ waits (at_second 13)
    ∷ []

abbrev second_timer : Timer
second_timer = record {
  mui_id = 2;
  mull_interval = 2000;
  mull_start = 11_000;
  on_timer = 71;
  func_arg = 0;
}

run-answers :
    (run calls new_queue).0
    ≡ nothing
      ∷ nothing
      ∷ wait_time 1000
      ∷ nothing
      ∷ fired second_timer
      ∷ nothing
      ∷ wait_time 2000
      ∷ []
unfolding run perform set_timer kill_timer erase erase_first set_insert less peek peek_first
    get_wait_time wait_first get_tick_count
run-answers = refl

run-new_refines_example :
    IsQueue (run calls new_queue).1
    × Behaves (λ id. none) calls (run calls new_queue).0 (view (run calls new_queue).1)
run-new_refines_example = run-new_refines calls

-- ===== src/Timer.antt =====
-- The timers of the samples' task threads: samples/samples-client/timer-queue.cpp and
-- include/timer-queue.h beside it, of which the other two samples keep the same copies.
-- The time of day is an argument of each operation that reads it.
pub mod Order
pub mod View
pub mod Refine
mod Tests
use tcp_epoll.Prelude.{
  ℕ, ◌+◌, ◌-◌, ◌*◌, ◌/◌, ◌%◌, ◌^◌, List, [], ◌∷◌, Option, none, some, Bool, true, false, ◌&&◌, ◌||◌,
  ◌==◌, ltb, leb, if◌then◌else◌,
}

-- struct timeval
pub record TimeVal : Type 0 where
  pub tv_sec : ℕ
  pub tv_usec : ℕ

-- TimerQueue::Timer; a callback is the number of a function.
pub record Timer : Type 0 where
  pub mui_id : ℕ
  pub mull_interval : ℕ
  pub mull_start : ℕ
  pub on_timer : ℕ
  pub func_arg : ℕ

-- `ms_timers`, a std::set: its elements in the order of `operator <`.
pub record TimerQueue : Type 0 where
  pub ms_timers : List Timer

abbrev pub new_queue : TimerQueue
new_queue = record { ms_timers = [] }

-- Milliseconds, in an `unsigned long long`.
unfoldable pub get_tick_count : TimeVal → ℕ
get_tick_count now = (now.tv_sec * 1000 + now.tv_usec / 1000) % 2 ^ 64

abbrev pub end_time : Timer → ℕ
end_time t = (t.mull_start + t.mull_interval) % 2 ^ 64

-- `operator <`
unfoldable pub less : Timer → Timer → Bool
less left right =
    let ull_endtime = end_time left in
    let ull_right_endtime = end_time right in
    if ltb ull_endtime ull_right_endtime
    then true
    else if ull_endtime == ull_right_endtime && ltb left.mui_id right.mui_id
    then true
    else false

-- `ms_timers.insert`: an element that is equivalent to one of the set is not put in.
unfoldable pub set_insert : Timer → List Timer → List Timer
set_insert t [] = t ∷ []
set_insert t (u ∷ s) =
    let rest = set_insert t s in
    if less t u then t ∷ u ∷ s else if less u t then u ∷ rest else u ∷ s

-- The loop of TimerQueue::erase: the first timer with the id goes.
unfoldable pub erase_first : ℕ → List Timer → List Timer
erase_first id [] = []
erase_first id (t ∷ s) = let rest = erase_first id s in if t.mui_id == id then s else t ∷ rest

unfoldable pub erase : ℕ → TimerQueue → TimerQueue
erase id q = record { ms_timers = erase_first id q.ms_timers }

-- The timer that set_timer starts.
abbrev pub started : ℕ → ℕ → ℕ → ℕ → TimeVal → Timer
started id elapse on_timer arg now = record {
  mui_id = id;
  mull_interval = elapse;
  mull_start = get_tick_count now;
  on_timer = on_timer;
  func_arg = arg;
}

unfoldable pub set_timer : ℕ → ℕ → ℕ → ℕ → TimeVal → TimerQueue → TimerQueue
set_timer id elapse on_timer arg now q =
    let erased = erase id q in
    record { ms_timers = set_insert (started id elapse on_timer arg now) erased.ms_timers }

unfoldable pub kill_timer : ℕ → TimerQueue → TimerQueue
kill_timer id q = erase id q

unfoldable pub empty : TimerQueue → Bool
empty q = elim q.ms_timers [ [] ↦ true | _ ∷ _ ↦ false ]

-- `first_timer.mull_start += first_timer.mull_interval`
abbrev pub rearm : Timer → Timer
rearm t = record t { mull_start = (t.mull_start + t.mull_interval) % 2 ^ 64 }

-- peek, with the timers as its argument; it gives out the id, the callback and its argument, which
-- stand in the timer.
unfoldable pub peek_first : TimeVal → List Timer → Option Timer × List Timer
peek_first now [] = (none, [])
peek_first now (first_timer ∷ s) =
    if leb (end_time first_timer) (get_tick_count now)
    then (some first_timer, set_insert (rearm first_timer) s)
    else (none, first_timer ∷ s)

unfoldable pub peek : TimeVal → TimerQueue → Option Timer × TimerQueue
peek now q = let r = peek_first now q.ms_timers in (r.0, record { ms_timers = r.1 })

abbrev pub wait_infinite : ℕ
wait_infinite = 60 * 60 * 1000

unfoldable pub wait_first : TimeVal → List Timer → ℕ
wait_first now [] = wait_infinite
wait_first now (first_timer ∷ s) =
    if leb (get_tick_count now) (end_time first_timer)
    then end_time first_timer - get_tick_count now
    else 0

unfoldable pub get_wait_time : TimeVal → TimerQueue → ℕ
get_wait_time now q = wait_first now q.ms_timers

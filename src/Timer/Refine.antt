-- ===== src/Timer/Refine.antt =====
-- TimerQueue against what it promises: a map from ids to timers of which the timer that is due
-- first fires first.
use tcp_epoll.Prelude.{
  ℕ, subst, ◌-◌, ◌≤◌, ◌<◌, ◌≡◌, refl, List, [], ◌∷◌, Option, none, some, inl, inr, Bool-cases,
  arith, leb,
}
use tcp_epoll.Timer.{
  TimeVal, Timer, TimerQueue, new_queue, set_timer, kill_timer, peek_first, peek, rearm, started,
  end_time, get_tick_count, wait_first, get_wait_time, wait_infinite,
}
use tcp_epoll.Timer.Order.{IsQueue, Unique, erase-IsQueue, set_timer-IsQueue, peek-IsQueue}
use tcp_epoll.Timer.View.{
  View, view, lookup, update, Head, bare, front, view-Head, view-rearm, view-erase, view-set_timer,
}

-- A call of the interface, with the time at which it reads the clock.
pub data Call : Type 0 where
  sets : (id elapse on_timer arg : ℕ) → TimeVal → Call
  kills : ℕ → Call
  peeks : TimeVal → Call
  waits : TimeVal → Call

pub data Answer : Type 0 where
  nothing : Answer
  fired : Timer → Answer
  wait_time : ℕ → Answer

abbrev told : Option Timer → Answer
told none = nothing
told (some t) = fired t

unfoldable pub perform : Call → TimerQueue → Answer × TimerQueue
perform (sets id elapse on_timer arg now) q = (nothing, set_timer id elapse on_timer arg now q)
perform (kills id) q = (nothing, kill_timer id q)
perform (peeks now) q = let r = peek now q in (told r.0, r.1)
perform (waits now) q = (wait_time (get_wait_time now q), q)

-- What a call may answer, and what it does to the map.
pub data Step (f : View) : Call → Answer → View → Type 0 where
  set :
      {id elapse on_timer arg : ℕ} {now : TimeVal} {g : View}
      → g ≡ update f id (some (started id elapse on_timer arg now))
      → Step f (sets id elapse on_timer arg now) nothing g
  kill : {id : ℕ} {g : View} → g ≡ update f id none → Step f (kills id) nothing g
  -- A timer of the map that is due fires, one that is due first, and starts again where it ended.
  fire :
      {now : TimeVal} {g : View} (t : Timer)
      → f t.mui_id ≡ some t
      → end_time t ≤ get_tick_count now
      → ((j : ℕ) (u : Timer) → f j ≡ some u → end_time t ≤ end_time u)
      → g ≡ update f t.mui_id (some (rearm t))
      → Step f (peeks now) (fired t) g
  rest :
      {now : TimeVal} {g : View}
      → ((j : ℕ) (u : Timer) → f j ≡ some u → get_tick_count now < end_time u)
      → g ≡ f
      → Step f (peeks now) nothing g
  idle :
      {now : TimeVal} {g : View}
      → ((j : ℕ) → f j ≡ none)
      → g ≡ f
      → Step f (waits now) (wait_time wait_infinite) g
  -- The time to the end of the timer that is due first, 0 if it is past.
  until :
      {now : TimeVal} {g : View} (t : Timer)
      → f t.mui_id ≡ some t
      → ((j : ℕ) (u : Timer) → f j ≡ some u → end_time t ≤ end_time u)
      → g ≡ f
      → Step f (waits now) (wait_time (end_time t - get_tick_count now)) g

peek_first-Step :
    (now : TimeVal) (s : List Timer)
    → Unique s
    → Head (λ j. lookup j s) s
    → Step
        (λ j. lookup j s)
        (peeks now)
        (told (peek_first now s).0)
        (λ j. lookup j (peek_first now s).1)
unfolding peek_first
peek_first-Step now [] u (bare n) = rest (λ j t e. absurd (ground (arith, n j, e))) refl
peek_first-Step now (t ∷ s) u (front _ _ found least) =
    elim (Bool-cases (leb (end_time t) (get_tick_count now))) [
      | inl due ↦ rw due (fire t found (ground (arith, due)) least (view-rearm t s u))
      | inr later ↦ rw later (rest (λ j v e. ground (arith, later, least j v e)) refl)
    ]

wait_first-Step :
    (now : TimeVal) (s : List Timer)
    → Head (λ j. lookup j s) s
    → Step (λ j. lookup j s) (waits now) (wait_time (wait_first now s)) (λ j. lookup j s)
unfolding wait_first
wait_first-Step now [] (bare n) = idle n refl
wait_first-Step now (t ∷ s) (front _ _ found least) =
    subst (λ w. Step (λ j. lookup j (t ∷ s)) (waits now) (wait_time w) (λ j. lookup j (t ∷ s)))
      (ground arith) (until t found least refl)

perform-Step :
    (c : Call) (q : TimerQueue) → IsQueue q → Step (view q) c (perform c q).0 (view (perform c q).1)
unfolding perform peek view get_wait_time kill_timer
perform-Step (sets id elapse on_timer arg now) q v =
    set (view-set_timer id elapse on_timer arg now q v)
perform-Step (kills id) q v = kill (view-erase id q v)
perform-Step (peeks now) q v = peek_first-Step now q.ms_timers v.unique (view-Head _ v.sorted)
perform-Step (waits now) q v = wait_first-Step now q.ms_timers (view-Head _ v.sorted)

perform-IsQueue : (c : Call) (q : TimerQueue) → IsQueue q → IsQueue (perform c q).1
unfolding perform kill_timer
perform-IsQueue (sets id elapse on_timer arg now) q v =
    set_timer-IsQueue id elapse on_timer arg now q v
perform-IsQueue (kills id) q v = erase-IsQueue id q v
perform-IsQueue (peeks now) q v = peek-IsQueue now q v
perform-IsQueue (waits now) q v = v

unfoldable pub run : List Call → TimerQueue → List Answer × TimerQueue
run [] q = ([], q)
run (c ∷ cs) q = let r = perform c q in let rs = run cs r.1 in (r.0 ∷ rs.0, rs.1)

-- The answers to calls, one after the other, from one map to another.
pub data Behaves : View → List Call → List Answer → View → Type 0 where
  stop : {f : View} → Behaves f [] [] f
  go :
      {f : View} {c : Call} {a : Answer} {cs : List Call} {ans : List Answer} (g : View) {h : View}
      → Step f c a g
      → Behaves g cs ans h
      → Behaves f (c ∷ cs) (a ∷ ans) h

run-Behaves :
    (cs : List Call) (q : TimerQueue)
    → IsQueue q
    → IsQueue (run cs q).1 × Behaves (view q) cs (run cs q).0 (view (run cs q).1)
unfolding run
run-Behaves [] q v = (v, stop)
run-Behaves (c ∷ cs) q v =
    let (w, b) = run-Behaves cs (perform c q).1 (perform-IsQueue c q v) in
    (w, go (view (perform c q).1) (perform-Step c q v) b)

-- TimerQueue is a map from ids to timers: for any calls in any order, from the new queue, the set
-- is in order with one timer for each id, and the answers are those of the map. set_timer
-- replaces the timer of the id, and kill_timer takes it away. peek fires a timer that is due
-- whenever there is one, one that ends no later than any other, and starts it again at its end;
-- it fires none while no timer is due. get_wait_time is the time to the first end, 0 if that is
-- past, and an hour without timers.
pub run-new_refines :
    (cs : List Call)
    → IsQueue (run cs new_queue).1
      × Behaves (λ id. none) cs (run cs new_queue).0 (view (run cs new_queue).1)
unfolding view lookup
run-new_refines cs = run-Behaves cs new_queue (record { sorted = tt; unique = tt })

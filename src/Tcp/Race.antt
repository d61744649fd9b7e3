-- ===== src/Tcp/Race.antt =====
-- MsEpoll::end, worker_thread and timeoutThreadProc of ms-epoll.cpp as three threads that share
-- mb_exit_thread and mb_timeout_thread_flag, in any interleaving of their steps. Both threads have
-- been created, so that end waits for both.
use tcp_epoll.Prelude.{◌≡◌, ◌≢◌, ◌⊎◌, inl, inr, refl, Bool, true, false, arith}

-- Where worker_thread is: before its first assignment, in its loop, or after its return.
pub data WorkerAt : Type 0 where
  starting : WorkerAt
  looping : WorkerAt
  returned : WorkerAt

-- Where timeoutThreadProc is: in its loop, or after its return.
pub data TimeoutAt : Type 0 where
  sleeping : TimeoutAt
  left : TimeoutAt

-- Where the thread that calls end is: before it, in the first pthread_join, after that, in the
-- second one, after that, or after its return.
pub data CallerAt : Type 0 where
  before_end : CallerAt
  joining : CallerAt
  joined : CallerAt
  joining_timeout : CallerAt
  joined_timeout : CallerAt
  ended : CallerAt

pub record Threads : Type 0 where
  pub mb_exit_thread : Bool
  pub mb_timeout_thread_flag : Bool
  pub worker : WorkerAt
  pub timeout : TimeoutAt
  pub caller : CallerAt

-- A step of one of the threads.
pub data Step (s t : Threads) : Type 0 where
  -- `p_this->mb_exit_thread = false;`
  worker_starts :
      s.worker ≡ starting → t ≡ record s { mb_exit_thread = false; worker = looping } → Step s t
  -- A round of the loop, whose condition has read false.
  worker_goes_on : s.worker ≡ looping → s.mb_exit_thread ≡ false → t ≡ s → Step s t
  worker_returns :
      s.worker ≡ looping → s.mb_exit_thread ≡ true → t ≡ record s { worker = returned } → Step s t
  -- The flag is read as true, and ms_msleep returns.
  timeout_sleeps : s.timeout ≡ sleeping → s.mb_timeout_thread_flag ≡ true → t ≡ s → Step s t
  timeout_returns :
      s.timeout ≡ sleeping
      → s.mb_timeout_thread_flag ≡ false
      → t ≡ record s { timeout = left }
      → Step s t
  -- `mb_exit_thread = true;`
  caller_ends :
      s.caller ≡ before_end → t ≡ record s { mb_exit_thread = true; caller = joining } → Step s t
  -- pthread_join returns.
  caller_joins :
      s.caller ≡ joining → s.worker ≡ returned → t ≡ record s { caller = joined } → Step s t
  -- `mb_timeout_thread_flag = false;`
  caller_stops :
      s.caller ≡ joined
      → t ≡ record s { mb_timeout_thread_flag = false; caller = joining_timeout }
      → Step s t
  -- The second pthread_join returns.
  caller_joins_timeout :
      s.caller ≡ joining_timeout
      → s.timeout ≡ left
      → t ≡ record s { caller = joined_timeout }
      → Step s t
  -- The epoll set is closed, the links are freed, and end returns.
  caller_returns : s.caller ≡ joined_timeout → t ≡ record s { caller = ended } → Step s t

pub data Steps (s : Threads) : Threads → Type 0 where
  done : Steps s s
  then : {t u : Threads} → Steps s t → Step t u → Steps s u

trans : {s t u : Threads} → Steps s t → Steps t u → Steps s u
trans p done = p
trans p (then q x) = then (trans p q) x

-- The worker has been started and end has not been called; or end has been, and the flag says so;
-- or the worker has returned. And where end waits for the other thread, the flag says so to that.
IsOrderly : Threads → Type 0
IsOrderly s =
    (((s.worker ≡ looping) × (s.caller ≡ before_end))
      ⊎ ((s.mb_exit_thread ≡ true) × (s.worker ≡ looping))
      ⊎ (s.worker ≡ returned))
    × ((s.caller ≢ joining_timeout) ⊎ (s.mb_timeout_thread_flag ≡ false))

IsOrderly-Step : {s t : Threads} → IsOrderly s → Step s t → IsOrderly t
unfolding IsOrderly
IsOrderly-Step o (worker_starts a e) = ground (arith, o)
IsOrderly-Step o (worker_goes_on a b e) = ground (arith, o)
IsOrderly-Step o (worker_returns a b e) = ground (arith, o)
IsOrderly-Step o (timeout_sleeps a b e) = ground (arith, o)
IsOrderly-Step o (timeout_returns a b e) = ground (arith, o)
IsOrderly-Step o (caller_ends a e) = ground (arith, o)
IsOrderly-Step o (caller_joins a b e) = ground (arith, o)
IsOrderly-Step o (caller_stops a e) = ground (arith, o)
IsOrderly-Step o (caller_joins_timeout a b e) = ground (arith, o)
IsOrderly-Step o (caller_returns a e) = ground (arith, o)

IsOrderly-Steps : {s t : Threads} → IsOrderly s → Steps s t → IsOrderly t
IsOrderly-Steps o done = o
IsOrderly-Steps o (then r p) = IsOrderly-Step (IsOrderly-Steps o r) p

-- The threads can go on so that end returns.
abbrev pub CanEnd : Threads → Type 0
CanEnd t = (u : Threads) × (Steps t u × (u.caller ≡ ended))

first_then : {t u : Threads} → Step t u → CanEnd u → CanEnd t
first_then x (v, (p, e)) = (v, (trans (then done x) p, e))

finish_joined_timeout : (t : Threads) → t.caller ≡ joined_timeout → CanEnd t
finish_joined_timeout t j = (record t { caller = ended }, (then done (caller_returns j refl), refl))

finish_left : (t : Threads) → t.caller ≡ joining_timeout → t.timeout ≡ left → CanEnd t
finish_left t j l =
    first_then (caller_joins_timeout j l refl)
      (finish_joined_timeout (record t { caller = joined_timeout }) refl)

finish_joining_timeout :
    (t : Threads) (a : TimeoutAt)
    → t.timeout ≡ a
    → t.caller ≡ joining_timeout
    → t.mb_timeout_thread_flag ≡ false
    → CanEnd t
finish_joining_timeout t sleeping q j f =
    first_then (timeout_returns q f refl) (finish_left (record t { timeout = left }) j refl)
finish_joining_timeout t left q j f = finish_left t j q

finish_joined : (t : Threads) → t.caller ≡ joined → CanEnd t
finish_joined t j =
    let u : Threads = record t { mb_timeout_thread_flag = false; caller = joining_timeout } in
    first_then (caller_stops j refl) (finish_joining_timeout u t.timeout refl refl refl)

finish_returned : (t : Threads) → t.caller ≡ joining → t.worker ≡ returned → CanEnd t
finish_returned t j r =
    first_then (caller_joins j r refl) (finish_joined (record t { caller = joined }) refl)

finish_joining : (t : Threads) → IsOrderly t → t.caller ≡ joining → CanEnd t
unfolding IsOrderly
finish_joining t (inl o, _) j = absurd (cc (o.1, j))
finish_joining t (inr (inl o), _) j =
    first_then (worker_returns o.1 o.0 refl)
      (finish_returned (record t { worker = returned }) j refl)
finish_joining t (inr (inr o), _) j = finish_returned t j o

finish : (t : Threads) (a : CallerAt) → t.caller ≡ a → IsOrderly t → a ≢ before_end → CanEnd t
unfolding IsOrderly
finish t before_end q o n = absurd (n refl)
finish t joining q o n = finish_joining t o q
finish t joined q o n = finish_joined t q
finish t joining_timeout q o n =
    finish_joining_timeout t t.timeout refl q (elim o.1 [ inl x ↦ absurd (x q) | inr f ↦ f ])
finish t joined_timeout q o n = finish_joined_timeout t q
finish t ended q o n = (t, (done, q))

-- Let both threads run, and let the worker thread have made its first assignment before end is
-- called. Then, however the three threads interleave, at each moment after the call of end the
-- worker thread has returned or reads that it has to, and the threads can go on so that end joins
-- both of them, frees the links and returns.
pub after_start-ended :
    (s t : Threads)
    → s.worker ≡ looping
    → s.caller ≡ before_end
    → Steps s t
    → t.caller ≢ before_end
    → ((t.worker ≡ returned) ⊎ (t.mb_exit_thread ≡ true)) × CanEnd t
unfolding IsOrderly
after_start-ended s t a b r j =
    let o : IsOrderly t = IsOrderly-Steps (inl (a, b), inl (λ e. cc (b, e))) r in
    (
      elim o.0 [ inl x ↦ absurd (j x.1) | inr x ↦ elim x [ inl y ↦ inr y.0 | inr y ↦ inl y ] ],
      finish t t.caller refl o j,
    )

-- end waits, and the flag that it has set is lost, or is about to be.
IsLost : Threads → Type 0
IsLost s =
    (s.caller ≡ joining)
    × ((s.worker ≡ starting) ⊎ ((s.worker ≡ looping) × (s.mb_exit_thread ≡ false)))

IsLost-Step : {s t : Threads} → IsLost s → Step s t → IsLost t
unfolding IsLost
IsLost-Step o (worker_starts a e) = ground (arith, o)
IsLost-Step o (worker_goes_on a b e) = ground (arith, o)
IsLost-Step o (worker_returns a b e) = ground (arith, o)
IsLost-Step o (caller_ends a e) = ground (arith, o)
IsLost-Step o (caller_joins a b e) = ground (arith, o)
IsLost-Step o (timeout_sleeps a b e) = ground (arith, o)
IsLost-Step o (timeout_returns a b e) = ground (arith, o)
IsLost-Step o (caller_stops a e) = ground (arith, o)
IsLost-Step o (caller_joins_timeout a b e) = ground (arith, o)
IsLost-Step o (caller_returns a e) = ground (arith, o)

IsLost-Steps : {s t : Threads} → IsLost s → Steps s t → IsLost t
IsLost-Steps o done = o
IsLost-Steps o (then r p) = IsLost-Step (IsLost-Steps o r) p

-- Let end have set the flag and wait in pthread_join before the worker thread has made its first
-- assignment. Then, however the threads interleave, the worker thread never returns, and end waits
-- for ever: the assignment undoes the flag.
pub before_start-joining :
    (s t : Threads)
    → s.worker ≡ starting
    → s.caller ≡ joining
    → Steps s t
    → (t.caller ≡ joining) × (t.worker ≢ returned)
unfolding IsLost
before_start-joining s t a b r =
    let o : IsLost t = IsLost-Steps (b, inl a) r in (o.0, λ e. ground (arith, o, e))

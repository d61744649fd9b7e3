-- ===== src/Tasks/Exit.antt =====
-- What happens after notify_exit.
use tcp_epoll.Prelude.{
  subst, ◌==◌, Bool-cases, sym, ap, ◌∙◌, ◌≢◌, ◌⊎◌, inl, inr, arith, ◌≡◌, refl, ℕ, true,
}
use mathlib.Core.List.{append-nil}
use tcp_epoll.Tasks.{
  ThreadQueue, WorkerAt, at_head, asleep, awake, in_timer, in_task, finished, Times, TimeSpec,
  post_task, post_front_task, set_timer, kill_timer, notify_exit, resume, from_head, from_timer,
  from_task,
}
use tcp_epoll.Tasks.System.{
  begun, System, Step, Steps, run_worker, done, posts, posts_front, sets, kills, exits,
  signal_wakes, signal_lost, broadcast, wakes, runs, move, CanRun,
}

-- A worker that gets the mutex ends, and leaves the queues as they are.
pub resume-exit :
    (c : Times) (w : WorkerAt) (q : ThreadQueue)
    → q.m_exit_flag ≡ true
    → CanRun w
    → resume c w q ≡ (finished, q)
unfolding resume from_head from_timer from_task
resume-exit c at_head q e r = rw e refl
resume-exit c (asleep d) q e r = absurd r
resume-exit c awake q e r = rw e refl
resume-exit c (in_timer t) q e r = rw e refl
resume-exit c (in_task t) q e r = rw e refl
resume-exit c finished q e r = absurd r

-- The flag is set, and no callback has been called since `s`.
abbrev Exited : System → System → Type 0
Exited s t = (t.m_queues.m_exit_flag ≡ true) × (t.started ≡ s.started) × (t.fired ≡ s.fired)

Exited-runs :
    (i : ℕ) (c : Times) (t : System)
    → t.m_queues.m_exit_flag ≡ true
    → CanRun (t.workers i)
    → run_worker i c t ≡ record t { workers = move i finished t.workers }
unfolding run_worker
Exited-runs i c t e r =
    rw (resume-exit c (t.workers i) t.m_queues e r, append-nil t.started, append-nil t.fired) refl

Exited-Step : (s : System) {t u : System} → Exited s t → Step t u → Exited s u
unfolding post_task post_front_task set_timer kill_timer notify_exit
Exited-Step s x (posts task e) = rw e x
Exited-Step s x (posts_front task e) = rw e x
Exited-Step s x (sets id elapse on_timer arg now e) = rw e x
Exited-Step s x (kills id e) = rw e x
Exited-Step s x (exits e) = rw e (refl, x.1, x.2)
Exited-Step s x (signal_wakes n i d a b f e) = rw e x
Exited-Step s x (signal_lost n a b e) = rw e x
Exited-Step s x (broadcast n a e) = rw e x
Exited-Step s x (wakes i d a b e) = rw e x
Exited-Step s {t} x (runs i c a r e) = rw (e, Exited-runs i c t x.0 r) x

Exited-Steps : {s t : System} → s.m_queues.m_exit_flag ≡ true → Steps s t → Exited s t
Exited-Steps e done = (e, refl, refl)
Exited-Steps {s} e (Steps.then r p) = Exited-Step s (Exited-Steps e r) p

-- Where notify_exit has set the flag, its broadcast is still to come, or no worker sleeps.
IsRoused : System → Type 0
IsRoused s =
    s.m_queues.m_exit_flag ≡ true
    → (s.broadcasts ≢ 0) ⊎ ((i : ℕ) (d : TimeSpec) → s.workers i ≢ asleep d)

resume-flag :
    (c : Times) (w : WorkerAt) (q : ThreadQueue) → (resume c w q).1.m_exit_flag ≡ q.m_exit_flag
unfolding resume from_head from_timer from_task
resume-flag c at_head q = ground arith
resume-flag c (asleep d) q = refl
resume-flag c awake q = ground arith
resume-flag c (in_timer t) q = ground arith
resume-flag c (in_task task) q = ground arith
resume-flag c finished q = refl

-- None of the workers sleeps.
abbrev NoSleep : (ℕ → WorkerAt) → Type 0
NoSleep workers = (i : ℕ) (d : TimeSpec) → workers i ≢ asleep d

NoSleep-move :
    (i : ℕ) (w : WorkerAt) (workers : ℕ → WorkerAt)
    → ((d : TimeSpec) → w ≢ asleep d)
    → NoSleep workers
    → NoSleep (move i w workers)
unfolding move
NoSleep-move i w workers a k j d = elim (Bool-cases (j == i)) [
  | inl same ↦ rw same (a d)
  | inr other ↦ rw other (k j d)
]

-- A broadcast reaches each worker.
roused : WorkerAt → WorkerAt
roused w = elim w [
  | at_head ↦ at_head
  | asleep d ↦ awake
  | awake ↦ awake
  | in_timer u ↦ in_timer u
  | in_task task ↦ in_task task
  | finished ↦ finished
]

roused-awake : (w : WorkerAt) (d : TimeSpec) → roused w ≢ asleep d
unfolding roused
roused-awake at_head d e = cc
roused-awake (asleep d') d e = cc
roused-awake awake d e = cc
roused-awake (in_timer u) d e = cc
roused-awake (in_task task) d e = cc
roused-awake finished d e = cc

map-right : {A B C : Type 0} → (B → C) → A ⊎ B → A ⊎ C
map-right f (inl a) = inl a
map-right f (inr b) = inr (f b)

runs-IsRoused :
    (i : ℕ) (c : Times) (s : System)
    → IsRoused s
    → CanRun (s.workers i)
    → IsRoused (run_worker i c s)
unfolding IsRoused run_worker
runs-IsRoused i c s k r f =
    let e : s.m_queues.m_exit_flag ≡ true = sym (resume-flag c (s.workers i) s.m_queues) ∙ f in
    map-right
      (NoSleep-move i (resume c (s.workers i) s.m_queues).0 s.workers
        λ d x. ends (sym (ap (λ p. p.0) (resume-exit c (s.workers i) s.m_queues e r)) ∙ x))
      (k e)
  where
    ends : {d : TimeSpec} → finished ≢ asleep d
    ends x = cc

IsRoused-Step : {s t : System} → IsRoused s → Step s t → IsRoused t
unfolding IsRoused roused post_task post_front_task set_timer kill_timer notify_exit
IsRoused-Step k (posts task e) = rw e k
IsRoused-Step k (posts_front task e) = rw e k
IsRoused-Step k (sets id elapse on_timer arg now e) = rw e k
IsRoused-Step k (kills id e) = rw e k
IsRoused-Step k (exits e) = rw e λ f. inl (λ z. omega (arith, z))
IsRoused-Step {s} k (signal_wakes n i d a b f e) =
    rw e λ x. map-right (NoSleep-move i awake s.workers λ d y. cc) (k x)
IsRoused-Step k (signal_lost n a b e) = rw e k
IsRoused-Step {s} k (broadcast n a e) = rw e λ x. inr λ i d. roused-awake (s.workers i) d
IsRoused-Step {s} k (wakes i d a b e) =
    rw e λ x. map-right (NoSleep-move i awake s.workers λ d y. cc) (k x)
IsRoused-Step {s} k (runs i c a r e) = rw e (runs-IsRoused i c s k r)

IsRoused-Steps : {n : ℕ} {s : System} → Steps (begun n) s → IsRoused s
unfolding IsRoused
IsRoused-Steps done = λ f. absurd (cc f)
IsRoused-Steps (Steps.then r p) = IsRoused-Step (IsRoused-Steps r) p

trans : {s t u : System} → Steps s t → Steps t u → Steps s u
trans p done = p
trans p (Steps.then q x) = Steps.then (trans p q) x

-- A worker has ended, or ends when it next runs, or sleeps with a broadcast to come.
abbrev pub Place : ℕ → Times → System → Type 0
Place i c t =
    (t.workers i ≡ finished)
    ⊎ (CanRun (t.workers i) × (run_worker i c t ≡ record t { workers = move i finished t.workers }))
    ⊎ ((d : TimeSpec) × ((t.workers i ≡ asleep d) × (t.broadcasts ≢ 0)))

-- Once notify_exit has set the flag of threads that have begun, no task and no timer begins any
-- more, however the threads interleave and whatever is posted: what stands in the queue is never
-- run. And each worker has ended; or it can run, and ends when it next gets the mutex, without
-- another wait; or it sleeps, and the broadcast that wakes it is still to come.
pub exit-started :
    (n : ℕ) (s t : System) (i : ℕ) (c : Times)
    → Steps (begun n) s
    → s.m_queues.m_exit_flag ≡ true
    → Steps s t
    → (t.started ≡ s.started) × (t.fired ≡ s.fired) × Place i c t
unfolding IsRoused
exit-started n s t i c b e r =
    let x = Exited-Steps e r in
    (x.1, x.2, place (t.workers i) refl x.0 (IsRoused-Steps (trans b r) x.0))
  where
    can : CanRun (t.workers i) → t.m_queues.m_exit_flag ≡ true → Place i c t
    can k f = inr (inl (k, Exited-runs i c t f k))

    place :
        (w : WorkerAt)
        → t.workers i ≡ w
        → t.m_queues.m_exit_flag ≡ true
        → (t.broadcasts ≢ 0) ⊎ NoSleep t.workers
        → Place i c t
    place at_head q f k = can (subst CanRun (sym q) tt) f
    place (asleep d) q f (inl b) = inr (inr (d, (q, b)))
    place (asleep d) q f (inr k) = absurd (k i d q)
    place awake q f k = can (subst CanRun (sym q) tt) f
    place (in_timer u) q f k = can (subst CanRun (sym q) tt) f
    place (in_task task) q f k = can (subst CanRun (sym q) tt) f
    place finished q f k = inl q

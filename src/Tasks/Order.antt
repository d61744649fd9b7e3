-- ===== src/Tasks/Order.antt =====
-- The order in which tasks run.
use mathlib.Core.List.{Perm, perm_middle, append-nil, append_assoc}
use mathlib.Core.List.Perm
use tcp_epoll.Prelude.{
  ℕ, ◌≡◌, ◌≢◌, ◌⊎◌, refl, sym, ◌∙◌, ap, subst, List, [], ◌∷◌, ◌++◌, inl, inr, arith,
}
use tcp_epoll.Tasks.{
  CallBackStruct, ThreadQueue, WorkerAt, at_head, asleep, awake, in_timer, in_task, finished, Times,
  post_task, post_front_task, set_timer, kill_timer, notify_exit, resume, from_head, from_timer,
  from_task,
}
use tcp_epoll.Timer.{peek}
use tcp_epoll.Tasks.System.{
  System, Step, Steps, begun, begins, run_worker, done, posts, posts_front, sets, kills, exits,
  signal_wakes, signal_lost, broadcast, wakes, runs, CanRun,
}

-- The task that a stretch of a worker begins, if any, is the first of the queue, and the others stay.
from_task-begins :
    (c : Times) (q : ThreadQueue)
    → begins (from_task c q).0 ++ (from_task c q).1.m_task_queue ≡ q.m_task_queue
unfolding from_task
from_task-begins c q = ground arith

from_timer-begins :
    (c : Times) (q : ThreadQueue)
    → begins (from_timer c q).0 ++ (from_timer c q).1.m_task_queue ≡ q.m_task_queue
unfolding from_timer
from_timer-begins c q =
    ground
      (arith, from_task-begins c (record q { m_timer_queue = (peek c.at_peek q.m_timer_queue).1 }))

from_head-begins :
    (c : Times) (q : ThreadQueue)
    → begins (from_head c q).0 ++ (from_head c q).1.m_task_queue ≡ q.m_task_queue
unfolding from_head
from_head-begins c q = ground (arith, from_timer-begins c q)

resume-begins :
    (c : Times) (w : WorkerAt) (q : ThreadQueue)
    → CanRun w
    → begins (resume c w q).0 ++ (resume c w q).1.m_task_queue ≡ q.m_task_queue
unfolding resume
resume-begins c at_head q r = from_head-begins c q
resume-begins c (asleep d) q r = absurd r
resume-begins c awake q r = from_timer-begins c q
resume-begins c (in_timer t) q r = from_task-begins c q
resume-begins c (in_task t) q r = from_head-begins c q
resume-begins c finished q r = absurd r

last_first : (xs : List CallBackStruct) (t : CallBackStruct) → Perm (xs ++ t ∷ []) (t ∷ xs)
last_first xs t = subst (λ ys. Perm (xs ++ t ∷ []) (t ∷ ys)) (append-nil xs) (perm_middle xs [])

-- Every task that was posted has begun once or stands in the queue once.
Kept : System → Type 0
Kept s = Perm (s.started ++ s.m_queues.m_task_queue) s.posted

posts-Kept :
    (ss q p : List CallBackStruct) (t : CallBackStruct)
    → Perm (ss ++ q) p
    → Perm (ss ++ (q ++ t ∷ [])) (p ++ t ∷ [])
posts-Kept ss q p t k =
    subst (λ xs. Perm xs (p ++ t ∷ [])) (append_assoc ss q (t ∷ []))
      (Perm.trans (last_first (ss ++ q) t)
        (Perm.trans (Perm.cons t k) (Perm.symm (last_first p t))))

front-Kept :
    (ss q p : List CallBackStruct) (t : CallBackStruct)
    → Perm (ss ++ q) p
    → Perm (ss ++ t ∷ q) (p ++ t ∷ [])
front-Kept ss q p t k =
    Perm.trans (perm_middle ss q) (Perm.trans (Perm.cons t k) (Perm.symm (last_first p t)))

-- What a stretch of a worker begins, it takes from the front of the queue.
run_worker-order :
    (i : ℕ) (c : Times) (s : System)
    → CanRun (s.workers i)
    → (run_worker i c s).started ++ (run_worker i c s).m_queues.m_task_queue
      ≡ s.started ++ s.m_queues.m_task_queue
unfolding run_worker
run_worker-order i c s r =
    append_assoc s.started (begins (resume c (s.workers i) s.m_queues).0) _
    ∙ ap (λ xs. s.started ++ xs) (resume-begins c (s.workers i) s.m_queues r)

Kept-Step : {s t : System} → Kept s → Step s t → Kept t
unfolding Kept post_task post_front_task set_timer kill_timer notify_exit run_worker
Kept-Step {s} k (posts task e) = rw e (posts-Kept s.started _ s.posted task k)
Kept-Step {s} k (posts_front task e) = rw e (front-Kept s.started _ s.posted task k)
Kept-Step k (sets id elapse on_timer arg now e) = rw e k
Kept-Step k (kills id e) = rw e k
Kept-Step k (exits e) = rw e k
Kept-Step k (signal_wakes n i d a b f e) = rw e k
Kept-Step k (signal_lost n a b e) = rw e k
Kept-Step k (broadcast n a e) = rw e k
Kept-Step k (wakes i d a b e) = rw e k
Kept-Step {s} k (runs i c a r e) =
    rw e (subst (λ xs. Perm xs s.posted) (sym (run_worker-order i c s r)) k)

-- Without post_front_task, the tasks that have begun and those of the queue are the posted ones,
-- in the order of their posting.
IsFifo : System → Type 0
IsFifo s = (s.fronts ≢ 0) ⊎ (s.started ++ s.m_queues.m_task_queue ≡ s.posted)

IsFifo-Step : {s t : System} → IsFifo s → Step s t → IsFifo t
unfolding IsFifo post_task post_front_task set_timer kill_timer notify_exit run_worker
IsFifo-Step {s} (inl f) (posts task e) = rw e (inl f)
IsFifo-Step {s} (inr k) (posts task e) =
    rw e (inr (sym (append_assoc s.started _ (task ∷ [])) ∙ ap (λ xs. xs ++ task ∷ []) k))
IsFifo-Step f (posts_front task e) = rw e (inl (λ z. omega (arith, z)))
IsFifo-Step f (sets id elapse on_timer arg now e) = rw e f
IsFifo-Step f (kills id e) = rw e f
IsFifo-Step f (exits e) = rw e f
IsFifo-Step f (signal_wakes n i d a b g e) = rw e f
IsFifo-Step f (signal_lost n a b e) = rw e f
IsFifo-Step f (broadcast n a e) = rw e f
IsFifo-Step f (wakes i d a b e) = rw e f
IsFifo-Step (inl f) (runs i c a r e) = rw e (inl f)
IsFifo-Step {s} (inr k) (runs i c a r e) = rw e (inr (run_worker-order i c s r ∙ k))

both : {s t : System} → Kept s × IsFifo s → Steps s t → Kept t × IsFifo t
both o done = o
both o (Steps.then r p) = let b = both o r in (Kept-Step b.0 p, IsFifo-Step b.1 p)

-- However the callers and the workers of a TaskThread interleave, with any number of workers, each
-- posted task either stands in the queue once or has begun once: none is lost and none runs twice.
-- And if none was posted by post_front_task, the tasks begin in the order of their posting.
pub begun-order :
    (thread_number : ℕ) (s : System)
    → Steps (begun thread_number) s
    → Perm (s.started ++ s.m_queues.m_task_queue) s.posted
      × ((s.fronts ≢ 0) ⊎ (s.started ++ s.m_queues.m_task_queue ≡ s.posted))
unfolding Kept IsFifo
begun-order thread_number s r = both (Perm.nil, inr refl) r

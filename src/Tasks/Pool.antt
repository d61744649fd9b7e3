-- ===== src/Tasks/Pool.antt =====
-- TaskThread of samples/samples-client/task-thread.cpp: the threads of a ThreadQueue.
use tcp_epoll.Prelude.{
  ℕ, zero, suc, ◌+◌, ◌≡◌, ◌≢◌, refl, List, [], ◌∷◌, ◌++◌, All, arith, ◌==◌, if◌then◌else◌,
}
use tcp_epoll.Tasks.{ThreadQueue, notify_exit}

pub record TaskThread : Type 0 where
  pub m_threads : List ℕ
  pub m_queues : ThreadQueue

-- The loop of begin; `p_tmp i` is what the i-th call of ms_pthread_creat leaves in its variable,
-- 0 if it starts no thread.
unfoldable pub begin_from : ℕ → ℕ → (ℕ → ℕ) → List ℕ → List ℕ
begin_from zero i p_tmp m_threads = m_threads
begin_from (suc n) i p_tmp m_threads =
    begin_from n (i + 1) p_tmp (if p_tmp i == 0 then m_threads else m_threads ++ p_tmp i ∷ [])

unfoldable pub begin : ℕ → (ℕ → ℕ) → TaskThread → TaskThread
begin thread_number p_tmp t = record t { m_threads = begin_from thread_number 0 p_tmp t.m_threads }

-- The threads that end joins, in order, and what it leaves.
unfoldable pub end : TaskThread → List ℕ × TaskThread
end t = (t.m_threads, record t { m_queues = notify_exit t.m_queues })

-- The calls that go on to the queues, such as post_task.
abbrev pub on_queues : (ThreadQueue → ThreadQueue) → TaskThread → TaskThread
on_queues f t = record t { m_queues = f t.m_queues }

pub IsStarted : List ℕ → Type 0
IsStarted = All (λ p. p ≢ 0)

IsStarted-append : (ps : List ℕ) (p : ℕ) → IsStarted ps → p ≢ 0 → IsStarted (ps ++ p ∷ [])
unfolding IsStarted
IsStarted-append [] p s h = (h, tt)
IsStarted-append (q ∷ ps) p s h = (s.0, IsStarted-append ps p s.1 h)

begin_from-IsStarted :
    (n i : ℕ) (p_tmp : ℕ → ℕ) (ps : List ℕ) → IsStarted ps → IsStarted (begin_from n i p_tmp ps)
unfolding begin_from
begin_from-IsStarted zero i p_tmp ps s = s
begin_from-IsStarted (suc n) i p_tmp ps s = begin_from-IsStarted n (i + 1) p_tmp _ (next (p_tmp i))
  where
    next : (p : ℕ) → IsStarted (if p == 0 then ps else ps ++ p ∷ [])
    next zero = s
    next (suc p) = kept
      where
        kept : IsStarted (if suc p == 0 then ps else ps ++ suc p ∷ [])
        kept = ground (arith, IsStarted-append ps (suc p) s (λ e. omega (arith, e)))

-- end joins no thread that has not been started. It does not forget the threads: a second call
-- joins the same ones again.
pub begin-end :
    (thread_number : ℕ) (p_tmp : ℕ → ℕ) (q : ThreadQueue)
    → let t = begin thread_number p_tmp (record { m_threads = []; m_queues = q }) in
      IsStarted (end t).0 × ((end (end t).1).0 ≡ (end t).0)
unfolding begin end IsStarted
begin-end thread_number p_tmp q = (begin_from-IsStarted thread_number 0 p_tmp [] tt, refl)

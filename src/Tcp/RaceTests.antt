-- ===== src/Tcp/RaceTests.antt =====
-- The theorems about the two threads of the TCP library at concrete interleavings.
use tcp_epoll.Prelude.{◌≡◌, ◌≢◌, ◌⊎◌, Bool, true, false, refl}
use tcp_epoll.Tcp.Race.{
  Threads, WorkerAt, starting, looping, returned, CallerAt, before_end, joining, worker_starts,
  worker_goes_on, caller_ends, Steps, CanEnd, sleeping, after_start-ended, before_start-joining,
}

-- The worker thread has started, and goes on once; then end is called.
abbrev threads : Bool → WorkerAt → CallerAt → Threads
threads exit worker caller = record {
  mb_exit_thread = exit;
  mb_timeout_thread_flag = true;
  worker = worker;
  timeout = sleeping;
  caller = caller;
}

ended_later : Steps (threads false looping before_end) (threads true looping joining)
ended_later =
    Steps.then (Steps.then Steps.done (worker_goes_on refl refl refl)) (caller_ends refl refl)

after_start-ended_example :
    ((looping ≡ returned) ⊎ (true ≡ true)) × CanEnd (threads true looping joining)
after_start-ended_example =
    after_start-ended (threads false looping before_end) (threads true looping joining) refl refl
      ended_later (λ e. cc e)

-- end has set the flag; then the worker thread starts and goes on.
ended_sooner : Steps (threads true starting joining) (threads false looping joining)
ended_sooner =
    Steps.then (Steps.then Steps.done (worker_starts refl refl)) (worker_goes_on refl refl refl)

before_start-joining_example : (joining ≡ joining) × (looping ≢ returned)
before_start-joining_example =
    before_start-joining (threads true starting joining) (threads false looping joining) refl refl
      ended_sooner

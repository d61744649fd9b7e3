-- ===== src/Tcp/Worker.antt =====
-- The threads of ms-epoll.cpp: what worker_thread does with one answer of epoll_wait, and the
-- set-up and the end of the library.
use tcp_epoll.Prelude.{
  ℕ, ◌+◌, ◌%◌, Bool, true, false, not, ◌||◌, Option, none, some, List, [], ◌∷◌, ◌==◌, ltb,
  if◌then◌else◌,
}
use tcp_epoll.Prelude.Int.{ℤ, pos, minus_one, is_neg, le_zero, eq_ℤ}
use tcp_epoll.Kernel.{Syscall}
use tcp_epoll.Tcp.State.{
  LinkType, link_type_null, link_type_listen, link_type_connect, link_type_accept,
  link_type_connected, invalid_htcplink, evt_tcp_disconnected, evt_tcp_keepalive,
}
use tcp_epoll.Tcp.Monad.{
  M, pure, ◌>>=◌, ◌>>◌, gets, modify, when, load, store, syscall, instance_of, set_instance,
}
use tcp_epoll.Tcp.Epoll.{is_disconnected, is_readable, is_writeable, data_link}
use tcp_epoll.Tcp.Registry.{find_link, init_link_map}
use tcp_epoll.Tcp.Callback.{send_link_event}
use tcp_epoll.Tcp.Link.{link_destroy}
use tcp_epoll.Tcp.Events.{on_event_accept, on_event_connected, on_event_read, free_all_link_map}

-- epoll_event
pub record EpollEvent : Type 0 where
  pub events : ℕ
  pub u64 : ℕ

-- What epoll_wait returns, and the events that it has stored.
pub record Batch : Type 0 where
  pub i_event_num : ℤ
  pub stored : List EpollEvent

unfoldable pub bump_keep_alive : M (Unit {0})
bump_keep_alive = modify (λ w. record w {
  ui_keep_alive_times =
      if ltb (w.ui_keep_alive_times + 1) 10_000 then w.ui_keep_alive_times + 1 else 0;
})

unfoldable pub keep_alive_found : Option ℕ → M Bool
unfolding bump_keep_alive send_link_event
keep_alive_found none = pure false
keep_alive_found (some p) = do send_link_event evt_tcp_keepalive p; bump_keep_alive; pure true

-- Whether the round goes on to its events: `continue` leaves it where the first link is not found.
unfoldable pub keep_alive : M Bool
unfolding keep_alive_found find_link
keep_alive = do
  first ← gets (λ w. w.g_ms_tcp_first_create_link)
  times ← gets (λ w. w.ui_keep_alive_times)
  if first == invalid_htcplink
      then pure true
      else (if times % 10 == 0
          then (do found ← find_link first; keep_alive_found found)
          else bump_keep_alive >> pure true)

-- What an event means depends on the state of its link.
unfoldable pub dispatch : ℕ → ℕ → ℕ → LinkType → M (Unit {0})
unfolding on_event_accept on_event_connected on_event_read
dispatch rounds ui_event p link_type_listen =
    when (is_readable ui_event) (on_event_accept rounds p >> pure tt)
dispatch rounds ui_event p link_type_connect =
    when (is_readable ui_event || is_writeable ui_event) (on_event_connected p >> pure tt)
dispatch rounds ui_event p link_type_connected = do
  when (is_writeable ui_event) (store p (λ o. record o { mb_write_flag = true }))
  when (is_readable ui_event) (on_event_read rounds p >> pure tt)
dispatch rounds ui_event p link_type_accept = do
  when (is_writeable ui_event) (store p (λ o. record o { mb_write_flag = true }))
  when (is_readable ui_event) (on_event_read rounds p >> pure tt)
dispatch rounds ui_event p link_type_null = pure tt

unfoldable pub event_found : ℕ → ℕ → Option ℕ → M (Unit {0})
unfolding dispatch send_link_event link_destroy
event_found rounds ui_event none = pure tt
event_found rounds ui_event (some p) =
    if is_disconnected ui_event
    then (do send_link_event evt_tcp_disconnected p; link_destroy false p)
    else (do o ← load p; dispatch rounds ui_event p o.m_link_type)

unfoldable pub handle_event : ℕ → EpollEvent → M (Unit {0})
unfolding event_found find_link
handle_event rounds e = do found ← find_link (data_link e.u64); event_found rounds e.events found

unfoldable pub handle_events : ℕ → List EpollEvent → M (Unit {0})
unfolding handle_event
handle_events rounds [] = pure tt
handle_events rounds (e ∷ es) = handle_event rounds e >> handle_events rounds es

-- One turn of worker_thread's loop.
unfoldable pub worker_round : ℕ → Batch → M (Unit {0})
unfolding keep_alive handle_events
worker_round rounds b = do
  on ← keep_alive
  if not on || le_zero b.i_event_num then pure tt else handle_events rounds b.stored

-- The loop over the answers of epoll_wait, until `mb_exit_thread` is read as true.
unfoldable pub worker_loop : ℕ → List Batch → M (Unit {0})
unfolding worker_round
worker_loop rounds [] = pure tt
worker_loop rounds (b ∷ bs) = do
  e ← instance_of
  if e.mb_exit_thread then pure tt else worker_round rounds b >> worker_loop rounds bs

unfoldable pub worker_thread : ℕ → List Batch → M (Unit {0})
unfolding worker_loop
worker_thread rounds bs = do
  set_instance (λ e. record e { mb_exit_thread = false })
  worker_loop rounds bs

-- The numbers that stand for the two thread functions.
abbrev pub worker_routine : ℕ
worker_routine = 0

abbrev pub timeout_routine : ℕ
timeout_routine = 1

unfoldable pub close_epoll : M (Unit {0})
close_epoll = do
  e ← instance_of
  syscall (Syscall.close e.mi_epoll_fd)
  set_instance (λ e'. record e' { mi_epoll_fd = minus_one })

unfoldable pub start_timeout_thread : M Bool
unfolding close_epoll
start_timeout_thread = do
  set_instance (λ e. record e { mb_timeout_thread_flag = true })
  r ← syscall (Syscall.pthread_create timeout_routine)
  if eq_ℤ r.ret (pos 0)
      then set_instance (λ e. record e { m_pthread_timeout = r.word }) >> pure true
      else (do
        set_instance (λ e. record e { mb_timeout_thread_flag = false })
        close_epoll
        pure false)

unfoldable pub start_threads : M Bool
unfolding close_epoll start_timeout_thread init_link_map
start_threads = do
  init_link_map
  r ← syscall (Syscall.pthread_create worker_routine)
  if eq_ℤ r.ret (pos 0)
      then set_instance (λ e. record e { m_pthread_id = r.word }) >> start_timeout_thread
      else close_epoll >> pure false

-- MsEpoll::init
unfoldable pub init : M Bool
unfolding start_threads
init = do
  e ← instance_of
  if eq_ℤ e.mi_epoll_fd minus_one
      then (do
        r ← syscall (Syscall.epoll_create 1024)
        set_instance (λ e'. record e' { mi_epoll_fd = r.ret })
        if is_neg r.ret then pure false else start_threads)
      else pure false

-- The threads are told to end and waited for, and the epoll set is closed.
unfoldable pub stop_threads : M (Unit {0})
stop_threads = do
  set_instance (λ e. record e { mb_exit_thread = true })
  e ← instance_of
  when (not (e.m_pthread_id == 0)) (
      syscall (Syscall.pthread_join e.m_pthread_id)
      >> set_instance (λ e'. record e' { m_pthread_id = 0 }))
  set_instance (λ e'. record e' { mb_timeout_thread_flag = false })
  when (not (e.m_pthread_timeout == 0)) (
      syscall (Syscall.pthread_join e.m_pthread_timeout)
      >> set_instance (λ e'. record e' { m_pthread_timeout = 0 }))
  syscall (Syscall.close e.mi_epoll_fd)
  set_instance (λ e'. record e' { mi_epoll_fd = minus_one })

-- MsEpoll::end
unfoldable pub end : M (Unit {0})
unfolding stop_threads free_all_link_map
end = stop_threads >> free_all_link_map

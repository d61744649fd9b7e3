-- ===== src/Udp/Worker.antt =====
-- The worker thread, the set-up and the end of the UDP library: udp-ms-epoll.cpp.
use tcp_epoll.Prelude.{
  ℕ, Bool, true, false, not, Option, none, some, List, [], ◌∷◌, ◌==◌, if◌then◌else◌,
}
use tcp_epoll.Prelude.Int.{ℤ, pos, minus_one, is_neg, eq_ℤ, to_u32}
use tcp_epoll.Kernel.{Syscall}
use tcp_epoll.Tcp.Epoll.{is_readable, data_link, data_fd, epollin}
use tcp_epoll.Tcp.Worker.{EpollEvent, Batch, worker_routine}
use tcp_epoll.Udp.Monad.{M, pure, ◌>>=◌, ◌>>◌, when, syscall, instance_of, set_instance}
use tcp_epoll.Udp.Registry.{find_link, init_link_map, set_send_flag}
use tcp_epoll.Udp.Send.{do_send_buff}
use tcp_epoll.Udp.Link.{on_event_read, free_all_link_map}

unfoldable pub read_found : Option ℕ → M (Unit {0})
unfolding on_event_read
read_found none = pure tt
read_found (some p) = on_event_read p >> pure tt

unfoldable pub handle_event : EpollEvent → M (Unit {0})
unfolding read_found find_link
handle_event e =
    when (is_readable e.events) (do found ← find_link (data_link e.u64); read_found found)

-- Whether the thread goes on: it ends at the exit event.
unfoldable pub handle_events : ℤ → List EpollEvent → M Bool
unfolding handle_event
handle_events exit_event [] = pure true
handle_events exit_event (e ∷ es) =
    let rest = handle_events exit_event es in
    if data_fd e.u64 == to_u32 exit_event then pure false else handle_event e >> rest

-- One turn of worker_thread's loop.
unfoldable pub worker_round : Batch → M Bool
unfolding handle_events do_send_buff
worker_round b = if is_neg b.i_event_num then do_send_buff >> pure true else (do
  e ← instance_of
  on ← handle_events e.mi_exit_event b.stored
  if on then do_send_buff >> pure true else pure false)

-- The loop over the answers of epoll_wait.
unfoldable pub worker_thread : List Batch → M (Unit {0})
unfolding worker_round
worker_thread [] = pure tt
worker_thread (b ∷ bs) =
    let rest = worker_thread bs in do on ← worker_round b; if on then rest else pure tt

unfoldable pub close_epoll : M (Unit {0})
close_epoll = do
  e ← instance_of
  syscall (Syscall.close e.mi_epoll_fd)
  set_instance (λ e'. record e' { mi_epoll_fd = minus_one })

unfoldable pub close_exit_event : M (Unit {0})
close_exit_event = do
  e ← instance_of
  syscall (Syscall.close e.mi_exit_event)
  set_instance (λ e'. record e' { mi_exit_event = minus_one })

unfoldable pub start_thread : M Bool
unfolding init_link_map set_send_flag close_epoll close_exit_event
start_thread = do
  init_link_map
  set_send_flag false
  r ← syscall (Syscall.pthread_create worker_routine)
  if eq_ℤ r.ret (pos 0)
      then set_instance (λ e. record e { m_pthread_id = r.word }) >> pure true
      else close_epoll >> close_exit_event >> pure false

-- The exit event is watched, as its descriptor.
unfoldable pub watch_exit_event : M Bool
unfolding start_thread close_epoll close_exit_event
watch_exit_event = do
  e ← instance_of
  r ← syscall (Syscall.epoll_ctl_add e.mi_epoll_fd e.mi_exit_event epollin (to_u32 e.mi_exit_event))
  if is_neg r.ret then close_epoll >> close_exit_event >> pure false else start_thread

-- MsUdpEpoll::init
unfoldable pub init : M Bool
unfolding watch_exit_event close_epoll
init = do
  e ← instance_of
  if eq_ℤ e.mi_epoll_fd minus_one
      then (do
        r ← syscall (Syscall.epoll_create 1024)
        set_instance (λ e'. record e' { mi_epoll_fd = r.ret })
        if is_neg r.ret then pure false else (do
          x ← syscall Syscall.eventfd
          set_instance (λ e'. record e' { mi_exit_event = x.ret })
          if is_neg x.ret then close_epoll >> pure false else watch_exit_event))
      else pure false

-- The eight bytes of `unsigned long long ull_exit = 1`.
abbrev pub ull_exit : List ℕ
ull_exit = 1 ∷ 0 ∷ 0 ∷ 0 ∷ 0 ∷ 0 ∷ 0 ∷ 0 ∷ []

unfoldable pub stop_thread : M (Unit {0})
stop_thread = do
  e ← instance_of
  syscall (Syscall.write e.mi_exit_event ull_exit 8)
  when (not (e.m_pthread_id == 0)) (
      syscall (Syscall.pthread_join e.m_pthread_id)
      >> set_instance (λ e'. record e' { m_pthread_id = 0 }))
  syscall (Syscall.close e.mi_exit_event)
  syscall (Syscall.close e.mi_epoll_fd)
  set_instance (λ e'. record e' { mi_epoll_fd = minus_one; mi_exit_event = minus_one })

-- MsUdpEpoll::end
unfoldable pub end : M (Unit {0})
unfolding stop_thread free_all_link_map
end = stop_thread >> free_all_link_map

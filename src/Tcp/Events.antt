-- ===== src/Tcp/Events.antt =====
-- The handlers of a link's events in tcp-link.cpp: accepting, connecting, reading, and the two
-- walks over all links. A loop that waits for the kernel to have no more takes a number of rounds.
use tcp_epoll.Prelude.{
  ℕ, zero, suc, ◌*◌, Bool, true, false, not, ◌&&◌, ◌||◌, none, some, List, [], ◌∷◌, ◌==◌, take,
  if◌then◌else◌,
}
use tcp_epoll.Prelude.Int.{ℤ, is_neg, le_zero, pos_part}
use tcp_epoll.Kernel.{Syscall, eagain, ewouldblock, eintr, econnreset}
use tcp_epoll.Tcp.State.{
  LinkType, link_type_null, link_type_listen, link_type_connect, link_type_accept,
  link_type_connected, status_recv_begin, status_recv_middle, status_recv_end,
}
use tcp_epoll.Tcp.Monad.{M, spin, pure, ◌>>=◌, ◌>>◌, gets, when, load, store, syscall, new_object}
use tcp_epoll.Tcp.Epoll.{attach_to_epoll, mod_epoll_read, del_epoll_read}
use tcp_epoll.Tcp.Registry.{add_tcp_link, registered}
use tcp_epoll.Tcp.Callback.{send_accept_link, send_recv_data}
use tcp_epoll.Tcp.Sockets.{set_last_alive}
use tcp_epoll.Tcp.Link.{link_destroy, accept_link, is_alive}

unfoldable pub out_of_rounds : M (Unit {0})
out_of_rounds w = spin

-- The accepted link `q` is registered, watched, and told of by the listening link `p`.
unfoldable pub adopt : ℕ → ℕ → ℕ → M (Unit {0})
unfolding add_tcp_link attach_to_epoll send_accept_link
adopt st_time p q = do
  h_link ← add_tcp_link q
  store q (λ o. record o { mh_link = h_link })
  store q (λ o. record o { mt_last_alive_time = st_time })
  o ← load q
  watched ← attach_to_epoll o.mi_socket o.mh_link true
  when watched (send_accept_link h_link p)

-- One round of the loop: a link object for a connection that may be there.
unfoldable pub accept_round : ℕ → ℕ → M (Unit {0}) → M (Unit {0})
unfolding adopt accept_link
accept_round st_time p rest = do
  now ← syscall Syscall.time
  q ← new_object (pos_part now.ret)
  o ← load p
  there ← accept_link o.mi_socket o.mp_tcpcallback q
  if there then adopt st_time p q >> rest else pure tt

unfoldable pub accept_loop : ℕ → ℕ → ℕ → M (Unit {0})
unfolding out_of_rounds accept_round
accept_loop zero st_time p = out_of_rounds
accept_loop (suc rounds) st_time p =
    let rest = accept_loop rounds st_time p in accept_round st_time p rest

unfoldable pub on_event_accept : ℕ → ℕ → M Bool
unfolding accept_loop
on_event_accept rounds p = do
  t ← syscall Syscall.time
  accept_loop rounds (pos_part t.ret) p
  store p (λ o. record o { mt_last_alive_time = pos_part t.ret })
  pure true

unfoldable pub on_event_connected : ℕ → M Bool
unfolding set_last_alive
on_event_connected p = do
  store p (λ o. record o { m_link_type = link_type_connected })
  set_last_alive p
  pure true

unfoldable pub on_event_write : ℕ → M Bool
on_event_write p = pure true

abbrev pub i_recv_buff_size : ℕ
i_recv_buff_size = 10 * 1024 * 1024

-- The read failed for another reason than the end of the connection.
unfoldable pub read_refused : ℤ → ℕ → ℕ → M (Unit {0})
unfolding mod_epoll_read
read_refused fd h_link err =
    if err == eagain || err == ewouldblock
    then pure tt
    else (do when (err == eintr) (mod_epoll_read fd h_link >> pure tt); pure tt)

-- The peer has closed or reset the connection.
unfoldable pub read_ended : ℤ → ℕ → M (Unit {0})
unfolding del_epoll_read link_destroy
read_ended fd p = do del_epoll_read fd; link_destroy true p

unfoldable pub read_round : ℕ → M (Unit {0}) → M (Unit {0})
unfolding read_refused read_ended send_recv_data
read_round p rest = do
  o ← load p
  r ← syscall (Syscall.read o.mi_socket i_recv_buff_size)
  if le_zero r.ret
      then (if is_neg r.ret && not (r.errno == econnreset)
          then read_refused o.mi_socket o.mh_link r.errno
          else read_ended o.mi_socket p)
      else (do
        send_recv_data (some (take (pos_part r.ret) r.bytes)) (pos_part r.ret) status_recv_middle p
        rest)

unfoldable pub read_loop : ℕ → ℕ → M (Unit {0})
unfolding out_of_rounds read_round
read_loop zero p = out_of_rounds
read_loop (suc rounds) p = let rest = read_loop rounds p in read_round p rest

unfoldable pub on_event_read : ℕ → ℕ → M Bool
unfolding read_loop set_last_alive send_recv_data
on_event_read rounds p = do
  send_recv_data none 0 status_recv_begin p
  read_loop rounds p
  send_recv_data none 0 status_recv_end p
  set_last_alive p
  pure true

unfoldable pub destroy_all : List ℕ → M (Unit {0})
unfolding link_destroy
destroy_all [] = pure tt
destroy_all (p ∷ ps) = link_destroy true p >> destroy_all ps

unfoldable pub free_all_link_map : M (Unit {0})
unfolding destroy_all
free_all_link_map = do ps ← gets (λ w. registered w.m_maplink); destroy_all ps

unfoldable pub is_listen : LinkType → Bool
is_listen link_type_listen = true
is_listen link_type_null = false
is_listen link_type_connect = false
is_listen link_type_accept = false
is_listen link_type_connected = false

-- The links that have been idle too long, but no listening one.
unfoldable pub timed_out : ℕ → List ℕ → M (List ℕ)
unfolding is_alive is_listen
timed_out now [] = pure []
timed_out now (p ∷ ps) = do
  alive ← is_alive now p
  o ← load p
  rest ← timed_out now ps
  pure (if not alive && not (is_listen o.m_link_type) then p ∷ rest else rest)

-- The check of a list of links that is not empty, at the time that the clock answers.
unfoldable pub check_links : List ℕ → M (Unit {0})
unfolding timed_out destroy_all
check_links [] = pure tt
check_links (q ∷ qs) = do
  t ← syscall Syscall.time
  idle ← timed_out (pos_part t.ret) (q ∷ qs)
  destroy_all idle

unfoldable pub check_link_timeout : M (Unit {0})
unfolding check_links
check_link_timeout = do ps ← gets (λ w. registered w.m_maplink); check_links ps

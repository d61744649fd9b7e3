-- ===== src/Udp/Send.antt =====
-- Sending in udp-link.cpp: link_send_to queues a datagram that the kernel cannot take, and
-- do_send_buff sends what is queued.
use tcp_epoll.Prelude.{
  ℕ, Bool, true, false, not, ◌||◌, Option, none, some, List, [], ◌∷◌, ◌++◌, take, ◌==◌,
  if◌then◌else◌, is_some,
}
use tcp_epoll.Prelude.Int.{ℤ, pos, is_neg, eq_ℤ, to_u32}
use tcp_epoll.Kernel.{SockAddr, Syscall, af_inet, eagain, htons, htonl}
use tcp_epoll.Tcp.Registry.{registered}
use tcp_epoll.Udp.State.{SendBuff, udp_flag_broadcast}
use tcp_epoll.Udp.Monad.{M, crash, pure, ◌>>=◌, ◌>>◌, gets, when, load, store, syscall}
use tcp_epoll.Udp.Registry.{set_send_flag}

-- There is nothing to send: `(p_data == NULL) || (ui_size == 0)`.
abbrev pub is_null : SendBuff → Bool
is_null b = not (is_some b.p_data) || b.ui_size == 0

-- The walk over the queue of a link, and what stays in it: up to the first that the kernel does
-- not take, all are sent, or dropped where there is nothing to send.
unfoldable pub flush : ℤ → List SendBuff → M (List SendBuff)
flush fd [] = pure []
flush fd (b ∷ bs) =
    let rest = flush fd bs in
    if is_null b then rest else (do
      r ← syscall (Syscall.sendto fd b.p_data b.ui_size b.dst_addr)
      if is_neg r.ret then pure (b ∷ bs) else rest)

abbrev pub is_empty : List SendBuff → Bool
is_empty [] = true
is_empty (_ ∷ _) = false

unfoldable pub flush_link : ℕ → M (Unit {0})
unfolding flush set_send_flag
flush_link p = do
  o ← load p
  left ← flush o.mi_socket o.m_send_buff_list
  store p (λ o'. record o' { m_send_buff_list = left })
  when (not (is_empty left)) (set_send_flag true)

unfoldable pub flush_all : List ℕ → M (Unit {0})
unfolding flush_link
flush_all [] = pure tt
flush_all (p ∷ ps) = flush_link p >> flush_all ps

unfoldable pub do_send_buff : M (Unit {0})
unfolding flush_all set_send_flag
do_send_buff = do
  flag ← gets (λ w. w.mb_send_flag)
  if flag
      then (do set_send_flag false; ps ← gets (λ w. registered w.m_maplink); flush_all ps)
      else pure tt

-- A copy of the caller's bytes goes to the end of the queue. From NULL there is nothing to copy.
unfoldable pub queue : Option (List ℕ) → ℕ → SockAddr → ℕ → M Bool
unfolding set_send_flag
queue none ui_size dst_addr p = λ w. crash
queue (some bytes) ui_size dst_addr p = do
  store p (λ o. record o {
    m_send_buff_list =
        o.m_send_buff_list
        ++ record { p_data = some (take ui_size bytes); ui_size = ui_size; dst_addr = dst_addr }
          ∷ [];
  })
  set_send_flag true
  pure true

unfoldable pub send_to : Option (List ℕ) → ℕ → SockAddr → ℕ → M Bool
unfolding queue
send_to p_data ui_size dst_addr p = do
  o ← load p
  r ← syscall (Syscall.sendto o.mi_socket p_data ui_size dst_addr)
  if is_neg r.ret
      then (if r.errno == eagain then queue p_data ui_size dst_addr p else pure false)
      else pure true

abbrev pub inaddr_broadcast : ℕ
inaddr_broadcast = 0xffff_ffff

abbrev pub to_addr : ℕ → ℕ → SockAddr
to_addr us_port s_addr = record { sin_family = af_inet; sin_port = htons us_port; s_addr = s_addr }

unfoldable pub send_to_ip : Option (List ℕ) → ℕ → ℕ → ℕ → Option (List ℕ) → M Bool
unfolding send_to
send_to_ip p_data ui_size us_port p none = pure false
send_to_ip p_data ui_size us_port p (some ip) = do
  r ← syscall (Syscall.inet_addr ip)
  send_to p_data ui_size (to_addr us_port (to_u32 r.ret)) p

unfoldable pub link_send_to : Option (List ℕ) → ℕ → ℤ → Option (List ℕ) → ℕ → ℕ → M Bool
unfolding send_to send_to_ip
link_send_to p_data ui_size i_flag p_ip us_port p =
    if eq_ℤ i_flag (pos udp_flag_broadcast)
    then send_to p_data ui_size (to_addr us_port (htonl inaddr_broadcast)) p
    else send_to_ip p_data ui_size us_port p p_ip

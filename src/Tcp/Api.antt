-- ===== src/Tcp/Api.antt =====
-- The interface of the TCP library: ms-epoll-tcp.cpp. A link is named by its handle.
use tcp_epoll.Prelude.{ℕ, Bool, true, false, Option, none, some, List, ◌==◌, if◌then◌else◌}
use tcp_epoll.Prelude.Int.{pos_part, to_u32, minus_one, ℤ}
use tcp_epoll.Kernel.{Syscall}
use tcp_epoll.Tcp.State.{invalid_htcplink, evt_tcp_created}
use tcp_epoll.Tcp.Monad.{
  M, pure, ◌>>=◌, ◌>>◌, gets, modify, when, load, store, syscall, new_object, release_instance,
}
use tcp_epoll.Tcp.Epoll.{attach_to_epoll}
use tcp_epoll.Tcp.Registry.{find_link, add_tcp_link}
use tcp_epoll.Tcp.Callback.{send_link_event}
use tcp_epoll.Tcp.Sockets.{get_link_addr}
use tcp_epoll.Tcp.Link.{link_create, link_connect, link_listen, link_destroy, link_send_data}
use tcp_epoll.Tcp.Worker.{init, end}

unfoldable pub ms_tcp_init : M Bool
unfolding init
ms_tcp_init = syscall Syscall.ignore_sigpipe >> init

unfoldable pub ms_tcp_uninit : M (Unit {0})
unfolding end
ms_tcp_uninit = end >> release_instance

unfoldable pub remember_first : ℕ → M (Unit {0})
remember_first h_link = do
  first ← gets (λ w. w.g_ms_tcp_first_create_link)
  when (first == invalid_htcplink) (modify (λ w. record w { g_ms_tcp_first_create_link = h_link }))

-- A link that has its socket is registered, and its callback told of it.
unfoldable pub announce : ℕ → M ℕ
unfolding add_tcp_link send_link_event remember_first
announce p = do
  h_link ← add_tcp_link p
  store p (λ o. record o { mh_link = h_link })
  send_link_event evt_tcp_created p
  remember_first h_link
  pure h_link

unfoldable pub ms_tcp_create : Option ℕ → Option (List ℕ) → ℕ → M ℕ
unfolding announce link_create
ms_tcp_create back_func p_local_addr us_local_port = do
  now ← syscall Syscall.time
  p ← new_object (pos_part now.ret)
  created ← link_create back_func p_local_addr us_local_port p
  if created then announce p else pure invalid_htcplink

unfoldable pub destroy_found : Option ℕ → M Bool
unfolding link_destroy
destroy_found none = pure false
destroy_found (some p) = link_destroy true p >> pure true

unfoldable pub ms_tcp_destroy : ℕ → M Bool
unfolding destroy_found find_link
ms_tcp_destroy h_link = do found ← find_link h_link; destroy_found found

unfoldable pub watch : ℕ → ℕ → Bool → M Bool
unfolding attach_to_epoll
watch h_link p false = pure false
watch h_link p true = do o ← load p; attach_to_epoll o.mi_socket h_link true; pure true

unfoldable pub connect_found : ℕ → Option (List ℕ) → ℕ → Option ℕ → M Bool
unfolding watch link_connect
connect_found h_link p_addr us_port none = pure false
connect_found h_link p_addr us_port (some p) = do
  connected ← link_connect p_addr us_port p
  watch h_link p connected

unfoldable pub ms_tcp_connect : ℕ → Option (List ℕ) → ℕ → M Bool
unfolding connect_found find_link
ms_tcp_connect h_link p_addr us_port = do
  found ← find_link h_link
  connect_found h_link p_addr us_port found

unfoldable pub listen_found : ℕ → ℕ → Option ℕ → M Bool
unfolding watch link_listen
listen_found h_link ui_block none = pure false
listen_found h_link ui_block (some p) = do listens ← link_listen ui_block p; watch h_link p listens

unfoldable pub ms_tcp_listen : ℕ → ℕ → M Bool
unfolding listen_found find_link
ms_tcp_listen h_link ui_block = do found ← find_link h_link; listen_found h_link ui_block found

unfoldable pub send_found : Option (List ℕ) → ℕ → Option ℕ → M (ℕ × ℤ)
unfolding link_send_data
send_found p_data ui_size none = pure (0, minus_one)
send_found p_data ui_size (some p) = do
  r ← link_send_data p_data ui_size p
  pure (to_u32 r.0, ℤ.pos r.1)

-- The length sent, an unsigned int, and `*i_error`.
unfoldable pub ms_tcp_send : ℕ → Option (List ℕ) → ℕ → M (ℕ × ℤ)
unfolding send_found find_link
ms_tcp_send h_link p_data ui_size = do found ← find_link h_link; send_found p_data ui_size found

unfoldable pub addr_found : ℕ → Option ℕ → M (Option (ℕ × ℕ))
unfolding get_link_addr
addr_found ui_type none = pure none
addr_found ui_type (some p) = get_link_addr ui_type p

-- The address and the port, where there is an answer.
unfoldable pub ms_tcp_get_link_addr : ℕ → ℕ → M (Option (ℕ × ℕ))
unfolding addr_found find_link
ms_tcp_get_link_addr h_link ui_type = do found ← find_link h_link; addr_found ui_type found

unfoldable pub ms_tcp_set_log_callback_func : Option ℕ → M Bool
ms_tcp_set_log_callback_func none = pure false
ms_tcp_set_log_callback_func (some func) = do
  modify (λ w. record w { g_tcp_log_callback = func })
  pure true

-- ===== src/Udp/Api.antt =====
-- The interface of the UDP library: ms-epoll-udp.cpp. A link is named by its handle.
use tcp_epoll.Prelude.{ℕ, Bool, true, false, Option, none, some, List, if◌then◌else◌}
use tcp_epoll.Prelude.Int.{ℤ}
use tcp_epoll.Kernel.{Syscall}
use tcp_epoll.Udp.State.{invalid_hudplink, evt_udp_created}
use tcp_epoll.Udp.Monad.{M, pure, ◌>>=◌, ◌>>◌, load, store, syscall, new_object, release_instance}
use tcp_epoll.Udp.Registry.{attach_to_epoll, find_link, add_tcp_link}
use tcp_epoll.Udp.Link.{send_link_event, link_create, link_destroy}
use tcp_epoll.Udp.Send.{link_send_to}
use tcp_epoll.Udp.Worker.{init, end}

unfoldable pub ms_udp_init : M Bool
unfolding init
ms_udp_init = syscall Syscall.ignore_sigpipe >> init

unfoldable pub ms_udp_uninit : M (Unit {0})
unfolding end
ms_udp_uninit = end >> release_instance

-- A link that has its socket is registered and watched, and its callback told of it.
unfoldable pub announce : ℕ → M ℕ
unfolding add_tcp_link attach_to_epoll send_link_event
announce p = do
  h_link ← add_tcp_link p
  store p (λ o. record o { mh_link = h_link })
  o ← load p
  attach_to_epoll o.mi_socket h_link true
  send_link_event evt_udp_created p
  pure h_link

unfoldable pub ms_udp_create : Option ℕ → ℤ → Option (List ℕ) → ℕ → M ℕ
unfolding announce link_create
ms_udp_create back_func i_flag p_local_addr us_local_port = do
  p ← new_object
  created ← link_create back_func i_flag p_local_addr us_local_port p
  if created then announce p else pure invalid_hudplink

unfoldable pub destroy_found : Option ℕ → M Bool
unfolding link_destroy
destroy_found none = pure false
destroy_found (some p) = link_destroy p >> pure true

unfoldable pub ms_udp_destroy : ℕ → M Bool
unfolding destroy_found find_link
ms_udp_destroy h_link = do found ← find_link h_link; destroy_found found

unfoldable pub send_found : Option (List ℕ) → ℕ → ℤ → Option (List ℕ) → ℕ → Option ℕ → M Bool
unfolding link_send_to
send_found p_data ui_size i_flag p_ip us_port none = pure false
send_found p_data ui_size i_flag p_ip us_port (some p) =
    link_send_to p_data ui_size i_flag p_ip us_port p

unfoldable pub ms_udp_send_to : ℕ → Option (List ℕ) → ℕ → ℤ → Option (List ℕ) → ℕ → M Bool
unfolding send_found find_link
ms_udp_send_to h_link p_data ui_size i_flag p_ip us_port = do
  found ← find_link h_link
  send_found p_data ui_size i_flag p_ip us_port found

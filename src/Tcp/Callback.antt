-- ===== src/Tcp/Callback.antt =====
-- The calls of the user's callback that tcp-link.cpp makes.
use tcp_epoll.Prelude.{ℕ, Option, List}
use tcp_epoll.Tcp.State.{
  no_param, accepted_param, recv_param, evt_tcp_accepted, evt_tcp_receivedata,
}
use tcp_epoll.Tcp.Monad.{M, ◌>>=◌, load, call_back}

unfoldable pub send_link_event : ℕ → ℕ → M (Unit {0})
send_link_event ui_event p = do
  o ← load p
  call_back o.mp_tcpcallback (record { ui_event = ui_event; h_link = o.mh_link }) no_param

unfoldable pub send_accept_link : ℕ → ℕ → M (Unit {0})
send_accept_link h_accept_link p = do
  o ← load p
  call_back o.mp_tcpcallback (record { ui_event = evt_tcp_accepted; h_link = o.mh_link })
      (accepted_param h_accept_link)

unfoldable pub send_recv_data : Option (List ℕ) → ℕ → ℕ → ℕ → M (Unit {0})
send_recv_data buffer size i_status p = do
  o ← load p
  call_back o.mp_tcpcallback (record { ui_event = evt_tcp_receivedata; h_link = o.mh_link })
      (recv_param buffer size i_status)

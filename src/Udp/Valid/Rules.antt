-- ===== src/Udp/Valid/Rules.antt =====
-- Handlers and calls of the UDP library that leave its registry as it is.
use tcp_epoll.Prelude.{ℕ, ◌≡◌, true, Option, some, List, is_some, arith}
use tcp_epoll.Prelude.Int.{ℤ}
use tcp_epoll.Udp.State.{UdpWorld}
use tcp_epoll.Udp.Monad.{Ensures}
use tcp_epoll.Udp.Send.{link_send_to}
use tcp_epoll.Udp.Link.{on_event_read}
use tcp_epoll.Udp.Valid.{UdpKept}

pub link_send_to-UdpKept :
    (bytes : List ℕ) (ui_size : ℕ) (i_flag : ℤ) (ip : Option (List ℕ)) (us_port p : ℕ)
    (w : UdpWorld)
    → Ensures (link_send_to (some bytes) ui_size i_flag ip us_port p w) (λ _ w'. UdpKept w w')
unfolding link_send_to
link_send_to-UdpKept bytes ui_size i_flag ip us_port p w = ground arith

pub on_event_read-UdpKept :
    (p : ℕ) (w : UdpWorld)
    → is_some (w.heap p).mp_udpcallback ≡ true
    → Ensures (on_event_read p w) (λ _ w'. UdpKept w w')
unfolding on_event_read
on_event_read-UdpKept p w named = ground arith

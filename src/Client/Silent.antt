-- ===== src/Client/Silent.antt =====
-- The client of samples/samples-client/test-client.cpp as the callback of the library that reads
-- for it: TcpIOCallbackFunc of samples/samples-client/include/net-handler.h.
use tcp_epoll.Prelude.{◌≡◌}
use tcp_epoll.Exec.{done}
use tcp_epoll.Tcp.Delivery.{Told}
use tcp_epoll.Client.{TestClient, tcp_io_callback_func}

-- All but the handle of the link is as before.
abbrev pub SameClient : TestClient → TestClient → Type 0
SameClient s s' = s' ≡ record s { mh_tcp_link = s'.mh_tcp_link }

-- The client keeps nothing of what this call tells it.
Quiet : Told → Type 0
Quiet t =
    (s : TestClient)
    → (s' : TestClient) × (tcp_io_callback_func t.event t.param s ≡ done tt s') × SameClient s s'

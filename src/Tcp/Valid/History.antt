-- ===== src/Tcp/Valid/History.antt =====
-- Histories of the TCP library: calls of ms-epoll-tcp.cpp and rounds of the worker thread, in any
-- order.
use tcp_epoll.Tcp.Start.{ms_tcp_init-IsValid, ms_tcp_uninit_lem}
use tcp_epoll.Prelude.{ℕ, ◌≡◌, Bool, Option, some, List, subst}
use tcp_epoll.Tcp.State.{World, invalid_htcplink}
use tcp_epoll.Tcp.Monad.{M, done, Ensures, Allows, Ensures-Allows, pure, ◌>>◌}
use tcp_epoll.Tcp.Worker.{Batch, worker_round}
use tcp_epoll.Tcp.Api.{
  ms_tcp_create, ms_tcp_destroy, ms_tcp_connect, ms_tcp_listen, ms_tcp_send, ms_tcp_get_link_addr,
  ms_tcp_set_log_callback_func, ms_tcp_init, ms_tcp_uninit,
}
use tcp_epoll.Tcp.Valid.{IsValid}
use tcp_epoll.Tcp.Valid.Preserves.{Preserves, preserves_rules}
use tcp_epoll.Tcp.Valid.Worker.{Preserves-worker_round}
use tcp_epoll.Tcp.Valid.Create.{Preserves-ms_tcp_create}
use tcp_epoll.Tcp.Valid.Api.{
  Preserves-ms_tcp_destroy, Preserves-ms_tcp_connect, Preserves-ms_tcp_listen,
  Preserves-ms_tcp_send, Preserves-ms_tcp_get_link_addr, Preserves-ms_tcp_set_log_callback_func,
}

-- A call of the library, or a round of its worker thread.
pub data Op : Type 0 where
  create : ℕ → Option (List ℕ) → ℕ → Op
  destroy : ℕ → Op
  connect : ℕ → Option (List ℕ) → ℕ → Op
  listen : ℕ → ℕ → Op
  send : ℕ → Option (List ℕ) → ℕ → Op
  get_link_addr : ℕ → ℕ → Op
  set_log_callback_func : Option ℕ → Op
  uninit : Op
  events : ℕ → Batch → Op

abbrev pub run : Op → M (Unit {0})
run (create f addr us_port) = ms_tcp_create (some f) addr us_port >> pure tt
run (destroy h) = ms_tcp_destroy h >> pure tt
run (connect h addr us_port) = ms_tcp_connect h addr us_port >> pure tt
run (listen h ui_block) = ms_tcp_listen h ui_block >> pure tt
run (send h d ui_size) = ms_tcp_send h d ui_size >> pure tt
run (get_link_addr h ui_type) = ms_tcp_get_link_addr h ui_type >> pure tt
run (set_log_callback_func func) = ms_tcp_set_log_callback_func func >> pure tt
run uninit = ms_tcp_uninit
run (events rounds b) = worker_round rounds b

pub Preserves-run : (op : Op) → Preserves (run op)
Preserves-run (create f addr us_port) = search (preserves_rules, Preserves-ms_tcp_create)
Preserves-run (destroy h) = search (preserves_rules, Preserves-ms_tcp_destroy)
Preserves-run (connect h addr us_port) = search (preserves_rules, Preserves-ms_tcp_connect)
Preserves-run (listen h ui_block) = search (preserves_rules, Preserves-ms_tcp_listen)
Preserves-run (send h d ui_size) = search (preserves_rules, Preserves-ms_tcp_send)
Preserves-run (get_link_addr h ui_type) = search (preserves_rules, Preserves-ms_tcp_get_link_addr)
Preserves-run (set_log_callback_func func) =
    search (preserves_rules, Preserves-ms_tcp_set_log_callback_func)
Preserves-run uninit = record {
  at = λ w v. Ensures-Allows (ms_tcp_uninit w) _ _ (ms_tcp_uninit_lem w v) λ _ _ r. r.0;
}
Preserves-run (events rounds b) = Preserves-worker_round rounds b

-- A history of calls and rounds, each of which has ended. ms_tcp_init comes only while no first link
-- is remembered: before any link, or after ms_tcp_uninit or the end of that link.
pub data Reach (w : World) : World → Type 0 where
  here : Reach w w
  next : {u v : World} (op : Op) → Reach w u → run op u ≡ done tt v → Reach w v
  next_init :
      {u v : World} (ok : Bool)
      → Reach w u
      → u.g_ms_tcp_first_create_link ≡ invalid_htcplink
      → ms_tcp_init u ≡ done ok v
      → Reach w v

-- After calls of the TCP library in any order, with callbacks, and rounds of its worker thread, from
-- a valid state, the state is valid: every handle names a link that is there, knows the handle, and
-- has a callback; the map of sockets has the same handles; the first link, if one is remembered, is
-- registered. The calls are ms_tcp_create, destroy, connect, listen, send, get_link_addr,
-- set_log_callback_func and uninit at any time, and ms_tcp_init where no first link is remembered:
-- where one is, ms_tcp_init drops it from the registry and still remembers it.
pub Reach-IsValid : {w u : World} → IsValid w → Reach w u → IsValid u
Reach-IsValid v here = v
Reach-IsValid v (next {u} {v = u'} op r e) =
    subst (λ o. Allows o (λ _ w'. IsValid w')) e ((Preserves-run op).at u (Reach-IsValid v r))
Reach-IsValid v (next_init {u} {v = u'} ok r f e) =
    subst (λ o. Ensures o (λ _ w'. IsValid w')) e (ms_tcp_init-IsValid u (Reach-IsValid v r) f)

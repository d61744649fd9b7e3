-- ===== src/Tcp/Valid.antt =====
-- The invariant of the registry in tcp-link.cpp: what is true of the static members between two
-- calls of the library.
pub mod Rules
pub mod Destroy
pub mod Only
pub mod Named
pub mod Accept
pub mod Preserves
pub mod Worker
pub mod Api
pub mod Create
pub mod History
pub mod Added
pub mod Safe
pub mod Read
pub mod Link
use tcp_epoll.Prelude.{ℕ, ◌≤◌, ◌<◌, ◌≡◌, ◌⊎◌, true, some, is_some, arith}
use tcp_epoll.StdMap.{find}
use tcp_epoll.StdMap.Order.{Ascends}
use tcp_epoll.Tcp.State.{World, invalid_htcplink}
use tcp_epoll.Tcp.Registry.{int_max}

-- A registered link is an object that is there, knows its handle, and has a callback. Its handle
-- has been given out.
pub record IsLinked (w : World) (h p : ℕ) : Type 0 where
  pub handle : (w.heap p).mh_link ≡ h
  pub object : p < w.next
  pub named : is_some (w.heap p).mp_tcpcallback ≡ true
  pub positive : 1 ≤ h
  pub given : h ≤ w.i_link

-- The links and their sockets are kept under the same handles, and the link that gets the
-- keep-alive events is a registered one.
pub record IsValid (w : World) : Type 0 where
  pub links : (h p : ℕ) → find h w.m_maplink ≡ some p → IsLinked w h p
  pub sockets : (h : ℕ) → is_some (find h w.m_link_socket_map) ≡ is_some (find h w.m_maplink)
  pub first :
      (w.g_ms_tcp_first_create_link ≡ invalid_htcplink)
      ⊎ (is_some (find w.g_ms_tcp_first_create_link w.m_maplink) ≡ true)
  pub counter : w.i_link ≤ int_max
  pub ordered : Ascends w.m_maplink

-- The registry, and what it says of the objects that are there, is as before.
pub record Kept (w w' : World) : Type 0 where
  pub maplink : w'.m_maplink ≡ w.m_maplink
  pub socket_map : w'.m_link_socket_map ≡ w.m_link_socket_map
  pub same_first : w'.g_ms_tcp_first_create_link ≡ w.g_ms_tcp_first_create_link
  pub same_counter : w'.i_link ≡ w.i_link
  pub objects : w.next ≤ w'.next
  pub handles : (q : ℕ) → q < w.next → (w'.heap q).mh_link ≡ (w.heap q).mh_link
  pub callbacks : (q : ℕ) → q < w.next → (w'.heap q).mp_tcpcallback ≡ (w.heap q).mp_tcpcallback

pub Kept-IsValid : {w w' : World} → IsValid w → Kept w w' → IsValid w'
Kept-IsValid {w} {w'} v k = record {
  links = λ h q e. linked h q (ground (arith, k.maplink));
  sockets = λ h. ground (arith, v.sockets h, k.maplink, k.socket_map);
  first = ground (arith, v.first, k.maplink, k.same_first);
  counter = ground (arith, v.counter, k.same_counter);
  ordered = ground (arith, v.ordered, k.maplink);
}
  where
    linked : (h q : ℕ) → find h w.m_maplink ≡ some q → IsLinked w' h q
    linked h q e = ground (arith, v.links h q e, k.handles q, k.callbacks q)

pub Kept-trans : {u v w : World} → Kept u v → Kept v w → Kept u w
Kept-trans {u} {v} {w} k l = grind arith

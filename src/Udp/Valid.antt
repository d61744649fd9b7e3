-- ===== src/Udp/Valid.antt =====
-- The invariant of the UDP library, udp-link.cpp: what is true of the registry, the queues and the
-- send flag between two calls.
pub mod Rules
pub mod Flush
pub mod Ends
pub mod Create
pub mod History
use tcp_epoll.Prelude.{ℕ, ◌≤◌, ◌<◌, ◌≡◌, ◌⊎◌, true, false, some, is_some, arith}
use tcp_epoll.StdMap.{find}
use tcp_epoll.StdMap.Order.{Ascends}
use tcp_epoll.Tcp.Registry.{int_max}
use tcp_epoll.Udp.State.{UdpWorld}
use tcp_epoll.Udp.Send.{is_empty}

-- No datagram waits in the queue of the object, or the flag says that some do.
abbrev pub IsQuiet : UdpWorld → ℕ → Type 0
IsQuiet w p = (is_empty (w.heap p).m_send_buff_list ≡ true) ⊎ (w.mb_send_flag ≡ true)

-- A registered link is an object that is there, knows its handle, and has a callback. Its handle
-- has been given out, and its datagrams are not forgotten.
pub record IsUdpLinked (w : UdpWorld) (h p : ℕ) : Type 0 where
  pub handle : (w.heap p).mh_link ≡ h
  pub object : p < w.next
  pub named : is_some (w.heap p).mp_udpcallback ≡ true
  pub given : h ≤ w.i_link
  pub quiet : IsQuiet w p

pub record IsUdpValid (w : UdpWorld) : Type 0 where
  pub links : (h p : ℕ) → find h w.m_maplink ≡ some p → IsUdpLinked w h p
  pub counter : w.i_link ≤ int_max
  pub ordered : Ascends w.m_maplink

-- The registry, and what it says of the objects that are there, is as before.
pub record UdpKept (w w' : UdpWorld) : Type 0 where
  pub maplink : w'.m_maplink ≡ w.m_maplink
  pub same_counter : w'.i_link ≡ w.i_link
  pub objects : w.next ≤ w'.next
  pub handles : (q : ℕ) → q < w.next → (w'.heap q).mh_link ≡ (w.heap q).mh_link
  pub callbacks : (q : ℕ) → q < w.next → (w'.heap q).mp_udpcallback ≡ (w.heap q).mp_udpcallback
  pub quiets : (q : ℕ) → q < w.next → IsQuiet w q → IsQuiet w' q

pub UdpKept-IsUdpValid : {w w' : UdpWorld} → IsUdpValid w → UdpKept w w' → IsUdpValid w'
UdpKept-IsUdpValid {w} {w'} v k = record {
  links = λ h q e. linked h q (ground (arith, k.maplink));
  counter = ground (arith, v.counter, k.same_counter);
  ordered = ground (arith, v.ordered, k.maplink);
}
  where
    linked : (h q : ℕ) → find h w.m_maplink ≡ some q → IsUdpLinked w' h q
    linked h q e =
        ground
          (arith, v.links h q e, k.handles q, k.callbacks q, k.quiets q, k.objects, k.same_counter)

-- ===== src/Tcp/Valid/Added.antt =====
-- A new link in the registry: what add_tcp_link of include/tcp-link.h leaves, once its caller has
-- told the object its handle.
use tcp_epoll.Prelude.{ℕ, ◌+◌, ◌≤◌, ◌≡◌, ◌≢◌, ◌⊎◌, true, some, is_some, arith, ◌==◌, if◌then◌else◌}
use tcp_epoll.StdMap.{find, find-insert}
use tcp_epoll.StdMap.Order.{Ascends, Ascends-insert}
use tcp_epoll.Tcp.State.{World}
use tcp_epoll.Tcp.Monad.{Allows}
use tcp_epoll.Tcp.Registry.{int_max}
use tcp_epoll.Tcp.Events.{adopt}
use tcp_epoll.Tcp.Valid.{IsLinked, IsValid}
use tcp_epoll.Tcp.Valid.Rules.{IsLive}

pub record Added (q : ℕ) (w w' : World) : Type 0 where
  pub counter : w'.i_link ≡ w.i_link + 1
  pub bound : w'.i_link ≤ int_max
  pub found :
      (i : ℕ) → find i w'.m_maplink ≡ (if w.i_link + 1 == i then some q else find i w.m_maplink)
  pub sockets :
      (i : ℕ)
      → is_some (find i w'.m_link_socket_map)
        ≡ (if w.i_link + 1 == i then true else is_some (find i w.m_link_socket_map))
  pub first :
      (w'.g_ms_tcp_first_create_link ≡ w.g_ms_tcp_first_create_link)
      ⊎ (w'.g_ms_tcp_first_create_link ≡ w.i_link + 1)
  pub ordered : Ascends w.m_maplink → Ascends w'.m_maplink
  pub objects : w.next ≤ w'.next
  pub handle : (w'.heap q).mh_link ≡ w.i_link + 1
  pub handles : (r : ℕ) → r ≢ q → (w'.heap r).mh_link ≡ (w.heap r).mh_link
  pub callbacks : (r : ℕ) → (w'.heap r).mp_tcpcallback ≡ (w.heap r).mp_tcpcallback

-- No handle names the object.
abbrev pub Unregistered : ℕ → World → Type 0
Unregistered q w = (h : ℕ) → find h w.m_maplink ≢ some q

pub Added-IsValid :
    {q : ℕ} {w w' : World} → IsValid w → IsLive q w → Unregistered q w → Added q w w' → IsValid w'
Added-IsValid {q} {w} {w'} v l fresh a = record {
  links = λ h r e. linked h r e;
  sockets = λ h. ground (arith, v.sockets h, a.found h, a.sockets h);
  first = ground (arith, v.first, a.first, a.found w'.g_ms_tcp_first_create_link);
  counter = a.bound;
  ordered = a.ordered v.ordered;
}
  where
    linked : (h r : ℕ) → find h w'.m_maplink ≡ some r → IsLinked w' h r
    linked h r e = ground (
      arith,
      a.found h,
      v.links h r,
      fresh h,
      a.handles r,
      a.handle,
      a.callbacks r,
      a.objects,
      a.counter,
    )

pub adopt-Added :
    (st_time p q : ℕ) (w : World)
    → is_some (w.heap p).mp_tcpcallback ≡ true
    → Allows (adopt st_time p q w) (λ _ w'. Added q w w')
unfolding adopt
adopt-Added st_time p q w named = grind (arith, find-insert, Ascends-insert)

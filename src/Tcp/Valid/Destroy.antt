-- ===== src/Tcp/Valid/Destroy.antt =====
-- What link_destroy of tcp-link.cpp does to the registry, and that it stays valid.
use tcp_epoll.Prelude.{ℕ, ◌≡◌, Bool, true, none, some, is_some, arith, ◌==◌, if◌then◌else◌}
use tcp_epoll.Prelude.Int.{minus_one}
use tcp_epoll.StdMap.{find, find-erase}
use tcp_epoll.StdMap.Order.{Ascends, Ascends-erase}
use tcp_epoll.Tcp.State.{World, invalid_htcplink}
use tcp_epoll.Tcp.Monad.{Ensures, Ensures-mono}
use tcp_epoll.Tcp.Link.{link_destroy}
use tcp_epoll.Tcp.Valid.{IsLinked, IsValid}

-- The registry after the end of link `p`: its handle is gone, and the rest is as before.
pub record Destroyed (p : ℕ) (w w' : World) : Type 0 where
  pub gone :
      (i : ℕ) → find i w'.m_maplink ≡ (if (w.heap p).mh_link == i then none else find i w.m_maplink)
  pub sockets :
      (i : ℕ)
      → is_some (find i w.m_link_socket_map) ≡ is_some (find i w.m_maplink)
      → is_some (find i w'.m_link_socket_map) ≡ is_some (find i w'.m_maplink)
  pub first : w'.g_ms_tcp_first_create_link ≡ (
      if (w.heap p).mh_link == w.g_ms_tcp_first_create_link
      then invalid_htcplink
      else w.g_ms_tcp_first_create_link)
  pub counter : w'.i_link ≡ w.i_link
  pub objects : w'.next ≡ w.next
  pub handles : (q : ℕ) → (w'.heap q).mh_link ≡ (w.heap q).mh_link
  pub callbacks : (q : ℕ) → (w'.heap q).mp_tcpcallback ≡ (w.heap q).mp_tcpcallback
  pub ordered : Ascends w.m_maplink → Ascends w'.m_maplink
  pub closed : (w'.heap p).mi_socket ≡ minus_one

pub link_destroy-Destroyed :
    (b_self : Bool) (p : ℕ) (w : World)
    → is_some (w.heap p).mp_tcpcallback ≡ true
    → Ensures (link_destroy b_self p w) (λ _ w'. Destroyed p w w')
unfolding link_destroy
link_destroy-Destroyed b_self p w named = grind (arith, find-erase, Ascends-erase)

pub Destroyed-IsValid : {p : ℕ} {w w' : World} → IsValid w → Destroyed p w w' → IsValid w'
Destroyed-IsValid {p} {w} {w'} v d = record {
  links = λ h q e. linked h q (ground (arith, d.gone h)) e;
  sockets = λ h. d.sockets h (v.sockets h);
  first = ground (arith, v.first, d.first, d.gone w.g_ms_tcp_first_create_link);
  counter = ground (arith, v.counter, d.counter);
  ordered = d.ordered v.ordered;
}
  where
    linked :
        (h q : ℕ) → find h w.m_maplink ≡ some q → find h w'.m_maplink ≡ some q → IsLinked w' h q
    linked h q e e' =
        ground (arith, v.links h q e, d.handles q, d.callbacks q, d.objects, d.counter)

pub link_destroy-IsValid :
    (b_self : Bool) (p : ℕ) (w : World)
    → IsValid w
    → is_some (w.heap p).mp_tcpcallback ≡ true
    → Ensures (link_destroy b_self p w) (λ _ w'. IsValid w')
link_destroy-IsValid b_self p w v named =
    Ensures-mono (link_destroy b_self p w) (λ _ w'. Destroyed p w w') (λ _ w'. IsValid w')
      (link_destroy-Destroyed b_self p w named) (λ _ w' d. Destroyed-IsValid v d)

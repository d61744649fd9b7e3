-- ===== src/Udp/Valid/Ends.antt =====
-- The end of UDP links: link_destroy and free_all_link_map of udp-link.cpp, ms_udp_destroy.
use tcp_epoll.Prelude.{
  ℕ, ◌≡◌, ◌≢◌, inl, inr, true, none, some, ◌∷◌, is_some, arith, if◌then◌else◌, ◌==◌, Option-cases,
}
use tcp_epoll.Prelude.Int.{ℤ, minus_one}
use tcp_epoll.Kernel.{Syscall}
use tcp_epoll.StdMap.{find, find-erase}
use tcp_epoll.StdMap.Order.{Ascends, Ascends-erase}
use tcp_epoll.Udp.State.{UdpWorld, sys, callback, no_param, evt_udp_closed, new_udp_epoll}
use tcp_epoll.Udp.Monad.{Ensures, Ensures->>=}
use tcp_epoll.Udp.Link.{link_destroy}
use tcp_epoll.Udp.Api.{ms_udp_destroy}
use tcp_epoll.Udp.Valid.{IsUdpValid, IsUdpLinked, IsQuiet}

-- The library after the end of link `p`: its handle and its datagrams are gone, the rest is as
-- before.
pub record Ended (p : ℕ) (w w' : UdpWorld) : Type 0 where
  pub gone :
      (i : ℕ) → find i w'.m_maplink ≡ (if (w.heap p).mh_link == i then none else find i w.m_maplink)
  pub ordered : Ascends w.m_maplink → Ascends w'.m_maplink
  pub counter : w'.i_link ≡ w.i_link
  pub objects : w'.next ≡ w.next
  pub handles : (q : ℕ) → (w'.heap q).mh_link ≡ (w.heap q).mh_link
  pub callbacks : (q : ℕ) → (w'.heap q).mp_udpcallback ≡ (w.heap q).mp_udpcallback
  pub quiets : (q : ℕ) → IsQuiet w q → IsQuiet w' q

pub link_destroy-Ended :
    (p : ℕ) (w : UdpWorld)
    → is_some (w.heap p).mp_udpcallback ≡ true
    → Ensures (link_destroy p w) (λ _ w'. Ended p w w')
unfolding link_destroy
link_destroy-Ended p w named = grind (arith, find-erase, Ascends-erase)

pub Ended-IsUdpValid : {p : ℕ} {w w' : UdpWorld} → IsUdpValid w → Ended p w w' → IsUdpValid w'
Ended-IsUdpValid {p} {w} {w'} v d = record {
  links = λ h q e. linked h q (ground (arith, d.gone h));
  counter = ground (arith, v.counter, d.counter);
  ordered = d.ordered v.ordered;
}
  where
    linked : (h q : ℕ) → find h w.m_maplink ≡ some q → IsUdpLinked w' h q
    linked h q e =
        ground (arith, v.links h q e, d.handles q, d.callbacks q, d.quiets q, d.objects, d.counter)

-- In a valid state ms_udp_destroy returns whether the handle is registered, and leaves a valid
-- state. The handle is then not registered, and all other handles name what they did.
pub ms_udp_destroy_lem :
    (h : ℕ) (w : UdpWorld)
    → IsUdpValid w
    → Ensures (ms_udp_destroy h w) (λ ok w'.
      IsUdpValid w'
      × (ok ≡ is_some (find h w.m_maplink))
      × ((i : ℕ) → find i w'.m_maplink ≡ (if h == i then none else find i w.m_maplink)))
unfolding ms_udp_destroy
ms_udp_destroy_lem h w v = elim (Option-cases (find h w.m_maplink)) [
  | inl e ↦ grind (arith, e)
  | inr (p, e) ↦ simp e (
      Ensures->>= (link_destroy p) _ w _ _ (link_destroy-Ended p w (v.links h p e).named)
        λ _ w' d. (Ended-IsUdpValid v d, ground (arith, e), rw⁻¹ (v.links h p e).handle d.gone))
]

-- The descriptor of the epoll set that a call will use.
abbrev pub epoll_fd : UdpWorld → ℤ
epoll_fd w = elim w.m_p_instance [ none ↦ new_udp_epoll.mi_epoll_fd | some e ↦ e.mi_epoll_fd ]

-- A registered link that has a socket leaves the epoll set, then the socket is shut down, then the
-- callback is told once that the link is closed. The descriptor is not closed, and forgotten: after
-- ms_udp_destroy the link has no socket.
pub ms_udp_destroy_effects :
    (h p f : ℕ) (w : UdpWorld)
    → find h w.m_maplink ≡ some p
    → (w.heap p).mh_link ≡ h
    → (w.heap p).mp_udpcallback ≡ some f
    → (w.heap p).mi_socket ≢ minus_one
    → Ensures (ms_udp_destroy h w) (λ _ w'.
      ((w'.heap p).mi_socket ≡ minus_one)
      × (w'.trace
          ≡ callback f (record { ui_event = evt_udp_closed; h_link = h }) no_param
            ∷ sys (Syscall.shutdown (w.heap p).mi_socket)
            ∷ sys (Syscall.epoll_ctl_del (epoll_fd w) (w.heap p).mi_socket)
            ∷ w.trace))
unfolding ms_udp_destroy
ms_udp_destroy_effects h p f w e eh ef es = grind arith

-- ===== src/Udp/Valid/Flush.antt =====
-- do_send_buff of udp-link.cpp forgets no datagram.
use tcp_epoll.Prelude.{ℕ, ◌≡◌, ◌∙◌, Bool-cases, inl, inr, true, false, some, List, [], ◌∷◌, arith}
use tcp_epoll.StdMap.{find}
use tcp_epoll.StdMap.Order.{member, find-member}
use tcp_epoll.Tcp.Registry.{registered}
use tcp_epoll.Udp.State.{UdpWorld}
use tcp_epoll.Udp.Monad.{Ensures, Ensures-mono, Ensures->>=}
use tcp_epoll.Udp.Send.{do_send_buff, flush, flush_link, flush_all}
use tcp_epoll.Udp.Queue.{flush-Flushed}
use tcp_epoll.Udp.Valid.{IsUdpValid, IsUdpLinked, IsQuiet}

-- What a walk over queues leaves: the links of the list are quiet, and no other one wakes up.
record Swept (ps : List ℕ) (w w' : UdpWorld) : Type 0 where
  maplink : w'.m_maplink ≡ w.m_maplink
  same_counter : w'.i_link ≡ w.i_link
  objects : w'.next ≡ w.next
  handles : (q : ℕ) → (w'.heap q).mh_link ≡ (w.heap q).mh_link
  callbacks : (q : ℕ) → (w'.heap q).mp_udpcallback ≡ (w.heap q).mp_udpcallback
  swept : (q : ℕ) → member q ps ≡ true → IsQuiet w' q
  quiets : (q : ℕ) → IsQuiet w q → IsQuiet w' q

flush_link-Swept : (p : ℕ) (w : UdpWorld) → Ensures (flush_link p w) (λ _ w'. Swept (p ∷ []) w w')
unfolding flush_link
flush_link-Swept p w =
    Ensures->>= (flush (w.heap p).mi_socket (w.heap p).m_send_buff_list) _ w _ _
      (flush-Flushed (w.heap p).mi_socket (w.heap p).m_send_buff_list w)
      λ left w' f. ground (arith, f.same)

Swept-next :
    (p : ℕ) (ps : List ℕ) (w w' w'' : UdpWorld)
    → Swept (p ∷ []) w w'
    → Swept ps w' w''
    → Swept (p ∷ ps) w w''
Swept-next p ps w w' w'' s t = record {
  maplink = t.maplink ∙ s.maplink;
  same_counter = t.same_counter ∙ s.same_counter;
  objects = t.objects ∙ s.objects;
  handles = λ q. t.handles q ∙ s.handles q;
  callbacks = λ q. t.callbacks q ∙ s.callbacks q;
  swept = λ q m. ground (arith, m, s.swept q, t.swept q, t.quiets q);
  quiets = λ q a. t.quiets q (s.quiets q a);
}

flush_all-Swept : (ps : List ℕ) (w : UdpWorld) → Ensures (flush_all ps w) (λ _ w'. Swept ps w w')
unfolding flush_all
flush_all-Swept [] w = ground arith
flush_all-Swept (p ∷ ps) w =
    Ensures->>= (flush_link p) (λ _. flush_all ps) w _ _ (flush_link-Swept p w)
      λ _ w' s.
        Ensures-mono (flush_all ps w') _ _ (flush_all-Swept ps w')
          λ _ w'' t. Swept-next p ps w w' w'' s t

abbrev lowered : UdpWorld → UdpWorld
lowered w = record w { mb_send_flag = false }

Swept-IsUdpValid :
    (w w' : UdpWorld) → IsUdpValid w → Swept (registered w.m_maplink) (lowered w) w' → IsUdpValid w'
Swept-IsUdpValid w w' v s = record {
  links = λ h q e. linked h q (ground (arith, s.maplink));
  counter = ground (arith, v.counter, s.same_counter);
  ordered = ground (arith, v.ordered, s.maplink);
}
  where
    linked : (h q : ℕ) → find h w.m_maplink ≡ some q → IsUdpLinked w' h q
    linked h q e = ground (
      arith,
      v.links h q e,
      s.handles q,
      s.callbacks q,
      s.swept q (find-member h q w.m_maplink e),
      s.objects,
      s.same_counter,
    )

pub do_send_buff-IsUdpValid :
    (w : UdpWorld) → IsUdpValid w → Ensures (do_send_buff w) (λ _ w'. IsUdpValid w')
unfolding do_send_buff
do_send_buff-IsUdpValid w v = elim (Bool-cases w.mb_send_flag) [
  | inl on ↦ simp on (
      Ensures-mono (flush_all (registered w.m_maplink) (lowered w)) _ _
        (flush_all-Swept (registered w.m_maplink) (lowered w)) λ _ w' s. Swept-IsUdpValid w w' v s)
  | inr off ↦ ground (arith, v)
]

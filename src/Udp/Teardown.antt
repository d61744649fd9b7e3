-- ===== src/Udp/Teardown.antt =====
-- How ms_udp_uninit gives all links up: MsUdpEpoll::end (udp-ms-epoll.cpp) and free_all_link_map
-- (udp-link.cpp).
use tcp_epoll.Prelude.{
  ℕ, ◌≡◌, ◌∙◌, ◌⊎◌, inl, inr, refl, true, none, some, List, [], ◌∷◌, is_some, arith, Option-cases,
}
use tcp_epoll.StdMap.{find}
use tcp_epoll.StdMap.Order.{member, member-find, find-member}
use tcp_epoll.Tcp.Registry.{registered}
use tcp_epoll.Tcp.Teardown.{without}
use tcp_epoll.Udp.State.{UdpWorld}
use tcp_epoll.Udp.Monad.{Ensures, Ensures-mono, Ensures->>=, release_instance}
use tcp_epoll.Udp.Link.{link_destroy, destroy_all, free_all_link_map}
use tcp_epoll.Udp.Worker.{stop_thread, end}
use tcp_epoll.Udp.Api.{ms_udp_uninit}
use tcp_epoll.Udp.Valid.{IsUdpValid, UdpKept, UdpKept-IsUdpValid}
use tcp_epoll.Udp.Valid.Ends.{Ended, link_destroy-Ended, Ended-IsUdpValid}

-- A link of a list that is to be destroyed: it has a callback, and no other link has its handle.
record IsUdpOwned (p : ℕ) (w : UdpWorld) : Type 0 where
  named : is_some (w.heap p).mp_udpcallback ≡ true
  own :
      (find (w.heap p).mh_link w.m_maplink ≡ some p) ⊎ (find (w.heap p).mh_link w.m_maplink ≡ none)

abbrev AllOwned : List ℕ → UdpWorld → Type 0
AllOwned ps w = (p : ℕ) → member p ps ≡ true → IsUdpOwned p w

member-IsUdpOwned :
    (w : UdpWorld)
    → IsUdpValid w
    → (p : ℕ) → member p (registered w.m_maplink) ≡ true
    → IsUdpOwned p w
member-IsUdpOwned w v p m =
    let (h, e) = member-find p w.m_maplink v.ordered m in
    record { named = (v.links h p e).named; own = inl (rw (v.links h p e).handle e) }

owned_next :
    (p : ℕ) (ps : List ℕ) (w w' : UdpWorld) → AllOwned (p ∷ ps) w → Ended p w w' → AllOwned ps w'
owned_next p ps w w' c d q m =
    let o : IsUdpOwned q w = c q (ground (arith, m)) in
    record {
      named = ground (arith, o.named, d.callbacks q);
      own = ground (arith, o.own, d.handles q, d.gone (w.heap q).mh_link);
    }

without_next :
    (p : ℕ) (ps : List ℕ) (w w' : UdpWorld)
    → IsUdpValid w
    → IsUdpOwned p w
    → Ended p w w'
    → (h : ℕ) → without ps (find h w'.m_maplink) ≡ without (p ∷ ps) (find h w.m_maplink)
without_next p ps w w' v o d h = elim (Option-cases (find h w.m_maplink)) [
  | inl e ↦ ground (arith, d.gone h)
  | inr (q, e) ↦ ground (arith, d.gone h, o.own, v.links h q e)
]

destroy_all_lem :
    (ps : List ℕ) (w : UdpWorld)
    → IsUdpValid w
    → AllOwned ps w
    → Ensures
        (destroy_all ps w)
        (λ _ w'. IsUdpValid w' × ((h : ℕ) → find h w'.m_maplink ≡ without ps (find h w.m_maplink)))
unfolding destroy_all
destroy_all_lem [] w v c = (
  v,
  λ h. elim (Option-cases (find h w.m_maplink)) [
    | inl e ↦ ground arith
    | inr (q, e) ↦ ground arith
  ],
)
destroy_all_lem (p ∷ ps) w v c =
    let o : IsUdpOwned p w = c p (ground arith) in
    Ensures->>= (link_destroy p) (λ _. destroy_all ps) w (λ _ w'. Ended p w w') _
      (link_destroy-Ended p w o.named)
      λ _ w' d.
        Ensures-mono (destroy_all ps w') _ _
          (destroy_all_lem ps w' (Ended-IsUdpValid v d) (owned_next p ps w w' c d))
          λ _ w'' r. (r.0, λ h. r.1 h ∙ without_next p ps w w' v o d h)

all_gone : (w : UdpWorld) (h : ℕ) → without (registered w.m_maplink) (find h w.m_maplink) ≡ none
all_gone w h = elim (Option-cases (find h w.m_maplink)) [
  | inl e ↦ ground arith
  | inr (p, e) ↦ ground (arith, find-member h p w.m_maplink e)
]

free_all_link_map_lem :
    (w : UdpWorld)
    → IsUdpValid w
    → Ensures (free_all_link_map w) (λ _ w'. IsUdpValid w' × ((h : ℕ) → find h w'.m_maplink ≡ none))
unfolding free_all_link_map
free_all_link_map_lem w v =
    Ensures-mono (destroy_all (registered w.m_maplink) w) _ _
      (destroy_all_lem (registered w.m_maplink) w v (member-IsUdpOwned w v))
      λ _ w' r. (r.0, λ h. r.1 h ∙ all_gone w h)

stop_thread-UdpKept : (w : UdpWorld) → Ensures (stop_thread w) (λ _ w'. UdpKept w w')
unfolding stop_thread
stop_thread-UdpKept w = ground arith

-- From a valid state, ms_udp_uninit ends in a valid state in which no handle is registered, and the
-- epoll object is given up.
pub ms_udp_uninit_lem :
    (w : UdpWorld)
    → IsUdpValid w
    → Ensures
        (ms_udp_uninit w)
        (λ _ w'. IsUdpValid w' × ((h : ℕ) → find h w'.m_maplink ≡ none) × (w'.m_p_instance ≡ none))
unfolding ms_udp_uninit end
ms_udp_uninit_lem w v =
    Ensures->>= end (λ _. release_instance) w _ _
      (Ensures->>= stop_thread (λ _. free_all_link_map) w _ _ (stop_thread-UdpKept w)
        λ _ w' k. free_all_link_map_lem w' (UdpKept-IsUdpValid v k))
      λ _ w' r. (UdpKept-IsUdpValid r.0 (ground arith), r.1, refl)

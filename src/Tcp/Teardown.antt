-- ===== src/Tcp/Teardown.antt =====
-- The end of links: ms_tcp_destroy (ms-epoll-tcp.cpp), and free_all_link_map (tcp-link.cpp), with
-- which ms_tcp_uninit gives all links up.
use tcp_epoll.Prelude.{
  ◌∙◌, ◌⊎◌, Option, ℕ, ◌≡◌, ◌≢◌, inl, inr, true, false, none, some, List, [], ◌∷◌, arith, is_some,
  if◌then◌else◌, ◌==◌, Option-cases,
}
use tcp_epoll.Prelude.Int.{ℤ, minus_one}
use tcp_epoll.StdMap.{find, find-erase}
use tcp_epoll.StdMap.Order.{member, find-member, member-find}
use tcp_epoll.Kernel.{Syscall}
use tcp_epoll.Tcp.State.{World, sys, callback, no_param, evt_tcp_closed, new_epoll}
use tcp_epoll.Tcp.Monad.{done, Ensures, Ensures-mono, Ensures->>=}
use tcp_epoll.Tcp.Registry.{registered}
use tcp_epoll.Tcp.Link.{link_destroy}
use tcp_epoll.Tcp.Events.{free_all_link_map, destroy_all}
use tcp_epoll.Tcp.Api.{ms_tcp_destroy}
use tcp_epoll.Tcp.Valid.{IsValid}
use tcp_epoll.Tcp.Valid.Rules.{IsLive}
use tcp_epoll.Tcp.Valid.Preserves.{find-IsLive}
use tcp_epoll.Tcp.Valid.Destroy.{Destroyed, Destroyed-IsValid, link_destroy-Destroyed}

-- The descriptor of the epoll set that a call will use.
abbrev pub epoll_fd : World → ℤ
epoll_fd w = elim w.m_p_instance [ none ↦ new_epoll.mi_epoll_fd | some e ↦ e.mi_epoll_fd ]

-- In a valid state ms_tcp_destroy returns whether the handle is registered. Afterwards it is not,
-- all other handles name what they did, and a second call returns false and changes nothing.
pub ms_tcp_destroy_lem :
    (h : ℕ) (w : World)
    → IsValid w
    → Ensures (ms_tcp_destroy h w) (λ ok w'.
      (ok ≡ is_some (find h w.m_maplink))
      × ((i : ℕ) → find i w'.m_maplink ≡ (if h == i then none else find i w.m_maplink))
      × (ms_tcp_destroy h w' ≡ done false w'))
unfolding ms_tcp_destroy
ms_tcp_destroy_lem h w v = elim (Option-cases (find h w.m_maplink)) [
  | inl e ↦ grind (arith, e)
  | inr (p, e) ↦ grind (arith, v.links h p e, find-erase)
]

-- A registered link that has a socket leaves the epoll set, then the socket is closed, then the
-- callback is told once that the link is closed: nothing else is done to the outside.
pub ms_tcp_destroy_effects :
    (h p f : ℕ) (w : World)
    → find h w.m_maplink ≡ some p
    → (w.heap p).mh_link ≡ h
    → (w.heap p).mp_tcpcallback ≡ some f
    → (w.heap p).mi_socket ≢ minus_one
    → Ensures (ms_tcp_destroy h w) (λ _ w'.
      w'.trace
      ≡ callback f (record { ui_event = evt_tcp_closed; h_link = h }) no_param
        ∷ sys (Syscall.close (w.heap p).mi_socket)
        ∷ sys (Syscall.epoll_ctl_del (epoll_fd w) (w.heap p).mi_socket)
        ∷ w.trace)
unfolding ms_tcp_destroy
ms_tcp_destroy_effects h p f w e eh ef es = grind arith

-- A link of a list that is to be destroyed: it is live, and no other link has its handle.
pub record IsOwned (p : ℕ) (w : World) : Type 0 where
  pub live : IsLive p w
  pub own :
      (find (w.heap p).mh_link w.m_maplink ≡ some p) ⊎ (find (w.heap p).mh_link w.m_maplink ≡ none)

abbrev pub AllOwned : List ℕ → World → Type 0
AllOwned ps w = (p : ℕ) → member p ps ≡ true → IsOwned p w

-- The registry's answer, after the links of a list are gone.
abbrev pub without : List ℕ → Option ℕ → Option ℕ
without ps none = none
without ps (some q) = if member q ps then none else some q

pub member-IsOwned :
    (w : World) → IsValid w → (p : ℕ) → member p (registered w.m_maplink) ≡ true → IsOwned p w
member-IsOwned w v p m =
    let (h, e) = member-find p w.m_maplink v.ordered m in
    record { live = find-IsLive h p v e; own = inl (rw (v.links h p e).handle e) }

owned_next :
    (p : ℕ) (ps : List ℕ) (w w' : World) → AllOwned (p ∷ ps) w → Destroyed p w w' → AllOwned ps w'
owned_next p ps w w' c d q m =
    let o : IsOwned q w = c q (ground (arith, m)) in
    record {
      live = ground (arith, o.live, d.callbacks q, d.objects);
      own = ground (arith, o.own, d.handles q, d.gone (w.heap q).mh_link);
    }

without_next :
    (p : ℕ) (ps : List ℕ) (w w' : World)
    → IsValid w
    → IsOwned p w
    → Destroyed p w w'
    → (h : ℕ) → without ps (find h w'.m_maplink) ≡ without (p ∷ ps) (find h w.m_maplink)
without_next p ps w w' v o d h = elim (Option-cases (find h w.m_maplink)) [
  | inl e ↦ ground (arith, d.gone h)
  | inr (q, e) ↦ ground (arith, d.gone h, o.own, v.links h q e)
]

pub destroy_all_lem :
    (ps : List ℕ) (w : World)
    → IsValid w
    → AllOwned ps w
    → Ensures
        (destroy_all ps w)
        (λ _ w'. IsValid w' × ((h : ℕ) → find h w'.m_maplink ≡ without ps (find h w.m_maplink)))
unfolding destroy_all
destroy_all_lem [] w v c = (
  v,
  λ h. elim (Option-cases (find h w.m_maplink)) [
    | inl e ↦ ground arith
    | inr (q, e) ↦ ground arith
  ],
)
destroy_all_lem (p ∷ ps) w v c =
    let o : IsOwned p w = c p (ground arith) in
    Ensures->>= (link_destroy true p) (λ _. destroy_all ps) w (λ _ w'. Destroyed p w w') _
      (link_destroy-Destroyed true p w o.live.named)
      λ _ w' d.
        Ensures-mono (destroy_all ps w') _ _
          (destroy_all_lem ps w' (Destroyed-IsValid v d) (owned_next p ps w w' c d))
          λ _ w'' r. (r.0, λ h. r.1 h ∙ without_next p ps w w' v o d h)

-- From a valid state free_all_link_map ends, leaves a valid state, and no handle is registered.
pub free_all_link_map-empty :
    (w : World)
    → IsValid w
    → Ensures (free_all_link_map w) (λ _ w'. IsValid w' × ((h : ℕ) → find h w'.m_maplink ≡ none))
unfolding free_all_link_map
free_all_link_map-empty w v =
    Ensures-mono (destroy_all (registered w.m_maplink) w) _ _
      (destroy_all_lem (registered w.m_maplink) w v (member-IsOwned w v))
      λ _ w' r. (r.0, λ h. r.1 h ∙ all_gone h)
  where
    all_gone : (h : ℕ) → without (registered w.m_maplink) (find h w.m_maplink) ≡ none
    all_gone h = elim (Option-cases (find h w.m_maplink)) [
      | inl e ↦ ground arith
      | inr (p, e) ↦ ground (arith, find-member h p w.m_maplink e)
    ]

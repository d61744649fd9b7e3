-- ===== src/Tcp/Valid/Worker.antt =====
-- The worker thread of ms-epoll.cpp keeps the registry valid, whatever events epoll_wait reports.
use tcp_epoll.Prelude.{ℕ, ◌≡◌, true, some, List, [], ◌∷◌, inl, inr, arith, Option-cases}
use tcp_epoll.StdMap.{find}
use tcp_epoll.Tcp.State.{
  World, MsEpoll, LinkType, link_type_null, link_type_listen, link_type_connect, link_type_accept,
  link_type_connected,
}
use tcp_epoll.Tcp.Monad.{Ensures, Allows, Ensures-Allows, instance_of, set_instance}
use tcp_epoll.Tcp.Events.{on_event_connected}
use tcp_epoll.Tcp.Worker.{
  EpollEvent, Batch, dispatch, event_found, handle_event, handle_events, keep_alive, worker_round,
  worker_loop, worker_thread,
}
use tcp_epoll.Tcp.Valid.{IsValid, Kept, Kept-IsValid}
use tcp_epoll.Tcp.Valid.Rules.{Keeps, keeps_rules}
use tcp_epoll.Tcp.Valid.Link.{link_rules}
use tcp_epoll.Tcp.Valid.Safe.{Safe, safe_rules}
use tcp_epoll.Tcp.Valid.Read.{Safe-on_event_read}
use tcp_epoll.Tcp.Valid.Accept.{Safe-on_event_accept}
use tcp_epoll.Tcp.Valid.Preserves.{
  Preserves, Preserves-find_link, Preserves->>=, Preserves-if, Preserves-pure, preserves_rules,
}

module _ {p : ℕ} where
  Keeps-on_event_connected : Keeps p (on_event_connected p)
  unfolding on_event_connected
  Keeps-on_event_connected = search link_rules depth 12

  ruleset handler_rules =
      (safe_rules, keeps_rules, Keeps-on_event_connected, Safe-on_event_read, Safe-on_event_accept)

  Safe-dispatch : (rounds ui_event : ℕ) (t : LinkType) → Safe p (dispatch rounds ui_event p t)
  unfolding dispatch
  Safe-dispatch rounds ui_event link_type_null = search handler_rules depth 12
  Safe-dispatch rounds ui_event link_type_listen = search handler_rules depth 12
  Safe-dispatch rounds ui_event link_type_connect = search handler_rules depth 12
  Safe-dispatch rounds ui_event link_type_accept = search handler_rules depth 12
  Safe-dispatch rounds ui_event link_type_connected = search handler_rules depth 12

  Safe-event_found : (rounds ui_event : ℕ) → Safe p (event_found rounds ui_event (some p))
  unfolding event_found
  Safe-event_found rounds ui_event = search (safe_rules, keeps_rules, Safe-dispatch) depth 12

pub Preserves-handle_event : (rounds : ℕ) (e : EpollEvent) → Preserves (handle_event rounds e)
unfolding handle_event event_found
Preserves-handle_event rounds e =
    Preserves-find_link _ (event_found rounds e.events) (search preserves_rules)
      λ p. Safe-event_found rounds e.events

Preserves-handle_events : (rounds : ℕ) (es : List EpollEvent) → Preserves (handle_events rounds es)
unfolding handle_events
Preserves-handle_events rounds [] = search preserves_rules
Preserves-handle_events rounds (e ∷ es) =
    Preserves->>= (handle_event rounds e) (λ _. handle_events rounds es)
      (Preserves-handle_event rounds e) λ _. Preserves-handle_events rounds es

-- The first link, if there is one, is found: the keep-alive never skips a round's events.
pub keep_alive-true :
    (w : World) → IsValid w → Ensures (keep_alive w) (λ on w'. (on ≡ true) × Kept w w')
unfolding keep_alive
keep_alive-true w v = elim (Option-cases (find w.g_ms_tcp_first_create_link w.m_maplink)) [
  | inl e ↦ ground (arith, v.first)
  | inr (p, e) ↦ ground (arith, v.first, (v.links w.g_ms_tcp_first_create_link p e).named)
]

Preserves-keep_alive : Preserves keep_alive
Preserves-keep_alive = record {
  at = λ w v.
      Ensures-Allows (keep_alive w) (λ on w'. (on ≡ true) × Kept w w') (λ _ w'. IsValid w')
        (keep_alive-true w v) λ _ _ h. Kept-IsValid v h.1;
}

-- Changes of the singleton alone.
Preserves-set_instance : (f : MsEpoll → MsEpoll) → Preserves (set_instance f)
Preserves-set_instance f = record { at = λ w v. ground (arith, v) }

Preserves-instance_of : Preserves instance_of
Preserves-instance_of = record { at = λ w v. ground (arith, v) }

pub Preserves-worker_round : (rounds : ℕ) (b : Batch) → Preserves (worker_round rounds b)
unfolding worker_round
Preserves-worker_round rounds b =
    Preserves->>= keep_alive _ Preserves-keep_alive
      λ on. Preserves-if _ _ _ (Preserves-pure tt) (Preserves-handle_events rounds b.stored)

Preserves-worker_loop : (rounds : ℕ) (bs : List Batch) → Preserves (worker_loop rounds bs)
unfolding worker_loop
Preserves-worker_loop rounds [] = search preserves_rules
Preserves-worker_loop rounds (b ∷ bs) = Preserves->>= instance_of _ Preserves-instance_of λ e.
    Preserves-if e.mb_exit_thread _ _ (Preserves-pure tt) (
      Preserves->>= (worker_round rounds b) (λ _. worker_loop rounds bs)
        (Preserves-worker_round rounds b) λ _. Preserves-worker_loop rounds bs)

pub Preserves-worker_thread : (rounds : ℕ) (bs : List Batch) → Preserves (worker_thread rounds bs)
unfolding worker_thread
Preserves-worker_thread rounds bs =
    Preserves->>= (set_instance _) (λ _. worker_loop rounds bs) (Preserves-set_instance _)
      λ _. Preserves-worker_loop rounds bs

-- Whatever epoll_wait reports, in whatever order, the worker thread leaves a valid registry
-- valid, and calls through no NULL pointer.
pub worker_thread-IsValid :
    (rounds : ℕ) (bs : List Batch) (w : World)
    → IsValid w
    → Allows (worker_thread rounds bs w) (λ _ w'. IsValid w')
worker_thread-IsValid rounds bs w v = (Preserves-worker_thread rounds bs).at w v

-- ===== src/Tcp/Start.antt =====
-- The keep-alive of worker_thread and what MsEpoll::init makes of it: ms-epoll.cpp.
use tcp_epoll.Prelude.{
  ap, ◌∙◌, Bool-cases, ℕ, ◌+◌, ◌≤◌, ◌<◌, Option, some, ◌%◌, ◌≡◌, ◌≢◌, ◌⊎◌, Bool, not, ◌||◌, is_some,
  if◌then◌else◌, true, false, none, List, [], ◌∷◌, arith, refl, inl, inr,
}
use mathlib.Core.List.{foldr}
use tcp_epoll.Exec.{done->>=}
use tcp_epoll.Prelude.Int.{le_zero}
use tcp_epoll.StdMap.{find, find-insert}
use tcp_epoll.Tcp.State.{World, invalid_htcplink}
use tcp_epoll.Tcp.Monad.{
  M, Outcome, done, crash, spin, exhausted, pure, ◌>>◌, Ensures, Ensures-mono, Ensures->>=,
  release_instance,
}
use tcp_epoll.Tcp.Worker.{
  EpollEvent, handle_event, Batch, keep_alive, worker_round, worker_loop, handle_events, init,
  stop_threads, end,
}
use tcp_epoll.Tcp.Events.{free_all_link_map}
use tcp_epoll.Tcp.Registry.{int_max}
use tcp_epoll.Tcp.Link.{link_create}
use tcp_epoll.Tcp.Valid.Accept.{with_new}
use tcp_epoll.Tcp.Api.{ms_tcp_create, announce, ms_tcp_init, ms_tcp_uninit}
use tcp_epoll.Tcp.Teardown.{free_all_link_map-empty}
use tcp_epoll.Tcp.Valid.{IsValid, Kept, Kept-IsValid}
use tcp_epoll.Tcp.Valid.Worker.{keep_alive-true}

-- The events one after the other.
abbrev pub each : ℕ → List EpollEvent → M (Unit {0})
each rounds es = foldr (λ e rest. handle_event rounds e >> rest) (pure tt) es

handle_events-each : (rounds : ℕ) (es : List EpollEvent) → handle_events rounds es ≡ each rounds es
unfolding handle_events
handle_events-each rounds [] = refl
handle_events-each rounds (e ∷ es) =
    ap (λ rest. handle_event rounds e >> rest) (handle_events-each rounds es)

-- What is left of a round behind the keep-alive.
abbrev rest_of : ℕ → Batch → Bool → M (Unit {0})
rest_of rounds b on =
    if not on || le_zero b.i_event_num then pure tt else handle_events rounds b.stored

-- From a valid state a round of the worker thread calls handle_event once for each of the events
-- that it has got, in their order, one after the other: the keep-alive before them leaves the
-- registry as it is and does not skip them. Without events a round does no more than the
-- keep-alive.
pub worker_round-handle_event :
    (rounds : ℕ) (b : Batch) (w : World)
    → IsValid w
    → (w' : World) × Kept w w'
      × (keep_alive w ≡ done true w')
      × (worker_round rounds b w
          ≡ (if le_zero b.i_event_num then done tt w' else each rounds b.stored w'))
unfolding worker_round
worker_round-handle_event rounds b w v =
    let (w', e, k) = at (keep_alive w) (keep_alive-true w v) in
    (
      w',
      k,
      e,
      done->>= keep_alive (rest_of rounds b) w w' true e
          ∙ (elim (Bool-cases (le_zero b.i_event_num)) [
            | inl off ↦ rw off refl
            | inr on ↦ rw on (ap (λ m. m w') (handle_events-each rounds b.stored))
          ]),
    )
  where
    at :
        (r : Outcome World Bool)
        → Ensures r (λ on w'. (on ≡ true) × Kept w w')
        → (w' : World) × (r ≡ done true w') × Kept w w'
    at (done on w') h = (w', ap (λ b. done b w') h.0, h.1)
    at crash h = absurd h
    at spin h = absurd h
    at exhausted h = absurd h

-- The first link is remembered, but not registered, and it is the turn of a keep-alive. Its handle
-- has been given out, so that no other link gets it.
record IsStuck (w : World) : Type 0 where
  remembered : w.g_ms_tcp_first_create_link ≢ invalid_htcplink
  missing : find w.g_ms_tcp_first_create_link w.m_maplink ≡ none
  older : w.g_ms_tcp_first_create_link ≤ w.i_link
  turn : w.ui_keep_alive_times % 10 ≡ 0
  there : is_some w.m_p_instance ≡ true

worker_round-IsStuck :
    (rounds : ℕ) (b : Batch) (w : World) → IsStuck w → worker_round rounds b w ≡ done tt w
unfolding worker_round
worker_round-IsStuck rounds b w s = ground arith

worker_loop-IsStuck :
    (rounds : ℕ) (bs : List Batch) (w : World) → IsStuck w → worker_loop rounds bs w ≡ done tt w
unfolding worker_loop
worker_loop-IsStuck rounds [] w s = refl
worker_loop-IsStuck rounds (b ∷ bs) w s =
    ground (arith, worker_round-IsStuck rounds b w s, worker_loop-IsStuck rounds bs w s)

init-IsStuck :
    (w : World)
    → w.g_ms_tcp_first_create_link ≢ invalid_htcplink
    → w.g_ms_tcp_first_create_link ≤ w.i_link
    → w.ui_keep_alive_times % 10 ≡ 0
    → Ensures (init w) (λ ok w'. ok ≡ true → IsStuck w' × (w'.i_link ≡ w.i_link))
unfolding init find
init-IsStuck w f o t = ground arith

-- Object `p` has its callback; all is stuck.
link_create-IsStuck :
    (f : ℕ) (addr : Option (List ℕ)) (us_port p : ℕ) (w : World)
    → IsStuck w
    → Ensures
        (link_create (some f) addr us_port p w)
        (λ _ w'. IsStuck w' × ((w'.heap p).mp_tcpcallback ≡ some f) × (w'.i_link ≡ w.i_link))
unfolding link_create
link_create-IsStuck f addr us_port p w s = ground (arith, s)

-- The link is registered, or none is.
abbrev pub IsThere : ℕ → World → Type 0
IsThere h w = (h ≡ invalid_htcplink) ⊎ (is_some (find h w.m_maplink) ≡ true)

announce-IsStuck :
    (p : ℕ) (w : World)
    → IsStuck w
    → is_some (w.heap p).mp_tcpcallback ≡ true
    → w.i_link < int_max
    → Ensures (announce p w) (λ h w'. IsStuck w' × IsThere h w')
unfolding announce
announce-IsStuck p w s named h = ground (
  arith,
  s,
  named,
  h,
  find-insert w.g_ms_tcp_first_create_link (w.i_link + 1) p w.m_maplink,
  find-insert (w.i_link + 1) (w.i_link + 1) p w.m_maplink,
)

ms_tcp_create-IsStuck :
    (f : ℕ) (addr : Option (List ℕ)) (us_port : ℕ) (w : World)
    → IsStuck w
    → w.i_link < int_max
    → Ensures (ms_tcp_create (some f) addr us_port w) (λ h w'. IsStuck w' × IsThere h w')
unfolding ms_tcp_create
ms_tcp_create-IsStuck f addr us_port w s h =
    Ensures->>= (link_create (some f) addr us_port w.next)
      (λ created. if created then announce w.next else pure invalid_htcplink) (with_new w) _ _
      (link_create-IsStuck f addr us_port w.next (with_new w) (ground (arith, s)))
      λ created w' m. rest created w' m.0 (ground (arith, m.1)) (omega (arith, h, m.2))
  where
    rest :
        (created : Bool) (w' : World)
        → IsStuck w'
        → is_some (w'.heap w.next).mp_tcpcallback ≡ true
        → w'.i_link < int_max
        → Ensures
            ((if created then announce w.next else pure invalid_htcplink) w')
            (λ h w''. IsStuck w'' × IsThere h w'')
    rest false w' s' named l = (s', inl refl)
    rest true w' s' named l = announce-IsStuck w.next w' s' named l

-- Let a first link be remembered when MsEpoll::init is called, as after an ms_tcp_create that came
-- before ms_tcp_init, with a handle that has been given out; let it be the turn of a keep-alive, as
-- it is at the start, and let a handle be left. Then, if init returns true, a link that is made
-- after that by ms_tcp_create is registered, if its socket is made; but the worker thread does
-- nothing with any events that it ever gets, those of the new link included: init has emptied the
-- registry, but not forgotten the first link, which no new link replaces.
pub init-worker_loop :
    (f : ℕ) (addr : Option (List ℕ)) (us_port : ℕ) (w : World)
    → w.g_ms_tcp_first_create_link ≢ invalid_htcplink
    → w.g_ms_tcp_first_create_link ≤ w.i_link
    → w.ui_keep_alive_times % 10 ≡ 0
    → w.i_link < int_max
    → Ensures (init w) (λ ok w'.
      (ok ≡ false)
      ⊎ Ensures (ms_tcp_create (some f) addr us_port w') (λ h w''.
        IsThere h w'' × ((rounds : ℕ) (bs : List Batch) → worker_loop rounds bs w'' ≡ done tt w'')))
init-worker_loop f addr us_port w r o t l =
    Ensures-mono (init w) _ _ (init-IsStuck w r o t) λ ok w' s. elim (Bool-cases ok) [
      | inl on ↦ inr (
          Ensures-mono (ms_tcp_create (some f) addr us_port w') _ _
            (ms_tcp_create-IsStuck f addr us_port w' (s on).0 (omega (arith, l, (s on).1)))
            λ h w'' k. (k.1, λ rounds bs. worker_loop-IsStuck rounds bs w'' k.0))
      | inr off ↦ inl off
    ]

-- init has left the registry alone, or emptied it.
record IsEmptied (w w' : World) : Type 0 where
  no_links : w'.m_maplink ≡ []
  no_sockets : w'.m_link_socket_map ≡ []
  same_first : w'.g_ms_tcp_first_create_link ≡ w.g_ms_tcp_first_create_link
  same_counter : w'.i_link ≡ w.i_link

ms_tcp_init-IsEmptied : (w : World) → Ensures (ms_tcp_init w) (λ _ w'. Kept w w' ⊎ IsEmptied w w')
unfolding ms_tcp_init
ms_tcp_init-IsEmptied w = ground arith

IsEmptied-IsValid :
    (w w' : World)
    → IsValid w
    → w.g_ms_tcp_first_create_link ≡ invalid_htcplink
    → IsEmptied w w'
    → IsValid w'
unfolding find
IsEmptied-IsValid w w' v f e = record {
  links = λ h p q. absurd (grind (arith, e.no_links));
  sockets = λ h. ground (arith, e.no_links, e.no_sockets);
  first = ground (arith, f, e.same_first);
  counter = ground (arith, v.counter, e.same_counter);
  ordered = ground (arith, e.no_links);
}

-- From a valid state with no first link, ms_tcp_init leaves a valid state, whether it succeeds.
pub ms_tcp_init-IsValid :
    (w : World)
    → IsValid w
    → w.g_ms_tcp_first_create_link ≡ invalid_htcplink
    → Ensures (ms_tcp_init w) (λ _ w'. IsValid w')
ms_tcp_init-IsValid w v f =
    Ensures-mono (ms_tcp_init w) _ _ (ms_tcp_init-IsEmptied w)
      λ _ w' o. elim o [ inl k ↦ Kept-IsValid v k | inr e ↦ IsEmptied-IsValid w w' v f e ]

stop_threads-Kept : (w : World) → Ensures (stop_threads w) (λ _ w'. Kept w w')
unfolding stop_threads
stop_threads-Kept w = ground arith

-- From a valid state, ms_tcp_uninit ends in a valid state in which no handle is registered, and
-- the epoll object is given up.
pub ms_tcp_uninit_lem :
    (w : World)
    → IsValid w
    → Ensures
        (ms_tcp_uninit w)
        (λ _ w'. IsValid w' × ((h : ℕ) → find h w'.m_maplink ≡ none) × (w'.m_p_instance ≡ none))
unfolding ms_tcp_uninit end
ms_tcp_uninit_lem w v =
    Ensures->>= end (λ _. release_instance) w _ _
      (Ensures->>= stop_threads (λ _. free_all_link_map) w _ _ (stop_threads-Kept w)
        λ _ w' k. free_all_link_map-empty w' (Kept-IsValid v k))
      λ _ w' r. (Kept-IsValid r.0 (ground arith), r.1, refl)

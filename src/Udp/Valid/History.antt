-- ===== src/Udp/Valid/History.antt =====
-- Histories of the UDP library: calls of ms-epoll-udp.cpp and rounds of the worker thread of
-- udp-ms-epoll.cpp, in any order.
use tcp_epoll.Prelude.{
  ℕ, ◌≡◌, Bool, true, false, Option, some, List, [], ◌∷◌, arith, subst, Option-cases, Bool-cases,
  inl, inr, ◌==◌, if◌then◌else◌,
}
use tcp_epoll.Prelude.Int.{ℤ, is_neg, to_u32}
use tcp_epoll.StdMap.{find}
use tcp_epoll.Tcp.Epoll.{data_link, data_fd, is_readable}
use tcp_epoll.Tcp.Worker.{EpollEvent, Batch}
use tcp_epoll.Udp.State.{UdpWorld}
use tcp_epoll.Udp.Monad.{
  M, done, pure, instance_of, ◌>>◌, Ensures, Ensures-mono, Ensures->>=, Allows, Ensures-Allows,
  Allows->>=,
}
use tcp_epoll.Udp.Link.{on_event_read}
use tcp_epoll.Udp.Send.{link_send_to, do_send_buff}
use tcp_epoll.Udp.Worker.{handle_event, handle_events, worker_round}
use tcp_epoll.Udp.Start.{ms_udp_init-IsUdpValid}
use tcp_epoll.Udp.Teardown.{ms_udp_uninit_lem}
use tcp_epoll.Udp.Api.{ms_udp_init, ms_udp_uninit, ms_udp_create, ms_udp_destroy, ms_udp_send_to}
use tcp_epoll.Udp.Valid.{IsUdpValid, UdpKept-IsUdpValid, UdpKept}
use tcp_epoll.Udp.Valid.Rules.{link_send_to-UdpKept, on_event_read-UdpKept}
use tcp_epoll.Udp.Valid.Flush.{do_send_buff-IsUdpValid}
use tcp_epoll.Udp.Valid.Ends.{ms_udp_destroy_lem}
use tcp_epoll.Udp.Valid.Create.{ms_udp_create-Allows}

handle_event-IsUdpValid :
    (e : EpollEvent) (w : UdpWorld)
    → IsUdpValid w
    → Ensures (handle_event e w) (λ _ w'. IsUdpValid w')
unfolding handle_event
handle_event-IsUdpValid e w v = elim (Bool-cases (is_readable e.events)) [
  | inr off ↦ simp off v
  | inl on ↦ elim (Option-cases (find (data_link e.u64) w.m_maplink)) [
    | inl n ↦ simp (on, n) v
    | inr (p, n) ↦
        simp (on, n)
          (Ensures->>= (on_event_read p) _ w _ _
            (on_event_read-UdpKept p w (v.links (data_link e.u64) p n).named)
            λ _ w' k. UdpKept-IsUdpValid v k)
  ]
]

handle_events-IsUdpValid :
    (fd : ℤ) (es : List EpollEvent) (w : UdpWorld)
    → IsUdpValid w
    → Ensures (handle_events fd es w) (λ _ w'. IsUdpValid w')
unfolding handle_events
handle_events-IsUdpValid fd [] w v = v
handle_events-IsUdpValid fd (e ∷ es) w v = elim (Bool-cases (data_fd e.u64 == to_u32 fd)) [
  | inl exit ↦ simp exit v
  | inr other ↦ simp other (
      Ensures->>= (handle_event e) (λ _. handle_events fd es) w _ _ (handle_event-IsUdpValid e w v)
        λ _ w' v'. handle_events-IsUdpValid fd es w' v')
]

flush_on :
    (w : UdpWorld) → IsUdpValid w → Ensures ((do_send_buff >> pure true) w) (λ _ w'. IsUdpValid w')
flush_on w v =
    Ensures->>= do_send_buff (λ _. pure true) w _ _ (do_send_buff-IsUdpValid w v) λ _ w' v'. v'

flush_if : Bool → M Bool
flush_if on = if on then do_send_buff >> pure true else pure false

flush_if-IsUdpValid :
    (on : Bool) (w : UdpWorld) → IsUdpValid w → Ensures (flush_if on w) (λ _ w'. IsUdpValid w')
unfolding flush_if
flush_if-IsUdpValid true w v = flush_on w v
flush_if-IsUdpValid false w v = v

instance_of-UdpKept : (w : UdpWorld) → Ensures (instance_of w) (λ _ w'. UdpKept w w')
instance_of-UdpKept w = ground arith

-- Whatever epoll_wait reports, a round of the UDP worker thread ends and leaves a valid state.
pub worker_round-IsUdpValid :
    (b : Batch) (w : UdpWorld) → IsUdpValid w → Ensures (worker_round b w) (λ _ w'. IsUdpValid w')
unfolding worker_round flush_if
worker_round-IsUdpValid b w v = elim (Bool-cases (is_neg b.i_event_num)) [
  | inl failed ↦ simp failed (flush_on w v)
  | inr got ↦ simp got (
      Ensures->>= instance_of _ w _ _ (instance_of-UdpKept w) λ e w' k.
        Ensures->>= (handle_events e.mi_exit_event b.stored) flush_if w' _ _
          (handle_events-IsUdpValid e.mi_exit_event b.stored w' (UdpKept-IsUdpValid v k))
          λ on w'' v''. flush_if-IsUdpValid on w'' v'')
]

-- A call of the library, or a round of its worker thread.
pub data UdpOp : Type 0 where
  create : ℕ → ℤ → Option (List ℕ) → ℕ → UdpOp
  destroy : ℕ → UdpOp
  send_to : ℕ → List ℕ → ℕ → ℤ → Option (List ℕ) → ℕ → UdpOp
  init : UdpOp
  uninit : UdpOp
  events : Batch → UdpOp

abbrev pub run : UdpOp → M (Unit {0})
run (create f i_flag addr us_port) = ms_udp_create (some f) i_flag addr us_port >> pure tt
run (destroy h) = ms_udp_destroy h >> pure tt
run (send_to h bytes ui_size i_flag ip us_port) =
    ms_udp_send_to h (some bytes) ui_size i_flag ip us_port >> pure tt
run init = ms_udp_init >> pure tt
run uninit = ms_udp_uninit >> pure tt
run (events b) = worker_round b >> pure tt

ms_udp_send_to-IsUdpValid :
    (h : ℕ) (bytes : List ℕ) (ui_size : ℕ) (i_flag : ℤ) (ip : Option (List ℕ)) (us_port : ℕ)
    (w : UdpWorld)
    → IsUdpValid w
    → Ensures (ms_udp_send_to h (some bytes) ui_size i_flag ip us_port w) (λ _ w'. IsUdpValid w')
unfolding ms_udp_send_to
ms_udp_send_to-IsUdpValid h bytes ui_size i_flag ip us_port w v =
    elim (Option-cases (find h w.m_maplink)) [
      | inl n ↦ simp n v
      | inr (p, n) ↦ simp n (
          Ensures-mono (link_send_to (some bytes) ui_size i_flag ip us_port p w) _ _
            (link_send_to-UdpKept bytes ui_size i_flag ip us_port p w)
            λ _ w' k. UdpKept-IsUdpValid v k)
    ]

total :
    {A : Type 0} (m : M A) (w : UdpWorld)
    → Ensures (m w) (λ _ w'. IsUdpValid w')
    → Allows ((m >> pure tt) w) (λ _ w'. IsUdpValid w')
total m w e = Allows->>= m (λ _. pure tt) w _ _ (Ensures-Allows (m w) _ _ e λ _ _ h. h) λ _ _ h. h

run-IsUdpValid :
    (op : UdpOp) (w : UdpWorld) → IsUdpValid w → Allows (run op w) (λ _ w'. IsUdpValid w')
run-IsUdpValid (create f i_flag addr us_port) w v =
    Allows->>= (ms_udp_create (some f) i_flag addr us_port) (λ _. pure tt) w _ _
      (ms_udp_create-Allows f i_flag addr us_port w v) λ _ _ h. h.0
run-IsUdpValid (destroy h) w v =
    total (ms_udp_destroy h) w
      (Ensures-mono (ms_udp_destroy h w) _ _ (ms_udp_destroy_lem h w v) λ _ _ r. r.0)
run-IsUdpValid (send_to h bytes ui_size i_flag ip us_port) w v =
    total (ms_udp_send_to h (some bytes) ui_size i_flag ip us_port) w
      (ms_udp_send_to-IsUdpValid h bytes ui_size i_flag ip us_port w v)
run-IsUdpValid init w v = total ms_udp_init w (ms_udp_init-IsUdpValid w v)
run-IsUdpValid uninit w v =
    total ms_udp_uninit w (Ensures-mono (ms_udp_uninit w) _ _ (ms_udp_uninit_lem w v) λ _ _ r. r.0)
run-IsUdpValid (events b) w v = total (worker_round b) w (worker_round-IsUdpValid b w v)

-- A history of calls and rounds, each of which has ended.
pub data UdpReach (w : UdpWorld) : UdpWorld → Type 0 where
  here : UdpReach w w
  next : {u v : UdpWorld} (op : UdpOp) → UdpReach w u → run op u ≡ done tt v → UdpReach w v

-- After any calls of ms_udp_init, uninit, create, destroy and send_to, with callbacks and data, and
-- any rounds of the UDP worker thread, from a valid state, the state is valid: every handle names a link that knows it, and a datagram
-- waits in the queue of a registered link only while the send flag is set.
pub UdpReach-IsUdpValid : {w u : UdpWorld} → IsUdpValid w → UdpReach w u → IsUdpValid u
UdpReach-IsUdpValid v here = v
UdpReach-IsUdpValid v (next {u} {v = u'} op r e) =
    subst (λ o. Allows o (λ _ w'. IsUdpValid w')) e (run-IsUdpValid op u (UdpReach-IsUdpValid v r))

-- ===== src/Udp/Start.antt =====
-- The start and the end of the UDP worker thread: MsUdpEpoll::init and the exit event, in
-- udp-ms-epoll.cpp.
use tcp_epoll.Prelude.{
  ◌≡◌, ◌⊎◌, inl, inr, refl, Bool, Bool-cases, true, false, List, [], ◌∷◌, ◌++◌, arith,
  if◌then◌else◌, ◌==◌,
}
use tcp_epoll.Prelude.Int.{ℤ, to_u32}
use tcp_epoll.StdMap.{find}
use tcp_epoll.Tcp.Epoll.{data_fd}
use tcp_epoll.Tcp.Worker.{EpollEvent}
use tcp_epoll.Udp.State.{UdpWorld}
use tcp_epoll.Udp.Monad.{
  M, Outcome, done, crash, spin, exhausted, Ensures, Ensures-mono, pure, ◌>>◌,
}
use tcp_epoll.Udp.Worker.{handle_event, handle_events}
use tcp_epoll.Udp.Api.{ms_udp_init}
use tcp_epoll.Udp.Valid.{IsUdpValid, UdpKept, UdpKept-IsUdpValid}

-- init has left the registry alone, or emptied it.
record IsEmptied (w w' : UdpWorld) : Type 0 where
  no_links : w'.m_maplink ≡ []
  same_counter : w'.i_link ≡ w.i_link

ms_udp_init-IsEmptied :
    (w : UdpWorld) → Ensures (ms_udp_init w) (λ _ w'. UdpKept w w' ⊎ IsEmptied w w')
unfolding ms_udp_init
ms_udp_init-IsEmptied w = ground arith

IsEmptied-IsUdpValid : (w w' : UdpWorld) → IsUdpValid w → IsEmptied w w' → IsUdpValid w'
unfolding find
IsEmptied-IsUdpValid w w' v e = record {
  links = λ h p q. absurd (grind (arith, e.no_links));
  counter = ground (arith, v.counter, e.same_counter);
  ordered = ground (arith, e.no_links);
}

-- From a valid state, ms_udp_init leaves a valid state, whether it succeeds.
pub ms_udp_init-IsUdpValid :
    (w : UdpWorld) → IsUdpValid w → Ensures (ms_udp_init w) (λ _ w'. IsUdpValid w')
ms_udp_init-IsUdpValid w v =
    Ensures-mono (ms_udp_init w) _ _ (ms_udp_init-IsEmptied w)
      λ _ w' o. elim o [ inl k ↦ UdpKept-IsUdpValid v k | inr e ↦ IsEmptied-IsUdpValid w w' v e ]

-- Some of the events is that of the exit event's descriptor.
abbrev pub exits : ℤ → List EpollEvent → Bool
exits fd [] = false
exits fd (e ∷ es) = if data_fd e.u64 == to_u32 fd then true else exits fd es

same_after :
    (m : M (Unit {0})) (a b : M Bool) (w : UdpWorld)
    → ((w' : UdpWorld) → a w' ≡ (b >> pure false) w')
    → (m >> a) w ≡ ((m >> b) >> pure false) w
same_after m a b w h = at (m w)
  where
    then_run : M Bool → Outcome UdpWorld (Unit {0}) → Outcome UdpWorld Bool
    then_run k r = elim r [ done _ w' ↦ k w' | crash ↦ crash | spin ↦ spin | exhausted ↦ exhausted ]

    at :
        (r : Outcome UdpWorld (Unit {0}))
        → then_run a r ≡ elim (then_run b r) as (λ _. Outcome UdpWorld Bool) [
          | done _ w' ↦ done false w'
          | crash ↦ crash
          | spin ↦ spin
          | exhausted ↦ exhausted
        ]
    at (done x w') = h w'
    at crash = refl
    at spin = refl
    at exhausted = refl

-- The events before the exit event are handled, those after it are not, and the thread ends.
pub handle_events-exit :
    (fd : ℤ) (bs es : List EpollEvent) (e : EpollEvent) (w : UdpWorld)
    → exits fd bs ≡ false
    → data_fd e.u64 ≡ to_u32 fd
    → handle_events fd (bs ++ e ∷ es) w ≡ (handle_events fd bs >> pure false) w
unfolding handle_events
handle_events-exit fd [] es e w h k = ground (arith, k)
handle_events-exit fd (b ∷ bs) es e w h k = elim (Bool-cases (data_fd b.u64 == to_u32 fd)) [
  | inl x ↦ absurd (ground (arith, h, x))
  | inr x ↦ simp x (
      same_after (handle_event b) (handle_events fd (bs ++ e ∷ es)) (handle_events fd bs) w
        λ w'. handle_events-exit fd bs es e w' (ground (arith, h, x)) k)
]

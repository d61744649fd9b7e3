-- ===== src/Tcp/Valid/Accept.antt =====
-- on_event_accept of tcp-link.cpp keeps the registry valid.
use tcp_epoll.Prelude.{
  ℕ, zero, suc, ◌+◌, ◌<◌, ◌≡◌, ◌∙◌, refl, ap, Bool, true, false, Option, none, some, ◌∷◌, is_some,
  arith, if◌then◌else◌,
}
use tcp_epoll.Prelude.Int.{ℤ, pos_part}
use tcp_epoll.Kernel.{Syscall}
use tcp_epoll.Tcp.State.{World, MsTcpLink, new_link, sys, update}
use tcp_epoll.Tcp.Monad.{
  M, Ensures, Ensures-both, Allows, Ensures-Allows, Allows-mono, Allows->>=, pure, ◌>>◌,
}
use tcp_epoll.Tcp.Link.{accept_link}
use tcp_epoll.Tcp.Events.{on_event_accept, accept_loop, accept_round, adopt}
use tcp_epoll.Tcp.Valid.{IsValid, Kept, Kept-IsValid}
use tcp_epoll.Tcp.Valid.Rules.{IsLive, IsLive-Kept, keeps_rules}
use tcp_epoll.Tcp.Valid.Safe.{Safe, safe_rules}
use tcp_epoll.Tcp.Valid.Only.{Only, accept_link-Only}
use tcp_epoll.Tcp.Valid.Named.{accept_link-named}
use tcp_epoll.Tcp.Valid.Added.{Added, Added-IsValid, Unregistered, adopt-Added}

-- A new object is named by no handle, and goes on to be so.
pub new-Unregistered : {q : ℕ} {w : World} → IsValid w → q ≡ w.next → Unregistered q w
new-Unregistered {q} {w} v e h found = omega (arith, (v.links h q found).object)

-- The state in which a new object is set up.
abbrev pub with_new : World → World
with_new w = record w {
  clock = w.clock + 1;
  trace = sys Syscall.time ∷ w.trace;
  heap = update w.heap w.next (new_link (pos_part (w.replies w.clock).ret));
  next = w.next + 1;
}

-- A change of an object that is not registered yet.
pub Only-Kept : {w w' : World} → Only w.next (with_new w) w' → Kept w w'
Only-Kept {w} {w'} o = record {
  maplink = o.maplink;
  socket_map = o.socket_map;
  same_first = o.same_first;
  same_counter = o.same_counter;
  objects = omega (arith, o.objects);
  handles = λ r h. ground (arith, o.handles r);
  callbacks = λ r h. ground (arith, o.callbacks r);
}

accept_link_lem :
    (fd : ℤ) (cb : Option ℕ) (q : ℕ) (w : World)
    → is_some cb ≡ true
    → q < w.next
    → Ensures
        (accept_link fd cb q w)
        (λ there w'. Only q w w' × (there ≡ true → (w'.heap q).mp_tcpcallback ≡ cb))
accept_link_lem fd none q w e h = cc
accept_link_lem fd (some f) q w e h =
    Ensures-both (accept_link fd (some f) q w) (λ _ w'. Only q w w')
      (λ there w'. there ≡ true → (w'.heap q).mp_tcpcallback ≡ some f)
      (accept_link-Only fd (some f) q w) (accept_link-named fd f q w h)

pub Unregistered-Kept : {q : ℕ} {w w' : World} → Unregistered q w → Kept w w' → Unregistered q w'
Unregistered-Kept {q} {w} {w'} fresh k h = ground (arith, fresh h, k.maplink)

module _ {p : ℕ} where
  adopt_lem :
      (st_time q : ℕ) (w : World)
      → IsValid w
      → IsLive p w
      → IsLive q w
      → Unregistered q w
      → Allows (adopt st_time p q w) (λ _ w'. IsValid w' × IsLive p w')
  adopt_lem st_time q w v l lq fresh =
      Allows-mono (adopt st_time p q w) (λ _ w'. Added q w w') (λ _ w'. IsValid w' × IsLive p w')
        (adopt-Added st_time p q w l.named) λ _ w' a. (Added-IsValid v lq fresh a, live w' a)
    where
      live : (w' : World) → Added q w w' → IsLive p w'
      live w' a = ground (arith, a.callbacks p)

  accept_rest :
      (st_time q : ℕ) (rest : M (Unit {0})) (there : Bool) (w : World)
      → Safe p rest
      → IsValid w
      → IsLive p w
      → (there ≡ true → IsLive q w)
      → Unregistered q w
      → Allows
          ((if there then adopt st_time p q >> rest else pure tt) w)
          (λ _ w'. IsValid w' × IsLive p w')
  accept_rest st_time q rest false w safe v l lq fresh = (v, l)
  accept_rest st_time q rest true w safe v l lq fresh =
      Allows->>= (adopt st_time p q) (λ _. rest) w (λ _ w'. IsValid w' × IsLive p w')
        (λ _ w'. IsValid w' × IsLive p w') (adopt_lem st_time q w v l (lq refl) fresh)
        λ _ w' h. safe.at w' h.0 h.1

  accept_round_rest :
      (st_time : ℕ) (rest : M (Unit {0})) (there : Bool) (w w' : World)
      → Safe p rest
      → IsValid w
      → IsLive p w
      → Only w.next (with_new w) w'
      → (there ≡ true → (w'.heap w.next).mp_tcpcallback ≡ (w.heap p).mp_tcpcallback)
      → Allows
          ((if there then adopt st_time p w.next >> rest else pure tt) w')
          (λ _ w''. IsValid w'' × IsLive p w'')
  accept_round_rest st_time rest there w w' safe v l o named =
      let kept : Kept w w' = Only-Kept o in
      accept_rest st_time w.next rest there w' safe (Kept-IsValid v kept) (IsLive-Kept l kept)
        (λ e. record { there = omega (arith, o.objects); named = ground (arith, named e, l.named) })
        (Unregistered-Kept (new-Unregistered v refl) kept)

  Safe-accept_round :
      (st_time : ℕ) (rest : M (Unit {0})) → Safe p rest → Safe p (accept_round st_time p rest)
  unfolding accept_round
  Safe-accept_round st_time rest safe = record {
    at = λ w v l.
        let w1 : World = with_new w in
        let same : w1.heap p ≡ w.heap p = ground (arith, l.there) in
        Allows->>= (accept_link (w1.heap p).mi_socket (w1.heap p).mp_tcpcallback w.next)
          (λ there. if there then adopt st_time p w.next >> rest else pure tt) w1
          (λ there w'.
            Only w.next w1 w'
            × (there ≡ true → (w'.heap w.next).mp_tcpcallback ≡ (w1.heap p).mp_tcpcallback))
          (λ _ w'. IsValid w' × IsLive p w')
          (Ensures-Allows (accept_link (w1.heap p).mi_socket (w1.heap p).mp_tcpcallback w.next w1) _
            _
            (accept_link_lem (w1.heap p).mi_socket (w1.heap p).mp_tcpcallback w.next w1
              (ground (arith, l.named, same)) (omega arith))
            (λ _ _ h. h))
          λ there w' h.
            accept_round_rest st_time rest there w w' safe v l h.0
              (λ e. h.1 e ∙ ap (λ (o : MsTcpLink). o.mp_tcpcallback) same);
  }

  Safe-accept_loop : (rounds st_time : ℕ) → Safe p (accept_loop rounds st_time p)
  unfolding accept_loop
  Safe-accept_loop zero st_time = record { at = λ w v l. tt }
  Safe-accept_loop (suc rounds) st_time =
      Safe-accept_round st_time (accept_loop rounds st_time p) (Safe-accept_loop rounds st_time)

  pub Safe-on_event_accept : (rounds : ℕ) → Safe p (on_event_accept rounds p)
  unfolding on_event_accept
  Safe-on_event_accept rounds = search (safe_rules, keeps_rules, Safe-accept_loop) depth 12

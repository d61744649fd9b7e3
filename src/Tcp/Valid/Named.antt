-- ===== src/Tcp/Valid/Named.antt =====
-- The callback of a link that is made or accepted (tcp-link.cpp) is the one that was given.
use tcp_epoll.Prelude.{
  ℕ, ◌<◌, ◌≡◌, ◌∙◌, refl, Bool, true, false, Option, some, List, arith, if◌then◌else◌,
}
use tcp_epoll.Prelude.Int.{ℤ, is_neg}
use tcp_epoll.Tcp.State.{World, MsTcpLink, link_type_accept, update}
use tcp_epoll.Tcp.Monad.{Ensures, Ensures-mono, M, pure, ◌>>=◌, ◌>>◌, store, syscall}
use tcp_epoll.Kernel.{Syscall, Reply}
use tcp_epoll.Tcp.Sockets.{set_conn_nonblock}
use tcp_epoll.Tcp.Link.{accept_link, accepted, link_create, bind_link, tcp_nodelay}
use tcp_epoll.Tcp.Valid.{Kept}
use tcp_epoll.Tcp.Valid.Rules.{Keeps, keeps_rules}
use tcp_epoll.Tcp.Valid.Link.{Keeps-set_conn_nonblock, Keeps-update_local_address}

-- What comes after the assignment of the callback keeps it.
module _ {A : Type 0} (q f : ℕ) (g : MsTcpLink → MsTcpLink) (m : M A) where
  named_after :
      Keeps q m
      → ((o : MsTcpLink) → (g o).mp_tcpcallback ≡ some f)
      → (w : World) → q < w.next
      → Ensures ((store q g >> m) w) (λ _ w'. (w'.heap q).mp_tcpcallback ≡ some f)
  named_after k e w h =
      let w' : World = record w { heap = update w.heap q (g (w.heap q)) } in
      let e' : (w'.heap q).mp_tcpcallback ≡ some f = ground (arith, e (w.heap q)) in
      Ensures-mono (m w') (λ _ w''. Kept w' w'') (λ _ w''. (w''.heap q).mp_tcpcallback ≡ some f)
        (k.at w' (record { there = h; named = ground (arith, e (w.heap q)) }))
        λ _ w'' kept. kept.callbacks q h ∙ e'

-- A successful run leaves the object with the callback.
record Gives (q f : ℕ) (m : M Bool) : Type 0 where
  at :
      (w : World)
      → q < w.next
      → Ensures (m w) (λ there w'. there ≡ true → (w'.heap q).mp_tcpcallback ≡ some f)

module _ {q f : ℕ} where
  Gives-false : Gives q f (pure false)
  Gives-false = record { at = λ w h. ground arith }

  Gives-syscall :
      (s : Syscall) (k : Reply → M Bool)
      → ((r : Reply) → Gives q f (k r))
      → Gives q f (syscall s >>= k)
  Gives-syscall s k kk = record { at = λ w h. (kk (w.replies w.clock)).at _ h }

  Gives-store : (g : MsTcpLink → MsTcpLink) (m : M Bool) → Gives q f m → Gives q f (store q g >> m)
  Gives-store g m km = record {
    at = λ w h. km.at (record w { heap = update w.heap q (g (w.heap q)) }) h;
  }

  Gives-if : (b : Bool) (m n : M Bool) → Gives q f m → Gives q f n → Gives q f (if b then m else n)
  Gives-if true m n km kn = km
  Gives-if false m n km kn = kn

Keeps-bind_link : {q : ℕ} (fd : ℤ) (us_port : ℕ) → Keeps q (bind_link q fd us_port)
unfolding bind_link
Keeps-bind_link fd us_port =
    search (keeps_rules, Keeps-set_conn_nonblock, Keeps-update_local_address) depth 20

-- link_create, but for its first assignment
create_rest : ℕ → ℕ → M Bool
create_rest us_local_port p = do
  s ← syscall Syscall.socket
  store p (λ o. record o { mi_socket = s.ret })
  if is_neg s.ret then pure false else bind_link p s.ret us_local_port

Keeps-create_rest : {q : ℕ} (us_port : ℕ) → Keeps q (create_rest us_port q)
unfolding create_rest
Keeps-create_rest us_port = search (keeps_rules, Keeps-bind_link)

pub link_create-named :
    (f : ℕ) (addr : Option (List ℕ)) (us_port q : ℕ) (w : World)
    → q < w.next
    → Ensures (link_create (some f) addr us_port q w) (λ _ w'. (w'.heap q).mp_tcpcallback ≡ some f)
unfolding link_create create_rest
link_create-named f addr us_port q w h =
    named_after q f (λ o. record o { mp_tcpcallback = some f }) (create_rest us_port q)
      (Keeps-create_rest us_port) (λ o. refl) w h

accepted_rest : ℕ → ℤ → M Bool
accepted_rest p ui_socket = do
  syscall (Syscall.setsockopt ui_socket tcp_nodelay)
  store p (λ o. record o { mb_need_check_alive = true })
  set_conn_nonblock ui_socket
  pure true

Keeps-accepted_rest : {q : ℕ} (fd : ℤ) → Keeps q (accepted_rest q fd)
unfolding accepted_rest
Keeps-accepted_rest fd = search (keeps_rules, Keeps-set_conn_nonblock) depth 12

Gives-accepted : {q f : ℕ} (fd : ℤ) → Gives q f (accepted q fd (some f))
unfolding accepted accepted_rest
Gives-accepted {q} {f} fd = record {
  at = λ w h.
      Ensures-mono (accepted q fd (some f) w) (λ _ w'. (w'.heap q).mp_tcpcallback ≡ some f)
        (λ there w'. there ≡ true → (w'.heap q).mp_tcpcallback ≡ some f)
        (named_after q f
          (λ o. record o {
            mp_tcpcallback = some f;
            m_link_type = link_type_accept;
            mi_socket = fd;
          })
          (accepted_rest q fd) (Keeps-accepted_rest fd) (λ o. refl) w h)
        λ _ w' k _. k;
}

Gives-accept_link : {q f : ℕ} (fd : ℤ) → Gives q f (accept_link fd (some f) q)
unfolding accept_link
Gives-accept_link fd =
    search (Gives-false, Gives-syscall, Gives-store, Gives-if, Gives-accepted) depth 12

pub accept_link-named :
    (fd : ℤ) (f q : ℕ) (w : World)
    → q < w.next
    → Ensures
        (accept_link fd (some f) q w)
        (λ there w'. there ≡ true → (w'.heap q).mp_tcpcallback ≡ some f)
accept_link-named fd f q w h = (Gives-accept_link fd).at w h

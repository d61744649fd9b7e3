-- ===== src/Tcp/Valid/Only.antt =====
-- Programs that change one object and nothing of the registry, one rule for each way to build
-- one: creation and acceptance of a link that is not registered (tcp-link.cpp).
use tcp_epoll.Prelude.{ℕ, ◌≡◌, ◌≢◌, Bool, true, false, Option, List, arith, if◌then◌else◌}
use tcp_epoll.Prelude.Int.{ℤ}
use tcp_epoll.Kernel.{Syscall}
use tcp_epoll.Tcp.State.{World, MsTcpLink}
use tcp_epoll.Tcp.Monad.{M, Ensures, Ensures-mono, Ensures->>=, pure, ◌>>=◌, load, store, syscall}
use tcp_epoll.Tcp.Sockets.{set_conn_nonblock, update_local_address}
use tcp_epoll.Tcp.Link.{accept_link, accepted, link_create, bind_link}

pub record Only (q : ℕ) (w w' : World) : Type 0 where
  pub maplink : w'.m_maplink ≡ w.m_maplink
  pub socket_map : w'.m_link_socket_map ≡ w.m_link_socket_map
  pub same_first : w'.g_ms_tcp_first_create_link ≡ w.g_ms_tcp_first_create_link
  pub same_counter : w'.i_link ≡ w.i_link
  pub objects : w'.next ≡ w.next
  pub handles : (r : ℕ) → r ≢ q → (w'.heap r).mh_link ≡ (w.heap r).mh_link
  pub callbacks : (r : ℕ) → r ≢ q → (w'.heap r).mp_tcpcallback ≡ (w.heap r).mp_tcpcallback

Only-trans : {q : ℕ} {u v w : World} → Only q u v → Only q v w → Only q u w
Only-trans {q} {u} {v} {w} k l = grind arith

record Touches {A : Type 0} (q : ℕ) (m : M A) : Type 0 where
  at : (w : World) → Ensures (m w) (λ _ w'. Only q w w')

module _ {q : ℕ} where
  Touches-pure : {A : Type 0} (a : A) → Touches q (pure a)
  Touches-pure a = record { at = λ w. ground arith }

  Touches-load : (r : ℕ) → Touches q (load r)
  Touches-load r = record { at = λ w. ground arith }

  Touches-syscall : (s : Syscall) → Touches q (syscall s)
  Touches-syscall s = record { at = λ w. ground arith }

  Touches-store : (f : MsTcpLink → MsTcpLink) → Touches q (store q f)
  Touches-store f = record { at = λ w. ground arith }

  Touches-if :
      {A : Type 0} (b : Bool) (m n : M A)
      → Touches q m
      → Touches q n
      → Touches q (if b then m else n)
  Touches-if true m n km kn = km
  Touches-if false m n km kn = kn

  Touches->>= :
      {A B : Type 0} (m : M A) (f : A → M B)
      → Touches q m
      → ((a : A) → Touches q (f a))
      → Touches q (m >>= f)
  Touches->>= m f km kf = record {
    at = λ w.
        Ensures->>= m f w (λ _ w'. Only q w w') (λ _ w'. Only q w w') (km.at w)
          λ a w' k.
            Ensures-mono (f a w') (λ _ w''. Only q w' w'') (λ _ w''. Only q w w'') ((kf a).at w')
              λ _ w'' k'. Only-trans k k';
  }

  ruleset touches_rules =
      (Touches-pure, Touches-load, Touches-syscall, Touches-store, Touches-if, Touches->>=)

  Touches-set_conn_nonblock : (fd : ℤ) → Touches q (set_conn_nonblock fd)
  unfolding set_conn_nonblock
  Touches-set_conn_nonblock fd = search touches_rules

  Touches-update_local_address : (fd : ℤ) → Touches q (update_local_address q fd)
  unfolding update_local_address
  Touches-update_local_address fd = search touches_rules

  Touches-accepted : (fd : ℤ) (cb : Option ℕ) → Touches q (accepted q fd cb)
  unfolding accepted
  Touches-accepted fd cb = search (touches_rules, Touches-set_conn_nonblock) depth 12

  Touches-accept_link : (fd : ℤ) (cb : Option ℕ) → Touches q (accept_link fd cb q)
  unfolding accept_link
  Touches-accept_link fd cb = search (touches_rules, Touches-accepted) depth 12

  Touches-bind_link : (fd : ℤ) (us_port : ℕ) → Touches q (bind_link q fd us_port)
  unfolding bind_link
  Touches-bind_link fd us_port =
      search (touches_rules, Touches-set_conn_nonblock, Touches-update_local_address) depth 20

  Touches-link_create :
      (cb : Option ℕ) (addr : Option (List ℕ)) (us_port : ℕ)
      → Touches q (link_create cb addr us_port q)
  unfolding link_create
  Touches-link_create cb addr us_port = search (touches_rules, Touches-bind_link) depth 12

pub accept_link-Only :
    (fd : ℤ) (cb : Option ℕ) (q : ℕ) (w : World)
    → Ensures (accept_link fd cb q w) (λ _ w'. Only q w w')
accept_link-Only fd cb q w = (Touches-accept_link fd cb).at w

pub link_create-Only :
    (cb : Option ℕ) (addr : Option (List ℕ)) (us_port q : ℕ) (w : World)
    → Ensures (link_create cb addr us_port q w) (λ _ w'. Only q w w')
link_create-Only cb addr us_port q w = (Touches-link_create cb addr us_port).at w

-- ===== src/Tcp/Valid/Read.antt =====
-- on_event_read of tcp-link.cpp keeps the registry valid.
use tcp_epoll.Prelude.{ℕ, zero, suc, Option, List}
use tcp_epoll.Prelude.Int.{ℤ}
use tcp_epoll.Tcp.Monad.{M}
use tcp_epoll.Tcp.Callback.{send_recv_data}
use tcp_epoll.Tcp.Events.{on_event_read, read_loop, read_round, read_refused, read_ended}
use tcp_epoll.Tcp.Valid.Rules.{Keeps, keeps_rules}
use tcp_epoll.Tcp.Valid.Link.{link_rules}
use tcp_epoll.Tcp.Valid.Safe.{Safe, safe_rules}
use tcp_epoll.Prelude.{arith}

module _ {p : ℕ} where
  pub Keeps-send_recv_data :
      (b : Option (List ℕ)) (size i_status : ℕ) → Keeps p (send_recv_data b size i_status p)
  unfolding send_recv_data
  Keeps-send_recv_data b size i_status = record { at = λ w l. ground arith }

  Keeps-read_refused : (fd : ℤ) (h err : ℕ) → Keeps p (read_refused fd h err)
  unfolding read_refused
  Keeps-read_refused fd h err = search link_rules depth 12

  Safe-read_ended : (fd : ℤ) → Safe p (read_ended fd p)
  unfolding read_ended
  Safe-read_ended fd = search (safe_rules, link_rules) depth 12

  Safe-read_round : (rest : M (Unit {0})) → Safe p rest → Safe p (read_round p rest)
  unfolding read_round
  Safe-read_round rest h =
      search (safe_rules, keeps_rules, Keeps-read_refused, Keeps-send_recv_data, Safe-read_ended)
        depth 12

  Safe-read_loop : (rounds : ℕ) → Safe p (read_loop rounds p)
  unfolding read_loop
  Safe-read_loop zero = record { at = λ w v l. tt }
  Safe-read_loop (suc rounds) = Safe-read_round (read_loop rounds p) (Safe-read_loop rounds)

  pub Safe-on_event_read : (rounds : ℕ) → Safe p (on_event_read rounds p)
  unfolding on_event_read
  Safe-on_event_read rounds =
      search (safe_rules, link_rules, Keeps-send_recv_data, Safe-read_loop) depth 12

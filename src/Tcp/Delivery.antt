-- ===== src/Tcp/Delivery.antt =====
-- What on_event_read of tcp-link.cpp tells the callback: the bytes of the connection, in order,
-- between a beginning and an end.
use tcp_epoll.Prelude.{
  ℕ, zero, suc, ◌+◌, ◌<◌, ◌≡◌, Bool, true, false, not, ◌&&◌, Option, none, some, List, [], ◌∷◌,
  ◌++◌, length, take, arith, if◌then◌else◌, is_some, ◌==◌,
}
use mathlib.Core.List.{append_assoc, append-nil}
use tcp_epoll.Prelude.Int.{minus_one, is_neg, le_zero, pos_part, eq_ℤ}
use native.Mathlib.Nat.{add-zero}
use tcp_epoll.Kernel.{Syscall, Reply, econnreset}
use tcp_epoll.Tcp.State.{
  World, Effect, TcpEvent, TcpParam, sys, callback, recv_param, no_param, evt_tcp_receivedata,
  evt_tcp_closed, status_recv_begin, status_recv_middle, status_recv_end,
}
use tcp_epoll.Tcp.Monad.{M, Ensures, Ensures-mono, Ensures->>=, ◌>>=◌, ◌>>◌, pure}
use tcp_epoll.Tcp.Sockets.{set_last_alive}
use tcp_epoll.Tcp.Events.{on_event_read, read_loop, read_round, i_recv_buff_size}
use tcp_epoll.Tcp.Callback.{send_recv_data}

-- One call of the callback.
pub record Told : Type 0 where
  pub event : TcpEvent
  pub param : TcpParam

-- The calls of callbacks among the effects, the oldest first.
abbrev pub told : List Effect → List Told
told [] = []
told (sys _ ∷ t) = told t
told (callback _ e q ∷ t) = told t ++ record { event = e; param = q } ∷ []

abbrev pub received : ℕ → Option (List ℕ) → ℕ → ℕ → Told
received h buffer size i_status = record {
  event = record { ui_event = evt_tcp_receivedata; h_link = h };
  param = recv_param buffer size i_status;
}

-- The replies from number `c` on are reads of these chunks, and then one with no data.
abbrev pub Reads : (ℕ → Reply) → ℕ → List (List ℕ) → Type 0
Reads r c [] = le_zero (r c).ret ≡ true
Reads r c (b ∷ bs) =
    (le_zero (r c).ret ≡ false)
    × (take (pos_part (r c).ret) (r c).bytes ≡ b)
    × (length b ≡ pos_part (r c).ret)
    × Reads r (c + 1) bs

-- The connection has ended: by the peer, or by a reset.
abbrev pub ends : Reply → Bool
ends r = not (is_neg r.ret && not (r.errno == econnreset))

abbrev pub middles : ℕ → List (List ℕ) → List Told
middles h [] = []
middles h (b ∷ bs) = received h (some b) (length b) status_recv_middle ∷ middles h bs

abbrev pub closing : ℕ → Bool → List Told
closing h closes =
    if closes
    then record { event = record { ui_event = evt_tcp_closed; h_link = h }; param = no_param } ∷ []
    else []

module _ (p : ℕ) where
  -- What the loop needs of a state, and what it leaves.
  record ToldBy (news : List Told) (w w' : World) : Type 0 where
    handle : (w'.heap p).mh_link ≡ (w.heap p).mh_link
    named : is_some (w'.heap p).mp_tcpcallback ≡ is_some (w.heap p).mp_tcpcallback
    news_told : told w'.trace ≡ told w.trace ++ news

  last_round :
      (rest : M (Unit {0})) (w : World)
      → is_some (w.heap p).mp_tcpcallback ≡ true
      → le_zero (w.replies w.clock).ret ≡ true
      → Ensures (read_round p rest w) (λ _ w'.
        ToldBy
          (closing
            (w.heap p).mh_link
            (ends (w.replies w.clock) && not (eq_ℤ (w.heap p).mi_socket minus_one)))
          w
          w')
  unfolding read_round
  last_round rest w named e = grind (arith, append-nil)

  -- After a read that has data and the callback's call.
  abbrev after_read : ℕ → World → World
  after_read f w = record w {
    clock = w.clock + 1;
    trace =
        callback f (record { ui_event = evt_tcp_receivedata; h_link = (w.heap p).mh_link })
          (recv_param (some (take (pos_part (w.replies w.clock).ret) (w.replies w.clock).bytes))
            (pos_part (w.replies w.clock).ret) status_recv_middle)
        ∷ sys (Syscall.read (w.heap p).mi_socket i_recv_buff_size)
        ∷ w.trace;
  }

  next_round :
      (f : ℕ) (rest : M (Unit {0})) (w : World)
      → (w.heap p).mp_tcpcallback ≡ some f
      → le_zero (w.replies w.clock).ret ≡ false
      → read_round p rest w ≡ rest (after_read f w)
  unfolding read_round
  next_round f rest w named e = ground arith

  abbrev pub ended : World → ℕ → List Told
  ended w c =
      closing (w.heap p).mh_link (ends (w.replies c) && not (eq_ℤ (w.heap p).mi_socket minus_one))

  told_next :
      (f : ℕ) (b : List ℕ) (bs : List (List ℕ)) (w w'' : World)
      → take (pos_part (w.replies w.clock).ret) (w.replies w.clock).bytes ≡ b
      → length b ≡ pos_part (w.replies w.clock).ret
      → told w''.trace
        ≡ told (after_read f w).trace
          ++ (middles (w.heap p).mh_link bs ++ ended w (w.clock + 1 + length bs))
      → told w''.trace
        ≡ told w.trace
          ++ (middles (w.heap p).mh_link (b ∷ bs) ++ ended w (w.clock + suc (length bs)))
  told_next f b bs w w'' e n t =
      let c : w.clock + 1 + length bs ≡ w.clock + suc (length bs) = omega arith in
      rw (t, append_assoc, c, e, ← n)

  read_loop_lem :
      (bs : List (List ℕ)) (rounds f : ℕ) (w : World)
      → (w.heap p).mp_tcpcallback ≡ some f
      → length bs < rounds
      → Reads w.replies w.clock bs
      → Ensures (read_loop rounds p w) (λ _ w'.
        ToldBy
          (middles (w.heap p).mh_link bs
            ++ closing (w.heap p).mh_link (
                ends (w.replies (w.clock + length bs))
                && not (eq_ℤ (w.heap p).mi_socket minus_one)))
          w
          w')
  unfolding read_loop
  read_loop_lem bs zero f w named h r = absurd (omega arith)
  read_loop_lem [] (suc rounds) f w named h r =
      rw add-zero (last_round (read_loop rounds p) w (ground arith) r)
  read_loop_lem (b ∷ bs) (suc rounds) f w named h r =
      let w' : World = after_read f w in
      rw (next_round f (read_loop rounds p) w named r.0) (
        Ensures-mono (read_loop rounds p w') _ _
          (read_loop_lem bs rounds f w' named (omega arith) r.3)
          λ _ w'' t. record {
            handle = t.handle;
            named = t.named;
            news_told = told_next f b bs w w'' r.1 r.2 t.news_told;
          })

  abbrev after_begin : ℕ → World → World
  after_begin f w = record w {
    trace =
        callback f (record { ui_event = evt_tcp_receivedata; h_link = (w.heap p).mh_link })
          (recv_param none 0 status_recv_begin)
        ∷ w.trace;
  }

  finish_read : M Bool
  finish_read = do send_recv_data none 0 status_recv_end p; set_last_alive p; pure true

  finish_lem :
      (news : List Told) (w w' : World)
      → is_some (w'.heap p).mp_tcpcallback ≡ true
      → (w'.heap p).mh_link ≡ (w.heap p).mh_link
      → told w'.trace ≡ told w.trace ++ news
      → Ensures (finish_read w') (λ ok w''.
        (ok ≡ true)
        × (told w''.trace
            ≡ told w.trace ++ (news ++ received (w.heap p).mh_link none 0 status_recv_end ∷ [])))
  unfolding finish_read send_recv_data set_last_alive
  finish_lem news w w' named same t = grind (arith, append_assoc, t)

  begin_lem :
      (f : ℕ) (news : List Told) (w w' : World)
      → told w'.trace ≡ told (after_begin f w).trace ++ news
      → told w'.trace ≡ told w.trace ++ received (w.heap p).mh_link none 0 status_recv_begin ∷ news
  begin_lem f news w w' t = rw (t, append_assoc)

  on_event_read_run :
      (bs : List (List ℕ)) (rounds f : ℕ) (w : World)
      → (w.heap p).mp_tcpcallback ≡ some f
      → length bs < rounds
      → Reads w.replies w.clock bs
      → Ensures ((read_loop rounds p >> finish_read) (after_begin f w)) (λ ok w'.
        (ok ≡ true)
        × (told w'.trace
            ≡ told w.trace
              ++ (received (w.heap p).mh_link none 0 status_recv_begin
                    ∷ (middles (w.heap p).mh_link bs ++ ended w (w.clock + length bs))
                  ++ received (w.heap p).mh_link none 0 status_recv_end ∷ [])))
  on_event_read_run bs rounds f w named h r =
      Ensures->>= (read_loop rounds p) (λ _. finish_read) (after_begin f w) _ _
        (read_loop_lem bs rounds f (after_begin f w) named h r)
        λ _ w' t.
          finish_lem _ w w' (ground (arith, t.named)) t.handle (begin_lem f _ w w' t.news_told)

-- Let the kernel answer the reads of a link with some chunks and then with no data, and let the
-- rounds be more than the chunks. Then on_event_read ends, and has told the callback: a beginning,
-- every chunk in order with its length, that the link is closed if the peer has closed or reset
-- it and the link has a socket, and an end. No other call of a callback is made.
pub on_event_read-Told :
    (p : ℕ) (bs : List (List ℕ)) (rounds f : ℕ) (w : World)
    → (w.heap p).mp_tcpcallback ≡ some f
    → length bs < rounds
    → Reads w.replies w.clock bs
    → Ensures (on_event_read rounds p w) (λ ok w'.
      (ok ≡ true)
      × (told w'.trace
          ≡ told w.trace
            ++ (received (w.heap p).mh_link none 0 status_recv_begin
                  ∷ (middles (w.heap p).mh_link bs ++ ended p w (w.clock + length bs))
                ++ received (w.heap p).mh_link none 0 status_recv_end ∷ [])))
unfolding on_event_read finish_read send_recv_data
on_event_read-Told p bs rounds f w named h r =
    rw (named, ◌>>=◌) (on_event_read_run p bs rounds f w named h r)

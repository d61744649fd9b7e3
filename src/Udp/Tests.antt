-- ===== src/Udp/Tests.antt =====
-- The theorems about the UDP library at concrete states, and runs of it.
use tcp_epoll.Prelude.{
  ℕ, ◌≡◌, ◌∷◌, [], refl, true, false, none, some, List, is_some, arith, ◌==◌, if◌then◌else◌,
}
use tcp_epoll.Prelude.Int.{ℤ, pos, minus_one}
use tcp_epoll.StdMap.{find}
use tcp_epoll.Kernel.{Syscall, Reply, zero_addr, eagain}
use tcp_epoll.Udp.State.{
  UdpWorld, SendBuff, MsUdpLink, new_udp_link, sys, callback, no_param, evt_udp_closed,
}
use tcp_epoll.Udp.Monad.{Outcome, done, crash, spin, exhausted, Ensures}
use tcp_epoll.Udp.Send.{flush}
use tcp_epoll.Udp.Api.{ms_udp_create, ms_udp_destroy}
use tcp_epoll.Udp.Queue.{Flushed, flush-Flushed}
use tcp_epoll.Udp.Valid.{IsUdpValid}
use tcp_epoll.Udp.Valid.Create.{UdpCreation, ms_udp_create-UdpCreation}
use tcp_epoll.Udp.Valid.Ends.{ms_udp_destroy_lem, ms_udp_destroy_effects}
use tcp_epoll.Udp.Valid.History.{create, run, UdpReach, here, next, UdpReach-IsUdpValid}

abbrev answer : ℤ → List ℕ → Reply
answer ret bytes = record { ret = ret; errno = eagain; addr = zero_addr; bytes = bytes; word = 9 }

-- All calls succeed with the answer 1.
abbrev all_one : ℕ → Reply
all_one c = answer (pos 1) (65 ∷ [])

-- All calls fail with EAGAIN.
abbrev all_again : ℕ → Reply
all_again c = answer minus_one []

-- Before any call.
abbrev start : UdpWorld
start = record {
  m_maplink = [];
  mb_send_flag = false;
  i_link = 0;
  m_p_instance = none;
  heap = λ q. new_udp_link;
  next = 0;
  replies = all_one;
  clock = 0;
  trace = [];
}

start-IsUdpValid : IsUdpValid start
unfolding find
start-IsUdpValid = ground arith

abbrev datagram : ℕ → SendBuff
datagram n = record { p_data = some (n ∷ []); ui_size = 1; dst_addr = zero_addr }

-- A datagram with nothing to send.
abbrev nothing : SendBuff
nothing = record { p_data = none; ui_size = 1; dst_addr = zero_addr }

-- One link, object 0, under handle 1, with callback 7, socket 5 and two datagrams that wait.
abbrev peer : MsUdpLink
peer = record new_udp_link {
  mi_socket = pos 5;
  mh_link = 1;
  mp_udpcallback = some 7;
  m_send_buff_list = datagram 1 ∷ datagram 2 ∷ [];
}

abbrev with_peer : (ℕ → Reply) → UdpWorld
with_peer replies = record start {
  m_maplink = (1, 0) ∷ [];
  mb_send_flag = true;
  i_link = 1;
  heap = λ q. peer;
  next = 1;
  replies = replies;
}

with_peer-IsUdpValid : (replies : ℕ → Reply) → IsUdpValid (with_peer replies)
unfolding find
with_peer-IsUdpValid replies = ground arith

abbrev state_of : {A : Type 0} → Outcome UdpWorld A → UdpWorld
state_of (done _ w) = w
state_of crash = start
state_of spin = start
state_of exhausted = start

abbrev made_one : UdpWorld
made_one = state_of (run (create 7 (pos 1) none 80) start)

made_one-UdpReach : UdpReach start made_one
unfolding ms_udp_create
made_one-UdpReach = next (create 7 (pos 1) none 80) here refl

UdpReach-IsUdpValid_example : IsUdpValid made_one
UdpReach-IsUdpValid_example = UdpReach-IsUdpValid start-IsUdpValid made_one-UdpReach

flush-Flushed_example :
    Ensures (flush (pos 5) (datagram 1 ∷ nothing ∷ datagram 2 ∷ []) (with_peer all_one)) (λ left w'.
      Flushed (pos 5) (datagram 1 ∷ nothing ∷ datagram 2 ∷ []) left (with_peer all_one) w')
flush-Flushed_example =
    flush-Flushed (pos 5) (datagram 1 ∷ nothing ∷ datagram 2 ∷ []) (with_peer all_one)

ms_udp_create-UdpCreation_example :
    Ensures
      (ms_udp_create (some 7) (pos 2) none 80 (with_peer all_one))
      (λ h w'. IsUdpValid w' × UdpCreation (pos 2) none (with_peer all_one) h w')
ms_udp_create-UdpCreation_example =
    ms_udp_create-UdpCreation 7 (pos 2) none 80 (with_peer all_one) (with_peer-IsUdpValid all_one)
      (omega arith)

ms_udp_destroy_lem_example : Ensures (ms_udp_destroy 1 (with_peer all_one)) (λ ok w'.
    IsUdpValid w'
    × (ok ≡ is_some (find 1 (with_peer all_one).m_maplink))
    × ((i : ℕ)
        → find i w'.m_maplink ≡ (if 1 == i then none else find i (with_peer all_one).m_maplink)))
ms_udp_destroy_lem_example = ms_udp_destroy_lem 1 (with_peer all_one) (with_peer-IsUdpValid all_one)

ms_udp_destroy_effects_example : Ensures (ms_udp_destroy 1 (with_peer all_one)) (λ _ w'.
    ((w'.heap 0).mi_socket ≡ minus_one)
    × (w'.trace
        ≡ callback 7 (record { ui_event = evt_udp_closed; h_link = 1 }) no_param
          ∷ sys (Syscall.shutdown (pos 5))
          ∷ sys (Syscall.epoll_ctl_del minus_one (pos 5))
          ∷ []))
unfolding find
ms_udp_destroy_effects_example =
    ms_udp_destroy_effects 1 0 7 (with_peer all_one) refl refl refl (λ e. ground (arith, e))

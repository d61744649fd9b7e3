-- ===== src/Tcp/Tests.antt =====
-- The theorems about the TCP library at concrete states, and runs of it.
use tcp_epoll.Prelude.{
  ℕ, ◌+◌, ◌<◌, ◌^◌, ◌≤◌, ◌≡◌, ◌⊎◌, ◌∷◌, [], ◌++◌, refl, true, false, none, some, List, ◌-◌, is_some,
  arith, ◌==◌, if◌then◌else◌,
}
use tcp_epoll.Prelude.Int.{le_zero, ℤ, pos, minus_one, to_u32}
use tcp_epoll.StdMap.{find, insert}
use tcp_epoll.Kernel.{Reply, zero_addr}
use tcp_epoll.Tcp.State.{
  World, MsTcpLink, link_type_accept, new_link, invalid_htcplink, status_recv_begin,
  status_recv_end,
}
use tcp_epoll.Tcp.Monad.{Outcome, crash, spin, done, Ensures, Allows, exhausted}
use tcp_epoll.Tcp.Epoll.{epoll_data, data_link, data_fd}
use tcp_epoll.Tcp.Registry.{int_max, add_tcp_link}
use tcp_epoll.Tcp.Events.{on_event_read, check_link_timeout}
use tcp_epoll.Tcp.Worker.{Batch, worker_thread, worker_round, worker_loop, keep_alive, init}
use tcp_epoll.Tcp.Api.{ms_tcp_uninit, ms_tcp_create, ms_tcp_destroy, ms_tcp_send}
use tcp_epoll.Tcp.Valid.{IsValid, Kept}
use tcp_epoll.Tcp.Valid.Worker.{worker_thread-IsValid}
use tcp_epoll.Tcp.Valid.Create.{Creation, ms_tcp_create-Creation}
use tcp_epoll.Tcp.Valid.History.{create, run, Reach, here, next, Reach-IsValid}
use tcp_epoll.Tcp.Delivery.{Reads, told, received, middles, ended, on_event_read-Told}
use tcp_epoll.Tcp.Handles.{data_link-epoll_data, add_tcp_link_lem}
use tcp_epoll.Tcp.Teardown.{ms_tcp_destroy_lem}
use tcp_epoll.Tcp.Idle.{unless_expired, check_link_timeout_lem}
use tcp_epoll.Tcp.Start.{
  each, IsThere, worker_round-handle_event, init-worker_loop, ms_tcp_uninit_lem,
}
use tcp_epoll.Tcp.Errors.{ms_tcp_send_lem}

abbrev pub answer : ℤ → List ℕ → Reply
answer ret bytes = record { ret = ret; errno = 11; addr = zero_addr; bytes = bytes; word = 9 }

-- All calls succeed with the answer 0.
abbrev pub all_zero : ℕ → Reply
all_zero c = answer (pos 0) []

-- Before any call.
abbrev pub start : World
start = record {
  m_maplink = [];
  m_link_socket_map = [];
  m_link_errinfo = [];
  i_link = 0;
  g_ms_tcp_first_create_link = invalid_htcplink;
  g_tcp_log_callback = 0;
  m_p_instance = none;
  ui_keep_alive_times = 0;
  heap = λ q. new_link 0;
  next = 0;
  replies = all_zero;
  clock = 0;
  trace = [];
}

start-IsValid : IsValid start
unfolding find
start-IsValid = ground arith

-- One accepted link, object 0, under handle 1, with callback 7 and socket 5. It was last alive at
-- time 0.
abbrev pub peer : MsTcpLink
peer = record (new_link 0) {
  mi_socket = pos 5;
  mh_link = 1;
  mp_tcpcallback = some 7;
  m_link_type = link_type_accept;
  mb_need_check_alive = true;
}

abbrev pub with_peer : (ℕ → Reply) → World
with_peer replies = record start {
  m_maplink = (1, 0) ∷ [];
  m_link_socket_map = (1, pos 5) ∷ [];
  i_link = 1;
  g_ms_tcp_first_create_link = 1;
  heap = λ q. peer;
  next = 1;
  replies = replies;
}

with_peer-IsValid : (replies : ℕ → Reply) → IsValid (with_peer replies)
unfolding find
with_peer-IsValid replies = ground arith

-- A read of two bytes, then the end of the connection.
abbrev pub two_bytes : ℕ → Reply
two_bytes c = if c == 0 then answer (pos 2) (104 ∷ 105 ∷ []) else answer (pos 0) []

abbrev two_reads : Batch
two_reads = record { i_event_num = pos 1; stored = record { events = 1; u64 = 2 ^ 32 + 5 } ∷ [] }

-- The state after a run that has ended.
abbrev state_of : {A : Type 0} → Outcome World A → World
state_of (done _ w) = w
state_of crash = start
state_of spin = start
state_of exhausted = start

abbrev made_one : World
made_one = state_of (run (create 7 none 80) start)

made_one-Reach : Reach start made_one
unfolding ms_tcp_create
made_one-Reach = next (create 7 none 80) here refl

Reach-IsValid_example : IsValid made_one
Reach-IsValid_example = Reach-IsValid start-IsValid made_one-Reach

-- The new link is found under handle 1, and destroyed again.
made_one-found : find 1 made_one.m_maplink ≡ some 0
unfolding ms_tcp_create find insert
made_one-found = refl

pub two_bytes-Reads : Reads two_bytes 0 ((104 ∷ 105 ∷ []) ∷ [])
two_bytes-Reads = ground arith

on_event_read-Told_example : Ensures (on_event_read 2 0 (with_peer two_bytes)) (λ ok w'.
    (ok ≡ true)
    × (told w'.trace
        ≡ told (with_peer two_bytes).trace
          ++ (received 1 none 0 status_recv_begin
                ∷ (middles 1 ((104 ∷ 105 ∷ []) ∷ []) ++ ended 0 (with_peer two_bytes) (0 + 1))
              ++ received 1 none 0 status_recv_end ∷ [])))
on_event_read-Told_example =
    on_event_read-Told 0 ((104 ∷ 105 ∷ []) ∷ []) 2 7 (with_peer two_bytes) refl (omega arith)
      two_bytes-Reads

ms_tcp_create-Creation_example :
    Ensures
      (ms_tcp_create (some 7) none 80 (with_peer all_zero))
      (λ h w'. IsValid w' × Creation (with_peer all_zero) h w')
ms_tcp_create-Creation_example =
    ms_tcp_create-Creation 7 none 80 (with_peer all_zero) (with_peer-IsValid all_zero) (omega arith)

ms_tcp_destroy_lem_example : Ensures (ms_tcp_destroy 1 (with_peer all_zero)) (λ ok w'.
    (ok ≡ is_some (find 1 (with_peer all_zero).m_maplink))
    × ((i : ℕ)
        → find i w'.m_maplink ≡ (if 1 == i then none else find i (with_peer all_zero).m_maplink))
    × (ms_tcp_destroy 1 w' ≡ done false w'))
ms_tcp_destroy_lem_example = ms_tcp_destroy_lem 1 (with_peer all_zero) (with_peer-IsValid all_zero)

worker_thread-IsValid_example :
    Allows (worker_thread 3 (two_reads ∷ two_reads ∷ []) (with_peer two_bytes)) (λ _ w'. IsValid w')
worker_thread-IsValid_example =
    worker_thread-IsValid 3 (two_reads ∷ two_reads ∷ []) (with_peer two_bytes)
      (with_peer-IsValid two_bytes)

-- The clock says five minutes.
abbrev five_minutes : ℕ → Reply
five_minutes c = answer (pos 300) []

check_link_timeout_lem_example : Ensures (check_link_timeout (with_peer five_minutes)) (λ _ w'.
    IsValid w'
    × ((h : ℕ)
        → find h w'.m_maplink
          ≡ unless_expired 300
              (with_peer five_minutes)
              (find h (with_peer five_minutes).m_maplink)))
check_link_timeout_lem_example =
    check_link_timeout_lem (with_peer five_minutes) (with_peer-IsValid five_minutes)

worker_round-handle_event_example :
    (w' : World) × Kept (with_peer two_bytes) w'
    × (keep_alive (with_peer two_bytes) ≡ done true w')
    × (worker_round 2 two_reads (with_peer two_bytes)
        ≡ (if le_zero two_reads.i_event_num then done tt w' else each 2 two_reads.stored w'))
worker_round-handle_event_example =
    worker_round-handle_event 2 two_reads (with_peer two_bytes) (with_peer-IsValid two_bytes)

init-worker_loop_example : Ensures (init (with_peer all_zero)) (λ ok w'.
    (ok ≡ false)
    ⊎ Ensures (ms_tcp_create (some 7) none 80 w') (λ h w''.
      IsThere h w'' × ((rounds : ℕ) (bs : List Batch) → worker_loop rounds bs w'' ≡ done tt w'')))
init-worker_loop_example =
    init-worker_loop 7 none 80 (with_peer all_zero) (λ e. ground (arith, e)) (omega arith) refl
      (omega arith)

ms_tcp_uninit_lem_example :
    Ensures
      (ms_tcp_uninit (with_peer all_zero))
      (λ _ w'. IsValid w' × ((h : ℕ) → find h w'.m_maplink ≡ none) × (w'.m_p_instance ≡ none))
ms_tcp_uninit_lem_example = ms_tcp_uninit_lem (with_peer all_zero) (with_peer-IsValid all_zero)

data_link-epoll_data_example :
    (data_link (epoll_data 70000 minus_one) ≡ 70000)
    × (data_fd (epoll_data 70000 minus_one) ≡ to_u32 minus_one)
data_link-epoll_data_example = data_link-epoll_data 70000 minus_one (omega arith)

add_tcp_link_lem_example :
    ((int_max ≤ (with_peer all_zero).i_link) × (add_tcp_link 1 (with_peer all_zero) ≡ exhausted))
    ⊎ (((with_peer all_zero).i_link < int_max)
        × Ensures (add_tcp_link 1 (with_peer all_zero)) (λ h w'.
          (h ≡ (with_peer all_zero).i_link + 1) × (w'.i_link ≡ h) × (find h w'.m_maplink ≡ some 1)))
add_tcp_link_lem_example = add_tcp_link_lem 1 (with_peer all_zero)

-- Every call fails.
abbrev all_fail : ℕ → Reply
all_fail c = answer minus_one []

ms_tcp_send_lem_example :
    Ensures (ms_tcp_send 1 (some (104 ∷ [])) 1 (with_peer all_fail)) (λ r w'.
      (r.0 ≡ 2 ^ 32 - 1) × (r.1 ≡ pos 11) × (w'.m_maplink ≡ (with_peer all_fail).m_maplink))
unfolding find
ms_tcp_send_lem_example = ms_tcp_send_lem 1 0 1 (104 ∷ []) (with_peer all_fail) refl

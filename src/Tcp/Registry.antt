-- ===== src/Tcp/Registry.antt =====
-- The registry of links, the static members of MsTcpLink: tcp-link.cpp, include/tcp-link.h.
-- Each function holds `m_link_lock` throughout, so it is one step.
use tcp_epoll.Prelude.{
  ℕ, ◌+◌, ◌-◌, ◌%◌, ◌^◌, Bool, true, false, ◌&&◌, ◌||◌, Option, none, some, List, [], map, ◌==◌,
  ltb, if◌then◌else◌,
}
use tcp_epoll.Prelude.Int.{pos_part}
use tcp_epoll.StdMap.{StdMap, find, insert, erase}
use tcp_epoll.Kernel.{Syscall, eagain, eintr}
use tcp_epoll.Tcp.State.{World, ErrInfo}
use tcp_epoll.Tcp.Monad.{M, exhausted, pure, ◌>>=◌, ◌>>◌, gets, modify, load, syscall}
use tcp_epoll.Tcp.Epoll.{del_epoll_read}

abbrev pub int_max : ℕ
int_max = 2 ^ 31 - 1

unfoldable pub find_link : ℕ → M (Option ℕ)
find_link h_link = gets (λ w. find h_link w.m_maplink)

unfoldable pub unregister : ℕ → World → World
unregister h w = record w {
  m_maplink = erase h w.m_maplink;
  m_link_socket_map = erase h w.m_link_socket_map;
  m_link_errinfo = erase h w.m_link_errinfo;
}

unfoldable pub del_found : ℕ → Option ℕ → M Bool
unfolding unregister
del_found h none = pure false
del_found h (some p) = do o ← load p; del_epoll_read o.mi_socket; modify (unregister h); pure true

unfoldable pub del_link : ℕ → M Bool
unfolding del_found find_link del_epoll_read
del_link h_link = do found ← find_link h_link; del_found h_link found

-- `(++i_link) % 0x3ffffffff`: at INT_MAX the increment overflows a signed int.
abbrev pub next_handle : ℕ → ℕ
next_handle i_link = (i_link + 1) % 0x3_ffff_ffff % 2 ^ 32

unfoldable pub register : ℕ → ℕ → World → World
register h p w = record w {
  i_link = w.i_link + 1;
  m_maplink = insert h p w.m_maplink;
  m_link_socket_map = insert h (w.heap p).mi_socket w.m_link_socket_map;
}

unfoldable pub out_of_handles : M ℕ
out_of_handles w = exhausted

unfoldable pub add_tcp_link : ℕ → M ℕ
unfolding register out_of_handles
add_tcp_link p = do
  i ← gets (λ w. w.i_link)
  if ltb i int_max
      then modify (register (next_handle i) p) >> pure (next_handle i)
      else out_of_handles

unfoldable pub init_link_map : M (Unit {0})
init_link_map = modify (λ w. record w { m_maplink = []; m_link_socket_map = [] })

unfoldable pub set_errinfo : ℕ → ErrInfo → M (Unit {0})
set_errinfo h e = modify (λ w. record w { m_link_errinfo = insert h e w.m_link_errinfo })

abbrev no_error : ErrInfo
no_error = record { i_error_no = 0; ui_time = 0 }

unfoldable pub check_found : ℕ → Option ErrInfo → M Bool
unfolding set_errinfo
check_found h none = set_errinfo h no_error >> pure true
check_found h (some e) =
    if e.i_error_no == eagain || e.i_error_no == eintr
    then (do
      now ← syscall Syscall.time
      pure (if ltb (e.ui_time + 10) (pos_part now.ret) then false else true))
    else pure true

unfoldable pub check_error_info : ℕ → M Bool
unfolding check_found
check_error_info h_link = do
  found ← gets (λ w. find h_link w.m_link_errinfo)
  check_found h_link found

-- A new ErrInfo for a link that has none is filled in, and dropped.
unfoldable pub set_found : ℕ → ℕ → Option ErrInfo → M Bool
unfolding set_errinfo
set_found h i_error_no none = do syscall Syscall.time; pure true
set_found h i_error_no (some e) =
    if e.i_error_no == i_error_no && (if i_error_no == 0 then false else true)
    then (if e.ui_time == 0
        then (do
          now ← syscall Syscall.time
          set_errinfo h (record e { ui_time = pos_part now.ret % 2 ^ 32 })
          pure true)
        else pure true)
    else (do
      now ← syscall Syscall.time
      set_errinfo h (record { i_error_no = i_error_no; ui_time = pos_part now.ret % 2 ^ 32 })
      pure true)

unfoldable pub set_error_info : ℕ → ℕ → M Bool
unfolding set_found
set_error_info h_link i_error_no = do
  found ← gets (λ w. find h_link w.m_link_errinfo)
  set_found h_link i_error_no found

-- The links of the registry, in the order of their handles.
abbrev pub registered : StdMap ℕ → List ℕ
registered = map (λ e. e.1)

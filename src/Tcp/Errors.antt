-- ===== src/Tcp/Errors.antt =====
-- What the TCP library does with an error of write (ms_tcp_send) and with the table of errors that
-- set_error_info of tcp-link.cpp keeps, and the argument of ms_tcp_create that it does not read.
use tcp_epoll.Prelude.{
  is_some, ◌⊎◌, if◌then◌else◌, ℕ, ◌+◌, ◌-◌, ◌^◌, ◌≡◌, true, Option, some, List, arith, refl,
}
use tcp_epoll.Prelude.Int.{eq_ℤ, minus_one, pos, to_u32}
use tcp_epoll.StdMap.{find, find-insert}
use tcp_epoll.Tcp.State.{World}
use tcp_epoll.Tcp.Monad.{Ensures}
use tcp_epoll.Tcp.Registry.{set_error_info}
use tcp_epoll.Tcp.Link.{link_create}
use tcp_epoll.Tcp.Api.{ms_tcp_create, ms_tcp_send}

-- set_error_info returns true. It gives no entry to a handle that has none, takes none away, and
-- changes at most the entry of its own handle.
pub set_error_info_lem :
    (h i_error_no : ℕ) (w : World)
    → Ensures (set_error_info h i_error_no w) (λ ok w'.
      (ok ≡ true)
      × ((i : ℕ) → is_some (find i w'.m_link_errinfo) ≡ is_some (find i w.m_link_errinfo))
      × ((i : ℕ) → (i ≡ h) ⊎ (find i w'.m_link_errinfo ≡ find i w.m_link_errinfo)))
unfolding set_error_info
set_error_info_lem h i_error_no w = grind (arith, find-insert)

-- ms_tcp_send of a registered link's bytes returns what write returns, as an unsigned int, which
-- is 2 ^ 32 - 1 where write has failed with -1, and errno beside it. The registry is as before.
pub ms_tcp_send_lem :
    (h p ui_size : ℕ) (bytes : List ℕ) (w : World)
    → find h w.m_maplink ≡ some p
    → Ensures (ms_tcp_send h (some bytes) ui_size w) (λ r w'.
      (r.0 ≡ (
        if eq_ℤ (w.replies (w.clock + 1)).ret minus_one
        then 2 ^ 32 - 1
        else to_u32 (w.replies (w.clock + 1)).ret))
      × (r.1 ≡ pos (w.replies (w.clock + 1)).errno)
      × (w'.m_maplink ≡ w.m_maplink))
unfolding ms_tcp_send
ms_tcp_send_lem h p ui_size bytes w e = ground arith

-- ms_tcp_create does not look at the address: for any two addresses it does the same.
pub ms_tcp_create_ignores_addr :
    (back_func : Option ℕ) (a b : Option (List ℕ)) (us_port : ℕ) (w : World)
    → ms_tcp_create back_func a us_port w ≡ ms_tcp_create back_func b us_port w
unfolding ms_tcp_create link_create
ms_tcp_create_ignores_addr back_func a b us_port w = refl

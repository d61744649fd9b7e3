-- ===== src/Tcp/Epoll.antt =====
-- The epoll set of ms-epoll.cpp: event masks, the word that an event carries, and the calls
-- that register, change and remove a descriptor.
use Prim.Native.Nat.{bit_and}
use tcp_epoll.Prelude.{ℕ, ◌+◌, ◌-◌, ◌*◌, ◌/◌, ◌%◌, ◌^◌, Bool, true, not, ◌==◌, if◌then◌else◌}
use tcp_epoll.Prelude.Int.{ℤ, is_neg, to_u32}
use tcp_epoll.Kernel.{Syscall}
use tcp_epoll.Tcp.Monad.{M, pure, ◌>>=◌, syscall, instance_of}

-- EPOLLIN, EPOLLOUT, EPOLLERR, EPOLLHUP, EPOLLRDHUP and EPOLLET of sys/epoll.h.
abbrev pub epollin : ℕ
epollin = 0x1

abbrev pub epollout : ℕ
epollout = 0x4

abbrev pub epollerr : ℕ
epollerr = 0x8

abbrev pub epollhup : ℕ
epollhup = 0x10

abbrev pub epollrdhup : ℕ
epollrdhup = 0x2000

abbrev pub epollet : ℕ
epollet = 0x8000_0000

-- The bits are distinct, so `|` is `+` here.
unfoldable pub is_disconnected : ℕ → Bool
is_disconnected ui_event = not (bit_and ui_event (epollerr + epollhup + epollrdhup) == 0)

unfoldable pub is_readable : ℕ → Bool
is_readable ui_event = not (bit_and ui_event epollin == 0)

unfoldable pub is_writeable : ℕ → Bool
is_writeable ui_event = not (bit_and ui_event epollout == 0)

-- `data.u64 = h_link; data.u64 <<= 32; data.fd = i_fd;`: `fd` is the low word of the union.
unfoldable pub epoll_data : ℕ → ℤ → ℕ
epoll_data h_link i_fd = let u64 = h_link * 2 ^ 32 % 2 ^ 64 in u64 - u64 % 2 ^ 32 + to_u32 i_fd

-- `data.u64 >> 32`, as an unsigned int
unfoldable pub data_link : ℕ → ℕ
data_link u64 = u64 / 2 ^ 32 % 2 ^ 32

-- `data.fd`
unfoldable pub data_fd : ℕ → ℕ
data_fd u64 = u64 % 2 ^ 32

abbrev pub attach_mask : Bool → ℕ
attach_mask b_write =
    if b_write then epollin + epollout + epollrdhup + epollet else epollin + epollet

unfoldable pub attach_to_epoll : ℤ → ℕ → Bool → M Bool
attach_to_epoll i_fd h_link b_write = do
  e ← instance_of
  r ←
      syscall
        (Syscall.epoll_ctl_add e.mi_epoll_fd i_fd (attach_mask b_write) (epoll_data h_link i_fd))
  pure (not (is_neg r.ret))

unfoldable pub mod_epoll_read : ℤ → ℕ → M Bool
mod_epoll_read i_fd h_link = do
  e ← instance_of
  r ← syscall (Syscall.epoll_ctl_mod e.mi_epoll_fd i_fd (attach_mask true) (epoll_data h_link i_fd))
  pure (not (is_neg r.ret))

unfoldable pub del_epoll_read : ℤ → M Bool
del_epoll_read i_fd = do
  e ← instance_of
  r ← syscall (Syscall.epoll_ctl_del e.mi_epoll_fd i_fd)
  pure (not (is_neg r.ret))

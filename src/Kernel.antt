-- ===== src/Kernel.antt =====
-- The operating system as the sources use it: the calls they make, what a call answers, and
-- the constants and byte orders of a Linux machine that stores the low byte first. What the
-- kernel answers is a parameter: a stream of replies, which every state carries.
use tcp_epoll.Prelude.{ℕ, ◌+◌, ◌*◌, ◌/◌, ◌%◌, ◌^◌, ◌<◌, ◌≡◌, Option, List, arith}
use tcp_epoll.Prelude.Int.{ℤ}

-- sockaddr_in: the port and the address in network order.
pub record SockAddr : Type 0 where
  pub sin_family : ℕ
  pub sin_port : ℕ
  pub s_addr : ℕ

-- What memset to 0 leaves.
abbrev pub zero_addr : SockAddr
zero_addr = record { sin_family = 0; sin_port = 0; s_addr = 0 }

abbrev pub af_inet : ℕ
af_inet = 2

abbrev pub o_nonblock : ℕ
o_nonblock = 2048

abbrev pub eintr : ℕ
eintr = 4

abbrev pub eagain : ℕ
eagain = 11

-- EWOULDBLOCK is another name of EAGAIN.
abbrev pub ewouldblock : ℕ
ewouldblock = 11

abbrev pub econnreset : ℕ
econnreset = 104

abbrev pub einprogress : ℕ
einprogress = 115

abbrev pub inaddr_none : ℕ
inaddr_none = 0xffff_ffff

-- A call of the sources, with the arguments that matter.
pub data Syscall : Type 0 where
  socket : Syscall
  fcntl_getfl : ℤ → Syscall
  fcntl_setfl : ℤ → ℕ → Syscall
  setsockopt : ℤ → ℕ → Syscall
  bind : ℤ → SockAddr → Syscall
  getsockname : ℤ → Syscall
  connect : ℤ → SockAddr → Syscall
  listen : ℤ → ℕ → Syscall
  accept : ℤ → Syscall
  read : ℤ → ℕ → Syscall
  write : ℤ → List ℕ → ℕ → Syscall
  close : ℤ → Syscall
  inet_addr : List ℕ → Syscall
  gethostbyname : List ℕ → Syscall
  epoll_create : ℕ → Syscall
  epoll_ctl_add : ℤ → ℤ → ℕ → ℕ → Syscall
  epoll_ctl_mod : ℤ → ℤ → ℕ → ℕ → Syscall
  epoll_ctl_del : ℤ → ℤ → Syscall
  time : Syscall
  pthread_create : ℕ → Syscall
  pthread_join : ℕ → Syscall
  ignore_sigpipe : Syscall
  socket_dgram : Syscall
  sendto : ℤ → Option (List ℕ) → ℕ → SockAddr → Syscall
  recvfrom : ℤ → ℕ → Syscall
  shutdown : ℤ → Syscall
  eventfd : Syscall

-- The result, errno after the call, and what the call writes through its pointers. The answer
-- of `time` and of `inet_addr` is `ret`; that of `gethostbyname` is `addr.s_addr`, the first
-- address of a host of family `addr.sin_family`: `ret` is negative for NULL, and `bytes` is empty
-- where the host has no address. `word` is the thread that `pthread_create` has started.
pub record Reply : Type 0 where
  pub ret : ℤ
  pub errno : ℕ
  pub addr : SockAddr
  pub bytes : List ℕ
  pub word : ℕ

unfoldable pub htons : ℕ → ℕ
htons n = n % 256 * 256 + n / 256 % 256

unfoldable pub htonl : ℕ → ℕ
htonl n = n % 256 * 2 ^ 24 + n / 2 ^ 8 % 256 * 2 ^ 16 + n / 2 ^ 16 % 256 * 2 ^ 8 + n / 2 ^ 24 % 256

-- ntohs and ntohl are the same functions.
pub htons-htons : (n : ℕ) → n < 2 ^ 16 → htons (htons n) ≡ n
unfolding htons
htons-htons n h = omega arith

pub htonl-htonl : (n : ℕ) → n < 2 ^ 32 → htonl (htonl n) ≡ n
unfolding htonl
htonl-htonl n h = omega arith

-- ===== src/Udp/Monad.antt =====
-- Runs of the UDP library: programs on its state, with its store of objects, its kernel, its
-- singleton and its callbacks.
use tcp_epoll.Prelude.{ℕ, ◌+◌, Option, none, some, ◌∷◌}
use tcp_epoll.Kernel.{Syscall, Reply}
use tcp_epoll.Exec.{Prog}
use tcp_epoll.Tcp.State.{update}
use tcp_epoll.Udp.State.{
  UdpWorld, MsUdpLink, MsUdpEpoll, UdpEvent, UdpParam, sys, callback, new_udp_epoll, new_udp_link,
}
pub use tcp_epoll.Exec.{
  Outcome, done, crash, spin, exhausted, pure, ◌>>=◌, ◌>>◌, gets, modify, when, Ensures,
  Ensures-mono, Ensures->>=, Ensures-both, Ensures-ends, Allows, Allows-mono, Ensures-Allows,
  Allows->>=,
}

abbrev pub M : Type 0 → Type 0
M A = Prog UdpWorld A

abbrev pub load : ℕ → M MsUdpLink
load p w = done (w.heap p) w

abbrev pub store : ℕ → (MsUdpLink → MsUdpLink) → M (Unit {0})
store p f w = done tt (record w { heap = update w.heap p (f (w.heap p)) })

-- A system call: it is recorded, and takes the next reply.
abbrev pub syscall : Syscall → M Reply
syscall s w = done (w.replies w.clock) (record w { clock = w.clock + 1; trace = sys s ∷ w.trace })

-- `new MsUdpLink()`
abbrev pub new_object : M ℕ
new_object w =
    done w.next (record w { heap = update w.heap w.next new_udp_link; next = w.next + 1 })

-- CSingletonMsUdpEpollHandler::Instance() and ::Release()
abbrev pub instance_of : M MsUdpEpoll
instance_of w = elim w.m_p_instance [
  | none ↦ done new_udp_epoll (record w { m_p_instance = some new_udp_epoll })
  | some e ↦ done e w
]

abbrev pub set_instance : (MsUdpEpoll → MsUdpEpoll) → M (Unit {0})
set_instance f = do e ← instance_of; modify (λ w. record w { m_p_instance = some (f e) })

abbrev pub release_instance : M (Unit {0})
release_instance = modify (λ w. record w { m_p_instance = none })

-- A call of a callback, which is undefined through NULL.
abbrev pub call_back : Option ℕ → UdpEvent → UdpParam → M (Unit {0})
call_back none e q w = crash
call_back (some f) e q w = done tt (record w { trace = callback f e q ∷ w.trace })

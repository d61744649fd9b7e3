-- ===== src/Tcp/Monad.antt =====
-- Runs of the TCP library: programs on its state, with its store of objects, its kernel, its
-- singleton and its callbacks.
use tcp_epoll.Prelude.{ℕ, ◌+◌, Option, none, some, ◌∷◌}
use tcp_epoll.Kernel.{Syscall, Reply}
use tcp_epoll.Exec.{Prog}
use tcp_epoll.Tcp.State.{
  World, MsTcpLink, MsEpoll, TcpEvent, TcpParam, sys, callback, new_epoll, new_link, update,
}
pub use tcp_epoll.Exec.{
  Outcome, done, crash, spin, exhausted, pure, ◌>>=◌, ◌>>◌, gets, modify, when, Ensures,
  Ensures-mono, Ensures->>=, Ensures-both, Ensures-ends, Allows, Allows-mono, Ensures-Allows,
  Allows->>=,
}

abbrev pub M : Type 0 → Type 0
M A = Prog World A

-- The members of an object, and an assignment to some of them.
abbrev pub load : ℕ → M MsTcpLink
load p w = done (w.heap p) w

abbrev pub store : ℕ → (MsTcpLink → MsTcpLink) → M (Unit {0})
store p f w = done tt (record w { heap = update w.heap p (f (w.heap p)) })

-- A system call: it is recorded, and takes the next reply.
abbrev pub syscall : Syscall → M Reply
syscall s w = done (w.replies w.clock) (record w { clock = w.clock + 1; trace = sys s ∷ w.trace })

-- `new MsTcpLink()`, at a time
abbrev pub new_object : ℕ → M ℕ
new_object now w =
    done w.next (record w { heap = update w.heap w.next (new_link now); next = w.next + 1 })

-- CSingletonMsEpollHandler::Instance() and ::Release()
abbrev pub instance_of : M MsEpoll
instance_of w = elim w.m_p_instance [
  | none ↦ done new_epoll (record w { m_p_instance = some new_epoll })
  | some e ↦ done e w
]

abbrev pub set_instance : (MsEpoll → MsEpoll) → M (Unit {0})
set_instance f = do e ← instance_of; modify (λ w. record w { m_p_instance = some (f e) })

abbrev pub release_instance : M (Unit {0})
release_instance = modify (λ w. record w { m_p_instance = none })

-- A call of a callback, which is undefined through NULL.
abbrev pub call_back : Option ℕ → TcpEvent → TcpParam → M (Unit {0})
call_back none e q w = crash
call_back (some f) e q w = done tt (record w { trace = callback f e q ∷ w.trace })

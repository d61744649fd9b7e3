-- ===== src/Udp/Queue.antt =====
-- The queue of a UDP link: do_send_buff and link_send_to of udp-link.cpp.
use tcp_epoll.Prelude.{
  ℕ, zero, suc, ◌+◌, ◌<◌, ◌≡◌, subst, length, ◌⊎◌, inl, inr, refl, true, false, some, List, [], ◌∷◌,
  ◌++◌, take, if◌then◌else◌, arith, Bool-cases,
}
use tcp_epoll.Prelude.Int.{ℤ, is_neg}
use native.Mathlib.Nat.{add-zero}
use tcp_epoll.Kernel.{Syscall, SockAddr}
use tcp_epoll.Udp.State.{UdpWorld, UdpEffect, SendBuff, sys}
use tcp_epoll.Udp.Monad.{Ensures, Ensures-mono}
use tcp_epoll.Udp.Send.{flush, is_null}

-- The datagrams of a queue that have something to send, in order.
abbrev pub to_send : List SendBuff → List SendBuff
to_send [] = []
to_send (b ∷ bs) = let rest = to_send bs in if is_null b then rest else b ∷ rest

-- The effects, after a call of sendto for each datagram, the first one first.
abbrev pub attempts : ℤ → List SendBuff → List UdpEffect → List UdpEffect
attempts fd [] t = t
attempts fd (b ∷ bs) t = attempts fd bs (sys (Syscall.sendto fd b.p_data b.ui_size b.dst_addr) ∷ t)

-- A walk over a queue changes nothing of the library's state.
pub record IsSame (w w' : UdpWorld) : Type 0 where
  pub maplink : w'.m_maplink ≡ w.m_maplink
  pub same_counter : w'.i_link ≡ w.i_link
  pub objects : w'.next ≡ w.next
  pub same_heap : w'.heap ≡ w.heap
  pub same_flag : w'.mb_send_flag ≡ w.mb_send_flag

IsSame-refl : (w : UdpWorld) → IsSame w w
IsSame-refl w = ground arith

-- A run of the walk over a queue: `sent` are the datagrams that the kernel has taken.
pub record Flushed (fd : ℤ) (bs left : List SendBuff) (w w' : UdpWorld) : Type 0 where
  pub sent : List SendBuff
  pub split : to_send bs ≡ sent ++ to_send left
  pub taken : (i : ℕ) → i < length sent → is_neg (w.replies (w.clock + i)).ret ≡ false
  pub tried : w'.trace ≡ attempts fd (sent ++ take 1 left) w.trace
  pub ended : (left ≡ []) ⊎ (is_neg (w.replies (w.clock + length sent)).ret ≡ true)
  pub same : IsSame w w'

flush_null :
    (fd : ℤ) (b : SendBuff) (bs left : List SendBuff) (w w' : UdpWorld)
    → is_null b ≡ true
    → Flushed fd bs left w w'
    → Flushed fd (b ∷ bs) left w w'
flush_null fd b bs left w w' n f = record {
  sent = f.sent;
  split = rw n f.split;
  taken = f.taken;
  tried = f.tried;
  ended = f.ended;
  same = f.same;
}

abbrev after_sendto : ℤ → SendBuff → UdpWorld → UdpWorld
after_sendto fd b w = record w {
  clock = w.clock + 1;
  trace = sys (Syscall.sendto fd b.p_data b.ui_size b.dst_addr) ∷ w.trace;
}

flush_sent :
    (fd : ℤ) (b : SendBuff) (bs left : List SendBuff) (w w' : UdpWorld)
    → is_null b ≡ false
    → is_neg (w.replies w.clock).ret ≡ false
    → Flushed fd bs left (after_sendto fd b w) w'
    → Flushed fd (b ∷ bs) left w w'
flush_sent fd b bs left w w' n r f = record {
  sent = b ∷ f.sent;
  split = rw (n, f.split) refl;
  taken = λ i h. each i h;
  tried = f.tried;
  ended = rw (next_clock f.sent) f.ended;
  same = ground (arith, f.same);
}
  where
    each : (i : ℕ) → i < length (b ∷ f.sent) → is_neg (w.replies (w.clock + i)).ret ≡ false
    each zero h = rw add-zero r
    each (suc i) h =
        subst (λ c. is_neg (w.replies c).ret ≡ false) (omega arith) (f.taken i (omega (arith, h)))

    next_clock : (s : List SendBuff) → w.clock + length (b ∷ s) ≡ w.clock + 1 + length s
    next_clock s = omega arith

flush_refused :
    (fd : ℤ) (b : SendBuff) (bs : List SendBuff) (w : UdpWorld)
    → is_neg (w.replies w.clock).ret ≡ true
    → Flushed fd (b ∷ bs) (b ∷ bs) w (after_sendto fd b w)
flush_refused fd b bs w r = record {
  sent = [];
  split = refl;
  taken = λ i h. absurd (omega (arith, h));
  tried = refl;
  ended = inr (rw add-zero r);
  same = ground arith;
}

-- The walk of do_send_buff over a queue sends in the order of the queue: what it has to send is
-- what the kernel takes, followed by what stays. It calls sendto once for each of those that the
-- kernel takes, all with an answer that is no failure, and once more for the first that stays, if
-- one does: the answer to that one is a failure.
pub flush-Flushed :
    (fd : ℤ) (bs : List SendBuff) (w : UdpWorld)
    → Ensures (flush fd bs w) (λ left w'. Flushed fd bs left w w')
unfolding flush
flush-Flushed fd [] w = record {
  sent = [];
  split = refl;
  taken = λ i h. absurd (omega (arith, h));
  tried = refl;
  ended = inl refl;
  same = IsSame-refl w;
}
flush-Flushed fd (b ∷ bs) w = elim (Bool-cases (is_null b)) [
  | inl n ↦ rw n (
      Ensures-mono (flush fd bs w) _ _ (flush-Flushed fd bs w)
        λ left w' f. flush_null fd b bs left w w' n f)
  | inr n ↦ elim (Bool-cases (is_neg (w.replies w.clock).ret)) [
    | inl r ↦ rw (n, r) (flush_refused fd b bs w r)
    | inr r ↦
        rw (n, r)
          (Ensures-mono (flush fd bs (after_sendto fd b w)) _ _
            (flush-Flushed fd bs (after_sendto fd b w))
            λ left w' f. flush_sent fd b bs left w w' n r f)
  ]
]

abbrev pub queued : List ℕ → ℕ → SockAddr → SendBuff
queued bytes ui_size dst_addr = record {
  p_data = some (take ui_size bytes);
  ui_size = ui_size;
  dst_addr = dst_addr;
}

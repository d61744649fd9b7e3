-- ===== src/Server/Silent.antt =====
-- What the sample server does with the bytes of a connection.
use tcp_epoll.Prelude.{
  ℕ, ◌+◌, ◌<◌, ◌≡◌, refl, ap, ◌∙◌, List, [], ◌∷◌, ◌++◌, length, Option, none, some, Bool, true,
  false, arith, All, ◌==◌,
}
use tcp_epoll.Tcp.State.{World, status_recv_begin, status_recv_middle, status_recv_end}
use tcp_epoll.Tcp.Monad.{Ensures, Ensures-mono}
use tcp_epoll.Tcp.Events.{on_event_read}
use tcp_epoll.Tcp.Delivery.{
  Told, told, received, Reads, middles, closing, ended, on_event_read-Told,
}
use tcp_epoll.Stream.{do_post_recv_buff}
use tcp_epoll.Server.{LinkMgr, tell_all, tcp_io_callback_func, on_tcp_closed, link_remove}

-- The server keeps nothing of what this call tells it.
Quiet : Told → Type 0
Quiet t =
    (s : LinkMgr)
    → (s' : LinkMgr) × (tcp_io_callback_func t.event t.param s ≡ some s') × (s'.buffers ≡ s.buffers)

tell_all-Quiet :
    (ts : List Told) (s : LinkMgr)
    → All Quiet ts
    → (s' : LinkMgr) × (tell_all ts s ≡ some s') × (s'.buffers ≡ s.buffers)
unfolding Quiet tell_all
tell_all-Quiet [] s q = (s, refl, refl)
tell_all-Quiet (t ∷ ts) s q =
    let (s', e, b) = q.0 s in
    let (s'', f, c) = tell_all-Quiet ts s' q.1 in
    (s'', ap (λ o. elim o [ none ↦ none | some r ↦ tell_all ts r ]) e ∙ f, c ∙ b)

pub All-append : (P : Told → Type 0) (ts us : List Told) → All P ts → All P us → All P (ts ++ us)
All-append P [] us a b = b
All-append P (t ∷ ts) us a b = (a.0, All-append P ts us a.1 b)

received-Quiet :
    (h size i_status : ℕ) (buffer : Option (List ℕ))
    → (i_status == status_recv_end) ≡ false
    → Quiet (received h buffer size i_status)
unfolding Quiet tcp_io_callback_func
received-Quiet h size i_status buffer e s = (s, ground (arith, e), refl)

end-Quiet : (h : ℕ) → Quiet (received h none 0 status_recv_end)
unfolding Quiet tcp_io_callback_func do_post_recv_buff
end-Quiet h s = (s, refl, refl)

middles-Quiet : (h : ℕ) (bs : List (List ℕ)) → All Quiet (middles h bs)
middles-Quiet h [] = tt
middles-Quiet h (b ∷ bs) =
    (received-Quiet h (length b) status_recv_middle (some b) refl, middles-Quiet h bs)

closing-Quiet : (h : ℕ) (c : Bool) → All Quiet (closing h c)
unfolding Quiet tcp_io_callback_func on_tcp_closed link_remove
closing-Quiet h false = tt
closing-Quiet h true = (λ s. (on_tcp_closed h s, refl, ground arith), tt)

-- The sample server receives no data. Let the kernel answer the reads of a link with any chunks and
-- then with no data. What on_event_read then tells the callback changes nothing in the buffers of a
-- server of which TcpIOCallbackFunc is the callback: it passes on only what comes with
-- STATUS_RECV_END, and with that the library passes no bytes.
pub on_event_read-Silent :
    (p : ℕ) (bs : List (List ℕ)) (rounds f : ℕ) (w : World) (s : LinkMgr)
    → (w.heap p).mp_tcpcallback ≡ some f
    → length bs < rounds
    → Reads w.replies w.clock bs
    → Ensures (on_event_read rounds p w) (λ ok w'.
      (news : List Told) × (s' : LinkMgr) × (told w'.trace ≡ told w.trace ++ news)
      × (tell_all news s ≡ some s')
      × (s'.buffers ≡ s.buffers))
on_event_read-Silent p bs rounds f w s named h r =
    Ensures-mono (on_event_read rounds p w) _ _ (on_event_read-Told p bs rounds f w named h r)
      λ ok w' t.
        let (s', e, b) = tell_all-Quiet (first ++ last) s quiet in (first ++ last, s', t.1, e, b)
  where
    first : List Told
    first =
        received (w.heap p).mh_link none 0 status_recv_begin
        ∷ (middles (w.heap p).mh_link bs ++ ended p w (w.clock + length bs))

    last : List Told
    last = received (w.heap p).mh_link none 0 status_recv_end ∷ []

    quiet : All Quiet (first ++ last)
    quiet =
        All-append Quiet first last
          (
            received-Quiet (w.heap p).mh_link 0 status_recv_begin none refl,
            All-append Quiet (middles (w.heap p).mh_link bs) (ended p w (w.clock + length bs))
                (middles-Quiet (w.heap p).mh_link bs) (closing-Quiet (w.heap p).mh_link _),
          )
          (end-Quiet (w.heap p).mh_link, tt)

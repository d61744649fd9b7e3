-- ===== src/Udp/Valid/Create.antt =====
-- ms_udp_create of ms-epoll-udp.cpp keeps the UDP library's state valid.
use tcp_epoll.Prelude.{
  ℕ, ◌+◌, ◌≤◌, ◌<◌, ◌≡◌, ◌≢◌, ◌⊎◌, ◌∙◌, ap, sym, not, ◌&&◌, [], ◌∷◌, Bool, true, false, Option,
  none, some, List, is_some, arith, refl, if◌then◌else◌, ◌==◌, inl, inr, Option-cases,
}
use tcp_epoll.Prelude.Int.{ℤ, pos, pos_part, is_neg, eq_ℤ}
use tcp_epoll.Kernel.{Reply, inaddr_none}
use tcp_epoll.StdMap.{find, find-insert}
use tcp_epoll.StdMap.Order.{Ascends, Ascends-insert}
use tcp_epoll.Tcp.Registry.{int_max}
use tcp_epoll.Tcp.State.{update}
use tcp_epoll.Udp.State.{UdpWorld, udp_flag_broadcast, new_udp_link, invalid_hudplink}
use tcp_epoll.Udp.Monad.{
  Ensures, Ensures->>=, Ensures-ends, Ensures-both, Allows, Allows-mono, Allows->>=, Ensures-Allows,
  pure,
}
use tcp_epoll.Udp.Link.{link_create}
use tcp_epoll.Udp.Api.{ms_udp_create, announce}
use tcp_epoll.Udp.Valid.{IsUdpValid, IsUdpLinked}

-- Only object `p` is touched. It has the callback that was given, and its queue as before.
record Made (cb : Option ℕ) (p : ℕ) (w w' : UdpWorld) : Type 0 where
  maplink : w'.m_maplink ≡ w.m_maplink
  counter : w'.i_link ≡ w.i_link
  objects : w'.next ≡ w.next
  same_flag : w'.mb_send_flag ≡ w.mb_send_flag
  others : (q : ℕ) → q ≢ p → w'.heap q ≡ w.heap q
  named : (w'.heap p).mp_udpcallback ≡ cb
  queue : (w'.heap p).m_send_buff_list ≡ (w.heap p).m_send_buff_list

link_create-Made :
    (cb : Option ℕ) (i_flag : ℤ) (addr : Option (List ℕ)) (us_port p : ℕ) (w : UdpWorld)
    → Ensures (link_create cb i_flag addr us_port p w) (λ _ w'. Made cb p w w')
unfolding link_create
link_create-Made cb i_flag addr us_port p w = ground arith

-- A new link in the registry.
record UdpAdded (q : ℕ) (w w' : UdpWorld) : Type 0 where
  counter : w'.i_link ≡ w.i_link + 1
  bound : w'.i_link ≤ int_max
  found : (i : ℕ) → find i w'.m_maplink ≡ (if w.i_link + 1 == i then some q else find i w.m_maplink)
  ordered : Ascends w.m_maplink → Ascends w'.m_maplink
  objects : w'.next ≡ w.next
  handle : (w'.heap q).mh_link ≡ w.i_link + 1
  same_flag : w'.mb_send_flag ≡ w.mb_send_flag
  others : (r : ℕ) → r ≢ q → w'.heap r ≡ w.heap r
  named : (w'.heap q).mp_udpcallback ≡ (w.heap q).mp_udpcallback
  queue : (w'.heap q).m_send_buff_list ≡ (w.heap q).m_send_buff_list

announce-UdpAdded :
    (q : ℕ) (w : UdpWorld)
    → is_some (w.heap q).mp_udpcallback ≡ true
    → Allows (announce q w) (λ h w'. UdpAdded q w w' × (h ≡ w.i_link + 1))
unfolding announce
announce-UdpAdded q w named = grind (arith, find-insert, Ascends-insert)

abbrev with_new : UdpWorld → UdpWorld
with_new w = record w { heap = update w.heap w.next new_udp_link; next = w.next + 1 }

Made-IsUdpValid :
    (f : ℕ) (w w' : UdpWorld) → IsUdpValid w → Made (some f) w.next (with_new w) w' → IsUdpValid w'
Made-IsUdpValid f w w' v m = record {
  links = λ h q e. linked h q (ground (arith, m.maplink));
  counter = ground (arith, v.counter, m.counter);
  ordered = ground (arith, v.ordered, m.maplink);
}
  where
    linked : (h q : ℕ) → find h w.m_maplink ≡ some q → IsUdpLinked w' h q
    linked h q e = ground (arith, v.links h q e, m.others q, m.objects, m.counter, m.same_flag)

new-quiet :
    (f : ℕ) (w w' w'' : UdpWorld)
    → Made (some f) w.next (with_new w) w'
    → UdpAdded w.next w' w''
    → IsUdpLinked w'' (w.i_link + 1) w.next
new-quiet f w w' w'' m a = record {
  handle = ground (arith, a.handle, m.counter);
  object = ground (arith, a.objects, m.objects);
  named = ground (arith, a.named, m.named);
  given = ground (arith, a.counter, m.counter);
  quiet = inl (ground (arith, a.queue, m.queue));
}

UdpAdded-IsUdpValid :
    (f : ℕ) (w w' w'' : UdpWorld)
    → IsUdpValid w
    → Made (some f) w.next (with_new w) w'
    → UdpAdded w.next w' w''
    → IsUdpValid w''
UdpAdded-IsUdpValid f w w' w'' v m a = record {
  links = λ h q e. linked h q e;
  counter = a.bound;
  ordered = a.ordered (ground (arith, v.ordered, m.maplink));
}
  where
    old : (h q : ℕ) → find h w.m_maplink ≡ some q → IsUdpLinked w'' h q
    old h q e = ground (
      arith,
      v.links h q e,
      m.others q,
      m.objects,
      m.counter,
      m.same_flag,
      a.others q,
      a.objects,
      a.counter,
      a.same_flag,
    )

    linked : (h q : ℕ) → find h w''.m_maplink ≡ some q → IsUdpLinked w'' h q
    linked h q e =
        ground (arith, a.found h, m.maplink, m.counter, old h q, new-quiet f w w' w'' m a)

-- How many calls the address of a link takes: inet_addr, and gethostbyname where that knows none.
abbrev pub ip_calls : (ℕ → Reply) → ℕ → Option (List ℕ) → ℕ
ip_calls r c none = 0
ip_calls r c (some []) = 0
ip_calls r c (some (_ ∷ _)) = if pos_part (r c).ret == inaddr_none then 2 else 1

-- The kernel's answers, from the number `c` on, are those of a socket that is made and bound:
-- socket; those for the address; setsockopt for a link that broadcasts; setsockopt; bind.
abbrev pub binds : (ℕ → Reply) → ℕ → ℤ → Option (List ℕ) → Bool
binds r c i_flag addr =
    let next = c + 1 + ip_calls r (c + 1) addr in
    not (is_neg (r c).ret)
    && (if eq_ℤ i_flag (pos udp_flag_broadcast)
        then not (is_neg (r next).ret) && not (is_neg (r (next + 2)).ret)
        else not (is_neg (r (next + 1)).ret))

link_create-binds :
    (cb : Option ℕ) (i_flag : ℤ) (addr : Option (List ℕ)) (us_port p : ℕ) (w : UdpWorld)
    → Ensures
        (link_create cb i_flag addr us_port p w)
        (λ ok _. ok ≡ binds w.replies w.clock i_flag addr)
unfolding link_create
link_create-binds cb i_flag none us_port p w = ground arith
link_create-binds cb i_flag (some []) us_port p w = ground arith
link_create-binds cb i_flag (some (a ∷ addr)) us_port p w = ground arith

-- Without a socket that is bound, nothing; with one, a new link.
abbrev pub UdpCreation : ℤ → Option (List ℕ) → UdpWorld → ℕ → UdpWorld → Type 0
UdpCreation i_flag addr w h w' =
    ((binds w.replies w.clock i_flag addr ≡ false)
      × (h ≡ invalid_hudplink)
      × (w'.m_maplink ≡ w.m_maplink))
    ⊎ ((binds w.replies w.clock i_flag addr ≡ true)
        × (h ≡ w.i_link + 1)
        × (find h w.m_maplink ≡ none)
        × ((i : ℕ) → find i w'.m_maplink ≡ (if h == i then some w.next else find i w.m_maplink)))

handle-fresh : (w : UdpWorld) → IsUdpValid w → find (w.i_link + 1) w.m_maplink ≡ none
handle-fresh w v = elim (Option-cases (find (w.i_link + 1) w.m_maplink)) [
  | inl e ↦ e
  | inr (p, e) ↦ absurd (omega (arith, (v.links (w.i_link + 1) p e).given))
]

create_rest :
    (f : ℕ) (i_flag : ℤ) (addr : Option (List ℕ)) (created : Bool) (w w' : UdpWorld)
    → created ≡ binds w.replies w.clock i_flag addr
    → IsUdpValid w
    → Made (some f) w.next (with_new w) w'
    → Allows
        ((if created then announce w.next else pure invalid_hudplink) w')
        (λ h w''. IsUdpValid w'' × UdpCreation i_flag addr w h w'')
create_rest f i_flag addr false w w' b v m =
    (Made-IsUdpValid f w w' v m, inl (sym b, refl, m.maplink))
create_rest f i_flag addr true w w' b v m =
    Allows-mono (announce w.next w') _ _ (announce-UdpAdded w.next w' (ground (arith, m.named)))
      λ h w'' a. (
        UdpAdded-IsUdpValid f w w' w'' v m a.0,
        inr (
          sym b,
          a.1 ∙ ap (λ i. i + 1) m.counter,
          rw (a.1, m.counter) (handle-fresh w v),
          λ i. ground (arith, a.0.found i, a.1, m.counter, m.maplink),
        ),
      )

-- What ms_udp_create does, if a handle is left.
pub ms_udp_create-Allows :
    (f : ℕ) (i_flag : ℤ) (addr : Option (List ℕ)) (us_port : ℕ) (w : UdpWorld)
    → IsUdpValid w
    → Allows
        (ms_udp_create (some f) i_flag addr us_port w)
        (λ h w'. IsUdpValid w' × UdpCreation i_flag addr w h w')
unfolding ms_udp_create
ms_udp_create-Allows f i_flag addr us_port w v =
    Allows->>= (link_create (some f) i_flag addr us_port w.next) _ (with_new w) _ _
      (Ensures-Allows (link_create (some f) i_flag addr us_port w.next (with_new w)) _ _
        (Ensures-both (link_create (some f) i_flag addr us_port w.next (with_new w)) _ _
          (link_create-binds (some f) i_flag addr us_port w.next (with_new w))
          (link_create-Made (some f) i_flag addr us_port w.next (with_new w)))
        λ _ _ h. h)
      λ created w' m. create_rest f i_flag addr created w w' m.0 v m.1

announce-ends :
    (p : ℕ) (w : UdpWorld)
    → is_some (w.heap p).mp_udpcallback ≡ true
    → w.i_link < int_max
    → Ensures (announce p w) (λ _ _. Unit)
unfolding announce
announce-ends p w named h = ground (arith, named, h)

rest_ends :
    (created : Bool) (w w' : UdpWorld)
    → is_some (w'.heap w.next).mp_udpcallback ≡ true
    → w'.i_link < int_max
    → Ensures ((if created then announce w.next else pure invalid_hudplink) w') (λ _ _. Unit)
rest_ends false w w' named h = tt
rest_ends true w w' named h = announce-ends w.next w' named h

ms_udp_create-ends :
    (f : ℕ) (i_flag : ℤ) (addr : Option (List ℕ)) (us_port : ℕ) (w : UdpWorld)
    → w.i_link < int_max
    → Ensures (ms_udp_create (some f) i_flag addr us_port w) (λ _ _. Unit)
unfolding ms_udp_create
ms_udp_create-ends f i_flag addr us_port w h =
    Ensures->>= (link_create (some f) i_flag addr us_port w.next)
      (λ created. if created then announce w.next else pure invalid_hudplink) (with_new w)
      (λ _ w'. Made (some f) w.next (with_new w) w') _
      (link_create-Made (some f) i_flag addr us_port w.next (with_new w))
      λ created w' m.
        rest_ends created w w' (ground (arith, m.named)) (ground (arith, h, m.counter))

-- Let a callback be given and a handle be left, as there are up to INT_MAX. Then ms_udp_create ends
-- and keeps a valid state valid. Where the kernel refuses to make the
-- socket, to let it broadcast, if that is asked for, or to bind it, it returns INVALID_HUDPLINK and
-- leaves the registry as it was; otherwise it returns the next handle, which was not in use, and
-- the registry has the new link there and all others as before.
pub ms_udp_create-UdpCreation :
    (f : ℕ) (i_flag : ℤ) (addr : Option (List ℕ)) (us_port : ℕ) (w : UdpWorld)
    → IsUdpValid w
    → w.i_link < int_max
    → Ensures
        (ms_udp_create (some f) i_flag addr us_port w)
        (λ h w'. IsUdpValid w' × UdpCreation i_flag addr w h w')
ms_udp_create-UdpCreation f i_flag addr us_port w v h =
    Ensures-ends (ms_udp_create (some f) i_flag addr us_port w) _ _
      (ms_udp_create-ends f i_flag addr us_port w h)
      (ms_udp_create-Allows f i_flag addr us_port w v)

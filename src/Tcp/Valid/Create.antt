-- ===== src/Tcp/Valid/Create.antt =====
-- ms_tcp_create of ms-epoll-tcp.cpp: what it does to the registry.
use tcp_epoll.Prelude.{
  ℕ, ◌+◌, ◌<◌, ◌≡◌, refl, sym, not, ◌&&◌, Bool, true, false, Option, none, some, List, inl, inr,
  arith, is_some, if◌then◌else◌, ◌==◌, Option-cases,
}
use tcp_epoll.StdMap.{find, find-insert}
use tcp_epoll.StdMap.Order.{Ascends-insert}
use tcp_epoll.Tcp.State.{World, invalid_htcplink}
use tcp_epoll.Kernel.{Reply}
use tcp_epoll.Tcp.Registry.{int_max}
use tcp_epoll.Prelude.Int.{is_neg, eq_ℤ, minus_one}
use tcp_epoll.Tcp.Monad.{
  Ensures, Ensures->>=, Ensures-ends, Ensures-both, Allows, Allows-mono, Ensures-Allows, Allows->>=,
  pure,
}
use tcp_epoll.Tcp.Link.{link_create}
use tcp_epoll.Tcp.Api.{ms_tcp_create, announce}
use tcp_epoll.Tcp.Valid.{IsValid, Kept, Kept-IsValid}
use tcp_epoll.Tcp.Valid.Rules.{IsLive}
use tcp_epoll.Tcp.Valid.Only.{Only, link_create-Only}
use tcp_epoll.Tcp.Valid.Named.{link_create-named}
use tcp_epoll.Tcp.Valid.Added.{Added, Added-IsValid}
use tcp_epoll.Tcp.Valid.Accept.{with_new, Only-Kept, Unregistered-Kept, new-Unregistered}
use tcp_epoll.Tcp.Valid.Preserves.{Preserves}

announce-Added :
    (p : ℕ) (w : World)
    → is_some (w.heap p).mp_tcpcallback ≡ true
    → Allows (announce p w) (λ h w'. Added p w w' × (h ≡ w.i_link + 1))
unfolding announce
announce-Added p w named = grind (arith, find-insert, Ascends-insert)

-- The kernel's answers, from the number `c` on, are those of a socket that is made and bound:
-- socket; fcntl, once more if its first answer is not -1; setsockopt; bind.
abbrev pub binds : (ℕ → Reply) → ℕ → Bool
binds r c =
    not (is_neg (r c).ret)
    && not (is_neg (r (if eq_ℤ (r (c + 1)).ret minus_one then c + 3 else c + 4)).ret)

link_create-binds :
    (cb : Option ℕ) (addr : Option (List ℕ)) (us_port p : ℕ) (w : World)
    → Ensures (link_create cb addr us_port p w) (λ ok _. ok ≡ binds w.replies w.clock)
unfolding link_create
link_create-binds cb addr us_port p w = ground arith

-- What a call of ms_tcp_create does, whose first call of the kernel is that of time: where the
-- kernel refuses the socket or its address, it fails and leaves the registry as it was; otherwise
-- it registers one new link, under a handle that was not in use.
pub data Creation (w : World) (h : ℕ) (w' : World) : Type 0 where
  failed :
      binds w.replies (w.clock + 1) ≡ false → h ≡ invalid_htcplink → Kept w w' → Creation w h w'
  created :
      binds w.replies (w.clock + 1) ≡ true
      → h ≡ w.i_link + 1
      → find h w.m_maplink ≡ none
      → ((i : ℕ) → find i w'.m_maplink ≡ (if h == i then some w.next else find i w.m_maplink))
      → Creation w h w'

handle-fresh : (w : World) → IsValid w → find (w.i_link + 1) w.m_maplink ≡ none
handle-fresh w v = elim (Option-cases (find (w.i_link + 1) w.m_maplink)) [
  | inl e ↦ e
  | inr (p, e) ↦ absurd (omega (arith, (v.links (w.i_link + 1) p e).given))
]

created_lem :
    (w w' w'' : World)
    → binds w.replies (w.clock + 1) ≡ true
    → IsValid w
    → Kept w w'
    → Added w.next w' w''
    → Creation w (w.i_link + 1) w''
created_lem w w' w'' b v k a =
    created b refl (handle-fresh w v) λ i. ground (arith, a.found i, k.maplink, k.same_counter)

create_rest :
    (created : Bool) (w w' : World)
    → created ≡ binds w.replies (w.clock + 1)
    → IsValid w
    → Only w.next (with_new w) w'
    → is_some (w'.heap w.next).mp_tcpcallback ≡ true
    → Allows
        ((if created then announce w.next else pure invalid_htcplink) w')
        (λ h w''. IsValid w'' × Creation w h w'')
create_rest false w w' b v o named =
    let kept : Kept w w' = Only-Kept o in (Kept-IsValid v kept, failed (sym b) refl kept)
create_rest true w w' b v o named =
    let kept : Kept w w' = Only-Kept o in
    let valid : IsValid w' = Kept-IsValid v kept in
    let live : IsLive w.next w' = record { there = omega (arith, o.objects); named = named } in
    Allows-mono (announce w.next w') (λ h w''. Added w.next w' w'' × (h ≡ w'.i_link + 1))
      (λ h w''. IsValid w'' × Creation w h w'') (announce-Added w.next w' named)
      λ h w'' a. (
        Added-IsValid valid live (Unregistered-Kept (new-Unregistered v refl) kept) a.0,
        rw (a.1, kept.same_counter) (created_lem w w' w'' (sym b) v kept a.0),
      )

-- What ms_tcp_create does, if a handle is left.
pub ms_tcp_create-Allows :
    (f : ℕ) (addr : Option (List ℕ)) (us_port : ℕ) (w : World)
    → IsValid w
    → Allows (ms_tcp_create (some f) addr us_port w) (λ h w'. IsValid w' × Creation w h w')
unfolding ms_tcp_create
ms_tcp_create-Allows f addr us_port w v =
    let w1 : World = with_new w in
    Allows->>= (link_create (some f) addr us_port w.next)
      (λ created. if created then announce w.next else pure invalid_htcplink) w1
      (λ ok w'.
        (ok ≡ binds w.replies (w.clock + 1))
        × (Only w.next w1 w' × ((w'.heap w.next).mp_tcpcallback ≡ some f)))
      (λ h w'. IsValid w' × Creation w h w')
      (Ensures-Allows (link_create (some f) addr us_port w.next w1) _ _
        (Ensures-both (link_create (some f) addr us_port w.next w1) _ _
          (link_create-binds (some f) addr us_port w.next w1)
          (Ensures-both (link_create (some f) addr us_port w.next w1) (λ _ w'. Only w.next w1 w')
            (λ _ w'. (w'.heap w.next).mp_tcpcallback ≡ some f)
            (link_create-Only (some f) addr us_port w.next w1)
            (link_create-named f addr us_port w.next w1 (omega arith))))
        (λ _ _ h. h))
      λ created w' h. create_rest created w w' h.0 v h.1.0 (ground (arith, h.1.1))

announce-ends :
    (p : ℕ) (w : World)
    → is_some (w.heap p).mp_tcpcallback ≡ true
    → w.i_link < int_max
    → Ensures (announce p w) (λ _ _. Unit)
unfolding announce
announce-ends p w named h = ground (arith, named, h)

rest_ends :
    (created : Bool) (w w' : World)
    → is_some (w'.heap w.next).mp_tcpcallback ≡ true
    → w'.i_link < int_max
    → Ensures ((if created then announce w.next else pure invalid_htcplink) w') (λ _ _. Unit)
rest_ends false w w' named h = tt
rest_ends true w w' named h = announce-ends w.next w' named h

ms_tcp_create-ends :
    (f : ℕ) (addr : Option (List ℕ)) (us_port : ℕ) (w : World)
    → w.i_link < int_max
    → Ensures (ms_tcp_create (some f) addr us_port w) (λ _ _. Unit)
unfolding ms_tcp_create
ms_tcp_create-ends f addr us_port w h =
    Ensures->>= (link_create (some f) addr us_port w.next)
      (λ created. if created then announce w.next else pure invalid_htcplink) (with_new w)
      (λ _ w'. Only w.next (with_new w) w' × ((w'.heap w.next).mp_tcpcallback ≡ some f)) _
      (Ensures-both (link_create (some f) addr us_port w.next (with_new w))
        (λ _ w'. Only w.next (with_new w) w') (λ _ w'. (w'.heap w.next).mp_tcpcallback ≡ some f)
        (link_create-Only (some f) addr us_port w.next (with_new w))
        (link_create-named f addr us_port w.next (with_new w) (omega arith)))
      λ created w' m.
        rest_ends created w w' (ground (arith, m.1)) (ground (arith, h, m.0.same_counter))

-- Let a callback be given and a handle be left, as there are up to INT_MAX. Then ms_tcp_create ends
-- and keeps a valid registry valid. Where the kernel refuses to make the
-- socket or to bind it, it returns INVALID_HTCPLINK and leaves the registry as it was; where the
-- kernel does both, it returns the next handle, which was not in use, and the registry has the new
-- link there and all others as before.
pub ms_tcp_create-Creation :
    (f : ℕ) (addr : Option (List ℕ)) (us_port : ℕ) (w : World)
    → IsValid w
    → w.i_link < int_max
    → Ensures (ms_tcp_create (some f) addr us_port w) (λ h w'. IsValid w' × Creation w h w')
ms_tcp_create-Creation f addr us_port w v h =
    Ensures-ends (ms_tcp_create (some f) addr us_port w) _ _ (ms_tcp_create-ends f addr us_port w h)
      (ms_tcp_create-Allows f addr us_port w v)

pub Preserves-ms_tcp_create :
    (f : ℕ) (addr : Option (List ℕ)) (us_port : ℕ) → Preserves (ms_tcp_create (some f) addr us_port)
Preserves-ms_tcp_create f addr us_port = record {
  at = λ w v.
      Allows-mono (ms_tcp_create (some f) addr us_port w) (λ h w'. IsValid w' × Creation w h w')
        (λ _ w'. IsValid w') (ms_tcp_create-Allows f addr us_port w v) λ _ _ h. h.0;
}

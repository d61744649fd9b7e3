-- ===== src/Tcp/Idle.antt =====
-- The links that have been idle too long: is_alive and check_link_timeout of tcp-link.cpp.
use tcp_epoll.Prelude.{
  ℕ, ◌+◌, ◌≡◌, ◌∙◌, refl, subst, Bool, not, ◌&&◌, Option, none, some, List, [], ◌∷◌, arith, inl,
  inr, leb, if◌then◌else◌, Option-cases,
}
use tcp_epoll.Prelude.Int.{pos_part}
use tcp_epoll.StdMap.{find}
use tcp_epoll.StdMap.Order.{member, find-member}
use tcp_epoll.Tcp.Teardown.{destroy_all_lem, member-IsOwned, without, AllOwned}
use tcp_epoll.Kernel.{Syscall}
use tcp_epoll.Tcp.State.{sys, World, MsTcpLink}
use tcp_epoll.Tcp.Monad.{◌>>=◌, Ensures, Ensures-mono, Ensures->>=}
use tcp_epoll.Tcp.Registry.{registered}
use tcp_epoll.Tcp.Link.{is_alive, ui_check_alive_timeout}
use tcp_epoll.Tcp.Events.{timed_out, check_links, check_link_timeout, destroy_all, is_listen}
use tcp_epoll.Tcp.Valid.{IsValid, Kept, Kept-trans, Kept-IsValid}

-- An accepted link, no longer listened on, that has been idle for five minutes.
abbrev pub expired : ℕ → MsTcpLink → Bool
expired now o =
    o.mb_need_check_alive
    && leb (o.mt_last_alive_time + ui_check_alive_timeout) now
    && not (is_listen o.m_link_type)

record Judged (now : ℕ) (w w' : World) : Type 0 where
  kept : Kept w w'
  same : (q : ℕ) → expired now (w'.heap q) ≡ expired now (w.heap q)

abbrev pub idle_links : ℕ → (ℕ → MsTcpLink) → List ℕ → List ℕ
idle_links now heap [] = []
idle_links now heap (p ∷ ps) =
    let rest = idle_links now heap ps in if expired now (heap p) then p ∷ rest else rest

is_alive-Judged :
    (now p : ℕ) (w : World)
    → Ensures (is_alive now p w) (λ alive w'.
      Judged now w w'
      × ((not alive && not (is_listen (w'.heap p).m_link_type)) ≡ expired now (w.heap p)))
unfolding is_alive is_listen
is_alive-Judged now p w = ground arith

Judged-trans : (now : ℕ) (u v w : World) → Judged now u v → Judged now v w → Judged now u w
Judged-trans now u v w j k = record {
  kept = Kept-trans j.kept k.kept;
  same = λ q. k.same q ∙ j.same q;
}

idle_links-same :
    (now : ℕ) (heap heap' : ℕ → MsTcpLink) (ps : List ℕ)
    → ((q : ℕ) → expired now (heap' q) ≡ expired now (heap q))
    → idle_links now heap' ps ≡ idle_links now heap ps
idle_links-same now heap heap' [] e = refl
idle_links-same now heap heap' (p ∷ ps) e = ground (arith, e p, idle_links-same now heap heap' ps e)

timed_out_lem :
    (now : ℕ) (ps : List ℕ) (w : World)
    → Ensures (timed_out now ps w) (λ idle w'. Judged now w w' × (idle ≡ idle_links now w.heap ps))
unfolding timed_out
timed_out_lem now [] w = ground arith
timed_out_lem now (p ∷ ps) w =
    Ensures->>= (is_alive now p) _ w _ _ (is_alive-Judged now p w) λ alive w' j.
      Ensures->>= (timed_out now ps) _ w' _ _ (timed_out_lem now ps w') λ rest w'' t. (
        Judged-trans now w w' w'' j.0 t.0,
        rw (j.1, t.1, idle_links-same now w.heap w'.heap ps j.0.same) refl,
      )

member-idle_links :
    (now q : ℕ) (heap : ℕ → MsTcpLink) (ps : List ℕ)
    → member q (idle_links now heap ps) ≡ (member q ps && expired now (heap q))
member-idle_links now q heap [] = refl
member-idle_links now q heap (p ∷ ps) = ground (arith, member-idle_links now q heap ps)

-- What is left of a link after the check.
abbrev pub unless_expired : ℕ → World → Option ℕ → Option ℕ
unless_expired now w none = none
unless_expired now w (some p) = if expired now (w.heap p) then none else some p

judged_owned :
    (now : ℕ) (w w' : World)
    → IsValid w
    → Kept w w'
    → AllOwned (idle_links now w.heap (registered w.m_maplink)) w'
judged_owned now w w' v k q m =
    member-IsOwned w' (Kept-IsValid v k) q
      (ground (arith, m, k.maplink, member-idle_links now q w.heap (registered w.m_maplink)))

left_of_idle :
    (now : ℕ) (w : World) (h : ℕ)
    → without (idle_links now w.heap (registered w.m_maplink)) (find h w.m_maplink)
      ≡ unless_expired now w (find h w.m_maplink)
left_of_idle now w h = elim (Option-cases (find h w.m_maplink)) [
  | inl e ↦ ground arith
  | inr (q, e) ↦ ground (
    arith,
    member-idle_links now q w.heap (registered w.m_maplink),
    find-member h q w.m_maplink e,
  )
]

abbrev Checked : ℕ → World → World → Type 0
Checked now w w' =
    IsValid w' × ((h : ℕ) → find h w'.m_maplink ≡ unless_expired now w (find h w.m_maplink))

close_idle :
    (now : ℕ) (w : World)
    → IsValid w
    → Ensures
        ((timed_out now (registered w.m_maplink) >>= destroy_all) w)
        (λ _ w'. Checked now w w')
close_idle now w v =
    Ensures->>= (timed_out now (registered w.m_maplink)) destroy_all w _ (λ _ w'. Checked now w w')
      (timed_out_lem now (registered w.m_maplink) w)
      λ idle w' j. rw j.1 (
        Ensures-mono (destroy_all (idle_links now w.heap (registered w.m_maplink)) w') _ _
          (destroy_all_lem (idle_links now w.heap (registered w.m_maplink)) w'
            (Kept-IsValid v j.0.kept) (judged_owned now w w' v j.0.kept))
          λ _ w'' r. (r.0, λ h. r.1 h ∙ rw j.0.kept.maplink (left_of_idle now w h)))

-- From a valid state, check_link_timeout ends in a valid state. With the clock's answer as the
-- time, exactly the handles of the accepted links, no longer listened on, that have been idle for
-- five minutes, are gone.
pub check_link_timeout_lem :
    (w : World)
    → IsValid w
    → Ensures (check_link_timeout w) (λ _ w'.
      IsValid w'
      × ((h : ℕ)
          → find h w'.m_maplink
            ≡ unless_expired (pos_part (w.replies w.clock).ret) w (find h w.m_maplink)))
unfolding check_link_timeout check_links
check_link_timeout_lem w v = walk (registered w.m_maplink) refl
  where
    now : ℕ
    now = pos_part (w.replies w.clock).ret

    asked : World
    asked = record w { clock = w.clock + 1; trace = sys Syscall.time ∷ w.trace }

    walk :
        (ps : List ℕ)
        → registered w.m_maplink ≡ ps
        → Ensures (check_links ps w) (λ _ w'. Checked now w w')
    walk [] e = (
      v,
      λ h. elim (Option-cases (find h w.m_maplink)) [
        | inl f ↦ ground arith
        | inr (q, f) ↦ cc (find-member h q w.m_maplink f)
      ],
    )
    walk (q ∷ qs) e =
        subst (λ ps. Ensures ((timed_out now ps >>= destroy_all) asked) (λ _ w'. Checked now w w'))
          e (close_idle now asked (Kept-IsValid v (ground arith)))

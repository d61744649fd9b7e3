-- ===== src/Tcp/Valid/Rules.antt =====
-- Programs that keep the registry as it was, one rule for each way to build one. Such a program
-- ends, and calls no callback but that of the link it is given.
use tcp_epoll.Prelude.{ℕ, ◌<◌, ◌≡◌, refl, Bool, true, false, Option, is_some, arith, if◌then◌else◌}
use tcp_epoll.Kernel.{Syscall}
use tcp_epoll.Tcp.State.{World, MsTcpLink}
use tcp_epoll.Tcp.Monad.{
  M, Ensures, Ensures-mono, Ensures->>=, pure, ◌>>=◌, when, load, store, syscall, instance_of,
}
use tcp_epoll.Tcp.Callback.{send_link_event}
use tcp_epoll.Tcp.Valid.{Kept, Kept-trans}

-- The object is there and has a callback.
pub record IsLive (p : ℕ) (w : World) : Type 0 where
  pub there : p < w.next
  pub named : is_some (w.heap p).mp_tcpcallback ≡ true

pub IsLive-Kept : {p : ℕ} {w w' : World} → IsLive p w → Kept w w' → IsLive p w'
IsLive-Kept {p} l k = ground (arith, k.callbacks p)

pub record Keeps {A : Type 0} (p : ℕ) (m : M A) : Type 0 where
  pub at : (w : World) → IsLive p w → Ensures (m w) (λ _ w'. Kept w w')

module _ {p : ℕ} where
  pub Keeps-pure : {A : Type 0} (a : A) → Keeps p (pure a)
  Keeps-pure a = record { at = λ w l. ground arith }

  pub Keeps-load : (q : ℕ) → Keeps p (load q)
  Keeps-load q = record { at = λ w l. ground arith }

  pub Keeps-syscall : (s : Syscall) → Keeps p (syscall s)
  Keeps-syscall s = record { at = λ w l. ground arith }

  pub Keeps-instance_of : Keeps p instance_of
  Keeps-instance_of = record { at = λ w l. ground arith }

  -- An assignment that leaves the handle and the callback of the object alone.
  pub Keeps-store :
      (q : ℕ) (f : MsTcpLink → MsTcpLink)
      → ((o : MsTcpLink) → (f o).mh_link ≡ o.mh_link)
      → ((o : MsTcpLink) → (f o).mp_tcpcallback ≡ o.mp_tcpcallback)
      → Keeps p (store q f)
  Keeps-store q f handle callback = record {
    at = λ w l. ground (arith, handle (w.heap q), callback (w.heap q));
  }

  pub Keeps-send_link_event : (ui_event : ℕ) → Keeps p (send_link_event ui_event p)
  unfolding send_link_event
  Keeps-send_link_event ui_event = record { at = λ w l. ground arith }

  pub Keeps-if :
      {A : Type 0} (b : Bool) (m n : M A) → Keeps p m → Keeps p n → Keeps p (if b then m else n)
  Keeps-if true m n km kn = km
  Keeps-if false m n km kn = kn

  pub Keeps-when : (b : Bool) (m : M (Unit {0})) → Keeps p m → Keeps p (when b m)
  Keeps-when true m km = km
  Keeps-when false m km = Keeps-pure tt

  pub Keeps->>= :
      {A B : Type 0} (m : M A) (f : A → M B)
      → Keeps p m
      → ((a : A) → Keeps p (f a))
      → Keeps p (m >>= f)
  Keeps->>= m f km kf = record {
    at = λ w l.
        Ensures->>= m f w (λ _ w'. Kept w w') (λ _ w'. Kept w w') (km.at w l)
          λ a w' k.
            Ensures-mono (f a w') (λ _ w''. Kept w' w'') (λ _ w''. Kept w w'')
              ((kf a).at w' (IsLive-Kept l k)) (λ _ w'' k'. Kept-trans k k');
  }

pub ruleset keeps_rules = (
  Keeps-pure, Keeps-load, Keeps-syscall, Keeps-instance_of, Keeps-store, Keeps-send_link_event,
  Keeps-if, Keeps-when, Keeps->>=, refl,
)

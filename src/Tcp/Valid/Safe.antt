-- ===== src/Tcp/Valid/Safe.antt =====
-- Programs that keep the registry of tcp-link.cpp valid, whatever they do to it, and that call
-- through no NULL pointer. A loop may outlive its rounds.
use tcp_epoll.Prelude.{ℕ, Bool, true, false, if◌then◌else◌, arith}
use tcp_epoll.Tcp.Monad.{M, Allows, Ensures-Allows, Allows->>=, pure, ◌>>=◌, when}
use tcp_epoll.Tcp.State.{World}
use tcp_epoll.Tcp.Link.{link_destroy}
use tcp_epoll.Tcp.Valid.{IsValid, Kept-IsValid}
use tcp_epoll.Tcp.Valid.Rules.{IsLive, IsLive-Kept, Keeps, keeps_rules}
use tcp_epoll.Tcp.Valid.Destroy.{link_destroy-Destroyed, Destroyed, Destroyed-IsValid}

pub record Safe {A : Type 0} (p : ℕ) (m : M A) : Type 0 where
  pub at : (w : World) → IsValid w → IsLive p w → Allows (m w) (λ _ w'. IsValid w' × IsLive p w')

module _ {p : ℕ} where
  pub Safe-Keeps : {A : Type 0} (m : M A) → Keeps p m → Safe p m
  Safe-Keeps m k = record {
    at = λ w v l.
        Ensures-Allows (m w) _ (λ _ w'. IsValid w' × IsLive p w') (k.at w l)
          λ _ w' kept. (Kept-IsValid v kept, IsLive-Kept l kept);
  }

  pub Safe-if :
      {A : Type 0} (b : Bool) (m n : M A) → Safe p m → Safe p n → Safe p (if b then m else n)
  Safe-if true m n km kn = km
  Safe-if false m n km kn = kn

  pub Safe-when : (b : Bool) (m : M (Unit {0})) → Safe p m → Safe p (when b m)
  Safe-when true m km = km
  Safe-when false m km = Safe-Keeps (pure tt) (search keeps_rules)

  pub Safe->>= :
      {A B : Type 0} (m : M A) (f : A → M B)
      → Safe p m
      → ((a : A) → Safe p (f a))
      → Safe p (m >>= f)
  Safe->>= m f km kf = record {
    at = λ w v l.
        Allows->>= m f w (λ _ w'. IsValid w' × IsLive p w') (λ _ w'. IsValid w' × IsLive p w')
          (km.at w v l) λ a w' h. (kf a).at w' h.0 h.1;
  }

  IsLive-Destroyed : {w w' : World} → IsLive p w → Destroyed p w w' → IsLive p w'
  IsLive-Destroyed l d = ground (arith, d.callbacks p)

  pub Safe-link_destroy : (b_self : Bool) → Safe p (link_destroy b_self p)
  Safe-link_destroy b_self = record {
    at = λ w v l.
        Ensures-Allows (link_destroy b_self p w) (λ _ w'. Destroyed p w w')
          (λ _ w'. IsValid w' × IsLive p w') (link_destroy-Destroyed b_self p w l.named)
          λ _ w' d. (Destroyed-IsValid v d, IsLive-Destroyed l d);
  }

pub ruleset safe_rules = (Safe-Keeps, Safe-if, Safe-when, Safe->>=, Safe-link_destroy)

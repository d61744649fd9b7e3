-- ===== src/Tcp/Valid/Preserves.antt =====
-- Programs over handles that keep the registry valid, one rule for each way to build one.
use tcp_epoll.Prelude.{ℕ, ◌≡◌, refl, Bool, true, false, Option, none, some, if◌then◌else◌, arith}
use tcp_epoll.Kernel.{Syscall}
use tcp_epoll.StdMap.{find}
use tcp_epoll.Tcp.State.{World}
use tcp_epoll.Tcp.Monad.{M, Allows, Allows-mono, Allows->>=, pure, ◌>>=◌, when, syscall}
use tcp_epoll.Tcp.Registry.{find_link}
use tcp_epoll.Tcp.Valid.{IsValid}
use tcp_epoll.Tcp.Valid.Rules.{IsLive}
use tcp_epoll.Tcp.Valid.Safe.{Safe}

pub record Preserves {A : Type 0} (m : M A) : Type 0 where
  pub at : (w : World) → IsValid w → Allows (m w) (λ _ w'. IsValid w')

pub Preserves-pure : {A : Type 0} (a : A) → Preserves (pure a)
Preserves-pure a = record { at = λ w v. v }

pub Preserves-syscall : (s : Syscall) → Preserves (syscall s)
Preserves-syscall s = record { at = λ w v. ground (arith, v) }

pub Preserves-if :
    {A : Type 0} (b : Bool) (m n : M A) → Preserves m → Preserves n → Preserves (if b then m else n)
Preserves-if true m n km kn = km
Preserves-if false m n km kn = kn

pub Preserves-when : (b : Bool) (m : M (Unit {0})) → Preserves m → Preserves (when b m)
Preserves-when true m km = km
Preserves-when false m km = Preserves-pure tt

pub Preserves->>= :
    {A B : Type 0} (m : M A) (f : A → M B)
    → Preserves m
    → ((a : A) → Preserves (f a))
    → Preserves (m >>= f)
Preserves->>= m f km kf = record {
  at = λ w v.
      Allows->>= m f w (λ _ w'. IsValid w') (λ _ w'. IsValid w') (km.at w v)
        λ a w' h. (kf a).at w' h;
}

-- A registered link is live.
pub find-IsLive : (h p : ℕ) {w : World} → IsValid w → find h w.m_maplink ≡ some p → IsLive p w
find-IsLive h p v e = let l = v.links h p e in record { there = l.object; named = l.named }

pub Safe-Allows :
    {A : Type 0} {p : ℕ} (m : M A) (w : World)
    → Safe p m
    → IsValid w
    → IsLive p w
    → Allows (m w) (λ _ w'. IsValid w')
Safe-Allows {p = p} m w safe v l =
    Allows-mono (m w) (λ _ w'. IsValid w' × IsLive p w') (λ _ w'. IsValid w') (safe.at w v l)
      λ _ _ h. h.0

-- What is done to a link that is looked up is done to a live one.
pub Preserves-find_link :
    {A : Type 0} (h : ℕ) (k : Option ℕ → M A)
    → Preserves (k none)
    → ((p : ℕ) → Safe p (k (some p)))
    → Preserves (find_link h >>= k)
unfolding find_link
Preserves-find_link {A} h k missing found = record { at = λ w v. at w v (find h w.m_maplink) refl }
  where
    at :
        (w : World)
        → IsValid w
        → (o : Option ℕ) → find h w.m_maplink ≡ o
        → Allows (k o w) (λ _ w'. IsValid w')
    at w v none e = missing.at w v
    at w v (some p) e = Safe-Allows (k (some p)) w (found p) v (find-IsLive h p v e)

pub ruleset preserves_rules = (
  Preserves-pure, Preserves-syscall, Preserves-if, Preserves-when, Preserves->>=,
  Preserves-find_link,
)

-- ===== src/Thread/Attributes.antt =====
-- The attributes with which ms_pthread_creat (ms-epoll.cpp) starts a thread.
use tcp_epoll.Prelude.{
  ◌≤◌, ◌≡◌, ◌≢◌, ◌⊎◌, true, false, Option, none, some, arith, refl, Option-cases, Bool-cases, inl,
  inr,
}
use tcp_epoll.Prelude.Int.{ℤ, pos, minus_one, is_neg, eq_ℤ, ltb_ℤ}
use tcp_epoll.Thread.{
  Request, System, Attr, attributes, ms_pthread_creat, pthread_stack_min, policy_of,
}

-- Let the bounds of the policies be in order. Then a caller who asks for a stack gets at least the
-- least one asked for, and for a caller who asks for a priority, by a number that is not negative,
-- one is asked for that is within the bounds of the policy.
pub attributes-bounds :
    (s : System) (q : Request) (a : Attr)
    → ((p : ℤ) → ltb_ℤ (s.priority_max p) (s.priority_min p) ≡ false)
    → attributes s q ≡ some a
    → ((q.ui_stack_size ≡ 0) ⊎ (pthread_stack_min ≤ a.stack_size))
      × ((is_neg q.i_priority ≡ true)
          ⊎ ((ltb_ℤ (s.priority_max a.policy) a.priority ≡ false)
              × (ltb_ℤ a.priority (s.priority_min a.policy) ≡ false)))
unfolding attributes
attributes-bounds s q a o e = ground (arith, o (policy_of s q.i_policy), e)

-- ms_pthread_creat returns 0 if it has a function, its attributes can be found out, and
-- pthread_create starts a thread with them, and -1 otherwise.
pub ms_pthread_creat_lem :
    (s : System) (q : Request)
    → ((ms_pthread_creat s q ≡ minus_one)
        × ((q.pf_func ≡ none)
            ⊎ ((attributes s q ≡ none)
                ⊎ ((a : Attr) × ((attributes s q ≡ some a) × (s.create a ≢ pos 0))))))
      ⊎ ((ms_pthread_creat s q ≡ pos 0)
          × ((a : Attr) × ((attributes s q ≡ some a) × (s.create a ≡ pos 0))))
unfolding ms_pthread_creat
ms_pthread_creat_lem s q = at (attributes s q) refl
  where
    at :
        (o : Option Attr)
        → attributes s q ≡ o
        → ((ms_pthread_creat s q ≡ minus_one)
            × ((q.pf_func ≡ none)
                ⊎ ((attributes s q ≡ none)
                    ⊎ ((a : Attr) × ((attributes s q ≡ some a) × (s.create a ≢ pos 0))))))
          ⊎ ((ms_pthread_creat s q ≡ pos 0)
              × ((a : Attr) × ((attributes s q ≡ some a) × (s.create a ≡ pos 0))))
    at none e = inl (grind (arith, e))
    at (some a) e = elim (Option-cases q.pf_func) [
      | inl n ↦ inl (ground (arith, n), inl n)
      | inr (f, n) ↦ elim (Bool-cases (eq_ℤ (s.create a) (pos 0))) [
        | inl z ↦ inr (grind (arith, n, e, z), (a, (e, ground (arith, z))))
        | inr z ↦ inl (grind (arith, n, e, z), inr (inr (a, (e, λ x. ground (arith, z, x)))))
      ]
    ]

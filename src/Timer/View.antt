-- ===== src/Timer/View.antt =====
-- The timers as a map from ids to timers, which forgets their order in the set, and each operation
-- of TimerQueue on that map.
use tcp_epoll.Prelude.{
  ℕ, ◌≤◌, ◌≡◌, refl, subst, inl, inr, List, [], ◌∷◌, Option, none, some, Bool-cases, All, arith,
  ◌==◌, if◌then◌else◌,
}
use mathlib.Core.Path.{fun_ext}
use tcp_epoll.Timer.{
  TimeVal, Timer, TimerQueue, less, set_insert, erase_first, erase, set_timer, rearm, started,
  end_time,
}
use tcp_epoll.Timer.Order.{Sorted, Absent, Unique, IsQueue, Precedes-least, erase_first-Absent}

unfoldable pub lookup : ℕ → List Timer → Option Timer
lookup id [] = none
lookup id (t ∷ s) = if t.mui_id == id then some t else lookup id s

abbrev pub View : Type 0
View = ℕ → Option Timer

unfoldable pub view : TimerQueue → View
view q id = lookup id q.ms_timers

-- The map, changed at one id.
unfoldable pub update : View → ℕ → Option Timer → View
update f id o j = if id == j then o else f j

lookup-Absent : (id : ℕ) (s : List Timer) → Absent id s → lookup id s ≡ none
unfolding lookup
lookup-Absent id [] a = refl
lookup-Absent id (t ∷ s) a = ground (arith, a, lookup-Absent id s a.1)

lookup-set_insert :
    (j : ℕ) (t : Timer) (s : List Timer)
    → Absent t.mui_id s
    → lookup j (set_insert t s) ≡ (if t.mui_id == j then some t else lookup j s)
unfolding lookup set_insert less
lookup-set_insert j t [] a = refl
lookup-set_insert j t (u ∷ s) a = ground (arith, a, lookup-set_insert j t s a.1)

lookup-erase_first :
    (j id : ℕ) (s : List Timer)
    → Unique s
    → lookup j (erase_first id s) ≡ (if id == j then none else lookup j s)
unfolding lookup erase_first
lookup-erase_first j id [] u = ground arith
lookup-erase_first j id (t ∷ s) u =
    ground (arith, u, lookup-erase_first j id s u.1, lookup-Absent t.mui_id s u.0)

pub view-erase : (id : ℕ) (q : TimerQueue) → IsQueue q → view (erase id q) ≡ update (view q) id none
unfolding view erase update
view-erase id q v = fun_ext λ j. lookup-erase_first j id q.ms_timers v.unique

pub view-set_timer :
    (id elapse on_timer arg : ℕ) (now : TimeVal) (q : TimerQueue)
    → IsQueue q
    → view (set_timer id elapse on_timer arg now q)
      ≡ update (view q) id (some (started id elapse on_timer arg now))
unfolding view set_timer erase update
view-set_timer id elapse on_timer arg now q v = fun_ext λ j. ground (
  arith,
  lookup-set_insert j (started id elapse on_timer arg now) (erase_first id q.ms_timers)
      (erase_first-Absent id q.ms_timers v.unique),
  lookup-erase_first j id q.ms_timers v.unique,
)

-- What one lookup finds, all have.
lookup-All :
    (P : Timer → Type 0) (id : ℕ) (t : Timer) (s : List Timer)
    → All P s
    → lookup id s ≡ some t
    → P t
unfolding lookup
lookup-All P id t [] a e = cc
lookup-All P id t (u ∷ s) a e = elim (Bool-cases (u.mui_id == id)) [
  | inl same ↦ subst P (ground (arith, same, e)) a.0
  | inr other ↦ lookup-All P id t s a.1 (ground (arith, other, e))
]

-- What the timers of a set have at an instant: no timer, or a first one, which the map has under
-- its id and which ends no later than the others.
pub data Head (f : View) : List Timer → Type 0 where
  bare : ((j : ℕ) → f j ≡ none) → Head f []
  front :
      (t : Timer) (s : List Timer)
      → f t.mui_id ≡ some t
      → ((j : ℕ) (u : Timer) → f j ≡ some u → end_time t ≤ end_time u)
      → Head f (t ∷ s)

pub view-Head : (s : List Timer) → Sorted s → Head (λ j. lookup j s) s
unfolding lookup
view-Head [] o = bare (λ j. refl)
view-Head (t ∷ s) o = front t s (ground arith) λ j u.
    lookup-All (λ v. end_time t ≤ end_time v) j u (t ∷ s) (omega arith, Precedes-least t s o.0)

pub view-rearm :
    (t : Timer) (s : List Timer)
    → Unique (t ∷ s)
    → (λ j. lookup j (set_insert (rearm t) s))
      ≡ update (λ j. lookup j (t ∷ s)) t.mui_id (some (rearm t))
unfolding lookup update
view-rearm t s u = fun_ext λ j. ground (arith, lookup-set_insert j (rearm t) s u.0)

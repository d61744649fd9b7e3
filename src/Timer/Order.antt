-- ===== src/Timer/Order.antt =====
-- The order of the set of timers, and that each id has one timer in it.
use tcp_epoll.Prelude.{
  ℕ, ◌≡◌, ◌≢◌, ◌≤◌, subst, inl, inr, List, [], ◌∷◌, true, false, Bool-cases, All, arith, ◌==◌,
}
use tcp_epoll.Timer.{
  TimeVal, Timer, TimerQueue, less, set_insert, erase_first, erase, set_timer, peek_first, peek,
  rearm, started, end_time,
}

-- The timer comes before all of these.
abbrev pub Precedes : Timer → List Timer → Type 0
Precedes t [] = Unit
Precedes t (u ∷ s) = (less t u ≡ true) × Precedes t s

abbrev pub Sorted : List Timer → Type 0
Sorted [] = Unit
Sorted (t ∷ s) = Precedes t s × Sorted s

-- None of these has the id.
abbrev pub Absent : ℕ → List Timer → Type 0
Absent id [] = Unit
Absent id (t ∷ s) = (t.mui_id ≢ id) × Absent id s

abbrev pub Unique : List Timer → Type 0
Unique [] = Unit
Unique (t ∷ s) = Absent t.mui_id s × Unique s

pub record IsQueue (q : TimerQueue) : Type 0 where
  pub sorted : Sorted q.ms_timers
  pub unique : Unique q.ms_timers

less_trans : (a b c : Timer) → less a b ≡ true → less b c ≡ true → less a c ≡ true
unfolding less
less_trans a b c h k = ground arith

less_total : (a b : Timer) → less a b ≡ false → less b a ≡ false → a.mui_id ≡ b.mui_id
unfolding less
less_total a b h k = ground arith

Precedes-trans : (a b : Timer) (s : List Timer) → less a b ≡ true → Precedes b s → Precedes a s
Precedes-trans a b [] h p = tt
Precedes-trans a b (c ∷ s) h p = (less_trans a b c h p.0, Precedes-trans a b s h p.1)

Precedes-set_insert :
    (a t : Timer) (s : List Timer) → less a t ≡ true → Precedes a s → Precedes a (set_insert t s)
unfolding set_insert
Precedes-set_insert a t [] h p = (h, tt)
Precedes-set_insert a t (u ∷ s) h p = ground (arith, Precedes-set_insert a t s h p.1)

Sorted-set_insert : (t : Timer) (s : List Timer) → Sorted s → Sorted (set_insert t s)
unfolding set_insert
Sorted-set_insert t [] o = (tt, tt)
Sorted-set_insert t (u ∷ s) o =
    ground (arith, Sorted-set_insert t s o.1, Precedes-set_insert u t s, Precedes-trans t u s)

Precedes-erase_first :
    (a : Timer) (id : ℕ) (s : List Timer) → Precedes a s → Precedes a (erase_first id s)
unfolding erase_first
Precedes-erase_first a id [] p = tt
Precedes-erase_first a id (u ∷ s) p = ground (arith, Precedes-erase_first a id s p.1)

Sorted-erase_first : (id : ℕ) (s : List Timer) → Sorted s → Sorted (erase_first id s)
unfolding erase_first
Sorted-erase_first id [] o = tt
Sorted-erase_first id (u ∷ s) o =
    ground (arith, Sorted-erase_first id s o.1, Precedes-erase_first u id s o.0)

Absent-set_insert :
    (id : ℕ) (t : Timer) (s : List Timer) → t.mui_id ≢ id → Absent id s → Absent id (set_insert t s)
unfolding set_insert
Absent-set_insert id t [] h a = (h, tt)
Absent-set_insert id t (u ∷ s) h a = ground (arith, h, a, Absent-set_insert id t s h a.1)

Unique-set_insert :
    (t : Timer) (s : List Timer) → Absent t.mui_id s → Unique s → Unique (set_insert t s)
unfolding set_insert
Unique-set_insert t [] a u = (tt, tt)
Unique-set_insert t (v ∷ s) a u = ground (
  arith,
  a,
  u,
  Unique-set_insert t s a.1 u.1,
  Absent-set_insert v.mui_id t s (λ e. a.0 (ground (arith, e))) u.0,
)

Absent-erase_first : (j id : ℕ) (s : List Timer) → Absent j s → Absent j (erase_first id s)
unfolding erase_first
Absent-erase_first j id [] a = tt
Absent-erase_first j id (u ∷ s) a = ground (arith, a, Absent-erase_first j id s a.1)

Unique-erase_first : (id : ℕ) (s : List Timer) → Unique s → Unique (erase_first id s)
unfolding erase_first
Unique-erase_first id [] u = tt
Unique-erase_first id (t ∷ s) u =
    ground (arith, u, Unique-erase_first id s u.1, Absent-erase_first t.mui_id id s u.0)

-- The one timer with the id is gone.
pub erase_first-Absent : (id : ℕ) (s : List Timer) → Unique s → Absent id (erase_first id s)
unfolding erase_first
erase_first-Absent id [] u = tt
erase_first-Absent id (t ∷ s) u = elim (Bool-cases (t.mui_id == id)) [
  | inl same ↦ rw same (subst (λ i. Absent i s) (ground (arith, same)) u.0)
  | inr other ↦ rw other (λ e. ground (arith, other, e), erase_first-Absent id s u.1)
]

pub erase-IsQueue : (id : ℕ) (q : TimerQueue) → IsQueue q → IsQueue (erase id q)
unfolding erase
erase-IsQueue id q v = record {
  sorted = Sorted-erase_first id q.ms_timers v.sorted;
  unique = Unique-erase_first id q.ms_timers v.unique;
}

pub set_timer-IsQueue :
    (id elapse on_timer arg : ℕ) (now : TimeVal) (q : TimerQueue)
    → IsQueue q
    → IsQueue (set_timer id elapse on_timer arg now q)
unfolding set_timer erase
set_timer-IsQueue id elapse on_timer arg now q v =
    let t = started id elapse on_timer arg now in
    record {
      sorted = Sorted-set_insert t _ (Sorted-erase_first id q.ms_timers v.sorted);
      unique =
          Unique-set_insert t _ (erase_first-Absent id q.ms_timers v.unique)
            (Unique-erase_first id q.ms_timers v.unique);
    }

peek_first-Sorted : (now : TimeVal) (s : List Timer) → Sorted s → Sorted (peek_first now s).1
unfolding peek_first
peek_first-Sorted now [] o = tt
peek_first-Sorted now (t ∷ s) o = ground (arith, o, Sorted-set_insert (rearm t) s o.1)

peek_first-Unique : (now : TimeVal) (s : List Timer) → Unique s → Unique (peek_first now s).1
unfolding peek_first
peek_first-Unique now [] u = tt
peek_first-Unique now (t ∷ s) u = ground (arith, u, Unique-set_insert (rearm t) s u.0 u.1)

pub peek-IsQueue : (now : TimeVal) (q : TimerQueue) → IsQueue q → IsQueue (peek now q).1
unfolding peek
peek-IsQueue now q v = record {
  sorted = peek_first-Sorted now q.ms_timers v.sorted;
  unique = peek_first-Unique now q.ms_timers v.unique;
}

-- The first timer of the set ends no later than the others.
pub Precedes-least :
    (t : Timer) (s : List Timer) → Precedes t s → All (λ u. end_time t ≤ end_time u) s
unfolding less
Precedes-least t [] p = tt
Precedes-least t (u ∷ s) p = (ground (arith, p.0), Precedes-least t s p.1)

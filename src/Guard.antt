-- ===== src/Guard.antt =====
-- CRefCountPtr of include/Guard.h: a pointer that shares its object with its copies and counts
-- them. The new long of each constructor is a counter in a memory.
pub mod Counted
pub mod Assign
mod Tests
use tcp_epoll.Prelude.{
  ℕ, ◌+◌, ◌-◌, Bool, true, false, Option, none, some, ◌==◌, ◌&&◌, if◌then◌else◌,
}

-- Addresses are numbers.
pub record RefCountPtr : Type 0 where
  pub m_p_obj : Option ℕ
  pub m_p_ref : Option ℕ

-- The counters that are there, by address, the objects that are not deleted, and the first
-- address of no counter.
pub record Memory : Type 0 where
  pub counts : ℕ → Option ℕ
  pub alive : ℕ → Bool
  pub next : ℕ

abbrev pub set {ℓ} : {A : Type ℓ} → (ℕ → A) → ℕ → A → ℕ → A
set f p v q = if p == q then v else f q

infixl 5 ◌>>=◌
abbrev pub ◌>>=◌ : {A B : Type 0} → Option A → (A → Option B) → Option B
◌>>=◌ none f = none
◌>>=◌ (some a) f = f a

-- CRefCountPtr()
abbrev pub null_ptr : RefCountPtr
null_ptr = record { m_p_obj = none; m_p_ref = none }

-- CRefCountPtr(T* p)
unfoldable pub new_ptr : ℕ → Memory → RefCountPtr × Memory
new_ptr p m = (
  record { m_p_obj = some p; m_p_ref = some m.next },
  record m { counts = set m.counts m.next (some 1); next = m.next + 1 },
)

-- `delete m_pObj`, which is undefined for an object that is deleted already.
unfoldable pub delete_obj : Option ℕ → Memory → Option Memory
delete_obj none m = some m
delete_obj (some o) m = if m.alive o then some (record m { alive = set m.alive o false }) else none

unfoldable pub release_last : RefCountPtr → ℕ → Memory → Option (RefCountPtr × Memory)
unfolding delete_obj
release_last v r m = do
  m' ← delete_obj v.m_p_obj m
  some (null_ptr, record m' { counts = set m'.counts r none })

-- A counter that is deleted cannot be read.
unfoldable pub release_ref : RefCountPtr → ℕ → Option ℕ → Memory → Option (RefCountPtr × Memory)
unfolding release_last
release_ref v r none m = none
release_ref v r (some n) m =
    if n == 0
    then some (v, m)
    else if n == 1
    then release_last v r m
    else some (v, record m { counts = set m.counts r (some (n - 1)) })

-- Release()
unfoldable pub release : RefCountPtr → Memory → Option (RefCountPtr × Memory)
unfolding release_ref
release v m = elim v.m_p_ref [ none ↦ some (v, m) | some r ↦ release_ref v r (m.counts r) m ]

unfoldable pub add_count : ℕ → Option ℕ → Memory → Option Memory
add_count r none m = none
add_count r (some n) m = some (record m { counts = set m.counts r (some (n + 1)) })

-- `__sync_fetch_and_add( m_pRef, 1 )`
unfoldable pub add_ref : ℕ → Memory → Option Memory
unfolding add_count
add_ref r m = add_count r (m.counts r) m

unfoldable pub copy_ref : RefCountPtr → Option ℕ → Memory → Option (RefCountPtr × Memory)
unfolding add_ref
copy_ref rcf none m = some (rcf, m)
copy_ref rcf (some r) m = do m' ← add_ref r m; some (rcf, m')

-- CRefCountPtr(const CRefCountPtr& rcf)
unfoldable pub copy_ptr : RefCountPtr → Memory → Option (RefCountPtr × Memory)
unfolding copy_ref
copy_ptr rcf m = copy_ref rcf rcf.m_p_ref m

-- What operator= does after its Release: where the other one has no object, m_pRef stays as it is.
unfoldable pub assign_parts :
    RefCountPtr → Option ℕ → Option ℕ → Memory → Option (RefCountPtr × Memory)
unfolding add_ref
assign_parts v none ref m = some (record v { m_p_obj = none }, m)
assign_parts v (some o) none m = none
assign_parts v (some o) (some r) m = do
  m' ← add_ref r m
  some (record { m_p_obj = some o; m_p_ref = some r }, m')

unfoldable pub assign_from : RefCountPtr → RefCountPtr → Memory → Option (RefCountPtr × Memory)
unfolding assign_parts
assign_from v rcf m = assign_parts v rcf.m_p_obj rcf.m_p_ref m

-- operator=, for a pointer and another one
unfoldable pub assign : RefCountPtr → RefCountPtr → Memory → Option (RefCountPtr × Memory)
unfolding release assign_from
assign v rcf m = do (v', m') ← release v m; assign_from v' rcf m'

-- operator= of a pointer to itself: what it is assigned is what its Release has left.
unfoldable pub assign_self : RefCountPtr → Memory → Option (RefCountPtr × Memory)
unfolding release assign_from
assign_self v m = do (v', m') ← release v m; assign_from v' v' m'

-- operator== of two pointers
unfoldable pub same_ptr : RefCountPtr → RefCountPtr → Bool
same_ptr a b = elim a.m_p_obj [
  | none ↦ false
  | some o ↦ elim b.m_p_obj [
    | none ↦ false
    | some o' ↦ elim a.m_p_ref [
      | none ↦ false
      | some r ↦ elim b.m_p_ref [ none ↦ false | some r' ↦ o == o' && r == r' ]
    ]
  ]
]

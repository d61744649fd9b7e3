-- ===== src/Thread.antt =====
-- ms_pthread_creat of ms-epoll.cpp, which starts a thread with attributes of the caller's choice.
-- The answers of the thread library are a parameter.
pub mod Attributes
mod Tests
use tcp_epoll.Prelude.{
  ℕ, Bool, true, false, not, ◌&&◌, Option, none, some, ◌==◌, ltb, if◌then◌else◌,
}
use tcp_epoll.Prelude.Int.{ℤ, pos, minus_one, is_neg, eq_ℤ, ltb_ℤ}

-- PTHREAD_STACK_MIN
abbrev pub pthread_stack_min : ℕ
pthread_stack_min = 16_384

-- The arguments. `pf_func` may be NULL.
pub record Request : Type 0 where
  pub pf_func : Option ℕ
  pub b_detached : Bool
  pub ui_stack_size : ℕ
  pub i_policy : ℤ
  pub i_priority : ℤ

-- The default arguments.
abbrev pub default_request : ℕ → Request
default_request f = record {
  pf_func = some f;
  b_detached = false;
  ui_stack_size = 0;
  i_policy = minus_one;
  i_priority = minus_one;
}

-- What the function asks for by pthread_attr_setstacksize, _setschedpolicy, _setschedparam and
-- _setdetachstate. It does not read their results.
pub record Attr : Type 0 where
  pub stack_size : ℕ
  pub policy : ℤ
  pub priority : ℤ
  pub detached : Bool

-- What the thread library answers: of pthread_attr_init, pthread_attr_getstacksize and
-- pthread_create the result, the attributes after pthread_attr_init, and the bounds of each
-- policy's priorities.
pub record System : Type 0 where
  pub attr_init : ℤ
  pub attr_getstacksize : ℤ
  pub initial : Attr
  pub priority_max : ℤ → ℤ
  pub priority_min : ℤ → ℤ
  pub create : Attr → ℤ

-- The stack of the thread, if it can be found out.
unfoldable pub stack_of : System → ℕ → Option ℕ
stack_of s ui_stack_size =
    if ltb 0 ui_stack_size && ltb ui_stack_size pthread_stack_min
    then some pthread_stack_min
    else if ui_stack_size == 0
    then if eq_ℤ s.attr_getstacksize (pos 0) then some s.initial.stack_size else none
    else some ui_stack_size

unfoldable pub policy_of : System → ℤ → ℤ
policy_of s i_policy = if eq_ℤ i_policy minus_one then s.initial.policy else i_policy

unfoldable pub priority_of : System → ℤ → ℤ → ℤ
priority_of s policy i_priority =
    if is_neg i_priority
    then s.initial.priority
    else if ltb_ℤ (s.priority_max policy) i_priority
    then s.priority_max policy
    else if ltb_ℤ i_priority (s.priority_min policy)
    then s.priority_min policy
    else i_priority

-- The attributes with which pthread_create is called.
unfoldable pub attributes : System → Request → Option Attr
unfolding stack_of policy_of priority_of
attributes s q =
    if not (eq_ℤ s.attr_init (pos 0)) then none else elim (stack_of s q.ui_stack_size) [
      | none ↦ none
      | some stack ↦ some (record {
        stack_size = stack;
        policy = policy_of s q.i_policy;
        priority = priority_of s (policy_of s q.i_policy) q.i_priority;
        detached = if q.b_detached then true else s.initial.detached;
      })
    ]

unfoldable pub start_thread : System → Option Attr → ℤ
start_thread s none = minus_one
start_thread s (some a) = if eq_ℤ (s.create a) (pos 0) then pos 0 else minus_one

unfoldable pub ms_pthread_creat : System → Request → ℤ
unfolding attributes start_thread
ms_pthread_creat s q = elim q.pf_func [
  | none ↦ minus_one
  | some f ↦ start_thread s (attributes s q)
]

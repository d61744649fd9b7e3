-- ===== src/Guard/Tests.antt =====
-- The theorems about counted pointers at concrete memories.
use tcp_epoll.Prelude.{
  ℕ, ◌+◌, ◌≡◌, true, false, none, some, [], ◌∷◌, arith, refl, ◌==◌, if◌then◌else◌,
}
use tcp_epoll.Guard.{RefCountPtr, Memory, null_ptr, release, assign, assign_self}
use tcp_epoll.Guard.Counted.{IsCounted, Gives, Released, release_lem}
use tcp_epoll.Guard.Assign.{assign_lem, assign_null-dangling, assign_self_lem}

-- Pointers to objects 40 and 41, with counters 0 and 1.
abbrev first : RefCountPtr
first = record { m_p_obj = some 40; m_p_ref = some 0 }

abbrev second : RefCountPtr
second = record { m_p_obj = some 41; m_p_ref = some 1 }

abbrev objects : ℕ → ℕ
objects r = r + 40

-- Counter 0 counts `n`, counter 1 counts one.
abbrev memory : ℕ → Memory
memory n = record {
  counts = λ r. if r == 0 then some n else if r == 1 then some 1 else none;
  alive = λ o. true;
  next = 2;
}

two-IsCounted : IsCounted objects (memory 1) (first ∷ second ∷ [])
two-IsCounted = record {
  counted = λ r. ground arith;
  positive = λ r. ground arith;
  there = λ r e. refl;
  distinct = λ r s a b e. omega (arith, e);
  fresh = λ r h. ground (arith, h);
}

release_lem_example :
    Gives (release first (memory 1)) (λ r. Released objects first (second ∷ []) r.1)
release_lem_example = release_lem objects first (second ∷ []) (memory 1) refl two-IsCounted

assign_lem_example :
    Gives
      (assign first second (memory 1))
      (λ r. (r.0 ≡ second) × IsCounted objects r.1 (r.0 ∷ second ∷ []))
assign_lem_example = assign_lem objects first second [] (memory 1) 41 refl refl refl two-IsCounted

assign_null-dangling_example :
    (v' v'' : RefCountPtr) × (m' m'' : Memory) × (assign first null_ptr (memory 2) ≡ some (v', m'))
    × (v'.m_p_ref ≡ some 0)
    × (m'.counts 0 ≡ some 1)
    × (release v' m' ≡ some (v'', m''))
    × (m''.counts 0 ≡ none)
    × (release first m'' ≡ none)
assign_null-dangling_example = assign_null-dangling first first (memory 2) 0 refl refl refl

assign_self_lem_example : Gives (assign_self first (memory 1)) (λ t.
    if 0 == 0
    then (t.0 ≡ null_ptr) × (t.1.alive 40 ≡ false) × (t.1.counts 0 ≡ none)
    else (t.0 ≡ first) × (t.1.alive 40 ≡ true) × (t.1.counts 0 ≡ some 1))
assign_self_lem_example = assign_self_lem first (memory 1) 40 0 0 refl refl refl

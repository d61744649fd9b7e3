-- ===== src/Guard/Assign.antt =====
-- Assignments of CRefCountPtr (include/Guard.h).
use tcp_epoll.Prelude.{
  ℕ, ◌+◌, ◌≡◌, true, false, Option, none, some, List, ◌∷◌, arith, refl, sym, if◌then◌else◌, ◌==◌,
}
use tcp_epoll.Guard.{
  RefCountPtr, Memory, set, release, assign, assign_from, assign_parts, assign_self, add_ref,
  null_ptr,
}
use tcp_epoll.Guard.Counted.{IsCounted, IsSound, Gives, Gives->>=, release_lem, add_ref-IsCounted}

-- What comes after the Release.
assigned :
    (obj : ℕ → ℕ) (t : RefCountPtr) (rcf : RefCountPtr) (ps : List RefCountPtr) (m : Memory) (o : ℕ)
    (ro rr : Option ℕ)
    → rcf ≡ record { m_p_obj = ro; m_p_ref = rr }
    → IsSound obj rcf
    → rcf.m_p_obj ≡ some o
    → IsCounted obj m (rcf ∷ ps)
    → Gives (assign_parts t ro rr m) (λ r. (r.0 ≡ rcf) × IsCounted obj r.1 (r.0 ∷ rcf ∷ ps))
unfolding assign_parts
assigned obj t rcf ps m o none rr q s e c = absurd (ground (arith, q, e))
assigned obj t rcf ps m o (some o') none q s e c = absurd (ground (arith, q, s))
assigned obj t rcf ps m o (some o') (some r) q s e c =
    Gives->>= (add_ref r m) _ _ _
      (add_ref-IsCounted obj (record { m_p_obj = some o'; m_p_ref = some r }) (rcf ∷ ps) m r refl
        (ground (arith, q)) c)
      λ m' k. (sym q, k)

-- Let the pointers in scope be counted, and let `v` and `rcf`, two of them, have the objects of
-- their counters. Then assigning `rcf`, which is not null, to `v` makes `v` equal to it, reads and
-- deletes nothing that is deleted, and leaves all pointers counted.
pub assign_lem :
    (obj : ℕ → ℕ) (v rcf : RefCountPtr) (ps : List RefCountPtr) (m : Memory) (o : ℕ)
    → IsSound obj v
    → IsSound obj rcf
    → rcf.m_p_obj ≡ some o
    → IsCounted obj m (v ∷ rcf ∷ ps)
    → Gives (assign v rcf m) (λ r. (r.0 ≡ rcf) × IsCounted obj r.1 (r.0 ∷ rcf ∷ ps))
unfolding assign assign_from
assign_lem obj v rcf ps m o sv sr e c =
    Gives->>= (release v m) _ _ _ (release_lem obj v (rcf ∷ ps) m sv c)
      λ t d. assigned obj t.0 rcf ps t.1 o rcf.m_p_obj rcf.m_p_ref refl sr e d.counted

-- Let a pointer share its counter with just one other. Then assigning a null pointer to it ends and
-- keeps its m_pRef, with a count of one; its destructor then ends and deletes the counter; and the
-- destructor of the other pointer, which still names the counter, reads it after that.
pub assign_null-dangling :
    (v other : RefCountPtr) (m : Memory) (r : ℕ)
    → v.m_p_ref ≡ some r
    → other.m_p_ref ≡ some r
    → m.counts r ≡ some 2
    → (v' v'' : RefCountPtr) × (m' m'' : Memory) × (assign v null_ptr m ≡ some (v', m'))
      × (v'.m_p_ref ≡ some r)
      × (m'.counts r ≡ some 1)
      × (release v' m' ≡ some (v'', m''))
      × (m''.counts r ≡ none)
      × (release other m'' ≡ none)
unfolding assign release
assign_null-dangling v other m r e f k =
    let left : Memory = record m { counts = set m.counts r (some 1) } in
    let gone : Memory = record left { counts = set left.counts r none } in
    (
      record v { m_p_obj = none },
      null_ptr,
      left,
      gone,
      ground (arith, e, k),
      e,
      ground arith,
      ground (arith, e),
      ground arith,
      ground (arith, f),
    )

-- Assigning a pointer to itself: the only owner loses its object, which is deleted; a shared one is
-- as before, and so is its count.
pub assign_self_lem :
    (v : RefCountPtr) (m : Memory) (o r n : ℕ)
    → v ≡ record { m_p_obj = some o; m_p_ref = some r }
    → m.counts r ≡ some (n + 1)
    → m.alive o ≡ true
    → Gives (assign_self v m) (λ t.
      if n == 0
      then (t.0 ≡ null_ptr) × (t.1.alive o ≡ false) × (t.1.counts r ≡ none)
      else (t.0 ≡ v) × (t.1.alive o ≡ true) × (t.1.counts r ≡ some (n + 1)))
unfolding assign_self
assign_self_lem v m o r n e k a = ground arith

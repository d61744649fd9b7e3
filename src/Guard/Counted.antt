-- ===== src/Guard/Counted.antt =====
-- The counts of CRefCountPtr (include/Guard.h): an object is there as long as a pointer shares it.
use tcp_epoll.Prelude.{
  ℕ, suc, zero, ◌+◌, ◌≤◌, ◌≡◌, ◌≢◌, true, false, Option, none, some, is_some, List, [], ◌∷◌, ◌==◌,
  if◌then◌else◌, arith, refl, inl, inr, Option-cases,
}
use tcp_epoll.Guard.{
  RefCountPtr, Memory, set, new_ptr, release, release_ref, copy_ref, copy_ptr, add_ref, ◌>>=◌,
}

abbrev pub refers : ℕ → Option ℕ → ℕ
refers r none = 0
refers r (some r') = if r == r' then 1 else 0

-- How many of the pointers share counter `r`.
abbrev pub owners : ℕ → List RefCountPtr → ℕ
owners r [] = 0
owners r (p ∷ ps) = refers r p.m_p_ref + owners r ps

abbrev pub held : Option ℕ → ℕ
held none = 0
held (some n) = n

-- The pointer is null, or has the object of its counter.
abbrev pub IsSound : (ℕ → ℕ) → RefCountPtr → Type 0
IsSound obj p = p.m_p_obj ≡ elim p.m_p_ref [ none ↦ none | some r ↦ some (obj r) ]

-- Counter `r`, for object `obj r`, counts the pointers in scope, and its object is there. No object
-- has two counters.
pub record IsCounted (obj : ℕ → ℕ) (m : Memory) (ps : List RefCountPtr) : Type 0 where
  pub counted : (r : ℕ) → held (m.counts r) ≡ owners r ps
  pub positive : (r : ℕ) → m.counts r ≢ some 0
  pub there : (r : ℕ) → is_some (m.counts r) ≡ true → m.alive (obj r) ≡ true
  pub distinct :
      (r s : ℕ) → is_some (m.counts r) ≡ true → is_some (m.counts s) ≡ true → obj r ≡ obj s → r ≡ s
  pub fresh : (r : ℕ) → m.next ≤ r → m.counts r ≡ none

abbrev pub Gives : {A : Type 0} → Option A → (A → Type 0) → Type 0
Gives none P = ⊥
Gives (some a) P = P a

module _ (obj : ℕ → ℕ) (ps : List RefCountPtr) (m : Memory) where
  -- One of several owners of counter `r` is gone.
  one_less :
      (v : RefCountPtr) (r n : ℕ)
      → v.m_p_ref ≡ some r
      → m.counts r ≡ some (suc (suc n))
      → IsCounted obj m (v ∷ ps)
      → IsCounted obj (record m { counts = set m.counts r (some (suc n)) }) ps
  one_less v r n e k c = record {
    counted = λ q. ground (arith, c.counted q, e, k);
    positive = λ q. ground (arith, c.positive q);
    there = λ q. ground (arith, c.there q, k);
    distinct = λ q s. ground (arith, c.distinct q s, k);
    fresh = λ q. ground (arith, c.fresh q, k);
  }

  -- The only owner of counter `r` is gone.
  last_gone :
      (v : RefCountPtr) (r : ℕ)
      → v.m_p_ref ≡ some r
      → m.counts r ≡ some 1
      → IsCounted obj m (v ∷ ps)
      → IsCounted obj
          (record m { counts = set m.counts r none; alive = set m.alive (obj r) false })
          ps
  last_gone v r e k c = record {
    counted = λ q. ground (arith, c.counted q, e, k);
    positive = λ q. ground (arith, c.positive q);
    there = λ q. ground (arith, c.there q, c.distinct q r, k);
    distinct = λ q s. ground (arith, c.distinct q s, k);
    fresh = λ q. ground (arith, c.fresh q, k);
  }

  -- A pointer without a counter counts for nothing.
  null_gone : (v : RefCountPtr) → v.m_p_ref ≡ none → IsCounted obj m (v ∷ ps) → IsCounted obj m ps
  null_gone v e c = record {
    counted = λ q. ground (arith, c.counted q, e);
    positive = c.positive;
    there = c.there;
    distinct = c.distinct;
    fresh = c.fresh;
  }

  -- The object of a counter that some pointer shares is there.
  owned-there : IsCounted obj m ps → (r : ℕ) → owners r ps ≢ 0 → m.alive (obj r) ≡ true
  owned-there c r o = ground (arith, c.counted r, c.there r, o)

pub Gives->>= :
    {A B : Type 0} (o : Option A) (f : A → Option B) (P : A → Type 0) (Q : B → Type 0)
    → Gives o P
    → ((a : A) → P a → Gives (f a) Q)
    → Gives (o >>= f) Q
Gives->>= none f P Q h k = h
Gives->>= (some a) f P Q h k = k a h

-- What is true once pointer `v` does no more share its object.
pub record Released (obj : ℕ → ℕ) (v : RefCountPtr) (ps : List RefCountPtr) (m : Memory)
    : Type 0 where
  pub counted : IsCounted obj m ps
  pub last : (r : ℕ) → v.m_p_ref ≡ some r → owners r ps ≡ 0 → m.alive (obj r) ≡ false
  pub shared : (r : ℕ) → owners r ps ≢ 0 → m.alive (obj r) ≡ true

module _ (obj : ℕ → ℕ) (v : RefCountPtr) (ps : List RefCountPtr) (m : Memory) where
  release_null : v.m_p_ref ≡ none → IsCounted obj m (v ∷ ps) → Released obj v ps m
  release_null e c =
      let k : IsCounted obj m ps = null_gone obj ps m v e c in
      record { counted = k; last = λ r f. ground (arith, e, f); shared = owned-there obj ps m k }

  release_shared :
      (r n : ℕ)
      → v.m_p_ref ≡ some r
      → m.counts r ≡ some (suc (suc n))
      → IsCounted obj m (v ∷ ps)
      → Released obj v ps (record m { counts = set m.counts r (some (suc n)) })
  release_shared r n e k c =
      let m' : Memory = record m { counts = set m.counts r (some (suc n)) } in
      let c' : IsCounted obj m' ps = one_less obj ps m v r n e k c in
      record {
        counted = c';
        last = λ q f z. ground (arith, e, f, z, c.counted q, k);
        shared = owned-there obj ps m' c';
      }

  release_only :
      (r : ℕ)
      → v.m_p_ref ≡ some r
      → m.counts r ≡ some 1
      → IsCounted obj m (v ∷ ps)
      → Released obj v ps
          (record m { counts = set m.counts r none; alive = set m.alive (obj r) false })
  release_only r e k c =
      let m' : Memory = record m {
        counts = set m.counts r none;
        alive = set m.alive (obj r) false;
      } in
      let c' : IsCounted obj m' ps = last_gone obj ps m v r e k c in
      record {
        counted = c';
        last = λ q f z. ground (arith, e, f);
        shared = owned-there obj ps m' c';
      }

  -- Let the pointers in scope be counted, and one of them have the object of its counter. Then its
  -- Release reads and deletes nothing that is deleted, and the others are counted after it. Its
  -- object is deleted if no other shares it, and the objects that others share are not.
  pub release_lem :
      IsSound obj v → IsCounted obj m (v ∷ ps) → Gives (release v m) (λ r. Released obj v ps r.1)
  unfolding release
  release_lem s c = at v.m_p_ref refl
    where
      counter :
          (r : ℕ) (o : Option ℕ)
          → v.m_p_ref ≡ some r
          → m.counts r ≡ o
          → Gives (release_ref v r o m) (λ t. Released obj v ps t.1)
      counter r none e k = absurd (ground (arith, c.counted r, e, k))
      counter r (some zero) e k = absurd (c.positive r k)
      counter r (some (suc zero)) e k = ground (arith, release_only r e k c, c.there r, s, e, k)
      counter r (some (suc (suc n))) e k = ground (arith, release_shared r n e k c)

      at :
          (o : Option ℕ)
          → v.m_p_ref ≡ o
          → Gives {A = RefCountPtr × Memory}
              (elim o [ none ↦ some (v, m) | some r ↦ release_ref v r (m.counts r) m ])
              (λ t. Released obj v ps t.1)
      at none e = release_null e c
      at (some r) e = counter r (m.counts r) e refl

-- A pointer `p` more shares counter `r`, which some of the pointers share.
one_more :
    (obj : ℕ → ℕ) (p : RefCountPtr) (ps : List RefCountPtr) (m : Memory) (r n : ℕ)
    → p.m_p_ref ≡ some r
    → m.counts r ≡ some n
    → IsCounted obj m ps
    → IsCounted obj (record m { counts = set m.counts r (some (n + 1)) }) (p ∷ ps)
one_more obj p ps m r n e k c = record {
  counted = λ q. ground (arith, c.counted q, e, k);
  positive = λ q. ground (arith, c.positive q);
  there = λ q. ground (arith, c.there q, k);
  distinct = λ q s. ground (arith, c.distinct q s, k);
  fresh = λ q. ground (arith, c.fresh q, k);
}

-- Counting one pointer more, for a counter that is shared.
pub add_ref-IsCounted :
    (obj : ℕ → ℕ) (p : RefCountPtr) (ps : List RefCountPtr) (m : Memory) (r : ℕ)
    → p.m_p_ref ≡ some r
    → owners r ps ≢ 0
    → IsCounted obj m ps
    → Gives (add_ref r m) (λ m'. IsCounted obj m' (p ∷ ps))
unfolding add_ref
add_ref-IsCounted obj p ps m r e o c = elim (Option-cases (m.counts r)) [
  | inl k ↦ absurd (ground (arith, c.counted r, o, k))
  | inr (n, k) ↦ ground (arith, one_more obj p ps m r n e k c, k)
]

-- A null pointer more.
pub null_more :
    (obj : ℕ → ℕ) (p : RefCountPtr) (ps : List RefCountPtr) (m : Memory)
    → p.m_p_ref ≡ none
    → IsCounted obj m ps
    → IsCounted obj m (p ∷ ps)
null_more obj p ps m e c = record {
  counted = λ q. ground (arith, c.counted q, e);
  positive = c.positive;
  there = c.there;
  distinct = c.distinct;
  fresh = c.fresh;
}

-- Let the pointers in scope be counted. A copy of one of them reads no deleted counter, and is
-- counted with them.
pub copy_ptr_lem :
    (obj : ℕ → ℕ) (v : RefCountPtr) (ps : List RefCountPtr) (m : Memory)
    → IsCounted obj m (v ∷ ps)
    → Gives (copy_ptr v m) (λ r. (r.0 ≡ v) × IsCounted obj r.1 (r.0 ∷ v ∷ ps))
unfolding copy_ptr
copy_ptr_lem obj v ps m c = at v.m_p_ref refl
  where
    at :
        (o : Option ℕ)
        → v.m_p_ref ≡ o
        → Gives (copy_ref v o m) (λ r. (r.0 ≡ v) × IsCounted obj r.1 (r.0 ∷ v ∷ ps))
    at none e = (refl, null_more obj v (v ∷ ps) m e c)
    at (some r) e =
        Gives->>= (add_ref r m) (λ m'. some (v, m')) _ _
          (add_ref-IsCounted obj v (v ∷ ps) m r e (ground (arith, e)) c) λ m' k. (refl, k)

-- Let the pointers in scope be counted, and let an object be there that no counter is for. The
-- pointer that is made for it is counted with the others, by a counter of its own.
pub new_ptr_lem :
    (obj : ℕ → ℕ) (p : ℕ) (ps : List RefCountPtr) (m : Memory)
    → m.alive p ≡ true
    → ((r : ℕ) → is_some (m.counts r) ≡ true → obj r ≢ p)
    → IsCounted obj m ps
    → IsCounted (set obj m.next p) (new_ptr p m).1 ((new_ptr p m).0 ∷ ps)
unfolding new_ptr
new_ptr_lem obj p ps m a n c = record {
  counted = λ q. ground (arith, c.counted q, c.fresh m.next);
  positive = λ q. ground (arith, c.positive q);
  there = λ q. ground (arith, c.there q, a);
  distinct = λ q s. ground (arith, c.distinct q s, n q, n s);
  fresh = λ q. ground (arith, c.fresh q);
}

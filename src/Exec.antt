-- ===== src/Exec.antt =====
-- Runs of programs on a state: a run ends with a result, stops at undefined behaviour, outlives the
-- rounds that a loop was given, or has no handle left to give out.
use tcp_epoll.Prelude.{◌≡◌, ap, Bool, true, false}

pub data Outcome (S A : Type 0) : Type 0 where
  done : A → S → Outcome S A
  -- Undefined behaviour, such as a call through NULL.
  crash : Outcome S A
  -- A loop did not end within its rounds.
  spin : Outcome S A
  -- The counter of handles is at the end of its type.
  exhausted : Outcome S A

abbrev pub Prog : Type 0 → Type 0 → Type 0
Prog S A = S → Outcome S A

abbrev pub pure : {S A : Type 0} → A → Prog S A
pure a w = done a w

infixl 5 ◌>>=◌ ◌>>◌
abbrev pub ◌>>=◌ : {S A B : Type 0} → Prog S A → (A → Prog S B) → Prog S B
◌>>=◌ m f w = elim (m w) [
  | done a w' ↦ f a w'
  | crash ↦ crash
  | spin ↦ spin
  | exhausted ↦ exhausted
]

-- The second step runs on what the first one has done.
pub done->>= :
    {S A B : Type 0} (m : Prog S A) (f : A → Prog S B) (w w' : S) (a : A)
    → m w ≡ done a w'
    → (m >>= f) w ≡ f a w'
done->>= m f w w' a e =
    ap (λ o. elim o [ done b v ↦ f b v | crash ↦ crash | spin ↦ spin | exhausted ↦ exhausted ]) e

pub crash->>= :
    {S A B : Type 0} (m : Prog S A) (f : A → Prog S B) (w : S) → m w ≡ crash → (m >>= f) w ≡ crash
crash->>= m f w e =
    ap (λ o. elim o [ done b v ↦ f b v | crash ↦ crash | spin ↦ spin | exhausted ↦ exhausted ]) e

abbrev pub ◌>>◌ : {S A B : Type 0} → Prog S A → Prog S B → Prog S B
m >> k = m >>= λ _. k

abbrev pub gets : {S A : Type 0} → (S → A) → Prog S A
gets f w = done (f w) w

abbrev pub modify : {S : Type 0} → (S → S) → Prog S (Unit {0})
modify f w = done tt (f w)

abbrev pub when : {S : Type 0} → Bool → Prog S (Unit {0}) → Prog S (Unit {0})
when true m = m
when false m = pure tt

-- The postcondition of a run that has to end.
abbrev pub Ensures : {S A : Type 0} → Outcome S A → (A → S → Type 0) → Type 0
Ensures (done a w) post = post a w
Ensures crash post = ⊥
Ensures spin post = ⊥
Ensures exhausted post = ⊥

pub Ensures-mono :
    {S A : Type 0} (r : Outcome S A) (P Q : A → S → Type 0)
    → Ensures r P
    → ((a : A) (w : S) → P a w → Q a w)
    → Ensures r Q
Ensures-mono (done a w) P Q h f = f a w h
Ensures-mono crash P Q h f = h
Ensures-mono spin P Q h f = h
Ensures-mono exhausted P Q h f = h

-- The rule for a sequence of steps.
pub Ensures->>= :
    {S A B : Type 0} (m : Prog S A) (f : A → Prog S B) (w : S) (P : A → S → Type 0)
    (Q : B → S → Type 0)
    → Ensures (m w) P
    → ((a : A) (w' : S) → P a w' → Ensures (f a w') Q)
    → Ensures ((m >>= f) w) Q
Ensures->>= {S} {A} m f w P Q h k = go (m w) h
  where
    go :
        (r : Outcome S A)
        → Ensures r P
        → Ensures
            (elim r [ done a w' ↦ f a w' | crash ↦ crash | spin ↦ spin | exhausted ↦ exhausted ])
            Q
    go (done a w') h' = k a w' h'
    go crash h' = h'
    go spin h' = h'
    go exhausted h' = h'

-- The postcondition of a run that may outlive its rounds, or run out of handles.
abbrev pub Allows : {S A : Type 0} → Outcome S A → (A → S → Type 0) → Type 0
Allows (done a w) post = post a w
Allows crash post = ⊥
Allows spin post = Unit
Allows exhausted post = Unit

pub Ensures-Allows :
    {S A : Type 0} (r : Outcome S A) (P Q : A → S → Type 0)
    → Ensures r P
    → ((a : A) (w : S) → P a w → Q a w)
    → Allows r Q
Ensures-Allows (done a w) P Q h f = f a w h
Ensures-Allows crash P Q h f = h
Ensures-Allows spin P Q h f = tt
Ensures-Allows exhausted P Q h f = tt

pub Allows->>= :
    {S A B : Type 0} (m : Prog S A) (f : A → Prog S B) (w : S) (P : A → S → Type 0)
    (Q : B → S → Type 0)
    → Allows (m w) P
    → ((a : A) (w' : S) → P a w' → Allows (f a w') Q)
    → Allows ((m >>= f) w) Q
Allows->>= {S} {A} m f w P Q h k = go (m w) h
  where
    go :
        (r : Outcome S A)
        → Allows r P
        → Allows
            (elim r [ done a w' ↦ f a w' | crash ↦ crash | spin ↦ spin | exhausted ↦ exhausted ])
            Q
    go (done a w') h' = k a w' h'
    go crash h' = h'
    go spin h' = tt
    go exhausted h' = tt

-- A run that has to end, and ends so if it does.
pub Ensures-ends :
    {S A : Type 0} (r : Outcome S A) (P Q : A → S → Type 0) → Ensures r P → Allows r Q → Ensures r Q
Ensures-ends (done a w) P Q h k = k
Ensures-ends crash P Q h k = h
Ensures-ends spin P Q h k = h
Ensures-ends exhausted P Q h k = h

pub Ensures-both :
    {S A : Type 0} (r : Outcome S A) (P Q : A → S → Type 0)
    → Ensures r P
    → Ensures r Q
    → Ensures r (λ a w. P a w × Q a w)
Ensures-both (done a w) P Q h k = (h, k)
Ensures-both crash P Q h k = h
Ensures-both spin P Q h k = h
Ensures-both exhausted P Q h k = h

pub Allows-mono :
    {S A : Type 0} (r : Outcome S A) (P Q : A → S → Type 0)
    → Allows r P
    → ((a : A) (w : S) → P a w → Q a w)
    → Allows r Q
Allows-mono (done a w) P Q h f = f a w h
Allows-mono crash P Q h f = h
Allows-mono spin P Q h f = tt
Allows-mono exhausted P Q h f = tt

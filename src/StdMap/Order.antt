-- ===== src/StdMap/Order.antt =====
-- The order of a std::map: its keys ascend, so that each stands in it once.
use tcp_epoll.Prelude.{
  ℕ, ◌<◌, ◌≡◌, ◌≢◌, refl, inl, inr, Bool, true, false, none, some, List, [], ◌∷◌, map, arith, ◌==◌,
  ◌||◌, Bool-cases,
}
use tcp_epoll.StdMap.{StdMap, find, insert, erase}

module _ {ℓ} {V : Type ℓ} where
  abbrev pub Above : ℕ → StdMap V → Type 0
  Above k [] = Unit
  Above k ((j, _) ∷ m) = (k < j) × Above k m

  abbrev pub Ascends : StdMap V → Type 0
  Ascends [] = Unit
  Ascends ((j, _) ∷ m) = Above j m × Ascends m

  Above-trans : (i j : ℕ) (m : StdMap V) → i < j → Above j m → Above i m
  Above-trans i j [] h a = tt
  Above-trans i j ((k, _) ∷ m) h a = (omega arith, Above-trans i j m h a.1)

  Above-insert : (i k : ℕ) (v : V) (m : StdMap V) → i < k → Above i m → Above i (insert k v m)
  unfolding insert
  Above-insert i k v [] h a = (h, tt)
  Above-insert i k v ((j, w) ∷ m) h a = ground (arith, Above-insert i k v m h a.1)

  pub Ascends-insert : (k : ℕ) (v : V) (m : StdMap V) → Ascends m → Ascends (insert k v m)
  unfolding insert
  Ascends-insert k v [] a = (tt, tt)
  Ascends-insert k v ((j, w) ∷ m) a =
      ground (arith, Ascends-insert k v m a.1, Above-insert j k v m, Above-trans k j m)

  Above-erase : (i k : ℕ) (m : StdMap V) → Above i m → Above i (erase k m)
  unfolding erase
  Above-erase i k [] a = tt
  Above-erase i k ((j, w) ∷ m) a = ground (arith, Above-erase i k m a.1)

  pub Ascends-erase : (k : ℕ) (m : StdMap V) → Ascends m → Ascends (erase k m)
  unfolding erase
  Ascends-erase k [] a = tt
  Ascends-erase k ((j, w) ∷ m) a = ground (arith, Ascends-erase k m a.1, Above-erase j k m a.0)

  pub find-Above : (i k : ℕ) (m : StdMap V) → Above k m → find i m ≢ none → k < i
  unfolding find
  find-Above i k [] a f = absurd (f refl)
  find-Above i k ((j, w) ∷ m) a f = ground (arith, find-Above i k m a.1)

-- The list has the number.
abbrev pub member : ℕ → List ℕ → Bool
member p [] = false
member p (q ∷ qs) = p == q || member p qs

abbrev pub values : StdMap ℕ → List ℕ
values = map (λ e. e.1)

pub find-member : (h p : ℕ) (m : StdMap ℕ) → find h m ≡ some p → member p (values m) ≡ true
unfolding find
find-member h p [] e = cc
find-member h p ((j, q) ∷ m) e = ground (arith, find-member h p m)

-- In a map with ascending keys, each value stands under the key that finds it.
pub member-find :
    (p : ℕ) (m : StdMap ℕ) → Ascends m → member p (values m) ≡ true → (h : ℕ) × (find h m ≡ some p)
unfolding find
member-find p [] a e = absurd (ground arith)
member-find p ((j, q) ∷ m) a e = elim (Bool-cases (p == q)) [
  | inl same ↦ (j, ground arith)
  | inr other ↦
      let (h, f) = member-find p m a.1 (ground arith) in
      (h, ground (arith, find-Above h j m a.0, f))
]

-- ===== src/StdMap.antt =====
-- std::map with unsigned keys, as an association list in key order: the registry keeps its
-- links, sockets and errors in such maps (include/tcp-link.h, include/udp-link.h).
pub mod Order
use tcp_epoll.Prelude.{
  ℕ, ◌≡◌, refl, List, [], ◌∷◌, Option, none, some, arith, ◌==◌, ltb, if◌then◌else◌,
}

abbrev pub StdMap {ℓ} : Type ℓ → Type ℓ
StdMap V = List (ℕ × V)

module _ {ℓ} {V : Type ℓ} where
  -- `m.find( k )`
  unfoldable pub find : ℕ → StdMap V → Option V
  find k [] = none
  find k ((j, v) ∷ m) = if j == k then some v else find k m

  -- `m[k] = v`
  unfoldable pub insert : ℕ → V → StdMap V → StdMap V
  insert k v [] = (k, v) ∷ []
  insert k v ((j, w) ∷ m) =
      if k == j then (k, v) ∷ m else if ltb k j then (k, v) ∷ (j, w) ∷ m else (j, w) ∷ insert k v m

  -- `m.erase( k )`
  unfoldable pub erase : ℕ → StdMap V → StdMap V
  erase k [] = []
  erase k ((j, w) ∷ m) = if j == k then erase k m else (j, w) ∷ erase k m

  pub find-insert :
      (i k : ℕ) (v : V) (m : StdMap V)
      → find i (insert k v m) ≡ (if k == i then some v else find i m)
  unfolding find insert
  find-insert i k v [] = refl
  find-insert i k v ((j, w) ∷ m) = ground (arith, find-insert i k v m)

  pub find-erase :
      (i k : ℕ) (m : StdMap V) → find i (erase k m) ≡ (if k == i then none else find i m)
  unfolding find erase
  find-erase i k [] = ground arith
  find-erase i k ((j, w) ∷ m) = ground (arith, find-erase i k m)

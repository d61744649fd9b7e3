-- ===== src/Wire/Entries.antt =====
-- parse_req of a std::map<UINT32, UINT64> on what pack_resp writes, for
-- samples/samples-server/include/net-memory-io-base.h.
use mathlib.Core.List.{append_assoc, append-nil}
use tcp_epoll.Prelude.{
  ℕ, ◌^◌, ◌<◌, ◌≡◌, refl, sym, ap, ◌∙◌, subst, List, [], ◌∷◌, ◌++◌, length, All, arith, some,
}
use tcp_epoll.StdMap.{StdMap, insert}
use tcp_epoll.StdMap.Order.{Above, Ascends}
use tcp_epoll.Wire.{le_bytes, uint32, uint64, ms_endian32, ms_endian64}
use tcp_epoll.Wire.Parse.{parse_scalar, parse_map, parse_entries, ◌>>=◌}
use tcp_epoll.Wire.Finds.{Finds, Finds-scalar, Finds->>=}

-- The keys and the values are of their types.
abbrev pub InRange : StdMap ℕ → Type 0
InRange m = All (λ e. (e.0 < 2 ^ 32) × (e.1 < 2 ^ 64)) m

abbrev pub entries_bytes : StdMap ℕ → List ℕ
entries_bytes [] = []
entries_bytes ((k, v) ∷ m) =
    le_bytes 4 (ms_endian32 k) ++ (le_bytes 8 (ms_endian64 v) ++ entries_bytes m)

-- The entries, put into a map one after the other.
abbrev pub inserted : {V : Type 0} → StdMap V → StdMap V → StdMap V
inserted [] acc = acc
inserted ((k, v) ∷ m) acc = inserted m (insert k v acc)

Finds-entries :
    (m acc : StdMap ℕ) (ui_ana_no ul_data : ℕ)
    → InRange m
    → Finds (parse_entries (length m) ui_ana_no ul_data acc) (entries_bytes m) (inserted m acc)
unfolding parse_entries
Finds-entries [] acc old dat r = λ pre post i_size h k. ap some (ground arith)
Finds-entries ((k, v) ∷ m) acc old dat r =
    Finds->>= (parse_scalar uint32 old)
      (λ first c i. parse_scalar uint64 dat c i first.i_offset >>= (λ second.
        parse_entries (length m) first.value second.value (insert first.value second.value acc) c i
          second.i_offset))
      (le_bytes 4 (ms_endian32 k)) (le_bytes 8 (ms_endian64 v) ++ entries_bytes m) k
      (inserted ((k, v) ∷ m) acc) (Finds-scalar uint32 old k (omega arith) r.0.0)
      (Finds->>= (parse_scalar uint64 dat)
        (λ second c i.
          parse_entries (length m) k second.value (insert k second.value acc) c i second.i_offset)
        (le_bytes 8 (ms_endian64 v)) (entries_bytes m) v (inserted ((k, v) ∷ m) acc)
        (Finds-scalar uint64 dat v (omega arith) r.0.1) (Finds-entries m (insert k v acc) k v r.1))

insert-last :
    {V : Type 0} (k : ℕ) (v : V) (acc m : StdMap V)
    → Ascends (acc ++ (k, v) ∷ m)
    → insert k v acc ≡ acc ++ (k, v) ∷ []
unfolding insert
insert-last k v [] m a = refl
insert-last {V} k v ((j, w) ∷ acc) m a = ground (arith, insert-last k v acc m a.1, below acc a.0)
  where
    below : (xs : StdMap V) → Above j (xs ++ (k, v) ∷ m) → j < k
    below [] b = b.0
    below ((i, u) ∷ xs) b = below xs b.1

-- A map is what its entries make of the empty map, as they stand in the order of their keys.
pub inserted-Ascends :
    {V : Type 0} (m acc : StdMap V) → Ascends (acc ++ m) → inserted m acc ≡ acc ++ m
inserted-Ascends [] acc a = sym (append-nil acc)
inserted-Ascends ((k, v) ∷ m) acc a =
    ap (inserted m) (insert-last k v acc m a)
    ∙ inserted-Ascends m (acc ++ (k, v) ∷ [])
        (subst Ascends (sym (append_assoc acc ((k, v) ∷ []) m)) a)
    ∙ append_assoc acc ((k, v) ∷ []) m

pub Finds-map :
    (m : StdMap ℕ)
    → Ascends m
    → InRange m
    → length m < 2 ^ 32
    → Finds parse_map (le_bytes 4 (ms_endian32 (length m)) ++ entries_bytes m) m
unfolding parse_map
Finds-map m a r h =
    Finds->>= (parse_scalar uint32 0)
      (λ count c i. parse_entries count.value 0 0 [] c i count.i_offset)
      (le_bytes 4 (ms_endian32 (length m))) (entries_bytes m) (length m) m
      (Finds-scalar uint32 0 (length m) (omega arith) h)
      (subst (Finds (parse_entries (length m) 0 0 []) (entries_bytes m)) (inserted-Ascends m [] a)
        (Finds-entries m [] 0 0 r))

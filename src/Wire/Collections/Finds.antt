-- ===== src/Wire/Collections/Finds.antt =====
-- parse_req of arrays and of sets on what pack_resp writes, for
-- samples/samples-server/include/net-memory-io-base.h.
use mathlib.Core.List.{append_assoc, append-nil}
use tcp_epoll.Prelude.{
  ℕ, ◌^◌, ◌<◌, ◌≤◌, ◌≡◌, sym, ap, ◌∙◌, subst, List, [], ◌∷◌, ◌++◌, length, All, arith, some, Option,
  true, false, ltb, if◌then◌else◌,
}
use tcp_epoll.StdMap.{insert}
use tcp_epoll.StdMap.Order.{Ascends}
use tcp_epoll.Wire.{Scalar, le_bytes, uint32, ms_endian32}
use tcp_epoll.Wire.Parse.{Parsed, parse_scalar, ◌>>=◌}
use tcp_epoll.Wire.Pack.{pack_scalar}
use tcp_epoll.Wire.Finds.{Finds, Finds-scalar, Finds->>=}
use tcp_epoll.Wire.Entries.{inserted, inserted-Ascends}
use tcp_epoll.Wire.Collections.{
  StdSet, parse_elements, parse_numbers, parse_members, parse_set, pack_numbers, pack_members,
  pack_set,
}

abbrev numbers_bytes : Scalar → List ℕ → List ℕ
numbers_bytes T [] = []
numbers_bytes T (v ∷ vs) = le_bytes T.size (T.ms_endian v) ++ numbers_bytes T vs

abbrev members_bytes : StdSet → List ℕ
members_bytes [] = []
members_bytes ((k, _) ∷ s) = le_bytes 4 (ms_endian32 k) ++ members_bytes s

pack_numbers-bytes : (T : Scalar) (vs vc : List ℕ) → pack_numbers T vs vc ≡ vc ++ numbers_bytes T vs
unfolding pack_numbers pack_scalar
pack_numbers-bytes T [] vc = sym (append-nil vc)
pack_numbers-bytes T (v ∷ vs) vc = pack_numbers-bytes T vs _ ∙ simp (append_assoc)

pack_members-bytes : (s : StdSet) (vc : List ℕ) → pack_members s vc ≡ vc ++ members_bytes s
unfolding pack_members pack_scalar
pack_members-bytes [] vc = sym (append-nil vc)
pack_members-bytes ((k, _) ∷ s) vc = pack_members-bytes s _ ∙ simp (append_assoc)

Finds-elements :
    (T : Scalar) (vs olds : List ℕ)
    → T.size < 16
    → All (λ v. v < T.limit) vs
    → length olds ≡ length vs
    → Finds (parse_elements (length vs) T olds) (numbers_bytes T vs) vs
unfolding parse_elements
Finds-elements T [] [] s r e = λ pre post i_size h k. ap some (ground arith)
Finds-elements T [] (o ∷ olds) s r e = absurd (omega (arith, e))
Finds-elements T (v ∷ vs) [] s r e = absurd (omega (arith, e))
Finds-elements T (v ∷ vs) (o ∷ olds) s r e =
    let add : ℕ → Parsed (List ℕ) → Option (Parsed (List ℕ)) =
      λ w rest. some (record rest { value = w ∷ rest.value }) in
    Finds->>= (parse_scalar T o)
      (λ r c i.
        (elim r.ret as (λ _. Option (Parsed (List ℕ))) [
          | true ↦ parse_elements (length vs) T olds c i r.i_offset
          | false ↦ some (record { ret = false; value = olds; i_offset = r.i_offset })
        ])
        >>= add r.value)
      (le_bytes T.size (T.ms_endian v)) (numbers_bytes T vs) v (v ∷ vs) (Finds-scalar T o v s r.0)
      (λ pre post i_size h k.
        ap (λ x. x >>= add v)
          (Finds-elements T vs olds s r.1 (omega (arith, e)) pre post i_size h k))

Finds-members :
    (s acc : StdSet) (ui_ana_no : ℕ)
    → All (λ e. e.0 < 2 ^ 32) s
    → Finds (parse_members (length s) ui_ana_no acc) (members_bytes s) (inserted s acc)
unfolding parse_members
Finds-members [] acc old r = λ pre post i_size h k. ap some (ground arith)
Finds-members ((k, u) ∷ s) acc old r =
    Finds->>= (parse_scalar uint32 old)
      (λ r c i. parse_members (length s) r.value (insert r.value tt acc) c i r.i_offset)
      (le_bytes 4 (ms_endian32 k)) (members_bytes s) k (inserted ((k, u) ∷ s) acc)
      (Finds-scalar uint32 old k (omega arith) r.0) (Finds-members s (insert k tt acc) k r.1)

-- What pack_resp writes of an array of numbers, parse_req brings back, wherever it stands in a
-- buffer, if the array that it reads into has as many places.
pub Finds-numbers :
    (T : Scalar) (vs olds : List ℕ) (ui_max_num : ℕ)
    → T.size < 16
    → All (λ v. v < T.limit) vs
    → length olds ≡ length vs
    → length vs ≤ ui_max_num
    → Finds (parse_numbers T ui_max_num (length vs) olds) (pack_numbers T vs []) vs
unfolding parse_numbers
Finds-numbers T vs olds max s r e m =
    subst (λ bytes. Finds (parse_numbers T max (length vs) olds) bytes vs)
      (sym (pack_numbers-bytes T vs []))
      λ pre post i_size h k.
        let buf = pre ++ (numbers_bytes T vs ++ post) in
        ap
          (λ c.
            if c
            then some (record { ret = false; value = olds; i_offset = length pre })
            else parse_elements (length vs) T olds buf i_size (length pre))
          enough
        ∙ Finds-elements T vs olds s r e pre post i_size h k
  where
    enough : ltb max (length vs) ≡ false
    enough = ground (arith, m)

pack_set-bytes :
    (s : StdSet)
    → length s < 2 ^ 32
    → pack_set s [] ≡ le_bytes 4 (ms_endian32 (length s)) ++ members_bytes s
unfolding pack_set pack_scalar
pack_set-bytes s h =
    pack_members-bytes s _
    ∙ ap (λ n. le_bytes 4 (ms_endian32 n) ++ members_bytes s) (omega (arith, h))

-- What pack_resp writes of a set of 32-bit numbers, parse_req brings back, wherever it stands in a
-- buffer.
pub Finds-set :
    (s : StdSet)
    → Ascends s
    → All (λ e. e.0 < 2 ^ 32) s
    → length s < 2 ^ 32
    → Finds parse_set (pack_set s []) s
unfolding parse_set
Finds-set s a r h =
    subst (λ bytes. Finds parse_set bytes s) (sym (pack_set-bytes s h))
      (Finds->>= (parse_scalar uint32 0)
        (λ count c i. parse_members count.value 0 [] c i count.i_offset)
        (le_bytes 4 (ms_endian32 (length s))) (members_bytes s) (length s) s
        (Finds-scalar uint32 0 (length s) (omega arith) h)
        (subst (Finds (parse_members (length s) 0 []) (members_bytes s)) (inserted-Ascends s [] a)
          (Finds-members s [] 0 r)))

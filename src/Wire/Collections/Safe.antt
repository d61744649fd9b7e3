-- ===== src/Wire/Collections/Safe.antt =====
-- parse_req of arrays, of sets and of maps of strings on any bytes, for
-- samples/samples-server/include/net-memory-io-base.h.
use tcp_epoll.Prelude.{
  ℕ, zero, suc, ◌≤◌, List, [], ◌∷◌, length, Option, some, Bool, true, false, ltb, arith, Bool-cases,
  inl, inr,
}
use tcp_epoll.StdMap.{StdMap, insert}
use tcp_epoll.Wire.{Scalar, uint32}
use tcp_epoll.Wire.Parse.{Parsed, parse_scalar, parse_string}
use tcp_epoll.Wire.Safe.{Inside, Fits, Inside->>=, parse_scalar-Inside, parse_string-Inside}
use tcp_epoll.Wire.Collections.{
  StdSet, parse_elements, parse_numbers, parse_texts, parse_text_map, parse_members, parse_set,
}

parse_elements-Inside :
    (n : ℕ) (T : Scalar) (olds buf : List ℕ) (size off : ℕ)
    → n ≤ length olds
    → Fits buf size off
    → Inside off size (parse_elements n T olds buf size off)
unfolding parse_elements
parse_elements-Inside zero T olds buf size off l f = (omega arith, f.0)
parse_elements-Inside (suc n) T [] buf size off l f = absurd (omega (arith, l))
parse_elements-Inside (suc n) T (v ∷ olds) buf size off l f =
    Inside->>= (parse_scalar T v buf size off) _ size off (parse_scalar-Inside T v buf size off f)
      λ p a b.
        Inside->>= (next p p.ret) _ size p.i_offset
          (next-Inside p b p.ret
            (parse_elements-Inside n T olds buf size p.i_offset (omega (arith, l)) (b, f.1, f.2)))
          λ q c d. (omega arith, d)
  where
    next : Parsed ℕ → Bool → Option (Parsed (List ℕ))
    next p ret = elim ret [
      | true ↦ parse_elements n T olds buf size p.i_offset
      | false ↦ some (record { ret = false; value = olds; i_offset = p.i_offset })
    ]

    next-Inside :
        (p : Parsed ℕ)
        → p.i_offset ≤ size
        → (ret : Bool) → Inside p.i_offset size (parse_elements n T olds buf size p.i_offset)
        → Inside p.i_offset size (next p ret)
    next-Inside p b true i = i
    next-Inside p b false i = (omega arith, b)

-- An array of numbers, with a place for each that is allowed.
pub parse_numbers-Inside :
    (T : Scalar) (ui_max_num ui_num : ℕ) (olds buf : List ℕ) (size off : ℕ)
    → ui_max_num ≤ length olds
    → Fits buf size off
    → Inside off size (parse_numbers T ui_max_num ui_num olds buf size off)
unfolding parse_numbers
parse_numbers-Inside T max n olds buf size off l f = elim (Bool-cases (ltb max n)) [
  | inl more ↦ rw more (omega arith, f.0)
  | inr enough ↦
      rw enough (parse_elements-Inside n T olds buf size off (ground (arith, l, enough)) f)
]

parse_texts-Inside :
    (count k : ℕ) (v : List ℕ) (m : StdMap (List ℕ)) (buf : List ℕ) (size off : ℕ)
    → Fits buf size off
    → Inside off size (parse_texts count k v m buf size off)
unfolding parse_texts
parse_texts-Inside zero k v m buf size off f = (omega arith, f.0)
parse_texts-Inside (suc i) k v m buf size off f =
    Inside->>= (parse_scalar uint32 k buf size off) _ size off
      (parse_scalar-Inside uint32 k buf size off f)
      λ p a b.
        Inside->>= (parse_string v buf size p.i_offset) _ size p.i_offset
          (parse_string-Inside v buf size p.i_offset (b, f.1, f.2))
          λ q c d.
            parse_texts-Inside i p.value q.value (insert p.value q.value m) buf size q.i_offset
              (d, f.1, f.2)

-- A map of strings, whatever the bytes are.
pub parse_text_map-Inside :
    (buf : List ℕ) (size off : ℕ)
    → Fits buf size off
    → Inside off size (parse_text_map buf size off)
unfolding parse_text_map
parse_text_map-Inside buf size off f =
    Inside->>= (parse_scalar uint32 0 buf size off) _ size off
      (parse_scalar-Inside uint32 0 buf size off f)
      λ p a b. parse_texts-Inside p.value 0 [] [] buf size p.i_offset (b, f.1, f.2)

parse_members-Inside :
    (count k : ℕ) (s : StdSet) (buf : List ℕ) (size off : ℕ)
    → Fits buf size off
    → Inside off size (parse_members count k s buf size off)
unfolding parse_members
parse_members-Inside zero k s buf size off f = (omega arith, f.0)
parse_members-Inside (suc i) k s buf size off f =
    Inside->>= (parse_scalar uint32 k buf size off) _ size off
      (parse_scalar-Inside uint32 k buf size off f)
      λ p a b.
        parse_members-Inside i p.value (insert p.value tt s) buf size p.i_offset (b, f.1, f.2)

-- A set, whatever the bytes are.
pub parse_set-Inside :
    (buf : List ℕ) (size off : ℕ) → Fits buf size off → Inside off size (parse_set buf size off)
unfolding parse_set
parse_set-Inside buf size off f =
    Inside->>= (parse_scalar uint32 0 buf size off) _ size off
      (parse_scalar-Inside uint32 0 buf size off f)
      λ p a b. parse_members-Inside p.value 0 [] buf size p.i_offset (b, f.1, f.2)

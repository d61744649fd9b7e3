-- ===== src/Wire/Reads.antt =====
-- Readers of fields, as parse_req of a structure composes them by `&&`: a reader gives a value and
-- the next offset, or false, or reads beyond the buffer.
use mathlib.Core.List.{append_assoc}
use tcp_epoll.Prelude.{
  ℕ, ◌+◌, ◌^◌, ◌≤◌, ◌<◌, ◌≡◌, ap, ◌∙◌, subst, List, [], ◌++◌, length, length-append, Option, none,
  some, true, false, arith,
}
use tcp_epoll.StdMap.{StdMap}
use tcp_epoll.Wire.{Scalar}
use tcp_epoll.Wire.Finds.{Finds}
use tcp_epoll.Wire.Parse.{Parsed, parse_scalar, parse_array, parse_string, parse_map}

pub data Read (A : Type 0) : Type 0 where
  ok : A → ℕ → Read A
  refused : Read A
  overread : Read A

-- From a buffer of the given size, at an offset.
abbrev pub Reader : Type 0 → Type 0
Reader A = List ℕ → ℕ → ℕ → Read A

abbrev pub pure : {A : Type 0} → A → Reader A
pure a pc_buffer i_size i_offset = ok a i_offset

abbrev pub and_then : {A B : Type 0} → Read A → (A → Reader B) → List ℕ → ℕ → Read B
and_then (ok a off) f pc_buffer i_size = f a pc_buffer i_size off
and_then refused f pc_buffer i_size = refused
and_then overread f pc_buffer i_size = overread

-- `p && f`
infixl 5 ◌>>=◌
abbrev pub ◌>>=◌ : {A B : Type 0} → Reader A → (A → Reader B) → Reader B
◌>>=◌ p f pc_buffer i_size i_offset = and_then (p pc_buffer i_size i_offset) f pc_buffer i_size

abbrev pub to_read : {A : Type 0} → Option (Parsed A) → Read A
to_read none = overread
to_read (some p) = elim p.ret [ true ↦ ok p.value p.i_offset | false ↦ refused ]

-- A field of a structure, which is dropped when parse_req returns false.
unfoldable pub scalar : Scalar → Reader ℕ
scalar T pc_buffer i_size i_offset = to_read (parse_scalar T 0 pc_buffer i_size i_offset)

unfoldable pub array : ℕ → Reader (List ℕ)
array n pc_buffer i_size i_offset = to_read (parse_array n [] pc_buffer i_size i_offset)

unfoldable pub string : Reader (List ℕ)
string pc_buffer i_size i_offset = to_read (parse_string [] pc_buffer i_size i_offset)

unfoldable pub entries : Reader (StdMap ℕ)
entries pc_buffer i_size i_offset = to_read (parse_map pc_buffer i_size i_offset)

-- The reader reads the value from these bytes, wherever they stand.
abbrev pub Reads : {A : Type 0} → Reader A → List ℕ → A → Type 0
Reads p bytes a =
    (pre post : List ℕ) (i_size : ℕ)
    → length pre + length bytes ≤ i_size
    → i_size < 2 ^ 31
    → p (pre ++ (bytes ++ post)) i_size (length pre) ≡ ok a (length pre + length bytes)

pub Reads-pure : {A : Type 0} (a : A) → Reads (pure a) [] a
Reads-pure a pre post i_size h b = ground arith

pub Reads->>= :
    {A B : Type 0} (p : Reader A) (f : A → Reader B) (bytes more : List ℕ) (a : A) (b : B)
    → Reads p bytes a
    → Reads (f a) more b
    → Reads (p >>= f) (bytes ++ more) b
Reads->>= p f bytes more a b r q pre post i_size h k =
    let l = length-append bytes more in
    let d = length-append pre bytes in
    ap (λ xs. (p >>= f) (pre ++ xs) i_size (length pre)) (append_assoc bytes more post)
    ∙ ap (λ x. and_then x f (pre ++ (bytes ++ (more ++ post))) i_size)
        (r pre (more ++ post) i_size (omega (arith, l, h)) k)
    ∙ subst
        (λ xs.
          f a xs i_size (length pre + length bytes) ≡ ok b (length pre + length (bytes ++ more)))
        (append_assoc pre bytes (more ++ post))
        (subst
          (λ n.
            f a ((pre ++ bytes) ++ (more ++ post)) i_size n
            ≡ ok b (length pre + length (bytes ++ more)))
          d
          (q (pre ++ bytes) post i_size (omega (arith, l, d, h)) k
            ∙ ap (ok b) (omega (arith, l, d))))

pub Finds-Reads :
    {A : Type 0} (p : List ℕ → ℕ → ℕ → Option (Parsed A)) (bytes : List ℕ) (a : A)
    → Finds p bytes a
    → Reads (λ b i o. to_read (p b i o)) bytes a
Finds-Reads p bytes a f pre post i_size h k = ap to_read (f pre post i_size h k)

-- ===== src/Wire/Safe.antt =====
-- parse_req of samples/samples-server/include/net-memory-io-base.h on any bytes.
use tcp_epoll.Prelude.{
  ℕ, zero, suc, ◌^◌, ◌≤◌, ◌<◌, List, [], length, take, arith, false, Bool-cases, inl, inr, Option,
  some, none, if◌then◌else◌,
}
use tcp_epoll.StdMap.{StdMap, insert}
use tcp_epoll.Wire.{Scalar, uint32, uint64}
use tcp_epoll.Wire.Parse.{
  Parsed, copy, parse_scalar, parse_chars, parse_array, parse_string, parse_map, parse_entries,
  ◌>>=◌,
}
use tcp_epoll.Wire.Reads.{
  Read, ok, refused, overread, Reader, pure, ◌>>=◌ as read_then, and_then, to_read, scalar, array,
  string, entries,
}

-- A call has not read beyond the buffer, and the offset is between where it was and the size.
abbrev pub Inside : {A : Type 0} → ℕ → ℕ → Option (Parsed A) → Type 0
Inside i_offset i_size none = ⊥
Inside i_offset i_size (some p) = (i_offset ≤ p.i_offset) × (p.i_offset ≤ i_size)

abbrev pub Fits : List ℕ → ℕ → ℕ → Type 0
Fits pc_buffer i_size i_offset =
    (i_offset ≤ i_size) × (i_size ≤ length pc_buffer) × (i_size < 2 ^ 31)

pub parse_scalar-Inside :
    (T : Scalar) (old : ℕ) (buf : List ℕ) (size off : ℕ)
    → Fits buf size off
    → Inside off size (parse_scalar T old buf size off)
unfolding parse_scalar copy
parse_scalar-Inside T old buf size off f = ground (arith, f)

parse_chars-Inside :
    (n : ℕ) (old buf : List ℕ) (size off : ℕ)
    → Fits buf size off
    → Inside off size (parse_chars n old buf size off)
unfolding parse_chars copy
parse_chars-Inside n old buf size off f = ground (arith, f)

-- What follows a call that has stayed inside stays inside as well.
pub Inside->>= :
    {A B : Type 0} (o : Option (Parsed A)) (f : Parsed A → Option (Parsed B)) (size off : ℕ)
    → Inside off size o
    → ((p : Parsed A) → off ≤ p.i_offset → p.i_offset ≤ size → Inside p.i_offset size (f p))
    → Inside off size (o >>= f)
Inside->>= none f size off i k = i
Inside->>= {B = B} (some p) f size off i k = wider (f p) (k p i.0 i.1)
  where
    wider : (r : Option (Parsed B)) → Inside p.i_offset size r → Inside off size r
    wider none j = j
    wider (some q) j = (omega (arith, i.0, j.0), j.1)

parse_array-Inside :
    (n : ℕ) (old buf : List ℕ) (size off : ℕ)
    → Fits buf size off
    → Inside off size (parse_array n old buf size off)
unfolding parse_array
parse_array-Inside n old buf size off f =
    Inside->>= (parse_chars n (take n old) buf size off) _ size off
      (parse_chars-Inside n (take n old) buf size off f) λ p a b. (omega arith, b)

pub parse_string-Inside :
    (old buf : List ℕ) (size off : ℕ)
    → Fits buf size off
    → Inside off size (parse_string old buf size off)
unfolding parse_string
parse_string-Inside old buf size off f =
    Inside->>= (parse_scalar uint32 0 buf size off) _ size off
      (parse_scalar-Inside uint32 0 buf size off f) λ p a b. chars p b
  where
    chars :
        (p : Parsed ℕ)
        → p.i_offset ≤ size
        → Inside p.i_offset size (
            if p.ret
            then parse_chars p.value old buf size p.i_offset
            else some (record { ret = false; value = old; i_offset = p.i_offset }))
    chars p b = elim (Bool-cases p.ret) [
      | inl yes_ ↦ rw yes_ (parse_chars-Inside p.value old buf size p.i_offset (b, f.1, f.2))
      | inr no_ ↦ rw no_ (omega arith, b)
    ]

parse_entries-Inside :
    (count k v : ℕ) (m : StdMap ℕ) (buf : List ℕ) (size off : ℕ)
    → Fits buf size off
    → Inside off size (parse_entries count k v m buf size off)
unfolding parse_entries
parse_entries-Inside zero k v m buf size off f = (omega arith, f.0)
parse_entries-Inside (suc i) k v m buf size off f =
    Inside->>= (parse_scalar uint32 k buf size off) _ size off
      (parse_scalar-Inside uint32 k buf size off f)
      λ p a b.
        Inside->>= (parse_scalar uint64 v buf size p.i_offset) _ size p.i_offset
          (parse_scalar-Inside uint64 v buf size p.i_offset (b, f.1, f.2))
          λ q c d.
            parse_entries-Inside i p.value q.value (insert p.value q.value m) buf size q.i_offset
              (d, f.1, f.2)

parse_map-Inside :
    (buf : List ℕ) (size off : ℕ) → Fits buf size off → Inside off size (parse_map buf size off)
unfolding parse_map
parse_map-Inside buf size off f =
    Inside->>= (parse_scalar uint32 0 buf size off) _ size off
      (parse_scalar-Inside uint32 0 buf size off f)
      λ p a b. parse_entries-Inside p.value 0 0 [] buf size p.i_offset (b, f.1, f.2)

-- A reader has not read beyond the buffer.
abbrev pub Within : {A : Type 0} → ℕ → ℕ → Read A → Type 0
Within i_offset i_size (ok a n) = (i_offset ≤ n) × (n ≤ i_size)
Within i_offset i_size refused = Unit
Within i_offset i_size overread = ⊥

abbrev pub IsSafe : {A : Type 0} → Reader A → Type 0
IsSafe p =
    (pc_buffer : List ℕ) (i_size i_offset : ℕ)
    → Fits pc_buffer i_size i_offset
    → Within i_offset i_size (p pc_buffer i_size i_offset)

Inside-Within :
    {A : Type 0} (o : Option (Parsed A)) (size off : ℕ)
    → Inside off size o
    → Within off size (to_read o)
Inside-Within none size off i = i
Inside-Within (some p) size off i = ground (arith, i)

pub scalar-IsSafe : (T : Scalar) → IsSafe (scalar T)
unfolding scalar
scalar-IsSafe T buf size off f =
    Inside-Within (parse_scalar T 0 buf size off) size off (parse_scalar-Inside T 0 buf size off f)

pub array-IsSafe : (n : ℕ) → IsSafe (array n)
unfolding array
array-IsSafe n buf size off f =
    Inside-Within (parse_array n [] buf size off) size off (parse_array-Inside n [] buf size off f)

pub string-IsSafe : IsSafe string
unfolding string
string-IsSafe buf size off f =
    Inside-Within (parse_string [] buf size off) size off (parse_string-Inside [] buf size off f)

pub entries-IsSafe : IsSafe entries
unfolding entries
entries-IsSafe buf size off f =
    Inside-Within (parse_map buf size off) size off (parse_map-Inside buf size off f)

pub pure-IsSafe : {A : Type 0} (a : A) → IsSafe (pure a)
pure-IsSafe a buf size off f = (omega arith, f.0)

pub >>=-IsSafe :
    {A B : Type 0} (p : Reader A) (f : A → Reader B)
    → IsSafe p
    → ((a : A) → IsSafe (f a))
    → IsSafe (read_then p f)
>>=-IsSafe {A} {B} p f s t buf size off g = after_ (p buf size off) (s buf size off g)
  where
    after_ : (r : Read A) → Within off size r → Within off size (and_then r f buf size)
    after_ (ok a n) w = wider (f a buf size n) (t a buf size n (w.1, g.1, g.2))
      where
        wider : (r : Read B) → Within n size r → Within off size r
        wider (ok b m) v = (omega (arith, w.0, v.0), v.1)
        wider refused v = v
        wider overread v = v
    after_ refused w = w
    after_ overread w = w

-- ===== src/Wire/Finds.antt =====
-- What parse_req reads where pack_resp has written.
use mathlib.Core.List.{append_assoc, append-nil}
use tcp_epoll.Prelude.{
  ℕ, ◌+◌, ◌-◌, ◌%◌, ◌^◌, ◌≤◌, ◌<◌, ◌≡◌, refl, ap, ◌∙◌, subst, List, [], ◌++◌, length, length-append,
  take, drop, take-append, drop-append, ltb, ◌&&◌, Option, some, true, false, arith, leb,
  if◌then◌else◌,
}
use tcp_epoll.Wire.{Scalar, le_bytes, length-le_bytes, uint32, ms_endian32}
use tcp_epoll.Wire.Parse.{Parsed, copy, parse_scalar, parse_chars, parse_array, parse_string, ◌>>=◌}

pub copy-append :
    (pre bytes post : List ℕ)
    → copy (pre ++ (bytes ++ post)) (length pre) (length bytes) ≡ some bytes
unfolding copy
copy-append pre bytes post =
    rw (drop-append pre (bytes ++ post), take-append bytes post)
      (ground (arith, length-append pre (bytes ++ post), length-append bytes post))

-- The call assigns the value of these bytes and returns true, wherever they stand.
abbrev pub Finds : {A : Type 0} → (List ℕ → ℕ → ℕ → Option (Parsed A)) → List ℕ → A → Type 0
Finds p bytes a =
    (pre post : List ℕ) (i_size : ℕ)
    → length pre + length bytes ≤ i_size
    → i_size < 2 ^ 31
    → p (pre ++ (bytes ++ post)) i_size (length pre)
      ≡ some (record { ret = true; value = a; i_offset = length pre + length bytes })

pub Finds-scalar :
    (T : Scalar) (old v : ℕ)
    → T.size < 16
    → v < T.limit
    → Finds (parse_scalar T old) (le_bytes T.size (T.ms_endian v)) v
unfolding parse_scalar
Finds-scalar T old v s l pre post i_size h k =
    let bytes = le_bytes T.size (T.ms_endian v) in
    let e = length-le_bytes T.size (T.ms_endian v) in
    let c : copy (pre ++ (bytes ++ post)) (length pre) T.size ≡ some bytes =
      subst (λ n. copy (pre ++ (bytes ++ post)) (length pre) n ≡ some bytes) e
        (copy-append pre bytes post) in
    let t : leb T.size ((i_size + 2 ^ 64 - length pre) % 2 ^ 64) ≡ true =
      ground (arith, e, h, k, s) in
    rw (t, c, T.round v l, e) refl

pub Finds-chars : (bytes old : List ℕ) → Finds (parse_chars (length bytes) old) bytes bytes
unfolding parse_chars
Finds-chars bytes old pre post i_size h k =
    let t : (ltb (length bytes) (2 ^ 31)
          && leb (length pre) i_size
          && leb (length bytes) (i_size - length pre))
        ≡ true =
      ground (arith, h, k) in
    rw (t, copy-append pre bytes post) refl

pub Finds-array :
    (n : ℕ) (bytes old : List ℕ)
    → length bytes ≡ n
    → drop n old ≡ []
    → Finds (parse_array n old) bytes bytes
unfolding parse_array
Finds-array n bytes old e d pre post i_size h k =
    let c = Finds-chars bytes (take n old) pre post i_size h k in
    let c' : parse_chars n (take n old) (pre ++ (bytes ++ post)) i_size (length pre)
        ≡ some (record { ret = true; value = bytes; i_offset = length pre + length bytes }) =
      subst
        (λ m.
          parse_chars m (take n old) (pre ++ (bytes ++ post)) i_size (length pre)
          ≡ some (record { ret = true; value = bytes; i_offset = length pre + length bytes }))
        e c in
    rw (c', d, append-nil bytes) refl

pub Finds->>= :
    {A B : Type 0} (p : List ℕ → ℕ → ℕ → Option (Parsed A))
    (f : Parsed A → List ℕ → ℕ → Option (Parsed B)) (bytes more : List ℕ) (a : A) (b : B)
    → Finds p bytes a
    → Finds (λ c i o. f (record { ret = true; value = a; i_offset = o }) c i) more b
    → Finds (λ c i o. p c i o >>= (λ r. f r c i)) (bytes ++ more) b
Finds->>= {A} {B} p f bytes more a b r q pre post i_size h k =
    let l = length-append bytes more in
    let d = length-append pre bytes in
    let at_ : ℕ → Parsed A = λ n. record { ret = true; value = a; i_offset = n } in
    let end_ : Option (Parsed B) =
      some (record { ret = true; value = b; i_offset = length pre + length (bytes ++ more) }) in
    ap (λ xs. p (pre ++ xs) i_size (length pre) >>= (λ x. f x (pre ++ xs) i_size))
      (append_assoc bytes more post)
    ∙ ap (λ x. x >>= (λ y. f y (pre ++ (bytes ++ (more ++ post))) i_size))
        (r pre (more ++ post) i_size (omega (arith, l, h)) k)
    ∙ subst (λ xs. f (at_ (length pre + length bytes)) xs i_size ≡ end_)
        (append_assoc pre bytes (more ++ post))
        (subst (λ n. f (at_ n) ((pre ++ bytes) ++ (more ++ post)) i_size ≡ end_) d
          (q (pre ++ bytes) post i_size (omega (arith, l, d, h)) k
            ∙ ap (λ n. some (record { ret = true; value = b; i_offset = n }))
                (omega (arith, l, d))))

pub Finds-string :
    (s old : List ℕ)
    → length s < 2 ^ 31
    → Finds (parse_string old) (le_bytes 4 (ms_endian32 (length s)) ++ s) s
unfolding parse_string
Finds-string s old h =
    Finds->>= (parse_scalar uint32 0)
      (λ r c i.
        if r.ret
        then parse_chars r.value old c i r.i_offset
        else some (record { ret = false; value = old; i_offset = r.i_offset }))
      _ s (length s) s (Finds-scalar uint32 0 (length s) (omega arith) (omega (arith, h)))
      (Finds-chars s old)

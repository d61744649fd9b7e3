-- ===== src/Wire/Collections/Tests.antt =====
-- Collections with concrete elements.
use tcp_epoll.Prelude.{◌≡◌, refl, none, some, true, false, [], ◌∷◌}
use tcp_epoll.Wire.{uint16, ms_endian16, ms_endian32, le_bytes, of_le}
use tcp_epoll.Wire.Parse.{copy, parse_scalar}
use tcp_epoll.Wire.Pack.{pack_scalar}
use tcp_epoll.Wire.Collections.{
  StdSet, parse_numbers, parse_elements, pack_set, pack_members, parse_sized, pack_part,
}

abbrev some_set : StdSet
some_set = (3, tt) ∷ (258, tt) ∷ []

some_set-bytes : pack_set some_set [] ≡ 0 ∷ 0 ∷ 0 ∷ 2 ∷ 0 ∷ 0 ∷ 0 ∷ 3 ∷ 0 ∷ 0 ∷ 1 ∷ 2 ∷ []
unfolding pack_set pack_members pack_scalar le_bytes ms_endian32
some_set-bytes = refl

-- The second number is cut off: it keeps what it had.
numbers-cut :
    parse_numbers uint16 4 2 (7 ∷ 8 ∷ []) (1 ∷ 2 ∷ 1 ∷ []) 3 0
    ≡ some (record { ret = false; value = 258 ∷ 8 ∷ []; i_offset = 2 })
unfolding parse_numbers parse_elements parse_scalar copy le_bytes of_le ms_endian16
numbers-cut = refl

-- The size is not there.
sized-cut : parse_sized 0 [] (1 ∷ 2 ∷ []) 2 0 ≡ none
unfolding parse_sized parse_scalar copy
sized-cut = refl

part-of : pack_part 2 (97 ∷ 98 ∷ 99 ∷ []) (7 ∷ []) ≡ (true, 7 ∷ 97 ∷ 98 ∷ [])
unfolding pack_part
part-of = refl

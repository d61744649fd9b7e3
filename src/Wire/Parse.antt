-- ===== src/Wire/Parse.antt =====
-- parse_req of samples/samples-server/include/net-memory-io-base.h: reading from a buffer at an
-- offset, which moves on. The offset and the output stay behind when a call returns false, so a
-- call gives out all of them.
use tcp_epoll.Prelude.{
  ℕ, zero, suc, ◌+◌, ◌-◌, ◌%◌, ◌^◌, List, [], ◌++◌, length, take, drop, Option, none, some, Bool,
  true, false, ◌&&◌, leb, ltb, if◌then◌else◌,
}
use tcp_epoll.StdMap.{StdMap, insert}
use tcp_epoll.Wire.{Scalar, of_le, uint32, uint64}

-- What parse_req returns and what it has assigned.
pub record Parsed (A : Type 0) : Type 0 where
  pub ret : Bool
  pub value : A
  pub i_offset : ℕ

-- memcpy out of the buffer; none where that reads beyond it.
unfoldable pub copy : List ℕ → ℕ → ℕ → Option (List ℕ)
copy pc_buffer i_offset n =
    if leb (i_offset + n) (length pc_buffer) then some (take n (drop i_offset pc_buffer)) else none

infixl 5 ◌>>=◌
abbrev pub ◌>>=◌ : {A B : Type 0} → Option A → (A → Option B) → Option B
none >>= f = none
some a >>= f = f a

-- Of a number. `i_size - i_offset >= sizeof(T)` compares as `size_t`.
unfoldable pub parse_scalar : Scalar → ℕ → List ℕ → ℕ → ℕ → Option (Parsed ℕ)
parse_scalar T value pc_buffer i_size i_offset =
    if leb T.size ((i_size + 2 ^ 64 - i_offset) % 2 ^ 64)
    then copy pc_buffer i_offset T.size >>= (λ bytes.
      some (record { ret = true; value = T.ms_endian (of_le bytes); i_offset = i_offset + T.size }))
    else some (record { ret = false; value = value; i_offset = i_offset })

-- Of characters, into a string; `i_output_size >= 0` and the difference are those of an INT32.
unfoldable pub parse_chars : ℕ → List ℕ → List ℕ → ℕ → ℕ → Option (Parsed (List ℕ))
parse_chars i_output_size s_output pc_buffer i_size i_offset =
    if ltb i_output_size (2 ^ 31) && leb i_offset i_size && leb i_output_size (i_size - i_offset)
    then copy pc_buffer i_offset i_output_size >>= (λ bytes.
      some (record { ret = true; value = bytes; i_offset = i_offset + i_output_size }))
    else some (record { ret = false; value = s_output; i_offset = i_offset })

-- Of characters, into an array of at least that many.
unfoldable pub parse_array : ℕ → List ℕ → List ℕ → ℕ → ℕ → Option (Parsed (List ℕ))
parse_array i_output_size pc_output pc_buffer i_size i_offset = do
  r ← parse_chars i_output_size (take i_output_size pc_output) pc_buffer i_size i_offset
  some (record r { value = r.value ++ drop i_output_size pc_output })

-- Of a string after its size.
unfoldable pub parse_string : List ℕ → List ℕ → ℕ → ℕ → Option (Parsed (List ℕ))
parse_string s_value pc_buffer i_size i_offset = do
  r ← parse_scalar uint32 0 pc_buffer i_size i_offset
  if r.ret
      then parse_chars r.value s_value pc_buffer i_size r.i_offset
      else some (record { ret = false; value = s_value; i_offset = r.i_offset })

-- The loop over the entries of a map, which reads no result: `ui_ana_no` and `ul_data` keep what
-- they had where nothing is read.
unfoldable pub parse_entries : ℕ → ℕ → ℕ → StdMap ℕ → List ℕ → ℕ → ℕ → Option (Parsed (StdMap ℕ))
parse_entries zero ui_ana_no ul_data map_packet pc_buffer i_size i_offset =
    some (record { ret = true; value = map_packet; i_offset = i_offset })
parse_entries (suc i) ui_ana_no ul_data map_packet pc_buffer i_size i_offset = do
  first ← parse_scalar uint32 ui_ana_no pc_buffer i_size i_offset
  second ← parse_scalar uint64 ul_data pc_buffer i_size first.i_offset
  parse_entries i first.value second.value (insert first.value second.value map_packet) pc_buffer
      i_size second.i_offset

-- Of a std::map<UINT32, UINT64>.
unfoldable pub parse_map : List ℕ → ℕ → ℕ → Option (Parsed (StdMap ℕ))
parse_map pc_buffer i_size i_offset = do
  count ← parse_scalar uint32 0 pc_buffer i_size i_offset
  parse_entries count.value 0 0 [] pc_buffer i_size count.i_offset

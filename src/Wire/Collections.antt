-- ===== src/Wire/Collections.antt =====
-- parse_req and pack_resp of arrays of numbers, of sets, of maps of strings and of parts of strings, of
-- samples/samples-server/include/net-memory-io-base.h. A std::set is the map of its elements.
pub mod Finds
pub mod Safe
mod Tests
use tcp_epoll.Prelude.{
  ℕ, zero, suc, ◌+◌, ◌%◌, ◌^◌, List, [], ◌∷◌, ◌++◌, length, Option, none, some, Bool, true, false,
  ltb, take, if◌then◌else◌,
}
use tcp_epoll.StdMap.{StdMap, insert}
use tcp_epoll.Wire.{Scalar, uint32}
use tcp_epoll.Wire.Parse.{Parsed, parse_scalar, parse_chars, parse_string, ◌>>=◌}
use tcp_epoll.Wire.Pack.{ms_append, pack_scalar, pack_string}

abbrev pub StdSet : Type 0
StdSet = StdMap (Unit {0})

-- The loop over an array, of which `p_value` is what is left; none where it leaves the array.
unfoldable pub parse_elements : ℕ → Scalar → List ℕ → List ℕ → ℕ → ℕ → Option (Parsed (List ℕ))
parse_elements zero T p_value pc_buffer i_size i_offset =
    some (record { ret = true; value = p_value; i_offset = i_offset })
parse_elements (suc n) T [] pc_buffer i_size i_offset = none
parse_elements (suc n) T (v ∷ p_value) pc_buffer i_size i_offset = do
  r ← parse_scalar T v pc_buffer i_size i_offset
  rest ← elim r.ret [
    | true ↦ parse_elements n T p_value pc_buffer i_size r.i_offset
    | false ↦ some (record { ret = false; value = p_value; i_offset = r.i_offset })
  ]
  some (record rest { value = r.value ∷ rest.value })

unfoldable pub parse_numbers : Scalar → ℕ → ℕ → List ℕ → List ℕ → ℕ → ℕ → Option (Parsed (List ℕ))
parse_numbers T ui_max_num ui_num p_value pc_buffer i_size i_offset =
    if ltb ui_max_num ui_num
    then some (record { ret = false; value = p_value; i_offset = i_offset })
    else parse_elements ui_num T p_value pc_buffer i_size i_offset

-- The loop over a std::map<UINT32, std::string>, which reads no result.
unfoldable pub parse_texts :
    ℕ → ℕ → List ℕ → StdMap (List ℕ) → List ℕ → ℕ → ℕ → Option (Parsed (StdMap (List ℕ)))
parse_texts zero ui_ana_no s_data map_packet pc_buffer i_size i_offset =
    some (record { ret = true; value = map_packet; i_offset = i_offset })
parse_texts (suc i) ui_ana_no s_data map_packet pc_buffer i_size i_offset = do
  first ← parse_scalar uint32 ui_ana_no pc_buffer i_size i_offset
  second ← parse_string s_data pc_buffer i_size first.i_offset
  parse_texts i first.value second.value (insert first.value second.value map_packet) pc_buffer
      i_size second.i_offset

unfoldable pub parse_text_map : List ℕ → ℕ → ℕ → Option (Parsed (StdMap (List ℕ)))
parse_text_map pc_buffer i_size i_offset = do
  count ← parse_scalar uint32 0 pc_buffer i_size i_offset
  parse_texts count.value 0 [] [] pc_buffer i_size count.i_offset

-- The loop over a std::set<UINT32>.
unfoldable pub parse_members : ℕ → ℕ → StdSet → List ℕ → ℕ → ℕ → Option (Parsed StdSet)
parse_members zero ui_ana_no set_packet pc_buffer i_size i_offset =
    some (record { ret = true; value = set_packet; i_offset = i_offset })
parse_members (suc i) ui_ana_no set_packet pc_buffer i_size i_offset = do
  r ← parse_scalar uint32 ui_ana_no pc_buffer i_size i_offset
  parse_members i r.value (insert r.value tt set_packet) pc_buffer i_size r.i_offset

unfoldable pub parse_set : List ℕ → ℕ → ℕ → Option (Parsed StdSet)
parse_set pc_buffer i_size i_offset = do
  count ← parse_scalar uint32 0 pc_buffer i_size i_offset
  parse_members count.value 0 [] pc_buffer i_size count.i_offset

-- Of an array of numbers.
unfoldable pub pack_numbers : Scalar → List ℕ → List ℕ → List ℕ
pack_numbers T [] vc_buffer = vc_buffer
pack_numbers T (v ∷ p_value) vc_buffer = pack_numbers T p_value (pack_scalar T v vc_buffer)

unfoldable pub pack_members : StdSet → List ℕ → List ℕ
pack_members [] vc_buffer = vc_buffer
pack_members ((k, _) ∷ set_packet) vc_buffer =
    pack_members set_packet (pack_scalar uint32 k vc_buffer)

-- Of a std::set<UINT32>.
unfoldable pub pack_set : StdSet → List ℕ → List ℕ
pack_set set_packet vc_buffer =
    pack_members set_packet (pack_scalar uint32 (length set_packet % 2 ^ 32) vc_buffer)

-- Of the first characters of a string; false if it has fewer.
unfoldable pub pack_part : ℕ → List ℕ → List ℕ → Bool × List ℕ
pack_part ui_data_size s_value vc_buffer =
    if ltb (length s_value) ui_data_size
    then (false, vc_buffer)
    else (true, ms_append vc_buffer (take ui_data_size s_value))

-- Of a string with its size; none where the size is not there, as nothing is returned then.
unfoldable pub parse_sized : ℕ → List ℕ → List ℕ → ℕ → ℕ → Option (Parsed (List ℕ))
parse_sized i_output_size s_output pc_buffer i_size i_offset = do
  r ← parse_scalar uint32 i_output_size pc_buffer i_size i_offset
  if r.ret then parse_chars r.value s_output pc_buffer i_size r.i_offset else none

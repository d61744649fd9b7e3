-- ===== src/Wire/Pack.antt =====
-- pack_resp and ms_append of samples/samples-server/include/net-memory-io-base.h: writing behind
-- what a buffer holds. The calls return true, except those that say otherwise.
use tcp_epoll.Prelude.{
  ℕ, ◌+◌, ◌%◌, ◌^◌, List, [], ◌∷◌, ◌++◌, length, take, drop, Bool, true, false, leb, if◌then◌else◌,
}
use tcp_epoll.StdMap.{StdMap}
use tcp_epoll.Wire.{Scalar, le_bytes, uint32, uint64}

-- `ui_data_size` bytes from `pc_data`; nothing happens for 0 of them.
abbrev pub ms_append : List ℕ → List ℕ → List ℕ
ms_append vc_buffer pc_data = vc_buffer ++ pc_data

-- pack_resp of a number.
unfoldable pub pack_scalar : Scalar → ℕ → List ℕ → List ℕ
pack_scalar T value vc_buffer = ms_append vc_buffer (le_bytes T.size (T.ms_endian value))

-- Of a string: its size, and its characters.
unfoldable pub pack_string : List ℕ → List ℕ → List ℕ
pack_string s_value vc_buffer =
    ms_append (pack_scalar uint32 (length s_value % 2 ^ 32) vc_buffer) s_value

unfoldable pub pack_entries : StdMap ℕ → List ℕ → List ℕ
pack_entries [] vc_buffer = vc_buffer
pack_entries ((k, v) ∷ m) vc_buffer =
    pack_entries m (pack_scalar uint64 v (pack_scalar uint32 k vc_buffer))

-- Of a std::map<UINT32, UINT64>: the number of entries, and the entries.
unfoldable pub pack_map : StdMap ℕ → List ℕ → List ℕ
pack_map map_packet vc_buffer =
    pack_entries map_packet (pack_scalar uint32 (length map_packet % 2 ^ 32) vc_buffer)

-- pack_resp at an offset: over what stands there, and false if that is too short.
unfoldable pub pack_at : ℕ → List ℕ → List ℕ → Bool × List ℕ
pack_at i_offset pc_data vc_buffer =
    if leb ((i_offset + length pc_data) % 2 ^ 32) (length vc_buffer % 2 ^ 32)
    then (true, take i_offset vc_buffer ++ pc_data ++ drop (i_offset + length pc_data) vc_buffer)
    else (false, vc_buffer)

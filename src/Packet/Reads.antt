-- ===== src/Packet/Reads.antt =====
-- The readers of packets of samples/samples-server/include/net-packet.h on the bytes of a packet.
use tcp_epoll.Prelude.{ℕ, ◌^◌, ◌<◌, ◌≡◌, refl, List, [], ◌++◌, length, drop, arith}
use tcp_epoll.StdMap.{StdMap}
use tcp_epoll.StdMap.Order.{Ascends}
use tcp_epoll.Wire.{le_bytes, uint32, uint64, ms_endian32, ms_endian64}
use tcp_epoll.Wire.Parse.{parse_scalar, parse_array, parse_string, parse_map}
use tcp_epoll.Wire.Finds.{Finds-scalar, Finds-array, Finds-string}
use tcp_epoll.Wire.Entries.{InRange, entries_bytes, Finds-map}
use tcp_epoll.Wire.Reads.{
  Reader, Reads, Reads-pure, Reads->>=, Finds-Reads, pure, scalar, array, string, entries,
}
use tcp_epoll.Packet.{
  MsgHeader, Body, ver_req, comm_resp, auth_req, auth_resp, parse_header, parse_auth_req,
  parse_auth_resp, parse_ver_req, ver_nego_req, ver_nego_resp, link_auth_req, link_auth_resp,
}

Reads-u32 : (v : ℕ) → v < 2 ^ 32 → Reads (scalar uint32) (le_bytes 4 (ms_endian32 v)) v
unfolding scalar
Reads-u32 v h = Finds-Reads (parse_scalar uint32 0) _ v (Finds-scalar uint32 0 v (omega arith) h)

Reads-u64 : (v : ℕ) → v < 2 ^ 64 → Reads (scalar uint64) (le_bytes 8 (ms_endian64 v)) v
unfolding scalar
Reads-u64 v h = Finds-Reads (parse_scalar uint64 0) _ v (Finds-scalar uint64 0 v (omega arith) h)

Reads-array :
    (n : ℕ) (bytes : List ℕ)
    → length bytes ≡ n
    → drop {A = ℕ} n [] ≡ []
    → Reads (array n) bytes bytes
unfolding array
Reads-array n bytes e d = Finds-Reads (parse_array n []) bytes bytes (Finds-array n bytes [] e d)

abbrev pub string_bytes : List ℕ → List ℕ
string_bytes s = le_bytes 4 (ms_endian32 (length s)) ++ s

Reads-string : (s : List ℕ) → length s < 2 ^ 31 → Reads string (string_bytes s) s
unfolding string
Reads-string s h = Finds-Reads (parse_string []) _ s (Finds-string s [] h)

abbrev pub map_bytes : StdMap ℕ → List ℕ
map_bytes m = le_bytes 4 (ms_endian32 (length m)) ++ entries_bytes m

Reads-map :
    (m : StdMap ℕ) → Ascends m → InRange m → length m < 2 ^ 32 → Reads entries (map_bytes m) m
unfolding entries
Reads-map m a r h = Finds-Reads parse_map _ m (Finds-map m a r h)

abbrev pub header_bytes : MsgHeader → List ℕ
header_bytes h =
    le_bytes 4 (ms_endian32 h.magic_type)
    ++ (le_bytes 4 (ms_endian32 h.msg_type)
        ++ (le_bytes 4 (ms_endian32 h.total_len)
            ++ (le_bytes 4 (ms_endian32 h.seq_id) ++ (le_bytes 4 (ms_endian32 h.i_ret) ++ []))))

-- The fields of a header are of their types.
pub record IsHeader (h : MsgHeader) : Type 0 where
  pub magic : h.magic_type < 2 ^ 32
  pub type : h.msg_type < 2 ^ 32
  pub total : h.total_len < 2 ^ 32
  pub seq : h.seq_id < 2 ^ 32
  pub ret : h.i_ret < 2 ^ 32

pub Reads-header : (h : MsgHeader) → IsHeader h → Reads parse_header (header_bytes h) h
unfolding parse_header
Reads-header h v = Reads->>= (scalar uint32) _ _ _ h.magic_type h (Reads-u32 h.magic_type v.magic) (
    Reads->>= (scalar uint32) _ _ _ h.msg_type h (Reads-u32 h.msg_type v.type) (
      Reads->>= (scalar uint32) _ _ _ h.total_len h (Reads-u32 h.total_len v.total) (
        Reads->>= (scalar uint32) _ _ _ h.seq_id h (Reads-u32 h.seq_id v.seq)
          (Reads->>= (scalar uint32) _ _ _ h.i_ret h (Reads-u32 h.i_ret v.ret) (Reads-pure h)))))

-- The type of the message that has this body.
abbrev pub type_of : Body → ℕ
type_of (ver_req s) = ver_nego_req
type_of comm_resp = ver_nego_resp
type_of (auth_req b) = link_auth_req
type_of (auth_resp b) = link_auth_resp

abbrev pub reader_of : Body → Reader Body
reader_of (ver_req s) = parse_ver_req
reader_of comm_resp = pure comm_resp
reader_of (auth_req b) = parse_auth_req
reader_of (auth_resp b) = parse_auth_resp

abbrev pub body_bytes : Body → List ℕ
body_bytes (ver_req s) = string_bytes s ++ []
body_bytes comm_resp = []
body_bytes (auth_req b) =
    b.ac_login_id
    ++ (b.auc_digest
        ++ (le_bytes 4 (ms_endian32 b.ui_time_stamp)
            ++ (le_bytes 4 (ms_endian32 b.ui_rand)
                ++ (le_bytes 4 (ms_endian32 b.ui_client_type) ++ []))))
body_bytes (auth_resp b) =
    le_bytes 4 (ms_endian32 b.ui_client_id)
    ++ (le_bytes 4 (ms_endian32 b.i_client_type)
        ++ (le_bytes 8 (ms_endian64 b.ul_out_dev_premission)
            ++ (map_bytes b.ui_client_level_map ++ (string_bytes b.str_extend ++ []))))

-- The fields of a body are of their types; its strings are of less than 2 GB.
abbrev pub IsBody : Body → Type 0
IsBody (ver_req s) = length s < 2 ^ 31
IsBody comm_resp = Unit
IsBody (auth_req b) =
    (length b.ac_login_id ≡ 32)
    × (length b.auc_digest ≡ 16)
    × (b.ui_time_stamp < 2 ^ 32)
    × (b.ui_rand < 2 ^ 32)
    × (b.ui_client_type < 2 ^ 32)
IsBody (auth_resp b) =
    (b.ui_client_id < 2 ^ 32)
    × (b.i_client_type < 2 ^ 32)
    × (b.ul_out_dev_premission < 2 ^ 64)
    × (Ascends b.ui_client_level_map)
    × (InRange b.ui_client_level_map)
    × (length b.ui_client_level_map < 2 ^ 32)
    × (length b.str_extend < 2 ^ 31)

pub Reads-body : (b : Body) → IsBody b → Reads (reader_of b) (body_bytes b) b
unfolding parse_ver_req parse_auth_req parse_auth_resp
Reads-body (ver_req s) v =
    Reads->>= string _ _ _ s (ver_req s) (Reads-string s v) (Reads-pure (ver_req s))
Reads-body comm_resp v = Reads-pure comm_resp
Reads-body (auth_req b) v =
    Reads->>= (array 32) _ _ _ b.ac_login_id (auth_req b) (Reads-array 32 b.ac_login_id v.0 refl) (
      Reads->>= (array 16) _ _ _ b.auc_digest (auth_req b) (Reads-array 16 b.auc_digest v.1 refl) (
        Reads->>= (scalar uint32) _ _ _ b.ui_time_stamp (auth_req b) (Reads-u32 b.ui_time_stamp v.2)
          (Reads->>= (scalar uint32) _ _ _ b.ui_rand (auth_req b) (Reads-u32 b.ui_rand v.3) (
            Reads->>= (scalar uint32) _ _ _ b.ui_client_type (auth_req b)
              (Reads-u32 b.ui_client_type v.4) (Reads-pure (auth_req b))))))
Reads-body (auth_resp b) v =
    Reads->>= (scalar uint32) _ _ _ b.ui_client_id (auth_resp b) (Reads-u32 b.ui_client_id v.0) (
      Reads->>= (scalar uint32) _ _ _ b.i_client_type (auth_resp b) (Reads-u32 b.i_client_type v.1)
        (Reads->>= (scalar uint64) _ _ _ b.ul_out_dev_premission (auth_resp b)
          (Reads-u64 b.ul_out_dev_premission v.2)
          (Reads->>= entries _ _ _ b.ui_client_level_map (auth_resp b)
            (Reads-map b.ui_client_level_map v.3 v.4 v.5)
            (Reads->>= string _ _ _ b.str_extend (auth_resp b) (Reads-string b.str_extend v.6)
              (Reads-pure (auth_resp b))))))

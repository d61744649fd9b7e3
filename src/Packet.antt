-- ===== src/Packet.antt =====
-- The packets that the samples exchange: the messages of samples/samples-server/include/net-packet.h
-- that its link managers read and write, and parse_packet and parse_data of comm-func.h beside it.
pub mod Reads
pub mod Writes
pub mod RoundTrip
pub mod Safe
pub mod Tests
use tcp_epoll.Prelude.{
  ℕ, ◌+◌, ◌*◌, ◌/◌, ◌%◌, ◌^◌, List, [], ◌∷◌, ◌++◌, length, take, drop, Option, none, some, Bool,
  true, false, leb, ltb, ◌==◌, ◌&&◌, if◌then◌else◌,
}
use tcp_epoll.StdMap.{StdMap}
use tcp_epoll.Wire.{of_le, le_bytes, uint32, uint64, ms_endian32}
use tcp_epoll.Wire.Parse.{copy}
use tcp_epoll.Wire.Pack.{ms_append, pack_scalar, pack_string, pack_map, pack_at}
use tcp_epoll.Wire.Reads.{
  Read, ok, refused, overread, Reader, pure, ◌>>=◌, scalar, array, string, entries,
}

-- MsgHeader_S, of which CommResp_S is another name.
pub record MsgHeader : Type 0 where
  pub magic_type : ℕ
  pub msg_type : ℕ
  pub total_len : ℕ
  pub seq_id : ℕ
  pub i_ret : ℕ

abbrev pub msg_head_magic : ℕ
msg_head_magic = 0xA2A2_2A2A

-- sizeof(MsgHeader_S)
abbrev pub header_size : ℕ
header_size = 20

abbrev pub ver_nego_req : ℕ
ver_nego_req = 0x0001

abbrev pub link_auth_req : ℕ
link_auth_req = 0x0002

abbrev pub ver_nego_resp : ℕ
ver_nego_resp = 0x8001

abbrev pub link_auth_resp : ℕ
link_auth_resp = 0x8002

-- MSAuthReqBody_S
pub record AuthReq : Type 0 where
  pub ac_login_id : List ℕ
  pub auc_digest : List ℕ
  pub ui_time_stamp : ℕ
  pub ui_rand : ℕ
  pub ui_client_type : ℕ

-- MSAuthRespBody_S
pub record AuthResp : Type 0 where
  pub ui_client_id : ℕ
  pub i_client_type : ℕ
  pub ul_out_dev_premission : ℕ
  pub ui_client_level_map : StdMap ℕ
  pub str_extend : List ℕ

-- The bodies: of MSVerReq_S, of MSCommResp_S, of MSAuthReq_S and of MSAuthResp_S.
pub data Body : Type 0 where
  ver_req : List ℕ → Body
  comm_resp : Body
  auth_req : AuthReq → Body
  auth_resp : AuthResp → Body

pub record Packet : Type 0 where
  pub header : MsgHeader
  pub body : Body

unfoldable pub pack_header : MsgHeader → List ℕ → List ℕ
pack_header h vc_buffer = pack_scalar uint32 h.i_ret (
    pack_scalar uint32 h.seq_id (
      pack_scalar uint32 h.total_len
        (pack_scalar uint32 h.msg_type (pack_scalar uint32 h.magic_type vc_buffer))))

unfoldable pub pack_auth_req : AuthReq → List ℕ → List ℕ
pack_auth_req b vc_buffer = pack_scalar uint32 b.ui_client_type (
    pack_scalar uint32 b.ui_rand (
      pack_scalar uint32 b.ui_time_stamp
        (ms_append (ms_append vc_buffer b.ac_login_id) b.auc_digest)))

unfoldable pub pack_auth_resp : AuthResp → List ℕ → List ℕ
pack_auth_resp b vc_buffer = pack_string b.str_extend (
    pack_map b.ui_client_level_map (
      pack_scalar uint64 b.ul_out_dev_premission
        (pack_scalar uint32 b.i_client_type (pack_scalar uint32 b.ui_client_id vc_buffer))))

unfoldable pub pack_body : Body → List ℕ → List ℕ
pack_body (ver_req str_buff) vc_buffer = pack_string str_buff vc_buffer
pack_body comm_resp vc_buffer = vc_buffer
pack_body (auth_req b) vc_buffer = pack_auth_req b vc_buffer
pack_body (auth_resp b) vc_buffer = pack_auth_resp b vc_buffer

-- The size of the buffer goes into the field total_len of its header, at offset 8.
unfoldable pub write_packet_size : List ℕ → Bool × List ℕ
write_packet_size vc_buffer =
    pack_at 8 (le_bytes 4 (ms_endian32 (length vc_buffer % 2 ^ 32))) vc_buffer

-- Both branches on the type of the message write the same header.
unfoldable pub write_packet : Packet → List ℕ → Bool × List ℕ
write_packet st_packet vc_buffer =
    write_packet_size (pack_body st_packet.body (pack_header st_packet.header vc_buffer))

unfoldable pub parse_header : Reader MsgHeader
parse_header = do
  magic_type ← scalar uint32
  msg_type ← scalar uint32
  total_len ← scalar uint32
  seq_id ← scalar uint32
  i_ret ← scalar uint32
  pure (record {
    magic_type = magic_type;
    msg_type = msg_type;
    total_len = total_len;
    seq_id = seq_id;
    i_ret = i_ret;
  })

unfoldable pub parse_auth_req : Reader Body
parse_auth_req = do
  ac_login_id ← array 32
  auc_digest ← array 16
  ui_time_stamp ← scalar uint32
  ui_rand ← scalar uint32
  ui_client_type ← scalar uint32
  pure (
      auth_req (record {
        ac_login_id = ac_login_id;
        auc_digest = auc_digest;
        ui_time_stamp = ui_time_stamp;
        ui_rand = ui_rand;
        ui_client_type = ui_client_type;
      }))

unfoldable pub parse_auth_resp : Reader Body
parse_auth_resp = do
  ui_client_id ← scalar uint32
  i_client_type ← scalar uint32
  ul_out_dev_premission ← scalar uint64
  ui_client_level_map ← entries
  str_extend ← string
  pure (
      auth_resp (record {
        ui_client_id = ui_client_id;
        i_client_type = i_client_type;
        ul_out_dev_premission = ul_out_dev_premission;
        ui_client_level_map = ui_client_level_map;
        str_extend = str_extend;
      }))

unfoldable pub parse_ver_req : Reader Body
parse_ver_req = do str_buff ← string; pure (ver_req str_buff)

-- read_packet, from the start of the buffer.
unfoldable pub read_packet : Reader Body → List ℕ → ℕ → Read Packet
read_packet parse_body pc_buffer size =
    (do header ← parse_header; body ← parse_body; pure (record { header = header; body = body }))
      pc_buffer size 0

-- The cases of the switch on the type of the message.
unfoldable pub body_of : ℕ → Option (Reader Body)
body_of ui_msg_type =
    if ui_msg_type == ver_nego_req
    then some parse_ver_req
    else if ui_msg_type == ver_nego_resp
    then some (pure comm_resp)
    else if ui_msg_type == link_auth_req
    then some parse_auth_req
    else if ui_msg_type == link_auth_resp
    then some parse_auth_resp
    else none

abbrev pub swapped : Option (List ℕ) → Option ℕ
swapped none = none
swapped (some bytes) = some (ms_endian32 (of_le bytes))

-- `ntohl` of the 4 bytes at an offset; none where that reads beyond the buffer.
unfoldable pub ntohl_at : ℕ → List ℕ → Option ℕ
ntohl_at offset p_data = swapped (copy p_data offset 4)

-- What parse_data returns: the packet and its length, 0, -1, CTRL_PRO_NOT_EXIST_ERROR, or nothing
-- as it reads beyond the buffer.
pub data Result : Type 0 where
  packet : Packet → ℕ → Result
  incomplete : Result
  failed : Result
  not_exist : Result
  beyond : Result

abbrev pub to_result : ℕ → Read Packet → Result
to_result size (ok p off) = packet p size
to_result size refused = failed
to_result size overread = beyond

abbrev pub read_case : List ℕ → ℕ → Option (Reader Body) → Result
read_case pc_buffer i_size none = not_exist
read_case pc_buffer i_size (some parse_body) =
    to_result i_size (read_packet parse_body pc_buffer i_size)

abbrev pub packet_case : List ℕ → ℕ → Option ℕ → Result
packet_case pc_buffer i_size none = beyond
packet_case pc_buffer i_size (some ui_msg_type) = read_case pc_buffer i_size (body_of ui_msg_type)

-- parse_packet, with a size that is not negative.
unfoldable pub parse_packet : List ℕ → ℕ → Result
parse_packet pc_buffer i_size = packet_case pc_buffer i_size (ntohl_at 4 pc_buffer)

abbrev pub data_case : List ℕ → Option ℕ → Result
data_case p_data none = beyond
data_case p_data (some ui_total_len) =
    if ltb (length p_data) header_size
    then incomplete
    else if ltb (length p_data) ui_total_len
    then incomplete
    else parse_packet p_data ui_total_len

-- parse_data, whose comparison with total_len is that of `unsigned int`: it lets no negative length
-- pass.
unfoldable pub parse_data : List ℕ → Result
parse_data p_data = data_case p_data (ntohl_at 8 p_data)

-- ===== src/Smartlink/Cross.antt =====
-- smartlink/st_cross_svr_node.cpp: what a remote server says about its clients, and the data that it
-- passes on for ours. This is the `deal_user_data` of the server's node, over the bytes of its
-- messages of type 0x03.
pub mod Pieces
pub mod Total
use zpserver.Common.{
  ℕ, zero, suc, ◌+◌, ◌-◌, ◌*◌, ◌/◌, ◌%◌, ◌^◌, min, Bool, true, false, not, ◌&&◌, ◌||◌, Option, none,
  some, List, [], ◌∷◌, ◌++◌, ltb, leb, ◌==◌, if◌then◌else◌, length, is_empty, take, drop, word,
  Text,
}
use zpserver.Smartlink.Table.{Table, cross_svr_add_uuids, cross_svr_del_uuids, send_to_node}

-- EXAMPLE_CROSSSVR_MSG::tag_msgHearder
pub record MsgHeader : Type 0 where
  pub mark : ℕ
  pub version : ℕ
  pub mesage_type : ℕ
  pub message_len : ℕ

-- st_cross_svr_node, and the table of clients that it works on
pub record CrossNode : Type 0 where
  pub curr_st_meg_size : ℕ
  pub curr_st_block : List ℕ
  pub st_header : MsgHeader
  pub destin_uuid : ℕ
  pub table : Table

-- sizeof(EXAMPLE_CROSSSVR_MSG::tag_msgHearder), sizeof(EXAMPLE_TRANS_MSG)-1
abbrev pub header_size : ℕ
header_size = 9

abbrev pub trans_size : ℕ
trans_size = 12

abbrev pub no_uuid : ℕ
no_uuid = 0xffffffff

-- The 32 bits of st_bytesLeft
unfoldable pub st_bytes_left : CrossNode → ℕ
st_bytes_left s = (s.st_header.message_len + header_size + 2 ^ 32 - s.curr_st_meg_size) % 2 ^ 32

abbrev pub is_positive : ℕ → Bool
is_positive n = ltb 0 n && ltb n (2 ^ 31)

-- `n` words from the pointer
unfoldable pub uuids_at : ℕ → List ℕ → List ℕ
uuids_at zero bs = []
uuids_at (suc n) bs = word 4 bs ∷ uuids_at n (drop 4 bs)

unfoldable pub copy : ℕ → CrossNode → List ℕ → CrossNode × List ℕ
copy n s rest = (
  record s {
    curr_st_meg_size = s.curr_st_meg_size + n;
    curr_st_block = s.curr_st_block ++ take n rest;
  },
  drop n rest,
)

unfoldable pub load_header : CrossNode → CrossNode
load_header s = record s {
  st_header = record {
    mark = word 2 s.curr_st_block;
    version = word 2 (drop 2 s.curr_st_block);
    mesage_type = word 1 (drop 4 s.curr_st_block);
    message_len = word 4 (drop 5 s.curr_st_block);
  };
}

-- m_destin_uuid, once the header of the message inside is there
unfoldable pub find_destin : CrossNode → CrossNode
find_destin s =
    if (s.destin_uuid == no_uuid) && (leb (header_size + trans_size) s.curr_st_meg_size)
    then record s { destin_uuid = word 4 (drop 6 (drop header_size s.curr_st_block)) }
    else s

-- case 0x03 of deal_msg
unfoldable pub transfer : CrossNode → CrossNode × Bool
transfer s =
    let d = find_destin s in
    let piece =
      if d.curr_st_meg_size == length d.curr_st_block
      then drop header_size d.curr_st_block
      else d.curr_st_block in
    if d.destin_uuid == no_uuid
    then (d, false)
    else (record d { table = (send_to_node d.destin_uuid piece d.table).0 }, true)

-- deal_msg, for the server with the name
unfoldable pub deal_msg : Text → CrossNode → CrossNode × Bool
deal_msg name s =
    let uuids = uuids_at (s.st_header.message_len / 4) (drop header_size s.curr_st_block) in
    if s.st_header.mesage_type == 0x01
    then (if is_positive (st_bytes_left s)
        then (s, false)
        else (record s { table = cross_svr_add_uuids name uuids s.table }, false))
    else if s.st_header.mesage_type == 0x02
    then (if is_positive (st_bytes_left s)
        then (s, false)
        else (record s { table = cross_svr_del_uuids name (some uuids) s.table }, false))
    else if s.st_header.mesage_type == 0x03
    then transfer s
    else (s, false)

-- m_currStMegSize = 0; m_currStBlock.clear();
unfoldable pub clear_block : CrossNode → CrossNode
clear_block s = record s { curr_st_meg_size = 0; curr_st_block = [] }

unfoldable pub take_header : CrossNode → List ℕ → CrossNode × List ℕ
take_header s rest =
    if ltb s.curr_st_meg_size header_size
    then copy (min (length rest) (header_size - s.curr_st_meg_size)) s rest
    else (s, rest)

unfoldable pub take_payload : CrossNode → List ℕ → CrossNode × List ℕ
take_payload s rest =
    if not (is_empty rest) && (ltb s.curr_st_meg_size (s.st_header.message_len + header_size))
    then copy (min (length rest) (s.st_header.message_len + header_size - s.curr_st_meg_size)) s
        rest
    else (s, rest)

-- deal_msg and what follows it
unfoldable pub finish_round : Text → CrossNode → CrossNode
finish_round name s =
    let (d, need_del) = deal_msg name s in
    if (st_bytes_left d == 0) || need_del
    then record (clear_block d) { destin_uuid = no_uuid }
    else d

-- The loop's body: `none` for its two returns.
unfoldable pub round : Text → CrossNode → List ℕ → CrossNode × Option (List ℕ)
round name s rest =
    let (h, rest1) = take_header s rest in
    let l = if h.curr_st_meg_size == header_size then load_header h else h in
    let (p, rest2) = take_payload l rest1 in
    if ltb h.curr_st_meg_size header_size
    then (h, none)
    else if (h.curr_st_meg_size == header_size) && not (l.st_header.mark == 0x4567)
    then (clear_block l, none)
    else (finish_round name p, some rest2)

-- deal_user_data, on fuel. The Boolean says that it ends with the method of the base class, which
-- emits evt_RemoteData_recieved.
unfoldable pub deal_user_data : ℕ → Text → CrossNode → List ℕ → Option (CrossNode × Bool)
deal_user_data zero name s rest = none
deal_user_data (suc fuel) name s [] = some (s, true)
deal_user_data (suc fuel) name s (b ∷ rest) = elim (round name s (b ∷ rest)).1 [
  | none ↦ some ((round name s (b ∷ rest)).0, false)
  | some rest' ↦ deal_user_data fuel name (round name s (b ∷ rest)).0 rest'
]

-- ===== src/Cluster/Wire.antt =====
-- The layouts of cluster/cross_svr_messages.h: the packed header, and the record that basicInfo and
-- broadcast messages hold for a server.
pub mod Layout
use zpserver.Common.{
  ℕ, zero, suc, ◌+◌, ◌-◌, ◌*◌, ◌≡◌, List, [], ◌∷◌, ◌++◌, ◌==◌, if◌then◌else◌, length, take, drop,
  replicate, word, bytes, Text, to_utf8, from_utf8,
}

-- What a C function reads through a pointer: the bytes up to the first NUL.
unfoldable pub c_string : List ℕ → List ℕ
c_string [] = []
c_string (b ∷ bs) = let rest = c_string bs in if b == 0 then [] else b ∷ rest

-- So many bytes: those of a string, and zeros
unfoldable pub padded : ℕ → List ℕ → List ℕ
padded zero s = []
padded (suc n) [] = 0 ∷ padded n []
padded (suc n) (c ∷ s) = c ∷ padded n s

-- strncpy(field, text.toStdString().c_str(), 63) into a field of 64 zeros
unfoldable pub field : Text → List ℕ
unfolding c_string padded
field s = padded 63 (c_string (to_utf8 s)) ++ 0 ∷ []

-- tag_CSM_BasicInfo and tag_CSM_Broadcast
pub record ServerInfo : Type 0 where
  pub name : Text
  pub addr_lan : Text
  pub port_lan : ℕ
  pub addr_pub : Text
  pub port_pub : ℕ

-- sizeof(tag_CSM_Broadcast)
abbrev pub info_size : ℕ
info_size = 196

unfoldable pub write_info : ServerInfo → List ℕ
write_info s =
    field s.name
    ++ (field s.addr_lan ++ (bytes 2 s.port_lan ++ (field s.addr_pub ++ bytes 2 s.port_pub)))

-- QString((const char *) p)
unfoldable pub read_field : List ℕ → Text
unfolding c_string
read_field bs = from_utf8 (c_string bs)

-- The reads through the pointer to such a record, each field after the one before it.
unfoldable pub read_info : List ℕ → ServerInfo
read_info bs =
    let lan = drop 64 bs in
    let lan_port = drop 64 lan in
    let pub_addr = drop 2 lan_port in
    let pub_port = drop 64 pub_addr in
    record {
      name = read_field bs;
      addr_lan = read_field lan;
      port_lan = word 2 lan_port;
      addr_pub = read_field pub_addr;
      port_pub = word 2 pub_port;
    }

-- A message: mark 0x1234, type, length of the payload, payload.
unfoldable pub cross_svr_msg : ℕ → List ℕ → List ℕ
cross_svr_msg kind payload = bytes 2 0x1234 ++ (kind ∷ (bytes 4 (length payload) ++ payload))

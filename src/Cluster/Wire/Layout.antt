-- ===== src/Cluster/Wire/Layout.antt =====
-- What is written into the fields of a server's record is read back from them.
use zpserver.Common.{ℕ, ◌≤◌, ◌<◌, List, ◌++◌, length, bytes, Text, to_utf8}
use zpserver.Common.Utf8.RoundTrip.{ArePlain}
use zpserver.Cluster.Wire.{field, ServerInfo}

-- A text that a field holds: characters of 16 bits, none of them zero, of at most 63 bytes in UTF-8.
abbrev pub FitsField : Text → Type 0
FitsField s = ArePlain s × (length (to_utf8 s) ≤ 63)

pub record Fits (s : ServerInfo) : Type 0 where
  pub name : FitsField s.name
  pub addr_lan : FitsField s.addr_lan
  pub addr_pub : FitsField s.addr_pub
  pub ports : (s.port_lan < 65536) × (s.port_pub < 65536)

abbrev pub_part : ServerInfo → List ℕ
pub_part s = field s.addr_pub ++ bytes 2 s.port_pub

abbrev lan_port_part : ServerInfo → List ℕ
lan_port_part s = bytes 2 s.port_lan ++ pub_part s

abbrev lan_part : ServerInfo → List ℕ
lan_part s = field s.addr_lan ++ lan_port_part s

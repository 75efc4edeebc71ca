-- ===== src/Smartlink/Directory.antt =====
-- What smartlink/st_client_table.cpp promises of its two tables: a directory of who is connected,
-- with which id, and of the connection that each id leads to. Directory/Refinement shows that the
-- slots of st_client_table keep to it.
pub mod Tables
pub mod Naming
pub mod Leaving
pub mod Refinement
use zpserver.Common.{
  ℕ, Bool, true, false, ◌&&◌, Option, none, some, List, [], ◌∷◌, ◌==◌, if◌then◌else◌, lookup,
  nat_key,
}
use zpserver.Smartlink.Table.{Table, is_valid_user_id}
use zpserver.Smartlink.Table.Clients.{
  Call, opened, encrypted, data_recieved, identified, disconnected, timer,
}

pub record Directory : Type 0 where
  pub online : ℕ → Bool
  pub id_of : ℕ → Option ℕ
  pub owner : ℕ → Option ℕ

-- A function that is changed at one place.
unfoldable pub put : {A : Type 0} → ℕ → A → (ℕ → A) → ℕ → A
put k v f j = if k == j then v else f j

abbrev pub is_none : Option ℕ → Bool
is_none none = true
is_none (some x) = false

-- No id leads to the connection any more.
unfoldable pub without : ℕ → Option ℕ → Option ℕ
without sock none = none
without sock (some k) = if k == sock then none else some k

unfoldable pub connect : ℕ → Directory → Directory
connect sock d = record d { online = put sock true d.online }

-- The first valid id of a connection
unfoldable pub name : ℕ → ℕ → Directory → Directory
name sock id d =
    if d.online sock && is_none (d.id_of sock) && is_valid_user_id id
    then record d { id_of = put sock (some id) d.id_of; owner = put id (some sock) d.owner }
    else d

unfoldable pub disconnect : ℕ → Directory → Directory
disconnect sock d = record {
  online = put sock false d.online;
  id_of = put sock none d.id_of;
  owner = λ id. without sock (d.owner id);
}

-- What each call means.
unfoldable pub step : Directory → Call → Directory
step d (opened sock now) = connect sock d
step d (encrypted sock now) = connect sock d
step d (data_recieved sock block now) = connect sock d
step d (identified sock id) = name sock id d
step d (disconnected sock) = disconnect sock d
step d (timer now) = d

unfoldable pub steps : Directory → List Call → Directory
steps d [] = d
steps d (c ∷ cs) = steps (step d c) cs

-- The directory of a table.
unfoldable pub online_in : Table → ℕ → Bool
online_in t sock = elim (lookup sock t.sock2node) [ none ↦ false | some c ↦ true ]

unfoldable pub id_in : Table → ℕ → Option ℕ
id_in t sock = elim (lookup sock t.sock2node) [
  | none ↦ none
  | some c ↦ if (t.node c).uuid_recieved then some (t.node c).uuid else none
]

unfoldable pub owner_in : Table → ℕ → Option ℕ
owner_in t id = elim (lookup id t.uuid2node) [ none ↦ none | some c ↦ some (t.node c).sock ]

unfoldable pub directory : Table → Directory
directory t = record { online = online_in t; id_of = id_in t; owner = owner_in t }

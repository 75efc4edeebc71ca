-- ===== src/Smartlink/App.antt =====
-- smartlink/st_clientnode_applayer.cpp and smartlink/st_clientnode_app_imp.cpp: the application
-- layer of a client's node. Here: the database that it asks, which is a parameter, and the client's
-- relations. The requests are in App/Requests, what leads to them in App/Dispatch.
pub mod Requests
pub mod Dispatch
pub mod Relay
pub mod Remote
pub mod Login
pub mod SecondId
pub mod Download
mod Examples
use zpserver.Common.{
  ℕ, Bool, true, false, Option, none, some, List, [], ◌∷◌, ◌++◌, ◌==◌, if◌then◌else◌,
}
use zpserver.Smartlink.Table.{is_valid_user_id}
use zpserver.Smartlink.Frame.{Reader}
use zpserver.Smartlink.Session.{Session, own_node, say}

-- What the query for a user gives: the query failed, no row, or a row with the number that its second
-- column reads as, if it reads as one.
pub data UserRow : Type 0 where
  query_failed no_row : UserRow
  row : Option ℕ → UserRow

-- The calls of QSqlDatabase and QSqlQuery, with `D` for the state behind them:
-- `databse(name)` with isValid() && isOpen(), close(), the select on users, the select on relations
-- with its rows, the delete and the insert, which may fail.
pub record Database (D : Type 0) : Type 0 where
  pub connect : D → D × Bool
  pub close : D → D
  pub find_user : ℕ → List ℕ → D → D × UserRow
  pub friends : ℕ → D → D × Option (List ℕ)
  pub delete_relations : ℕ → D → D × Bool
  pub insert_relation : ℕ → ℕ → D → D × Bool

-- QSet::contains and QSet::insert
unfoldable pub set_contains : ℕ → List ℕ → Bool
set_contains id [] = false
set_contains id (j ∷ js) = if id == j then true else set_contains id js

unfoldable pub set_insert : ℕ → List ℕ → List ℕ
set_insert id ids = if set_contains id ids then ids else ids ++ id ∷ []

-- The loop over the rows.
unfoldable pub insert_rows : List ℕ → List ℕ → List ℕ
insert_rows [] ids = ids
insert_rows (v ∷ vs) ids = insert_rows vs (set_insert v ids)

module _ {D : Type 0} where
  unfoldable pub set_db : D → Reader (Session D) → Reader (Session D)
  set_db d r = record r { user = record r.user { db = d } }

module _ {D : Type 0} (database : Database D) where
  -- A query that failed.
  unfoldable pub give_up_query : D → Reader (Session D) → Reader (Session D) × Bool
  give_up_query d r = (set_db (database.close d) (say r), false)

  -- The rows that loadRelations reads
  unfoldable pub take_rows : D × Option (List ℕ) → Reader (Session D) → Reader (Session D) × Bool
  take_rows (d, none) r = give_up_query d r
  take_rows (d, some vs) r =
      (record r { user = record r.user { db = d; matched_nodes = insert_rows vs [] } }, true)

  -- loadRelations
  unfoldable pub load_relations : Reader (Session D) → Reader (Session D) × Bool
  load_relations r =
      let (d, usable) = database.connect r.user.db in
      if usable
      then take_rows (database.friends (own_node r.user).uuid d) r
      else (say (set_db d r), false)

  -- The loop over m_matched_nodes: the state, and whether every insert succeeded.
  unfoldable pub insert_all : ℕ → List ℕ → D → D × Bool
  insert_all uuid [] d = (d, true)
  insert_all uuid (id ∷ ids) d =
      let (d', done) = database.insert_relation uuid id d in
      let skipped = insert_all uuid ids d in
      let rest = insert_all uuid ids d' in
      if is_valid_user_id id then (if done then rest else (d', false)) else skipped

  -- saveRelations
  unfoldable pub save_relations : Reader (Session D) → Reader (Session D) × Bool
  save_relations r =
      let (d, usable) = database.connect r.user.db in
      let uuid = (own_node r.user).uuid in
      let (d1, deleted) = database.delete_relations uuid d in
      let (d2, inserted) = insert_all uuid r.user.matched_nodes d1 in
      if usable
      then (if deleted
          then (if inserted then (set_db d2 r, true) else give_up_query d2 r)
          else give_up_query d1 r)
      else (say (set_db d r), false)

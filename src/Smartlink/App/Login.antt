-- ===== src/Smartlink/App/Login.antt =====
-- Who is logged in: the login of a client's node (smartlink/st_clientnode_app_imp.cpp), and what the
-- rest of the application layer leaves. Login/Checked has the messages that lead to a login.
pub mod Checked
use zpserver.Common.{
  ℕ, ◌≡◌, refl, ap, ◌∙◌, ◌⊎◌, inl, inr, Bool, true, false, not, ◌||◌, Option, none, some, List,
  arith, ltb, ◌==◌, Bool-cases, ==→eq,
}
use zpserver.Smartlink.Table.{
  Table, is_valid_user_id, emit, cross_svr_send_data, set_node, regisit_client_uuid,
  broadcast_client_uuid,
}
use zpserver.Smartlink.Frame.{Reader, bytes_left, is_positive}
use zpserver.Smartlink.Session.{
  AppHeader, Session, own_node, emit_event, reply, say, close_self, clear_block, identify, bad_id,
  base_deal,
}
use zpserver.Smartlink.App.{
  UserRow, query_failed, no_row, row, Database, set_db, give_up_query, take_rows, load_relations,
}
use zpserver.Smartlink.App.Requests.{
  set_uuid, login_user, login_password, enter_user, user_found, check_user, login_client,
}
use zpserver.Smartlink.App.Dispatch.{
  catch_header, broken, cleared, when_complete, handshake, deal_to_server_handshakes, close_failed,
  deal_to_server, deal_to_client, reset_type, deal_current_message_block,
}

-- Steps that leave whether the client is logged in, and the client's node.
pub record IsSame {D : Type 0} (s u : Session D) : Type 0 where
  pub logged_in : u.logged_in ≡ s.logged_in
  pub node : own_node u ≡ own_node s

module _ {D : Type 0} where
  IsSame-trans : (s u v : Session D) → IsSame s u → IsSame u v → IsSame s v
  IsSame-trans s u v p q = record { logged_in = q.logged_in ∙ p.logged_in; node = q.node ∙ p.node }

  pub reset_type-IsSame : (r : Reader (Session D)) → IsSame r.user (reset_type r).user
  unfolding reset_type
  reset_type-IsSame r = elim (Bool-cases (bytes_left r == 0)) [
    | inl over ↦ rw over (record { logged_in = refl; node = refl })
    | inr more ↦ rw more (record { logged_in = refl; node = refl })
  ]

  pub deal_to_client-IsSame : (r : Reader (Session D)) → IsSame r.user (deal_to_client r).user
  unfolding deal_to_client say clear_block emit_event emit cross_svr_send_data
  deal_to_client-IsSame r = record { logged_in = ground arith; node = ground arith }

  -- A client that has an id keeps it.
  pub base_deal-IsSame :
      (r : Reader (Session D))
      → (own_node r.user).uuid_recieved ≡ true
      → IsSame r.user (base_deal r).user
  unfolding base_deal bad_id identify say close_self clear_block emit_event emit
  base_deal-IsSame r known = record { logged_in = ground arith; node = ground arith }

  pub base_deal_logged_in :
      (r : Reader (Session D)) → (base_deal r).user.logged_in ≡ r.user.logged_in
  unfolding base_deal bad_id identify say close_self clear_block emit_event
  base_deal_logged_in r = ground arith

module _ {D : Type 0} (database : Database D) where
  pub close_failed-IsSame :
      (p : Reader (Session D) × Bool) → IsSame p.0.user (close_failed database p).user
  unfolding close_failed say close_self clear_block emit_event emit
  close_failed-IsSame (r, true) = record { logged_in = refl; node = refl }
  close_failed-IsSame (r, false) = record { logged_in = refl; node = refl }

  take_rows-IsSame :
      (o : D × Option (List ℕ)) (r : Reader (Session D))
      → IsSame r.user (take_rows database o r).0.user
  unfolding take_rows give_up_query set_db say emit_event emit
  take_rows-IsSame (d, none) r = record { logged_in = refl; node = refl }
  take_rows-IsSame (d, some vs) r = record { logged_in = refl; node = refl }

  pub load_relations-IsSame :
      (r : Reader (Session D)) → IsSame r.user (load_relations database r).0.user
  unfolding load_relations set_db say emit_event emit
  load_relations-IsSame r = elim (Bool-cases (database.connect r.user.db).1) [
    | inl usable ↦ rw usable (take_rows-IsSame _ r)
    | inr closed ↦ rw closed (record { logged_in = refl; node = refl })
  ]

  -- The request in the block is that of a user of the database, with this id and the user's password.
  pub record IsAccount (r : Reader (Session D)) (id : ℕ) : Type 0 where
    pub usable : (database.connect r.user.db).1 ≡ true
    pub found :
        (database.find_user
          (login_user r.current_block)
          (login_password r.current_block)
          (database.connect r.user.db).0).1
        ≡ row (some id)
    pub valid : is_valid_user_id id ≡ true

  -- The client is logged in, and this is its id.
  pub record IsEntered (id : ℕ) (s : Session D) : Type 0 where
    pub known : (own_node s).uuid_recieved ≡ true
    pub same_id : (own_node s).uuid ≡ id

  pub IsEntered-IsSame : (id : ℕ) (s u : Session D) → IsSame s u → IsEntered id s → IsEntered id u
  IsEntered-IsSame id s u p e = record {
    known = ap (λ n. n.uuid_recieved) p.node ∙ e.known;
    same_id = ap (λ n. n.uuid) p.node ∙ e.same_id;
  }

  set_uuid_node :
      (c id : ℕ) (t : Table)
      → (((set_uuid c id t).node c).uuid_recieved ≡ true) × (((set_uuid c id t).node c).uuid ≡ id)
  unfolding set_uuid regisit_client_uuid set_node broadcast_client_uuid
  set_uuid_node c id t = ground arith

  pub enter_user-IsEntered :
      (id : ℕ) (r : Reader (Session D)) → IsEntered id (enter_user database id r).0.user
  unfolding enter_user
  enter_user-IsEntered id r =
      let t = set_uuid r.user.self id r.user.table in
      let (known, same) = set_uuid_node r.user.self id r.user.table in
      IsEntered-IsSame id _ _
        (load_relations-IsSame (record r { user = record r.user { table = t; logged_in = true } }))
        (record { known = known; same_id = same })

  -- What can happen to a client that is not logged in.
  abbrev IsChecked : Reader (Session D) → Session D → Type 0
  IsChecked r s = (s.logged_in ≡ r.user.logged_in) ⊎ ((id : ℕ) × IsAccount r id × IsEntered id s)

  IsChecked-IsSame :
      (r : Reader (Session D)) (s u : Session D) → IsSame s u → IsChecked r s → IsChecked r u
  IsChecked-IsSame r s u p (inl e) = inl (p.logged_in ∙ e)
  IsChecked-IsSame r s u p (inr (id, account, entered)) =
      inr (id, account, IsEntered-IsSame id s u p entered)

  user_found_checked :
      (o : UserRow) (r : Reader (Session D))
      → ((user_found database o r).0.user.logged_in ≡ r.user.logged_in)
        ⊎ ((id : ℕ) × (o ≡ row (some id))
            × (is_valid_user_id id ≡ true)
            × IsEntered id (user_found database o r).0.user)
  unfolding user_found set_db say emit_event
  user_found_checked query_failed r = inl refl
  user_found_checked no_row r = inl refl
  user_found_checked (row none) r = inl refl
  user_found_checked (row (some id)) r = elim (Bool-cases (is_valid_user_id id)) [
    | inl valid ↦ inr (id, refl, valid, rw valid (enter_user-IsEntered id r))
    | inr wrong ↦ inl (rw wrong refl)
  ]

  check_user-IsChecked : (r : Reader (Session D)) → IsChecked r (check_user database r).0.user
  unfolding check_user set_db
  check_user-IsChecked r = elim (Bool-cases (database.connect r.user.db).1) [
    | inr closed ↦ inl (rw closed refl)
    | inl usable ↦
        let d = (database.connect r.user.db).0 in
        let answer =
          database.find_user (login_user r.current_block) (login_password r.current_block) d in
        elim (user_found_checked answer.1 (set_db answer.0 r)) [
          | inl same ↦ inl (rw usable same)
          | inr (id, found, valid, entered) ↦
              inr (id, record { usable = usable; found = found; valid = valid }, rw usable entered)
        ]
  ]

  pub reply-IsSame : (array : List ℕ) (r : Reader (Session D)) → IsSame r.user (reply array r).user
  unfolding reply emit_event emit
  reply-IsSame array r = record { logged_in = refl; node = refl }

  pub login_client-IsChecked :
      (r : Reader (Session D)) → IsChecked r (login_client database r).0.user
  unfolding login_client
  login_client-IsChecked r =
      IsChecked-IsSame r _ _ (reply-IsSame _ (check_user database r).0) (check_user-IsChecked r)

-- ===== src/Client/Login.antt =====
-- A login from end to end: the request of the client program (FunctionalClientTest), through the
-- server's reader and application layer.
use zpserver.Common.{
  ℕ, ◌+◌, ◌^◌, ◌≤◌, ◌<◌, ◌≡◌, refl, ap, sym, ◌∙◌, true, false, not, ◌||◌, some, [], ◌∷◌, arith, ltb,
  ◌==◌, length, drop, word, bytes, length-append, drop-plus, subst, Text, to_utf8, IsAscii,
}
use zpserver.Smartlink.Table.{is_valid_user_id}
use zpserver.Smartlink.Frame.{
  TransHeader, Reader, finished, header_of, bytes_left, is_positive, start_new, filter_message,
}
use zpserver.Smartlink.Frame.Relay.{IsMessage}
use zpserver.Smartlink.Frame.Relay.Whole.{whole, idle_reader, whole_message_dealt}
use zpserver.Smartlink.Session.{Session, own_node, clear_block, heart_beat, reject}
use zpserver.Smartlink.App.{Database, row}
use zpserver.Smartlink.App.Requests.{
  login_password, enter_user, user_found, check_user, login_client,
}
use zpserver.Smartlink.App.Dispatch.{
  catch_header, cleared, when_complete, handshake, deal_to_server_handshakes, deal_to_server,
  deal_current_message_block,
}
use zpserver.Smartlink.App.Login.{
  IsAccount, IsSame, IsEntered, IsEntered-IsSame, enter_user-IsEntered, load_relations-IsSame,
  reply-IsSame, close_failed-IsSame,
}
use zpserver.Smartlink.App.Login.Checked.{
  finish, deal_at_server, finish_logged_in, finish-IsEntered,
}
use zpserver.Client.Requests.{trans_header, app_header, login_request}
use zpserver.Client.RoundTrip.{login_request_read}

module _ {D : Type 0} (database : Database D) where
  -- The client is logged in as `id`.
  pub record IsIn (id : ℕ) (s : Session D) : Type 0 where
    pub logged_in : s.logged_in ≡ true
    pub entered : IsEntered database id s

  IsIn-IsSame : (id : ℕ) (s u : Session D) → IsSame s u → IsIn id s → IsIn id u
  IsIn-IsSame id s u p h = record {
    logged_in = p.logged_in ∙ h.logged_in;
    entered = IsEntered-IsSame database id s u p h.entered;
  }

  enter_user-IsIn : (id : ℕ) (r : Reader (Session D)) → IsIn id (enter_user database id r).0.user
  unfolding enter_user
  enter_user-IsIn id r = record {
    logged_in = (load_relations-IsSame database _).logged_in;
    entered = enter_user-IsEntered database id r;
  }

  check_user-IsIn :
      (id : ℕ) (r : Reader (Session D))
      → IsAccount database r id
      → IsIn id (check_user database r).0.user
  unfolding check_user user_found
  check_user-IsIn id r a = rw (a.usable, a.found, user_found, a.valid) (enter_user-IsIn id _)

  login_client-IsIn :
      (id : ℕ) (r : Reader (Session D))
      → IsAccount database r id
      → IsIn id (login_client database r).0.user
  unfolding login_client
  login_client-IsIn id r a =
      IsIn-IsSame id _ _ (reply-IsSame database _ (check_user database r).0)
        (check_user-IsIn id r a)

  handshake-IsIn :
      (id : ℕ) (r : Reader (Session D))
      → r.user.current_app_header.msg_type ≡ 0x0001
      → bytes_left r ≡ 0
      → r.current_message_size ≤ 88
      → IsAccount database r id
      → IsIn id (handshake database r).0.user
  unfolding handshake when_complete cleared clear_block
  handshake-IsIn id r kind over short a =
      let login : (r.user.current_app_header.msg_type == 0x0001) ≡ true = ground (arith, kind) in
      let complete : is_positive (bytes_left r) ≡ false = ground (arith, over) in
      let size : ltb 88 r.current_message_size ≡ false = ground (arith, short) in
      let h = login_client-IsIn id r a in
      rw (login, complete, size)
        (record {
          logged_in = h.logged_in;
          entered = record { known = h.entered.known; same_id = h.entered.same_id };
        })

  -- A request of a login that the reader has as a whole.
  record IsLoginRequest (r : Reader (Session D)) : Type 0 where
    kind : word 2 (drop 15 r.current_block) ≡ 0x0001
    over : bytes_left r ≡ 0
    short : r.current_message_size ≤ 88
    there : 17 ≤ r.current_message_size
    has_front : 5 ≤ r.current_header.data_length
    destin : r.current_header.destin_id ≡ 1

  caught-IsIn :
      (id : ℕ) (r : Reader (Session D))
      → IsLoginRequest r
      → r.user.current_app_header.msg_type ≡ 0
      → IsAccount database r id
      → IsIn id (handshake database (catch_header r)).0.user
  unfolding catch_header bytes_left
  caught-IsIn id r q none_yet a =
      let first : (r.user.current_app_header.msg_type == 0) ≡ true = ground (arith, none_yet) in
      rw first (
        handshake-IsIn id _ (ap (word 2) (drop-plus 12 3 r.current_block) ∙ q.kind) q.over q.short
          (record { usable = a.usable; found = a.found; valid = a.valid }))

  handshakes-IsIn :
      (id : ℕ) (r : Reader (Session D))
      → IsLoginRequest r
      → r.user.current_app_header.msg_type ≡ 0
      → IsAccount database r id
      → IsIn id (deal_to_server_handshakes database r).0.user
  unfolding deal_to_server_handshakes
  handshakes-IsIn id r q none_yet a =
      let front : ltb r.current_header.data_length 5 ≡ false = ground (arith, q.has_front) in
      let complete : ltb r.current_message_size 17 ≡ false = ground (arith, q.there) in
      rw (front, complete) (caught-IsIn id r q none_yet a)

  to_server-IsIn :
      (id : ℕ) (r : Reader (Session D))
      → r.user.logged_in ≡ false
      → IsIn id (deal_to_server_handshakes database r).0.user
      → IsIn id (deal_to_server database r).user
  unfolding deal_to_server
  to_server-IsIn id r stranger h =
      let at_door : (not r.user.logged_in || not (own_node r.user).uuid_recieved) ≡ true =
        ground (arith, stranger) in
      rw at_door
        (IsIn-IsSame id _ _ (close_failed-IsSame database (deal_to_server_handshakes database r)) h)

  deal-IsIn :
      (id : ℕ) (r : Reader (Session D))
      → IsLoginRequest r
      → r.user.logged_in ≡ false
      → r.user.current_app_header.msg_type ≡ 0
      → IsAccount database r id
      → IsIn id (deal_current_message_block database r).user
  deal-IsIn id r q stranger none_yet a =
      let h = to_server-IsIn id r stranger (handshakes-IsIn id r q none_yet a) in
      let server : (r.current_header.destin_id == 1) ≡ true = ground (arith, q.destin) in
      let done : IsIn id (finish database (deal_to_server database r)).user = record {
        logged_in = finish_logged_in database (deal_to_server database r) ∙ h.logged_in;
        entered = finish-IsEntered database id (deal_to_server database r) h.entered;
      } in
      subst (λ x. IsIn id x.user) (sym (deal_at_server database r server)) done

-- The request of a login is a message to the server.
login_request_front :
    (user : ℕ) (password : Text)
    → (word 2 (login_request user password) ≡ 0x55AA)
      × ((header_of (login_request user password)).destin_id ≡ 1)
unfolding login_request trans_header bytes header_of word
login_request_front user password = (refl, refl)

length-login_request :
    (user : ℕ) (password : Text)
    → length (login_request user password) ≡ 22 + length (to_utf8 password)
unfolding login_request trans_header app_header bytes
length-login_request user password = omega (arith, length-append (to_utf8 password) (0 ∷ []))

login_request-IsMessage :
    (user : ℕ) (password : Text)
    → user < 2 ^ 32
    → IsAscii password
    → length password ≤ 65
    → IsMessage (login_request user password)
unfolding header_of
login_request-IsMessage user password small v short =
    let (named, pass, kind, size, fits) = login_request_read user password small v short in
    let len = length-login_request user password in
    record {
      marked = (login_request_front user password).0;
      whole = size;
      has_data = omega (arith, len);
      short = omega (arith, fits);
    }

module _ {D : Type 0} (database : Database D) where
  whole-IsLoginRequest :
      (user : ℕ) (password : Text) (s : Session D)
      → user < 2 ^ 32
      → IsAscii password
      → length password ≤ 65
      → IsLoginRequest database (whole (login_request user password) s)
  unfolding bytes_left
  whole-IsLoginRequest user password s small v short =
      let (named, pass, kind, size, fits) = login_request_read user password small v short in
      let len = length-login_request user password in
      record {
        kind = kind;
        over = omega (arith, size, fits);
        short = fits;
        there = omega (arith, len);
        has_front = omega (arith, size, len);
        destin = (login_request_front user password).1;
      }

  -- The client program asks for a login with a password of at most 65 characters, which are ASCII and
  -- not zero; the database is open and finds a row for the user, of 32 bits, with this password, and a valid id
  -- in its second column. The client is not logged in, and no message of the application has begun.
  -- When the request comes as one block, between two messages, reading it ends between two messages,
  -- and the client is logged in, with this id.
  pub login_enters :
      (user id : ℕ) (password : Text) (h : TransHeader) (s : Session D)
      → user < 2 ^ 32
      → IsAscii password
      → length password ≤ 65
      → s.logged_in ≡ false
      → s.current_app_header.msg_type ≡ 0
      → (database.connect s.db).1 ≡ true
      → (database.find_user user password (database.connect s.db).0).1 ≡ row (some id)
      → is_valid_user_id id ≡ true
      → (r' : Reader (Session D)) × (filter_message
            (deal_current_message_block database)
            heart_beat
            reject
            (login_request user password)
            0
            (idle_reader h s)
          ≡ finished r' [])
        × (r'.current_message_size ≡ 0)
        × (r'.current_block ≡ [])
        × (r'.user.logged_in ≡ true)
        × ((own_node r'.user).uuid_recieved ≡ true)
        × ((own_node r'.user).uuid ≡ id)
  unfolding start_new
  login_enters user id password h s small v short stranger none_yet usable found valid =
      let m = login_request user password in
      let (named, pass, kind, size, fits) = login_request_read user password small v short in
      let account : IsAccount database (whole m s) id = record {
        usable = usable;
        found =
            ap (λ u. (database.find_user u (login_password m) (database.connect s.db).0).1) named
            ∙ ap (λ p. (database.find_user user p (database.connect s.db).0).1) pass
            ∙ found;
        valid = valid;
      } in
      let is_in =
        deal-IsIn database id (whole m s) (whole-IsLoginRequest user password s small v short)
          stranger none_yet account in
      (
        start_new (deal_current_message_block database (whole m s)),
        whole_message_dealt (deal_current_message_block database) heart_beat reject m h s
            (login_request-IsMessage user password small v short),
        refl,
        refl,
        is_in.logged_in,
        is_in.entered.known,
        is_in.entered.same_id,
      )

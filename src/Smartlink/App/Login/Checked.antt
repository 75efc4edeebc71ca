-- ===== src/Smartlink/App/Login/Checked.antt =====
-- The messages that lead to a login (smartlink/st_clientnode_applayer.cpp).
use zpserver.Common.{
  ℕ, ◌≡◌, refl, ap, ◌∙◌, ◌⊎◌, inl, inr, Bool, true, false, not, ◌||◌, arith, ltb, ◌==◌, Bool-cases,
  ==→eq,
}
use zpserver.Smartlink.Table.{emit}
use zpserver.Smartlink.Frame.{Reader, bytes_left, is_positive}
use zpserver.Smartlink.Session.{
  AppHeader, Session, own_node, emit_event, say, clear_block, base_deal,
}
use zpserver.Smartlink.App.{Database}
use zpserver.Smartlink.App.Requests.{login_client}
use zpserver.Smartlink.App.Dispatch.{
  catch_header, broken, cleared, when_complete, handshake, deal_to_server_handshakes,
  deal_to_server, deal_to_client, reset_type, deal_current_message_block,
}
use zpserver.Smartlink.App.Login.{
  IsAccount, IsSame, reset_type-IsSame, deal_to_client-IsSame, base_deal-IsSame,
  base_deal_logged_in, close_failed-IsSame, IsEntered, IsEntered-IsSame, login_client-IsChecked,
}

module _ {D : Type 0} (database : Database D) where
  broken-IsSame : (r : Reader (Session D)) → IsSame r.user (broken r).0.user
  unfolding broken say clear_block emit_event emit
  broken-IsSame r = record { logged_in = refl; node = refl }

  -- A login that takes place has its whole message.
  abbrev IsComplete : Reader (Session D) → Session D → Type 0
  IsComplete r s =
      (s.logged_in ≡ r.user.logged_in)
      ⊎ ((is_positive (bytes_left r) ≡ false)
          × (id : ℕ) × IsAccount database r id
          × IsEntered database id s)

  IsComplete-IsSame :
      (r : Reader (Session D)) (s u : Session D) → IsSame s u → IsComplete r s → IsComplete r u
  IsComplete-IsSame r s u p (inl e) = inl (p.logged_in ∙ e)
  IsComplete-IsSame r s u p (inr (whole, id, account, entered)) =
      inr (whole, id, account, IsEntered-IsSame database id s u p entered)

  login-IsComplete :
      (right_size : Bool) (r : Reader (Session D))
      → IsComplete r (when_complete right_size r (login_client database)).0.user
  unfolding when_complete cleared clear_block
  login-IsComplete right_size r = elim (Bool-cases (is_positive (bytes_left r))) [
    | inl waits ↦ inl (rw waits refl)
    | inr whole ↦ elim (Bool-cases right_size) [
      | inr wrong ↦ inl (rw (whole, wrong) (broken-IsSame r).logged_in)
      | inl right ↦ elim (login_client-IsChecked database r) [
        | inl same ↦ inl (rw (whole, right) same)
        | inr (id, account, entered) ↦ inr (
          whole,
          id,
          account,
          rw (whole, right)
              (IsEntered-IsSame database id _ _ (record { logged_in = refl; node = refl }) entered),
        )
      ]
    ]
  ]

  handshake-IsComplete : (r : Reader (Session D)) → IsComplete r (handshake database r).0.user
  unfolding handshake
  handshake-IsComplete r = elim (Bool-cases (r.user.current_app_header.msg_type == 0x0001)) [
    | inl login ↦ rw login (login-IsComplete (not (ltb 88 r.current_message_size)) r)
    | inr other ↦ rw other (inl (broken-IsSame r).logged_in)
  ]

  same_request :
      (r : Reader (Session D)) (h : AppHeader) (s : Session D)
      → IsComplete (record r { user = record r.user { current_app_header = h } }) s
      → IsComplete r s
  unfolding bytes_left
  same_request r h s (inl e) = inl e
  same_request r h s (inr (whole, id, account, entered)) = inr (
    whole,
    id,
    record { usable = account.usable; found = account.found; valid = account.valid },
    entered,
  )

  catch_header-IsComplete :
      (r : Reader (Session D)) → IsComplete r (handshake database (catch_header r)).0.user
  unfolding catch_header
  catch_header-IsComplete r = elim (Bool-cases (r.user.current_app_header.msg_type == 0)) [
    | inr caught ↦ rw caught (handshake-IsComplete r)
    | inl first ↦ rw first (same_request r _ _ (handshake-IsComplete _))
  ]

  handshakes-IsComplete :
      (r : Reader (Session D)) → IsComplete r (deal_to_server_handshakes database r).0.user
  unfolding deal_to_server_handshakes
  handshakes-IsComplete r = elim (Bool-cases (ltb r.current_header.data_length 5)) [
    | inl short ↦ inl (rw short refl)
    | inr fits ↦ elim (Bool-cases (ltb r.current_message_size 17)) [
      | inl waits ↦ inl (rw (fits, waits) refl)
      | inr there ↦ rw (fits, there) (catch_header-IsComplete r)
    ]
  ]

  to_server-IsComplete :
      (r : Reader (Session D))
      → r.user.logged_in ≡ false
      → IsComplete r (deal_to_server database r).user
  unfolding deal_to_server
  to_server-IsComplete r stranger =
      let handshaken =
        IsComplete-IsSame r _ _
          (close_failed-IsSame database (deal_to_server_handshakes database r))
          (handshakes-IsComplete r) in
      let at_door : (not r.user.logged_in || not (own_node r.user).uuid_recieved) ≡ true =
        ground (arith, stranger) in
      rw at_door handshaken

  -- What comes after the message was dealt.
  pub finish : Reader (Session D) → Reader (Session D)
  finish r = base_deal (reset_type r)

  pub finish_logged_in : (r : Reader (Session D)) → (finish r).user.logged_in ≡ r.user.logged_in
  unfolding finish
  finish_logged_in r = base_deal_logged_in (reset_type r) ∙ (reset_type-IsSame r).logged_in

  pub finish-IsEntered :
      (id : ℕ) (r : Reader (Session D))
      → IsEntered database id r.user
      → IsEntered database id (finish r).user
  unfolding finish
  finish-IsEntered id r e =
      let reset = IsEntered-IsSame database id _ _ (reset_type-IsSame r) e in
      IsEntered-IsSame database id _ _ (base_deal-IsSame (reset_type r) reset.known) reset

  pub deal_at_server :
      (r : Reader (Session D))
      → (r.current_header.destin_id == 1) ≡ true
      → deal_current_message_block database r ≡ finish (deal_to_server database r)
  unfolding deal_current_message_block finish
  deal_at_server r e = rw e refl

  deal_elsewhere :
      (r : Reader (Session D))
      → (r.current_header.destin_id == 1) ≡ false
      → deal_current_message_block database r ≡ finish (deal_to_client r)
  unfolding deal_current_message_block finish
  deal_elsewhere r e = rw e refl

  -- A client that is not logged in is logged in by a message only if this is to the server, is there
  -- as a whole, and names a user whose row the database finds with the password in it; the
  -- client's id is then the valid one that the row gave.
  pub login_checked :
      (r : Reader (Session D))
      → r.user.logged_in ≡ false
      → (deal_current_message_block database r).user.logged_in ≡ true
      → (r.current_header.destin_id ≡ 1)
        × (is_positive (bytes_left r) ≡ false)
        × (id : ℕ) × IsAccount database r id
        × ((own_node (deal_current_message_block database r).user).uuid_recieved ≡ true)
        × ((own_node (deal_current_message_block database r).user).uuid ≡ id)
  login_checked r stranger entered = elim (Bool-cases (r.current_header.destin_id == 1)) [
    | inr other ↦
        let same : (deal_current_message_block database r).user.logged_in ≡ false =
          ap (λ x. x.user.logged_in) (deal_elsewhere r other)
          ∙ finish_logged_in (deal_to_client r)
          ∙ (deal_to_client-IsSame r).logged_in
          ∙ stranger in
        absurd (ground (arith, same, entered))
    | inl server ↦
        let deal = deal_at_server r server in
        let dealt =
          ap (λ x. x.user.logged_in) deal ∙ finish_logged_in (deal_to_server database r) in
        elim (to_server-IsComplete r stranger) [
          | inl same ↦ absurd (ground (arith, dealt, same, stranger, entered))
          | inr (whole, id, account, is) ↦
              let e = finish-IsEntered id (deal_to_server database r) is in
              (
                ==→eq r.current_header.destin_id 1 server,
                whole,
                id,
                account,
                ap (λ x. (own_node x.user).uuid_recieved) deal ∙ e.known,
                ap (λ x. (own_node x.user).uuid) deal ∙ e.same_id,
              )
        ]
  ]

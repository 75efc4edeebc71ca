-- ===== src/Client/Replies.antt =====
-- FunctionalClientTest/maindialog.cpp, `MainDialog::deal_current_message_block`: what the client does
-- with a message. Bytes that the code reads from past the end of a message are zeros here.
use zpserver.Common.{
  ℕ, zero, suc, Bool, true, List, [], ◌∷◌, ◌++◌, ◌==◌, if◌then◌else◌, take, drop, word,
}
use zpserver.Smartlink.Frame.{Reader, bytes_left}

-- What the window shows, and `abort` of the connection. Log lines are `line`, the ids of a download
-- are numbers.
pub data Shown : Type 0 where
  login_succeed login_failed upload_succeed upload_failed download_failed logout_succeed line
        abort :
      Shown
  redirect : List ℕ → ℕ → Shown
  users text : List ℕ → Shown

pub record Window : Type 0 where
  pub loged_in : Bool
  pub shown : List Shown

unfoldable pub show : Shown → Reader Window → Reader Window
show x r = record r { user = record r.user { shown = r.user.shown ++ x ∷ [] } }

unfoldable pub log_in : Reader Window → Reader Window
log_in r = record r { user = record r.user { loged_in = true } }

-- pUserIDList
unfoldable pub user_id_list : ℕ → List ℕ → List ℕ
user_id_list zero bs = []
user_id_list (suc n) bs = word 4 bs ∷ user_id_list n (drop 4 bs)

-- The reply to a login
unfoldable pub login_replied : List ℕ → Reader Window → Reader Window
login_replied body r =
    let code = word 1 body in
    show line (
      if code == 0
      then show login_succeed (log_in r)
      else if code == 1
      then show (redirect (take 64 (drop 5 body)) (word 2 (drop 69 body))) (log_in r)
      else show login_failed r)

-- The replies to an upload, a download and a logout
unfoldable pub upload_replied : List ℕ → Reader Window → Reader Window
upload_replied body r =
    show line (if word 1 body == 0 then show upload_succeed r else show upload_failed r)

unfoldable pub download_replied : List ℕ → Reader Window → Reader Window
download_replied body r = show line (
    if word 1 body == 0
    then show (users (user_id_list (word 2 (drop 1 body)) (drop 3 body))) r
    else show download_failed r)

unfoldable pub logout_replied : List ℕ → Reader Window → Reader Window
logout_replied body r = if word 1 body == 0 then show logout_succeed r else show download_failed r

-- A whole message, by its type
unfoldable pub deal_message : Reader Window → Reader Window
deal_message r =
    let kind = word 2 (drop 15 r.current_block) in
    let body = drop 17 r.current_block in
    if kind == 0x7FFE
    then login_replied body r
    else if kind == 0x7FFC
    then upload_replied body r
    else if kind == 0x7FFB
    then download_replied body r
    else if kind == 0x7FFD
    then logout_replied body r
    else show (text (take r.current_header.data_length (drop 12 r.current_block))) r

-- deal_current_message_block
unfoldable pub deal_current_message_block : Reader Window → Reader Window
deal_current_message_block r =
    if bytes_left r == 0 then record (deal_message r) { current_block = [] } else r

-- A heart beat, and a mark that is not known, in filter_message
unfoldable pub heart_beat : Reader Window → Reader Window
heart_beat r = show line r

unfoldable pub reject : Reader Window → Reader Window
reject r = show abort (record (show line r) { current_message_size = 0; current_block = [] })

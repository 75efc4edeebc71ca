-- ===== src/Client/RoundTrip.antt =====
-- What the client program (FunctionalClientTest) writes, the server's application layer reads, and
-- the other way round.
use zpserver.Common.{
  ℕ, zero, suc, ◌+◌, ◌*◌, ◌^◌, ◌≤◌, ◌<◌, ◌≡◌, refl, ap, ◌∙◌, min, true, false, List, [], ◌∷◌, ◌++◌,
  arith, ◌==◌, if◌then◌else◌, length, drop, word, bytes, word-bytes, Text, to_utf8, IsAscii,
  to_utf8-IsAscii, length-append, append_assoc,
}
use zpserver.Common.Utf8.RoundTrip.{NoNul}
use zpserver.Smartlink.Table.{is_valid_user_id}
use zpserver.Smartlink.Frame.{TransHeader, Reader, header_of, bytes_left}
use zpserver.Smartlink.App.{insert_rows, set_insert}
use zpserver.Smartlink.App.Requests.{
  reply_msg, password_of, login_user, login_password, insert_ids, upload_user_num, id_bytes,
  download_rsp,
}
use zpserver.Smartlink.App.Download.{
  AreIds, length-id_bytes, drop-bytes, reply_parts, download_rsp_whole,
}
use zpserver.Client.Requests.{trans_header, app_header, login_request, upload_request}
use zpserver.Client.Replies.{
  Window, users, line, show, user_id_list, download_replied, deal_message,
  deal_current_message_block,
}

pub password_of_lem :
    (n : ℕ) (cs : List ℕ) → NoNul cs → length cs ≤ n → password_of n (cs ++ 0 ∷ []) ≡ cs
unfolding password_of
password_of_lem zero [] v h = refl
password_of_lem (suc n) [] v h = refl
password_of_lem zero (c ∷ cs) v h = absurd (omega arith)
password_of_lem (suc n) (c ∷ cs) (v, vs) h =
    let go_on : (c == 0) ≡ false = ground (arith, v) in
    rw (go_on, password_of_lem n cs vs (omega arith)) refl

NoNul-IsAscii : (s : Text) → IsAscii s → NoNul s
NoNul-IsAscii [] a = tt
NoNul-IsAscii (c ∷ s) (pos, small, a) = (omega arith, NoNul-IsAscii s a)

-- The request of a login of a user of 32 bits, with a password of at most 65 characters, which are
-- ASCII and not zero: the server reads the user's id and the password from it, its type is that of a login, the
-- length in its front is its own, and it is not longer than the server takes.
pub login_request_read :
    (user : ℕ) (password : Text)
    → user < 2 ^ 32
    → IsAscii password
    → length password ≤ 65
    → (login_user (login_request user password) ≡ user)
      × (login_password (login_request user password) ≡ password)
      × (word 2 (drop 15 (login_request user password)) ≡ 0x0001)
      × (length (login_request user password)
          ≡ 12 + (header_of (login_request user password)).data_length)
      × (length (login_request user password) ≤ 88)
unfolding login_user login_password login_request trans_header app_header header_of bytes word
login_request_read user password small v short =
    let ascii = to_utf8-IsAscii password v in
    let size : length (to_utf8 password ++ 0 ∷ []) ≡ suc (length password) =
      ap (λ p. length (p ++ 0 ∷ [])) ascii ∙ omega (arith, length-append password (0 ∷ [])) in
    let src_size = ap length ascii in
    (
      word-bytes 4 user (to_utf8 password ++ 0 ∷ []) small,
      ap (λ p. password_of 65 (p ++ 0 ∷ [])) ascii
          ∙ password_of_lem 65 password (NoNul-IsAscii password v) short,
      refl,
      omega (arith, short, size, src_size),
      omega (arith, short, size),
    )

valid_small : (u : ℕ) → is_valid_user_id u ≡ true → u < 2 ^ 32
unfolding is_valid_user_id
valid_small u v = ground (arith, v)

-- Valid ids
abbrev pub AreValid : List ℕ → Type 0
AreValid [] = Unit {0}
AreValid (u ∷ us) = (is_valid_user_id u ≡ true) × AreValid us

abbrev add_valid : ℕ → List ℕ → List ℕ
add_valid id known = if is_valid_user_id id then set_insert id known else known

insert_ids-suc :
    (n : ℕ) (bs known : List ℕ)
    → insert_ids (suc n) bs known ≡ insert_ids n (drop 4 bs) (add_valid (word 4 bs) known)
unfolding insert_ids
insert_ids-suc n bs known = refl

insert_ids-id_bytes :
    (us known : List ℕ)
    → AreValid us
    → insert_ids (length us) (id_bytes us) known ≡ insert_rows us known
unfolding insert_ids id_bytes insert_rows
insert_ids-id_bytes [] known v = refl
insert_ids-id_bytes (u ∷ us) known (valid, v) =
    let small : u < 256 ^ 4 = valid_small u valid in
    let read : word 4 (bytes 4 u ++ id_bytes us) ≡ u = word-bytes 4 u (id_bytes us) small in
    insert_ids-suc (length us) (bytes 4 u ++ id_bytes us) known
    ∙ ap (λ x. insert_ids (length us) (drop 4 (bytes 4 u ++ id_bytes us)) (add_valid x known)) read
    ∙ ap (λ bs. insert_ids (length us) bs (add_valid u known)) (drop-bytes u (id_bytes us))
    ∙ ap (insert_ids (length us) (id_bytes us))
        (ap (λ b. if b then set_insert u known else known) valid)
    ∙ insert_ids-id_bytes us (set_insert u known) v

-- The request of an upload of at most 4096 valid ids: the server reads their number, finds the size,
-- the length in its front and the type right, and adds to the relations just these ids, in their
-- order.
pub upload_request_read :
    (user : ℕ) (ids known : List ℕ)
    → AreValid ids
    → length ids ≤ 4096
    → (upload_user_num (upload_request user ids) ≡ length ids)
      × (length (upload_request user ids) ≡ 19 + 4 * length ids)
      × (length (upload_request user ids) ≡ 12 + (header_of (upload_request user ids)).data_length)
      × (word 2 (drop 15 (upload_request user ids)) ≡ 0x1003)
      × (insert_ids
            (min (upload_user_num (upload_request user ids)) 4096)
            (drop 19 (upload_request user ids))
            known
          ≡ insert_rows ids known)
unfolding upload_user_num upload_request trans_header app_header header_of bytes word
upload_request_read user ids known v few =
    let num : word 2 (bytes 2 (length ids) ++ id_bytes ids) ≡ length ids =
      word-bytes 2 (length ids) (id_bytes ids) (omega arith) in
    let num_read : min (word 2 (bytes 2 (length ids) ++ id_bytes ids)) 4096 ≡ length ids =
      omega (arith, num, few) in
    (
      num,
      omega (arith, length-id_bytes ids),
      omega (arith, few, length-id_bytes ids),
      refl,
      ap (λ n. insert_ids n (id_bytes ids) known) num_read ∙ insert_ids-id_bytes ids known v,
    )

user_id_list-id_bytes : (us : List ℕ) → AreIds us → user_id_list (length us) (id_bytes us) ≡ us
unfolding user_id_list id_bytes
user_id_list-id_bytes [] v = refl
user_id_list-id_bytes (u ∷ us) (small, v) =
    rw (word-bytes 4 u (id_bytes us) small, drop-bytes u (id_bytes us), user_id_list-id_bytes us v)
      refl

-- The reply of the server to a download, as the client gets it.
abbrev pub download_reply : TransHeader → List ℕ → List ℕ
download_reply h ids = reply_msg h (8 + 4 * length ids) 0x7FFB (download_rsp 0 ids)

rsp_length :
    (ids : List ℕ) → length (0 ∷ (bytes 2 (length ids) ++ id_bytes ids)) ≡ 3 + 4 * length ids
unfolding bytes
rsp_length ids = omega (arith, length-id_bytes ids)

drop-bytes2 : (n : ℕ) (rest : List ℕ) → drop 2 (bytes 2 n ++ rest) ≡ rest
unfolding bytes
drop-bytes2 n rest = refl

nothing_left :
    (h : TransHeader) (ids : List ℕ) (r : Reader Window)
    → length ids ≤ 16381
    → r.current_message_size ≡ length (download_reply h ids)
    → r.current_header ≡ header_of (download_reply h ids)
    → bytes_left r ≡ 0
unfolding bytes_left header_of
nothing_left h ids r fits size header =
    let (len, data_length, kind, body) =
      reply_parts h (8 + 4 * length ids) (download_rsp 0 ids) (omega arith) in
    let body_length : length (download_rsp 0 ids) ≡ 3 + 4 * length ids =
      ap length (download_rsp_whole 0 ids fits) ∙ rsp_length ids in
    let has : r.current_header.data_length ≡ 8 + 4 * length ids =
      ap (λ g. g.data_length) header ∙ data_length in
    omega (arith, size, len, body_length, has)

deal_whole :
    (r : Reader Window)
    → bytes_left r ≡ 0
    → (deal_current_message_block r).user ≡ (deal_message r).user
unfolding deal_current_message_block
deal_whole r e = ground (arith, e)

deal_message_download :
    (r : Reader Window)
    → word 2 (drop 15 r.current_block) ≡ 0x7FFB
    → deal_message r ≡ download_replied (drop 17 r.current_block) r
unfolding deal_message
deal_message_download r e = rw e refl

download_replied_lem :
    (ids : List ℕ) (r : Reader Window)
    → AreIds ids
    → length ids ≤ 16381
    → (download_replied (0 ∷ (bytes 2 (length ids) ++ id_bytes ids)) r).user.shown
      ≡ r.user.shown ++ users ids ∷ line ∷ []
unfolding download_replied show word
download_replied_lem ids r v fits =
    let num : word 2 (bytes 2 (length ids) ++ id_bytes ids) ≡ length ids =
      word-bytes 2 (length ids) (id_bytes ids) (omega arith) in
    let shown = user_id_list-id_bytes ids v in
    let rest = drop-bytes2 (length ids) (id_bytes ids) in
    append_assoc r.user.shown _ _
    ∙ ap (λ us. r.user.shown ++ users us ∷ line ∷ [])
        (ap (λ n. user_id_list n (drop 2 (bytes 2 (length ids) ++ id_bytes ids))) num
          ∙ ap (user_id_list (length ids)) rest
          ∙ shown)

-- The reply to a download of at most 16381 ids of 32 bits, when the client has all of it: the client
-- shows just these ids, in their order.
pub download_shown :
    (h : TransHeader) (ids : List ℕ) (r : Reader Window)
    → AreIds ids
    → length ids ≤ 16381
    → r.current_block ≡ download_reply h ids
    → r.current_message_size ≡ length (download_reply h ids)
    → r.current_header ≡ header_of (download_reply h ids)
    → (deal_current_message_block r).user.shown ≡ r.user.shown ++ users ids ∷ line ∷ []
download_shown h ids r v fits block size header =
    let (len, data_length, kind, body) =
      reply_parts h (8 + 4 * length ids) (download_rsp 0 ids) (omega arith) in
    let is_download : word 2 (drop 15 r.current_block) ≡ 0x7FFB =
      ap (λ b. word 2 (drop 15 b)) block ∙ kind in
    let body_is : drop 17 r.current_block ≡ 0 ∷ (bytes 2 (length ids) ++ id_bytes ids) =
      ap (drop 17) block ∙ body ∙ download_rsp_whole 0 ids fits in
    ap (λ w. w.shown) (deal_whole r (nothing_left h ids r fits size header))
    ∙ ap (λ x. x.user.shown) (deal_message_download r is_download)
    ∙ ap (λ b. (download_replied b r).user.shown) body_is
    ∙ download_replied_lem ids r v fits

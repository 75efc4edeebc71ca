-- ===== src/Smartlink/App/Download.antt =====
-- The reply of Box2Svr_DownloadUserTable (smartlink/st_clientnode_app_imp.cpp), read back.
use zpserver.Common.{
  ℕ, ◌+◌, ◌*◌, ◌%◌, ◌^◌, ◌≤◌, ◌<◌, ◌≡◌, refl, sym, ◌∙◌, Bool, true, false, List, [], ◌∷◌, ◌++◌,
  arith, ltb, if◌then◌else◌, length, take, drop, word, bytes, length-bytes, length-append,
  length-take, take_full, min, inl, inr, Bool-cases, ltb→lt, lt→ltb, le→ltb,
}
use zpserver.Cluster.State.{send_data}
use zpserver.Smartlink.Table.{emit}
use zpserver.Smartlink.Frame.{TransHeader, Reader}
use zpserver.Smartlink.Session.{Session, own_node, reply, emit_event}
use zpserver.Smartlink.App.Requests.{reply_msg, id_bytes, download_rsp, send_user_table}

-- Ids of 32 bits
abbrev pub AreIds : List ℕ → Type 0
AreIds [] = Unit {0}
AreIds (u ∷ us) = (u < 2 ^ 32) × AreIds us

pub length-id_bytes : (us : List ℕ) → length (id_bytes us) ≡ 4 * length us
unfolding id_bytes
length-id_bytes [] = refl
length-id_bytes (u ∷ us) =
    omega (arith, length-append (bytes 4 u) (id_bytes us), length-bytes 4 u, length-id_bytes us)

pub drop-bytes : (u : ℕ) (rest : List ℕ) → drop 4 (bytes 4 u ++ rest) ≡ rest
unfolding bytes
drop-bytes u rest = refl

pub reply_parts :
    (h : TransHeader) (size : ℕ) (body : List ℕ)
    → size < 2 ^ 16
    → (length (reply_msg h size 0x7FFB body) ≡ 17 + length body)
      × (word 2 (drop 10 (reply_msg h size 0x7FFB body)) ≡ size)
      × (word 2 (drop 15 (reply_msg h size 0x7FFB body)) ≡ 0x7FFB)
      × (drop 17 (reply_msg h size 0x7FFB body) ≡ body)
unfolding reply_msg bytes word
reply_parts h size body small = (omega arith, omega arith, refl, refl)

-- The ids that fit a reply.
pub download_rsp_whole :
    (code : ℕ) (ids : List ℕ)
    → length ids ≤ 16381
    → download_rsp code ids ≡ code ∷ (bytes 2 (length ids) ++ id_bytes ids)
unfolding download_rsp
download_rsp_whole code ids fits =
    let all : take 32768 ids ≡ ids = take_full 32768 ids (omega arith) in rw all refl

length-download_rsp :
    (code : ℕ) (ids : List ℕ) → 3 + 4 * length (take 32768 ids) ≡ length (download_rsp code ids)
unfolding download_rsp bytes
length-download_rsp code ids = omega (arith, length-id_bytes (take 32768 ids))

true_or : (b : Bool) → (if b then true else false) ≡ b
true_or true = refl
true_or false = refl

-- What is written, against the room for it.
room :
    (n written : ℕ)
    → written ≡ min 32768 n
    → ltb (12 + (8 + 4 * n) % 2 ^ 16) (17 + (3 + 4 * written)) ≡ ltb 16381 n
room n written e = elim (Bool-cases (ltb 16381 n)) [
  | inl many ↦
      let more : 16381 < n = ltb→lt 16381 n many in lt→ltb _ _ (omega (arith, more, e)) ∙ sym many
  | inr few ↦
      let fits : n ≤ 16381 = ground (arith, few) in le→ltb _ _ (omega (arith, fits, e)) ∙ sym few
]

module _ {D : Type 0} where
  -- The reply to a download of ids that fit its 16 bits of length: all of it is sent.
  pub send_user_table_whole :
      (ids : List ℕ) (code : ℕ) (r : Reader (Session D))
      → length ids ≤ 16381
      → (send_user_table ids code r).user.table.events
        ≡ r.user.table.events
          ++ send_data
              (own_node r.user).sock
              (reply_msg r.current_header (8 + 4 * length ids) 0x7FFB (download_rsp code ids))
            ∷ []
  unfolding send_user_table reply emit_event emit
  send_user_table_whole ids code r fits =
      let size : (8 + 4 * length ids) % 2 ^ 16 ≡ 8 + 4 * length ids = omega arith in
      let body : length (download_rsp code ids) ≡ 3 + 4 * length ids =
        omega (arith, length-download_rsp code ids, length-take 32768 ids) in
      let array = reply_msg r.current_header (8 + 4 * length ids) 0x7FFB (download_rsp code ids) in
      let len : length array ≤ 12 + (8 + 4 * length ids) = omega (
        arith,
        body,
        (reply_parts r.current_header (8 + 4 * length ids) (download_rsp code ids) (omega arith)).0,
      ) in
      let all : take (12 + (8 + 4 * length ids)) array ≡ array = take_full _ array len in
      rw (size, all) refl

  -- When nothing was written past an array before: the reply to a download is written past the end of
  -- the array that was made for it exactly if there are more than 16381 ids.
  pub send_user_table_overrun :
      (ids : List ℕ) (code : ℕ) (r : Reader (Session D))
      → r.user.overrun ≡ false
      → (send_user_table ids code r).user.overrun ≡ ltb 16381 (length ids)
  unfolding send_user_table reply emit_event emit
  send_user_table_overrun ids code r none_yet =
      let over = room (length ids) (length (take 32768 ids)) (length-take 32768 ids) in
      rw (← length-download_rsp code ids, over, none_yet) (true_or (ltb 16381 (length ids)))

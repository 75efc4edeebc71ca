-- ===== src/Smartlink/Cross/Pieces.antt =====
-- The pieces in which st_cross_svr_node::deal_user_data gets its messages.
use zpserver.Common.{
  ℕ, suc, ◌+◌, ◌-◌, ◌≤◌, ◌<◌, ◌≡◌, refl, ap, Bool, true, false, ◌||◌, min, some, List, [], ◌∷◌,
  ◌++◌, arith, ltb, leb, ◌==◌, length, take, drop, word, Text,
}
use zpserver.Smartlink.Table.{Table, send_to_node}
use zpserver.Smartlink.Cross.{
  MsgHeader, CrossNode, no_uuid, copy, load_header, find_destin, transfer, deal_msg, clear_block,
  take_header, take_payload, finish_round, round, deal_user_data,
}

-- The header of a message of type 0x03 with the four bytes of its length.
abbrev pub data_header : ℕ → ℕ → ℕ → ℕ → List ℕ
data_header l0 l1 l2 l3 = 0x67 ∷ 0x45 ∷ 1 ∷ 0 ∷ 3 ∷ l0 ∷ l1 ∷ l2 ∷ l3 ∷ []

abbrev pub loaded : MsgHeader → ℕ → ℕ → ℕ → ℕ → MsgHeader
loaded h l0 l1 l2 l3 = record {
  mark = 0x4567;
  version = 1;
  mesage_type = 3;
  message_len = word 4 (l0 ∷ l1 ∷ l2 ∷ l3 ∷ []);
}

take_all : (xs : List ℕ) → take (length xs) xs ≡ xs
take_all [] = refl
take_all (x ∷ xs) = ap (λ k. x ∷ k) (take_all xs)

drop_all : (xs : List ℕ) → drop (length xs) xs ≡ []
drop_all [] = refl
drop_all (x ∷ xs) = drop_all xs

-- The node between two messages.
abbrev pub between : MsgHeader → Table → CrossNode
between h t = record {
  curr_st_meg_size = 0;
  curr_st_block = [];
  st_header = h;
  destin_uuid = no_uuid;
  table = t;
}

-- The node with the header and all of the piece.
abbrev with_piece : MsgHeader → List ℕ → ℕ → ℕ → ℕ → ℕ → Table → CrossNode
with_piece h ys l0 l1 l2 l3 t = record {
  curr_st_meg_size = 9 + length ys;
  curr_st_block = data_header l0 l1 l2 l3 ++ ys;
  st_header = loaded h l0 l1 l2 l3;
  destin_uuid = no_uuid;
  table = t;
}

header_taken :
    (h : MsgHeader) (ys : List ℕ) (l0 l1 l2 l3 : ℕ) (t : Table)
    → take_header (between h t) (data_header l0 l1 l2 l3 ++ ys) ≡ (
      record {
        curr_st_meg_size = 9;
        curr_st_block = data_header l0 l1 l2 l3;
        st_header = h;
        destin_uuid = no_uuid;
        table = t;
      },
      ys,
    )
unfolding take_header copy
header_taken h ys l0 l1 l2 l3 t =
    let nine : min (length (data_header l0 l1 l2 l3 ++ ys)) (9 - 0) ≡ 9 = omega arith in
    rw nine refl

payload_taken :
    (h : MsgHeader) (ys : List ℕ) (l0 l1 l2 l3 : ℕ) (t : Table)
    → 12 ≤ length ys
    → length ys < word 4 (l0 ∷ l1 ∷ l2 ∷ l3 ∷ [])
    → take_payload
        (record {
          curr_st_meg_size = 9;
          curr_st_block = data_header l0 l1 l2 l3;
          st_header = loaded h l0 l1 l2 l3;
          destin_uuid = no_uuid;
          table = t;
        })
        ys
      ≡ (with_piece h ys l0 l1 l2 l3 t, [])
unfolding take_payload copy
payload_taken h [] l0 l1 l2 l3 t long missing = absurd (omega arith)
payload_taken h (y ∷ ys) l0 l1 l2 l3 t long missing =
    let len = word 4 (l0 ∷ l1 ∷ l2 ∷ l3 ∷ []) in
    let all : min (length (y ∷ ys)) (len + 9 - 9) ≡ length (y ∷ ys) = omega (arith, missing) in
    let short : ltb 9 (len + 9) ≡ true = ground (arith, missing) in
    rw (short, all, take_all (y ∷ ys), drop_all (y ∷ ys)) refl

-- The piece is passed on, and the node is as if the message were over.
piece_dealt :
    (name : Text) (h : MsgHeader) (ys : List ℕ) (l0 l1 l2 l3 : ℕ) (t : Table)
    → 12 ≤ length ys
    → (word 4 (drop 6 ys) == no_uuid) ≡ false
    → finish_round name (with_piece h ys l0 l1 l2 l3 t)
      ≡ between (loaded h l0 l1 l2 l3) (send_to_node (word 4 (drop 6 ys)) ys t).0
unfolding finish_round deal_msg transfer find_destin clear_block
piece_dealt name h ys l0 l1 l2 l3 t long known =
    let there : leb 21 (9 + length ys) ≡ true = ground arith in
    let whole : ((9 + length ys) == length (data_header l0 l1 l2 l3 ++ ys)) ≡ true = ground arith in
    let either_way : (b : Bool) → (b || true) ≡ true = λ b. ground arith in
    rw (there, known, whole, either_way) refl

first_round :
    (name : Text) (h : MsgHeader) (ys : List ℕ) (l0 l1 l2 l3 : ℕ) (t : Table)
    → 12 ≤ length ys
    → length ys < word 4 (l0 ∷ l1 ∷ l2 ∷ l3 ∷ [])
    → (word 4 (drop 6 ys) == no_uuid) ≡ false
    → round name (between h t) (data_header l0 l1 l2 l3 ++ ys)
      ≡ (between (loaded h l0 l1 l2 l3) (send_to_node (word 4 (drop 6 ys)) ys t).0, some [])
unfolding round load_header word
first_round name h ys l0 l1 l2 l3 t long missing known =
    rw (header_taken h ys l0 l1 l2 l3 t, payload_taken h ys l0 l1 l2 l3 t long missing)
      (ap (λ k. (k, some [])) (piece_dealt name h ys l0 l1 l2 l3 t long known))

-- The first piece of a data message, which holds the header of the message inside, with an id of a
-- client other than 0xffffffff in it, and is not the whole message: it is passed on to the client that it is for, and then the node is where it is
-- between two messages, although bytes of this one are missing.
pub piece_ends_message :
    (name : Text) (h : MsgHeader) (ys : List ℕ) (l0 l1 l2 l3 fuel : ℕ) (t : Table)
    → 12 ≤ length ys
    → length ys < word 4 (l0 ∷ l1 ∷ l2 ∷ l3 ∷ [])
    → (word 4 (drop 6 ys) == no_uuid) ≡ false
    → deal_user_data (2 + fuel) name (between h t) (data_header l0 l1 l2 l3 ++ ys)
      ≡ some (between (loaded h l0 l1 l2 l3) (send_to_node (word 4 (drop 6 ys)) ys t).0, true)
unfolding deal_user_data
piece_ends_message name h ys l0 l1 l2 l3 fuel t long missing known =
    let two : 2 + fuel ≡ suc (suc fuel) = omega arith in
    let dealt = first_round name h ys l0 l1 l2 l3 t long missing known in
    rw two (rw (dealt, deal_user_data) (ap (λ k. some (k.0, true)) dealt))

-- ===== src/Smartlink/Session/HeartBeat.antt =====
-- Heart beats of a client, whole in a block and split over two.
use zpserver.Common.{
  ℕ, suc, ◌+◌, ◌<◌, ◌≤◌, ◌≡◌, refl, ap, ◌∙◌, ◌⊎◌, inl, inr, Bool, true, false, some, none, ◌==◌,
  lookup, insert, lookup-insert, nat_key, Bool-cases, List, [], ◌∷◌, ◌++◌, arith, ltb, length, word,
}
use zpserver.Cluster.State.{send_data}
use zpserver.Smartlink.Table.{
  Table, identify_client, emit, set_node, broadcast_client_uuid, regisit_client_uuid,
  is_valid_user_id,
}
use zpserver.Smartlink.Frame.{
  TransHeader, Reader, finished, read_past, copy, receive_mark, load_mark, start_new,
  fill_heart_beat, heart_beating, dispatch, after_mark, round, loop, rounds, filter_message,
}
use zpserver.Smartlink.Session.{Session, own_node, emit_event, reply, identify, heart_beat, reject}

-- EXAMPLE_HEARTBEATING with the four bytes of the id and two bytes of a time stamp.
abbrev pub beat : ℕ → ℕ → ℕ → ℕ → ℕ → ℕ → List ℕ
beat i0 i1 i2 i3 t0 t1 = 0xBE ∷ 0xBE ∷ i0 ∷ i1 ∷ i2 ∷ i3 ∷ t0 ∷ t1 ∷ []

-- The reader between two messages.
abbrev pub between : {D : Type 0} → TransHeader → Session D → Reader (Session D)
between h s = record { current_message_size = 0; current_block = []; current_header = h; user = s }

-- What an id does for the client `c`: the first valid one is its id, and leads to it; any other id
-- changes nothing.
abbrev pub IsIdentified : ℕ → ℕ → Table → Table → Type 0
IsIdentified c id t u =
    (((t.node c).uuid_recieved ≡ false)
      × (2 ≤ id)
      × (id ≤ 0xfffffffe)
      × ((u.node c).uuid ≡ id)
      × ((u.node c).uuid_recieved ≡ true)
      × (lookup id u.uuid2node ≡ some c))
    ⊎ ((((t.node c).uuid_recieved ≡ true) ⊎ (id < 2) ⊎ (0xfffffffe < id)) × (u ≡ t))

broadcast_keeps :
    (id : ℕ) (active : Bool) (t : Table)
    → ((broadcast_client_uuid id active t).uuid2node ≡ t.uuid2node)
      × ((broadcast_client_uuid id active t).node ≡ t.node)
      × ((broadcast_client_uuid id active t).events ≡ t.events)
unfolding broadcast_client_uuid
broadcast_keeps id active t = ground arith

-- The node has the id, and is entered under it.
abbrev named : ℕ → ℕ → Table → Table
named c id t = record (set_node c (record (t.node c) { uuid = id; uuid_recieved = true }) t) {
  uuid2node = insert id c t.uuid2node;
}

identify_fresh :
    (c id : ℕ) (t : Table)
    → (t.node c).uuid_recieved ≡ false
    → is_valid_user_id id ≡ true
    → identify_client c id t ≡ broadcast_client_uuid id true (named c id t)
unfolding identify_client regisit_client_uuid set_node
identify_fresh c id t new fine =
    let same : (c == c) ≡ true = ground arith in rw (new, fine, same) refl

identify_fresh-IsIdentified :
    (c id : ℕ) (t : Table)
    → (t.node c).uuid_recieved ≡ false
    → is_valid_user_id id ≡ true
    → IsIdentified c id t (broadcast_client_uuid id true (named c id t))
unfolding set_node is_valid_user_id
identify_fresh-IsIdentified c id t new fine =
    let (uuids, nodes, events) = broadcast_keeps id true (named c id t) in
    let same : (c == c) ≡ true = ground arith in
    let here : (id == id) ≡ true = ground arith in
    inl (
      new,
      ground (arith, fine),
      ground (arith, fine),
      rw (nodes, same) refl,
      rw (nodes, same) refl,
      rw (uuids, lookup-insert id id c t.uuid2node, here) refl,
    )

identify_other :
    (c id : ℕ) (t : Table)
    → ((t.node c).uuid_recieved ≡ true) ⊎ (is_valid_user_id id ≡ false)
    → identify_client c id t ≡ t
unfolding identify_client
identify_other c id t h = ground (arith, h)

identify_client_lem :
    (c id : ℕ) (t : Table)
    → IsIdentified c id t (identify_client c id t) × ((identify_client c id t).events ≡ t.events)
unfolding is_valid_user_id set_node
identify_client_lem c id t = elim (Bool-cases (t.node c).uuid_recieved) [
  | inl known ↦
      let e = identify_other c id t (inl known) in (inr (inl known, e), ap (λ u. u.events) e)
  | inr new ↦ elim (Bool-cases (is_valid_user_id id)) [
    | inr wrong ↦
        let e = identify_other c id t (inr wrong) in
        (inr (inr (ground (arith, wrong)), e), ap (λ u. u.events) e)
    | inl fine ↦
        let e = identify_fresh c id t new fine in
        let (uuids, nodes, events) = broadcast_keeps id true (named c id t) in
        (rw e (identify_fresh-IsIdentified c id t new fine), ap (λ u. u.events) e ∙ events)
  ]
]

module _ {D : Type 0} (deal : Reader (Session D) → Reader (Session D)) where
  round-beat :
      (h : TransHeader) (s : Session D) (i0 i1 i2 i3 t0 t1 : ℕ) (rest : List ℕ)
      → round deal heart_beat reject (between h s) (beat i0 i1 i2 i3 t0 t1 ++ rest)
        ≡ some (
          between
              (record h { mark = 0xBEBE })
              (record s {
                table =
                    identify_client s.self
                      (word 4 (i0 ∷ i1 ∷ i2 ∷ i3 ∷ []))
                      (emit (send_data (own_node s).sock (beat i0 i1 i2 i3 t0 t1)) s.table);
              }),
          rest,
        )
  unfolding round after_mark receive_mark load_mark dispatch fill_heart_beat heart_beating copy
      start_new heart_beat identify reply emit_event word
  round-beat h s i0 i1 i2 i3 t0 t1 rest =
      let tail = i0 ∷ i1 ∷ i2 ∷ i3 ∷ t0 ∷ t1 ∷ rest in
      let some_there : ltb 0 (length tail) ≡ true = ground arith in
      let enough : ltb (length tail) 6 ≡ false = ground arith in rw (some_there, enough) refl

  -- A heart beat that is a block of its own, between two messages: it is sent back to its client, and
  -- the reader is between two messages again. If the client had no id and that of the heart beat is
  -- from 2 to 0xfffffffe, it is now the client's, and leads to it; otherwise nothing else changes in
  -- the table.
  pub heart_beat_answered :
      (h : TransHeader) (s : Session D) (i0 i1 i2 i3 t0 t1 : ℕ)
      → let id = word 4 (i0 ∷ i1 ∷ i2 ∷ i3 ∷ []) in
        let t = emit (send_data (own_node s).sock (beat i0 i1 i2 i3 t0 t1)) s.table in
        let u = identify_client s.self id t in
        (filter_message deal heart_beat reject (beat i0 i1 i2 i3 t0 t1) 0 (between h s)
          ≡ finished (between (record h { mark = 0xBEBE }) (record s { table = u })) [])
        × IsIdentified s.self id t u
        × (u.events ≡ s.table.events ++ send_data (own_node s).sock (beat i0 i1 i2 i3 t0 t1) ∷ [])
  unfolding filter_message rounds loop emit
  heart_beat_answered h s i0 i1 i2 i3 t0 t1 =
      let id = word 4 (i0 ∷ i1 ∷ i2 ∷ i3 ∷ []) in
      let t = emit (send_data (own_node s).sock (beat i0 i1 i2 i3 t0 t1)) s.table in
      let (identified, events) = identify_client_lem s.self id t in
      (rw (round-beat h s i0 i1 i2 i3 t0 t1 [], loop) refl, identified, events)

  split_round :
      (h : TransHeader) (s : Session D) (b : ℕ) (bs : List ℕ)
      → length bs < 5
      → round deal heart_beat reject (between h s) (0xBE ∷ 0xBE ∷ b ∷ bs) ≡ none
  unfolding round after_mark receive_mark load_mark dispatch fill_heart_beat word
  split_round h s b bs short =
      let some_there : ltb 0 (length (b ∷ bs)) ≡ true = ground arith in
      let too_few : ltb (length (b ∷ bs)) 6 ≡ true = ground (arith, short) in
      rw (some_there, too_few) refl

  -- A heart beat of which a block, read from between two messages, holds three to seven bytes: the
  -- code copies from past the end of the block.
  pub split_heart_beat_reads_past :
      (h : TransHeader) (s : Session D) (b : ℕ) (bs : List ℕ)
      → length bs < 5
      → filter_message deal heart_beat reject (0xBE ∷ 0xBE ∷ b ∷ bs) 0 (between h s) ≡ read_past
  unfolding filter_message rounds loop
  split_heart_beat_reads_past h s b bs short =
      let n = length bs in
      let fuel : suc (suc (suc n)) + suc (suc (suc n)) + 2 ≡ suc (n + n + 7) = omega arith in
      rw (fuel, loop, split_round h s b bs short) refl

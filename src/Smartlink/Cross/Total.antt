-- ===== src/Smartlink/Cross/Total.antt =====
-- The loop of st_cross_svr_node::deal_user_data ends.
use zpserver.Common.{
  ℕ, zero, suc, ◌+◌, ◌-◌, ◌%◌, ◌^◌, ◌≤◌, ◌<◌, ◌≡◌, refl, ap, ◌∙◌, ◌⊎◌, inl, inr, Bool, true, false,
  not, ◌&&◌, ◌||◌, min, Option, none, some, List, [], ◌∷◌, arith, ltb, ◌==◌, if◌then◌else◌, length,
  length-drop, Text, ltb→lt, Bool-cases,
}
use zpserver.Smartlink.Cross.{
  CrossNode, st_bytes_left, copy, load_header, find_destin, transfer, deal_msg, clear_block,
  take_header, take_payload, finish_round, round, deal_user_data,
}

-- Between two blocks: the header is not complete, or bytes of the message are missing.
abbrev pub IsOpen : CrossNode → Type 0
IsOpen s = (s.curr_st_meg_size < 9) ⊎ (s.curr_st_meg_size < s.st_header.message_len + 9)

-- Every round makes this smaller.
abbrev pub measure : CrossNode → ℕ → ℕ
measure s left = left + left + (if ltb s.curr_st_meg_size 9 then 0 else 1)

deal_msg_keeps :
    (name : Text) (s : CrossNode)
    → ((deal_msg name s).0.curr_st_meg_size ≡ s.curr_st_meg_size)
      × ((deal_msg name s).0.st_header ≡ s.st_header)
unfolding deal_msg transfer find_destin
deal_msg_keeps name s = ground arith

some_left :
    (size len : ℕ)
    → size ≤ len + 9
    → ((len + 9 + 2 ^ 32 - size) % 2 ^ 32 == 0) ≡ false
    → size < len + 9
some_left size len h ne = elim (Bool-cases (ltb size (len + 9))) [
  | inl less ↦ ground arith
  | inr full ↦
      let size_is : size ≡ len + 9 = ground arith in
      let left : (len + 9 + 2 ^ 32 - size) % 2 ^ 32 ≡ 0 = omega (arith, size_is) in
      ground (arith, left)
]

bytes_missing :
    (d : CrossNode)
    → d.curr_st_meg_size ≤ d.st_header.message_len + 9
    → (st_bytes_left d == 0) ≡ false
    → d.curr_st_meg_size < d.st_header.message_len + 9
unfolding st_bytes_left
bytes_missing d h ne = some_left d.curr_st_meg_size d.st_header.message_len h ne

-- After deal_msg the node is empty, or it has what it had and bytes are missing.
finish_round_cases :
    (name : Text) (s : CrossNode)
    → s.curr_st_meg_size ≤ s.st_header.message_len + 9
    → ((finish_round name s).curr_st_meg_size ≡ 0)
      ⊎ (((finish_round name s).curr_st_meg_size < (finish_round name s).st_header.message_len + 9)
          × (s.curr_st_meg_size < s.st_header.message_len + 9))
unfolding finish_round clear_block
finish_round_cases name s h =
    let (size, header) = deal_msg_keeps name s in
    let d = (deal_msg name s).0 in
    elim (Bool-cases ((st_bytes_left d == 0) || (deal_msg name s).1)) [
      | inl over ↦ rw over (inl refl)
      | inr goes_on ↦
          let more = bytes_missing d (rw (size, header) h) (ground arith) in
          rw goes_on (inr (more, rw (size, header) at more))
    ]

header_step :
    (s : CrossNode) (b : ℕ) (rest : List ℕ)
    → let (h, rest1) = take_header s (b ∷ rest) in
      ((s.curr_st_meg_size < 9) × (h.curr_st_meg_size ≤ 9) × (length rest1 ≤ length rest))
      ⊎ ((9 ≤ s.curr_st_meg_size) × (h ≡ s) × (rest1 ≡ b ∷ rest))
unfolding take_header copy
header_step s b rest = elim (Bool-cases (ltb s.curr_st_meg_size 9)) [
  | inl short ↦ rw short (
      inl (
        ground arith,
        omega (arith, ltb→lt s.curr_st_meg_size 9 short),
        omega (
          arith,
          ltb→lt s.curr_st_meg_size 9 short,
          length-drop (min (length (b ∷ rest)) (9 - s.curr_st_meg_size)) (b ∷ rest),
        ),
      ))
  | inr long ↦ rw long (inr (ground arith, refl, refl))
]

payload_step :
    (s : CrossNode) (rest : List ℕ)
    → s.curr_st_meg_size ≤ s.st_header.message_len + 9
    → let (p, rest2) = take_payload s rest in
      (p.curr_st_meg_size ≤ p.st_header.message_len + 9)
      × (length rest2 ≤ length rest)
      × ((s.curr_st_meg_size < s.st_header.message_len + 9)
          → 0 < length rest
          → length rest2 < length rest)
      × (s.curr_st_meg_size ≡ s.st_header.message_len + 9 → p ≡ s)
unfolding take_payload copy
payload_step s [] h = (h, omega arith, (λ l some_there. absurd (omega arith)), λ e. refl)
payload_step s (b ∷ rest) h =
    let n = min (length (b ∷ rest)) (s.st_header.message_len + 9 - s.curr_st_meg_size) in
    elim (Bool-cases (ltb s.curr_st_meg_size (s.st_header.message_len + 9))) [
      | inl less ↦
          let lt = ltb→lt s.curr_st_meg_size (s.st_header.message_len + 9) less in
          rw less (
            omega (arith, lt),
            omega (arith, length-drop n (b ∷ rest)),
            (λ l there. omega (arith, lt, length-drop n (b ∷ rest))),
            λ e. absurd (omega (arith, lt, e)),
          )
      | inr full ↦ rw full (h, omega arith, (λ l there. ground arith), λ e. refl)
    ]

-- The part of a round after the header.
payload_decreases :
    (name : Text) (l : CrossNode) (rest : List ℕ) (m : ℕ)
    → l.curr_st_meg_size ≤ l.st_header.message_len + 9
    → (length rest + length rest + 1 < m)
      ⊎ ((length rest + length rest + 1 ≡ m) × (0 < length rest))
    → let (p, rest2) = take_payload l rest in
      IsOpen (finish_round name p) × (measure (finish_round name p) (length rest2) < m)
payload_decreases name l rest m h room =
    let (p, rest2) = take_payload l rest in
    let (fits, shorter, progress, full) = payload_step l rest h in
    elim (finish_round_cases name p fits) [
      | inl over ↦ (inl (omega (arith, over)), ground (arith, over, shorter, room))
      | inr (more, missing) ↦
          let less : l.curr_st_meg_size < l.st_header.message_len + 9 =
            elim (Bool-cases (ltb l.curr_st_meg_size (l.st_header.message_len + 9))) [
              | inl lt ↦ ltb→lt l.curr_st_meg_size (l.st_header.message_len + 9) lt
              | inr ge ↦ ground (arith, full (ground arith), missing, h)
            ] in
          (inr more, ground (arith, shorter, progress less, room))
    ]

-- What a round leaves: the two returns, or what is left for the next round.
abbrev Good : ℕ → CrossNode × Option (List ℕ) → Type 0
Good m (s, none) = IsOpen s
Good m (s, some rest) = IsOpen s × (measure s (length rest) < m)

load_fits :
    (h : CrossNode)
    → (9 ≤ h.curr_st_meg_size)
    → (h.curr_st_meg_size ≤ 9) ⊎ (h.curr_st_meg_size < h.st_header.message_len + 9)
    → let l = if h.curr_st_meg_size == 9 then load_header h else h in
      l.curr_st_meg_size ≤ l.st_header.message_len + 9
unfolding load_header
load_fits h nine room = elim (Bool-cases (h.curr_st_meg_size == 9)) [
  | inl eq ↦ rw eq (ground arith)
  | inr ne ↦ rw ne (ground arith)
]

round-Good :
    (name : Text) (s : CrossNode) (b : ℕ) (rest : List ℕ)
    → IsOpen s
    → Good (measure s (length (b ∷ rest))) (round name s (b ∷ rest))
unfolding round clear_block
round-Good name s b rest gap =
    let (h, rest1) = take_header s (b ∷ rest) in
    let l = if h.curr_st_meg_size == 9 then load_header h else h in
    elim (Bool-cases (ltb h.curr_st_meg_size 9)) [
      | inl short ↦ rw short (inl (ltb→lt h.curr_st_meg_size 9 short))
      | inr complete ↦
          elim (Bool-cases ((h.curr_st_meg_size == 9) && not (l.st_header.mark == 0x4567))) [
            | inl wrong ↦ rw (complete, wrong) (inl (omega arith))
            | inr right ↦ elim (header_step s b rest) [
              | inl (was_short, at_nine, shorter) ↦
                  rw (complete, right)
                    (payload_decreases name l rest1 _ (load_fits h (ground arith) (inl at_nine))
                      (inl (ground arith)))
              | inr (was_long, same, same_rest) ↦
                  rw (complete, right)
                    (payload_decreases name l rest1 _
                      (load_fits h (ground arith) (inr (ground arith)))
                      (inr (ground arith, ground arith)))
            ]
          ]
    ]

abbrev Ends : ℕ → Text → CrossNode → List ℕ → Type 0
Ends fuel name s rest =
    (s' : CrossNode) × (done : Bool) × (deal_user_data fuel name s rest ≡ some (s', done))
    × IsOpen s'

after_round :
    (fuel : ℕ) (name : Text) (s : CrossNode) (b : ℕ) (rest : List ℕ)
    (later : (s1 : CrossNode) (rest1 : List ℕ)
      → IsOpen s1
      → measure s1 (length rest1) < fuel
      → Ends fuel name s1 rest1)
    (r : CrossNode × Option (List ℕ))
    → round name s (b ∷ rest) ≡ r
    → Good (measure s (length (b ∷ rest))) r
    → measure s (length (b ∷ rest)) < suc fuel
    → Ends (suc fuel) name s (b ∷ rest)
unfolding deal_user_data
after_round fuel name s b rest later (s1, none) e g h =
    (s1, false, rw (e, deal_user_data) (ap (λ k. some (k.0, false)) e), g)
after_round fuel name s b rest later (s1, some rest1) e g h =
    let (s', done, r, gap) = later s1 rest1 g.0 (omega (arith, g.1, h)) in
    (s', done, rw (e, deal_user_data) (ap (λ k. deal_user_data fuel name k.0 rest1) e ∙ r), gap)

-- From a node whose header is not complete or of whose message bytes are missing, the loop ends, if
-- the fuel is more than twice the number of bytes, and one more if the header is complete; and the
-- node it leaves is such a node again.
pub deal_user_data_total :
    (fuel : ℕ) (name : Text) (s : CrossNode) (rest : List ℕ)
    → IsOpen s
    → measure s (length rest) < fuel
    → (s' : CrossNode) × (done : Bool) × (deal_user_data fuel name s rest ≡ some (s', done))
      × IsOpen s'
unfolding deal_user_data
deal_user_data_total zero name s rest gap h = absurd (omega arith)
deal_user_data_total (suc fuel) name s [] gap h = (s, true, refl, gap)
deal_user_data_total (suc fuel) name s (b ∷ rest) gap h =
    after_round fuel name s b rest (λ s1 rest1 g k. deal_user_data_total fuel name s1 rest1 g k)
      (round name s (b ∷ rest)) refl (round-Good name s b rest gap) h

-- ===== src/Smartlink/Frame/Relay.antt =====
-- Messages that st_clientNode_baseTrans::filter_message hands on a piece at a time, as the blocks
-- come: what the reader holds of a message, and how a copy changes it. Relay/Rounds,
-- Relay/Payload, Relay/RoundEnd and Relay/Delivery follow the loop.
pub mod Rounds
pub mod Payload
pub mod Message
pub mod RoundEnd
pub mod Delivery
pub mod Whole
use zpserver.Common.{
  ℕ, ◌+◌, ◌-◌, ◌≤◌, ◌<◌, ◌^◌, ◌≡◌, refl, ◌⊎◌, inl, inr, List, [], ◌∷◌, ◌++◌, arith, ltb, ◌==◌,
  if◌then◌else◌, length, take, drop, word, Bool-cases, take_common, held-plus, drop-plus,
  length-drop,
}
use zpserver.Smartlink.Frame.{
  TransHeader, Reader, header_of, copy, receive_mark, load_mark, load_header, fill_header, cap_to,
}

-- A message: its mark, and the length that its header says, with at least one byte of data.
pub record IsMessage (m : List ℕ) : Type 0 where
  pub marked : word 2 m ≡ 0x55AA
  pub whole : length m ≡ 12 + word 2 (drop 10 m)
  pub has_data : 12 < length m
  pub short : length m < 2 ^ 17

-- What a handler of messages does that hands each piece on: the piece is out at the place that the
-- message is for, and the block is empty.
pub record IsRelay (S : Type 0) (deal : Reader S → Reader S) (IsGood : S → Type 0)
    (IsFor : List ℕ → Type 0) (to : List ℕ → ℕ) (out : ℕ → S → List ℕ) : Type 0 where
  pub size_kept :
      (m : List ℕ) (r : Reader S)
      → IsFor m
      → IsGood r.user
      → r.current_header ≡ header_of m
      → ((deal r).current_message_size ≡ r.current_message_size)
        × ((deal r).current_header ≡ r.current_header)
        × ((deal r).current_block ≡ [])
        × IsGood (deal r).user
  pub sent :
      (m : List ℕ) (r : Reader S) (k : ℕ)
      → IsFor m
      → IsGood r.user
      → r.current_header ≡ header_of m
      → out k (deal r).user ≡ out k r.user ++ (if to m == k then r.current_block else [])

module _ {S : Type 0} where
  -- The reader has the first `n` bytes of `m`, and holds those from the `s`th on; the block goes on
  -- with the rest of `m` and what comes after it.
  pub record Held (m tail later : List ℕ) (user : S) (s n : ℕ) (r : Reader S) (rest : List ℕ)
      : Type 0 where
    pub size : r.current_message_size ≡ n
    pub block : r.current_block ≡ drop s (take n m)
    pub fits : n ≤ length m
    pub from : s ≤ n
    pub stream : rest ++ later ≡ drop n m ++ tail
    pub same_user : r.user ≡ user

  pub copy-Held :
      (m tail later : List ℕ) (user : S) (s n k : ℕ) (r : Reader S) (rest : List ℕ)
      → k ≤ length rest
      → n + k ≤ length m
      → Held m tail later user s n r rest
      → Held m tail later user s (n + k) (copy k r rest).0 (copy k r rest).1
  unfolding copy
  copy-Held m tail later user s n k r rest there fits h =
      let (t, d) =
        take_common k rest (drop n m) later tail h.stream there (omega (arith, length-drop n m)) in
      record {
        size = omega (arith, h.size);
        block = rw (h.block, t) (held-plus s n k m h.from h.fits);
        fits = fits;
        from = omega (arith, h.from);
        stream = rw (← drop-plus n k m) d;
        same_user = h.same_user;
      }

  -- Another header does not change what is held.
  pub header-Held :
      (m tail later : List ℕ) (user : S) (s n : ℕ) (r : Reader S) (rest : List ℕ) (g : TransHeader)
      → Held m tail later user s n r rest
      → Held m tail later user s n (record r { current_header = g }) rest
  header-Held m tail later user s n r rest g h = record {
    size = h.size;
    block = h.block;
    fits = h.fits;
    from = h.from;
    stream = h.stream;
    same_user = h.same_user;
  }

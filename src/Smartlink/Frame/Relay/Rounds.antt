-- ===== src/Smartlink/Frame/Relay/Rounds.antt =====
-- One round of the loop of filter_message within a message that is handed on in pieces.
use zpserver.Common.{
  ℕ, zero, suc, ◌+◌, ◌-◌, ◌≤◌, ◌<◌, ◌≡◌, refl, ap, sym, ◌∙◌, ◌⊎◌, inl, inr, List, [], ◌∷◌, ◌++◌,
  arith, ltb, ◌==◌, if◌then◌else◌, length, take, drop, word, Bool-cases, word-append,
  take-append-drop, length-take, drop_at_end,
}
use zpserver.Smartlink.Frame.{Reader, header_of, copy, receive_mark, load_mark, fill_header, cap_to}
use zpserver.Smartlink.Frame.Total.{fill_header_skip}
use zpserver.Smartlink.Frame.Relay.{IsMessage, Held, copy-Held, header-Held}

-- A word that lies in the first `n` bytes.
pub word_in :
    (w i n : ℕ) (m : List ℕ)
    → w + i ≤ n
    → n ≤ length m
    → word w (drop i (take n m)) ≡ word w (drop i m)
word_in w zero n m h fits =
    let there : w ≤ length (take n m) = omega (arith, length-take n m) in
    sym (word-append w (take n m) (drop n m) there) ∙ ap (λ k. word w k) (take-append-drop n m)
word_in w (suc i) zero m h fits = absurd (omega arith)
word_in w (suc i) (suc n) [] h fits = refl
word_in w (suc i) (suc n) (x ∷ m) h fits = word_in w i n m (omega arith) (omega arith)

module _ {S : Type 0} where
  -- The first two bytes, as far as they are there.
  pub receive_mark-Held :
      (m tail later : List ℕ) (user : S) (s n : ℕ) (r : Reader S) (rest : List ℕ)
      → 12 < length m
      → Held m tail later user s n r rest
      → (n' : ℕ) × Held m tail later user s n' (receive_mark r rest).0 (receive_mark r rest).1
        × ((receive_mark r rest).0.current_header ≡ r.current_header)
        × ((n ≡ n') ⊎ ((n < n') × (n' ≤ 2)))
        × ((2 ≤ n') ⊎ ((receive_mark r rest).1 ≡ []))
  unfolding receive_mark copy
  receive_mark-Held m tail later user s n r [] long h = (n, h, refl, inl refl, inr refl)
  receive_mark-Held m tail later user s n r (b ∷ rest) long h =
      elim (Bool-cases (ltb r.current_message_size 2)) [
        | inr two ↦ rw two (n, h, refl, inl refl, inl (ground (arith, two, h.size)))
        | inl one_more ↦
            let small : n < 2 = ground (arith, one_more, h.size) in
            let h1 = copy-Held m tail later user s n 1 r (b ∷ rest) (omega arith) (omega arith) h in
            let (n', h', g, grown, ends) =
              receive_mark-Held m tail later user s (n + 1)
                (record r {
                  current_message_size = r.current_message_size + 1;
                  current_block = r.current_block ++ b ∷ [];
                })
                rest long h1 in
            rw one_more (n', h', g, inr (ground (arith, grown, small)), ends)
      ]

module _ {S : Type 0} where
  -- Between two rounds, within `m`: up to its header nothing is handed on, from then on all is.
  pub record Mid (m tail later : List ℕ) (user : S) (s n : ℕ) (r : Reader S) (rest : List ℕ)
      : Type 0 where
    pub held : Held m tail later user s n r rest
    pub unfinished : n < length m
    pub in_header : n ≤ 12 → s ≡ 0
    pub passed_on : 12 < n → s ≡ n
    pub mark : 2 < n → r.current_header.mark ≡ 0x55AA
    pub header : 12 < n → r.current_header ≡ header_of m

  -- After the first two bytes.
  pub record Marked (m tail later : List ℕ) (user : S) (s n : ℕ) (r : Reader S) (rest : List ℕ)
      : Type 0 where
    pub mid : Mid m tail later user s n r rest
    pub two : 2 ≤ n
    pub marked : r.current_header.mark ≡ 0x55AA

  pub load_mark-Marked :
      (m tail later : List ℕ) (user : S) (s n : ℕ) (r : Reader S) (rest : List ℕ)
      → IsMessage m
      → 2 ≤ n
      → Mid m tail later user s n r rest
      → Marked m tail later user s n (if r.current_message_size == 2 then load_mark r else r) rest
  unfolding load_mark
  load_mark-Marked m tail later user s n r rest v two h =
      elim (Bool-cases (r.current_message_size == 2)) [
        | inl at_two ↦
            let n_is : n ≡ 2 = ground (arith, at_two, h.held.size) in
            let s_is : s ≡ 0 = h.in_header (omega arith) in
            let block : r.current_block ≡ take n m =
              h.held.block ∙ ap (λ k. drop k (take n m)) s_is in
            let word_is : word 2 r.current_block ≡ 0x55AA =
              rw block (word_in 2 0 n m (omega arith) h.held.fits ∙ v.marked) in
            rw at_two (record {
              mid = record {
                held = header-Held m tail later user s n r rest _ h.held;
                unfinished = h.unfinished;
                in_header = h.in_header;
                passed_on = h.passed_on;
                mark = λ more. word_is;
                header = λ more. absurd (omega (arith, n_is, more));
              };
              two = two;
              marked = word_is;
            })
        | inr past_two ↦
            rw past_two (record {
              mid = h;
              two = two;
              marked = h.mark (ground (arith, past_two, h.held.size));
            })
      ]

  -- After the header's bytes, as far as they are there.
  pub record Filled (m tail later : List ℕ) (user : S) (s n : ℕ) (r : Reader S) (rest : List ℕ)
      : Type 0 where
    pub mid : Mid m tail later user s n r rest
    pub complete : (12 ≤ n) ⊎ (rest ≡ [])
    pub marked : r.current_header.mark ≡ 0x55AA

  fill_header-nil : (r : Reader S) → fill_header r [] ≡ (r, [])
  unfolding fill_header
  fill_header-nil r = ground arith

  fill_header-cons :
      (r : Reader S) (b : ℕ) (rest : List ℕ)
      → r.current_message_size < 12
      → fill_header r (b ∷ rest)
        ≡ copy (cap_to (12 - r.current_message_size) (length (b ∷ rest))) r (b ∷ rest)
  unfolding fill_header
  fill_header-cons r b rest h = ground arith

  pub copy_header :
      (k : ℕ) (r : Reader S) (rest : List ℕ) → (copy k r rest).0.current_header ≡ r.current_header
  unfolding copy
  copy_header k r rest = refl

  copy_all : (k : ℕ) (r : Reader S) (rest : List ℕ) → k ≡ length rest → (copy k r rest).1 ≡ []
  unfolding copy
  copy_all k r rest e = rw e (drop_at_end rest)

  pub fill_header-Filled :
      (m tail later : List ℕ) (user : S) (s n : ℕ) (r : Reader S) (rest : List ℕ)
      → IsMessage m
      → Marked m tail later user s n r rest
      → (n' : ℕ) × Filled m tail later user s n' (fill_header r rest).0 (fill_header r rest).1
  fill_header-Filled m tail later user s n r [] v h =
      (n, rw (fill_header-nil r) (record { mid = h.mid; complete = inr refl; marked = h.marked }))
  fill_header-Filled m tail later user s n r (b ∷ rest) v h =
      elim (Bool-cases (ltb r.current_message_size 12)) [
        | inr long ↦
            let filled : 12 ≤ r.current_message_size = ground (arith, long) in
            (
              n,
              rw (fill_header_skip r (b ∷ rest) filled) (record {
                mid = h.mid;
                complete = inl (omega (arith, h.mid.held.size));
                marked = h.marked;
              }),
            )
        | inl short ↦
            let k = cap_to (12 - r.current_message_size) (length (b ∷ rest)) in
            let small : r.current_message_size < 12 = ground (arith, short) in
            let there : k ≤ length (b ∷ rest) = ground arith in
            let fits : n + k ≤ 12 = ground (arith, h.mid.held.size) in
            let full : (12 ≤ n + k) ⊎ (k ≡ length (b ∷ rest)) = ground (arith, h.mid.held.size) in
            let at_start : s ≡ 0 = h.mid.in_header (omega arith) in
            (
              n + k,
              rw (fill_header-cons r b rest small) (record {
                mid = record {
                  held =
                      copy-Held m tail later user s n k r (b ∷ rest) there
                        (omega (arith, v.has_data)) h.mid.held;
                  unfinished = omega (arith, v.has_data);
                  in_header = λ e. at_start;
                  passed_on = λ e. absurd (omega (arith, fits));
                  mark = λ e. rw (copy_header k r (b ∷ rest)) h.marked;
                  header = λ e. absurd (omega (arith, fits));
                };
                complete = elim full [
                  | inl enough ↦ inl enough
                  | inr all ↦ inr (copy_all k r (b ∷ rest) all)
                ];
                marked = rw (copy_header k r (b ∷ rest)) h.marked;
              }),
            )
      ]

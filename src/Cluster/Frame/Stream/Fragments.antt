-- ===== src/Cluster/Frame/Stream/Fragments.antt =====
-- zp_ClusterNode::filter_message does not depend on how the network cuts the stream into blocks.
use zpserver.Common.{
  ℕ, zero, suc, ◌+◌, ◌<◌, ◌≡◌, refl, sym, subst, ◌∙◌, inl, inr, Bool, true, false, Option, none,
  some, List, [], ◌∷◌, ◌++◌, concat, arith, length, Bool-cases, Option-cases,
}
use zpserver.Cluster.Frame.{
  Reader, bit_left, start_new, payload, round, loop, rounds, filter_message, is_positive,
}
use zpserver.Cluster.Frame.Total.{filter_message-whole}
use zpserver.Cluster.Frame.Stream.{
  push, is_pending, settle, finish_pending, read_byte, read_all, IsSane,
}
use zpserver.Cluster.Frame.Stream.Peel.{round-payload}
use zpserver.Cluster.Frame.Stream.Sane.{fresh-IsSane}
use zpserver.Cluster.Frame.Stream.Step

-- filter_message on each block of a stream in turn, from offset 0, as `run` calls it.
unfoldable pub feed :
    {S : Type 0}
    → (Reader S → Reader S)
    → (Reader S → Reader S)
    → Reader S
    → List (List ℕ)
    → Option (Reader S)
feed deal reject r [] = some r
feed deal reject r (block ∷ blocks) = elim (filter_message deal reject block 0 r) [
  | none ↦ none
  | some (r', offset) ↦ feed deal reject r' blocks
]

module _ {S : Type 0} (deal reject : Reader S → Reader S) (deferred : ℕ → Bool)
    (quiet : (r : Reader S)
      → deferred r.current_header.messagetype ≡ true
      → is_positive (bit_left r) ≡ true
      → deal r ≡ r) where
  -- A message with nothing left to read is dealt by a round of its own, which reads nothing.
  round_pending :
      (r : Reader S) (b : ℕ) (rest : List ℕ)
      → IsSane deferred r
      → is_pending r ≡ true
      → round deal reject r (b ∷ rest) ≡ (start_new (deal r), b ∷ rest)
  unfolding is_pending payload
  round_pending r b rest v p =
      rw (round-payload deal reject r b rest (ground arith) v.header_read (v.marked (ground arith)))
        (ground arith)

  -- What the induction gives for the bytes after the first.
  abbrev Reads : List ℕ → Reader S → Reader S → Type 0
  Reads rest x r' =
      (fuel : ℕ)
      → IsSane deferred x
      → length rest + length rest + 1 < fuel
      → read_all deal deferred x rest ≡ some r'
      → (loop deal reject fuel x rest ≡ some (r', [])) × IsSane deferred r'

  loop_byte :
      (fuel b : ℕ) (rest : List ℕ) (r x r' : Reader S)
      → length rest + length rest + 2 < fuel
      → Step.Goes deal reject deferred quiet r b rest x
      → read_all deal deferred x rest ≡ some r'
      → Reads rest x r'
      → (loop deal reject fuel r (b ∷ rest) ≡ some (r', [])) × IsSane deferred r'
  unfolding loop
  loop_byte zero b rest r x r' h g e ih = absurd (omega arith)
  loop_byte (suc fuel) b rest r x r' h (v, inl p) e ih = rw p (ih fuel v (omega arith) e)
  loop_byte (suc fuel) b [] r x r' h (v, inr (ne, p)) e ih = cc
  loop_byte (suc fuel) b (c ∷ rest) r x r' h (v, inr (ne, p)) e ih =
      rw p (ih (suc fuel) v (omega arith) e)

  loop_open :
      (fuel b : ℕ) (rest : List ℕ) (r r' : Reader S)
      → IsSane deferred r
      → is_pending r ≡ false
      → length rest + length rest + 2 < fuel
      → ((x : Reader S) → Reads rest x r')
      → (x : Reader S) → settle deal deferred (push r b) ≡ some x
      → read_all deal deferred x rest ≡ some r'
      → (loop deal reject fuel r (b ∷ rest) ≡ some (r', [])) × IsSane deferred r'
  loop_open fuel b rest r r' v p h ih x s e =
      loop_byte fuel b rest r x r' h (Step.step deal reject deferred quiet r x b rest v s p) e
        (ih x)

  read_all-cons :
      (r r' : Reader S) (b : ℕ) (rest : List ℕ)
      → read_all deal deferred r (b ∷ rest) ≡ some r'
      → (x : Reader S) × (settle deal deferred (push (finish_pending deal deferred r) b) ≡ some x)
        × (read_all deal deferred x rest ≡ some r')
  unfolding read_all read_byte
  read_all-cons r r' b rest e =
      elim (Option-cases (settle deal deferred (push (finish_pending deal deferred r) b))) [
        | inl n ↦ ground arith
        | inr (x, s) ↦ (x, s, ground arith)
      ]

  fresh-is_pending : (r : Reader S) → is_pending (start_new r) ≡ false
  unfolding is_pending start_new
  fresh-is_pending r = refl

  finish_pending_open : (r : Reader S) → is_pending r ≡ false → finish_pending deal deferred r ≡ r
  unfolding finish_pending
  finish_pending_open r p = rw p

  finish_pending_dealt :
      (r : Reader S) → is_pending r ≡ true → finish_pending deal deferred r ≡ start_new (deal r)
  unfolding finish_pending
  finish_pending_dealt r p = rw p

  loop_pending :
      (fuel b : ℕ) (rest : List ℕ) (r r' : Reader S)
      → IsSane deferred r
      → is_pending r ≡ true
      → length rest + length rest + 3 < fuel
      → ((x : Reader S) → Reads rest x r')
      → (x : Reader S) → settle deal deferred (push (start_new (deal r)) b) ≡ some x
      → read_all deal deferred x rest ≡ some r'
      → (loop deal reject fuel r (b ∷ rest) ≡ some (r', [])) × IsSane deferred r'
  unfolding loop
  loop_pending zero b rest r r' v p h ih x s e = absurd (omega arith)
  loop_pending (suc fuel) b rest r r' v p h ih x s e = rw (round_pending r b rest v p) (
      loop_open fuel b rest (start_new (deal r)) r' (fresh-IsSane deferred (deal r))
        (fresh-is_pending (deal r)) (omega arith) ih x s e)

  loop_cons :
      (fuel b : ℕ) (rest : List ℕ) (r r' : Reader S)
      → IsSane deferred r
      → length rest + length rest + 3 < fuel
      → ((x : Reader S) → Reads rest x r')
      → read_all deal deferred r (b ∷ rest) ≡ some r'
      → (loop deal reject fuel r (b ∷ rest) ≡ some (r', [])) × IsSane deferred r'
  loop_cons fuel b rest r r' v h ih e =
      let (x, s, e') = read_all-cons r r' b rest e in
      elim (Bool-cases (is_pending r)) [
        | inl p ↦ loop_pending fuel b rest r r' v p h ih x (rw (finish_pending_dealt r p) at s) e'
        | inr p ↦
            loop_open fuel b rest r r' v p (omega arith) ih x (rw (finish_pending_open r p) at s) e'
      ]

  -- The loop reads what the byte machine reads.
  loop-read_all : (rest : List ℕ) (r r' : Reader S) → Reads rest r r'
  unfolding loop read_all
  loop-read_all [] r r' zero v h e = absurd (omega arith)
  loop-read_all [] r r' (suc fuel) v h e = (ground arith, subst (IsSane deferred) (ground arith) v)
  loop-read_all (b ∷ rest) r r' fuel v h e =
      loop_cons fuel b rest r r' v (omega arith) (λ x. loop-read_all rest x r') e

  filter_message-read_all :
      (block : List ℕ) (r r' : Reader S)
      → IsSane deferred r
      → read_all deal deferred r block ≡ some r'
      → (filter_message deal reject block 0 r ≡ some (r', length block)) × IsSane deferred r'
  unfolding rounds
  filter_message-read_all block r r' v e =
      let (l, v') = loop-read_all block r r' (rounds block) v (omega arith) e in
      (filter_message-whole deal reject block r r' l, v')

  read_all-append :
      (xs ys : List ℕ) (r r' : Reader S)
      → read_all deal deferred r (xs ++ ys) ≡ some r'
      → (m : Reader S) × (read_all deal deferred r xs ≡ some m)
        × (read_all deal deferred m ys ≡ some r')
  unfolding read_all
  read_all-append [] ys r r' e = (r, refl, e)
  read_all-append (x ∷ xs) ys r r' e = elim (Option-cases (read_byte deal deferred r x)) [
    | inl n ↦ ground arith
    | inr (m, s) ↦
        let (k, p, q) = read_all-append xs ys m r' (ground arith) in (k, rw (s, read_all) p, q)
  ]

  -- However the stream is cut into blocks, empty ones among them, reading the blocks one by one
  -- from a sane state gives what the byte machine gives on the whole stream, if no byte of it
  -- is refused there.
  pub feed-read_all :
      (blocks : List (List ℕ)) (r r' : Reader S)
      → IsSane deferred r
      → read_all deal deferred r (concat blocks) ≡ some r'
      → feed deal reject r blocks ≡ some r'
  unfolding feed
  feed-read_all [] r r' v e = unfold read_all in e
  feed-read_all (block ∷ blocks) r r' v e =
      let (m, p, q) = read_all-append block (concat blocks) r r' e in
      let (f, v') = filter_message-read_all block r m v p in
      rw (f, feed) (feed-read_all blocks m r' v' q)

  -- Two ways to cut the same stream have the same outcome.
  pub feed-cuts :
      (blocks blocks' : List (List ℕ)) (r r' : Reader S)
      → concat blocks ≡ concat blocks'
      → IsSane deferred r
      → read_all deal deferred r (concat blocks) ≡ some r'
      → feed deal reject r blocks ≡ feed deal reject r blocks'
  feed-cuts blocks blocks' r r' same v e =
      feed-read_all blocks r r' v e ∙ sym (feed-read_all blocks' r r' v (rw same at e))

module _ {S : Type 0} (deal : Reader S → Reader S) (deferred : ℕ → Bool) where
  pub read_all-join :
      (xs ys : List ℕ) (r m : Reader S) {r' : Reader S}
      → read_all deal deferred r xs ≡ some m
      → read_all deal deferred m ys ≡ some r'
      → read_all deal deferred r (xs ++ ys) ≡ some r'
  unfolding read_all
  read_all-join [] ys r m {r'} e f =
      subst (λ k. read_all deal deferred k ys ≡ some r') (ground arith) f
  read_all-join (x ∷ xs) ys r m e f = elim (Option-cases (read_byte deal deferred r x)) [
    | inl n ↦ ground arith
    | inr (k, s) ↦ rw (s, read_all) (read_all-join xs ys k m (ground arith) f)
  ]

-- ===== src/Cluster/Frame/Stream/Messages.antt =====
-- Whole messages through the reader: every message of a stream is dealt once, complete, in order.
use zpserver.Common.{
  ℕ, suc, ◌+◌, ◌≤◌, ◌<◌, ◌^◌, ◌≡◌, refl, ap, ◌∙◌, Bool, true, some, List, [], ◌∷◌, ◌++◌,
  append_assoc, append-nil, arith, if◌then◌else◌, length, word, bytes, word-bytes,
}
use zpserver.Cluster.Frame.{
  Reader, Header, load_mark, load_header, bit_left, start_new, is_positive, mark_value,
}
use zpserver.Cluster.Frame.Stream.{push, is_pending, settle, finish_pending, read_byte, read_all}
use zpserver.Cluster.Frame.Stream.Peel.{bit_left-push}

-- A message: its type and its payload.
pub record Message : Type 0 where
  pub messagetype : ℕ
  pub content : List ℕ

-- The bytes of a message: the packed header, then the payload.
unfoldable pub encode : Message → List ℕ
encode m = 0x34 ∷ 0x12 ∷ m.messagetype ∷ bytes 4 (length m.content) ++ m.content

module _ {S : Type 0} where
  -- The reader that holds one whole message.
  unfoldable pub holding : S → Message → Reader S
  holding s m = record {
    current_message_size = 7 + length m.content;
    current_block = encode m;
    current_header = record {
      mark = mark_value;
      messagetype = m.messagetype;
      data_length = length m.content;
    };
    user = s;
  }

  -- The reader with more bytes of the current message.
  push_all : Reader S → List ℕ → Reader S
  push_all r bs = record r {
    current_message_size = r.current_message_size + length bs;
    current_block = r.current_block ++ bs;
  }

  push_all-push :
      (r : Reader S) (b : ℕ) (bs : List ℕ) → push_all (push r b) bs ≡ push_all r (b ∷ bs)
  unfolding push_all push
  push_all-push r b bs = ground (arith, append_assoc r.current_block (b ∷ []) bs)

module _ {S : Type 0} (deal : Reader S → Reader S) (deferred : ℕ → Bool) where
  settle_late :
      (x : Reader S)
      → 7 < x.current_message_size
      → settle deal deferred x
        ≡ (if is_positive (bit_left x) then some x else some (start_new (deal x)))
  unfolding settle
  settle_late x h = ground arith

  open_not_pending :
      (r : Reader S) → is_positive (bit_left r) ≡ true → finish_pending deal deferred r ≡ r
  unfolding finish_pending is_pending
  open_not_pending r left = ground arith

  read_byte_more :
      (r : Reader S) (b : ℕ)
      → 7 ≤ r.current_message_size
      → is_positive (bit_left r) ≡ true
      → read_byte deal deferred r b ≡ (
          if is_positive (bit_left (push r b))
          then some (push r b)
          else some (start_new (deal (push r b))))
  unfolding read_byte
  read_byte_more r b long left =
      rw (open_not_pending r left) (settle_late (push r b) (unfold push in omega arith))

  read_all-first :
      (b : ℕ) (bs : List ℕ) (r m : Reader S)
      → read_byte deal deferred r b ≡ some m
      → read_all deal deferred r (b ∷ bs) ≡ read_all deal deferred m bs
  unfolding read_all
  read_all-first b bs r m e = ground arith

  left_after :
      (r : Reader S) (b n : ℕ)
      → bit_left r ≡ suc n
      → suc n < 2 ^ 31
      → (is_positive (bit_left r) ≡ true) × (bit_left (push r b) ≡ n)
  left_after r b n e short = (ground arith, omega (arith, bit_left-push b r (ground arith)))

  read_payload :
      (b : ℕ) (bs : List ℕ) (r : Reader S)
      → 7 ≤ r.current_message_size
      → bit_left r ≡ length (b ∷ bs)
      → length (b ∷ bs) < 2 ^ 31
      → read_all deal deferred r (b ∷ bs) ≡ some (start_new (deal (push_all r (b ∷ bs))))
  unfolding read_all push push_all
  read_payload b [] r long left short =
      let (pos, zero_left) = left_after r b 0 left short in
      read_all-first b [] r (start_new (deal (push r b)))
        (read_byte_more r b long pos ∙ ground arith)
      ∙ refl
  read_payload b (c ∷ bs) r long left short =
      let (pos, rest_left) = left_after r b (length (c ∷ bs)) left short in
      read_all-first b (c ∷ bs) r (push r b) (read_byte_more r b long pos ∙ ground arith)
      ∙ read_payload c bs (push r b) (unfold push in omega arith) rest_left (omega arith)
      ∙ ap (λ (x : Reader S). some (start_new (deal x))) (push_all-push r b (c ∷ bs))

  abbrev at_header : S → ℕ → List ℕ → Reader S
  at_header s k size_bytes = record {
    current_message_size = 7;
    current_block = 0x34 ∷ 0x12 ∷ k ∷ size_bytes;
    current_header = record {
      mark = mark_value;
      messagetype = word 1 (k ∷ size_bytes);
      data_length = word 4 size_bytes;
    };
    user = s;
  }

  abbrev before_header : S → ℕ → Header → List ℕ → Reader S
  before_header s k h size_bytes = record {
    current_message_size = 6;
    current_block = 0x34 ∷ 0x12 ∷ k ∷ size_bytes;
    current_header = record h { mark = mark_value };
    user = s;
  }

  read_header_start :
      (s : S) (h : Header) (k b0 b1 b2 : ℕ) (rest : List ℕ)
      → read_all deal deferred
          (record { current_message_size = 0; current_block = []; current_header = h; user = s })
          (0x34 ∷ 0x12 ∷ k ∷ b0 ∷ b1 ∷ b2 ∷ rest)
        ≡ read_all deal deferred (before_header s k h (b0 ∷ b1 ∷ b2 ∷ [])) rest
  unfolding read_all read_byte settle push finish_pending is_pending load_mark word
  read_header_start s h k b0 b1 b2 rest = refl

  read_header_end :
      (s : S) (h : Header) (k b0 b1 b2 b3 : ℕ)
      → deferred (word 1 (k ∷ b0 ∷ b1 ∷ b2 ∷ b3 ∷ [])) ≡ true
      → read_byte deal deferred (before_header s k h (b0 ∷ b1 ∷ b2 ∷ [])) b3
        ≡ some (at_header s k (b0 ∷ b1 ∷ b2 ∷ b3 ∷ []))
  unfolding read_byte settle push finish_pending is_pending load_header word
  read_header_end s h k b0 b1 b2 b3 kind = ground arith

  word_one : (k : ℕ) (bs : List ℕ) → word 1 (k ∷ bs) ≡ k
  unfolding word
  word_one k bs = omega arith

  read_header_bytes :
      (s : S) (h : Header) (k n : ℕ) (rest : List ℕ)
      → deferred k ≡ true
      → read_all deal deferred
          (record { current_message_size = 0; current_block = []; current_header = h; user = s })
          (0x34 ∷ 0x12 ∷ k ∷ bytes 4 n ++ rest)
        ≡ read_all deal deferred (at_header s k (bytes 4 n)) rest
  unfolding bytes
  read_header_bytes s h k n rest kind =
      read_header_start s h k _ _ _ _
      ∙ read_all-first _ rest _ _ (read_header_end s h k _ _ _ _ (rw (word_one k _) kind))

  abbrev opened : S → ℕ → ℕ → Reader S
  opened s k n = record {
    current_message_size = 7;
    current_block = 0x34 ∷ 0x12 ∷ k ∷ bytes 4 n;
    current_header = record { mark = mark_value; messagetype = k; data_length = n };
    user = s;
  }

  word_whole : (n : ℕ) → n < 2 ^ 31 → word 4 (bytes 4 n) ≡ n
  word_whole n h = rw append-nil at (word-bytes 4 n [] (omega arith))

  at_header-opened : (s : S) (k n : ℕ) → n < 2 ^ 31 → at_header s k (bytes 4 n) ≡ opened s k n
  at_header-opened s k n h = rw (word_one k (bytes 4 n), word_whole n h)

  left_opened : (s : S) (k n : ℕ) → n < 2 ^ 31 → bit_left (opened s k n) ≡ n
  unfolding bit_left
  left_opened s k n h = omega arith

  read_content :
      (s : S) (k : ℕ) (content : List ℕ)
      → 0 < length content
      → length content < 2 ^ 31
      → read_all deal deferred (opened s k (length content)) content
        ≡ some (start_new (deal (push_all (opened s k (length content)) content)))
  read_content s k [] some_bytes short = absurd (omega arith)
  read_content s k (b ∷ bs) some_bytes short =
      read_payload b bs (opened s k (length (b ∷ bs))) (omega arith)
        (left_opened s k (length (b ∷ bs)) short) short

  -- A whole message, read from its first byte: it is dealt once, complete.
  pub read_message :
      (s : S) (h : Header) (m : Message)
      → deferred m.messagetype ≡ true
      → 0 < length m.content
      → length m.content < 2 ^ 31
      → read_all deal deferred
          (record { current_message_size = 0; current_block = []; current_header = h; user = s })
          (encode m)
        ≡ some (start_new (deal (holding s m)))
  unfolding encode holding push_all
  read_message s h m kind some_bytes short =
      read_header_bytes s h m.messagetype (length m.content) m.content kind
      ∙ rw (at_header-opened s m.messagetype (length m.content) short)
          (read_content s m.messagetype m.content some_bytes short)

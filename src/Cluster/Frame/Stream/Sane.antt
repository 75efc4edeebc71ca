-- ===== src/Cluster/Frame/Stream/Sane.antt =====
-- What the byte machine keeps, and how a round goes on after each byte.
use zpserver.Common.{
  ℕ, ◌≤◌, ◌<◌, ◌≡◌, ◌≢◌, refl, ◌∙◌, Bool, true, false, some, [], ◌∷◌, arith, ◌==◌, length,
  length-append, word-append,
}
use zpserver.Cluster.Frame.{
  Reader, load_mark, load_header, bit_left, start_new, is_positive, mark_value,
}
use zpserver.Cluster.Frame.Stream.{push, settle, IsSane}

module _ {S : Type 0} (deferred : ℕ → Bool) where
  pub fresh-IsSane : (r : Reader S) → IsSane deferred (start_new r)
  unfolding start_new
  fresh-IsSane r = record {
    marked = λ h. absurd (omega arith);
    whole = λ h. refl;
    mark_kept = λ h. absurd (omega arith);
    header_read = λ e. absurd (omega arith);
    in_pieces = λ h. absurd (omega arith);
    unfinished = λ h. absurd (omega arith);
  }

module _ {S : Type 0} (deal : Reader S → Reader S) (deferred : ℕ → Bool) (x r' : Reader S)
    (settled : settle deal deferred x ≡ some r') where
  pub settled_early : x.current_message_size ≢ 2 → x.current_message_size < 7 → x ≡ r'
  unfolding settle
  settled_early ne short = ground arith

  pub settled_mark :
      x.current_message_size ≡ 2
      → (((load_mark x).current_header.mark == mark_value) ≡ true) × (load_mark x ≡ r')
  unfolding settle
  settled_mark two = ground arith

  pub settled_header :
      x.current_message_size ≡ 7
      → (deferred (load_header x).current_header.messagetype ≡ true) × (load_header x ≡ r')
  unfolding settle
  settled_header seven = ground arith

  pub settled_more : 7 < x.current_message_size → is_positive (bit_left x) ≡ true → x ≡ r'
  unfolding settle
  settled_more long left = ground arith

  pub settled_done :
      7 < x.current_message_size → is_positive (bit_left x) ≡ false → start_new (deal x) ≡ r'
  unfolding settle
  settled_done long left = ground arith

module _ {S : Type 0} (deferred : ℕ → Bool) (r : Reader S) (b : ℕ) (v : IsSane deferred r) where
  push-whole :
      r.current_message_size < 7 → length (push r b).current_block ≡ (push r b).current_message_size
  unfolding push
  push-whole h = omega (arith, length-append r.current_block (b ∷ []), v.whole)

  pub load_mark_same : r.current_message_size ≡ 2 → load_mark r ≡ r
  unfolding load_mark
  load_mark_same e = λ i. record r {
    current_header = record r.current_header { mark = v.mark_kept (omega arith) (omega arith) i };
  }

  pub push-IsSane :
      r.current_message_size ≢ 1 → r.current_message_size < 6 → IsSane deferred (push r b)
  unfolding push
  push-IsSane ne short = record {
    marked = λ h. v.marked (omega arith);
    whole = λ h. push-whole (omega arith);
    mark_kept = λ h k.
        word-append 2 r.current_block (b ∷ []) (omega (arith, v.whole))
        ∙ v.mark_kept (omega arith) (omega arith);
    header_read = λ e. absurd (omega arith);
    in_pieces = λ h. absurd (omega arith);
    unfinished = λ h. absurd (omega arith);
  }

  pub load_mark-IsSane :
      r.current_message_size ≡ 1
      → ((load_mark (push r b)).current_header.mark == mark_value) ≡ true
      → IsSane deferred (load_mark (push r b))
  unfolding push load_mark
  load_mark-IsSane one good = record {
    marked = λ h. good;
    whole = λ h. push-whole (omega arith);
    mark_kept = λ h k. refl;
    header_read = λ e. absurd (omega arith);
    in_pieces = λ h. absurd (omega arith);
    unfinished = λ h. absurd (omega arith);
  }

  pub header_mark :
      r.current_message_size ≡ 6
      → (load_header (push r b)).current_header.mark ≡ r.current_header.mark
  unfolding push load_header
  header_mark six =
      word-append 2 r.current_block (b ∷ []) (omega (arith, v.whole))
      ∙ v.mark_kept (omega arith) (omega arith)

  pub load_header-IsSane :
      r.current_message_size ≡ 6
      → deferred (load_header (push r b)).current_header.messagetype ≡ true
      → IsSane deferred (load_header (push r b))
  unfolding push load_header
  load_header-IsSane six kind = record {
    marked = λ h. rw (header_mark six) (v.marked (omega arith));
    whole = λ h. push-whole (omega arith);
    mark_kept = λ h k. refl;
    header_read = λ e. refl;
    in_pieces = λ h. kind;
    unfinished = λ h. absurd (omega arith);
  }

  pub push-IsSane_payload :
      7 ≤ r.current_message_size
      → is_positive (bit_left (push r b)) ≡ true
      → IsSane deferred (push r b)
  unfolding push
  push-IsSane_payload long left = record {
    marked = λ h. v.marked (omega arith);
    whole = λ h. absurd (omega arith);
    mark_kept = λ h k. absurd (omega arith);
    header_read = λ e. absurd (omega arith);
    in_pieces = λ h. v.in_pieces (omega arith);
    unfinished = λ h. left;
  }

-- ===== src/Cluster/Frame/Stream/Step.antt =====
-- A step of the byte machine against the rounds of zp_ClusterNode::filter_message, for each size.
use zpserver.Common.{
  ℕ, ◌≤◌, ◌<◌, ◌≡◌, ◌≢◌, subst, inl, inr, Bool, true, false, some, List, arith, leb, ◌==◌, ==→eq,
  Bool-cases,
}
use zpserver.Cluster.Frame.{Reader, load_mark, load_header, bit_left, start_new, is_positive}
use zpserver.Cluster.Frame.Stream.{push, is_pending, settle, IsSane}
use zpserver.Cluster.Frame.Stream.Peel.{
  Peels, peel_first, peel_mark, peel_header, peel_header_end, peel_payload, peel_last,
  bit_left-push,
}
use zpserver.Cluster.Frame.Stream.Sane.{
  fresh-IsSane, settled_early, settled_mark, settled_header, settled_more, settled_done,
  push-IsSane, load_mark_same, load_mark-IsSane, header_mark, load_header-IsSane,
  push-IsSane_payload,
}

module _ {S : Type 0} (deal reject : Reader S → Reader S) (deferred : ℕ → Bool)
    (quiet : (r : Reader S)
      → deferred r.current_header.messagetype ≡ true
      → is_positive (bit_left r) ≡ true
      → deal r ≡ r) where
  abbrev pub Goes : Reader S → ℕ → List ℕ → Reader S → Type 0
  Goes r b rest r' = IsSane deferred r' × Peels deal reject r b rest r'

  keeps_step :
      (r : Reader S) (b : ℕ) (rest : List ℕ) (x r' : Reader S)
      → x ≡ r'
      → Goes r b rest x
      → Goes r b rest r'
  keeps_step r b rest x r' e g = subst (λ q. Goes r b rest q) e g

  bits : (r : Reader S) → 0 < bit_left r → bit_left r ≢ 1 → 2 ≤ bit_left r
  bits r h k = omega arith

  module _ (r r' : Reader S) (b : ℕ) (rest : List ℕ) (v : IsSane deferred r)
      (settled : settle deal deferred (push r b) ≡ some r') where
    step_early : r.current_message_size ≢ 1 → r.current_message_size < 6 → Goes r b rest r'
    step_early ne short =
        keeps_step r b rest (push r b) r'
          (settled_early deal deferred (push r b) r' settled (unfold push in λ e. ne (omega arith))
            (unfold push in omega arith))
          (
            push-IsSane deferred r b v ne short,
            elim (Bool-cases (r.current_message_size == 0)) [
              | inl z ↦ peel_first deal reject r b rest (==→eq _ _ z)
              | inr nz ↦
                  peel_header deal reject r b rest (ground arith) short
                    (load_mark_same deferred r b v) (v.marked (ground arith))
            ],
          )

    step_mark : r.current_message_size ≡ 1 → Goes r b rest r'
    step_mark one =
        let (good, e) =
          settled_mark deal deferred (push r b) r' settled (unfold push in omega arith) in
        keeps_step r b rest (load_mark (push r b)) r' e
          (load_mark-IsSane deferred r b v one good, peel_mark deal reject r b rest one good)

    step_header : r.current_message_size ≡ 6 → Goes r b rest r'
    step_header six =
        let (kind, e) =
          settled_header deal deferred (push r b) r' settled (unfold push in omega arith) in
        let good = v.marked (omega arith) in
        keeps_step r b rest (load_header (push r b)) r' e (
          load_header-IsSane deferred r b v six kind,
          peel_header_end deal reject r b rest six good (rw (header_mark deferred r b v six) good),
        )

    step_payload : 7 ≤ r.current_message_size → is_positive (bit_left r) ≡ true → Goes r b rest r'
    step_payload long left = elim (Bool-cases (is_positive (bit_left (push r b)))) [
      | inl more ↦
          keeps_step r b rest (push r b) r'
            (settled_more deal deferred (push r b) r' settled (unfold push in omega arith) more)
            (
              push-IsSane_payload deferred r b v long more,
              peel_payload deal reject r b rest long v.header_read (v.marked (omega arith))
                  (ground (arith, bit_left-push b r left)) left
                  (quiet (push r b) (unfold push in v.in_pieces long) more),
            )
      | inr done ↦
          keeps_step r b rest (start_new (deal (push r b))) r'
            (settled_done deal deferred (push r b) r' settled (unfold push in omega arith) done)
            (
              fresh-IsSane deferred (deal (push r b)),
              peel_last deal reject r b rest long v.header_read (v.marked (omega arith))
                  (ground (arith, bit_left-push b r left)),
            )
    ]

    pub step : is_pending r ≡ false → Goes r b rest r'
    unfolding is_pending
    step open_message = elim (Bool-cases (leb 7 r.current_message_size)) [
      | inl long ↦ step_payload (ground arith) (ground arith)
      | inr short ↦ elim (Bool-cases (r.current_message_size == 6)) [
        | inl six ↦ step_header (==→eq _ _ six)
        | inr ne ↦ elim (Bool-cases (r.current_message_size == 1)) [
          | inl one ↦ step_mark (==→eq _ _ one)
          | inr other ↦ step_early (ground arith) (ground arith)
        ]
      ]
    ]

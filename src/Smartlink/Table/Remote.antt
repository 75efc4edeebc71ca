-- ===== src/Smartlink/Table/Remote.antt =====
-- Which server has a remote client, and to which server a client is redirected.
use zpserver.Common.{
  ℕ, ◌≤◌, ◌<◌, ◌≡◌, ◌≢◌, refl, ap, subst, ==→eq, ◌⊎◌, inl, inr, Bool, true, false, none, some, List,
  [], ◌∷◌, arith, ltb, ◌==◌, if◌then◌else◌, nat_key, text_key, Text, text_same, text_same_iff,
  lookup, insert, remove, lookup-insert, lookup-remove, Bool-cases,
}
use zpserver.Cluster.Term.{min_payload_server, Payload}
use zpserver.Cluster.Term.Balance.{IsRegistered, min_payload_server_least}
use zpserver.Smartlink.Table.{
  Table, emit, add_remote, del_remote, uuids_of_svr, cross_svr_add_uuids, cross_svr_del_uuids,
  on_new_svr_disconnected, cross_svr_find_uuid, need_redirect,
}

pub member : ℕ → List ℕ → Bool
member x [] = false
member x (y ∷ ys) = if y == x then true else member x ys

-- The map in the order of its keys.
abbrev pub AllAbove : ℕ → List (ℕ × Text) → Type 0
AllAbove k [] = Unit {0}
AllAbove k ((j, v) ∷ m) = (k < j) × AllAbove k m

abbrev pub IsSorted : List (ℕ × Text) → Type 0
IsSorted [] = Unit {0}
IsSorted ((k, v) ∷ m) = AllAbove k m × IsSorted m

AllAbove-weaken : (i k : ℕ) (m : List (ℕ × Text)) → i < k → AllAbove k m → AllAbove i m
AllAbove-weaken i k [] h a = tt
AllAbove-weaken i k ((j, v) ∷ m) h (lt, a) = (omega arith, AllAbove-weaken i k m h a)

insert-AllAbove :
    (i k : ℕ) (v : Text) (m : List (ℕ × Text)) → i < k → AllAbove i m → AllAbove i (insert k v m)
unfolding insert
insert-AllAbove i k v [] h a = (h, tt)
insert-AllAbove i k v ((j, w) ∷ m) h (lt, a) = elim (Bool-cases (j == k)) [
  | inl same ↦ rw same (h, a)
  | inr other ↦ elim (Bool-cases (ltb k j)) [
    | inl first ↦ rw (other, first) (h, (lt, a))
    | inr later ↦ rw (other, later) (lt, insert-AllAbove i k v m h a)
  ]
]

insert-IsSorted : (k : ℕ) (v : Text) (m : List (ℕ × Text)) → IsSorted m → IsSorted (insert k v m)
unfolding insert
insert-IsSorted k v [] s = (tt, tt)
insert-IsSorted k v ((j, w) ∷ m) (a, s) = elim (Bool-cases (j == k)) [
  | inl same ↦ rw same (subst (λ i. AllAbove i m) (==→eq j k same) a, s)
  | inr other ↦ elim (Bool-cases (ltb k j)) [
    | inl first ↦ rw (other, first) ((ground arith, AllAbove-weaken k j m (ground arith) a), (a, s))
    | inr later ↦
        rw (other, later) (insert-AllAbove j k v m (ground arith) a, insert-IsSorted k v m s)
  ]
]

remove-AllAbove : (i k : ℕ) (m : List (ℕ × Text)) → AllAbove i m → AllAbove i (remove k m)
unfolding remove
remove-AllAbove i k [] a = tt
remove-AllAbove i k ((j, w) ∷ m) (lt, a) = elim (Bool-cases (j == k)) [
  | inl same ↦ rw same (remove-AllAbove i k m a)
  | inr other ↦ rw other (lt, remove-AllAbove i k m a)
]

remove-IsSorted : (k : ℕ) (m : List (ℕ × Text)) → IsSorted m → IsSorted (remove k m)
unfolding remove
remove-IsSorted k [] s = tt
remove-IsSorted k ((j, w) ∷ m) (a, s) = elim (Bool-cases (j == k)) [
  | inl same ↦ rw same (remove-IsSorted k m s)
  | inr other ↦ rw other (remove-AllAbove j k m a, remove-IsSorted k m s)
]

lookup-add_remote :
    (svr : Text) (us : List ℕ) (u : ℕ) (m : List (ℕ × Text))
    → lookup u (add_remote svr us m) ≡ (if member u us then some svr else lookup u m)
unfolding add_remote member
lookup-add_remote svr [] u m = refl
lookup-add_remote svr (k ∷ us) u m =
    ground (arith, lookup-add_remote svr us u (insert k svr m), lookup-insert k u svr m)

lookup-del_remote :
    (us : List ℕ) (u : ℕ) (m : List (ℕ × Text))
    → lookup u (del_remote us m) ≡ (if member u us then none else lookup u m)
unfolding del_remote member
lookup-del_remote [] u m = refl
lookup-del_remote (k ∷ us) u m =
    ground (arith, lookup-del_remote us u (remove k m), lookup-remove k u m)

pub add_remote-IsSorted :
    (svr : Text) (us : List ℕ) (m : List (ℕ × Text)) → IsSorted m → IsSorted (add_remote svr us m)
unfolding add_remote
add_remote-IsSorted svr [] m s = s
add_remote-IsSorted svr (u ∷ us) m s =
    add_remote-IsSorted svr us (insert u svr m) (insert-IsSorted u svr m s)

pub del_remote-IsSorted :
    (us : List ℕ) (m : List (ℕ × Text)) → IsSorted m → IsSorted (del_remote us m)
unfolding del_remote
del_remote-IsSorted [] m s = s
del_remote-IsSorted (u ∷ us) m s = del_remote-IsSorted us (remove u m) (remove-IsSorted u m s)

above_not_there :
    (svr : Text) (u k : ℕ) (m : List (ℕ × Text))
    → AllAbove k m
    → u ≤ k
    → (member u (uuids_of_svr svr m) ≡ false) × (lookup u m ≡ none)
unfolding uuids_of_svr member lookup
above_not_there svr u k [] a h = (refl, refl)
above_not_there svr u k ((j, name) ∷ m) (lt, a) h =
    let (no_member, no_entry) = above_not_there svr u k m a h in
    (ground (arith, no_member), ground (arith, no_entry))

-- The ids that are taken out are exactly those of the server.
member-uuids_of_svr :
    (svr : Text) (u : ℕ) (m : List (ℕ × Text))
    → IsSorted m
    → member u (uuids_of_svr svr m)
      ≡ (elim (lookup u m) [ none ↦ false | some name ↦ text_same name svr ])
unfolding uuids_of_svr member lookup
member-uuids_of_svr svr u [] s = refl
member-uuids_of_svr svr u ((j, name) ∷ m) (a, s) = elim (Bool-cases (j == u)) [
  | inl same ↦ ground (arith, above_not_there svr u j m a (ground arith))
  | inr other ↦ ground (arith, member-uuids_of_svr svr u m s)
]

-- The server that is known for a client: after a server has reported ids, it for those, and what was
-- known before for the others; after a server has reported that ids left, none for those.
pub cross_svr_ids :
    (svr : Text) (us : List ℕ) (u : ℕ) (t : Table)
    → (cross_svr_find_uuid u (cross_svr_add_uuids svr us t)
        ≡ (if member u us then svr else cross_svr_find_uuid u t))
      × (cross_svr_find_uuid u (cross_svr_del_uuids svr (some us) t)
          ≡ (if member u us then [] else cross_svr_find_uuid u t))
unfolding cross_svr_find_uuid cross_svr_add_uuids cross_svr_del_uuids emit
cross_svr_ids svr us u t = (
  ground (arith, lookup-add_remote svr us u t.remote_client2svr_name),
  ground (arith, lookup-del_remote us u t.remote_client2svr_name),
)

-- When a server's connection is lost, exactly its clients are forgotten, if the map is in order; and
-- it stays in order.
pub lost_svr_forgotten :
    (svr : Text) (u : ℕ) (t : Table)
    → IsSorted t.remote_client2svr_name
    → (lookup u (on_new_svr_disconnected svr t).remote_client2svr_name
        ≡ (elim (lookup u t.remote_client2svr_name) [
          | none ↦ none
          | some name ↦ if text_same name svr then none else some name
        ]))
      × IsSorted (on_new_svr_disconnected svr t).remote_client2svr_name
unfolding on_new_svr_disconnected cross_svr_del_uuids emit
lost_svr_forgotten svr u t s =
    let m = t.remote_client2svr_name in
    (
      ground (arith, lookup-del_remote (uuids_of_svr svr m) u m, member-uuids_of_svr svr u m s),
      del_remote-IsSorted (uuids_of_svr svr m) m s,
    )

not_own : (a b : Text) → text_same b a ≡ false → b ≢ a
not_own a b h e = ground (arith, (text_same_iff b a).1 e)

-- A client is redirected only if this server has at least the number of clients that is its limit,
-- and then to a registered server with fewer clients than this one, by that server's name and port.
-- It is not redirected only if this server is below the limit, or the server that
-- minPayloadServer returns has this one's name.
pub need_redirect_lem :
    (t : Table)
    → ((p : Payload) × (c : ℕ) × (need_redirect t ≡ some p)
        × (t.balance_max ≤ t.cluster.client_nums)
        × IsRegistered t.cluster.name2node c
        × (p.server_name ≡ (t.cluster.node c).term_name)
        × (p.port ≡ (t.cluster.node c).port_pub)
        × ((t.cluster.node c).remote_client_nums < t.cluster.client_nums))
      ⊎ ((need_redirect t ≡ none)
          × ((t.cluster.client_nums < t.balance_max)
              ⊎ ((min_payload_server t.cluster).server_name ≡ t.cluster.term_name)))
unfolding need_redirect
need_redirect_lem t =
    let found = min_payload_server t.cluster in
    elim (Bool-cases (ltb t.cluster.client_nums t.balance_max)) [
      | inl below ↦ inr (rw below refl, inl (ground arith))
      | inr full ↦ elim (Bool-cases (text_same found.server_name t.cluster.term_name)) [
        | inl own ↦
            inr (
              rw (full, own) refl,
              inr ((text_same_iff found.server_name t.cluster.term_name).0 own),
            )
        | inr other ↦ elim (min_payload_server_least t.cluster) [
          | inl (e, all) ↦
              absurd
                (not_own t.cluster.term_name found.server_name other (ap (λ p. p.server_name) e))
          | inr (c, reg, name, address, port, less, all) ↦
              inl (found, c, rw (full, other) refl, ground arith, reg, name, port, less)
        ]
      ]
    ]

-- ===== src/Cluster/Term/Balance.antt =====
-- minPayloadServer: which server a client is sent to.
use zpserver.Common.{
  ℕ, ◌≤◌, ◌<◌, ◌≡◌, refl, ◌⊎◌, inl, inr, Option, none, some, List, [], ◌∷◌, arith, ltb, Bool-cases,
  Text, take, to_utf8,
}
use zpserver.Cluster.State.{Node, Term}
use zpserver.Cluster.Term.{min_payload, min_payload_server}

-- Every registered server has at least so many clients.
abbrev pub AllAtLeast : (ℕ → Node) → List (Text × ℕ) → ℕ → Type 0
AllAtLeast node [] n = Unit {0}
AllAtLeast node ((name, c) ∷ m) n = (n ≤ (node c).remote_client_nums) × AllAtLeast node m n

-- The node is that of a registered server.
abbrev pub IsRegistered : List (Text × ℕ) → ℕ → Type 0
IsRegistered [] c = ⊥
IsRegistered ((name, d) ∷ m) c = (d ≡ c) ⊎ IsRegistered m c

AllAtLeast-mono :
    (node : ℕ → Node) (m : List (Text × ℕ)) (k n : ℕ)
    → k ≤ n
    → AllAtLeast node m n
    → AllAtLeast node m k
AllAtLeast-mono node [] k n h a = tt
AllAtLeast-mono node ((name, c) ∷ m) k n h (a, as') =
    (omega arith, AllAtLeast-mono node m k n h as')

-- What the loop finds, from the least number so far.
abbrev Found : (ℕ → Node) → List (Text × ℕ) → ℕ → Option ℕ → Option ℕ → Type 0
Found node m least found result =
    ((result ≡ found) × AllAtLeast node m least)
    ⊎ ((c : ℕ) × (result ≡ some c)
        × IsRegistered m c
        × ((node c).remote_client_nums < least)
        × AllAtLeast node m (node c).remote_client_nums)

min_payload-Found :
    (node : ℕ → Node) (m : List (Text × ℕ)) (least : ℕ) (found : Option ℕ)
    → Found node m least found (min_payload node m least found)
unfolding min_payload
min_payload-Found node [] least found = inl (refl, tt)
min_payload-Found node ((name, c) ∷ m) least found =
    elim (Bool-cases (ltb (node c).remote_client_nums least)) [
      | inl less ↦ rw less (elim (min_payload-Found node m (node c).remote_client_nums (some c)) [
        | inl (e, all) ↦ inr (c, e, inl refl, ground arith, (omega arith, all))
        | inr (d, e, reg, lt, all) ↦ inr (d, e, inr reg, ground arith, (omega arith, all))
      ])
      | inr more ↦ rw more (elim (min_payload-Found node m least found) [
        | inl (e, all) ↦ inl (e, (ground arith, all))
        | inr (d, e, reg, lt, all) ↦ inr (d, e, inr reg, lt, (ground arith, all))
      ])
    ]

-- The server that is returned is this one, with its name, the first 64 bytes of its address and its
-- port, and no registered server has fewer clients; or it is a registered one, with that one's name,
-- first 64 bytes of the address and port, which has fewer clients than this one and at most as many
-- as any registered one.
pub min_payload_server_least :
    (t : Term)
    → ((min_payload_server t ≡ record {
      server_name = t.term_name;
      address = take 64 (to_utf8 t.addr_pub);
      port = t.port_pub;
    })
        × AllAtLeast t.node t.name2node t.client_nums)
      ⊎ ((c : ℕ) × IsRegistered t.name2node c
          × ((min_payload_server t).server_name ≡ (t.node c).term_name)
          × ((min_payload_server t).address ≡ take 64 (to_utf8 (t.node c).addr_pub))
          × ((min_payload_server t).port ≡ (t.node c).port_pub)
          × ((t.node c).remote_client_nums < t.client_nums)
          × AllAtLeast t.node t.name2node (t.node c).remote_client_nums)
unfolding min_payload_server
min_payload_server_least t = elim (min_payload-Found t.node t.name2node t.client_nums none) [
  | inl (e, all) ↦ inl (rw (e, min_payload_server) refl, all)
  | inr (c, e, reg, lt, all) ↦ inr (
    c,
    reg,
    rw (e, min_payload_server) refl,
    rw (e, min_payload_server) refl,
    rw (e, min_payload_server) refl,
    lt,
    all,
  )
]

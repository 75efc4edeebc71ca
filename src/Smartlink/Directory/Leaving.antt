-- ===== src/Smartlink/Directory/Leaving.antt =====
-- The end of a connection of smartlink/st_client_table.cpp, in its directory.
use zpserver.Common.{
  ℕ, ◌≡◌, ◌≢◌, refl, ◌∙◌, inl, inr, false, none, some, List, arith, ◌==◌, lookup, remove, nat_key,
  lookup-remove, Bool-cases, Option-cases,
}
use zpserver.Smartlink.Table.{
  Table, set_node, delete_nodes, unregister_uuid, give_up, on_client_disconnected,
}
use zpserver.Smartlink.Table.Clients.{IsValid}
use zpserver.Smartlink.Directory.{put, without, disconnect, online_in, id_in, owner_in, directory}
use zpserver.Smartlink.Directory.Tables.{
  IsDirectory, IsDirectory-directory, same-IsDirectory, broadcast_keeps,
}

-- The tables without the connection, and without what led to its node.
left-IsDirectory :
    (sock c : ℕ) (uuids : List (ℕ × ℕ)) (t : Table)
    → lookup sock t.sock2node ≡ some c
    → ((u : ℕ) → lookup u t.uuid2node ≡ some c → lookup u uuids ≡ none)
    → ((u : ℕ) → lookup u t.uuid2node ≢ some c → lookup u uuids ≡ lookup u t.uuid2node)
    → IsValid t
    → IsDirectory
        (record t { sock2node = remove sock t.sock2node; uuid2node = uuids })
        (disconnect sock (directory t))
unfolding disconnect directory online_in id_in owner_in put without
left-IsDirectory sock c uuids t at gone kept v = record {
  online = λ s. ground (arith, lookup-remove sock s t.sock2node);
  id_of = λ s. ground (arith, lookup-remove sock s t.sock2node);
  owner = λ i. elim (Option-cases (lookup i t.uuid2node)) [
    | inl f ↦ ground (arith, f, kept i)
    | inr (d, f) ↦ elim (Bool-cases (d == c)) [
      | inl same ↦ ground (arith, f, same, gone i, v.has_socket sock c at)
      | inr other ↦ ground (arith, f, other, at, kept i, v.connected i d f)
    ]
  ];
}

delete_nodes_keeps : (t : Table) → directory (delete_nodes t) ≡ directory t
unfolding delete_nodes
delete_nodes_keeps t = same-IsDirectory t _ refl refl (λ j. (refl, refl, refl))

give_up_keeps : (c : ℕ) (t : Table) → directory (give_up c t) ≡ directory t
unfolding give_up set_node
give_up_keeps c t = same-IsDirectory t _ refl refl (λ j. (ground arith, ground arith, ground arith))

-- The connection and the id of its node are taken out.
unregister_step :
    (sock c : ℕ) (t : Table)
    → lookup sock t.sock2node ≡ some c
    → IsValid t
    → directory (unregister_uuid c (record t { sock2node = remove sock t.sock2node }))
      ≡ disconnect sock (directory t)
unfolding unregister_uuid
unregister_step sock c t at v =
    let left : (uuids : List (ℕ × ℕ)) → _ → _ → _ = λ uuids gone kept.
      IsDirectory-directory _ _ (left-IsDirectory sock c uuids t at gone kept v) in
    elim (Bool-cases (t.node c).uuid_recieved) [
      | inr unknown ↦
          rw unknown
            (left t.uuid2node (λ u h. ground (arith, unknown, v.has_uuid u c h)) (λ u h. refl))
      | inl known ↦ elim (Option-cases (lookup (t.node c).uuid t.uuid2node)) [
        | inl no_entry ↦
            rw (known, no_entry, unregister_uuid)
              (left t.uuid2node (λ u h. ground (arith, no_entry, h, v.has_uuid u c h))
                (λ u h. refl))
        | inr (d, entry) ↦ elim (Bool-cases (d == c)) [
          | inr other ↦
              rw (known, entry, unregister_uuid, other)
                (left t.uuid2node (λ u h. ground (arith, entry, other, h, v.has_uuid u c h))
                  (λ u h. refl))
          | inl same ↦
              rw (known, entry, unregister_uuid, same)
                (broadcast_keeps (t.node c).uuid false _
                  ∙ left (remove (t.node c).uuid t.uuid2node)
                      (λ u h.
                        ground
                          (arith, h, v.has_uuid u c h, lookup-remove (t.node c).uuid u t.uuid2node))
                      (λ u h.
                        ground
                          (arith, h, entry, same, lookup-remove (t.node c).uuid u t.uuid2node)))
        ]
      ]
    ]

-- A connection that is not known.
unknown-IsDirectory :
    (sock : ℕ) (t : Table)
    → lookup sock t.sock2node ≡ none
    → IsValid t
    → IsDirectory t (disconnect sock (directory t))
unfolding disconnect directory online_in id_in owner_in put without
unknown-IsDirectory sock t e v = record {
  online = λ s. ground (arith, e);
  id_of = λ s. ground (arith, e);
  owner = λ i. elim (Option-cases (lookup i t.uuid2node)) [
    | inl f ↦ ground (arith, f)
    | inr (d, f) ↦ ground (arith, e, f, v.connected i d f)
  ];
}

pub disconnect_step :
    (sock : ℕ) (t : Table)
    → IsValid t
    → directory (on_client_disconnected sock t) ≡ disconnect sock (directory t)
unfolding on_client_disconnected
disconnect_step sock t v = elim (Option-cases (lookup sock t.sock2node)) [
  | inl e ↦
      rw (e, on_client_disconnected)
        (delete_nodes_keeps t ∙ IsDirectory-directory t _ (unknown-IsDirectory sock t e v))
  | inr (c, e) ↦
      rw (e, on_client_disconnected)
        (delete_nodes_keeps _ ∙ give_up_keeps c _ ∙ unregister_step sock c t e v)
]

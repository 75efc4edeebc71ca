-- ===== src/Network/Trans/Rubbish.antt =====
-- The rubbish can of zp_netTransThread: sockets that are closed are deleted later, the oldest first.
use zpserver.Common.{
  ℕ, ◌≤◌, ◌<◌, ◌≡◌, refl, sym, ap, ◌∙◌, inl, inr, List, [], ◌∷◌, ◌++◌, append_assoc, append-nil,
  arith, map, leb, if◌then◌else◌, length, nat_key, remove, Bool-cases,
}
use zpserver.Network.Trans.{
  delete_later, TransThread, emit, member, include, exclude, clamp_size, drop_oldest,
  push_to_rabish_can,
}

-- The objects `d` were dropped on the way from `t` to `u`, and each of them was deleted.
record Dropped (can : List ℕ) (t u : TransThread) : Type 0 where
  gone : List ℕ
  order : gone ++ u.rabish_can ≡ can
  deleted : u.events ≡ t.events ++ map delete_later gone
  size : u.rubbish_can_size ≡ t.rubbish_can_size

drop_oldest-Dropped :
    (can : List ℕ) (t : TransThread)
    → t.rabish_can ≡ can
    → 0 < t.rubbish_can_size
    → Dropped can t (drop_oldest can t)
      × (length (drop_oldest can t).rabish_can < t.rubbish_can_size)
unfolding drop_oldest emit
drop_oldest-Dropped [] t same some = (
  record { gone = []; order = same; deleted = sym (append-nil t.events); size = refl },
  rw same some,
)
drop_oldest-Dropped (x ∷ can) t same some =
    let t' = emit (delete_later x) (record t {
      extra_data = remove x t.extra_data;
      set_rabish = exclude x t.set_rabish;
      rabish_can = can;
    }) in
    let (d, few) = drop_oldest-Dropped can t' refl some in
    elim (Bool-cases (leb t.rubbish_can_size (length (x ∷ can)))) [
      | inl full ↦ rw full (
        record {
          gone = x ∷ d.gone;
          order = ap (λ k. x ∷ k) d.order;
          deleted =
              d.deleted ∙ append_assoc t.events (delete_later x ∷ []) (map delete_later d.gone);
          size = d.size;
        },
        few,
      )
      | inr space ↦ rw space (
        record { gone = []; order = same; deleted = sym (append-nil t.events); size = refl },
        rw same (ground arith),
      )
    ]

clamp_size_range : (n : ℕ) → (16 ≤ clamp_size n) × (clamp_size n ≤ 65536)
unfolding clamp_size
clamp_size_range n = ground arith

-- What is put in: nothing if the object is there already.
abbrev pub put_in : ℕ → TransThread → List ℕ
put_in x t = if member x t.set_rabish then t.rabish_can else t.rabish_can ++ x ∷ []

-- Afterwards fewer objects are kept than the size, which is between 16 and 65536. The objects that
-- were kept before, with the new one after them unless it was there already, are first those that
-- were given to deleteLater, each once and the oldest first, and then those that are kept.
pub push_to_rabish_can_bounds :
    (x : ℕ) (t : TransThread)
    → let u = push_to_rabish_can x t in
      (length u.rabish_can < u.rubbish_can_size)
      × (16 ≤ u.rubbish_can_size)
      × (u.rubbish_can_size ≤ 65536)
      × ((gone : List ℕ) × (gone ++ u.rabish_can ≡ put_in x t)
          × (u.events ≡ t.events ++ map delete_later gone))
unfolding push_to_rabish_can
push_to_rabish_can_bounds x t =
    let (low, high) = clamp_size_range t.rubbish_can_size in
    elim (Bool-cases (member x t.set_rabish)) [
      | inl there ↦
          rw (there, push_to_rabish_can)
            (let t2 = record t { rubbish_can_size = clamp_size t.rubbish_can_size } in
              let (d, few) = drop_oldest-Dropped t.rabish_can t2 refl (omega (arith, low)) in
              (rw d.size few, rw d.size low, rw d.size high, (d.gone, d.order, d.deleted)))
      | inr new ↦
          rw (new, push_to_rabish_can)
            (let t2 = record t {
              rabish_can = t.rabish_can ++ x ∷ [];
              set_rabish = include x t.set_rabish;
              rubbish_can_size = clamp_size t.rubbish_can_size;
            } in
              let (d, few) =
                drop_oldest-Dropped (t.rabish_can ++ x ∷ []) t2 refl (omega (arith, low)) in
              (rw d.size few, rw d.size low, rw d.size high, (d.gone, d.order, d.deleted)))
    ]

-- ===== src/Cluster/Term/Registry.antt =====
-- regisitNewServer: a name is entered once.
use zpserver.Common.{
  ℕ, ◌≡◌, ◌≢◌, refl, ◌⊎◌, inl, inr, true, false, Option, none, some, [], ◌∷◌, arith, ◌==◌,
  if◌then◌else◌, length, Text, text_key, text_same, lookup, contains, lookup-insert, contains-none,
  contains-some, Bool-cases,
}
use zpserver.Cluster.State.{Term, emit}
use zpserver.Cluster.Term.{regisit_new_server}

no_length : (s : Text) → (length s == 0) ≡ true → s ≡ []
no_length [] h = refl
no_length (c ∷ s) h = ground arith

some_length : (s : Text) → (length s == 0) ≡ false → s ≢ []
some_length [] h = ground arith
some_length (c ∷ s) h = λ e. cc

-- What is registered under a name afterwards.
abbrev pub entry_after : ℕ → Term → Text → Option ℕ
entry_after c t name = lookup name (regisit_new_server c t).0.name2node

-- The registration succeeds exactly for a name that is not empty and not taken. Then this name leads
-- to the node, and what every other name leads to is what it was; if it fails, no entry changes.
pub regisit_new_server_lem :
    (c : ℕ) (t : Term) (name : Text)
    → (((regisit_new_server c t).1 ≡ true)
        × ((t.node c).term_name ≢ [])
        × (lookup (t.node c).term_name t.name2node ≡ none)
        × (entry_after c t name
            ≡ (if text_same (t.node c).term_name name then some c else lookup name t.name2node)))
      ⊎ (((regisit_new_server c t).1 ≡ false)
          × (((t.node c).term_name ≡ [])
              ⊎ ((d : ℕ) × (lookup (t.node c).term_name t.name2node ≡ some d)))
          × (entry_after c t name ≡ lookup name t.name2node))
unfolding regisit_new_server emit
regisit_new_server_lem c t name = elim (Bool-cases (length (t.node c).term_name == 0)) [
  | inl nameless ↦ inr (rw nameless refl, inl (no_length _ nameless), rw nameless refl)
  | inr named ↦ elim (Bool-cases (contains (t.node c).term_name t.name2node)) [
    | inl taken ↦
        inr (rw (named, taken) refl, inr (contains-some _ _ taken), rw (named, taken) refl)
    | inr free ↦ inl (
      rw (named, free) refl,
      some_length _ named,
      contains-none _ _ free,
      rw (named, free) (lookup-insert (t.node c).term_name name c t.name2node),
    )
  ]
]

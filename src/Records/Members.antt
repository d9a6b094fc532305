-- ===== src/Records/Members.antt =====
-- Sets of hours, and dictionaries that are built in one pass.
use energy_optimizer.Prelude.{
  ◌≡◌, refl, sym, Bool, true, false, Option, none, some, List, [], ◌∷◌, ◌++◌, arith, ◌==◌, nat_eq,
  Dict, lookup, insert, is_some, is_none, Unique, if◌then◌else◌, ap, Bool-cases, inl, inr,
  nat_beq_iff, ◌∙◌,
}
use energy_optimizer.Hours.{Instant}
use energy_optimizer.Records.{member, all_member, same_members, keys, keys_without_value}

all_member-member :
    (t : Instant) (ts us : List Instant)
    → all_member ts us ≡ true
    → member t ts ≡ true
    → member t us ≡ true
all_member-member t [] us h m = cc
all_member-member t (s ∷ ts) us h m = elim (Bool-cases (s == t)) [
  | inl here ↦ ground (arith, ap (λ x. member x us) ((nat_beq_iff s t).0 here))
  | inr there ↦ ground (arith, all_member-member t ts us)
]

-- Two sets that are found equal have the same members.
pub same_members-member :
    (ts us : List Instant) → same_members ts us ≡ true → (t : Instant) → member t ts ≡ member t us
same_members-member ts us h t = ground (arith, all_member-member t ts us, all_member-member t us ts)

member-all_member :
    (ts us : List Instant)
    → ((t : Instant) → member t ts ≡ true → member t us ≡ true)
    → all_member ts us ≡ true
member-all_member [] us h = refl
member-all_member (t ∷ ts) us h =
    ground (arith, h t, nat_beq_iff t t, member-all_member ts us (λ s m. h s (ground arith)))

pub member-same_members :
    (ts us : List Instant) → ((t : Instant) → member t ts ≡ member t us) → same_members ts us ≡ true
member-same_members ts us h = ground (
  arith,
  member-all_member ts us (λ t m. sym (h t) ∙ m),
  member-all_member us ts (λ t m. h t ∙ m),
)

module _ {V : Type 0} where
  pub member-keys : (t : Instant) (d : Dict Instant V) → member t (keys d) ≡ is_some (lookup t d)
  unfolding lookup
  member-keys t [] = refl
  member-keys t ((k, v) ∷ d) = ground (arith, member-keys t d)

  -- The hour is listed, and has no value.
  abbrev pub lacks : Option (Option V) → Bool
  lacks none = false
  lacks (some v) = is_none v

  abbrev pub lacks_value : Instant → Dict Instant (Option V) → Bool
  lacks_value t d = lacks (lookup t d)

  pub member-keys_without_value :
      (t : Instant) (d : Dict Instant (Option V))
      → Unique d
      → member t (keys_without_value d) ≡ lacks_value t d
  unfolding lookup
  member-keys_without_value t [] h = refl
  member-keys_without_value t ((k, none) ∷ d) h = ground (arith, member-keys_without_value t d h.1)
  member-keys_without_value t ((k, some v) ∷ d) h =
      ground (arith, member-keys_without_value t d h.1, λ (e : k ≡ t). ap (λ x. lookup x d) e)

  -- A new key comes last.
  pub insert-append :
      (k : Instant) (v : V) (d : Dict Instant V)
      → lookup k d ≡ none
      → insert k v d ≡ d ++ (k, v) ∷ []
  unfolding lookup insert
  insert-append k v [] h = refl
  insert-append k v ((j, w) ∷ d) h = ground (arith, insert-append k v d)

  pub lookup-append_one :
      (t k : Instant) (v : V) (d : Dict Instant V)
      → lookup t (d ++ (k, v) ∷ [])
        ≡ (if is_some (lookup t d) then lookup t d else if k == t then some v else none)
  unfolding lookup
  lookup-append_one t k v [] = refl
  lookup-append_one t k v ((j, w) ∷ d) = ground (arith, lookup-append_one t k v d)

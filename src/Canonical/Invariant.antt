-- ===== src/Canonical/Invariant.antt =====
-- The canonical text, and so the hash, does not depend on the order in which an object lists its
-- members.
use codex_nieuw.Prelude.{◌≡◌, ◌≢◌, refl, ap, ◌∙◌}
use codex_nieuw.Json.{Text, Json, arr, obj, Elements, nil, cons, Members, end, member}
use codex_nieuw.Canonical.{
  Externals, canonicalize, canonical_elements, canonical_members, hash_json,
}
use codex_nieuw.Canonical.Order.{insert_comm}

-- Values that differ in nothing but the order of members with different keys, at any depth.
mutual
  pub data Same : Json → Json → Type 0 where
    same : (a : Json) → Same a a
    same_arr : {xs ys : Elements} → SameElements xs ys → Same (arr xs) (arr ys)
    same_obj : {ms ns : Members} → SameMembers ms ns → Same (obj ms) (obj ns)
    same_trans : {a b c : Json} → Same a b → Same b c → Same a c

  pub data SameElements : Elements → Elements → Type 0 where
    same_nil : SameElements nil nil
    same_cons :
        {x y : Json} {xs ys : Elements}
        → Same x y
        → SameElements xs ys
        → SameElements (cons x xs) (cons y ys)

  pub data SameMembers : Members → Members → Type 0 where
    same_end : SameMembers end end
    same_member :
        {k : Text} {x y : Json} {ms ns : Members}
        → Same x y
        → SameMembers ms ns
        → SameMembers (member k x ms) (member k y ns)
    swapped :
        {k j : Text} {x y : Json} {ms : Members}
        → k ≢ j
        → SameMembers (member k x (member j y ms)) (member j y (member k x ms))
    members_trans : {ls ms ns : Members} → SameMembers ls ms → SameMembers ms ns → SameMembers ls ns

module _ (ext : Externals) where
  mutual
    unfolding canonicalize

    canonicalize-Same : {a b : Json} → Same a b → canonicalize ext a ≡ canonicalize ext b
    canonicalize-Same (same a) = refl
    canonicalize-Same (same_arr p) = rw (canonical_elements-Same p)
    canonicalize-Same (same_obj p) = rw (canonical_members-Same p)
    canonicalize-Same (same_trans p q) = canonicalize-Same p ∙ canonicalize-Same q

    canonical_elements-Same :
        {xs ys : Elements}
        → SameElements xs ys
        → canonical_elements ext xs ≡ canonical_elements ext ys
    canonical_elements-Same same_nil = refl
    canonical_elements-Same (same_cons p q) = rw (canonicalize-Same p, canonical_elements-Same q)

    canonical_members-Same :
        {ms ns : Members} → SameMembers ms ns → canonical_members ext ms ≡ canonical_members ext ns
    canonical_members-Same same_end = refl
    canonical_members-Same (same_member p q) = rw (canonicalize-Same p, canonical_members-Same q)
    canonical_members-Same (swapped {k} {j} {x} {y} {ms} d) =
        insert_comm k j (canonicalize ext x) (canonicalize ext y) (canonical_members ext ms) d
    canonical_members-Same (members_trans p q) = canonical_members-Same p ∙ canonical_members-Same q

  -- Two values that differ only in the order of object members have the same hash.
  pub hash_json-Same : (a b : Json) → Same a b → hash_json ext a ≡ hash_json ext b
  unfolding hash_json
  hash_json-Same a b p = ap ext.sha256 (canonicalize-Same p)

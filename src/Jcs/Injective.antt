-- ===== src/Jcs/Injective.antt =====
-- Canonical texts tell values apart, up to the order of keys.
use codex_feishu.Prelude.{
  subst, ◌∷◌, ◌+◌, ◌≡◌, ◌↔◌, sym, ◌∙◌, true, Option, none, some, [], arith, inl, inr, Bool-cases,
  Codes,
}
use codex_feishu.Jcs.{
  Value, null, boolean, integer, text, array, object, unsupported, Items, no_items, item, Fields,
  no_fields, field, bytes_ltb, utf_16_be, canonicalize_text,
}
use codex_feishu.Jcs.Normal.{normal, normal_items, normal_fields, insert_field, key_ltb}
use codex_feishu.Jcs.Order.{
  Same, same, reversed, joined, in_array, in_object, SameItems, same_items, at_item, SameFields,
  same_fields, joined_fields, at_field, swap, canonicalize_text-Same,
}
use codex_feishu.Jcs.Reader.Rounds.{cost}
use codex_feishu.Jcs.Reader.RoundTrip.{read_value-canonicalize_text}

bytes_ltb-irreflexive : (s : Codes) → bytes_ltb s s ≡ true → ⊥
unfolding bytes_ltb
bytes_ltb-irreflexive [] e = cc
bytes_ltb-irreflexive (c ∷ s) e = ground (arith, e, bytes_ltb-irreflexive s)

key_ltb-swap :
    (j k : Option Codes) (v w : Value) (fs : Fields)
    → key_ltb j k ≡ true
    → SameFields (field k v (field j w fs)) (field j w (field k v fs))
unfolding key_ltb
key_ltb-swap none k v w fs e = cc
key_ltb-swap (some j) none v w fs e = cc
key_ltb-swap (some j) (some k) v w fs e =
    swap (λ p. bytes_ltb-irreflexive (utf_16_be j) (rw p at e))

insert_field-SameFields :
    (k : Option Codes) (v : Value) (fs : Fields) → SameFields (field k v fs) (insert_field k v fs)
unfolding insert_field
insert_field-SameFields k v no_fields = same_fields
insert_field-SameFields k v (field j w fs) = elim (Bool-cases (key_ltb j k)) [
  | inl e ↦
      rw e
        (joined_fields (key_ltb-swap j k v w fs e) (at_field same (insert_field-SameFields k v fs)))
  | inr e ↦ rw e same_fields
]

mutual
  unfolding normal

  normal-Same : (v : Value) → Same v (normal v)
  normal-Same null = same
  normal-Same (boolean b) = same
  normal-Same (integer n) = same
  normal-Same (text s) = same
  normal-Same (array is) = in_array (normal_items-SameItems is)
  normal-Same (object fs) = in_object (normal_fields-SameFields fs)
  normal-Same unsupported = same

  normal_items-SameItems : (is : Items) → SameItems is (normal_items is)
  normal_items-SameItems no_items = same_items
  normal_items-SameItems (item v is) = at_item (normal-Same v) (normal_items-SameItems is)

  normal_fields-SameFields : (fs : Fields) → SameFields fs (normal_fields fs)
  normal_fields-SameFields no_fields = same_fields
  normal_fields-SameFields (field k v fs) =
      joined_fields (at_field (normal-Same v) (normal_fields-SameFields fs))
        (insert_field-SameFields k (normal v) (normal_fields fs))

read-injective :
    {v w : Value} → ◌≡◌ {A = Option (Value × Codes)} (some (v, [])) (some (w, [])) → v ≡ w
read-injective e = cc e

normal-eq :
    (v w : Value) (t : Codes)
    → canonicalize_text v ≡ some t
    → canonicalize_text w ≡ some t
    → normal v ≡ normal w
normal-eq v w t e f =
    let fuel = cost (normal v) + cost (normal w) in
    let a = read_value-canonicalize_text v t fuel e (omega arith) in
    let b = read_value-canonicalize_text w t fuel f (omega arith) in read-injective (sym a ∙ b)

-- Two values without floats, of which the first has a canonical text, have one canonical text exactly
-- when they differ in the order of the keys of objects only. Of floats this does not hold: 1 and 1.0
-- have one canonical text.
pub canonicalize_text-Same_iff :
    (v w : Value) (t : Codes)
    → canonicalize_text v ≡ some t
    → (canonicalize_text v ≡ canonicalize_text w) ↔ Same v w
canonicalize_text-Same_iff v w t e = (
  λ f.
      joined (normal-Same v)
        (subst (λ x. Same x w) (sym (normal-eq v w t e (sym f ∙ e))) (reversed (normal-Same w))),
  λ p. canonicalize_text-Same p,
)

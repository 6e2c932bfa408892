-- ===== src/Audit/BodyFree.antt =====
-- `_assert_body_free` against a description by the places of a value.
use codex_feishu.Prelude.{
  String, ◌≡◌, refl, Bool, true, false, not, ◌&&◌, and_left, and_right, arith,
}
use codex_feishu.Json.{
  Json, Items, Fields, null, boolean, integer, text, array, object, no_items, item, no_fields,
  field,
}
use codex_feishu.Audit.{Hashing, is_forbidden, is_body_free, items_body_free, fields_body_free}

-- `k` is a key of a dict at some depth of the value.
mutual
  pub data HasKey (k : String) : Json → Type 0 where
    in_array : {v : Items} → ItemsHaveKey k v → HasKey k (array v)
    in_object : {v : Fields} → FieldsHaveKey k v → HasKey k (object v)

  pub data ItemsHaveKey (k : String) : Items → Type 0 where
    this_item : {v : Json} {rest : Items} → HasKey k v → ItemsHaveKey k (item v rest)
    later_item : {v : Json} {rest : Items} → ItemsHaveKey k rest → ItemsHaveKey k (item v rest)

  pub data FieldsHaveKey (k : String) : Fields → Type 0 where
    this_key : {v : Json} {rest : Fields} → FieldsHaveKey k (field k v rest)
    this_value :
        {j : String} {v : Json} {rest : Fields} → HasKey k v → FieldsHaveKey k (field j v rest)
    later_field :
        {j : String} {v : Json} {rest : Fields}
        → FieldsHaveKey k rest
        → FieldsHaveKey k (field j v rest)

not-true : (b : Bool) → not b ≡ true → b ≡ false
not-true b h = ground arith

-- Soundness: no key of an accepted value is forbidden.
mutual
  unfolding is_body_free items_body_free fields_body_free

  sound :
      (z : Hashing) (k : String) (v : Json)
      → HasKey k v
      → is_body_free z v ≡ true
      → is_forbidden (z.lower k) ≡ false
  sound z k (array v) (in_array h) e = items_sound z k v h e
  sound z k (object v) (in_object h) e = fields_sound z k v h e
  sound z k null h e = elim h [ ]
  sound z k (boolean _) h e = elim h [ ]
  sound z k (integer _) h e = elim h [ ]
  sound z k (text _) h e = elim h [ ]

  items_sound :
      (z : Hashing) (k : String) (v : Items)
      → ItemsHaveKey k v
      → items_body_free z v ≡ true
      → is_forbidden (z.lower k) ≡ false
  items_sound z k no_items h e = elim h [ ]
  items_sound z k (item v rest) (this_item h) e = sound z k v h (and_left _ _ e)
  items_sound z k (item v rest) (later_item h) e = items_sound z k rest h (and_right _ _ e)

  fields_sound :
      (z : Hashing) (k : String) (v : Fields)
      → FieldsHaveKey k v
      → fields_body_free z v ≡ true
      → is_forbidden (z.lower k) ≡ false
  fields_sound z k no_fields h e = elim h [ ]
  fields_sound z k (field _ v rest) this_key e = not-true _ (and_left _ _ (and_left _ _ e))
  fields_sound z k (field j v rest) (this_value h) e =
      sound z k v h (and_right _ _ (and_left _ _ e))
  fields_sound z k (field j v rest) (later_field h) e = fields_sound z k rest h (and_right _ _ e)

and_true : (a b : Bool) → a ≡ true → b ≡ true → (a && b) ≡ true
and_true a b h k = ground arith

not-false : (b : Bool) → b ≡ false → not b ≡ true
not-false b h = ground arith

-- Completeness: a value without forbidden keys is accepted.
mutual
  unfolding is_body_free items_body_free fields_body_free

  complete :
      (z : Hashing) (v : Json)
      → ((k : String) → HasKey k v → is_forbidden (z.lower k) ≡ false)
      → is_body_free z v ≡ true
  complete z (array v) f = items_complete z v λ k h. f k (in_array h)
  complete z (object v) f = fields_complete z v λ k h. f k (in_object h)
  complete z null f = refl
  complete z (boolean b) f = refl
  complete z (integer n) f = refl
  complete z (text s) f = refl

  items_complete :
      (z : Hashing) (v : Items)
      → ((k : String) → ItemsHaveKey k v → is_forbidden (z.lower k) ≡ false)
      → items_body_free z v ≡ true
  items_complete z no_items f = refl
  items_complete z (item v rest) f =
      and_true _ _ (complete z v λ k h. f k (this_item h))
        (items_complete z rest λ k h. f k (later_item h))

  fields_complete :
      (z : Hashing) (v : Fields)
      → ((k : String) → FieldsHaveKey k v → is_forbidden (z.lower k) ≡ false)
      → fields_body_free z v ≡ true
  fields_complete z no_fields f = refl
  fields_complete z (field j v rest) f =
      and_true _ _
        (and_true _ _ (not-false _ (f j this_key)) (complete z v λ k h. f k (this_value h)))
        (fields_complete z rest λ k h. f k (later_field h))

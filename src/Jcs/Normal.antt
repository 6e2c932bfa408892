-- ===== src/Jcs/Normal.antt =====
-- The canonical text of a value is the plain text, in the order of its fields, of the value whose
-- objects are sorted.
use codex_feishu.Prelude.{
  inl, inr, subst, Bool, true, false, Option, none, some, List, [], ◌∷◌, ◌++◌, ◌≡◌, refl,
  if◌then◌else◌, Codes, Bool-cases,
}
use codex_feishu.Jcs.{
  Value, null, boolean, integer, text, array, object, unsupported, Items, no_items, item, Fields,
  no_fields, field, ◌>>=◌, number, quote, comma_join, Entry, bytes_ltb, utf_16_be, utf16_sort_key,
  validate_unicode, insert_sorted, sorted, members, object_text, canonicalize_text, item_texts,
  field_entries,
}

-- What a chain of two results that succeeds has computed.
pub bind-some :
    {A B : Type 0} (o : Option A) (f : A → Option B) {b : B}
    → (o >>= f) ≡ some b
    → (a : A) × (o ≡ some a) × (f a ≡ some b)
bind-some none f e = cc
bind-some (some a) f e = (a, refl, e)

-- One key stands before another in the order of the sort keys.
unfoldable pub key_ltb : Option Codes → Option Codes → Bool
key_ltb none k = false
key_ltb (some j) none = false
key_ltb (some j) (some k) = bytes_ltb (utf_16_be j) (utf_16_be k)

unfoldable pub insert_field : Option Codes → Value → Fields → Fields
insert_field k v no_fields = field k v no_fields
insert_field k v (field j w rest) =
    if key_ltb j k then field j w (insert_field k v rest) else field k v (field j w rest)

unfoldable mutual
  -- The value with the fields of every object in the order of the sort keys.
  pub normal : Value → Value
  normal null = null
  normal (boolean b) = boolean b
  normal (integer n) = integer n
  normal (text s) = text s
  normal (array items) = array (normal_items items)
  normal (object fields) = object (normal_fields fields)
  normal unsupported = unsupported

  pub normal_items : Items → Items
  normal_items no_items = no_items
  normal_items (item v rest) = item (normal v) (normal_items rest)

  pub normal_fields : Fields → Fields
  normal_fields no_fields = no_fields
  normal_fields (field k v rest) = insert_field k (normal v) (normal_fields rest)

unfoldable mutual
  -- The text of a value with its fields as they stand.
  pub plain_text : Value → Option Codes
  plain_text null = canonicalize_text null
  plain_text (boolean b) = canonicalize_text (boolean b)
  plain_text (integer n) = number n
  plain_text (text s) = quote s
  plain_text (array items) = do
    texts ← plain_items items
    some (b'[' ∷ comma_join texts ++ b']' ∷ [])
  plain_text (object fields) = do
    texts ← plain_members fields
    some (b'{' ∷ comma_join texts ++ b'}' ∷ [])
  plain_text unsupported = none

  pub plain_items : Items → Option (List Codes)
  plain_items no_items = some []
  plain_items (item v rest) = do t ← plain_text v; more ← plain_items rest; some (t ∷ more)

  pub plain_members : Fields → Option (List Codes)
  plain_members no_fields = some []
  plain_members (field none v rest) = none
  plain_members (field (some k) v rest) = do
    quoted ← quote k
    t ← plain_text v
    more ← plain_members rest
    some ((quoted ++ b':' ∷ t) ∷ more)

-- The entries are those of the fields, in their order.
abbrev Prints : Fields → List Entry → Type 0
Prints no_fields [] = Unit
Prints no_fields (e ∷ es) = ⊥
Prints (field none v rest) es = ⊥
Prints (field (some k) v rest) [] = ⊥
Prints (field (some k) v rest) (e ∷ es) =
    (e.key ≡ k) × (e.sort_key ≡ utf_16_be k) × (plain_text v ≡ some e.canonical) × Prints rest es

insert_field-Prints :
    (k : Codes) (v : Value) (e : Entry) (fields : Fields) (es : List Entry)
    → e.key ≡ k
    → e.sort_key ≡ utf_16_be k
    → plain_text v ≡ some e.canonical
    → Prints fields es
    → Prints (insert_field (some k) v fields) (insert_sorted e es)
unfolding insert_field insert_sorted key_ltb
insert_field-Prints k v e no_fields [] a b c h = (a, b, c, tt)
insert_field-Prints k v e no_fields (f ∷ es) a b c h = elim h [ ]
insert_field-Prints k v e (field none w rest) es a b c h = elim h [ ]
insert_field-Prints k v e (field (some j) w rest) [] a b c h = elim h [ ]
insert_field-Prints k v e (field (some j) w rest) (f ∷ es) a b c (p, q, r, h) =
    elim (Bool-cases (bytes_ltb f.sort_key e.sort_key)) [
      | inl t ↦
          let u : bytes_ltb (utf_16_be j) (utf_16_be k) ≡ true = cc in
          rw (t, u) (p, q, r, insert_field-Prints k v e rest es a b c h)
      | inr t ↦
          let u : bytes_ltb (utf_16_be j) (utf_16_be k) ≡ false = cc in
          rw (t, u) (a, b, c, (p, q, r, h))
    ]

Prints-members :
    (fields : Fields) (es : List Entry) (texts : List Codes)
    → Prints fields es
    → members es ≡ some texts
    → plain_members fields ≡ some texts
unfolding members plain_text
Prints-members no_fields [] texts h e = e
Prints-members no_fields (f ∷ es) texts h e = elim h [ ]
Prints-members (field none v rest) es texts h e = elim h [ ]
Prints-members (field (some k) v rest) [] texts h e = elim h [ ]
Prints-members (field (some k) v rest) (f ∷ es) texts (p, q, r, h) e =
    let (quoted, a, b) = bind-some (quote f.key) _ e in
    let (more, c, d) = bind-some (members es) _ b in
    let a' : quote k ≡ some quoted = cc in rw (a', r, Prints-members rest es more h c) d

pub sort_key-some : (k s : Codes) → utf16_sort_key k ≡ some s → s ≡ utf_16_be k
unfolding utf16_sort_key
sort_key-some k s e = elim (Bool-cases (validate_unicode k)) [
  | inl v ↦ let e' : some (utf_16_be k) ≡ some s = rw v at e in cc
  | inr v ↦ let e' : none ≡ some s = rw v at e in cc
]

mutual
  unfolding canonicalize_text plain_text normal sorted object_text

  normal-plain :
      (v : Value) (t : Codes) → canonicalize_text v ≡ some t → plain_text (normal v) ≡ some t
  normal-plain null t e = e
  normal-plain (boolean b) t e = e
  normal-plain (integer n) t e = e
  normal-plain (text s) t e = e
  normal-plain (array items) t e =
      let (texts, a, b) = bind-some (item_texts items) _ e in
      rw (normal_items-plain items texts a) b
  normal-plain (object fields) t e =
      let (es, a, b) = bind-some (field_entries fields) _ e in
      let (texts, c, d) = bind-some (members (sorted es)) _ b in
      rw
        (Prints-members (normal_fields fields) (sorted es) texts (normal_fields-Prints fields es a)
          c)
        d
  normal-plain unsupported t e = cc

  normal_items-plain :
      (items : Items) (texts : List Codes)
      → item_texts items ≡ some texts
      → plain_items (normal_items items) ≡ some texts
  normal_items-plain no_items texts e = e
  normal_items-plain (item v rest) texts e =
      let (t, a, b) = bind-some (canonicalize_text v) _ e in
      let (more, c, d) = bind-some (item_texts rest) _ b in
      rw (normal-plain v t a, normal_items-plain rest more c) d

  normal_fields-Prints :
      (fields : Fields) (es : List Entry)
      → field_entries fields ≡ some es
      → Prints (normal_fields fields) (sorted es)
  normal_fields-Prints no_fields es e =
      let e' : [] ≡ es = cc in subst (λ x. Prints no_fields (sorted x)) e' tt
  normal_fields-Prints (field none v rest) es e = cc
  normal_fields-Prints (field (some k) v rest) es e =
      let (s, a, b) = bind-some (utf16_sort_key k) _ e in
      let (t, c, d) = bind-some (canonicalize_text v) _ b in
      let (more, g, h) = bind-some (field_entries rest) _ d in
      let e' : (record { sort_key = s; key = k; canonical = t } ∷ more) ≡ es = cc in
      subst (λ x. Prints (normal_fields (field (some k) v rest)) (sorted x)) e'
        (insert_field-Prints k (normal v) (record { sort_key = s; key = k; canonical = t })
          (normal_fields rest) (sorted more) refl (sort_key-some k s a) (normal-plain v t c)
          (normal_fields-Prints rest more g))

pub canonicalize_text-plain :
    (v : Value) (t : Codes) → canonicalize_text v ≡ some t → plain_text (normal v) ≡ some t
canonicalize_text-plain v t e = normal-plain v t e

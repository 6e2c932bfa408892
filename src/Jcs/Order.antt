-- ===== src/Jcs/Order.antt =====
-- The order of the keys of an object does not show in the canonical text.
use codex_feishu.Jcs.Normal.{sort_key-some}
use codex_feishu.Prelude.{
  ◌++◌, true, false, not, Option, none, some, List, [], ◌∷◌, ◌≡◌, ◌≢◌, refl, sym, ap, ◌∙◌, arith,
  inl, inr, Codes, Bool-cases, Option-cases, ◌==◌,
}
use codex_feishu.Jcs.{
  Value, array, object, Items, item, Fields, field, ◌>>=◌, Entry, bytes_ltb, utf_16_be,
  utf16_sort_key, insert_sorted, sorted, members, object_text, canonicalize_text, item_texts,
  field_entries, comma_join,
}

mutual
  -- The values differ in the order of the keys of objects only. Two neighbours change places if
  -- their sort keys differ.
  pub data Same : Value → Value → Type 0 where
    same : {v : Value} → Same v v
    reversed : {v w : Value} → Same v w → Same w v
    joined : {u v w : Value} → Same u v → Same v w → Same u w
    in_array : {is js : Items} → SameItems is js → Same (array is) (array js)
    in_object : {fs gs : Fields} → SameFields fs gs → Same (object fs) (object gs)

  pub data SameItems : Items → Items → Type 0 where
    same_items : {is : Items} → SameItems is is
    at_item :
        {v w : Value} {is js : Items}
        → Same v w
        → SameItems is js
        → SameItems (item v is) (item w js)

  pub data SameFields : Fields → Fields → Type 0 where
    same_fields : {fs : Fields} → SameFields fs fs
    joined_fields : {fs gs hs : Fields} → SameFields fs gs → SameFields gs hs → SameFields fs hs
    at_field :
        {k : Option Codes} {v w : Value} {fs gs : Fields}
        → Same v w
        → SameFields fs gs
        → SameFields (field k v fs) (field k w gs)
    swap :
        {j k : Codes} {v w : Value} {fs : Fields}
        → utf_16_be j ≢ utf_16_be k
        → SameFields
            (field (some j) v (field (some k) w fs))
            (field (some k) w (field (some j) v fs))

pub bytes_ltb-connected : (s t : Codes) → s ≢ t → bytes_ltb s t ≡ not (bytes_ltb t s)
unfolding bytes_ltb
bytes_ltb-connected [] [] n = absurd (n refl)
bytes_ltb-connected [] (d ∷ t) n = refl
bytes_ltb-connected (c ∷ s) [] n = refl
bytes_ltb-connected (c ∷ s) (d ∷ t) n = elim (Bool-cases (c == d)) [
  | inl e ↦
      let d' : c ≡ d = ground (arith, e) in
      let ih = bytes_ltb-connected s t (λ p. n (cc)) in ground (arith, d', ih)
  | inr e ↦ ground (arith, e)
]

pub bytes_ltb-between :
    (f s t : Codes) → bytes_ltb f s ≡ false → bytes_ltb f t ≡ true → bytes_ltb s t ≡ true
unfolding bytes_ltb
bytes_ltb-between f [] [] p q = cc
bytes_ltb-between f [] (d ∷ t) p q = refl
bytes_ltb-between f (c ∷ s) [] p q = cc
bytes_ltb-between [] (c ∷ s) (d ∷ t) p q = cc
bytes_ltb-between (b ∷ f) (c ∷ s) (d ∷ t) p q = ground (arith, p, q, bytes_ltb-between f s t)

insert_sorted_comm :
    (a b : Entry) (es : List Entry)
    → a.sort_key ≢ b.sort_key
    → insert_sorted a (insert_sorted b es) ≡ insert_sorted b (insert_sorted a es)
unfolding insert_sorted
insert_sorted_comm a b [] n = elim (Bool-cases (bytes_ltb b.sort_key a.sort_key)) [
  | inl e ↦ rw (bytes_ltb-connected a.sort_key b.sort_key n, e) refl
  | inr e ↦ rw (bytes_ltb-connected a.sort_key b.sort_key n, e) refl
]
insert_sorted_comm a b (f ∷ es) n = elim (Bool-cases (bytes_ltb f.sort_key a.sort_key)) [
  | inl p ↦ elim (Bool-cases (bytes_ltb f.sort_key b.sort_key)) [
    | inl q ↦ rw (p, q, p, insert_sorted_comm a b es n) refl
    | inr q ↦ let r = bytes_ltb-between f.sort_key b.sort_key a.sort_key q p in rw (q, r, p, q) refl
  ]
  | inr p ↦ elim (Bool-cases (bytes_ltb f.sort_key b.sort_key)) [
    | inl q ↦ let r = bytes_ltb-between f.sort_key a.sort_key b.sort_key p q in rw (p, q, r, p) refl
    | inr q ↦ elim (Bool-cases (bytes_ltb b.sort_key a.sort_key)) [
      | inl r ↦ rw (p, q, p, bytes_ltb-connected a.sort_key b.sort_key n, r) refl
      | inr r ↦ rw (p, q, p, bytes_ltb-connected a.sort_key b.sort_key n, r) refl
    ]
  ]
]

-- The entries of the fields, sorted.
arranged : Fields → Option (List Entry)
arranged fs = field_entries fs >>= λ es. some (sorted es)

with_entry : Codes → Option Codes → Option Codes → Option (List Entry) → Option (List Entry)
with_entry k none t es = none
with_entry k (some s) none es = none
with_entry k (some s) (some t) none = none
with_entry k (some s) (some t) (some es) =
    some (insert_sorted (record { sort_key = s; key = k; canonical = t }) es)

arranged-field :
    (k : Codes) (v : Value) (fs : Fields)
    → arranged (field (some k) v fs)
      ≡ with_entry k (utf16_sort_key k) (canonicalize_text v) (arranged fs)
unfolding arranged with_entry canonicalize_text sorted
arranged-field k v fs = elim (Option-cases (utf16_sort_key k)) [
  | inl e ↦ rw e refl
  | inr (s, e) ↦ elim (Option-cases (canonicalize_text v)) [
    | inl g ↦ rw (e, g) refl
    | inr (t, g) ↦ elim (Option-cases (field_entries fs)) [
      | inl h ↦ rw (e, g, h) refl
      | inr (es, h) ↦ rw (e, g, h) refl
    ]
  ]
]

with_entry-swap :
    (j k : Codes) (o p a b : Option Codes) (es : Option (List Entry))
    → ((s t : Codes) → o ≡ some s → p ≡ some t → s ≢ t)
    → with_entry j o a (with_entry k p b es) ≡ with_entry k p b (with_entry j o a es)
unfolding with_entry
with_entry-swap j k none none a b es n = refl
with_entry-swap j k none (some t) a none es n = refl
with_entry-swap j k none (some t) a (some y) es n = refl
with_entry-swap j k (some s) none none b es n = refl
with_entry-swap j k (some s) none (some x) b es n = refl
with_entry-swap j k (some s) (some t) none none es n = refl
with_entry-swap j k (some s) (some t) none (some y) es n = refl
with_entry-swap j k (some s) (some t) (some x) none es n = refl
with_entry-swap j k (some s) (some t) (some x) (some y) none n = refl
with_entry-swap j k (some s) (some t) (some x) (some y) (some es) n =
    ap some (insert_sorted_comm _ _ es (n s t refl refl))

arranged-none :
    (v w : Value) (fs gs : Fields) → arranged (field none v fs) ≡ arranged (field none w gs)
unfolding arranged canonicalize_text
arranged-none v w fs gs = refl

arranged-swap :
    (j k : Codes) (v w : Value) (fs : Fields)
    → utf_16_be j ≢ utf_16_be k
    → arranged (field (some j) v (field (some k) w fs))
      ≡ arranged (field (some k) w (field (some j) v fs))
arranged-swap j k v w fs n =
    rw
      (
        arranged-field j v (field (some k) w fs),
        arranged-field k w fs,
        arranged-field k w (field (some j) v fs),
        arranged-field j v fs,
      )
      (with_entry-swap j k _ _ _ _ _
        (λ s t p q e. n (sym (sort_key-some j s p) ∙ (e ∙ sort_key-some k t q))))

arranged_text : Option (List Entry) → Option Codes
arranged_text es = es >>= λ x. members x >>= λ texts. some (b'{' ∷ comma_join texts ++ b'}' ∷ [])

object-arranged : (fs : Fields) → canonicalize_text (object fs) ≡ arranged_text (arranged fs)
unfolding canonicalize_text object_text arranged arranged_text
object-arranged fs = elim (Option-cases (field_entries fs)) [
  | inl e ↦ rw e refl
  | inr (es, e) ↦ rw e refl
]

arranged-at_field :
    (k : Option Codes) (v w : Value) (fs gs : Fields)
    → canonicalize_text v ≡ canonicalize_text w
    → arranged fs ≡ arranged gs
    → arranged (field k v fs) ≡ arranged (field k w gs)
arranged-at_field none v w fs gs p q = arranged-none v w fs gs
arranged-at_field (some k) v w fs gs p q =
    rw (arranged-field k v fs, arranged-field k w gs, p, q) refl

mutual
  unfolding canonicalize_text

  Same-canonicalize_text : {v w : Value} → Same v w → canonicalize_text v ≡ canonicalize_text w
  Same-canonicalize_text same = refl
  Same-canonicalize_text (reversed p) = sym (Same-canonicalize_text p)
  Same-canonicalize_text (joined p q) = Same-canonicalize_text p ∙ Same-canonicalize_text q
  Same-canonicalize_text (in_array p) =
      ap (λ x. x >>= λ texts. some (b'[' ∷ comma_join texts ++ b']' ∷ [])) (SameItems-item_texts p)
  Same-canonicalize_text (in_object {fs} {gs} p) =
      object-arranged fs ∙ (ap arranged_text (SameFields-arranged p) ∙ sym (object-arranged gs))

  SameItems-item_texts : {is js : Items} → SameItems is js → item_texts is ≡ item_texts js
  SameItems-item_texts same_items = refl
  SameItems-item_texts (at_item p q) =
      λ i. Same-canonicalize_text p i >>= λ t. SameItems-item_texts q i >>= λ more. some (t ∷ more)

  SameFields-arranged : {fs gs : Fields} → SameFields fs gs → arranged fs ≡ arranged gs
  SameFields-arranged same_fields = refl
  SameFields-arranged (joined_fields p q) = SameFields-arranged p ∙ SameFields-arranged q
  SameFields-arranged (at_field {k} {v} {w} {fs} {gs} p q) =
      arranged-at_field k v w fs gs (Same-canonicalize_text p) (SameFields-arranged q)
  SameFields-arranged (swap {j} {k} {v} {w} {fs} n) = arranged-swap j k v w fs n

-- Values that differ in the order of keys have one canonical text, or both have none.
pub canonicalize_text-Same : {v w : Value} → Same v w → canonicalize_text v ≡ canonicalize_text w
canonicalize_text-Same p = Same-canonicalize_text p

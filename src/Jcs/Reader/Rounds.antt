-- ===== src/Jcs/Reader/Rounds.antt =====
-- One round of each loop of the reader, and the rounds that a value needs.
use mathlib.Core.List.{append_assoc}
use codex_feishu.Prelude.{
  ℕ, zero, suc, ◌+◌, ◌≤◌, true, false, none, some, List, [], ◌∷◌, ◌++◌, ◌≡◌, refl, subst, ◌∙◌, ap,
  arith, inl, inr, ltb, Codes, is_digit, Bool-cases, ◌==◌,
}
use codex_feishu.Json.{ℤ, pos, negsuc}
use codex_feishu.Jcs.{
  Value, null, boolean, integer, text, array, object, unsupported, Items, no_items, item, Fields,
  no_fields, field, number, decimal, max_safe_integer, quote, comma_join, comma_each,
}
use codex_feishu.Jcs.Reader.{
  read_key_text, read_value, read_items, read_more_items, read_fields, read_more_fields,
  read_positive, read_negative, read_keyword, read_digits, read_key, read_key_text, with_item,
  with_field, expect,
}
use codex_feishu.Jcs.Reader.Texts.{read_text-quote}
use codex_feishu.Jcs.Reader.Numbers.{Stops, read_digits-decimal, decimal-head}

unfoldable mutual
  -- The rounds that the reader needs.
  pub cost : Value → ℕ
  cost null = 1
  cost (boolean b) = 1
  cost (integer n) = 1
  cost (text s) = 1
  cost (array items) = suc (cost_items items)
  cost (object fields) = suc (cost_fields fields)
  cost unsupported = 1

  pub cost_items : Items → ℕ
  cost_items no_items = 1
  cost_items (item v rest) = suc (cost v + cost_items rest)

  pub cost_fields : Fields → ℕ
  cost_fields no_fields = 1
  cost_fields (field k v rest) = suc (cost v + cost_fields rest)

pub some-eq : {A : Type 0} {a b : A} → some a ≡ some b → a ≡ b
some-eq e = cc e

read_value_digit :
    (fuel c : ℕ) (s : Codes)
    → is_digit c ≡ true
    → read_value (suc fuel) (c ∷ s) ≡ read_positive (read_digits 0 (c ∷ s))
unfolding read_value
read_value_digit fuel c s e =
    let p : (c == b'[') ≡ false = ground (arith, e) in
    let q : (c == b'{') ≡ false = ground (arith, e) in rw (read_value, p, q, e) refl

read_value-decimal :
    (fuel n : ℕ) (rest : Codes)
    → Stops rest
    → read_value (suc fuel) (decimal n ++ rest) ≡ some (integer (pos n), rest)
unfolding read_positive
read_value-decimal fuel n rest h =
    let (c, s, p, q) = decimal-head n in
    let back : read_digits 0 (c ∷ s ++ rest) ≡ (n, rest) = rw p at (read_digits-decimal n rest h) in
    rw (p, read_value_digit fuel c (s ++ rest) q, back) refl

pub read_value-number :
    (fuel : ℕ) (n : ℤ) (t rest : Codes)
    → number n ≡ some t
    → Stops rest
    → read_value (suc fuel) (t ++ rest) ≡ some (integer n, rest)
unfolding number read_value read_negative
read_value-number fuel (pos n) t rest e h = elim (Bool-cases (ltb max_safe_integer n)) [
  | inl b ↦ let e' : none ≡ some t = rw b at e in cc
  | inr b ↦
      let e' : some (decimal n) ≡ some t = rw b at e in
      let d : decimal n ≡ t = cc in
      subst (λ x. read_value (suc fuel) (x ++ rest) ≡ some (integer (pos n), rest)) d
        (read_value-decimal fuel n rest h)
]
read_value-number fuel (negsuc n) t rest e h = elim (Bool-cases (ltb max_safe_integer (suc n))) [
  | inl b ↦ let e' : none ≡ some t = rw b at e in cc
  | inr b ↦
      let e' : some (b'-' ∷ decimal (suc n)) ≡ some t = rw b at e in
      let d : b'-' ∷ decimal (suc n) ≡ t = cc in
      subst (λ x. read_value (suc fuel) (x ++ rest) ≡ some (integer (negsuc n), rest)) d
        (ap read_negative (read_digits-decimal (suc n) rest h))
]

pub cost_pos : (v : Value) → cost v ≤ 0 → ⊥
unfolding cost
cost_pos null h = omega arith
cost_pos (boolean b) h = omega arith
cost_pos (integer n) h = omega arith
cost_pos (text s) h = omega arith
cost_pos (array _) h = omega arith
cost_pos (object _) h = omega arith
cost_pos unsupported h = omega arith

pub cost_items_pos : (items : Items) → cost_items items ≤ 0 → ⊥
unfolding cost
cost_items_pos no_items h = omega arith
cost_items_pos (item v rest) h = omega arith

pub cost_fields_pos : (fields : Fields) → cost_fields fields ≤ 0 → ⊥
unfolding cost
cost_fields_pos no_fields h = omega arith
cost_fields_pos (field k v rest) h = omega arith

-- No value starts with a closing bracket.
pub no_value_items :
    (fuel : ℕ) (rest : Codes) → read_items (suc fuel) (b']' ∷ rest) ≡ some (no_items, rest)
unfolding read_value read_keyword expect
no_value_items zero rest = refl
no_value_items (suc fuel) [] = refl
no_value_items (suc fuel) (x ∷ []) = refl
no_value_items (suc fuel) (x ∷ y ∷ []) = refl
no_value_items (suc fuel) (x ∷ y ∷ z ∷ s) = refl

-- A key with its quotes and its colon.
read_key-quote :
    (k quoted rest : Codes)
    → quote k ≡ some quoted
    → read_key (quoted ++ b':' ∷ rest) ≡ some (k, rest)
unfolding read_key read_key_text expect
read_key-quote k quoted rest e =
    let (u, p, q) = read_text-quote k quoted (b':' ∷ rest) e in rw (p, q) refl

pub comma_each-Stops :
    (d : ℕ) (texts : List Codes) (rest : Codes)
    → is_digit d ≡ false
    → Stops (comma_each texts ++ d ∷ rest)
unfolding comma_each
comma_each-Stops d [] rest h = h
comma_each-Stops d (t ∷ more) rest h = refl

-- One round of the loops over the items of an array and the fields of an object.
module _ (fuel : ℕ) (v : Value) (t : Codes) (more : List Codes) (rest : Codes) (items : Items) where
  abbrev pub after_item : Codes
  after_item = comma_each more ++ b']' ∷ rest

  module _ (now : read_value fuel (t ++ after_item) ≡ some (v, after_item))
      (later : read_more_items fuel after_item ≡ some (items, rest)) where
    pub first_item :
        read_items (suc fuel) (comma_join (t ∷ more) ++ b']' ∷ rest) ≡ some (item v items, rest)
    unfolding comma_join with_item read_items
    first_item = rw (append_assoc t (comma_each more) (b']' ∷ rest), read_items, now, later) refl

    pub next_item :
        read_more_items (suc fuel) (comma_each (t ∷ more) ++ b']' ∷ rest)
        ≡ some (item v items, rest)
    unfolding comma_each with_item read_more_items
    next_item =
        rw (append_assoc t (comma_each more) (b']' ∷ rest), read_more_items, now, later) refl

module _ (fuel : ℕ) (k quoted : Codes) (v : Value) (t : Codes) (more : List Codes) (rest : Codes)
    (fields : Fields) where
  abbrev pub after_field : Codes
  after_field = comma_each more ++ b'}' ∷ rest

  abbrev pub member : Codes
  member = quoted ++ b':' ∷ t

  regroup : (member ++ comma_each more) ++ b'}' ∷ rest ≡ quoted ++ b':' ∷ (t ++ after_field)
  regroup =
      append_assoc member (comma_each more) (b'}' ∷ rest)
      ∙ append_assoc quoted (b':' ∷ t) after_field

  module _ (named : quote k ≡ some quoted)
      (now : read_value fuel (t ++ after_field) ≡ some (v, after_field))
      (later : read_more_fields fuel after_field ≡ some (fields, rest)) where
    pub first_field :
        read_fields (suc fuel) (comma_join (member ∷ more) ++ b'}' ∷ rest)
        ≡ some (field (some k) v fields, rest)
    unfolding comma_join with_field read_fields
    first_field =
        rw (regroup, read_fields, read_key-quote k quoted (t ++ after_field) named, now, later) refl

    pub next_field :
        read_more_fields (suc fuel) (comma_each (member ∷ more) ++ b'}' ∷ rest)
        ≡ some (field (some k) v fields, rest)
    unfolding comma_each with_field read_more_fields
    next_field =
        rw (regroup, read_more_fields, read_key-quote k quoted (t ++ after_field) named, now, later)
          refl

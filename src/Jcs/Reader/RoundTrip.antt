-- ===== src/Jcs/Reader/RoundTrip.antt =====
-- The reader returns the value whose plain text it is given, whatever follows the text.
use mathlib.Core.List.{append_assoc, append-nil}
use codex_feishu.Prelude.{
  ℕ, zero, suc, ◌≤◌, true, false, none, some, List, [], ◌∷◌, ◌++◌, ◌≡◌, refl, subst, arith, Codes,
}
use codex_feishu.Jcs.{
  Value, null, boolean, integer, text, array, object, unsupported, Items, no_items, item, Fields,
  no_fields, field, quote, comma_join, comma_each, canonicalize_text,
}
use codex_feishu.Jcs.Normal.{
  normal, canonicalize_text-plain, plain_text, plain_items, plain_members, bind-some,
}
use codex_feishu.Jcs.Reader.{
  read_value, read_items, read_more_items, read_fields, read_more_fields, read_array, read_object,
  read_string, read_keyword, read_key, with_item, with_field, expect,
}
use codex_feishu.Jcs.Reader.Texts.{read_text-quote}
use codex_feishu.Jcs.Reader.Numbers.{Stops}
use codex_feishu.Jcs.Reader.Rounds.{
  some-eq, read_value-number, cost, cost_items, cost_fields, cost_pos, cost_items_pos,
  cost_fields_pos, no_value_items, first_item, next_item, first_field, next_field, comma_each-Stops,
}

mutual
  unfolding plain_text read_value canonicalize_text cost comma_join comma_each read_array
      read_object read_string with_item with_field expect read_key read_keyword

  read_value-plain :
      (v : Value) (t rest : Codes) (fuel : ℕ)
      → plain_text v ≡ some t
      → cost v ≤ fuel
      → Stops rest
      → read_value fuel (t ++ rest) ≡ some (v, rest)
  read_value-plain v t rest zero e h s = absurd (cost_pos v h)
  read_value-plain null t rest (suc fuel) e h s =
      subst (λ x. read_value (suc fuel) (x ++ rest) ≡ some (null, rest)) (some-eq e) refl
  read_value-plain (boolean true) t rest (suc fuel) e h s =
      subst (λ x. read_value (suc fuel) (x ++ rest) ≡ some (boolean true, rest)) (some-eq e) refl
  read_value-plain (boolean false) t rest (suc fuel) e h s =
      subst (λ x. read_value (suc fuel) (x ++ rest) ≡ some (boolean false, rest)) (some-eq e) refl
  read_value-plain (integer n) t rest (suc fuel) e h s = read_value-number fuel n t rest e s
  read_value-plain (text k) t rest (suc fuel) e h s =
      let (u, p, q) = read_text-quote k t rest e in rw (p, q) refl
  read_value-plain (array items) t rest (suc fuel) e h s =
      let (texts, a, b) = bind-some (plain_items items) _ e in
      subst (λ x. read_value (suc fuel) (x ++ rest) ≡ some (array items, rest)) (some-eq b)
        (rw
          (
            append_assoc (comma_join texts) (b']' ∷ []) rest,
            read_items-plain items texts rest fuel a (omega arith),
          )
          refl)
  read_value-plain (object fields) t rest (suc fuel) e h s =
      let (texts, a, b) = bind-some (plain_members fields) _ e in
      subst (λ x. read_value (suc fuel) (x ++ rest) ≡ some (object fields, rest)) (some-eq b)
        (rw
          (
            append_assoc (comma_join texts) (b'}' ∷ []) rest,
            read_fields-plain fields texts rest fuel a (omega arith),
          )
          refl)
  read_value-plain unsupported t rest (suc fuel) e h s = cc

  read_items-plain :
      (items : Items) (texts : List Codes) (rest : Codes) (fuel : ℕ)
      → plain_items items ≡ some texts
      → cost_items items ≤ fuel
      → read_items fuel (comma_join texts ++ b']' ∷ rest) ≡ some (items, rest)
  read_items-plain items texts rest zero e h = absurd (cost_items_pos items h)
  read_items-plain no_items texts rest (suc fuel) e h =
      subst (λ x. read_items (suc fuel) (comma_join x ++ b']' ∷ rest) ≡ some (no_items, rest))
        (some-eq e) (no_value_items fuel rest)
  read_items-plain (item v items) texts rest (suc fuel) e h =
      let (t, a, b) = bind-some (plain_text v) _ e in
      let (more, c, d) = bind-some (plain_items items) _ b in
      subst (λ x. read_items (suc fuel) (comma_join x ++ b']' ∷ rest) ≡ some (item v items, rest))
        (some-eq d)
        (first_item fuel v t more rest items
          (read_value-plain v t _ fuel a (omega arith) (comma_each-Stops b']' more rest refl))
          (read_more_items-plain items more rest fuel c (omega arith)))

  read_more_items-plain :
      (items : Items) (texts : List Codes) (rest : Codes) (fuel : ℕ)
      → plain_items items ≡ some texts
      → cost_items items ≤ fuel
      → read_more_items fuel (comma_each texts ++ b']' ∷ rest) ≡ some (items, rest)
  read_more_items-plain items texts rest zero e h = absurd (cost_items_pos items h)
  read_more_items-plain no_items texts rest (suc fuel) e h =
      subst (λ x. read_more_items (suc fuel) (comma_each x ++ b']' ∷ rest) ≡ some (no_items, rest))
        (some-eq e) refl
  read_more_items-plain (item v items) texts rest (suc fuel) e h =
      let (t, a, b) = bind-some (plain_text v) _ e in
      let (more, c, d) = bind-some (plain_items items) _ b in
      subst
        (λ x. read_more_items (suc fuel) (comma_each x ++ b']' ∷ rest) ≡ some (item v items, rest))
        (some-eq d)
        (next_item fuel v t more rest items
          (read_value-plain v t _ fuel a (omega arith) (comma_each-Stops b']' more rest refl))
          (read_more_items-plain items more rest fuel c (omega arith)))

  read_fields-plain :
      (fields : Fields) (texts : List Codes) (rest : Codes) (fuel : ℕ)
      → plain_members fields ≡ some texts
      → cost_fields fields ≤ fuel
      → read_fields fuel (comma_join texts ++ b'}' ∷ rest) ≡ some (fields, rest)
  read_fields-plain fields texts rest zero e h = absurd (cost_fields_pos fields h)
  read_fields-plain no_fields texts rest (suc fuel) e h =
      subst (λ x. read_fields (suc fuel) (comma_join x ++ b'}' ∷ rest) ≡ some (no_fields, rest))
        (some-eq e) refl
  read_fields-plain (field none v _) texts rest (suc fuel) e h = cc
  read_fields-plain (field (some k) v fields) texts rest (suc fuel) e h =
      let (quoted, q, a) = bind-some (quote k) _ e in
      let (t, b, c) = bind-some (plain_text v) _ a in
      let (more, d, g) = bind-some (plain_members fields) _ c in
      subst
        (λ x.
          read_fields (suc fuel) (comma_join x ++ b'}' ∷ rest)
          ≡ some (field (some k) v fields, rest))
        (some-eq g)
        (first_field fuel k quoted v t more rest fields q
          (read_value-plain v t _ fuel b (omega arith) (comma_each-Stops b'}' more rest refl))
          (read_more_fields-plain fields more rest fuel d (omega arith)))

  read_more_fields-plain :
      (fields : Fields) (texts : List Codes) (rest : Codes) (fuel : ℕ)
      → plain_members fields ≡ some texts
      → cost_fields fields ≤ fuel
      → read_more_fields fuel (comma_each texts ++ b'}' ∷ rest) ≡ some (fields, rest)
  read_more_fields-plain fields texts rest zero e h = absurd (cost_fields_pos fields h)
  read_more_fields-plain no_fields texts rest (suc fuel) e h =
      subst
        (λ x. read_more_fields (suc fuel) (comma_each x ++ b'}' ∷ rest) ≡ some (no_fields, rest))
        (some-eq e) refl
  read_more_fields-plain (field none v _) texts rest (suc fuel) e h = cc
  read_more_fields-plain (field (some k) v fields) texts rest (suc fuel) e h =
      let (quoted, q, a) = bind-some (quote k) _ e in
      let (t, b, c) = bind-some (plain_text v) _ a in
      let (more, d, g) = bind-some (plain_members fields) _ c in
      subst
        (λ x.
          read_more_fields (suc fuel) (comma_each x ++ b'}' ∷ rest)
          ≡ some (field (some k) v fields, rest))
        (some-eq g)
        (next_field fuel k quoted v t more rest fields q
          (read_value-plain v t _ fuel b (omega arith) (comma_each-Stops b'}' more rest refl))
          (read_more_fields-plain fields more rest fuel d (omega arith)))

-- The canonical text of a value reads back as the value with the fields of its objects in the order
-- of their sort keys, and nothing of the text is left.
pub read_value-canonicalize_text :
    (v : Value) (t : Codes) (fuel : ℕ)
    → canonicalize_text v ≡ some t
    → cost (normal v) ≤ fuel
    → read_value fuel t ≡ some (normal v, [])
read_value-canonicalize_text v t fuel e h =
    rw append-nil at (read_value-plain (normal v) t [] fuel (canonicalize_text-plain v t e) h tt)

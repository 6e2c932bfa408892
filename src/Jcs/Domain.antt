-- ===== src/Jcs/Domain.antt =====
-- The values that have a canonical text.
use codex_feishu.Prelude.{
  subst, ◌≡◌, ◌↔◌, refl, true, false, Option, none, some, List, [], ◌∷◌, Codes,
}
use codex_feishu.Jcs.{
  Value, null, boolean, integer, text, array, object, unsupported, Items, no_items, item, Fields,
  no_fields, field, utf16_sort_key, Entry, sorted, members, object_text, canonicalize_text,
  item_texts, field_entries,
}
use codex_feishu.Jcs.Normal.{bind-some}
use codex_feishu.Jcs.Success.{
  IsUnicode, IsSafe, Succeeds, number-Succeeds, number-IsSafe, quote-Succeeds, quote-IsUnicode,
  sort_key-Succeeds, sort_key-IsUnicode, bind-Succeeds, bind-first, bind-second, AreQuotable,
  sorted-AreQuotable, members-Succeeds,
}

mutual
  -- A value of the JSON data model: safe integers, texts without surrogates, and objects whose
  -- keys are such texts, at every depth.
  pub InDomain : Value → Type 0
  InDomain null = Unit
  InDomain (boolean b) = Unit
  InDomain (integer n) = IsSafe n
  InDomain (text s) = IsUnicode s
  InDomain (array is) = ItemsInDomain is
  InDomain (object fs) = FieldsInDomain fs
  InDomain unsupported = ⊥

  pub ItemsInDomain : Items → Type 0
  ItemsInDomain no_items = Unit
  ItemsInDomain (item v is) = InDomain v × ItemsInDomain is

  pub FieldsInDomain : Fields → Type 0
  FieldsInDomain no_fields = Unit
  FieldsInDomain (field none v fs) = ⊥
  FieldsInDomain (field (some k) v fs) = IsUnicode k × InDomain v × FieldsInDomain fs

mutual
  unfolding canonicalize_text AreQuotable object_text InDomain

  InDomain-Succeeds : (v : Value) → InDomain v → Succeeds (canonicalize_text v)
  InDomain-Succeeds null h = tt
  InDomain-Succeeds (boolean true) h = tt
  InDomain-Succeeds (boolean false) h = tt
  InDomain-Succeeds (integer n) h = number-Succeeds n h
  InDomain-Succeeds (text s) h = quote-Succeeds s h
  InDomain-Succeeds (array is) h = bind-Succeeds (item_texts is) _ (items-succeed is h) (λ _ _. tt)
  InDomain-Succeeds (object fs) h =
      bind-Succeeds (field_entries fs) _ (fields-succeed fs h) (λ es e.
        bind-Succeeds (members (sorted es)) _
          (members-Succeeds (sorted es) (sorted-AreQuotable es (entries-AreQuotable fs es h e)))
          (λ _ _. tt))
  InDomain-Succeeds unsupported h = h

  items-succeed : (is : Items) → ItemsInDomain is → Succeeds (item_texts is)
  items-succeed no_items h = tt
  items-succeed (item v is) h =
      bind-Succeeds (canonicalize_text v) _ (InDomain-Succeeds v h.0)
        (λ _ _. bind-Succeeds (item_texts is) _ (items-succeed is h.1) (λ _ _. tt))

  fields-succeed : (fs : Fields) → FieldsInDomain fs → Succeeds (field_entries fs)
  fields-succeed no_fields h = tt
  fields-succeed (field none v fs) h = h
  fields-succeed (field (some k) v fs) h =
      bind-Succeeds (utf16_sort_key k) _ (sort_key-Succeeds k h.0) (λ _ _.
        bind-Succeeds (canonicalize_text v) _ (InDomain-Succeeds v h.1)
          (λ _ _. bind-Succeeds (field_entries fs) _ (fields-succeed fs h.2) (λ _ _. tt)))

  entries-AreQuotable :
      (fs : Fields) (es : List Entry)
      → FieldsInDomain fs
      → field_entries fs ≡ some es
      → AreQuotable es
  entries-AreQuotable no_fields es h e = let e' : [] ≡ es = cc in subst AreQuotable e' tt
  entries-AreQuotable (field none v fs) es h e = absurd h
  entries-AreQuotable (field (some k) v fs) es h e =
      let (s, a, b) = bind-some (utf16_sort_key k) _ e in
      let (t, c, d) = bind-some (canonicalize_text v) _ b in
      let (more, g, m) = bind-some (field_entries fs) _ d in
      let m' : (record { sort_key = s; key = k; canonical = t } ∷ more) ≡ es = cc in
      subst AreQuotable m' (h.0, entries-AreQuotable fs more h.2 g)

mutual
  unfolding canonicalize_text InDomain

  canonicalize_text-InDomain : (v : Value) → Succeeds (canonicalize_text v) → InDomain v
  canonicalize_text-InDomain null h = tt
  canonicalize_text-InDomain (boolean b) h = tt
  canonicalize_text-InDomain (integer n) h = number-IsSafe n h
  canonicalize_text-InDomain (text s) h = quote-IsUnicode s h
  canonicalize_text-InDomain (array is) h = item_texts-InDomain is (bind-first (item_texts is) _ h)
  canonicalize_text-InDomain (object fs) h =
      field_entries-InDomain fs (bind-first (field_entries fs) _ h)
  canonicalize_text-InDomain unsupported h = h

  item_texts-InDomain : (is : Items) → Succeeds (item_texts is) → ItemsInDomain is
  item_texts-InDomain no_items h = tt
  item_texts-InDomain (item v is) h =
      let (t, e, k) = bind-second (canonicalize_text v) _ h in
      (
        canonicalize_text-InDomain v (bind-first (canonicalize_text v) _ h),
        item_texts-InDomain is (bind-first (item_texts is) _ k),
      )

  field_entries-InDomain : (fs : Fields) → Succeeds (field_entries fs) → FieldsInDomain fs
  field_entries-InDomain no_fields h = tt
  field_entries-InDomain (field none v fs) h = h
  field_entries-InDomain (field (some k) v fs) h =
      let (s, e, g) = bind-second (utf16_sort_key k) _ h in
      let (t, c, d) = bind-second (canonicalize_text v) _ g in
      (
        sort_key-IsUnicode k (bind-first (utf16_sort_key k) _ h),
        canonicalize_text-InDomain v (bind-first (canonicalize_text v) _ g),
        field_entries-InDomain fs (bind-first (field_entries fs) _ d),
      )

Succeeds-some : {A : Type 0} (o : Option A) → Succeeds o → (a : A) × (o ≡ some a)
Succeeds-some none h = absurd h
Succeeds-some (some a) h = (a, refl)

some-Succeeds : {A : Type 0} (o : Option A) (a : A) → o ≡ some a → Succeeds o
some-Succeeds none a e = cc
some-Succeeds (some b) a e = tt

-- A value without floats has a canonical text exactly when it belongs to the JSON data model: every
-- integer in it is in the safe range, no text or key in it has a surrogate, every key is a text, and
-- no value in it is of another type. Every other value without floats raises.
pub canonicalize_text-InDomain_iff :
    (v : Value) → InDomain v ↔ ((t : Codes) × (canonicalize_text v ≡ some t))
canonicalize_text-InDomain_iff v = (
  λ h. Succeeds-some (canonicalize_text v) (InDomain-Succeeds v h),
  λ p. canonicalize_text-InDomain v (some-Succeeds (canonicalize_text v) p.0 p.1),
)

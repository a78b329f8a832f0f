-- ===== src/Db/Activity.antt =====
-- `_activity_safe_value` of agent/src/codito_agent/db.py: what a receipt keeps of a request. JSON has no
-- value of another type; `str.casefold` is an argument.
use codito_mcp.Common.{
  ℕ, zero, suc, String, ◌≡◌, refl, Bool, true, false, ◌&&◌, List, [], ◌∷◌, map, arith,
  if◌then◌else◌, ◌==◌, nat_Eq, list_Eq, string_Eq, any, Bool-cases, inl, inr,
}
use codito_mcp.Text.{Text, codes, replace_char}
use codito_mcp.Db.Json.{
  Json, Items, Fields, null, bool, num, str, arr, obj, end_items, item, end_fields, field,
}

-- `_ACTIVITY_SECRET_KEYS`
abbrev pub activity_secret_keys : List String
activity_secret_keys =
    "access_token" ∷ "authorization" ∷ "client_secret" ∷ "cookie" ∷ "id_token" ∷ "password"
    ∷ "private_key" ∷ "refresh_token" ∷ "secret" ∷ "token" ∷ []

-- `name.casefold().replace("-", "_") in _ACTIVITY_SECRET_KEYS`
unfoldable pub is_secret : (Text → Text) → String → Bool
is_secret casefold name =
    any (λ key. codes key == map (replace_char b'-' b'_') (casefold (codes name)))
      activity_secret_keys

-- A value under `left` more levels; a depth above 12 has none left.
unfoldable mutual
  pub activity_value : (Text → Text) → ℕ → Json → Json
  activity_value casefold zero v = str "[maximum nesting reached]"
  activity_value casefold (suc left) null = null
  activity_value casefold (suc left) (bool b) = bool b
  activity_value casefold (suc left) (num n) = num n
  activity_value casefold (suc left) (str s) = str s
  activity_value casefold (suc left) (arr items) = arr (activity_items casefold left items)
  activity_value casefold (suc left) (obj fs) = obj (activity_fields casefold left fs)

  pub activity_items : (Text → Text) → ℕ → Items → Items
  activity_items casefold left end_items = end_items
  activity_items casefold left (item v items) =
      item (activity_value casefold left v) (activity_items casefold left items)

  pub activity_fields : (Text → Text) → ℕ → Fields → Fields
  activity_fields casefold left end_fields = end_fields
  activity_fields casefold left (field k v fs) =
      let rest = activity_fields casefold left fs in
      let safe = activity_value casefold left v in
      if is_secret casefold k then field k (str "[redacted]") rest else field k safe rest

-- `_activity_safe_value(value)`
abbrev pub activity_safe_value : (Text → Text) → Json → Json
activity_safe_value casefold v = activity_value casefold 13 v

abbrev pub is_hidden : Json → Bool
is_hidden (str s) = s == "[redacted]"
is_hidden _ = false

-- every field with a secret's name is hidden, at any depth
unfoldable mutual
  pub keeps_no_secret : (Text → Text) → Json → Bool
  keeps_no_secret casefold null = true
  keeps_no_secret casefold (bool b) = true
  keeps_no_secret casefold (num n) = true
  keeps_no_secret casefold (str s) = true
  keeps_no_secret casefold (arr items) = items_keep_no_secret casefold items
  keeps_no_secret casefold (obj fs) = fields_keep_no_secret casefold fs

  pub items_keep_no_secret : (Text → Text) → Items → Bool
  items_keep_no_secret casefold end_items = true
  items_keep_no_secret casefold (item v items) =
      keeps_no_secret casefold v && items_keep_no_secret casefold items

  pub fields_keep_no_secret : (Text → Text) → Fields → Bool
  fields_keep_no_secret casefold end_fields = true
  fields_keep_no_secret casefold (field k v fs) =
      (if is_secret casefold k then is_hidden v else keeps_no_secret casefold v)
      && fields_keep_no_secret casefold fs

mutual
  unfolding activity_value keeps_no_secret

  value_safe :
      (casefold : Text → Text) (left : ℕ) (v : Json)
      → keeps_no_secret casefold (activity_value casefold left v) ≡ true
  value_safe casefold zero v = refl
  value_safe casefold (suc left) null = refl
  value_safe casefold (suc left) (bool b) = refl
  value_safe casefold (suc left) (num n) = refl
  value_safe casefold (suc left) (str s) = refl
  value_safe casefold (suc left) (arr items) = items_safe casefold left items
  value_safe casefold (suc left) (obj fs) = fields_safe casefold left fs

  items_safe :
      (casefold : Text → Text) (left : ℕ) (items : Items)
      → items_keep_no_secret casefold (activity_items casefold left items) ≡ true
  items_safe casefold left end_items = refl
  items_safe casefold left (item v items) =
      ground (arith, value_safe casefold left v, items_safe casefold left items)

  fields_safe :
      (casefold : Text → Text) (left : ℕ) (fs : Fields)
      → fields_keep_no_secret casefold (activity_fields casefold left fs) ≡ true
  fields_safe casefold left end_fields = refl
  fields_safe casefold left (field k v fs) = elim (Bool-cases (is_secret casefold k)) [
    | inl secret ↦ rw (secret, secret) (fields_safe casefold left fs)
    | inr plain_name ↦
        rw (plain_name, plain_name)
          (ground (arith, value_safe casefold left v, fields_safe casefold left fs))
  ]

-- A receipt keeps no secret: in what is stored of a request, every field whose name is that of a
-- secret, in any case and with dashes or underscores, holds "[redacted]", at any depth.
pub keeps_no_secret-activity_safe_value :
    (casefold : Text → Text) (v : Json)
    → keeps_no_secret casefold (activity_safe_value casefold v) ≡ true
keeps_no_secret-activity_safe_value casefold v = value_safe casefold 13 v

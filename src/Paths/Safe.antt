-- ===== src/Paths/Safe.antt =====
-- What a path that `validate_relative_path` lets through is.
use mathlib.Core.Bool.{true}
use codito_mcp.Common.{
  ◌≢◌, ◌≡◌, [], ok, ◌∷◌, false, some, map, arith, All, any, List, list_beq_iff, ◌==◌, >>=-eq-ok,
  option_beq_iff, ◌>>=◌, ◌∙◌, err, ◌||◌, Bool, if◌then◌else◌, sym,
}
use codito_mcp.Errors.{AgentError, plain, invalid_path, Raises}
use codito_mcp.Text.{
  Text, codes, last_char, has_char, replace_char, split_on, join-split_on, join, starts_with,
}
use codito_mcp.Common.{refl, nat_Eq, list_Eq, option_Eq}
use codito_mcp.Paths.Relative.{
  validate_relative_path, check_component, check_components, anchored, invalid_char, is_reserved,
  refuse,
}

-- a component that names a file inside its directory, on Windows too
pub record IsSafe (component : Text) : Type 0 where
  pub not_empty : component ≢ []
  pub not_dot : component ≢ codes "."
  pub not_parent : component ≢ codes ".."
  pub no_trailing_dot : last_char component ≢ some b'.'
  pub no_trailing_space : last_char component ≢ some b' '
  pub valid_chars : any invalid_char component ≡ false
  pub not_reserved : is_reserved component ≡ false

component-tests :
    (c d : Text)
    → check_component c ≡ ok d
    → (d ≡ c)
      × ((c == []) ≡ false)
      × ((c == codes ".") ≡ false)
      × ((c == codes "..") ≡ false)
      × ((last_char c == some b'.') ≡ false)
      × ((last_char c == some b' ') ≡ false)
      × (any invalid_char c ≡ false)
      × (is_reserved c ≡ false)
unfolding check_component
component-tests c d h = ground arith

check_component-IsSafe : (c d : Text) → check_component c ≡ ok d → (d ≡ c) × IsSafe c
unfolding check_component
check_component-IsSafe c d h =
    let t = component-tests c d h in
    (
      t.0,
      record {
        not_empty = λ e. cc (t.1, (list_beq_iff c []).1 e);
        not_dot = λ e. cc (t.2, (list_beq_iff c (codes ".")).1 e);
        not_parent = λ e. cc (t.3, (list_beq_iff c (codes "..")).1 e);
        no_trailing_dot = λ e. cc (t.4, (option_beq_iff (last_char c) (some b'.')).1 e);
        no_trailing_space = λ e. cc (t.5, (option_beq_iff (last_char c) (some b' ')).1 e);
        valid_chars = t.6;
        not_reserved = t.7;
      },
    )

abbrev pub slash : Text → Text
slash = map (replace_char b'\\' b'/')

check_components-IsSafe :
    (cs ds : List Text) → check_components cs ≡ ok ds → (ds ≡ cs) × All IsSafe cs
unfolding check_components
check_components-IsSafe [] ds h = (ground arith, tt)
check_components-IsSafe (c ∷ cs) ds h =
    let (d, one, h') = >>=-eq-ok (check_component c) _ h in
    let (rest, others, e) = >>=-eq-ok (check_components cs) _ h' in
    let (here, safe) = check_component-IsSafe c d one in
    let (there, all_safe) = check_components-IsSafe cs rest others in
    (ground arith, (safe, all_safe))

has_char-slash : (v : Text) → has_char 0 v ≡ false → has_char 0 (slash v) ≡ false
has_char-slash [] h = refl
has_char-slash (c ∷ v) h = ground (arith, has_char-slash v)

anchored-slash : (v : Text) → anchored (slash v) ≡ anchored v
anchored-slash [] = refl
anchored-slash (c ∷ []) = ground arith
anchored-slash (c ∷ d ∷ v) = ground arith

slash-slash : (v : Text) → slash (slash v) ≡ slash v
slash-slash [] = refl
slash-slash (c ∷ v) = ground (arith, slash-slash v)

-- `p` names a file below the project's root, each component being safe.
pub record IsRelative (p : Text) : Type 0 where
  pub no_nul : has_char 0 p ≡ false
  pub not_anchored : anchored p ≡ false
  pub components : All IsSafe (split_on b'/' p)

-- the tests that a path has passed
validate_tests :
    (v p : Text)
    → validate_relative_path false v ≡ ok p
    → (has_char 0 v ≡ false)
      × (anchored v ≡ false)
      × ((check_components (split_on b'/' (slash v)) >>= λ parts. ok (join (codes "/") parts))
          ≡ ok p)
unfolding validate_relative_path
validate_tests v p h = ground arith

-- A path that is let through is the given one with "/" for "\\", and is relative and safe.
pub validate-IsRelative :
    (v p : Text) → validate_relative_path false v ≡ ok p → (p ≡ slash v) × IsRelative p
validate-IsRelative v p h =
    let (nul, anchor, chain) = validate_tests v p h in
    let (parts, checked, joined) = >>=-eq-ok (check_components (split_on b'/' (slash v))) _ chain in
    let (same, safe) = check_components-IsSafe (split_on b'/' (slash v)) parts checked in
    let e : p ≡ slash v = ground (arith, join-split_on b'/' (slash v)) in
    (
      e,
      rw e (record {
        no_nul = has_char-slash v nul;
        not_anchored = anchored-slash v ∙ anchor;
        components = safe;
      }),
    )

check_component_of_IsSafe : (c : Text) → IsSafe c → check_component c ≡ ok c
unfolding check_component
check_component_of_IsSafe c s = ground (
  arith,
  list_beq_iff c [],
  list_beq_iff c (codes "."),
  list_beq_iff c (codes ".."),
  option_beq_iff (last_char c) (some b'.'),
  option_beq_iff (last_char c) (some b' '),
)

check_components_of_IsSafe : (cs : List Text) → All IsSafe cs → check_components cs ≡ ok cs
unfolding check_components
check_components_of_IsSafe [] h = refl
check_components_of_IsSafe (c ∷ cs) h =
    rw (check_component_of_IsSafe c h.0) (rw (check_components_of_IsSafe cs h.1))

starts_with_separator :
    (p : Text)
    → anchored p ≡ false
    → (starts_with (codes "\\") p ≡ false) × (starts_with (codes "//") p ≡ false)
unfolding starts_with
starts_with_separator [] h = (refl, refl)
starts_with_separator (c ∷ []) h = ground arith
starts_with_separator (c ∷ d ∷ p) h = ground arith

IsRelative-ne : (p : Text) → IsRelative p → (p ≢ []) × (p ≢ codes ".")
unfolding split_on
IsRelative-ne p r = (λ e. empty (rw e at r), λ e. dot (rw e at r))
  where
    empty : IsRelative [] → ⊥
    empty q = q.components.0.not_empty refl

    dot : IsRelative (codes ".") → ⊥
    dot q = q.components.0.not_dot refl

-- Exactly the relative paths with "/" alone pass unchanged.
pub validate_fixed : (p : Text) → slash p ≡ p → IsRelative p → validate_relative_path false p ≡ ok p
unfolding validate_relative_path
validate_fixed p e r =
    let (no_unc, no_device) = starts_with_separator p r.not_anchored in
    let (full, named) = IsRelative-ne p r in
    ground (
      arith,
      r.no_nul,
      list_beq_iff p [],
      list_beq_iff p (codes "."),
      check_components_of_IsSafe (split_on b'/' p) r.components,
      join-split_on b'/' p,
    )

-- Validating a validated path changes nothing.
validate_idem :
    (v p : Text) → validate_relative_path false v ≡ ok p → validate_relative_path false p ≡ ok p
validate_idem v p h =
    let (e, r) = validate-IsRelative v p h in validate_fixed p (rw e (slash-slash v)) r

check_component-error :
    (c : Text) (e : AgentError) → check_component c ≡ err e → e ≡ plain invalid_path
unfolding check_component
check_component-error c e h = ground arith

check_components-error :
    (cs : List Text) (e : AgentError) → check_components cs ≡ err e → e ≡ plain invalid_path
unfolding check_components
check_components-error [] e h = absurd (ground arith)
check_components-error (c ∷ cs) e h =
    ground (arith, check_component-error c e, check_components-error cs e)

err-injective :
    {A : Type 0} (call : Raises A) (a b : AgentError) → call ≡ err a → call ≡ err b → a ≡ b
err-injective call a b h k = cc

joined-error :
    (call : Raises (List Text)) (e : AgentError)
    → ((d : AgentError) → call ≡ err d → d ≡ plain invalid_path)
    → (call >>= λ parts. ok (join (codes "/") parts)) ≡ err e
    → e ≡ plain invalid_path
joined-error (ok parts) e every h = absurd cc
joined-error (err d) e every h = sym (err-injective (err d) d e refl h) ∙ every d refl

guarded-error :
    (guard : Bool) (call : Raises Text) (e : AgentError)
    → (call ≡ err e → e ≡ plain invalid_path)
    → (if guard then refuse else call) ≡ err e
    → e ≡ plain invalid_path
guarded-error true call e rest h = sym (err-injective refuse (plain invalid_path) e refl h)
guarded-error false call e rest h = rest h

-- A path that is refused is refused as `invalid_path`.
pub validate-error :
    (v : Text) (e : AgentError) → validate_relative_path false v ≡ err e → e ≡ plain invalid_path
unfolding validate_relative_path
validate-error v e =
    let calls = check_components (split_on b'/' (slash v)) in
    guarded-error (has_char 0 v) _ e (
      guarded-error (v == [] || v == codes ".") _ e (
        guarded-error (starts_with (codes "\\") v || starts_with (codes "//") v) _ e (
          guarded-error (anchored v) _ e
            (joined-error calls e (check_components-error (split_on b'/' (slash v)))))))

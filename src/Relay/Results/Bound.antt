-- ===== src/Relay/Results/Bound.antt =====
-- What a result of a device that was let through says about the request.
use mathlib.Core.Option.{Option, none, some-injective}
use codito_mcp.Common.{
  [], ◌≡◌, refl, String, List, some, ok, arith, any, ◌==◌, true, ◌∷◌, >>=-eq-ok, raise_if,
  Bool-cases, inl, string_Eq, ap, ◌∙◌, inr, if◌then◌else◌, sym,
}
use codito_mcp.Db.Json.{Json, Fields, get_field}
use codito_mcp.Relay.Types.{fatal}
use codito_mcp.Relay.Results.{
  Contracts, json_eq, is_literal, dict_of, validate_result, differs, check_echoes, echo_fields,
  check_bound, validate_for_request, check_frontend, bind_result,
}

check_echoes-eq :
    (keys : List String) (args result : Fields) (key : String) {v w : Json}
    → check_echoes keys args result ≡ ok tt
    → any (λ k. k == key) keys ≡ true
    → get_field key args ≡ some v
    → get_field key result ≡ some w
    → json_eq w v ≡ true
unfolding check_echoes differs
check_echoes-eq [] args result key h here asked given = absurd (ground arith)
check_echoes-eq (k ∷ keys) args result key h here asked given =
    let (_, first, rest) =
      >>=-eq-ok
        (raise_if (differs (get_field k args) (get_field k result)) (fatal "protocol_error"))
        (λ _. check_echoes keys args result) h in
    elim (Bool-cases (k == key)) [
      | inl same ↦
          let e = (string_Eq.beq_iff k key).0 same in
          ground
            (arith, ap (λ n. get_field n args) e ∙ asked, ap (λ n. get_field n result) e ∙ given)
      | inr other ↦ check_echoes-eq keys args result key rest (ground arith) asked given
    ]

bind_result-checked :
    (c : Contracts) (tool : String) (args normalized valid : Fields)
    → bind_result c tool args normalized ≡ ok valid
    → is_literal true (get_field "ok" valid) ≡ true
    → check_bound c tool args (dict_of (get_field "result" valid)) ≡ ok tt
unfolding bind_result
bind_result-checked c tool args normalized valid h success =
    elim (Bool-cases (is_literal true (get_field "ok" normalized))) [
      | inr failed ↦ absurd (ground arith)
      | inl checked ↦ ground arith
    ]

check_bound-result :
    (c : Contracts) (tool : String) (args : Fields) (given : Option Fields)
    → check_bound c tool args given ≡ ok tt
    → (result : Fields) × (given ≡ some result)
      × (check_echoes echo_fields args result ≡ ok tt)
      × ((if tool == "project_frontend" then check_frontend c args result else ok tt) ≡ ok tt)
unfolding check_bound
check_bound-result c tool args none h = absurd (ground arith)
check_bound-result c tool args (some result) h =
    let (_, echoes, rest) =
      >>=-eq-ok (check_echoes echo_fields args result)
        (λ _. if tool == "project_frontend" then check_frontend c args result else ok tt) h in
    (result, refl, echoes, rest)

-- A result with `ok` that is let through for a request echoes it: each of the identities that a
-- result must echo, where the request and the result both have it, has the value of the request.
validate_for_request-echoes :
    (c : Contracts) (tool : String) (args payload valid result : Fields) (key : String) (v w : Json)
    → validate_for_request c tool args payload ≡ ok valid
    → is_literal true (get_field "ok" valid) ≡ true
    → dict_of (get_field "result" valid) ≡ some result
    → any (λ k. k == key) echo_fields ≡ true
    → get_field key args ≡ some v
    → get_field key result ≡ some w
    → json_eq w v ≡ true
unfolding validate_for_request
validate_for_request-echoes c tool args payload valid result key v w h success here named asked
      given =
    let (normalized, _, bound) =
      >>=-eq-ok (validate_result c tool payload) (bind_result c tool args) h in
    let (found, e, echoes, _) =
      check_bound-result c tool args (dict_of (get_field "result" valid))
        (bind_result-checked c tool args normalized valid bound success) in
    check_echoes-eq echo_fields args found key echoes named asked
      (ap (get_field key) (some-injective found result (sym e ∙ here)) ∙ given)

-- ===== src/Audit/Actions.antt =====
-- audit/_api.py: which requests are named as reading ones.
use keystonemiddleware.Base.{
  ◌≡◌, ◌↔◌, ◌⊎◌, inl, inr, sym, String, false, none, ◌==◌, ◌||◌, eq_iff, arith, Bool-cases,
  if◌then◌else◌,
}
use keystonemiddleware.Exec.{Result, ok, raise, value_error}
use keystonemiddleware.Json.{Json, null, bool, num, str, arr, obj, field, end, truthy}
use keystonemiddleware.Audit.{
  AuditMap, AuditRequest, Action, list, read, create, update, delete, unknown, update_by,
  is_keyword, url_ending, body_action, method_action, custom_action, get_action,
}

abbrev pub IsReading : Action → Type 0
IsReading action = (action ≡ list) ⊎ (action ≡ read)

body_action-updates :
    (json : Result Json) (action : Action)
    → body_action json ≡ ok action
    → (action ≡ create) ⊎ ((key : String) × (action ≡ update_by key))
unfolding body_action truthy
body_action-updates (ok null) action h = inl (ground arith)
body_action-updates (ok (bool b)) action h = inl (ground arith)
body_action-updates (ok (num n)) action h = inl (ground arith)
body_action-updates (ok (str s)) action h = inl (ground arith)
body_action-updates (ok (arr vs)) action h = inl (ground arith)
body_action-updates (ok (obj end)) action h = inl (ground arith)
body_action-updates (ok (obj (field k v fs))) action h = inr (k, ground arith)
body_action-updates (raise value_error) action h = inl (ground arith)
body_action-updates (raise _) action h = absurd (ground arith)

posts :
    (map : AuditMap) (json : Result Json) (ending : String) (action : Action)
    → (if ending == "action"
        then body_action json
        else if is_keyword map ending
        then ok create
        else ok update)
      ≡ ok action
    → ¬ IsReading action
posts map json ending action named = elim (Bool-cases (ending == "action")) [
  | inl by_body ↦ ground (arith, body_action-updates json action (rw (by_body) at named))
  | inr by_path ↦
      let shown : (if is_keyword map ending then ok create else ok update) ≡ ok action =
        rw (by_path) at named in
      ground (arith, shown)
]

writes :
    (map : AuditMap) (req : AuditRequest) (ending : String) (action : Action)
    → (req.method == "GET") ≡ false
    → (req.method == "HEAD") ≡ false
    → method_action map req ending ≡ ok action
    → ¬ IsReading action
unfolding method_action
writes map req ending action no_get no_head named = elim (Bool-cases (req.method == "POST")) [
  | inl post ↦ posts map req.json ending action (rw (method_action, post) at named)
  | inr no_post ↦
      let shown : (if req.method == "PUT" || req.method == "PATCH"
            then ok update
            else if req.method == "DELETE"
            then ok delete
            else ok unknown)
          ≡ ok action =
        rw (method_action, no_post, no_get, no_head) at named in
      ground (arith, shown)
]

-- Where the map has no action of its own for a request, get_action names it as listing or reading
-- exactly if its method is GET or HEAD.
pub get_action-IsReading :
    (map : AuditMap) (req : AuditRequest) (action : Action)
    → custom_action map req (url_ending req.path) ≡ none
    → get_action map req ≡ ok action
    → IsReading action ↔ ((req.method ≡ "GET") ⊎ (req.method ≡ "HEAD"))
unfolding get_action method_action
get_action-IsReading map req action no_custom h = (
  λ reading. elim (Bool-cases (req.method == "GET")) [
    | inl get ↦ inl ((eq_iff req.method "GET").0 get)
    | inr other ↦ elim (Bool-cases (req.method == "HEAD")) [
      | inl head ↦ inr ((eq_iff req.method "HEAD").0 head)
      | inr another ↦
          absurd (writes map req (url_ending req.path) action other another named reading)
    ]
  ],
  λ method. elim method [
    | inl get ↦
        let shown : (if is_keyword map (url_ending req.path) then ok list else ok read)
            ≡ ok action =
          rw (get) at named in
        ground (arith, shown)
    | inr head ↦ inr (sym (ground (arith, rw (head) at named)))
  ],
)
  where
    named : method_action map req (url_ending req.path) ≡ ok action
    named = rw (no_custom, get_action) at h

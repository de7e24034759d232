-- ===== src/Lockdown/Verdict.antt =====
-- src/lockdown.c: which answers are accepted, and the table of the device's errors.
use libimobiledevice.Common.{
  ◌≡◌, refl, ap, ◌≢◌, Bool, true, false, List, [], ◌∷◌, Option, none, some, arith, inl, inr,
  Bool-cases, ◌||◌, map, Option-cases,
}
use libimobiledevice.Common.Bytes.{bytes_eq, codes, bytes_eq→eq, bytes_eq_refl}
use mathlib.Core.Logic.{◌↔◌}
use libimobiledevice.DeviceLink.{Text}
use libimobiledevice.Dictionary.{Dicts, item_in, string_in}
use libimobiledevice.Lockdown.Error.{
  LockdownError, ErrorEntry, is_success, lockdownd_error_str_map, strtoerr_in, lockdownd_strtoerr,
  strerror_in, lockdownd_strerror, negated_value,
}
use libimobiledevice.Lockdown.Client.{
  error_code, result_code, matches, answer_code, lockdown_check_result,
}

abbrev has_success : List ErrorEntry → Bool
has_success [] = false
has_success (e ∷ es) = is_success e.errcode || has_success es

-- For every row of the table, lockdownd_strtoerr gives the row's code for the row's name, and
-- lockdownd_strerror gives the row's text for that code: no row is hidden by another one or by a
-- case of the switch.
pub strtoerr-strerror :
    map {B = LockdownError × Text}
      (λ row. (lockdownd_strtoerr row.lockdown_errstr, lockdownd_strerror row.errcode))
      lockdownd_error_str_map
    ≡ map {B = LockdownError × Text} (λ row. (row.errcode, row.errstr)) lockdownd_error_str_map
unfolding lockdownd_error_str_map lockdownd_strtoerr strtoerr_in lockdownd_strerror strerror_in
    negated_value
strtoerr-strerror = refl

-- The answer is one to the request, if that matters; it has no error; and its result, if it has
-- one, is "Success".
pub record IsAccepted {P : Type 0} (dicts : Dicts P) (dict : Option P) (query_match : Option Text)
    : Type 0 where
  pub query : Text
  pub is_query : string_in dicts (item_in dicts dict (codes "Request")) ≡ some query
  pub is_match : (name : Text) → query_match ≡ some name → query ≡ name
  pub no_error : item_in dicts dict (codes "Error") ≡ none
  pub result :
      (r : P)
      → item_in dicts dict (codes "Result") ≡ some r
      → string_in dicts (some r) ≡ some (codes "Success")

unsuccessful : has_success lockdownd_error_str_map ≡ false
unfolding lockdownd_error_str_map
unsuccessful = refl

strtoerr_in-fails :
    (es : List ErrorEntry) (name : Text)
    → has_success es ≡ false
    → is_success (strtoerr_in es name) ≡ false
unfolding strtoerr_in
strtoerr_in-fails [] name h = refl
strtoerr_in-fails (e ∷ es) name h = ground (arith, strtoerr_in-fails es name)

-- No name of an error is that of a success.
pub lockdownd_strtoerr-fails : (name : Text) → is_success (lockdownd_strtoerr name) ≡ false
unfolding lockdownd_strtoerr
lockdownd_strtoerr-fails name = strtoerr_in-fails lockdownd_error_str_map name unsuccessful

pub is_success→eq : (e : LockdownError) → is_success e ≡ true → e ≡ LockdownError.success
is_success→eq LockdownError.success h = refl
is_success→eq _ h = cc

pub unsuccessful→neq : (e : LockdownError) → is_success e ≡ false → e ≢ LockdownError.success
unsuccessful→neq e f q = cc (ap is_success q, f)

module _ {P : Type 0} (dicts : Dicts P) where
  error_code-fails : (n : P) → is_success (error_code dicts n) ≡ false
  unfolding error_code
  error_code-fails n = elim (Option-cases (string_in dicts (some n))) [
    | inl e ↦ ground (arith, e)
    | inr (v, e) ↦ ground (arith, e, lockdownd_strtoerr-fails v)
  ]

  matches→eq :
      (query_match : Option Text) (query : Text)
      → matches query_match query ≡ true
      → (name : Text) → query_match ≡ some name
      → query ≡ name
  unfolding matches
  matches→eq none query h name e = cc
  matches→eq (some m) query h name e = cc (bytes_eq→eq query m h, e)

  eq→matches :
      (query_match : Option Text) (query : Text)
      → ((name : Text) → query_match ≡ some name → query ≡ name)
      → matches query_match query ≡ true
  unfolding matches
  eq→matches none query h = refl
  eq→matches (some m) query h = rw (h m refl) (bytes_eq_refl m)

  result_code→success :
      (o : Option P)
      → result_code dicts o ≡ LockdownError.success
      → (r : P) → o ≡ some r
      → string_in dicts (some r) ≡ some (codes "Success")
  unfolding result_code
  result_code→success none h r e = cc
  result_code→success (some n) h r e = elim (Option-cases (string_in dicts (some n))) [
    | inl o ↦ absurd (ground (arith, h, o))
    | inr (v, o) ↦ elim (Bool-cases (bytes_eq v (codes "Success"))) [
      | inl m ↦ cc (o, e, bytes_eq→eq v (codes "Success") m)
      | inr m ↦ absurd (ground (arith, h, o, m))
    ]
  ]

  success→result_code :
      (o : Option P)
      → ((r : P) → o ≡ some r → string_in dicts (some r) ≡ some (codes "Success"))
      → result_code dicts o ≡ LockdownError.success
  unfolding result_code
  success→result_code none h = refl
  success→result_code (some n) h = ground (arith, h n refl, bytes_eq_refl (codes "Success"))

  -- Behind an accepted request.
  answered :
      (dict : Option P)
      → answer_code dicts dict ≡ LockdownError.success
      → (item_in dicts dict (codes "Error") ≡ none)
        × (result_code dicts (item_in dicts dict (codes "Result")) ≡ LockdownError.success)
  unfolding answer_code
  answered dict h = elim (Option-cases (item_in dicts dict (codes "Error"))) [
    | inl n ↦ (n, ground (arith, h, n))
    | inr (x, n) ↦ absurd (ground (arith, h, n, error_code-fails x))
  ]

  requested :
      (dict : Option P) (query_match : Option Text)
      → lockdown_check_result dicts dict query_match ≡ LockdownError.success
      → (q : Text) × (string_in dicts (item_in dicts dict (codes "Request")) ≡ some q)
        × (matches query_match q ≡ true)
        × (answer_code dicts dict ≡ LockdownError.success)
  unfolding lockdown_check_result
  requested dict query_match h =
      elim (Option-cases (string_in dicts (item_in dicts dict (codes "Request")))) [
        | inl e ↦ absurd (ground (arith, h, e))
        | inr (q, e) ↦ elim (Bool-cases (matches query_match q)) [
          | inl m ↦ (q, e, m, ground (arith, h, e, m))
          | inr m ↦ absurd (ground (arith, h, e, m))
        ]
      ]

  accepted :
      (dict : Option P) (query_match : Option Text)
      → lockdown_check_result dicts dict query_match ≡ LockdownError.success
      → IsAccepted dicts dict query_match
  accepted dict query_match h =
      let (q, e, m, c) = requested dict query_match h in
      let (n, r) = answered dict c in
      record {
        query = q;
        is_query = e;
        is_match = matches→eq query_match q m;
        no_error = n;
        result = result_code→success (item_in dicts dict (codes "Result")) r;
      }

  -- lockdown_check_result comes to a success for the accepted answers, and for no others.
  pub lockdown_check_result-IsAccepted :
      (dict : Option P) (query_match : Option Text)
      → (lockdown_check_result dicts dict query_match ≡ LockdownError.success)
        ↔ IsAccepted dicts dict query_match
  unfolding lockdown_check_result answer_code
  lockdown_check_result-IsAccepted dict query_match = (
    λ h. accepted dict query_match h,
    λ a. ground (
      arith,
      a.is_query,
      eq→matches query_match a.query a.is_match,
      a.no_error,
      success→result_code (item_in dicts dict (codes "Result")) a.result,
    ),
  )

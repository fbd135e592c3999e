-- ===== src/Cerr.antt =====
-- internal/cerr/cerr.go: the typed errors that the engine, the JS bridge and the API share.
-- A text that is rendered is the list of its code points; an argument is given as fmt.Sprint
-- prints it.
use ddcore.Common.{
  arith, ◌≡◌, ◌≤◌, ap, ℕ, zero, suc, ◌+◌, ◌-◌, String, Option, none, some, List, [], ◌∷◌, ◌++◌, map,
  length, any, if◌then◌else◌, ◌==◌, str_eq, min,
}
use ddcore.Text.{Text, codes, starts_with, decimal}

-- Extra["retryAfter"] as RetryAfter reads it: a whole number (an int, an int64 or a float64), a
-- float64 between `floor` and the next whole number, one below zero, one that is not finite, or
-- no number. MaintenanceError puts a reason beside it.
pub data Wait : Type 0 where
  whole : ℕ → Wait
  between : ℕ → Wait
  below_zero not_finite no_number : Wait

pub record Extra : Type 0 where
  pub retry_after : Wait
  pub reason : Option String

pub record Error : Type 0 where
  pub typ : String
  pub title : Text
  pub message : Text
  pub key : String
  pub args : List String
  pub title_key : String
  pub status : ℕ
  pub extra : Option Extra

-- what a call that may fail returns
pub data Result {ℓ} (A : Type ℓ) : Type ℓ where
  ok : A → Result A
  err : Error → Result A

infixl 10 ◌>>=◌
abbrev pub ◌>>=◌ {ℓ κ} : {A : Type ℓ} {B : Type κ} → Result A → (A → Result B) → Result B
ok a >>= f = f a
err e >>= f = err e

-- strings.ReplaceAll of a pattern that is not empty; `skip` code points of a match are left to
-- pass over
replace_all : Text → Text → ℕ → Text → Text
replace_all old new skip [] = []
replace_all old new (suc skip) (c ∷ s) = replace_all old new skip s
replace_all old new zero (c ∷ s) =
    let past = new ++ replace_all old new (length old - 1) s in
    let kept = c ∷ replace_all old new zero s in if starts_with old (c ∷ s) then past else kept

placeholder : ℕ → Text
placeholder n = b'{' ∷ (decimal n ++ b'}' ∷ [])

-- the loop of Render, from the argument with index n
render_from : ℕ → Text → List Text → Text
render_from n s [] = s
render_from n s (a ∷ args) = render_from (n + 1) (replace_all (placeholder n) a zero s) args

pub render : Text → List Text → Text
unfolding render_from placeholder decimal replace_all
render s [] = s
render s (a ∷ args) = if any (λ c. c == b'{') s then render_from 0 s (a ∷ args) else s

unfoldable pub new_error : String → ℕ → String → List String → Error
new_error typ status msg a = record {
  typ = typ;
  title = [];
  message = render (codes msg) (map codes a);
  key = msg;
  args = a;
  title_key = "";
  status = status;
  extra = none;
}

unfoldable pub validation : String → List String → Error
unfolding new_error
validation msg a = new_error "ValidationError" 417 msg a

unfoldable pub permission : String → List String → Error
unfolding new_error
permission msg a = new_error "PermissionError" 403 msg a

unfoldable pub not_found : String → List String → Error
unfolding new_error
not_found msg a = new_error "DoesNotExistError" 404 msg a

unfoldable pub link_exists : String → List String → Error
unfolding new_error
link_exists msg a = new_error "LinkExistsError" 417 msg a

unfoldable pub timestamp : String → List String → Error
unfolding new_error
timestamp msg a = new_error "TimestampMismatchError" 409 msg a

unfoldable pub duplicate : String → List String → Error
unfolding new_error
duplicate msg a = new_error "DuplicateEntryError" 409 msg a

unfoldable pub auth : String → List String → Error
unfolding new_error
auth msg a = new_error "AuthenticationError" 401 msg a

unfoldable pub internal : String → List String → Error
unfolding new_error
internal msg a = new_error "InternalError" 500 msg a

unfoldable pub mandatory : String → List String → Error
unfolding new_error
mandatory msg a = new_error "MandatoryError" 417 msg a

unfoldable pub method_not_allowed : String → List String → Error
unfolding new_error
method_not_allowed msg a = new_error "MethodNotAllowedError" 405 msg a

unfoldable pub too_many : String → List String → Error
unfolding new_error
too_many msg a = new_error "TooManyRequestsError" 429 msg a

unfoldable pub unavailable : String → List String → Error
unfolding new_error
unavailable msg a = new_error "UnavailableError" 503 msg a

unfoldable pub maintenance : String → List String → Error
unfolding new_error
maintenance msg a = new_error "MaintenanceError" 503 msg a

unfoldable pub with_retry_after : Error → ℕ → Error
with_retry_after e seconds = record e {
  extra = some (record { retry_after = whole seconds; reason = none });
}

abbrev max_int32 : ℕ
max_int32 = 2147483647

-- the seconds of the wait that an error carries, if it carries one
seconds_of : Wait → Option ℕ
seconds_of (whole n) = some (min n max_int32)
seconds_of (between floor) = some (min (floor + 1) max_int32)
seconds_of below_zero = none
seconds_of not_finite = none
seconds_of no_number = none

unfoldable pub retry_after : Error → Option ℕ
unfolding seconds_of
retry_after e = elim e.extra [ none ↦ none | some x ↦ seconds_of x.retry_after ]

unfoldable pub with_title_key : Error → String → Error
with_title_key e k = record e { title_key = k; title = codes k }

-- `tr` is the catalogue: a key and its arguments to the translated sentence
unfoldable pub translate : (String → List String → Text) → Error → Error
translate tr e =
    if str_eq e.key ""
    then e
    else let out = record e { message = tr e.key e.args } in
      if str_eq e.title_key "" then out else record out { title = tr e.title_key [] }

abbrev status_by_type : List (String × ℕ)
status_by_type =
    ("ValidationError", 417)
    ∷ ("MandatoryError", 417)
    ∷ ("LinkExistsError", 417)
    ∷ ("PermissionError", 403)
    ∷ ("DoesNotExistError", 404)
    ∷ ("NotFound", 404)
    ∷ ("TimestampMismatchError", 409)
    ∷ ("DuplicateEntryError", 409)
    ∷ ("AuthenticationError", 401)
    ∷ ("MethodNotAllowedError", 405)
    ∷ ("TooManyRequestsError", 429)
    ∷ ("UnavailableError", 503)
    ∷ ("MaintenanceError", 503)
    ∷ ("InternalError", 500)
    ∷ []

abbrev lookup : String → List (String × ℕ) → Option ℕ
lookup k [] = none
lookup k ((t, n) ∷ m) = let rest = lookup k m in if str_eq t k then some n else rest

unfoldable pub status_of : String → Option ℕ
status_of typ = lookup typ status_by_type

min_left : (a b : ℕ) → a ≤ b → min a b ≡ a
min_left a b h = ground arith

-- a wait that fits an int32 is read back as it was recorded
pub retry_after-with_retry_after :
    (e : Error) (seconds : ℕ)
    → seconds ≤ max_int32
    → retry_after (with_retry_after e seconds) ≡ some seconds
unfolding retry_after with_retry_after seconds_of
retry_after-with_retry_after e seconds h = ap some (min_left seconds max_int32 h)

-- ===== src/Command/Results.antt =====
-- command/command.go: the result messages of commands. A payload is of a type `P` or nil.
use conver_go.Base.{
  Bool, List, Option, Text, [], arith, false, if◌then◌else◌, none, not, some, text_Eq, true, ◌&&◌,
  ◌++◌, ◌==◌, ◌||◌, ◌∷◌, ◌≡◌,
}

-- `Status`, an `int` with these two values.
pub data Status : Type 0 where
  success error : Status

pub record ResultMessage (P : Type 0) : Type 0 where
  pub status : Status
  pub message : Text
  pub payload : Option P

-- `FromError`, of the text of the error.
unfoldable pub from_error : {P : Type 0} → Text → ResultMessage P
from_error text = record { status = error; message = text; payload = none }

-- `FromSuccess`, of the formatted message.
unfoldable pub from_success : {P : Type 0} → Text → Option P → ResultMessage P
from_success msg payload = record { status = success; message = msg; payload = payload }

unfoldable pub is_error : Status → Bool
is_error success = false
is_error error = true

unfoldable pub is_nil : {P : Type 0} → Option P → Bool
is_nil none = true
is_nil (some p) = false

-- `r == (ResultMessage{})`
unfoldable pub is_zero : {P : Type 0} → ResultMessage P → Bool
is_zero r = not (is_error r.status) && (r.message == []) && is_nil r.payload

unfoldable pub join_messages : Text → List Text → Text
join_messages separator [] = []
join_messages separator (m ∷ []) = m
join_messages separator (m ∷ n ∷ ms) = m ++ (separator ++ join_messages separator (n ∷ ms))

-- The loop of `ConcatResultMessages`.
unfoldable pub concat_loop :
    {P : Type 0}
    → Status
    → Option P
    → List Text
    → List (ResultMessage P)
    → Status × Option P × List Text
concat_loop status payload messages [] = (status, payload, messages)
concat_loop status payload messages (r ∷ rs) =
    let skipped = concat_loop status payload messages rs in
    let taken =
      concat_loop (if is_error r.status then error else status)
        (if is_nil r.payload then payload else r.payload)
        (if r.message == [] then messages else messages ++ (r.message ∷ [])) rs in
    if is_zero r then skipped else taken

-- A line feed and a tab.
abbrev pub separator : Text
separator = 10 ∷ 9 ∷ []

unfoldable pub concat_result_messages : {P : Type 0} → List (ResultMessage P) → ResultMessage P
concat_result_messages results =
    let (status, payload, messages) = concat_loop success none [] results in
    record { status = status; message = join_messages separator messages; payload = payload }

-- Is some result an error?
unfoldable pub any_error : {P : Type 0} → List (ResultMessage P) → Bool
any_error [] = false
any_error (r ∷ rs) = is_error r.status || any_error rs

concat_loop-status :
    {P : Type 0} (status : Status) (payload : Option P) (messages : List Text)
    (rs : List (ResultMessage P))
    → is_error (concat_loop status payload messages rs).0 ≡ (is_error status || any_error rs)
unfolding concat_loop any_error is_error is_zero
concat_loop-status status payload messages [] = ground arith
concat_loop-status status payload messages (r ∷ rs) = ground (
  arith,
  concat_loop-status status payload messages rs,
  concat_loop-status (if is_error r.status then error else status)
      (if is_nil r.payload then payload else r.payload)
      (if r.message == [] then messages else messages ++ (r.message ∷ [])) rs,
)

-- The joined result is an error exactly if one of the results is.
pub concat_result_messages-status :
    {P : Type 0} (results : List (ResultMessage P))
    → is_error (concat_result_messages results).status ≡ any_error results
unfolding concat_result_messages is_error
concat_result_messages-status results = concat_loop-status success none [] results

-- ===== src/File/Poller.antt =====
-- file/polling.go: the poller that writes a document to its file. The ticks of its clock are steps;
-- what the file holds is a text, and writing it is taken to succeed, as the program ignores its errors.
pub mod Synchrony
use conver_go.Base.{List, Option, Outcome, Text, if◌then◌else◌, [], none, ret, some, ℕ, ◌>>=◌, ◌∷◌}
use conver_go.Cvrdt.Sequence.{SiteError}
use conver_go.Cvrdt.State.{CvrdtState, WootCvrdt, snapshot, update_state}

-- A document with the text of its file.
pub record Polled : Type 0 where
  pub document : WootCvrdt
  pub file : Text

-- A turn of `Run` at a tick.
unfoldable pub tick : Polled → Polled
tick d =
    let (w, rappr, is_state_up_to_date) = snapshot d.document in
    record { document = w; file = if is_state_up_to_date then d.file else rappr }

-- What happens to a document: an update with a state, which the fuel is for, or a tick.
pub data Happening : Type 0 where
  updating : ℕ → CvrdtState → Happening
  ticking : Happening

unfoldable pub happen : Happening → Polled → Outcome (Polled × Option SiteError)
happen (updating fuel state) d =
    update_state fuel d.document state >>= λ (w, e). ret (record d { document = w }, e)
happen ticking d = ret (tick d, none)

unfoldable pub reported : Option SiteError → List SiteError → List SiteError
reported none failures = failures
reported (some failed) failures = failed ∷ failures

-- What happens one after the other, with the errors of the updates.
unfoldable pub happen_all : List Happening → Polled → Outcome (Polled × List SiteError)
happen_all [] d = ret (d, [])
happen_all (h ∷ hs) d =
    happen h d >>= λ (d', e). happen_all hs d' >>= λ (d'', failures). ret (d'', reported e failures)

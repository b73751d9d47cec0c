-- ===== src/Report.antt =====
-- internal/report/store.go: reports of abuse in PostgreSQL. The database and its driver are not part
-- of the repository: they are an interface, with what is documented of them.
use whisper_chat.Prelude.{
  ℕ, String, ◌≡◌, Bool, false, Option, none, some, List, [], ◌∷◌, ◌++◌, if◌then◌else◌, nat_eq,
  text_eq, list_eq, contains,
}
use whisper_chat.Redis.Client.{Result}

-- `text` is a Go string: its bytes.
pub record MessageEntry : Type 0 where
  pub from : String
  pub text : List ℕ
  pub ts : ℕ

pub record Report : Type 0 where
  pub reporter_fingerprint : String
  pub reported_fingerprint : String
  pub chat_id : String
  pub reason : String
  pub messages : List MessageEntry

-- A row of abuse_reports; `none` is NULL.
pub record Row : Type 0 where
  pub reporter_fingerprint : String
  pub reported_fingerprint : String
  pub chat_id : String
  pub reason : String
  pub messages : Option (List MessageEntry)

pub record Postgres : Type 1 where
  pub State : Type 0
  -- INSERT INTO abuse_reports, `false` for an error.
  pub insert_row : Row → State → Bool × State
  -- SELECT COUNT(*) of the rows on a fingerprint that are at most so many seconds old.
  pub count_rows : String → ℕ → State → Result ℕ × State
  pub rows : State → List Row
  pub rows-insert_row :
      (row : Row) (s : State)
      → rows (insert_row row s).1 ≡ (if (insert_row row s).0 then rows s ++ row ∷ [] else rows s)
  pub rows-count_rows :
      (fingerprint : String) (window : ℕ) (s : State)
      → rows (count_rows fingerprint window s).1 ≡ rows s

abbrev pub valid_reasons : List String
valid_reasons = "harassment" ∷ "spam" ∷ "explicit" ∷ "other" ∷ []

-- No messages are NULL.
abbrev pub messages_column : List MessageEntry → Option (List MessageEntry)
messages_column [] = none
messages_column (m ∷ l) = some (m ∷ l)

abbrev pub row_of : Report → Row
row_of report = record {
  reporter_fingerprint = report.reporter_fingerprint;
  reported_fingerprint = report.reported_fingerprint;
  chat_id = report.chat_id;
  reason = report.reason;
  messages = messages_column report.messages;
}

module _ (d : Postgres) where
  -- `true` for no error.
  unfoldable pub create : Report → d.State → Bool × d.State
  create report s =
      if contains report.reason valid_reasons then d.insert_row (row_of report) s else (false, s)

  unfoldable pub count_recent : String → ℕ → d.State → Result ℕ × d.State
  count_recent reported_fingerprint window s = d.count_rows reported_fingerprint window s

-- ===== src/Journal/Lines.antt =====
-- launchy/journalctl-utils.go: the kinds of the messages of journalctl, and the state of its reader.
use godev.Prelude.{
  has_prefix, ℕ, Bool, ◌&&◌, ◌||◌, List, [], ◌∷◌, Option, none, some, Bytes, codes, bytes_eq,
  if◌then◌else◌, ◌==◌,
}

-- The fields of `JournalCtlMessage` that the code reads.
pub record JournalCtlMessage : Type 0 where
  pub code_func : Bytes
  pub syslog_id : Bytes
  pub message : Bytes
  pub systemd_user_unit : Bytes
  pub user_unit : Bytes
  pub job_type : Bytes

pub data MessageKind : Type 0 where
  app_message start stopping failed stopped journal_unknown : MessageKind

-- The result of `MessageLine`: a pointer to the text, or a nil pointer, with or without an error.
pub data Line : Type 0 where
  text_line : Bytes → Line
  empty_line : Line
  null_line : Line
  unknown_format : Line

-- The fields of `SystemdService` and its record that the reader uses; a process is known by the number
-- of the call of RandomProcessUid that named it.
pub record SystemdService : Type 0 where
  pub service_uid : Bytes
  pub minion_enabled : Bool
  pub current_slurp : Option ℕ

-- What is asked of the server. The pid is kept as the bits of an int32.
pub data Request : Type 0 where
  asked_start : ℕ → Bytes → ℕ → Request
  asked_completion : ℕ → Bytes → Request

-- Code of other packages and programs: json.Unmarshal of a line, of an array of bytes and of a string;
-- the pid that systemctl shows for a unit, at the time of the n-th process; and whether the n-th
-- ProcessStart is published.
pub record Host : Type 0 where
  pub unmarshal_message : Bytes → Option JournalCtlMessage
  pub unmarshal_bytes : Bytes → Option Bytes
  pub unmarshal_string : Bytes → Option Bytes
  pub current_pid : ℕ → Bytes → Option ℕ
  pub start_is_published : ℕ → Bool

-- The state: the services of the agent, the names that were not found, the number of process uids, the
-- requests, the last first, and the texts that were put into the channel of a process, in order.
pub record Reader : Type 0 where
  pub services_by_name : List (Bytes × SystemdService)
  pub not_found_service_names : List Bytes
  pub uids : ℕ
  pub requests : List Request
  pub channel_texts : List (ℕ × Bytes)

-- `strings.HasSuffix` and `strings.Contains`, with what is looked for first.
unfoldable pub has_suffix : Bytes → Bytes → Bool
has_suffix p [] = bytes_eq p []
has_suffix p (c ∷ s) = bytes_eq p (c ∷ s) || has_suffix p s

unfoldable pub contains : Bytes → Bytes → Bool
contains p [] = bytes_eq p []
contains p (c ∷ s) = has_prefix p (c ∷ s) || contains p s

abbrev pub text_of : Option Bytes → Line
text_of none = empty_line
text_of (some t) = text_line t

-- The test of a text by `MessageKind`, which dereferences the pointer before it looks at the error.
-- None is a nil dereference.
abbrev pub kind_by : (Bytes → Bool) → MessageKind → Line → Option MessageKind
kind_by test kind (text_line t) = some (if test t then kind else journal_unknown)
kind_by test kind empty_line = some journal_unknown
kind_by test kind null_line = none
kind_by test kind unknown_format = none

abbrev pub is_stopping : Bytes → Bool
is_stopping t = has_prefix (codes "Stopping ") t

abbrev pub is_consumed : Bytes → Bool
is_consumed t = contains (codes ": Consumed") t && has_suffix (codes " CPU time.") t

module _ (h : Host) where
  -- `MessageLine`, which keeps its result in the message.
  abbrev pub message_line : Bytes → Line
  message_line [] = null_line
  message_line (c ∷ cs) =
      if c == b'['
      then text_of (h.unmarshal_bytes (c ∷ cs))
      else if c == b'"'
      then text_of (h.unmarshal_string (c ∷ cs))
      else if bytes_eq (c ∷ cs) (codes "null")
      then null_line
      else unknown_format

  abbrev pub message_kind : JournalCtlMessage → Option MessageKind
  message_kind m =
      if bytes_eq m.syslog_id (codes "systemd")
      then if bytes_eq m.job_type (codes "start")
        then some start
        else if bytes_eq m.job_type (codes "stop")
        then some stopped
        else if bytes_eq m.code_func (codes "unit_status_log_starting_stopping_reloading")
        then kind_by is_stopping stopping (message_line m.message)
        else if bytes_eq m.code_func (codes "unit_log_resources")
        then kind_by is_consumed failed (message_line m.message)
        else some journal_unknown
      else some app_message

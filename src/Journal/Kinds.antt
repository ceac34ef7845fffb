-- ===== src/Journal/Kinds.antt =====
-- launchy/journalctl-utils.go: the messages of which MessageKind panics.
use godev.Prelude.{
  Bool, true, false, ◌||◌, Option, none, some, Bytes, codes, bytes_eq, if◌then◌else◌, ◌≡◌, ◌≢◌, ◌⊎◌,
  refl, sym, ◌∙◌, ap, inl, inr, Bool-cases,
}
use godev.Journal.Lines.{
  JournalCtlMessage, SystemdService, Host, Reader, MessageKind, Line, text_line, empty_line,
  null_line, unknown_format, message_line, message_kind, app_message, start, stopping, failed,
  stopped, journal_unknown, kind_by, is_stopping, is_consumed,
}

abbrev pub has_no_text : Line → Bool
has_no_text (text_line t) = false
has_no_text empty_line = false
has_no_text null_line = true
has_no_text unknown_format = true

abbrev pub is_unit_log : Bytes → Bool
is_unit_log f =
    bytes_eq f (codes "unit_status_log_starting_stopping_reloading")
    || bytes_eq f (codes "unit_log_resources")

some-none : {k : MessageKind} → some k ≢ none
some-none e = cc

false-true : false ≢ true
false-true e = cc

abbrev is_app : Option MessageKind → Bool
is_app (some app_message) = true
is_app _ = false

text_kind :
    (test : Bytes → Bool) (k : MessageKind) (l : Line)
    → is_app (some k) ≡ false
    → is_app (kind_by test k l) ≡ false
text_kind test k (text_line t) e = elim (Bool-cases (test t)) [ inl a ↦ rw a e | inr a ↦ rw a refl ]
text_kind test k empty_line e = refl
text_kind test k null_line e = refl
text_kind test k unknown_format e = refl

unit_kind :
    (b c d f : Bool) (x y : Option MessageKind)
    → is_app x ≡ false
    → is_app y ≡ false
    → is_app (
        if b
        then some start
        else if c
        then some stopped
        else if d
        then x
        else if f
        then y
        else some journal_unknown)
      ≡ false
unit_kind true c d f x y p q = refl
unit_kind false true d f x y p q = refl
unit_kind false false true f x y p q = p
unit_kind false false false true x y p q = q
unit_kind false false false false x y p q = refl

module _ (h : Host) where
  -- What is wrong with a message: systemd logs a unit, other than its start and its stop, with no text;
  -- or an application has a text, when the process that is started for it is not published.
  pub data Cause (m : JournalCtlMessage) (v : SystemdService) (s : Reader) : Type 0 where
    no_text :
        bytes_eq m.syslog_id (codes "systemd") ≡ true
        → bytes_eq m.job_type (codes "start") ≡ false
        → bytes_eq m.job_type (codes "stop") ≡ false
        → is_unit_log m.code_func ≡ true
        → has_no_text (message_line h m.message) ≡ true
        → Cause m v s
    not_published :
        (t : Bytes)
        → bytes_eq m.syslog_id (codes "systemd") ≡ false
        → message_line h m.message ≡ text_line t
        → v.current_slurp ≡ none
        → h.start_is_published s.uids ≡ false
        → Cause m v s

  kind_none :
      (test : Bytes → Bool) (k : MessageKind) (l : Line)
      → kind_by test k l ≡ none
      → has_no_text l ≡ true
  kind_none test k (text_line t) e = cc
  kind_none test k empty_line e = cc
  kind_none test k null_line e = refl
  kind_none test k unknown_format e = refl

  none_kind :
      (test : Bytes → Bool) (k : MessageKind) (l : Line)
      → has_no_text l ≡ true
      → kind_by test k l ≡ none
  none_kind test k (text_line t) e = cc
  none_kind test k empty_line e = cc
  none_kind test k null_line e = refl
  none_kind test k unknown_format e = refl

  pub no_kind :
      (m : JournalCtlMessage) (v : SystemdService) (s : Reader)
      → message_kind h m ≡ none
      → Cause m v s
  no_kind m v s e = elim (Bool-cases (bytes_eq m.syslog_id (codes "systemd"))) [
    | inr a ↦ absurd (some-none (rw a at e))
    | inl a ↦ elim (Bool-cases (bytes_eq m.job_type (codes "start"))) [
      | inl b ↦ absurd (some-none (rw (a, b) at e))
      | inr b ↦ elim (Bool-cases (bytes_eq m.job_type (codes "stop"))) [
        | inl c ↦ absurd (some-none (rw (a, b, c) at e))
        | inr c ↦
            elim (Bool-cases
              (bytes_eq m.code_func (codes "unit_status_log_starting_stopping_reloading"))) [
                | inl d ↦ no_text a b c (rw d refl) (
                    kind_none is_stopping stopping (message_line h m.message)
                      (rw (a, b, c, d) at e))
                | inr d ↦ elim (Bool-cases (bytes_eq m.code_func (codes "unit_log_resources"))) [
                  | inl f ↦ no_text a b c (rw (d, f) refl) (
                      kind_none is_consumed failed (message_line h m.message)
                        (rw (a, b, c, d, f) at e))
                  | inr f ↦ absurd (some-none (rw (a, b, c, d, f) at e))
                ]
              ]
      ]
    ]
  ]

  pub app_kind :
      (m : JournalCtlMessage)
      → message_kind h m ≡ some app_message
      → bytes_eq m.syslog_id (codes "systemd") ≡ false
  app_kind m e = elim (Bool-cases (bytes_eq m.syslog_id (codes "systemd"))) [
    | inr a ↦ a
    | inl a ↦
        let text = message_line h m.message in
        let systemd =
          unit_kind (bytes_eq m.job_type (codes "start")) (bytes_eq m.job_type (codes "stop"))
            (bytes_eq m.code_func (codes "unit_status_log_starting_stopping_reloading"))
            (bytes_eq m.code_func (codes "unit_log_resources")) _ _
            (text_kind is_stopping stopping text refl) (text_kind is_consumed failed text refl) in
        absurd (false-true (sym systemd ∙ ap is_app (rw a at e)))
  ]

  pub kind_no :
      (m : JournalCtlMessage) (v : SystemdService) (s : Reader)
      → Cause m v s
      → (message_kind h m ≡ none)
        ⊎ ((t : Bytes) × (message_kind h m ≡ some app_message)
            × (message_line h m.message ≡ text_line t)
            × (v.current_slurp ≡ none)
            × (h.start_is_published s.uids ≡ false))
  kind_no m v s (not_published t a l c f) = inr (t, (rw a refl), l, c, f)
  kind_no m v s (no_text a b c d f) =
      elim (Bool-cases
        (bytes_eq m.code_func (codes "unit_status_log_starting_stopping_reloading"))) [
          | inl g ↦
              inl (rw (a, b, c, g) (none_kind is_stopping stopping (message_line h m.message) f))
          | inr g ↦ inl (
              rw (a, b, c, g, (rw g at d))
                (none_kind is_consumed failed (message_line h m.message) f))
        ]

-- ===== src/Hermes/Session/Brokered.antt =====
-- The sessions of hermes/activews.go over the mailboxes of hermes/mailbox-store.go.
use godev.Prelude.{
  ℕ, ℤ, Bool, false, List, [], Option, none, some, Bytes, get_elem?, set, ◌≡◌, refl,
}
use godev.Hermes.Name.{Name, new_name, same}
use godev.Hermes.Message.{SendMessageRequest, SendMessageResponse}
use godev.Hermes.Mailbox.{Mailbox, update_last_activity}
use godev.Hermes.Store.{Services, Store}
use godev.Hermes.Lookup.{fetch_by_reader_key}
use godev.Hermes.Misses.{mailbox_lookup-Looked}
use godev.Hermes.Uncached.{Run, Run-uncached}
use godev.Hermes.Session.{
  Broker, FirstMessage, FromClient, first_message, notification, Session, new_session,
}
use godev.Hermes.Session.Reader.{
  mailbox_not_found, not_found_text, send, with_mailbox, start_protocol,
}

module _ (e : Services) (now : ℤ)
    (publish : ℕ → SendMessageRequest → Store → Option SendMessageResponse × Store) where
  abbrev address_is : Option Mailbox → Name → Bool
  address_is none a = false
  address_is (some m) a = same m.mailbox_address a

  abbrev key_text : Option Mailbox → Bytes
  key_text none = []
  key_text (some m) = m.admin_key.text

  abbrev touched_at : ℕ → Option Mailbox → Store → Store
  touched_at p none s = s
  touched_at p (some m) s = record s { mailboxes = set s.mailboxes p (update_last_activity now m) }

  -- A mailbox is its place; `ReaderKeyO` and `AddressO` allocate the names that the client sent.
  abbrev pub store_broker : Broker ℕ Store
  store_broker = record {
    fetch_by_reader_key = λ key s.
        fetch_by_reader_key e (new_name key s.free).0 (record s { free = (new_name key s.free).1 });
    same_address = λ p address s. (
      address_is (get_elem? s.mailboxes p) (new_name address s.free).0,
      record s { free = (new_name address s.free).1 },
    );
    admin_key = λ p s. key_text (get_elem? s.mailboxes p);
    touch = λ p s. touched_at p (get_elem? s.mailboxes p) s;
    publish = publish;
  }

  ends_without :
      (f : FirstMessage) (reads : List (Option FromClient)) (s : Session) (r : Option ℕ × Store)
      → r.0 ≡ none
      → (let out = with_mailbox store_broker f reads s r in
          (out.0 ≡ mailbox_not_found)
          × (out.1.0 ≡ send (notification (not_found_text f.reader_key)) s))
  ends_without f reads s (none, t) h = (refl, refl)
  ends_without f reads s (some p, t) h = absurd (cc)

  -- Over a store that cached nothing when the program started, after any sequence of its operations: a
  -- client that sends its first message, with any reader key, is told that there is no such mailbox, and
  -- its session ends before anything is registered.
  pub start_protocol-mailbox_not_found :
      {s t : Store} (r : Run e s t) (f : FirstMessage) (reads : List (Option FromClient))
      → s.in_memory ≡ []
      → (let out = start_protocol store_broker (some (first_message f)) reads new_session t in
          (out.0 ≡ mailbox_not_found)
          × (out.1.0 ≡ send (notification (not_found_text f.reader_key)) new_session))
  unfolding start_protocol fetch_by_reader_key new_name
  start_protocol-mailbox_not_found {t = t} r f reads h =
      ends_without f reads new_session (store_broker.fetch_by_reader_key f.reader_key t)
        (mailbox_lookup-Looked e (λ m. m.reader_key) f.reader_key
          (record t { free = (new_name f.reader_key t.free).1 }) (Run-uncached e r h)).0

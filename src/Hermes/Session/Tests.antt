-- ===== src/Hermes/Session/Tests.antt =====
-- Tests of the sessions of hermes/activews.go: a client that subscribes to the output of a process.
use godev.Prelude.{ℕ, pos, false, List, [], ◌∷◌, Option, none, some, codes, get, ◌≡◌, refl}
use godev.Hermes.Message.{SendMessageRequest, SendMessageResponse}
use godev.Hermes.Store.{Store}
use godev.Hermes.Lookup.{create_mailbox, place_of}
use godev.Hermes.Uncached.{no_step, then_step, creates}
use godev.Hermes.Fixtures.{server, empty_store, two_channels}
use godev.Hermes.Session.{
  Broker, nefario, FirstMessage, FromClient, first_message, subscribe_request, notification,
  Session, new_session, un_register_sub, subjects,
}
use godev.Hermes.Session.Reader.{mailbox_not_found, not_found_text, send, start_protocol}
use godev.Hermes.Session.Running.{AllStarted, start_protocol-un_register_sub}
use godev.Hermes.Session.Brokered.{store_broker, start_protocol-mailbox_not_found}

-- One mailbox, which any key finds.
abbrev one_mailbox : Broker ℕ ℕ
one_mailbox = record {
  fetch_by_reader_key = λ key b. (some 0, b);
  same_address = λ m address b. (false, b);
  admin_key = λ m b. codes "zz";
  touch = λ m b. b;
  publish = λ m r b. (none, b);
}

abbrev hello : FirstMessage
hello = record { reader_key = codes "rr"; address = codes "alice"; subscriptions = [] }

abbrev reads : List (Option FromClient)
reads =
    some
      (subscribe_request (nefario (codes "s") [] (codes "st") (codes "p1") (codes "stdout") ∷ []))
    ∷ none
    ∷ []

abbrev after_reads : Session
after_reads = (start_protocol one_mailbox (some (first_message hello)) reads new_session 0).1.0

-- One key gives a subject that is empty before that of the key.
two_subjects :
    subjects
      (record { database = codes "d"; table = codes "t"; primary_keys = some (codes "7") ∷ [] })
      (codes "wal")
    ≡ [] ∷ codes "wal.d.t.7" ∷ []
unfolding subjects
two_subjects = refl

start_protocol-un_register_sub_example :
    AllStarted after_reads.queues (get (codes "s") after_reads.subscriptions_by_id)
    × (get (codes "s") (un_register_sub (codes "s") after_reads).1.subscriptions_by_id ≡ none)
    × ((un_register_sub (codes "s") after_reads).1 ≡ record after_reads {
      subscriptions_by_id = (un_register_sub (codes "s") after_reads).1.subscriptions_by_id;
    })
    × ((un_register_sub (codes "s") after_reads).1.unsubscribed ≡ [])
start_protocol-un_register_sub_example =
    start_protocol-un_register_sub one_mailbox (some (first_message hello)) reads 0 (codes "s")

abbrev no_publication : ℕ → SendMessageRequest → Store → Option SendMessageResponse × Store
no_publication p r s = (none, s)

abbrev one_created : Store
one_created = (place_of server (create_mailbox server (pos 9) two_channels empty_store)).1

start_protocol-mailbox_not_found_example :
    ((start_protocol
        (store_broker server (pos 9) no_publication)
        (some (first_message hello))
        reads
        new_session
        one_created).0
      ≡ mailbox_not_found)
    × ((start_protocol
          (store_broker server (pos 9) no_publication)
          (some (first_message hello))
          reads
          new_session
          one_created).1.0
        ≡ send (notification (not_found_text (codes "rr"))) new_session)
start_protocol-mailbox_not_found_example =
    start_protocol-mailbox_not_found server (pos 9) no_publication
      (then_step no_step (creates (pos 9) two_channels)) hello reads refl

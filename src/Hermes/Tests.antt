-- ===== src/Hermes/Tests.antt =====
-- The results of the broker at concrete stores, mailboxes and messages.
use godev.Prelude.{
  ℕ, suc, ◌<◌, arith, All, Bool, true, false, List, [], ◌∷◌, ◌++◌, map, Option, none, some, Bytes,
  codes, ◌≡◌, ◌≢◌, refl, ℤ, pos, inl, inr, replicate, drop, without, without, without,
}
use godev.Hermes.Name.{new_names, Name, rpc_sent, rpc_inbox}
use godev.Hermes.Message.{protobuf, success_response, RpcHeader, Message}
use godev.Hermes.Mailbox.{Mailbox, handle_inbox}
use godev.Hermes.Store.{
  add_channels, MailboxFields, Services, Bucket, Store, ok, err, duplicate_address, random_key,
}
use godev.Hermes.Lookup.{
  CreateMailboxRequest, place_of, create_mailbox, mailbox_lookup, choose_keys, create_mailbox_impl,
  fetch_or_create_named,
}
use godev.Hermes.Passes.{purge, purge_pass, sync_pass, nil_dereference}
use godev.Hermes.Publish.{direct_publish}
use godev.Hermes.Unsent.{Unsent, direct_publish-Unsent}
use godev.Hermes.Misses.{Looked}
use godev.Hermes.Uncached.{Run-Looked, no_step, then_step, creates}
use godev.Hermes.Named.{fetch_or_create_named-duplicate_address}
use godev.Hermes.Purging.{purge_pass-nil_dereference, sync_pass-IsRandomKey, IsRandomKey}
use godev.Hermes.Fresh.{Drops, handle_inbox-Drops}
use godev.Hermes.Channels.{Appends, add_channels-Appends}
use godev.Hermes.Removal.{SameAt, purge-create_mailbox_impl}
use godev.Hermes.Rpc.{RpcRequest, raw_rpc_call}
use godev.Hermes.Timeouts.{Unanswered, raw_rpc_call-Unanswered}
use godev.Hermes.Fixtures.{
  server, empty_store, one_key, key_name, alice, two_channels, call_header, header, call, call_bob,
}

cons_ne : {c : ℕ} {text : Bytes} → (c ∷ text) ≢ []
cons_ne h = absurd cc

no_z : {c : ℕ} → c < b'z' → c ≢ b'z'
no_z l h = ground arith

direct_publish-Unsent_example :
    Unsent server
      (pos 9)
      call_bob
      (some call_header)
      alice
      empty_store
      (direct_publish server (pos 9) call_bob alice empty_store)
direct_publish-Unsent_example =
    direct_publish-Unsent server (pos 9) call_bob call header alice empty_store refl refl refl

Run-Looked_example :
    Looked server (place_of server (create_mailbox server (pos 9) two_channels empty_store)).1 (
      mailbox_lookup server
        (λ m. m.reader_key)
        (codes "rraa")
        (place_of server (create_mailbox server (pos 9) two_channels empty_store)).1)
Run-Looked_example =
    Run-Looked server (then_step no_step (creates (pos 9) two_channels)) (λ m. m.reader_key)
      (codes "rraa") refl

-- The first creation of the mailbox, computed.
first_bob :
    fetch_or_create_named server (pos 9) (key_name 1 (codes "bob")) one_key
    ≡ (ok 0, (fetch_or_create_named server (pos 9) (key_name 1 (codes "bob")) one_key).1)
unfolding fetch_or_create_named godev.Hermes.Lookup.fetch_by_address
    godev.Hermes.Lookup.mailbox_lookup godev.Prelude.get create_mailbox_impl
    godev.Hermes.Lookup.create_with choose_keys godev.Hermes.Lookup.choose_address
    godev.Prelude.bytes_eq godev.Hermes.Name.new_name without godev.Hermes.Store.add_channels
    godev.Hermes.Store.add_channel godev.Hermes.Store.make_stream godev.Hermes.Store.is_stream
    godev.Hermes.Mailbox.holds godev.Hermes.Name.new_names godev.Hermes.Lookup.put_keys
    godev.Hermes.Mailbox.update_last_activity godev.Prelude.put
    godev.Hermes.Mailbox.nats_stream_name
first_bob = refl

fetch_or_create_named-duplicate_address_example :
    (fetch_or_create_named server
      (pos 10)
      (key_name 8 (codes "bob"))
      (fetch_or_create_named server (pos 9) (key_name 1 (codes "bob")) one_key).1).0
    ≡ err duplicate_address
fetch_or_create_named-duplicate_address_example =
    fetch_or_create_named-duplicate_address server (pos 9) (pos 10) (key_name 1 (codes "bob"))
      (key_name 8 (codes "bob")) one_key
      (fetch_or_create_named server (pos 9) (key_name 1 (codes "bob")) one_key).1 0 (codes "{}")
      refl refl cons_ne refl refl refl first_bob

purge_pass-nil_dereference_example :
    (free : ℕ) × (purge_pass server (pos 9) one_key
      ≡ (nil_dereference, record one_key { free = free }))
purge_pass-nil_dereference_example =
    purge_pass-nil_dereference server (pos 9) one_key (codes "zzq") [] refl

abbrev cached : Store
cached = record empty_store { in_memory = (codes "zzaa", 0) ∷ []; mailboxes = alice ∷ [] }

cached_keys : All (λ (c : Bytes × ℕ). IsRandomKey server c.0) cached.in_memory
unfolding without
cached_keys = ((codes "aa", ((no_z (ground arith), (no_z (ground arith), tt)), inr (inr refl))), tt)

sync_pass-IsRandomKey_example : sync_pass server cached ≡ (none, cached)
sync_pass-IsRandomKey_example = sync_pass-IsRandomKey server cached cached_keys

abbrev answer_header : RpcHeader
answer_header = record {
  correlation_id = codes "id";
  end_point = [];
  frame_type = success_response;
  error_info = none;
}

handle_inbox-Drops_example : Drops (handle_inbox (some answer_header) true 8 alice).0
handle_inbox-Drops_example = handle_inbox-Drops (some answer_header) true 8 alice (ground arith, tt)

add_channels-Appends_example :
    Appends server alice
      (new_names (codes "news" ∷ codes "news" ∷ []) 9).0
      (add_channels server alice (new_names (codes "news" ∷ codes "news" ∷ []) 9).0 one_key)
add_channels-Appends_example =
    add_channels-Appends server (codes "news" ∷ codes "news" ∷ []) 9 alice one_key
      (ground arith, (ground arith, tt)) (cons_ne, (cons_ne, tt)) (λ n. refl)

-- What a first creation gives.
abbrev created : Mailbox
created = elim (create_mailbox_impl server (pos 9) two_channels (key_name 8 []) one_key).0 [
  | ok m ↦ m
  | err x ↦ alice
]

created_ok :
    create_mailbox_impl server (pos 9) two_channels (key_name 8 []) one_key
    ≡ (ok created, (create_mailbox_impl server (pos 9) two_channels (key_name 8 []) one_key).1)
unfolding fetch_or_create_named godev.Hermes.Lookup.fetch_by_address
    godev.Hermes.Lookup.mailbox_lookup godev.Prelude.get create_mailbox_impl
    godev.Hermes.Lookup.create_with choose_keys godev.Hermes.Lookup.choose_address
    godev.Prelude.bytes_eq godev.Hermes.Name.new_name without godev.Hermes.Store.add_channels
    godev.Hermes.Store.add_channel godev.Hermes.Store.make_stream godev.Hermes.Store.is_stream
    godev.Hermes.Mailbox.holds godev.Hermes.Name.new_names godev.Hermes.Lookup.put_keys
    godev.Hermes.Mailbox.update_last_activity godev.Prelude.put
    godev.Hermes.Mailbox.nats_stream_name
created_ok = refl

purge-create_mailbox_impl_example : SameAt server (codes "zzq") one_key (
    purge server created
      (create_mailbox_impl server (pos 9) two_channels (key_name 8 []) one_key).1)
purge-create_mailbox_impl_example =
    purge-create_mailbox_impl server (pos 9) two_channels (key_name 8 []) one_key
      (create_mailbox_impl server (pos 9) two_channels (key_name 8 []) one_key).1 created
      (codes "zzq") (λ k. (refl, (refl, refl))) created_ok

-- A call of bob's clock, and the answer that comes with the call's own identifier.
abbrev clock : RpcRequest
clock = record {
  to = key_name 8 (codes "bob");
  end_point = codes "time";
  channel = key_name 6 [];
  content_type = protobuf;
}

abbrev answer : Message
answer = record {
  header = some (record {
    sender = codes "bob";
    content_type = protobuf;
    rpc_header = some (record {
      correlation_id = codes "a";
      end_point = [];
      frame_type = success_response;
      error_info = none;
    });
  });
  created = none;
  data_bytes = codes "noon";
}

raw_rpc_call-Unanswered_example :
    Unanswered server alice
      (raw_rpc_call server (pos 9) clock (codes "now") 2 true (answer ∷ []) alice one_key)
raw_rpc_call-Unanswered_example =
    raw_rpc_call-Unanswered server (pos 9) clock (codes "now") 2 true (answer ∷ []) alice one_key
      (ground arith, tt)

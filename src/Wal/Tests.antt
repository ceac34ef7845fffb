-- ===== src/Wal/Tests.antt =====
-- Tests of the listener's model, and its theorems at concrete inputs.
use godev.Wal.Decode.Messages.{read_update, Reads-update}
use godev.Wal.Reads.{Reads}
use godev.Wal.Columns.{Rows, row_columns_iff}
use godev.Wal.Safety.Failure.{parse_wal_message-Keeps}
use godev.Wal.Safety.Retry.{Kept, process_wal_message-Kept, insert-after-refusal}
use godev.Wal.Safety.Delivery.{
  Publishes, publish_events-Publishes, CommitResult, publish_commit-CommitResult, events_of,
  create_events-events_of,
}
use godev.Wal.Service.{Wait, message, stream_round, here, reads, streams, reports, moves}
use godev.Wal.Safety.Positions.{IsOrdered, Reach-IsOrdered}
use godev.Prelude.{◌≤◌, ◌≡◌, refl, [], ◌∷◌, arith, pos, ◌↔◌, ◌++◌, none, some, Bytes, codes}
use godev.Wal.Outcome.{ok, err, relation_not_found}
use godev.Wal.Buffer.{new_buffer, ◌>>=◌, next, next_byte, read_bytes}
use godev.Wal.Word.{big_endian, signed, word_of, put_int}
use godev.Wal.Reader.{
  read_int, read_string, read_bool, trim, read_column, repeat, read_columns, read_cell,
  read_tuple_item, read_tuple_data,
}
use godev.Wal.Messages.{get_insert_msg, get_relation_msg, get_update_msg}
use godev.Wal.Transaction.{
  new_wal_transaction, create_action_data, row_columns, typed_value, assert_value, find_relation,
  store_relation, WalTransaction,
}
use godev.Wal.Strconv.{parse_int64}
use godev.Wal.Parser.{on_relation, on_insert, parse_wal_message}
use godev.Wal.Encode.{put_message, no_row, null_cell, put_old_row, put_row, text_cell}
use godev.Wal.Decode.Refinement.{perform, parse_wal_message-put_message}
use godev.Wal.Listener.{
  beat_status, report_position, process_wal_message, publish_commit, publish_events, ack_if_newer,
  ack_wal_message, parse_into, send_standby_status, WalMessage,
}
use godev.Wal.Event.{create_events}
use godev.Wal.Safety.Acknowledge.{Settles, process_wal_message-Settles}
use godev.Wal.Messages.{get_commit_msg}
use godev.Wal.Parser.{on_commit}
use godev.Wal.Reader.{read_timestamp}
use godev.Wal.Word.{mul64}
use godev.Wal.Fixtures.{
  commit_bytes, filled, commit_message, decoders, opened, added, insert_42, relation_bytes,
  insert_bytes, setup, refused, plain_event, start, uid_column, refusing,
}

read_all :
    (parse_wal_message decoders big_endian relation_bytes (record opened { relation_store = [] })
      ≡ (ok tt, opened))
    × (parse_wal_message decoders big_endian insert_bytes opened
        ≡ (ok tt, record opened { actions = added ∷ [] }))
    × (parse_wal_message decoders big_endian insert_bytes new_wal_transaction
        ≡ (err relation_not_found, new_wal_transaction))
unfolding parse_wal_message on_relation on_insert get_relation_msg get_insert_msg new_buffer ◌>>=◌
    next next_byte read_bytes read_int read_string read_bool trim read_column repeat read_columns
    read_cell read_tuple_item read_tuple_data signed word_of store_relation find_relation
    create_action_data row_columns assert_value typed_value parse_int64
read_all = (refl, refl, refl)

parse_wal_message-put_message_example :
    parse_wal_message decoders big_endian (put_message big_endian insert_42) opened
    ≡ perform decoders insert_42 opened
parse_wal_message-put_message_example =
    parse_wal_message-put_message decoders insert_42 opened (omega arith)

process_wal_message-Settles_example :
    Settles setup commit_message
      (pos 1000)
      (record filled { tx = (parse_wal_message decoders big_endian commit_bytes filled.tx).1 })
      (process_wal_message setup commit_message filled)
unfolding parse_wal_message on_commit get_commit_msg new_buffer ◌>>=◌ next read_int read_timestamp
    signed word_of mul64 process_wal_message parse_into publish_commit create_events publish_events
    ack_if_newer ack_wal_message send_standby_status
process_wal_message-Settles_example =
    process_wal_message-Settles setup commit_message (pos 1000) filled refl (omega arith)

abbrev commit_wait : Wait
commit_wait = message (record { wal_message = some commit_message; server_heartbeat = none })

-- A heartbeat reads the position, the stream acknowledges a commit, and the heartbeat reports what it
-- has read.
Reach-IsOrdered_example :
    (let t = (stream_round setup commit_wait filled).1 in
      let u = (report_position setup beat_status filled.lsn t).1 in
      (filled.lsn ≤ u.lsn) × IsOrdered setup (u, none))
Reach-IsOrdered_example =
    Reach-IsOrdered setup
      (moves (moves (moves here (reads filled)) (streams commit_wait filled (some filled.lsn)))
        (reports (stream_round setup commit_wait filled).1 filled.lsn))
      (omega arith, tt)

publish_events-Publishes_example :
    Publishes refusing (plain_event ∷ []) start (publish_events refusing (plain_event ∷ []) start)
publish_events-Publishes_example = publish_events-Publishes refusing (plain_event ∷ []) start

publish_commit-CommitResult_example :
    CommitResult setup (pos 1000) filled (publish_commit setup (some (pos 1000)) filled)
publish_commit-CommitResult_example = publish_commit-CommitResult setup (pos 1000) filled

-- The transaction that the commit's bytes make of `filled`.
abbrev committed : WalTransaction Bytes
committed = record opened { commit_time = some (pos 1000); actions = added ∷ [] }

process_wal_message-Kept_example :
    Kept refusing
      (record filled { tx = committed })
      (process_wal_message refusing commit_message filled)
unfolding parse_wal_message on_commit get_commit_msg new_buffer ◌>>=◌ next read_int read_timestamp
    signed word_of mul64 publish_commit create_events publish_events
process_wal_message-Kept_example =
    process_wal_message-Kept refusing commit_message (pos 1000) filled committed refl refl (λ e. cc)

-- The message of `insert_42`, as `insert-after-refusal` meets it.
abbrev late_insert : WalMessage
late_insert = record { wal_start = 12; wal_data = put_message big_endian insert_42 }

insert-after-refusal_example :
    Settles setup late_insert
      (pos 1000)
      (record refused { tx = record refused.tx { actions = refused.tx.actions ++ added ∷ [] } })
      (process_wal_message setup late_insert refused)
unfolding create_action_data find_relation row_columns assert_value typed_value parse_int64
    process_wal_message parse_into parse_wal_message on_insert get_insert_msg new_buffer ◌>>=◌ next
    next_byte read_int read_tuple_data repeat read_tuple_item read_cell signed word_of put_int
    publish_commit create_events publish_events ack_if_newer ack_wal_message send_standby_status
insert-after-refusal_example =
    insert-after-refusal setup late_insert (pos 1000) refused (pos 5) (text_cell (codes "42") ∷ [])
      added refl refl (omega arith) refl refl (omega arith)

parse_wal_message-Keeps_example :
    (parse_wal_message decoders big_endian (b'X' ∷ []) opened).1 ≡ opened
unfolding parse_wal_message
parse_wal_message-Keeps_example =
    parse_wal_message-Keeps decoders big_endian (b'X' ∷ []) opened (λ e. cc)

create_events-events_of_example :
    create_events setup.new_uuid ((codes "users", []) ∷ []) (some (pos 1000)) 0 (added ∷ [])
    ≡ ok (events_of setup.new_uuid (pos 1000) 0 (added ∷ []), [])
create_events-events_of_example =
    create_events-events_of setup.new_uuid ((codes "users", []) ∷ []) (pos 1000) 0 (added ∷ [])

row_columns_iff_example :
    (row_columns decoders (uid_column ∷ []) 0 (record { value = none } ∷ []) ≡ ok (uid_column ∷ []))
    ↔ Rows decoders (uid_column ∷ []) 0 (record { value = none } ∷ []) (uid_column ∷ [])
row_columns_iff_example =
    row_columns_iff decoders (uid_column ∷ []) (record { value = none } ∷ []) (uid_column ∷ [])

Reads-update_example :
    Reads
      (get_update_msg big_endian)
      (put_int big_endian 4 (pos 5)
        ++ (put_old_row big_endian no_row ++ ((b'N' ∷ []) ++ put_row big_endian (null_cell ∷ []))))
      (read_update (pos 5) no_row (null_cell ∷ []))
Reads-update_example =
    Reads-update (pos 5) no_row (null_cell ∷ []) (omega arith) (omega arith) (omega arith)

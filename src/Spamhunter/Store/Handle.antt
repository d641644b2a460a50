-- ===== src/Spamhunter/Store/Handle.antt =====
-- spamhunter/pubkey_iterator/src/store/mod.rs: the handle, as the messages that were sent and are
-- not committed, and writer.rs: one round of the writer, which may come at any time.
use deepfry.Base.{
  ℕ, Bool, true, false, ◌||◌, Option, none, some, is_some, List, [], ◌∷◌, ◌++◌, take, drop, any,
  if◌then◌else◌,
}
use deepfry.Base.Results.{Result, ok, err}
use deepfry.Base.Words.{Bytes}
use deepfry.Spamhunter.Model.{
  Fingerprint, Persist, WriteMsg, score, pubkeys, fingerprints, flush, Tables,
}
use deepfry.Spamhunter.Store.{StoreError, io, write_all, writer_loop}

-- The durable tables, the channel, the error with which the writer's thread has ended, if it has,
-- and whether the acknowledgement of the last flush has come. One thread sends, so one flush waits
-- at a time.
pub record Store (F : Type 0) : Type 0 where
  pub db : Tables F
  pub queue : List (WriteMsg F)
  pub failure : Option StoreError
  pub acked : Bool

module _ {F : Type 0} where
  -- A store that was just opened on `db`.
  unfoldable pub open_store : Tables F → Store F
  open_store db = record { db = db; queue = []; failure = none; acked = false }

  unfoldable pub is_flush : WriteMsg F → Bool
  is_flush (score p) = false
  is_flush (pubkeys pks) = false
  is_flush (fingerprints fps) = false
  is_flush flush = true

  -- `tx.send(...).expect(...)`: none is the panic.
  unfoldable pub send : WriteMsg F → Store F → Option (Store F)
  send msg s = if is_some s.failure then none else some (record s { queue = s.queue ++ (msg ∷ []) })

  unfoldable pub persist : Persist F → Store F → Option (Store F)
  persist p s = send (score p) s

  unfoldable pub insert_pubkeys : List Bytes → Store F → Option (Store F)
  insert_pubkeys pks s = send (pubkeys pks) s

  unfoldable pub persist_fingerprints : List Fingerprint → Store F → Option (Store F)
  persist_fingerprints [] s = some s
  persist_fingerprints (fp ∷ fps) s = send (fingerprints (fp ∷ fps)) s

  -- The first half of `flush`; where the send fails there is nothing to wait for.
  unfoldable pub send_flush : Store F → Store F
  send_flush s =
      if is_some s.failure then s else record s { queue = s.queue ++ (flush ∷ []); acked = false }

  -- `ack_rx.recv()` returns: with the acknowledgement, or since its sender was dropped.
  unfoldable pub flush_returns : Store F → Bool
  flush_returns s = is_some s.failure || s.acked

  -- One round with `n` messages: the commit and then the acknowledgements, or the end of the thread.
  unfoldable pub commit : ℕ → Store F → Store F
  commit n s = elim (write_all (take n s.queue) s.db) [
    | ok db' ↦ record {
      db = db';
      queue = drop n s.queue;
      failure = s.failure;
      acked = any is_flush (take n s.queue) || s.acked;
    }
    | err e ↦ record { db = s.db; queue = []; failure = some e; acked = s.acked }
  ]

  -- The thread ends with an error of the disk or a lock: the transaction is rolled back, and the
  -- messages and the senders of acknowledgements are dropped.
  unfoldable pub writer_fails : Store F → Store F
  writer_fails s = record { db = s.db; queue = []; failure = some io; acked = s.acked }

  -- `close`, and the drop of a store: the channel closes and the writer ends.
  unfoldable pub close : Store F → Tables F × Result StoreError (Unit {0})
  close s = elim s.failure [ none ↦ writer_loop s.queue s.db | some e ↦ (s.db, err e) ]

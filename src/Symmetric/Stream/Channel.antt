-- ===== src/Symmetric/Stream/Channel.antt =====
-- symmetric/stream.hpp: both ends of a stream at work, one call of either at a time.
pub mod Pending
pub mod Sound
pub mod InOrder
use sylvite.Common.{
  ◌>>=◌, ==_iff, ℕ, ◌≤◌, ◌≡◌, ◌⊎◌, refl, sym, ap, ◌∙◌, Bool, true, false, ◌||◌, List, [], ◌∷◌, ◌++◌,
  Bytes, length, none, some, Option, Outcome, ok, throw, undefined, ◌==◌, Bool-cases, Option-cases,
  inl, inr, arith, append_assoc, ltb, if◌then◌else◌, invalid_signature, logic_error, runtime_error,
  Exception, subst, ==_refl, eq→==,
}
use sylvite.Sodium.Environment.{Environment}
use sylvite.Sodium.Secretstream.{Secretstream, SecretstreamLaws}
use sylvite.Internal.Base.{Base, byte_type, size}
use sylvite.Symmetric.Stream.{
  PullResult, Encryptor, Decryptor, new_encryptor, update, finalize, new_decryptor, pull,
}
use sylvite.Symmetric.Stream.Session.{receive, tagged, pull-push, message-ne-final, session_opens}

-- The two ends, the chunks on their way, and what was sealed and returned so far.
pub record Link (s : Secretstream) : Type 0 where
  pub sender : Encryptor s
  pub channel : List Bytes
  pub receiver : Decryptor s
  pub sent : List PullResult
  pub received : List PullResult

module _ (s : Secretstream) where
  -- A chunk goes into the channel; a call that throws puts none there.
  unfoldable pub sealed_by : Encryptor s × Outcome (Base byte_type) → PullResult → Link s → Link s
  sealed_by (e, ok c) r t = record t {
    sender = e;
    channel = t.channel ++ c.vec ∷ [];
    sent = t.sent ++ r ∷ [];
  }
  sealed_by (e, throw _) r t = record t { sender = e }
  sealed_by (e, undefined) r t = record t { sender = e }

  unfoldable pub pulled_by : Decryptor s × Outcome PullResult → Link s → Link s
  pulled_by (d, ok r) t = record t { receiver = d; received = t.received ++ r ∷ [] }
  pulled_by (d, throw _) t = record t { receiver = d }
  pulled_by (d, undefined) t = record t { receiver = d }

  -- One call of one end. The last constructor is a chunk from elsewhere that libsodium rejects.
  pub data Step (t : Link s) : Link s → Type 0 where
    updates : (m : Bytes) → Step t (sealed_by (update s t.sender m) (tagged s s.tag_message m) t)
    finalizes : (m : Bytes) → Step t (sealed_by (finalize s t.sender m) (tagged s s.tag_final m) t)
    delivers :
        (chunk : Bytes) (rest : List Bytes)
        → t.channel ≡ chunk ∷ rest
        → Step t (pulled_by (pull s t.receiver chunk) (record t { channel = rest }))
    injects :
        (chunk : Bytes)
        → s.pull t.receiver.state chunk ≡ none
        → Step t (pulled_by (pull s t.receiver chunk) t)

  pub data Reach (t : Link s) : Link s → Type 0 where
    start : Reach t t
    next : {u v : Link s} → Reach t u → Step u v → Reach t v

  -- Both ends from one key, the decryptor by the encryptor's header.
  unfoldable pub connect : Environment → Base byte_type → Outcome (Link s)
  connect env key = do
    e ← new_encryptor s env key
    d ← new_decryptor s key e.header
    ok (record { sender = e; channel = []; receiver = d; sent = []; received = [] })

  -- A plaintext with the final tag is among these.
  unfoldable pub ends : List PullResult → Bool
  ends [] = false
  ends (r ∷ rs) = r.tag == s.tag_final || ends rs

  pub ends-append :
      (rs : List PullResult) (r : PullResult)
      → ends (rs ++ r ∷ []) ≡ (ends rs || r.tag == s.tag_final)
  unfolding ends
  ends-append [] r = ground arith
  ends-append (x ∷ rs) r = ground (arith, ends-append rs r)

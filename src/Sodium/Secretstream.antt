-- ===== src/Sodium/Secretstream.antt =====
-- crypto_secretstream_xchacha20poly1305: a stream of authenticated chunks.
use sylvite.Common.{ℕ, ◌+◌, ◌≤◌, ◌≡◌, Option, some, Bytes, length}

abbrev pub crypto_secretstream_headerbytes : ℕ
crypto_secretstream_headerbytes = 24

abbrev pub crypto_secretstream_abytes : ℕ
crypto_secretstream_abytes = 17

abbrev pub crypto_secretstream_keybytes : ℕ
crypto_secretstream_keybytes = 32

-- `none` is a nonzero status; a call that fails leaves the state as it was.
pub record Secretstream : Type 1 where
  pub State : Type 0
  pub tag_message : ℕ
  pub tag_final : ℕ
  pub crypto_secretstream_messagebytes_max : ℕ
  -- key and random bytes to the state and the header
  pub init_push : Bytes → (ℕ → Bytes) → State × Bytes
  -- header and key
  pub init_pull : Bytes → Bytes → Option State
  -- message and tag to the chunk
  pub push : State → Bytes → ℕ → Option (Bytes × State)
  -- chunk to the message and the tag
  pub pull : State → Bytes → Option (Bytes × ℕ × State)

-- `Paired s t`: the receiver `t` has pulled all that the sender `s` has pushed.
pub record SecretstreamLaws (s : Secretstream) : Type 1 where
  pub Paired : s.State → s.State → Type 0
  pub tags_differ : s.tag_message ≡ s.tag_final → ⊥
  pub length-header :
      (k : Bytes) (rnd : ℕ → Bytes) → length (s.init_push k rnd).1 ≡ crypto_secretstream_headerbytes
  pub init_pull-init_push :
      (k : Bytes) (rnd : ℕ → Bytes)
      → (t : s.State) × (s.init_pull (s.init_push k rnd).1 k ≡ some t)
        × Paired (s.init_push k rnd).0 t
  pub push_total :
      (a : s.State) (m : Bytes) (tag : ℕ)
      → length m ≤ s.crypto_secretstream_messagebytes_max
      → (r : Bytes × s.State) × (s.push a m tag ≡ some r)
  pub length-push :
      (a : s.State) (m : Bytes) (tag : ℕ) (c : Bytes) (a' : s.State)
      → s.push a m tag ≡ some (c, a')
      → length c ≡ length m + crypto_secretstream_abytes
  pub pull-push :
      (a b : s.State) (m : Bytes) (tag : ℕ) (c : Bytes) (a' : s.State)
      → Paired a b
      → s.push a m tag ≡ some (c, a')
      → (b' : s.State) × (s.pull b c ≡ some (m, tag, b')) × Paired a' b'

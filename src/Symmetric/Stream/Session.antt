-- ===== src/Symmetric/Stream/Session.antt =====
-- symmetric/stream.hpp: a whole session in the order that the file's header shows.
use sylvite.Common.{
  ℕ, ◌≤◌, ◌≡◌, refl, sym, ◌∙◌, true, false, List, [], ◌∷◌, ◌++◌, All, Bytes, length, some, Outcome,
  ok, ◌>>=◌, ◌==◌, eq→==, le→ltb, arith, read_at_whole, map, Bool-cases, inl, inr, ==_iff,
}
use sylvite.Sodium.Environment.{Environment}
use sylvite.Sodium.Secretstream.{Secretstream, SecretstreamLaws}
use sylvite.Internal.Base.{Base, byte_type, size}
use sylvite.Internal.Base.Buffers.{size-bytes}
use sylvite.Symmetric.Stream.{
  PullResult, Encryptor, Decryptor, new_encryptor, update, finalize, new_decryptor, pull,
}

module _ (s : Secretstream) where
  -- `update` for each chunk and `finalize` for the last: the sealed chunks in order.
  unfoldable pub send : Encryptor s → List Bytes → Bytes → Encryptor s × Outcome (List Bytes)
  send e [] last = let (e', sealed) = finalize s e last in (e', sealed >>= λ c. ok (c.vec ∷ []))
  send e (chunk ∷ chunks) last =
      let (e', sealed) = update s e chunk in
      let (e'', rest) = send e' chunks last in (e'', sealed >>= λ c. rest >>= λ cs. ok (c.vec ∷ cs))

  -- `pull` for each chunk.
  unfoldable pub receive : Decryptor s → List Bytes → Decryptor s × Outcome (List PullResult)
  receive d [] = (d, ok [])
  receive d (chunk ∷ chunks) =
      let (d', pulled) = pull s d chunk in
      let (d'', rest) = receive d' chunks in (d'', pulled >>= λ r. rest >>= λ rs. ok (r ∷ rs))

  abbrev pub tagged : ℕ → Bytes → PullResult
  tagged tag bytes = record { plaintext = bytes; tag = tag }

  -- What the receiver shall get.
  abbrev pub plain : List Bytes → Bytes → List PullResult
  plain chunks last = map (tagged s.tag_message) chunks ++ tagged s.tag_final last ∷ []

  -- The chunks are sealed to such as the decryptor receives, and both ends are finalized by the last.
  abbrev pub Delivers : Encryptor s → Decryptor s → List Bytes → Bytes → Type 0
  Delivers e d chunks last =
      (cs : List Bytes) × ((send e chunks last).1 ≡ ok cs)
      × ((send e chunks last).0.finalized ≡ true)
      × ((receive d cs).1 ≡ ok (plain chunks last))
      × ((receive d cs).0.finalized ≡ true)

module _ {s : Secretstream} (laws : SecretstreamLaws s) where
  pub pull-push :
      (e : Encryptor s) (d : Decryptor s) (m : Bytes) (tag : ℕ) (c : Bytes) (st : s.State)
      → d.finalized ≡ false
      → laws.Paired e.state d.state
      → s.push e.state m tag ≡ some (c, st)
      → (t : s.State) × laws.Paired st t
        × (pull s d c ≡ (record { state = t; finalized = tag == s.tag_final }, ok (tagged s tag m)))
  unfolding pull
  pull-push e d m tag c st open_d paired pushed =
      let long = laws.length-push e.state m tag c st pushed in
      let (t, pulled, paired') = laws.pull-push e.state d.state m tag c st paired pushed in
      (t, paired', simp (open_d, le→ltb (length c) 17 (omega (arith, long)), pulled))

  pub message-ne-final : (s.tag_message == s.tag_final) ≡ false
  message-ne-final = elim (Bool-cases (s.tag_message == s.tag_final)) [
    | inl same ↦ absurd (laws.tags_differ ((==_iff _ _).0 same))
    | inr differ ↦ differ
  ]

  pub send-Delivers :
      (chunks : List Bytes) (last : Bytes) (e : Encryptor s) (d : Decryptor s)
      → e.finalized ≡ false
      → d.finalized ≡ false
      → laws.Paired e.state d.state
      → All (λ m. length m ≤ s.crypto_secretstream_messagebytes_max) chunks
      → length last ≤ s.crypto_secretstream_messagebytes_max
      → Delivers s e d chunks last
  unfolding send receive update finalize
  send-Delivers [] last e d open_e open_d paired fits fits_last =
      let (r, pushed) = laws.push_total e.state last s.tag_final fits_last in
      let (t, _, pulled) = pull-push e d last s.tag_final r.0 r.1 open_d paired pushed in
      let final = eq→== s.tag_final s.tag_final refl in
      (r.0 ∷ [], simp (open_e, pushed), simp (open_e, pushed), simp pulled, simp (pulled, final))
  send-Delivers (m ∷ chunks) last e d open_e open_d paired fits fits_last =
      let (r, pushed) = laws.push_total e.state m s.tag_message fits.0 in
      let (t, paired', pulled) = pull-push e d m s.tag_message r.0 r.1 open_d paired pushed in
      let e' : Encryptor s = record { header = e.header; state = r.1; finalized = false } in
      let d' : Decryptor s = record { state = t; finalized = s.tag_message == s.tag_final } in
      let (cs, sent, sealed, received, done) =
        send-Delivers chunks last e' d' refl message-ne-final paired' fits.1 fits_last in
      (
        r.0 ∷ cs,
        simp (open_e, pushed) (rw sent),
        simp (open_e, pushed) sealed,
        simp (pulled, received),
        simp (pulled, done),
      )

  -- Both ends are made from one key of 32 bytes, and their states belong together.
  pub session_opens :
      (env : Environment) (key : Base byte_type)
      → size key ≡ 32
      → (e : Encryptor s) × (d : Decryptor s) × (new_encryptor s env key ≡ ok e)
        × (new_decryptor s key e.header ≡ ok d)
        × (e.finalized ≡ false)
        × (d.finalized ≡ false)
        × laws.Paired e.state d.state
  unfolding new_encryptor new_decryptor
  session_opens env key sized =
      let keyed : length key.vec ≡ 32 = sym (size-bytes key) ∙ sized in
      let (st, h) = s.init_push key.vec env.randombytes_buf in
      let (t, started, paired) = laws.init_pull-init_push key.vec env.randombytes_buf in
      let k_read = read_at_whole 32 key.vec keyed in
      let h_read = read_at_whole 24 h (laws.length-header key.vec env.randombytes_buf) in
      (
        record { header = record { vec = h }; state = st; finalized = false },
        record { state = t; finalized = false },
        rw (eq→== _ _ sized, k_read),
        rw (eq→== _ _ sized, h_read, k_read, started),
        refl,
        refl,
        paired,
      )

  -- For a key of 32 bytes and chunks within libsodium's limit, a session runs to its end: the
  -- encryptor is made and seals every chunk, and a decryptor made with the key and the encryptor's
  -- header gets, from the sealed chunks in their order, the chunks with the message tag and the
  -- last with the final tag. Neither end starts finalized, and both are finalized after the last
  -- chunk.
  pub session-Delivers :
      (env : Environment) (key : Base byte_type) (chunks : List Bytes) (last : Bytes)
      → size key ≡ 32
      → All (λ m. length m ≤ s.crypto_secretstream_messagebytes_max) chunks
      → length last ≤ s.crypto_secretstream_messagebytes_max
      → (e : Encryptor s) × (new_encryptor s env key ≡ ok e)
        × (d : Decryptor s) × (new_decryptor s key e.header ≡ ok d)
        × (e.finalized ≡ false)
        × (d.finalized ≡ false)
        × Delivers s e d chunks last
  session-Delivers env key chunks last sized fits fits_last =
      let (e, d, made_e, made_d, open_e, open_d, paired) = session_opens env key sized in
      (
        e,
        made_e,
        d,
        made_d,
        open_e,
        open_d,
        send-Delivers chunks last e d open_e open_d paired fits fits_last,
      )

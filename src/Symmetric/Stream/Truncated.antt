-- ===== src/Symmetric/Stream/Truncated.antt =====
-- symmetric/stream.hpp: a session that is cut off is seen to be.
use sylvite.Common.{
  ◌≤◌, ◌≡◌, refl, ap, ◌∙◌, false, List, [], ◌∷◌, ◌++◌, All, Bytes, length, take, ok, ◌==◌, map,
}
use sylvite.Sodium.Environment.{Environment}
use sylvite.Sodium.Secretstream.{Secretstream, SecretstreamLaws}
use sylvite.Internal.Base.{Base, byte_type, size}
use sylvite.Symmetric.Stream.{
  PullResult, Encryptor, Decryptor, new_encryptor, update, new_decryptor, pull,
}
use sylvite.Symmetric.Stream.Session.{
  send, receive, tagged, pull-push, message-ne-final, send-Delivers, session_opens,
}

module _ (s : Secretstream) where
  -- The receiver of the first sealed chunks alone gets their plaintexts, and is not finalized.
  abbrev pub Withholds : Encryptor s → Decryptor s → List Bytes → List Bytes → Bytes → Type 0
  Withholds e d front behind last =
      (cs : List Bytes) × ((send s e (front ++ behind) last).1 ≡ ok cs)
      × ((receive s d (take (length front) cs)).1 ≡ ok (map (tagged s s.tag_message) front))
      × ((receive s d (take (length front) cs)).0.finalized ≡ false)

  receive-pull :
      (d d' : Decryptor s) (chunk : Bytes) (r : PullResult) (chunks : List Bytes)
      → pull s d chunk ≡ (d', ok r)
      → (receive s d (chunk ∷ chunks)).0 ≡ (receive s d' chunks).0
  unfolding receive
  receive-pull d d' chunk r chunks e = rw e

module _ {s : Secretstream} (laws : SecretstreamLaws s) where
  send-Withholds :
      (front behind : List Bytes) (last : Bytes) (e : Encryptor s) (d : Decryptor s)
      → e.finalized ≡ false
      → d.finalized ≡ false
      → laws.Paired e.state d.state
      → All (λ m. length m ≤ s.crypto_secretstream_messagebytes_max) (front ++ behind)
      → length last ≤ s.crypto_secretstream_messagebytes_max
      → Withholds s e d front behind last
  unfolding send receive update
  send-Withholds [] behind last e d open_e open_d paired fits fits_last =
      let (cs, sent, _, _, _) =
        send-Delivers laws behind last e d open_e open_d paired fits fits_last in
      (cs, sent, refl, open_d)
  send-Withholds (m ∷ front) behind last e d open_e open_d paired fits fits_last =
      let (r, pushed) = laws.push_total e.state m s.tag_message fits.0 in
      let (t, paired', pulled) = pull-push laws e d m s.tag_message r.0 r.1 open_d paired pushed in
      let e' : Encryptor s = record { header = e.header; state = r.1; finalized = false } in
      let d' : Decryptor s = record { state = t; finalized = s.tag_message == s.tag_final } in
      let (cs, sent, received, cut) =
        send-Withholds front behind last e' d' refl (message-ne-final laws) paired' fits.1
          fits_last in
      let after =
        receive-pull s d d' r.0 (tagged s s.tag_message m) (take (length front) cs) pulled in
      (
        r.0 ∷ cs,
        simp (open_e, pushed) (rw sent),
        simp (pulled, received),
        ap (λ (x : Decryptor s). x.finalized) after ∙ cut,
      )

  -- For a key of 32 bytes and chunks within libsodium's limit, a session seals every chunk; a decryptor
  -- made with the encryptor's header that is given only the first sealed chunks, all before the last,
  -- returns their plaintexts with the message tag and is not finalized.
  pub session-Withholds :
      (env : Environment) (key : Base byte_type) (front behind : List Bytes) (last : Bytes)
      → size key ≡ 32
      → All (λ m. length m ≤ s.crypto_secretstream_messagebytes_max) (front ++ behind)
      → length last ≤ s.crypto_secretstream_messagebytes_max
      → (e : Encryptor s) × (d : Decryptor s) × (new_encryptor s env key ≡ ok e)
        × (new_decryptor s key e.header ≡ ok d)
        × Withholds s e d front behind last
  session-Withholds env key front behind last sized fits fits_last =
      let (e, d, made_e, made_d, open_e, open_d, paired) = session_opens laws env key sized in
      (
        e,
        d,
        made_e,
        made_d,
        send-Withholds front behind last e d open_e open_d paired fits fits_last,
      )

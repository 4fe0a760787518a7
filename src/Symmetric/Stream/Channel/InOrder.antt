-- ===== src/Symmetric/Stream/Channel/InOrder.antt =====
-- symmetric/stream.hpp: what both ends of a stream promise each other, however they take turns.
use sylvite.Common.{
  ==_iff, ◌≡◌, ◌⊎◌, refl, sym, ap, ◌∙◌, false, List, [], ◌++◌, ok, throw, ◌==◌, Bool-cases, inl,
  inr, append-nil, logic_error, subst,
}
use sylvite.Sodium.Environment.{Environment}
use sylvite.Sodium.Secretstream.{Secretstream, SecretstreamLaws}
use sylvite.Internal.Base.{Base, byte_type, size}
use sylvite.Symmetric.Stream.{PullResult, new_encryptor}
use sylvite.Symmetric.Stream.Session.{receive, session_opens}
use sylvite.Symmetric.Stream.Channel.{Link, Reach, connect, ends}
use sylvite.Symmetric.Stream.Channel.Pending.{Pending, Pending-receive, Pending-finalized}
use sylvite.Symmetric.Stream.Channel.Sound.{Sound, Reach-Sound}

module _ (s : Secretstream) where
  -- What holds of a link after any steps.
  abbrev pub InOrder : Link s → Type 0
  InOrder t =
      (pending : List PullResult) × (t.sent ≡ t.received ++ pending)
      × ((receive s t.receiver t.channel).1 ≡ ok pending)
      × ((receive s t.receiver t.channel).0.finalized ≡ t.sender.finalized)
      × (t.sender.finalized ≡ ends s t.sent)
      × (t.receiver.finalized ≡ ends s t.received)
      × ((t.receiver.finalized ≡ false) ⊎ ((t.channel ≡ []) × (t.received ≡ t.sent)))

module _ {s : Secretstream} (laws : SecretstreamLaws s) where
  Sound-InOrder : (t : Link s) → Sound laws t → InOrder s t
  Sound-InOrder t (pending, together, held, said, heard) =
      let (got, level) = Pending-receive laws t.channel pending t.receiver t.sender held in
      (
        pending,
        together,
        got,
        level,
        said,
        heard,
        elim (Pending-finalized laws t.channel pending t.receiver t.sender held) [
          | inl open_d ↦ inl open_d
          | inr (gone, none_left) ↦ inr (
            gone,
            sym (append-nil t.received) ∙ ap (λ l. t.received ++ l) (sym none_left) ∙ sym together,
          )
        ],
      )

  connect-short :
      (env : Environment) (key : Base byte_type) (t : Link s)
      → (size key == 32) ≡ false
      → connect s env key ≡ ok t
      → ⊥
  unfolding connect new_encryptor
  connect-short env key t short made =
      let shut : connect s env key ≡ throw logic_error = simp short in
      let both : throw logic_error ≡ ok t = sym shut ∙ made in cc

  connect-Sound :
      (env : Environment) (key : Base byte_type) (t : Link s)
      → connect s env key ≡ ok t
      → Sound laws t
  unfolding connect Pending ends
  connect-Sound env key t made = elim (Bool-cases (size key == 32)) [
    | inl sized ↦
        let (e, d, made_e, made_d, open_e, open_d, paired) =
          session_opens laws env key ((==_iff _ _).0 sized) in
        let first : Link s = record {
          sender = e;
          channel = [];
          receiver = d;
          sent = [];
          received = [];
        } in
        let same : first ≡ t =
          let joined : connect s env key ≡ ok first = rw (made_e, made_d) refl in
          let both : ok first ≡ ok t = sym joined ∙ made in cc in
        subst (Sound laws) same ([], refl, (open_d ∙ sym open_e, paired), open_e, open_d)
    | inr short ↦ absurd (connect-short env key t short made)
  ]

  -- After a connection is made, this holds after any calls of `update`, `finalize` and `pull` on the
  -- two ends, however they take turns, with empty and oversized plaintexts and calls after the end
  -- among them, where the chunks made are pulled in their order and every other chunk that `pull`
  -- is given is one that libsodium rejects. What was sealed is what `pull` returned, then what it will
  -- return for the chunks that are still on their way: each of them will be pulled, and the
  -- decryptor is then finalized exactly if the encryptor is. Each end is finalized exactly when a
  -- plaintext with the final tag was sealed or returned, and a finalized decryptor has returned all
  -- that was sealed.
  pub reached-InOrder :
      (env : Environment) (key : Base byte_type) (t u : Link s)
      → connect s env key ≡ ok t
      → Reach s t u
      → InOrder s u
  reached-InOrder env key t u made r =
      Sound-InOrder u (Reach-Sound laws t u r (connect-Sound env key t made))

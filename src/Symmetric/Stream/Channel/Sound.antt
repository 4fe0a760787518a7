-- ===== src/Symmetric/Stream/Channel/Sound.antt =====
-- symmetric/stream.hpp: every call of either end keeps both ends of a stream together.
use sylvite.Common.{
  ℕ, ◌≡◌, ◌⊎◌, sym, ap, ◌∙◌, false, List, [], ◌∷◌, ◌++◌, Bytes, length, none, some, Outcome, ok,
  throw, ◌==◌, Bool-cases, Option-cases, inl, inr, append_assoc, ltb, invalid_signature,
  logic_error, runtime_error, Exception, ==_refl,
}
use sylvite.Sodium.Secretstream.{Secretstream, SecretstreamLaws}
use sylvite.Internal.Base.{Base, byte_type}
use sylvite.Symmetric.Stream.{PullResult, Encryptor, Decryptor, update, finalize, pull}
use sylvite.Symmetric.Stream.Session.{tagged, message-ne-final}
use sylvite.Symmetric.Stream.Channel.{
  Link, sealed_by, pulled_by, Step, updates, finalizes, delivers, injects, Reach, start, next, ends,
  ends-append,
}
use sylvite.Symmetric.Stream.Channel.Pending.{Pending, Pending-push, Pending-cons, pull-finalized}

module _ {s : Secretstream} (laws : SecretstreamLaws s) where
  -- A call of `update` or `finalize` throws and changes nothing, or it pushes.
  abbrev Seals : Encryptor s → Bytes → ℕ → Encryptor s × Outcome (Base byte_type) → Type 0
  Seals e m tag outcome =
      ((x : Exception) × (outcome ≡ (e, throw x)))
      ⊎ ((c : Bytes) × (st : s.State) × (e.finalized ≡ false)
          × (s.push e.state m tag ≡ some (c, st))
          × (outcome ≡ (
            record { header = e.header; state = st; finalized = tag == s.tag_final },
            ok (record { vec = c }),
          )))

  update-Seals : (e : Encryptor s) (m : Bytes) → Seals e m s.tag_message (update s e m)
  unfolding update
  update-Seals e m = elim (Bool-cases e.finalized) [
    | inl closed ↦ inl (logic_error, simp closed)
    | inr open_e ↦ elim (Option-cases (s.push e.state m s.tag_message)) [
      | inl failed ↦ inl (runtime_error, simp (open_e, failed))
      | inr ((c, st), pushed) ↦
          inr (c, st, open_e, pushed, simp (open_e, pushed, message-ne-final laws))
    ]
  ]

  finalize-Seals : (e : Encryptor s) (m : Bytes) → Seals e m s.tag_final (finalize s e m)
  unfolding finalize
  finalize-Seals e m = elim (Bool-cases e.finalized) [
    | inl closed ↦ inl (logic_error, simp closed)
    | inr open_e ↦ elim (Option-cases (s.push e.state m s.tag_final)) [
      | inl failed ↦ inl (runtime_error, simp (open_e, failed))
      | inr ((c, st), pushed) ↦
          inr (c, st, open_e, pushed, simp (open_e, pushed, ==_refl s.tag_final))
    ]
  ]

  pull-rejected :
      (d : Decryptor s) (chunk : Bytes)
      → s.pull d.state chunk ≡ none
      → (x : Exception) × (pull s d chunk ≡ (d, throw x))
  unfolding pull
  pull-rejected d chunk failed = elim (Bool-cases d.finalized) [
    | inl closed ↦ (logic_error, simp closed)
    | inr open_d ↦ elim (Bool-cases (ltb (length chunk) 17)) [
      | inl short ↦ (logic_error, simp (open_d, short))
      | inr long ↦ (invalid_signature, simp (open_d, long, failed))
    ]
  ]

  -- What was sent is what was received and what the chunks on their way hold; the flags tell of the
  -- final tag.
  abbrev pub Sound : Link s → Type 0
  Sound t =
      (pending : List PullResult) × (t.sent ≡ t.received ++ pending)
      × Pending laws t.receiver t.channel pending t.sender
      × (t.sender.finalized ≡ ends s t.sent)
      × (t.receiver.finalized ≡ ends s t.received)

  seal-Sound :
      (t : Link s) (m : Bytes) (tag : ℕ) (c : Bytes) (st : s.State)
      → t.sender.finalized ≡ false
      → s.push t.sender.state m tag ≡ some (c, st)
      → Sound t
      → Sound (record t {
        sender = record { header = t.sender.header; state = st; finalized = tag == s.tag_final };
        channel = t.channel ++ c ∷ [];
        sent = t.sent ++ tagged s tag m ∷ [];
      })
  seal-Sound t m tag c st open_e pushed (pending, together, held, said, heard) = (
    pending ++ tagged s tag m ∷ [],
    ap (λ l. l ++ tagged s tag m ∷ []) together
        ∙ append_assoc t.received pending (tagged s tag m ∷ []),
    Pending-push laws t.channel pending t.receiver t.sender m tag c st open_e pushed held,
    (simp (ends-append, ← said, open_e)),
    heard,
  )

  sealed_by-Sound :
      (t : Link s) (m : Bytes) (tag : ℕ) (outcome : Encryptor s × Outcome (Base byte_type))
      → Seals t.sender m tag outcome
      → Sound t
      → Sound (sealed_by s outcome (tagged s tag m) t)
  unfolding sealed_by
  sealed_by-Sound t m tag outcome (inl (x, thrown)) sound = rw thrown sound
  sealed_by-Sound t m tag outcome (inr (c, st, open_e, pushed, done)) sound =
      rw done (seal-Sound t m tag c st open_e pushed sound)

  delivers-Sound :
      (t : Link s) (chunk : Bytes) (rest : List Bytes)
      → t.channel ≡ chunk ∷ rest
      → Sound t
      → Sound (pulled_by s (pull s t.receiver chunk) (record t { channel = rest }))
  unfolding pulled_by
  delivers-Sound t chunk rest e (pending, together, held, said, heard) =
      let (r, rs, d', front, pulled, held') =
        Pending-cons laws t.channel pending t.receiver t.sender chunk rest e held in
      let (open_d, last) = pull-finalized laws t.receiver chunk d' r pulled in
      rw pulled (
        rs,
        together ∙ ap (λ l. t.received ++ l) front ∙ sym (append_assoc t.received (r ∷ []) rs),
        held',
        said,
        last ∙ simp (ends-append, ← heard, open_d),
      )

  injects-Sound :
      (t : Link s) (chunk : Bytes)
      → s.pull t.receiver.state chunk ≡ none
      → Sound t
      → Sound (pulled_by s (pull s t.receiver chunk) t)
  unfolding pulled_by
  injects-Sound t chunk failed sound =
      let (x, thrown) = pull-rejected t.receiver chunk failed in rw thrown sound

  Step-Sound : (t u : Link s) → Step s t u → Sound t → Sound u
  Step-Sound t u (updates m) sound =
      sealed_by-Sound t m s.tag_message (update s t.sender m) (update-Seals t.sender m) sound
  Step-Sound t u (finalizes m) sound =
      sealed_by-Sound t m s.tag_final (finalize s t.sender m) (finalize-Seals t.sender m) sound
  Step-Sound t u (delivers chunk rest e) sound = delivers-Sound t chunk rest e sound
  Step-Sound t u (injects chunk failed) sound = injects-Sound t chunk failed sound

  pub Reach-Sound : (t u : Link s) → Reach s t u → Sound t → Sound u
  Reach-Sound t u start sound = sound
  Reach-Sound t u (next {u = v} r step) sound = Step-Sound v u step (Reach-Sound t v r sound)

-- ===== src/Tss/Sessions/Signing.antt =====
-- pallets/tss/src/lib.rs: the call that opens a signing session.
use uomi_node.Prelude.{
  ℕ, ◌+◌, ◌<◌, ◌^◌, none, some, ◌≡◌, ◌≢◌, refl, subst, inl, inr, List, [], ◌∷◌, ◌++◌, arith, ok,
  err, ◌==◌, Bool-cases, Option-cases,
}
use uomi_node.Prelude.Key.{nat_key, bytes_key, bytes_beq_iff, ◌=?◌}
use uomi_node.Prelude.Lists.{Distinct}
use uomi_node.Prelude.Map.{Map, lookup, put, keys, lookup-put, contains-keys}
use uomi_node.Tss.{
  SessionId, NftId, Storage, signed, DkgSession, SigningSession, signing_in_progress,
  signing_session_created, whitelisted, dkg_session_not_found, get_next_session_id,
  find_dkg_session, create_signing_session,
}
use uomi_node.Tss.Sessions.{IsNumbered, IsOpened}

find_dkg_session_sound :
    (nft_id : NftId) (m : Map SessionId DkgSession) (id : SessionId)
    → Distinct (keys m)
    → find_dkg_session nft_id m ≡ some id
    → (d : DkgSession) × (lookup id m ≡ some d) × (d.nft_id ≡ nft_id)
unfolding find_dkg_session lookup
find_dkg_session_sound nft_id [] id distinct h = cc
find_dkg_session_sound nft_id ((j, d) ∷ m) id distinct h = elim (Bool-cases (d.nft_id =? nft_id)) [
  | inl same ↦ (d, ground (arith), (bytes_beq_iff d.nft_id nft_id).0 same)
  | inr other ↦
      let (d', there, same) = find_dkg_session_sound nft_id m id distinct.1 (ground (arith)) in
      (d', ground (arith, contains-keys m j, distinct.0), same)
]

find_dkg_session_complete :
    (nft_id : NftId) (m : Map SessionId DkgSession) (id : SessionId) (d : DkgSession)
    → lookup id m ≡ some d
    → d.nft_id ≡ nft_id
    → (id' : SessionId) × (find_dkg_session nft_id m ≡ some id')
unfolding find_dkg_session lookup
find_dkg_session_complete nft_id [] id d there same = cc
find_dkg_session_complete nft_id ((j, d') ∷ m) id d there same =
    elim (Bool-cases (d'.nft_id =? nft_id)) [
      | inl first ↦ (j, ground (arith))
      | inr other ↦
          let later : lookup id m ≡ some d = ground (arith, bytes_beq_iff d'.nft_id nft_id) in
          let (id', h) = find_dkg_session_complete nft_id m id d later same in (id', ground (arith))
    ]

-- The session that `create_signing_session` stores.
abbrev new_signing_session : SessionId → NftId → List ℕ → SigningSession
new_signing_session dkg_session_id nft_id message = record {
  dkg_session_id = dkg_session_id;
  nft_id = nft_id;
  message = message;
  state = signing_in_progress;
  aggregated_sig = none;
}

-- The storage with one more signing session.
with_signing_session :
    (s : Storage) (session : SigningSession) (d : DkgSession)
    → IsNumbered s
    → lookup session.dkg_session_id s.dkg_sessions ≡ some d
    → d.nft_id ≡ session.nft_id
    → IsNumbered (record s {
      signing_sessions = put s.next_session_id session s.signing_sessions;
      next_session_id = s.next_session_id + 1;
      events = s.events ++ signing_session_created s.next_session_id session.dkg_session_id ∷ [];
    })
with_signing_session s session d n there same = record {
  distinct = n.distinct;
  dkg_below = λ id h. ground (arith, n.dkg_below id);
  signing_below = λ id h.
      ground
        (arith, lookup-put s.next_session_id id session s.signing_sessions, n.signing_below id);
  apart = λ id h. ground (
    arith,
    lookup-put s.next_session_id id session s.signing_sessions,
    n.apart id,
    n.dkg_below id,
  );
  linked = λ id session' h. elim (Bool-cases (s.next_session_id == id)) [
    | inl new ↦
        let it : session ≡ session' =
          ground (arith, lookup-put s.next_session_id id session s.signing_sessions) in
        subst
          (λ x.
            (d' : DkgSession) × (lookup x.dkg_session_id s.dkg_sessions ≡ some d')
            × (d'.nft_id ≡ x.nft_id))
          it (d, there, same)
    | inr old ↦
        n.linked id session'
          (ground (arith, lookup-put s.next_session_id id session s.signing_sessions))
  ];
}

-- The whitelisted account opens a signing session for any NFT that has a DKG session, whatever the
-- state of that session, as long as the counter has room: it is stored under a new id with a DKG
-- session for the same NFT, the sessions there were stay, and so do the properties of their ids.
pub create_signing_session-IsOpened :
    (nft_id : NftId) (message : List ℕ) (s : Storage) (id : SessionId) (d : DkgSession)
    → IsNumbered s
    → s.next_session_id + 1 < 2 ^ 64
    → lookup id s.dkg_sessions ≡ some d
    → d.nft_id ≡ nft_id
    → (s' : Storage) × (dkg_id : SessionId) × (create_signing_session
          (signed whitelisted)
          nft_id
          message
          s
        ≡ ok s')
      × (lookup s.next_session_id s.signing_sessions ≡ none)
      × (lookup s.next_session_id s'.signing_sessions
          ≡ some (new_signing_session dkg_id nft_id message))
      × IsOpened s s'
create_signing_session-IsOpened nft_id message s id d n room there same =
    let (dkg_id, h) = find_dkg_session_complete nft_id s.dkg_sessions id d there same in
    let (d', there', same') = find_dkg_session_sound nft_id s.dkg_sessions dkg_id n.distinct h in
    let session = new_signing_session dkg_id nft_id message in
    (
      record s {
        signing_sessions = put s.next_session_id session s.signing_sessions;
        next_session_id = s.next_session_id + 1;
        events = s.events ++ signing_session_created s.next_session_id dkg_id ∷ [];
      },
      dkg_id,
      (unfold create_signing_session in
          unfold get_next_session_id in rw h (rw there' (ground (arith)))),
      ground (arith, n.signing_below s.next_session_id),
      ground (arith, lookup-put s.next_session_id s.next_session_id session s.signing_sessions),
      record {
        numbered = with_signing_session s session d' n there' same';
        next = refl;
        dkg_kept = λ id d' h. h;
        signing_kept = λ id other h.
            ground (
              arith,
              lookup-put s.next_session_id id session s.signing_sessions,
              n.signing_below id,
            );
      },
    )

-- Where the NFT has no DKG session, the whitelisted account is refused.
create_signing_session-missing :
    (nft_id : NftId) (message : List ℕ) (s : Storage)
    → IsNumbered s
    → ((id : SessionId) (d : DkgSession) → lookup id s.dkg_sessions ≡ some d → d.nft_id ≢ nft_id)
    → create_signing_session (signed whitelisted) nft_id message s ≡ err dkg_session_not_found
create_signing_session-missing nft_id message s n no_session =
    elim (Option-cases (find_dkg_session nft_id s.dkg_sessions)) [
      | inl nothing ↦ unfold create_signing_session in rw nothing refl
      | inr (id, h) ↦
          let (d, there, same) = find_dkg_session_sound nft_id s.dkg_sessions id n.distinct h in
          absurd (no_session id d there same)
    ]

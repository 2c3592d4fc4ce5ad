-- ===== src/Tss/Sessions.antt =====
-- pallets/tss/src/lib.rs: what holds of the sessions, and the call that opens a DKG session.
pub mod Signing
use uomi_node.Prelude.{
  ℕ, ◌+◌, ◌%◌, ◌<◌, ◌≤◌, ◌^◌, Bool, Option, none, some, ◌≡◌, ◌≢◌, refl, inl, inr, true, false, List,
  [], ◌∷◌, ◌++◌, arith, Outcome, ok, err, leb, ltb, ◌==◌, ==_iff, Bool-cases, Option-cases,
  if◌then◌else◌,
}
use uomi_node.Prelude.Key.{nat_key, bytes_key, bytes_beq_iff, ◌=?◌}
use uomi_node.Prelude.Lists.{length, contains, Distinct}
use uomi_node.Prelude.Map.{
  Map, lookup, put, contains_key, is_some, keys, lookup-put, contains-keys, keys-put-Distinct,
}
use uomi_node.Tss.{
  AccountId, SessionId, NftId, Storage, Origin, signed, root, unsigned, DkgSession, SigningSession,
  dkg_created, dkg_session_created, signing_session_created, signing_in_progress,
  max_number_of_shares, whitelisted, dkg_session_not_found, get_next_session_id, create_dkg_session,
  find_dkg_session, create_signing_session,
}

-- The ids of sessions are below the next one, no id is one of both kinds, and each signing session is
-- for a DKG session for its NFT.
pub record IsNumbered (s : Storage) : Type 0 where
  pub distinct : Distinct (keys s.dkg_sessions)
  pub dkg_below : (id : SessionId) → contains_key s.dkg_sessions id ≡ true → id < s.next_session_id
  pub signing_below :
      (id : SessionId) → contains_key s.signing_sessions id ≡ true → id < s.next_session_id
  pub apart :
      (id : SessionId)
      → contains_key s.dkg_sessions id ≡ true
      → contains_key s.signing_sessions id ≡ false
  pub linked :
      (id : SessionId) (session : SigningSession)
      → lookup id s.signing_sessions ≡ some session
      → (d : DkgSession) × (lookup session.dkg_session_id s.dkg_sessions ≡ some d)
        × (d.nft_id ≡ session.nft_id)

-- All sessions but the one with the id `new` are as before.
pub record IsOpened (s s' : Storage) : Type 0 where
  pub numbered : IsNumbered s'
  pub next : s'.next_session_id ≡ s.next_session_id + 1
  pub dkg_kept :
      (id : SessionId) (d : DkgSession)
      → lookup id s.dkg_sessions ≡ some d
      → lookup id s'.dkg_sessions ≡ some d
  pub signing_kept :
      (id : SessionId) (session : SigningSession)
      → lookup id s.signing_sessions ≡ some session
      → lookup id s'.signing_sessions ≡ some session

-- The session that `create_dkg_session` stores.
abbrev new_dkg_session : List AccountId → NftId → ℕ → DkgSession
new_dkg_session validators nft_id threshold = record {
  participants = validators;
  nft_id = nft_id;
  threshold = threshold;
  state = dkg_created;
  old_participants = none;
}

-- The storage with one more DKG session.
with_dkg_session :
    (s : Storage) (d : DkgSession)
    → IsNumbered s
    → IsNumbered (record s {
      dkg_sessions = put s.next_session_id d s.dkg_sessions;
      next_session_id = s.next_session_id + 1;
    })
with_dkg_session s d n = record {
  distinct = keys-put-Distinct s.next_session_id d s.dkg_sessions n.distinct;
  dkg_below =
      λ id h. ground (arith, lookup-put s.next_session_id id d s.dkg_sessions, n.dkg_below id);
  signing_below = λ id h. ground (arith, n.signing_below id);
  apart = λ id h.
      ground
        (arith, lookup-put s.next_session_id id d s.dkg_sessions, n.apart id, n.signing_below id);
  linked = λ id session h.
      let (d', there, same) = n.linked id session h in
      (
        d',
        ground (
          arith,
          lookup-put s.next_session_id session.dkg_session_id d s.dkg_sessions,
          n.dkg_below session.dkg_session_id,
        ),
        same,
      );
}

-- The whitelisted account opens a DKG session with any threshold from 50 to 100 and up to 65536
-- participants, as long as the counter has room: the session is stored under a new id, the sessions
-- there were stay, and so do the properties of their ids.
pub create_dkg_session-IsOpened :
    (validators : List AccountId) (nft_id : NftId) (threshold : ℕ) (s : Storage)
    → IsNumbered s
    → s.next_session_id + 1 < 2 ^ 64
    → 50 ≤ threshold
    → threshold ≤ 100
    → length validators ≤ max_number_of_shares
    → (s' : Storage) × (create_dkg_session validators (signed whitelisted) nft_id threshold s
        ≡ ok s')
      × (lookup s.next_session_id s.dkg_sessions ≡ none)
      × (lookup s.next_session_id s'.dkg_sessions
          ≡ some (new_dkg_session validators nft_id threshold))
      × IsOpened s s'
create_dkg_session-IsOpened validators nft_id threshold s n room low high few =
    let d = new_dkg_session validators nft_id threshold in
    let t = with_dkg_session s d n in
    (
      record s {
        dkg_sessions = put s.next_session_id d s.dkg_sessions;
        next_session_id = s.next_session_id + 1;
        events = s.events ++ dkg_session_created s.next_session_id ∷ [];
      },
      (unfold create_dkg_session in unfold get_next_session_id in ground (arith)),
      ground (arith, n.dkg_below s.next_session_id),
      ground (arith, lookup-put s.next_session_id s.next_session_id d s.dkg_sessions),
      record {
        numbered = record {
          distinct = t.distinct;
          dkg_below = t.dkg_below;
          signing_below = t.signing_below;
          apart = t.apart;
          linked = t.linked;
        };
        next = refl;
        dkg_kept = λ id d' h.
            ground (arith, lookup-put s.next_session_id id d s.dkg_sessions, n.dkg_below id);
        signing_kept = λ id session h. h;
      },
    )

-- Nobody else opens one, and none is opened with another threshold or more participants.
pub create_dkg_session-refused :
    (validators : List AccountId) (origin : Origin) (nft_id : NftId) (threshold : ℕ)
    (s s' : Storage)
    → create_dkg_session validators origin nft_id threshold s ≡ ok s'
    → (origin ≡ signed whitelisted)
      × (50 ≤ threshold)
      × (threshold ≤ 100)
      × (length validators ≤ max_number_of_shares)
unfolding create_dkg_session
create_dkg_session-refused validators (signed who) nft_id threshold s s' h =
    ground (arith, ==_iff whitelisted who)
create_dkg_session-refused validators root nft_id threshold s s' h = cc
create_dkg_session-refused validators unsigned nft_id threshold s s' h = cc

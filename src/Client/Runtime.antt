-- ===== src/Client/Runtime.antt =====
-- client/tss/src/lib.rs, `RuntimeEventHandler`: what the events of pallet_tss become for the session
-- manager.
pub mod Started
use uomi_node.Prelude.{ℕ, ◌-◌, ◌*◌, ◌/◌, ◌^◌, Option, none, some, List, [], ◌∷◌, ◌++◌, min, map}
use uomi_node.Client.{Bytes, SessionId, TssPublic}
use uomi_node.Tss.{AccountId, Storage}
use uomi_node.Tss.Api.{
  get_dkg_session_threshold, get_dkg_session_participants_count, get_dkg_session_participants,
  get_signing_session_message,
}

-- `(t as f64 * n as f64 / 100.0) as u16`: the product of a number of 32 bits and one of 16 bits is exact,
-- its quotient by 100 is cut to the number below it, and a number that does not fit becomes the last one.
abbrev pub to_threshold : ℕ → ℕ → ℕ
to_threshold t n = min (t * n / 100) (2 ^ 16 - 1)

-- `DKGSessionInfoReady` and `SigningSessionInfoReady`
pub record SessionInfo : Type 0 where
  pub id : SessionId
  pub t : ℕ
  pub n : ℕ
  pub participants : List TssPublic
  pub coordinator : TssPublic
  pub message : Bytes

abbrev pub concat : List Bytes → Bytes
concat [] = []
concat (part ∷ rest) = part ++ concat rest

-- The key of an account is its 32 bytes, which `key_of` gives; a key generation has no coordinator, which
-- is 32 bytes of 0, and no message.
module _ (key_of : AccountId → TssPublic) (no_coordinator : TssPublic) where
  unfoldable pub dkg_session_info : SessionId → Storage → Option SessionInfo
  dkg_session_info id s = elim (get_dkg_session_participants_count id s) [
    | none ↦ none
    | some n ↦ some record {
      id = id;
      t = to_threshold (get_dkg_session_threshold id s) n;
      n = n;
      participants = map key_of (get_dkg_session_participants id s);
      coordinator = no_coordinator;
      message = [];
    }
  ]

  -- The coordinator is the first participant; where there is none, the index panics. The session is that
  -- of the key generation.
  abbrev pub coordinated : SessionInfo → List TssPublic → Option SessionInfo
  coordinated info [] = none
  coordinated info (first ∷ rest) = some (record info { coordinator = first })

  unfoldable pub signing_session_info : SessionId → SessionId → Storage → Option SessionInfo
  signing_session_info signing_session_id dkg_session_id s =
      elim (get_dkg_session_participants_count dkg_session_id s) [
        | none ↦ none
        | some n ↦
            let participants = map key_of (get_dkg_session_participants dkg_session_id s) in
            coordinated
              record {
                id = dkg_session_id;
                t = to_threshold (get_dkg_session_threshold dkg_session_id s) n;
                n = n;
                participants = participants;
                coordinator = [];
                message = concat (get_signing_session_message dkg_session_id s);
              }
              participants
      ]

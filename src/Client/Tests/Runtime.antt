-- ===== src/Client/Tests/Runtime.antt =====
-- client/tss: a key generation of three validators, two thirds of which are to sign.
use uomi_node.Prelude.{ℕ, none, List, [], ◌∷◌}
use uomi_node.Prelude.Key.{nat_key}
use uomi_node.Tss

abbrev key_of : ℕ → List ℕ
key_of account = account ∷ []

abbrev session : Tss.DkgSession
session = record {
  participants = 1 ∷ 2 ∷ 3 ∷ [];
  nft_id = [];
  threshold = 66;
  state = Tss.dkg_created;
  old_participants = none;
}

abbrev opened : Tss.Storage
opened = record {
  dkg_sessions = (5, session) ∷ [];
  signing_sessions = [];
  active_validators = [];
  next_session_id = 6;
  validator_ids = [];
  id_to_validator = [];
  next_validator_id = 1;
  events = [];
}

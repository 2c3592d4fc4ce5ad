-- ===== src/Client/Signing/Shares/Sound.antt =====
-- What a signature of a signing session is made from.
use uomi_node.Prelude.{
  ℕ, Bool, true, false, not, Option, none, some, [], ◌≡◌, ◌≢◌, refl, ap, ◌∙◌, Outcome, ok, err,
  panic, leb, arith, if◌then◌else◌,
}
use uomi_node.Prelude.Key.{nat_key, pair_key, bytes_key}
use uomi_node.Prelude.Lists.{length, all}
use uomi_node.Prelude.Map.{Map, lookup, insert, values, or_default, lookup-put_same}
use uomi_node.Client.{
  Bytes, SessionId, TssPublic, PeerId, Identifier, SessionManagerError, signature_not_ready_yet,
  signature_generated, deserialization_error, FrostSigning, Manager, signing_round3_initiated,
}
use uomi_node.Client.Dkg.{fetch}
use uomi_node.Client.Peers.{
  get_validator_id, get_identifier_from_account_id, get_identifier_from_peer_id,
}
use uomi_node.Client.Sessions.{get_session_data}
use uomi_node.Client.Signing.{set_signing_state, store_signature_share}
use uomi_node.Client.Signing.Shares.{
  ShareReply, signed, refused, share_panicked, aggregated, aggregate_with, aggregate_under,
  aggregate_as, count_in, count_shares, share_of, signing_handle_signature_share,
}

fetch-some :
    (valid : Bytes → Bool) (session_id : SessionId) (m : Map SessionId (Map Identifier Bytes))
    (found : Map Identifier Bytes)
    → fetch valid session_id m ≡ some found
    → (all valid (values found) ≡ true) × (found ≡ or_default (lookup session_id m) [])
unfolding fetch
fetch-some valid session_id m found h = of (or_default (lookup session_id m) []) h
  where
    of :
        (all_found : Map Identifier Bytes)
        → ◌≡◌ {A = Option (Map Identifier Bytes)}
            (if all valid (values all_found) then some all_found else none)
            (some found)
        → (all valid (values found) ≡ true) × (found ≡ all_found)
    of all_found h = (ground (arith, h), ground (arith, h))

aggregated-signed :
    (session_id : SessionId) (o : Option Bytes) (signature : Bytes) (s s' : Manager)
    → aggregated session_id o s ≡ signed s' signature
    → (o ≡ some signature) × (s' ≡ set_signing_state session_id signature_generated s)
aggregated-signed session_id none signature s s' h = cc
aggregated-signed session_id (some a) signature s s' h = (cc, cc)

-- The branch that a signature comes from.
if_signed :
    (b : Bool) (r r' : ShareReply) (signature : Bytes) (s' : Manager)
    → r' ≢ signed s' signature
    → (if b then r else r') ≡ signed s' signature
    → (b ≡ true) × (r ≡ signed s' signature)
if_signed true r r' signature s' other h = (refl, h)
if_signed false r r' signature s' other h = absurd (other h)

if_not_signed :
    (b : Bool) (r r' : ShareReply) (signature : Bytes) (s' : Manager)
    → r ≢ signed s' signature
    → (if not b then r else r') ≡ signed s' signature
    → (b ≡ true) × (r' ≡ signed s' signature)
if_not_signed true r r' signature s' other h = (refl, h)
if_not_signed false r r' signature s' other h = absurd (other h)

module _ (frost : FrostSigning) (now : ℕ) (session_id : SessionId) where
  -- A session with enough shares, of which, and of the stored package, the library makes the signature.
  pub record IsAggregate (shares : Map Identifier Bytes) (signature : Bytes) (s s' : Manager)
      : Type 0 where
    pub t : ℕ
    pub n : ℕ
    pub coordinator : TssPublic
    pub message : Bytes
    pub package_bytes : Bytes
    pub pubkey : Bytes
    pub has_data : get_session_data now session_id s ≡ some (t, n, coordinator, message)
    pub enough : leb t (length shares) ≡ true
    pub stored : lookup session_id s.signing_packages ≡ some package_bytes
    pub made : frost.aggregate package_bytes shares pubkey ≡ some signature
    pub state : s' ≡ set_signing_state session_id signature_generated s

  module _ (shares : Map Identifier Bytes) (signature : Bytes) (s s' : Manager) where
    abbrev FromPackage : Type 0
    FromPackage =
        (package_bytes pubkey : Bytes) × (lookup session_id s.signing_packages ≡ some package_bytes)
        × (frost.aggregate package_bytes shares pubkey ≡ some signature)
        × (s' ≡ set_signing_state session_id signature_generated s)

    aggregate_with-signed :
        (pubkey : Bytes) (o : Option Bytes)
        → lookup session_id s.signing_packages ≡ o
        → aggregate_with frost session_id shares pubkey o s ≡ signed s' signature
        → FromPackage
    aggregate_with-signed pubkey none e h = cc
    aggregate_with-signed pubkey (some p) e h =
        let (is_package, from) =
          if_not_signed (frost.is_signing_package p) share_panicked _ signature s' (λ x. cc) h in
        let (made, state) = aggregated-signed session_id _ signature s s' from in
        (p, pubkey, e, made, state)

    aggregate_under-signed :
        (o : Outcome SessionManagerError Bytes)
        → aggregate_under frost session_id shares o s ≡ signed s' signature
        → FromPackage
    aggregate_under-signed panic h = cc
    aggregate_under-signed (err e) h = cc
    aggregate_under-signed (ok pubkey) h = aggregate_with-signed pubkey _ refl h

    aggregate_as-signed :
        (o : Outcome SessionManagerError (Option Identifier))
        → aggregate_as frost session_id shares o s ≡ signed s' signature
        → FromPackage
    aggregate_as-signed panic h = cc
    aggregate_as-signed (err e) h = cc
    aggregate_as-signed (ok none) h = cc
    aggregate_as-signed (ok (some identifier)) h = aggregate_under-signed _ h

    count_in-signed :
        (o : Option (ℕ × ℕ × TssPublic × Bytes))
        → get_session_data now session_id s ≡ o
        → count_in frost session_id shares o s ≡ signed s' signature
        → IsAggregate shares signature s s'
    count_in-signed none e h = cc
    count_in-signed (some (t, n, coordinator, message)) e h =
        let (enough, from) =
          if_signed (leb t (length shares)) _ (refused s signature_not_ready_yet) signature s'
            (λ x. cc) h in
        let (package_bytes, pubkey, stored, made, state) = aggregate_as-signed _ from in
        record {
          t = t;
          n = n;
          coordinator = coordinator;
          message = message;
          package_bytes = package_bytes;
          pubkey = pubkey;
          has_data = e;
          enough = enough;
          stored = stored;
          made = made;
          state = state;
        }

  -- The shares that are counted, that of the sender among them.
  pub record IsCounted (bytes : Bytes) (sender : PeerId) (signature : Bytes) (s s' : Manager)
      : Type 0 where
    pub identifier : Identifier
    pub identified : get_identifier_from_peer_id session_id sender s ≡ ok (some identifier)
    pub is_share : frost.is_share bytes ≡ true
    pub shares : Map Identifier Bytes
    pub received :
        shares ≡ insert identifier bytes (or_default (lookup session_id s.signature_shares) [])
    pub are_shares : all frost.is_share (values shares) ≡ true
    pub aggregate :
        IsAggregate shares signature
          (store_signature_share session_id identifier bytes
            (set_signing_state session_id signing_round3_initiated s))
          s'

  count_shares-signed :
      (o : Option (Map Identifier Bytes)) (signature : Bytes) (s s' : Manager)
      → count_shares frost now session_id o s ≡ signed s' signature
      → (shares : Map Identifier Bytes) × (o ≡ some shares) × IsAggregate shares signature s s'
  count_shares-signed none signature s s' h = cc
  count_shares-signed (some shares) signature s s' h =
      (shares, refl, count_in-signed shares signature s s' _ refl h)

  stored-some :
      (identifier : Identifier) (bytes : Bytes) (s : Manager) (shares : Map Identifier Bytes)
      → fetch frost.is_share session_id
          (store_signature_share session_id identifier bytes s).signature_shares
        ≡ some shares
      → (shares ≡ insert identifier bytes (or_default (lookup session_id s.signature_shares) []))
        × (all frost.is_share (values shares) ≡ true)
  unfolding store_signature_share
  stored-some identifier bytes s shares h =
      let (valid, found) = fetch-some frost.is_share session_id _ shares h in
      (found ∙ ap (λ o. or_default o []) (lookup-put_same session_id _ s.signature_shares), valid)

  share_of-signed :
      (bytes : Bytes) (signature : Bytes) (o : Outcome SessionManagerError (Option Identifier))
      (s s' : Manager)
      → share_of frost now session_id bytes o s ≡ signed s' signature
      → (identifier : Identifier) × (shares : Map Identifier Bytes) × (o ≡ ok (some identifier))
        × (shares ≡ insert identifier bytes (or_default (lookup session_id s.signature_shares) []))
        × (all frost.is_share (values shares) ≡ true)
        × IsAggregate shares signature (store_signature_share session_id identifier bytes s) s'
  share_of-signed bytes signature panic s s' h = cc
  share_of-signed bytes signature (err e) s s' h = cc
  share_of-signed bytes signature (ok none) s s' h = cc
  share_of-signed bytes signature (ok (some identifier)) s s' h =
      let (shares, e, from) = count_shares-signed _ signature _ s' h in
      let (received, valid) = stored-some identifier bytes s shares e in
      (identifier, shares, refl, received, valid, from)

  -- A share that makes this node give a signature is a share from a peer with an identifier; the shares
  -- received before with it are at least `t`, all are shares, the library makes the signature of them
  -- and of the stored package, and the state becomes that of a signature.
  pub signing_handle_signature_share-IsCounted :
      (bytes : Bytes) (sender : PeerId) (signature : Bytes) (s s' : Manager)
      → signing_handle_signature_share frost now session_id bytes sender s ≡ signed s' signature
      → IsCounted bytes sender signature s s'
  unfolding signing_handle_signature_share
  signing_handle_signature_share-IsCounted bytes sender signature s s' h =
      let (is_share, past) =
        if_not_signed (frost.is_share bytes) (refused _ deserialization_error) _ signature s'
          (λ x. cc) h in
      let (identifier, shares, e, received, valid, from) =
        share_of-signed bytes signature _ _ s' past in
      record {
        identifier = identifier;
        identified =
            unfold get_identifier_from_peer_id in
            unfold get_identifier_from_account_id in
            unfold get_validator_id in unfold set_signing_state in e;
        is_share = is_share;
        shares = shares;
        received = unfold set_signing_state in received;
        are_shares = valid;
        aggregate = from;
      }

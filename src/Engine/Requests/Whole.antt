-- ===== src/Engine/Requests/Whole.antt =====
-- pallets/uomi-engine/src/lib.rs: `run_request` as a whole, from an accepted request to its event.
use uomi_node.Prelude.{
  ℕ, Bool, true, false, ◌&&◌, Option, none, some, ◌≡◌, sym, ap, ◌∙◌, Outcome, ok, err, panic, ◌>>=◌,
  ok-injective, some-injective, leb, if◌then◌else◌,
}
use uomi_node.Prelude.Key.{nat_key}
use uomi_node.Prelude.Map.{lookup}
use uomi_node.Engine.{Cid, Data, EngineError, Chain, Storage}
use uomi_node.Engine.Requests.{
  IpfsInterface, old_unsecured_mode, accept_request, assign_old, run_request, announce, with_pallet,
}
use uomi_node.Engine.Requests.Old.{old_unsecured_mode-inputs}
use uomi_node.Engine.Requests.Accepted.{IsAccepted, accept_request-IsAccepted}

module _ {S : Type 0} (ipfs : IpfsInterface S) where
  with_pallet-same :
      (o : Option (Outcome EngineError Storage)) (s' : Storage) (t t' : S)
      → elim o [ none ↦ none | some o ↦ some (with_pallet ipfs t o) ] ≡ some (ok (s', t'))
      → (o ≡ some (ok s')) × (t' ≡ t)
  with_pallet-same none s' t t' h = cc
  with_pallet-same (some panic) s' t t' h = cc
  with_pallet-same (some (err e)) s' t t' h = cc
  with_pallet-same (some (ok s)) s' t t' h =
      let same : (s, t) ≡ (s', t') = ok-injective (some-injective h) in
      (ap (λ (st : Storage × S). some (ok st.0)) same, sym (ap (λ (st : Storage × S). st.1) same))

  -- Whether the request is an old one, `b`, or not.
  if_old-inputs :
      (b : Bool) (o : Option (Outcome EngineError Storage)) (s : Storage) (t : S) (s' : Storage)
      (t' : S)
      → (o ≡ some (ok s') → s'.inputs ≡ s.inputs)
      → (if b
          then elim o [ none ↦ none | some o ↦ some (with_pallet ipfs t o) ]
          else some (ok (s, t)))
        ≡ some (ok (s', t'))
      → (s'.inputs ≡ s.inputs) × (t' ≡ t)
  if_old-inputs true o s t s' t' keeps h =
      let (given, same) = with_pallet-same o s' t t' h in (keeps given, same)
  if_old-inputs false o s t s' t' keeps h =
      let same : (s, t) ≡ (s', t') = ok-injective (some-injective h) in
      (
        sym (ap (λ (st : Storage × S). st.0.inputs) same),
        sym (ap (λ (st : Storage × S). st.1) same),
      )

  assign_old-inputs :
      (c : Chain) (r min_validators : ℕ) (st : Storage × S) (s' : Storage) (t' : S)
      → assign_old ipfs c r min_validators st ≡ some (ok (s', t'))
      → (s'.inputs ≡ st.0.inputs) × (t' ≡ st.1)
  unfolding assign_old
  assign_old-inputs c r min_validators (s, t) s' t' h =
      if_old-inputs (leb r 47 && leb min_validators 1) (old_unsecured_mode c r s) s t s' t'
        (old_unsecured_mode-inputs c r s s') h

  announced-inputs :
      (r address nft_id : ℕ) (o : Option (Outcome EngineError (Storage × S))) (s' : Storage)
      (t' : S)
      → elim o [ none ↦ none | some o ↦ some (o >>= λ st. ok (announce ipfs r address nft_id st)) ]
        ≡ some (ok (s', t'))
      → (u : Storage) × (o ≡ some (ok (u, t'))) × (s'.inputs ≡ u.inputs)
  announced-inputs r address nft_id none s' t' h = cc
  announced-inputs r address nft_id (some panic) s' t' h = cc
  announced-inputs r address nft_id (some (err e)) s' t' h = cc
  announced-inputs r address nft_id (some (ok (s, t))) s' t' h =
      let same : announce ipfs r address nft_id (s, t) ≡ (s', t') =
        ok-injective (some-injective h) in
      (
        s,
        ap (λ (st : Storage × S). some (ok (s, st.1))) same,
        sym (ap (λ (st : Storage × S). st.0.inputs) same),
      )

  -- The steps of a request that is accepted.
  run_request-inverted :
      (c : Chain) (r address nft_id min_validators : ℕ) (m : Outcome EngineError (Storage × S))
      (s' : Storage) (t' : S)
      → elim m [
        | err e ↦ some (err e)
        | panic ↦ some panic
        | ok accepted ↦ elim (assign_old ipfs c r min_validators accepted) [
          | none ↦ none
          | some o ↦ some (o >>= λ st. ok (announce ipfs r address nft_id st))
        ]
      ]
        ≡ some (ok (s', t'))
      → (u : Storage) × (m ≡ ok (u, t')) × (s'.inputs ≡ u.inputs)
  run_request-inverted c r address nft_id min_validators (err e) s' t' h = cc
  run_request-inverted c r address nft_id min_validators panic s' t' h = cc
  run_request-inverted c r address nft_id min_validators (ok (u, v)) s' t' h =
      let (w, given, announced) =
        announced-inputs r address nft_id (assign_old ipfs c r min_validators (u, v)) s' t' h in
      let (kept, same) = assign_old-inputs c r min_validators (u, v) w t' given in
      (u, ap (λ (t : S). ok (u, t)) (sym same), announced ∙ kept)

  IsAccepted-inputs :
      (c : Chain) (r nft_id min_validators : ℕ) (s : Storage) (t : S) (u s' : Storage) (t' : S)
      → s'.inputs ≡ u.inputs
      → IsAccepted ipfs c r nft_id min_validators s t u t'
      → IsAccepted ipfs c r nft_id min_validators s t s' t'
  IsAccepted-inputs c r nft_id min_validators s t u s' t' same accepted = record {
    input = accepted.input;
    fresh = accepted.fresh;
    stored = ap (lookup r) same ∙ accepted.stored;
    others = λ q other. ap (lookup q) same ∙ accepted.others q other;
    agent = accepted.agent;
    consensus = accepted.consensus;
    usable = accepted.usable;
  }

  -- A request that `run_request` accepts, with an assignment of the first blocks or without, is stored
  -- under an id that had no input and with the file of its agent, which OPoC takes for usable at this
  -- block and at every later one, as long as the status of the file stays; no other request changes.
  pub run_request-IsAccepted :
      (c : Chain) (r address nft_id : ℕ) (input_data : Data) (input_file_cid : Cid)
      (min_validators min_blocks : ℕ) (s : Storage) (t : S) (s' : Storage) (t' : S)
      → run_request ipfs c r address nft_id input_data input_file_cid min_validators min_blocks s t
        ≡ some (ok (s', t'))
      → IsAccepted ipfs c r nft_id min_validators s t s' t'
  unfolding run_request
  run_request-IsAccepted c r address nft_id input_data input_file_cid min_validators min_blocks s t
        s' t' h =
      let (u, accepted, same) =
        run_request-inverted c r address nft_id min_validators
          (accept_request ipfs c r address nft_id input_data input_file_cid min_validators
            min_blocks s t)
          s' t' h in
      IsAccepted-inputs c r nft_id min_validators s t u s' t' same (
        accept_request-IsAccepted ipfs c r address nft_id input_data input_file_cid min_validators
          min_blocks s t u t' accepted)

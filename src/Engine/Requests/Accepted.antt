-- ===== src/Engine/Requests/Accepted.antt =====
-- What is true of a request that is accepted.
use uomi_node.Prelude.{
  ℕ, ◌≤◌, Bool, true, false, not, none, some, ◌≡◌, ◌≢◌, refl, sym, subst, ◌∙◌, inl, inr, arith,
  Outcome, ok, err, panic, >>=_inverted, ok-injective, ensure, ltb, leb, ◌==◌, Bool-cases,
}
use uomi_node.Prelude.Key.{nat_key}
use uomi_node.Prelude.Lists.{length, is_empty}
use uomi_node.Prelude.Map.{lookup, put, contains_key, lookup-put}
use uomi_node.Engine.{
  RequestId, BlockNumber, Cid, Data, EngineError, no_agent, no_status, zero_request_id,
  zero_address, zero_nft_id, request_id_exists, input_too_large, invalid_cid, Input, Chain, Storage,
  add_u256,
}
use uomi_node.Engine.Requests.{
  IpfsInterface, max_cid_size, max_data_size, min_expire_duration, or_error, check_nft_file,
  pin_input_file, accept_request, h160_to_account_id,
}
use uomi_node.Engine.Run.{status_is_usable, nft_file_is_usable}

-- The test at the acceptance implies the test of OPoC at the same block and later.
check_nft_file-usable :
    (block current : BlockNumber) (status : BlockNumber × BlockNumber)
    → check_nft_file block status ≡ ok tt
    → block ≤ current
    → status_is_usable current block status (ok status.0) ≡ ok true
unfolding check_nft_file status_is_usable add_u256
check_nft_file-usable block current (expiration, usable_from) h later = ground (arith)

ensure-not_inverted :
    (b : Bool) (e : EngineError) (u : Unit {0}) → ensure (not b) e ≡ ok u → b ≡ false
ensure-not_inverted false e u h = refl
ensure-not_inverted true e u h = cc

module _ {S : Type 0} (ipfs : IpfsInterface S) where
  pin_input_file-agents :
      (address : ℕ) (cid : Cid) (nft_id : ℕ) (t t' : S)
      → pin_input_file ipfs address cid t ≡ ok t'
      → ipfs.get_agent_cid nft_id t' ≡ ipfs.get_agent_cid nft_id t
  unfolding pin_input_file
  pin_input_file-agents address cid nft_id t t' h = elim (Bool-cases (is_empty cid)) [
    | inl no_file ↦ ground (arith)
    | inr file ↦
        ipfs.pin_file_agents (h160_to_account_id address) cid min_expire_duration nft_id t t'
          (ground (arith))
  ]

  -- An accepted request, in the inputs `s'` and with the state `t'` of the IPFS pallet.
  pub record IsAccepted (c : Chain) (r nft_id min_validators : ℕ) (s : Storage) (t : S)
      (s' : Storage) (t' : S) : Type 0 where
    pub input : Input
    pub fresh : lookup r s.inputs ≡ none
    pub stored : lookup r s'.inputs ≡ some input
    pub others : (q : RequestId) → r ≢ q → lookup q s'.inputs ≡ lookup q s.inputs
    pub agent : ipfs.get_agent_cid nft_id t ≡ ok input.nft_file_cid
    pub consensus : input.nft_required_consensus ≡ min_validators
    pub usable :
        (c' : Chain)
        → ((cid : Cid) → c'.get_cid_status cid ≡ ipfs.get_cid_status cid t')
        → (current : BlockNumber) → c.current_block_number ≤ current
        → nft_file_is_usable c' current input ≡ ok true

  or_error_inverted :
      {A : Type 0} (m : Outcome EngineError A) (e : EngineError) (a : A)
      → or_error m e ≡ ok a
      → m ≡ ok a
  or_error_inverted (ok b) e a h = h
  or_error_inverted (err e') e a h = cc
  or_error_inverted panic e a h = cc

  -- The request that the checks have let pass.
  stored-IsAccepted :
      (c : Chain) (r : RequestId) (input : Input) (s : Storage) (t u : S)
      (status : BlockNumber × BlockNumber)
      → contains_key s.inputs r ≡ false
      → input.block_number ≡ c.current_block_number
      → ipfs.get_agent_cid input.nft_id u ≡ ipfs.get_agent_cid input.nft_id t
      → ipfs.get_agent_cid input.nft_id u ≡ ok input.nft_file_cid
      → ipfs.get_cid_status input.nft_file_cid u ≡ ok status
      → check_nft_file c.current_block_number status ≡ ok tt
      → IsAccepted c r input.nft_id input.nft_required_consensus s t
          (record s { inputs = put r input s.inputs })
          u
  unfolding nft_file_is_usable
  stored-IsAccepted c r input s t u status new block agents found known fine = record {
    input = input;
    fresh = ground (arith);
    stored = ground (arith, lookup-put r r input s.inputs);
    others = λ q other. ground (arith, lookup-put r q input s.inputs);
    agent = sym agents ∙ found;
    consensus = refl;
    usable = λ c' same current later. ground (
      arith,
      same input.nft_file_cid,
      check_nft_file-usable c.current_block_number current status fine later,
    );
  }

  pub accept_request-IsAccepted :
      (c : Chain) (r address nft_id : ℕ) (input_data : Data) (input_file_cid : Cid)
      (min_validators min_blocks : ℕ) (s : Storage) (t : S) (s' : Storage) (t' : S)
      → accept_request ipfs c r address nft_id input_data input_file_cid min_validators min_blocks s
          t
        ≡ ok (s', t')
      → IsAccepted c r nft_id min_validators s t s' t'
  unfolding accept_request
  accept_request-IsAccepted c r address nft_id input_data input_file_cid min_validators min_blocks s
        t s' t' h =
      let (_, _, h1) = >>=_inverted (ensure (ltb 0 r) zero_request_id) _ (sym h) in
      let (_, _, h2) = >>=_inverted (ensure (not (address == 0)) zero_address) _ (sym h1) in
      let (_, _, h3) = >>=_inverted (ensure (ltb 0 nft_id) zero_nft_id) _ (sym h2) in
      let (_, new, h4) =
        >>=_inverted (ensure (not (contains_key s.inputs r)) request_id_exists) _ (sym h3) in
      let (_, _, h5) =
        >>=_inverted (ensure (leb (length input_data) max_data_size) input_too_large) _ (sym h4) in
      let (_, _, h6) =
        >>=_inverted (ensure (leb (length input_file_cid) max_cid_size) invalid_cid) _ (sym h5) in
      let (u, pinned, h7) =
        >>=_inverted (pin_input_file ipfs address input_file_cid t) _ (sym h6) in
      let (cid, found, h8) =
        >>=_inverted (or_error (ipfs.get_agent_cid nft_id u) no_agent) _ (sym h7) in
      let (status, known, h9) =
        >>=_inverted (or_error (ipfs.get_cid_status cid u) no_status) _ (sym h8) in
      let (_, fine, h10) = >>=_inverted (check_nft_file c.current_block_number status) _ (sym h9) in
      let input : Input = record {
        block_number = c.current_block_number;
        nft_id = nft_id;
        nft_required_consensus = min_validators;
        nft_execution_max_time = min_blocks;
        nft_file_cid = cid;
        input_data = input_data;
        input_file_cid = input_file_cid;
      } in
      let accepted =
        stored-IsAccepted c r input s t u status (ensure-not_inverted _ request_id_exists _ new)
          refl (pin_input_file-agents address input_file_cid nft_id t u pinned)
          (or_error_inverted _ no_agent cid found) (or_error_inverted _ no_status status known)
          fine in
      subst (λ (st : Storage × S). IsAccepted c r nft_id min_validators s t st.0 st.1)
        (ok-injective h10) accepted

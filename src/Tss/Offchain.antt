-- ===== src/Tss/Offchain.antt =====
-- pallets/tss/src/lib.rs: the off-chain worker, which asks for ids of new validators.
use uomi_node.Prelude.{
  ℕ, ◌+◌, ◌<◌, ◌≤◌, ◌%◌, ◌^◌, Bool, true, not, Option, none, some, ◌≡◌, refl, subst, List, [], ◌∷◌,
  arith, ok, leb, ◌==◌, if◌then◌else◌,
}
use uomi_node.Prelude.Key.{nat_key}
use uomi_node.Prelude.Lists.{length, filter, is_empty, contains}
use uomi_node.Prelude.Map.{contains_key}
use uomi_node.Tss.{AccountId, Storage, unsigned, max_number_of_shares, temp_block_for_new_opoc}
use uomi_node.Tss.Numbers.{update_validators, get_validator_id}
use uomi_node.Tss.Numbers.Matching.{IsMatched, update_validators-IsGrown}

-- The validators that need ids.
unfoldable pub new_validators : Storage → List AccountId → List AccountId
new_validators s = filter (λ v. not (contains_key s.validator_ids v))

-- The list that the unsigned `update_validators` is sent with, if one is sent: `n` and
-- `current_block_number` are the block, `can_sign` tells whether the node holds a key.
unfoldable pub offchain_worker : ℕ → ℕ → Bool → List AccountId → Storage → Option (List AccountId)
offchain_worker n current_block_number can_sign current_validators s =
    if leb temp_block_for_new_opoc current_block_number
    then if n % 10 == 0
      then if is_empty (new_validators s current_validators)
        then none
        else if can_sign
        then some current_validators
        else none
      else none
    else none

nothing_new :
    (s : Storage) (vs : List AccountId)
    → ((v : AccountId) → contains vs v ≡ true → (i : ℕ) × (get_validator_id v s ≡ some i))
    → new_validators s vs ≡ []
unfolding new_validators get_validator_id
nothing_new s [] known = refl
nothing_new s (v ∷ vs) known =
    ground (arith, known v, nothing_new s vs (λ w listed. known w (ground (arith))))

all_sent :
    (n block : ℕ) (can_sign : Bool) (validators sent : List AccountId) (s : Storage)
    → offchain_worker n block can_sign validators s ≡ some sent
    → validators ≡ sent
unfolding offchain_worker
all_sent n block can_sign validators sent s h = ground (arith)

-- One update is enough: once what the worker sends is executed, where the ids are in one-to-one
-- correspondence with the accounts and the counter has room, the worker of no later block has
-- anything to send for the same validators.
pub offchain_worker-settles :
    (n block : ℕ) (can_sign : Bool) (validators sent : List AccountId) (s : Storage)
    → offchain_worker n block can_sign validators s ≡ some sent
    → IsMatched s
    → length validators ≤ max_number_of_shares
    → s.next_validator_id + length validators < 2 ^ 32
    → (s' : Storage) × (update_validators unsigned sent s ≡ ok s')
      × ((n' block' : ℕ) (can_sign' : Bool)
          → offchain_worker n' block' can_sign' validators s' ≡ none)
offchain_worker-settles n block can_sign validators sent s h m short room =
    let (s', done, active, grown, known) = update_validators-IsGrown validators s m short room in
    (
      s',
      subst (λ x. update_validators unsigned x s ≡ ok s')
          (all_sent n block can_sign validators sent s h) done,
      λ n' block' can_sign'.
          unfold offchain_worker in rw (nothing_new s' validators known) (ground (arith)),
    )

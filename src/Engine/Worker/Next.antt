-- ===== src/Engine/Worker/Next.antt =====
-- The request that the worker of a node takes next.
use uomi_node.Prelude.{
  ◌≤◌, Bool, true, false, not, ◌&&◌, ◌≡◌, ◌⊎◌, refl, sym, subst, ◌∙◌, inl, inr, List, [], ◌∷◌,
  arith, leb, ◌==◌, ==_iff, Bool-cases,
}
use uomi_node.Prelude.Key.{nat_key, pair_key}
use uomi_node.Prelude.Lists.{take, contains}
use uomi_node.Prelude.Map.{Map, lookup, keys, contains_key, or_default}
use uomi_node.Engine.{AccountId, RequestId, BlockNumber, Input, Storage}
use uomi_node.Engine.Run.{max_inputs_managed_per_block}
use uomi_node.Engine.Worker.{
  assigned_requests, insert_request, sort_requests, first_request,
  offchain_find_request_with_min_expiration_block_number,
}

-- Requests in general, of which some wait, with their expirations.
module _ (waits : RequestId → Bool) (expiration_of : RequestId → BlockNumber) where
  -- Whether a request is one of the list and waits.
  abbrev pub is_pending : List RequestId → RequestId → Bool
  is_pending requests q = contains requests q && waits q

  -- A request that waits, and of those that do has the least expiration.
  pub record IsNext (requests : List RequestId) (r : RequestId × BlockNumber) : Type 0 where
    pub pending : is_pending requests r.0 ≡ true
    pub expiration : r.1 ≡ expiration_of r.0
    pub least : (q : RequestId) → is_pending requests q ≡ true → r.1 ≤ expiration_of q

  abbrev HeadIsNext : List RequestId → List (RequestId × BlockNumber) → Type 0
  HeadIsNext requests [] = (q : RequestId) → is_pending requests q ≡ false
  HeadIsNext requests (r ∷ rest) = IsNext requests r

  skipped :
      (requests : List RequestId) (r q : RequestId)
      → waits r ≡ false
      → is_pending (r ∷ requests) q ≡ is_pending requests q
  skipped requests r q idle = elim (Bool-cases (r == q)) [
    | inl same ↦
        ground (arith, same, subst (λ (q : RequestId). waits q ≡ false) ((==_iff r q).0 same) idle)
    | inr other ↦ ground (arith, other)
  ]

  skip-HeadIsNext :
      (requests : List RequestId) (r : RequestId) (sorted : List (RequestId × BlockNumber))
      → waits r ≡ false
      → HeadIsNext requests sorted
      → HeadIsNext (r ∷ requests) sorted
  skip-HeadIsNext requests r [] idle h = λ q. skipped requests r q idle ∙ h q
  skip-HeadIsNext requests r (p ∷ rest) idle h = record {
    pending = skipped requests r p.0 idle ∙ h.pending;
    expiration = h.expiration;
    least = λ q on. h.least q (sym (skipped requests r q idle) ∙ on);
  }

  -- A bound of the expirations that holds of `r` and of all the others.
  least_cons :
      (requests : List RequestId) (r : RequestId) (bound : BlockNumber)
      → bound ≤ expiration_of r
      → ((q : RequestId) → is_pending requests q ≡ true → bound ≤ expiration_of q)
      → (q : RequestId) → is_pending (r ∷ requests) q ≡ true
      → bound ≤ expiration_of q
  least_cons requests r bound here others q on = elim (Bool-cases (r == q)) [
    | inl same ↦ subst (λ (q : RequestId). bound ≤ expiration_of q) ((==_iff r q).0 same) here
    | inr other ↦ others q (ground (arith, other, on))
  ]

  pending_head :
      (requests : List RequestId) (r : RequestId)
      → waits r ≡ true
      → is_pending (r ∷ requests) r ≡ true
  pending_head requests r waiting = ground (arith, ==_iff r r)

  insert-HeadIsNext :
      (requests : List RequestId) (r : RequestId) (sorted : List (RequestId × BlockNumber))
      → waits r ≡ true
      → HeadIsNext requests sorted
      → HeadIsNext (r ∷ requests) (insert_request (r, expiration_of r) sorted)
  unfolding insert_request
  insert-HeadIsNext requests r [] waiting h = record {
    pending = pending_head requests r waiting;
    expiration = refl;
    least =
        least_cons requests r (expiration_of r) (omega arith)
          (λ q on. absurd (ground (arith, h q, on)));
  }
  insert-HeadIsNext requests r (p ∷ rest) waiting h =
      elim (Bool-cases (leb (expiration_of r) p.1)) [
        | inl first ↦ rw first (record {
          pending = pending_head requests r waiting;
          expiration = refl;
          least =
              least_cons requests r (expiration_of r) (omega arith)
                (λ q on. ground (arith, first, h.least q on));
        })
        | inr later ↦ rw later (record {
          pending = ground (arith, h.pending);
          expiration = h.expiration;
          least = least_cons requests r p.1 (ground (arith, later)) h.least;
        })
      ]

module _ (account : AccountId) (s : Storage) where
  -- An assigned request without an output of the account.
  abbrev pub is_unanswered : RequestId → Bool
  is_unanswered q =
      contains_key s.opoc_assignment (q, account) && not (contains_key s.nodes_outputs (q, account))

  abbrev pub expiration_of : RequestId → BlockNumber
  expiration_of q = or_default (lookup (q, account) s.opoc_assignment) 0

  sort_requests-HeadIsNext :
      (m : Map RequestId Input)
      → HeadIsNext is_unanswered expiration_of
          (keys m)
          (sort_requests (assigned_requests account s m))
  unfolding sort_requests assigned_requests
  sort_requests-HeadIsNext [] = λ q. refl
  sort_requests-HeadIsNext ((r, input) ∷ m) =
      let others = sort_requests-HeadIsNext m in
      elim (Bool-cases (contains_key s.opoc_assignment (r, account))) [
        | inr free ↦
            rw free (
              skip-HeadIsNext is_unanswered expiration_of (keys m) r _ (ground (arith, free))
                others)
        | inl assigned ↦ elim (Bool-cases (contains_key s.nodes_outputs (r, account))) [
          | inl done ↦
              rw (assigned, done)
                (skip-HeadIsNext is_unanswered expiration_of (keys m) r _ (ground (arith, done))
                  others)
          | inr fresh ↦
              rw (assigned, fresh)
                (insert-HeadIsNext is_unanswered expiration_of (keys m) r _
                  (ground (arith, assigned, fresh)) others)
        ]
      ]

  -- The next request of an account is 0 where none of the requests that a run looks at waits for its
  -- output; otherwise it is one that does, with its expiration, which is the least of those.
  pub find_request-IsNext :
      (let requests = keys (take max_inputs_managed_per_block s.inputs) in
        let r = offchain_find_request_with_min_expiration_block_number account s in
        (((q : RequestId) → is_pending is_unanswered expiration_of requests q ≡ false)
          × (r ≡ (0, 0)))
        ⊎ IsNext is_unanswered expiration_of requests r)
  unfolding offchain_find_request_with_min_expiration_block_number
  find_request-IsNext =
      let m = take max_inputs_managed_per_block s.inputs in
      of_head (sort_requests (assigned_requests account s m)) (sort_requests-HeadIsNext m)
    where
      of_head :
          (sorted : List (RequestId × BlockNumber))
          → HeadIsNext is_unanswered expiration_of
              (keys (take max_inputs_managed_per_block s.inputs))
              sorted
          → (((q : RequestId)
                → is_pending is_unanswered expiration_of
                    (keys (take max_inputs_managed_per_block s.inputs))
                    q
                  ≡ false)
              × (first_request sorted ≡ (0, 0)))
            ⊎ IsNext is_unanswered expiration_of
                (keys (take max_inputs_managed_per_block s.inputs))
                (first_request sorted)
      of_head [] none_waits = inl (none_waits, refl)
      of_head (r ∷ rest) next = inr next

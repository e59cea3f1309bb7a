-- ===== src/Channel/Funding.antt =====
-- The funding transaction of a channel: what it moves, and that the session's policy allows it.
use ckb_controller.Base.{ℕ, ◌+◌, ◌-◌, ◌<◌, ◌≤◌, ◌≡◌, refl, arith, false, none, List, [], ◌∷◌}
use ckb_controller.Bytes.Equality.{bytes_eq_refl}
use ckb_controller.Host.{Host, CellOutput}
use ckb_controller.Lock.Policy.{same_code}
use ckb_controller.Lock.Policy.Allowed.{Allowed, finished, own, proven}
use ckb_controller.Channel.Rail.{ChannelConfig, build_funding_tx, channel_proof_region}
use ckb_controller.Operator.Transitions.{cells_of}
use ckb_controller.Sdk.Account.{proof_region}
use ckb_controller.Sdk.Merkle

abbrev pub capacity_out : List CellOutput → ℕ
capacity_out [] = 0
capacity_out (o ∷ outputs) = o.capacity + capacity_out outputs

-- The transaction moves exactly the capacity of the account if the budget is at most that, and
-- exactly the budget, more than the account has, if it is not.
pub build_funding_tx-capacity :
    (cfg : ChannelConfig) (budget : ℕ)
    → ((budget ≤ cfg.account_capacity)
        → capacity_out (build_funding_tx cfg budget).tx.raw.outputs ≡ cfg.account_capacity)
      × ((cfg.account_capacity < budget)
          → capacity_out (build_funding_tx cfg budget).tx.raw.outputs ≡ budget)
unfolding build_funding_tx
build_funding_tx-capacity cfg budget = (λ h. omega (arith, h), λ h. omega (arith, h))

-- The session lock allows the outputs of a funding transaction by the channel's proof region, under
-- the policy root that is the leaf of the funding lock, if that lock is not the account's own code.
pub build_funding_tx-Allowed :
    (host : Host) (cfg : ChannelConfig) (budget : ℕ)
    → same_code cfg.funding_lock cfg.account_lock ≡ false
    → Allowed host
        (Merkle.policy_leaf host.blake2b_256 (host.calc_script_hash cfg.funding_lock))
        cfg.account_lock
        (cells_of
          (build_funding_tx cfg budget).tx.raw.outputs
          (build_funding_tx cfg budget).tx.raw.outputs_data)
        channel_proof_region
unfolding build_funding_tx channel_proof_region proof_region Merkle.policy_leaf
build_funding_tx-Allowed host cfg budget other =
    own
      {c = record {
        capacity = cfg.account_capacity - budget;
        lock = cfg.account_lock;
        type_script = none;
        content = [];
      }}
      (unfold same_code in
        rw (bytes_eq_refl cfg.account_lock.code_hash, bytes_eq_refl cfg.account_lock.hash_type))
      (proven {rest = []} other
        (record {
          kind = 1;
          leaf = host.blake2b_256 (host.calc_script_hash cfg.funding_lock);
          siblings = [];
          shape = refl;
          leaf_is = refl;
          hashes = tt;
          proven =
              unfold Merkle.merkle_verify Merkle.climb in
              bytes_eq_refl (host.blake2b_256 (host.calc_script_hash cfg.funding_lock));
        })
        finished)

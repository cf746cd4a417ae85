-- ===== src/Context/Contracts.antt =====
-- The contract collections of typescript/optics-provider/src/optics/contracts: `CoreContracts` and
-- `BridgeContracts`. A text is falsy if it is empty, a number if it is 0.
use optics_monorepo.Prelude.{
  ℕ, zero, suc, Option, none, some, List, [], ◌∷◌, map, Text, Result, ok, err, missing_key,
  missing_router,
}
use optics_monorepo.Prelude.Map
use optics_monorepo.Prelude.Map.{Map}
use optics_monorepo.Context.Ethers.{Ethers, Connection}

pub record ReplicaInfo : Type 0 where
  pub domain : ℕ
  pub address : Text

-- The interface `Core`; `none` is an absent key.
pub record CoreInfo : Type 0 where
  pub id : Option ℕ
  pub home : Option Text
  pub replicas : Option (List ReplicaInfo)

-- `Address | ProxyInfo`
pub data Router : Type 0 where
  plain : Text → Router
  proxied : Text → Router

pub record BridgeInfo : Type 0 where
  pub id : Option ℕ
  pub bridge_router : Option Router
  pub eth_helper : Option Text

abbrev truthy_number : Option ℕ → Option ℕ
truthy_number none = none
truthy_number (some zero) = none
truthy_number (some (suc n)) = some (suc n)

abbrev truthy_text : Option Text → Option Text
truthy_text none = none
truthy_text (some []) = none
truthy_text (some (c ∷ s)) = some (c ∷ s)

abbrev truthy_router : Option Router → Option Text
truthy_router none = none
truthy_router (some (plain a)) = truthy_text (some a)
truthy_router (some (proxied a)) = some a

module _ (E : Ethers) where
  pub record InternalReplica : Type 0 where
    pub domain : ℕ
    pub contract : E.Contract

  pub record CoreContracts : Type 0 where
    pub domain : ℕ
    pub home : E.Contract
    pub replicas : Map InternalReplica

  pub record BridgeContracts : Type 0 where
    pub domain : ℕ
    pub bridge_router : E.Contract
    pub eth_helper : Option E.Contract

  module _ (signer : Option E.Signer) where
    -- The `forEach` of the constructor.
    unfoldable pub enroll_replicas : List ReplicaInfo → Map InternalReplica → Map InternalReplica
    enroll_replicas [] m = m
    enroll_replicas (r ∷ rs) m =
        enroll_replicas rs
          (Map.set r.domain (record { contract = E.attach signer r.address; domain = r.domain }) m)

    unfoldable pub new_core : ℕ → Text → List ReplicaInfo → CoreContracts
    unfolding enroll_replicas
    new_core domain home replicas = record {
      domain = domain;
      home = E.attach signer home;
      replicas = enroll_replicas replicas [];
    }

    unfoldable pub create_core :
        Option ℕ → Option Text → Option (List ReplicaInfo) → Result CoreContracts
    unfolding new_core
    create_core (some id) (some home) (some replicas) = ok (new_core id home replicas)
    create_core _ _ _ = err missing_key

    unfoldable pub core_from_object : CoreInfo → Result CoreContracts
    unfolding create_core
    core_from_object info =
        create_core (truthy_number info.id) (truthy_text info.home) info.replicas

    unfoldable pub new_bridge : ℕ → Text → Option Text → BridgeContracts
    new_bridge domain router helper = record {
      domain = domain;
      bridge_router = E.attach signer router;
      eth_helper = elim (truthy_text helper) [ none ↦ none | some a ↦ some (E.attach signer a) ];
    }

    unfoldable pub create_bridge : Option ℕ → Option Text → Option Text → Result BridgeContracts
    unfolding new_bridge
    create_bridge (some id) (some router) helper = ok (new_bridge id router helper)
    create_bridge _ _ _ = err missing_router

    unfoldable pub bridge_from_object : BridgeInfo → Result BridgeContracts
    unfolding create_bridge
    bridge_from_object info =
        create_bridge (truthy_number info.id) (truthy_router info.bridge_router) info.eth_helper

  module _ (c : Connection E.Provider E.Signer) where
    unfoldable pub connect_core : CoreContracts → CoreContracts
    connect_core core = record core {
      home = E.connect core.home c;
      replicas =
          Map.map_values (λ (r : InternalReplica). record r { contract = E.connect r.contract c })
            core.replicas;
    }

    unfoldable pub connect_bridge : BridgeContracts → BridgeContracts
    connect_bridge bridge = record bridge {
      bridge_router = E.connect bridge.bridge_router c;
      eth_helper = elim bridge.eth_helper [ none ↦ none | some h ↦ some (E.connect h c) ];
    }

  unfoldable pub core_to_object : CoreContracts → CoreInfo
  core_to_object core = record {
    id = some core.domain;
    home = some (E.address core.home);
    replicas = some (
        map (λ (r : InternalReplica). record { domain = r.domain; address = E.address r.contract })
          (Map.values core.replicas));
  }

  unfoldable pub bridge_to_object : BridgeContracts → BridgeInfo
  bridge_to_object bridge = record {
    id = some bridge.domain;
    bridge_router = some (plain (E.address bridge.bridge_router));
    eth_helper = elim bridge.eth_helper [ none ↦ none | some h ↦ some (E.address h) ];
  }

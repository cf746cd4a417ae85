-- ===== src/Tokens/Asset.antt =====
-- `asset`, `assetAtOrigin` and `assetAtDestination` of
-- typescript/optics-provider/src/optics/messages/BridgeMessage.ts.
use optics_monorepo.Prelude.{Option, Result, ok, ◌>>=◌}
use optics_monorepo.Prelude.Map
use optics_monorepo.Wire.Hex.{HexLib}
use optics_monorepo.Context.Ethers.{Ethers}
use optics_monorepo.Context.State.{Context}
use optics_monorepo.Messages.Ids.{text}
use optics_monorepo.Messages.Bridge.{number}
use optics_monorepo.Events.Chain.{Chain}
use optics_monorepo.Lifecycle.Bridge.{BridgeMessage}
use optics_monorepo.Tokens.Resolve.{ResolvedTokenInfo, resolve_representations}

module _ {E : Ethers} (H : HexLib) (C : Chain E) (s : Context E) where
  unfoldable pub asset : BridgeMessage E → Result (ResolvedTokenInfo E)
  asset b =
      resolve_representations H C (record { domain = number b.token_domain; id = text b.token_id })
        s

  unfoldable pub asset_at_origin : BridgeMessage E → Result (Option E.Contract)
  unfolding asset
  asset_at_origin b = asset b >>= λ info. ok (Map.get b.base.message.from info.tokens)

  unfoldable pub asset_at_destination : BridgeMessage E → Result (Option E.Contract)
  unfolding asset
  asset_at_destination b = asset b >>= λ info. ok (Map.get b.base.message.destination info.tokens)

-- ===== src/Config/StagingCommunity.antt =====
-- The domains of typescript/optics-provider/src/optics/domains/stagingCommunity.ts.
use optics_monorepo.Prelude.{none, some, List, [], ◌∷◌, codes}
use optics_monorepo.Context.Contracts.{plain}
use optics_monorepo.Context.Optics.{OpticsDomain}

unfoldable pub alfajores : OpticsDomain
alfajores = record {
  base = record { id = 1000; name = codes "alfajores"; paginate = none };
  core = record {
    id = some 1000;
    home = some (codes "0xDf89d5d4039ada018BCDb992Bb6C2e05fEf86328");
    replicas = some (
        (record { domain = 2000; address = codes "0xC9e581Cd4fF6533f5ccBA4Dc5d5f642B8b658B93" })
        ∷ (record { domain = 3000; address = codes "0x15fA9169F7495162ac52b4A7957c9054097Ab0FF" })
        ∷ (record { domain = 4000; address = codes "0x4eAD31e37b950B32b9EBbE747f0ef4BffAc336a5" })
        ∷ []);
  };
  bridge = record {
    id = some 1000;
    bridge_router = some (plain (codes "0xe29Abbc3669064d8aF9F6BE378179a133664a92C"));
    eth_helper = none;
  };
}

unfoldable pub ropsten : OpticsDomain
ropsten = record {
  base = record { id = 2000; name = codes "ropsten"; paginate = none };
  core = record {
    id = some 2000;
    home = some (codes "0x7E26E170dB94E81979927d2D39CB703048Ad599D");
    replicas = some (
        (record { domain = 1000; address = codes "0x30dAE25E9eBd644841d1A1fF25e303331B1CdEb3" })
        ∷ (record { domain = 3000; address = codes "0xF782C67AA111a9D75f6ccEf3d7aDB54620D5A8e9" })
        ∷ (record { domain = 4000; address = codes "0x15C1edbf6E6161d50d58682dF7587F0d61db5C38" })
        ∷ []);
  };
  bridge = record {
    id = some 2000;
    bridge_router = some (plain (codes "0xe29Abbc3669064d8aF9F6BE378179a133664a92C"));
    eth_helper = some (codes "0x9A0e88a3D8CF09F3dc5Ba65640299DE3D87f926C");
  };
}

unfoldable pub kovan : OpticsDomain
kovan = record {
  base = record { id = 3000; name = codes "kovan"; paginate = none };
  core = record {
    id = some 3000;
    home = some (codes "0x7E26E170dB94E81979927d2D39CB703048Ad599D");
    replicas = some (
        (record { domain = 1000; address = codes "0x30dAE25E9eBd644841d1A1fF25e303331B1CdEb3" })
        ∷ (record { domain = 2000; address = codes "0x15C1edbf6E6161d50d58682dF7587F0d61db5C38" })
        ∷ (record { domain = 4000; address = codes "0xF782C67AA111a9D75f6ccEf3d7aDB54620D5A8e9" })
        ∷ []);
  };
  bridge = record {
    id = some 3000;
    bridge_router = some (plain (codes "0x9A0e88a3D8CF09F3dc5Ba65640299DE3D87f926C"));
    eth_helper = some (codes "0x8c7510966c0312dEb2305A5E1C923CE48bbf55Ce");
  };
}

unfoldable pub gorli : OpticsDomain
gorli = record {
  base = record { id = 4000; name = codes "gorli"; paginate = none };
  core = record {
    id = some 4000;
    home = some (codes "0xDf89d5d4039ada018BCDb992Bb6C2e05fEf86328");
    replicas = some (
        (record { domain = 1000; address = codes "0x15fA9169F7495162ac52b4A7957c9054097Ab0FF" })
        ∷ (record { domain = 2000; address = codes "0xC9e581Cd4fF6533f5ccBA4Dc5d5f642B8b658B93" })
        ∷ (record { domain = 3000; address = codes "0x4eAD31e37b950B32b9EBbE747f0ef4BffAc336a5" })
        ∷ []);
  };
  bridge = record {
    id = some 4000;
    bridge_router = some (plain (codes "0xe29Abbc3669064d8aF9F6BE378179a133664a92C"));
    eth_helper = some (codes "0x9A0e88a3D8CF09F3dc5Ba65640299DE3D87f926C");
  };
}

unfoldable pub staging_community_domains : List OpticsDomain
unfolding alfajores kovan ropsten gorli
staging_community_domains = alfajores ∷ kovan ∷ ropsten ∷ gorli ∷ []
